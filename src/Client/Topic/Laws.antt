-- ===== src/Client/Topic/Laws.antt =====
-- etcd_client.go: who sets a topic.
use etcdircd.Prelude.{
  ℕ, ◌≡◌, refl, ◌⊎◌, inl, inr, true, false, Option, none, some, Str, ◌==◌, nat_eq, Bool-cases,
  Option-cases,
}
use etcdircd.Result.{ok, err, decode_failed}
use etcdircd.Exec.{◌>>=◌}
use etcdircd.Etcd.{Etcd, no_option}
use etcdircd.Mode.{has}
use etcdircd.Channel.{ChannelCtl, ChannelNick, ChannelNicks, find_nick}
use etcdircd.Key.{key_chan_ctl, key_chan_nicks, key_chan_msg}
use etcdircd.Tables.{set_ctl}
use etcdircd.Tables.Store.{tables, tables-put_ctl, tables-put_chan_msg}
use etcdircd.Client.{Client, Scope}
use etcdircd.Client.Stm.{transfer, not_failed}
use etcdircd.Client.Kick.{lacks_op}
use etcdircd.Client.Kick.Laws.{HasOps}
use etcdircd.Client.Topic.{TopicFlags, topic_msg, topic_write, topic_member, topic_given, topic_tx}

-- The view after a topic is set.
abbrev pub topic_set : (e : Etcd) → Client → Str → Str → ChannelCtl → e.View → e.View
topic_set e ec ch msg c v =
    e.put (key_chan_msg ch) (e.msg_codec.encode (topic_msg ec ch msg)) no_option
      (e.put (key_chan_ctl ch) (e.ctl_codec.encode (record c { topic = msg })) no_option v)

-- A topic was given, and the channel is not restricted, or the client is an operator of it. The tables
-- change in the topic of the channel.
pub record Set (e : Etcd) (ec : Client) (lid : ℕ) (ch : Str) (given : Option Str) (v v' : e.View)
    : Type 0 where
  pub topic : Str
  pub wanted : given ≡ some topic
  pub channel : ChannelCtl
  pub stored : e.ctl_codec.decode (e.get v (key_chan_ctl ch)) ≡ some channel
  pub allowed : (has channel.mode b't' ≡ false) ⊎ HasOps e ec lid ch v
  pub view : v' ≡ topic_set e ec ch topic channel v
  pub after : tables e v' ≡ set_ctl ch (record channel { topic = topic }) (tables e v)

module _ (e : Etcd) (ec : Client) (lid : ℕ) (ch : Str) (given : Option Str) (fl : TopicFlags)
    (v : e.View) where
  abbrev at_start : Scope TopicFlags e.View
  at_start = record { flags = fl; view = v }

  topic_absent :
      (e.rev v (key_chan_ctl ch) == 0) ≡ true
      → topic_tx e ec lid ch given at_start
        ≡ (ok tt, record { flags = record fl { no_chan = true }; view = v })
  unfolding topic_tx ◌>>=◌
  topic_absent gone = rw gone

  module _ (here : (e.rev v (key_chan_ctl ch) == 0) ≡ false) where
    topic_garbled :
        e.ctl_codec.decode (e.get v (key_chan_ctl ch)) ≡ none
        → (topic_tx e ec lid ch given at_start).0 ≡ err decode_failed
    unfolding topic_tx ◌>>=◌
    topic_garbled bad = rw (here, bad)

    module _ (c : ChannelCtl) (hc : e.ctl_codec.decode (e.get v (key_chan_ctl ch)) ≡ some c) where
      topic_read :
          given ≡ none
          → topic_tx e ec lid ch given at_start
            ≡ (ok tt, record { flags = record fl { no_chan = false; topic = c.topic }; view = v })
      unfolding topic_tx topic_given ◌>>=◌
      topic_read asked = rw (here, hc, asked)

      module _ (msg : Str) (told : given ≡ some msg) where
        topic_open :
            has c.mode b't' ≡ false
            → topic_tx e ec lid ch given at_start ≡ (
              ok tt,
              record { flags = record fl { no_chan = false }; view = topic_set e ec ch msg c v },
            )
        unfolding topic_tx topic_given topic_write ◌>>=◌
        topic_open open' = rw (here, hc, told, open')

        module _ (restricted : has c.mode b't' ≡ true) where
          topic_no_list :
              e.nicks_codec.decode (e.get v (key_chan_nicks ch lid)) ≡ none
              → (topic_tx e ec lid ch given at_start).0 ≡ err decode_failed
          unfolding topic_tx topic_given ◌>>=◌
          topic_no_list bad = rw (here, hc, told, restricted, bad)

          module _ (cns : ChannelNicks)
              (hn : e.nicks_codec.decode (e.get v (key_chan_nicks ch lid)) ≡ some cns) where
            topic_stranger :
                find_nick cns ec.nick ≡ none
                → topic_tx e ec lid ch given at_start ≡ (
                  ok tt,
                  record { flags = record fl { no_chan = false; not_on_chan = true }; view = v },
                )
            unfolding topic_tx topic_given topic_member ◌>>=◌
            topic_stranger missing = rw (here, hc, told, restricted, hn, missing)

            topic_not_op :
                (n : ChannelNick)
                → find_nick cns ec.nick ≡ some n
                → lacks_op n.mode ≡ true
                → topic_tx e ec lid ch given at_start ≡ (
                  ok tt,
                  record {
                    flags = record fl { no_chan = false; not_on_chan = false; not_op = true };
                    view = v;
                  },
                )
            unfolding topic_tx topic_given topic_member ◌>>=◌
            topic_not_op n found lacks = rw (here, hc, told, restricted, hn, found, lacks)

            topic_op :
                (n : ChannelNick)
                → find_nick cns ec.nick ≡ some n
                → lacks_op n.mode ≡ false
                → topic_tx e ec lid ch given at_start ≡ (
                  ok tt,
                  record {
                    flags = record fl { no_chan = false; not_on_chan = false; not_op = false };
                    view = topic_set e ec ch msg c v;
                  },
                )
            unfolding topic_tx topic_given topic_member topic_write ◌>>=◌
            topic_op n found op = rw (here, hc, told, restricted, hn, found, op)

  abbrev TopicOut : Scope TopicFlags e.View → Type 0
  TopicOut s = (s.view ≡ v) ⊎ Set e ec lid ch given v s.view

  tables-topic_set :
      (msg : Str) (c : ChannelCtl)
      → tables e (topic_set e ec ch msg c v) ≡ set_ctl ch (record c { topic = msg }) (tables e v)
  tables-topic_set msg c = rw (tables-put_chan_msg, tables-put_ctl)

  as_restricted :
      (s : Scope TopicFlags e.View)
      → topic_tx e ec lid ch given at_start ≡ (ok tt, s)
      → (e.rev v (key_chan_ctl ch) == 0) ≡ false
      → (c : ChannelCtl) → e.ctl_codec.decode (e.get v (key_chan_ctl ch)) ≡ some c
      → (msg : Str) → given ≡ some msg
      → has c.mode b't' ≡ true
      → TopicOut s
  as_restricted s run here c hc msg told restricted =
      elim (Option-cases (e.nicks_codec.decode (e.get v (key_chan_nicks ch lid)))) [
        | inl bad ↦ absurd (not_failed (topic_no_list here c hc msg told restricted bad) run)
        | inr (cns, hn) ↦ elim (Option-cases (find_nick cns ec.nick)) [
          | inl missing ↦
              transfer TopicOut (topic_stranger here c hc msg told restricted cns hn missing) run
                (inl refl)
          | inr (n, found) ↦ elim (Bool-cases (lacks_op n.mode)) [
            | inl lacks ↦
                transfer TopicOut (topic_not_op here c hc msg told restricted cns hn n found lacks)
                  run (inl refl)
            | inr op ↦
                transfer TopicOut (topic_op here c hc msg told restricted cns hn n found op) run (
                  inr (record {
                    topic = msg;
                    wanted = told;
                    channel = c;
                    stored = hc;
                    allowed =
                        inr (record {
                          listed = cns;
                          member = n;
                          stored = hn;
                          found = found;
                          ops = op;
                        });
                    view = refl;
                    after = tables-topic_set msg c;
                  }))
          ]
        ]
      ]

  -- A closure of `Topic` that succeeds has written nothing, or a topic was given, the channel is not
  -- restricted or the client is an operator of it, and the one change in the tables is the topic. So a
  -- member with a voice sets no topic of a restricted channel.
  pub topic_tx-Set :
      (s : Scope TopicFlags e.View)
      → topic_tx e ec lid ch given (record { flags = fl; view = v }) ≡ (ok tt, s)
      → (s.view ≡ v) ⊎ Set e ec lid ch given v s.view
  topic_tx-Set s run = elim (Bool-cases (e.rev v (key_chan_ctl ch) == 0)) [
    | inl gone ↦ transfer TopicOut (topic_absent gone) run (inl refl)
    | inr here ↦ elim (Option-cases (e.ctl_codec.decode (e.get v (key_chan_ctl ch)))) [
      | inl bad ↦ absurd (not_failed (topic_garbled here bad) run)
      | inr (c, hc) ↦ elim (Option-cases given) [
        | inl asked ↦ transfer TopicOut (topic_read here c hc asked) run (inl refl)
        | inr (msg, told) ↦ elim (Bool-cases (has c.mode b't')) [
          | inl restricted ↦ as_restricted s run here c hc msg told restricted
          | inr open' ↦ transfer TopicOut (topic_open here c hc msg told open') run (
              inr (record {
                topic = msg;
                wanted = told;
                channel = c;
                stored = hc;
                allowed = inl open';
                view = refl;
                after = tables-topic_set msg c;
              }))
        ]
      ]
    ]
  ]
