-- ===== src/Client/PrivMsg/Chan.antt =====
-- etcd_client.go: which private messages reach a channel or a user.
use etcdircd.Prelude.{
  ℕ, ◌≡◌, refl, ◌∙◌, ◌⊎◌, inl, inr, Bool, true, false, not, ◌&&◌, none, some, [], ◌∷◌, Str, ◌==◌,
  nat_eq, str_eq, Bool-cases, Option-cases, lit,
}
use etcdircd.Result.{ok, err, decode_failed}
use etcdircd.Exec.{◌>>=◌}
use etcdircd.Etcd.{Etcd, ignore_lease}
use etcdircd.Mode.{has}
use etcdircd.User.{UserValue}
use etcdircd.Channel.{ChannelCtl, ChannelNick, ChannelNicks, find_nick}
use etcdircd.Key.{key_user_ctl, key_chan_ctl, key_chan_nicks, key_chan_msg}
use etcdircd.Client.{Client, World, Scope, send_host_msg}
use etcdircd.Client.Stm.{transfer, not_failed, transact_retry}
use etcdircd.Reply.{err_cannotsendtochan}
use etcdircd.Client.PrivMsg.{
  ChanFlags, privmsg_msg, chan_post, chan_member, chan_tx, chan_reply, priv_msg_chan,
}

-- `!has('o') && !has('O') && !has('v')`
abbrev pub is_mute : ChannelNick → Bool
is_mute n = not (has n.mode b'o') && not (has n.mode b'O') && not (has n.mode b'v')

-- The client is listed on the channel, under a lease, as an operator or with a voice.
pub record HasVoice (e : Etcd) (ec : Client) (ch : Str) (lid : ℕ) (v : e.View) : Type 0 where
  pub listed : ChannelNicks
  pub member : ChannelNick
  pub kept : e.nicks_codec.decode (e.get v (key_chan_nicks ch lid)) ≡ some listed
  pub found : find_nick listed ec.nick ≡ some member
  pub speaks : is_mute member ≡ false

-- The client may speak on the channel: it is not moderated, or the client is listed with a voice.
pub record MaySpeak (e : Etcd) (ec : Client) (ch : Str) (v : e.View) : Type 0 where
  pub sender : UserValue
  pub known : e.user_codec.decode (e.get v (key_user_ctl ec.nick)) ≡ some sender
  pub ctl : ChannelCtl
  pub stored : e.ctl_codec.decode (e.get v (key_chan_ctl ch)) ≡ some ctl
  pub voiced : (has ctl.mode b'm' ≡ false) ⊎ HasVoice e ec ch sender.lease v

-- The view after the message is posted.
abbrev pub posted : (e : Etcd) → Client → Str → Str → e.View → e.View
posted e ec ch msg v =
    e.put (key_chan_msg ch) (e.msg_codec.encode (privmsg_msg ec ch msg)) ignore_lease v

module _ (e : Etcd) (ec : Client) (ch msg : Str) (fl : ChanFlags) (v : e.View) where
  abbrev at_start : Scope ChanFlags e.View
  at_start = record { flags = fl; view = v }

  chan_absent :
      (e.rev v (key_chan_ctl ch) == 0) ≡ true
      → chan_tx e ec ch msg at_start
        ≡ (ok tt, record { flags = record fl { no_nick = true }; view = v })
  unfolding chan_tx ◌>>=◌
  chan_absent gone = rw gone

  module _ (here : (e.rev v (key_chan_ctl ch) == 0) ≡ false) where
    chan_unknown :
        e.user_codec.decode (e.get v (key_user_ctl ec.nick)) ≡ none
        → (chan_tx e ec ch msg at_start).0 ≡ err decode_failed
    unfolding chan_tx ◌>>=◌
    chan_unknown bad = rw (here, bad)

    module _ (uv : UserValue)
        (hu : e.user_codec.decode (e.get v (key_user_ctl ec.nick)) ≡ some uv) where
      chan_garbled :
          e.ctl_codec.decode (e.get v (key_chan_ctl ch)) ≡ none
          → (chan_tx e ec ch msg at_start).0 ≡ err decode_failed
      unfolding chan_tx ◌>>=◌
      chan_garbled bad = rw (here, hu, bad)

      module _ (c : ChannelCtl) (hc : e.ctl_codec.decode (e.get v (key_chan_ctl ch)) ≡ some c) where
        pub chan_open :
            has c.mode b'm' ≡ false
            → chan_tx e ec ch msg at_start ≡ (
              ok tt,
              record { flags = record fl { no_nick = false }; view = posted e ec ch msg v },
            )
        unfolding chan_tx ◌>>=◌ chan_post
        chan_open open' = rw (here, hu, hc, open')

        chan_no_list :
            has c.mode b'm' ≡ true
            → e.nicks_codec.decode (e.get v (key_chan_nicks ch uv.lease)) ≡ none
            → (chan_tx e ec ch msg at_start).0 ≡ err decode_failed
        unfolding chan_tx ◌>>=◌
        chan_no_list moderated bad = rw (here, hu, hc, moderated, bad)

        module _ (moderated : has c.mode b'm' ≡ true) (cns : ChannelNicks)
            (hn : e.nicks_codec.decode (e.get v (key_chan_nicks ch uv.lease)) ≡ some cns) where
          chan_stranger :
              find_nick cns ec.nick ≡ none
              → chan_tx e ec ch msg at_start
                ≡ (ok tt, record { flags = record fl { no_nick = true }; view = v })
          unfolding chan_tx ◌>>=◌ chan_member
          chan_stranger missing = rw (here, hu, hc, moderated, hn, missing)

          chan_mute :
              (n : ChannelNick)
              → find_nick cns ec.nick ≡ some n
              → is_mute n ≡ true
              → chan_tx e ec ch msg at_start ≡ (
                ok tt,
                record { flags = record fl { no_nick = false; no_send = true }; view = v },
              )
          unfolding chan_tx ◌>>=◌ chan_member
          chan_mute n found mute = rw (here, hu, hc, moderated, hn, found, mute)

          chan_voiced :
              (n : ChannelNick)
              → find_nick cns ec.nick ≡ some n
              → is_mute n ≡ false
              → chan_tx e ec ch msg at_start ≡ (
                ok tt,
                record {
                  flags = record fl { no_nick = false; no_send = false };
                  view = posted e ec ch msg v;
                },
              )
          unfolding chan_tx ◌>>=◌ chan_member chan_post
          chan_voiced n found voice = rw (here, hu, hc, moderated, hn, found, voice)

  abbrev ChanOut : Scope ChanFlags e.View → Type 0
  ChanOut s = (s.view ≡ v) ⊎ ((s.view ≡ posted e ec ch msg v) × MaySpeak e ec ch v)

  as_member :
      (s : Scope ChanFlags e.View)
      → chan_tx e ec ch msg at_start ≡ (ok tt, s)
      → (e.rev v (key_chan_ctl ch) == 0) ≡ false
      → (uv : UserValue) → e.user_codec.decode (e.get v (key_user_ctl ec.nick)) ≡ some uv
      → (c : ChannelCtl) → e.ctl_codec.decode (e.get v (key_chan_ctl ch)) ≡ some c
      → has c.mode b'm' ≡ true
      → ChanOut s
  as_member s run here uv hu c hc moderated =
      elim (Option-cases (e.nicks_codec.decode (e.get v (key_chan_nicks ch uv.lease)))) [
        | inl bad ↦ absurd (not_failed (chan_no_list here uv hu c hc moderated bad) run)
        | inr (cns, hn) ↦ elim (Option-cases (find_nick cns ec.nick)) [
          | inl missing ↦
              transfer ChanOut (chan_stranger here uv hu c hc moderated cns hn missing) run
                (inl refl)
          | inr (n, found) ↦ elim (Bool-cases (is_mute n)) [
            | inl mute ↦
                transfer ChanOut (chan_mute here uv hu c hc moderated cns hn n found mute) run
                  (inl refl)
            | inr voice ↦
                transfer ChanOut (chan_voiced here uv hu c hc moderated cns hn n found voice) run (
                  inr (
                    refl,
                    record {
                      sender = uv;
                      known = hu;
                      ctl = c;
                      stored = hc;
                      voiced = inr (record {
                        listed = cns;
                        member = n;
                        kept = hn;
                        found = found;
                        speaks = voice;
                      });
                    },
                  ))
          ]
        ]
      ]

  -- A closure of `privMsgChan` that succeeds has written nothing, or just the message to the channel,
  -- and then the channel is not moderated or the client is on it as an operator or with a voice.
  pub chan_tx-MaySpeak :
      (s : Scope ChanFlags e.View)
      → chan_tx e ec ch msg (record { flags = fl; view = v }) ≡ (ok tt, s)
      → (s.view ≡ v) ⊎ ((s.view ≡ posted e ec ch msg v) × MaySpeak e ec ch v)
  chan_tx-MaySpeak s run = elim (Bool-cases (e.rev v (key_chan_ctl ch) == 0)) [
    | inl gone ↦ transfer ChanOut (chan_absent gone) run (inl refl)
    | inr here ↦ elim (Option-cases (e.user_codec.decode (e.get v (key_user_ctl ec.nick)))) [
      | inl bad ↦ absurd (not_failed (chan_unknown here bad) run)
      | inr (uv, hu) ↦ elim (Option-cases (e.ctl_codec.decode (e.get v (key_chan_ctl ch)))) [
        | inl bad ↦ absurd (not_failed (chan_garbled here uv hu bad) run)
        | inr (c, hc) ↦ elim (Bool-cases (has c.mode b'm')) [
          | inr open' ↦ transfer ChanOut (chan_open here uv hu c hc open') run (
              inr (
                refl,
                record { sender = uv; known = hu; ctl = c; stored = hc; voiced = inl open' },
              ))
          | inl moderated ↦ as_member s run here uv hu c hc moderated
        ]
      ]
    ]
  ]

-- If an attempt that met a conflict found the client without a voice on a moderated channel, and at
-- the commit the channel is not moderated, the message is posted, and the client is told that it
-- cannot send to the channel.
pub chan_stale_reply :
    (e : Etcd) (ec : Client) (ch msg : Str) (u : e.View) (su : Scope ChanFlags e.View) (r : ℕ)
    (w : World e.View) (uv : UserValue) (c : ChannelCtl)
    → chan_tx e ec ch msg (record { flags = record { no_nick = false; no_send = false }; view = u })
      ≡ (ok tt, su)
    → su.flags.no_send ≡ true
    → (e.rev w.db (key_chan_ctl ch) == 0) ≡ false
    → e.user_codec.decode (e.get w.db (key_user_ctl ec.nick)) ≡ some uv
    → e.ctl_codec.decode (e.get w.db (key_chan_ctl ch)) ≡ some c
    → has c.mode b'm' ≡ false
    → priv_msg_chan e ec ch msg (record { lost = u ∷ []; verdict = ok r }) w
      ≡ send_host_msg ec err_cannotsendtochan
          (ch ∷ lit "Cannot send to channel" ∷ [])
          (record w { db = e.commit r (posted e ec ch msg w.db) })
unfolding priv_msg_chan chan_reply
chan_stale_reply e ec ch msg u su r w uv c run mute here hu hc open' =
    transact_retry e (chan_tx e ec ch msg) (record { no_nick = false; no_send = false })
      (λ done. chan_reply e ec ch done.0) w r
      (record { flags = record (su.flags) { no_nick = false }; view = posted e ec ch msg w.db }) u
      su run (chan_open e ec ch msg (su.flags) w.db here uv hu c hc open')
    ∙ rw mute
