-- ===== src/Client/Modes/Chan.antt =====
-- etcd_client.go: who changes the modes of a channel.
use etcdircd.Prelude.{
  ℕ, ◌≡◌, refl, sym, ap, ◌∙◌, ◌⊎◌, inl, inr, true, false, Option, none, some, List, [], Str,
  Bool-cases, Option-cases,
}
use etcdircd.Result.{ok, err, decode_failed}
use etcdircd.Exec.{◌>>=◌}
use etcdircd.Etcd.{Etcd, no_option}
use etcdircd.Mode.{has, update_slice, chan_mode_perms}
use etcdircd.Channel.{ChannelCtl, ChannelNick, ChannelNicks, find_nick}
use etcdircd.Key.{key_chan_ctl, key_chan_nicks}
use etcdircd.Tables.{set_ctl}
use etcdircd.Tables.Store.{tables, tables-put_ctl}
use etcdircd.Client.{Client, Scope}
use etcdircd.Client.Stm.{transfer, not_failed}
use etcdircd.Client.Kick.{lacks_op}
use etcdircd.Client.Kick.Laws.{HasOps}
use etcdircd.Client.Modes.{ChanModeFlags, has_args, chan_mode_member, chan_mode_store, chan_mode_tx}

lacks_op-has : (n : ChannelNick) → has n.mode b'o' ≡ true → lacks_op n.mode ≡ false
lacks_op-has n h = rw h

module _ (e : Etcd) (ec : Client) (lid : ℕ) (ch : Str) (m : List Str) (fl : ChanModeFlags)
    (v : e.View) where
  abbrev at_start : Scope ChanModeFlags e.View
  at_start = record { flags = fl; view = v }

  modes_absent :
      e.is_empty (e.get v (key_chan_ctl ch)) ≡ true
      → chan_mode_tx e ec lid ch m at_start
        ≡ (ok tt, record { flags = record fl { no_chan = true }; view = v })
  unfolding chan_mode_tx ◌>>=◌
  modes_absent gone = rw gone

  module _ (here : e.is_empty (e.get v (key_chan_ctl ch)) ≡ false) where
    modes_garbled :
        e.ctl_codec.decode (e.get v (key_chan_ctl ch)) ≡ none
        → (chan_mode_tx e ec lid ch m at_start).0 ≡ err decode_failed
    unfolding chan_mode_tx ◌>>=◌
    modes_garbled bad = rw (here, bad)

    module _ (c : ChannelCtl) (hc : e.ctl_codec.decode (e.get v (key_chan_ctl ch)) ≡ some c) where
      modes_no_list :
          e.nicks_codec.decode (e.get v (key_chan_nicks ch lid)) ≡ none
          → (chan_mode_tx e ec lid ch m at_start).0 ≡ err decode_failed
      unfolding chan_mode_tx ◌>>=◌
      modes_no_list bad = rw (here, hc, bad)

      modes_of :
          (cns : ChannelNicks)
          → e.nicks_codec.decode (e.get v (key_chan_nicks ch lid)) ≡ some cns
          → chan_mode_tx e ec lid ch m at_start
            ≡ chan_mode_member e ec ch m c
                (find_nick cns ec.nick)
                (record { flags = record fl { no_chan = false }; view = v })
      unfolding chan_mode_tx ◌>>=◌
      modes_of cns hn = rw (here, hc, hn)

  abbrev new_modes : ChannelCtl → ChannelCtl
  new_modes c = record c { mode = (update_slice c.mode [] m chan_mode_perms).0 }

  -- The client is an operator of the channel, and the one change in the tables is that the channel has
  -- the modes that its arguments ask for.
  pub record Ruled (v' : e.View) : Type 0 where
    pub channel : ChannelCtl
    pub stored : e.ctl_codec.decode (e.get v (key_chan_ctl ch)) ≡ some channel
    pub asked : has_args m ≡ true
    pub allowed : HasOps e ec lid ch v
    pub view :
        v'
        ≡ e.put
            (key_chan_ctl ch)
            (e.ctl_codec.encode
              (record channel { mode = (update_slice channel.mode [] m chan_mode_perms).0 }))
            no_option
            v
    pub after :
        tables e v'
        ≡ set_ctl ch
            (record channel { mode = (update_slice channel.mode [] m chan_mode_perms).0 })
            (tables e v)

  chan_mode_member-ends :
      (c : ChannelCtl) (n : Option ChannelNick)
      → ((chan_mode_member e ec ch m c n
            (record { flags = record fl { no_chan = false }; view = v })).1.view
          ≡ v)
        ⊎ ((member : ChannelNick) × (n ≡ some member)
            × (has_args m ≡ true)
            × (has member.mode b'o' ≡ true)
            × ((chan_mode_member e ec ch m c n
                  (record { flags = record fl { no_chan = false }; view = v })).1.view
                ≡ e.put (key_chan_ctl ch) (e.ctl_codec.encode (new_modes c)) no_option v))
  unfolding chan_mode_member chan_mode_store
  chan_mode_member-ends c none = inl refl
  chan_mode_member-ends c (some n) = elim (Bool-cases (has_args m)) [
    | inr bare ↦ inl (rw bare)
    | inl args ↦ elim (Bool-cases (has n.mode b'o')) [
      | inr plain ↦ inl (rw (args, plain))
      | inl op ↦ elim (Bool-cases (update_slice c.mode [] m chan_mode_perms).2) [
        | inr same ↦ inl (rw (args, op, same))
        | inl new ↦ inr (n, refl, args, op, rw (args, op, new))
      ]
    ]
  ]

  -- A closure of `chanMode` that succeeds has written nothing, or modes were asked for, the client is
  -- an operator of the channel, and the one change in the tables is that the channel has these modes.
  pub chan_mode_tx-Ruled :
      (s : Scope ChanModeFlags e.View)
      → chan_mode_tx e ec lid ch m (record { flags = fl; view = v }) ≡ (ok tt, s)
      → (s.view ≡ v) ⊎ Ruled s.view
  chan_mode_tx-Ruled s run = elim (Bool-cases (e.is_empty (e.get v (key_chan_ctl ch)))) [
    | inl gone ↦ inl (transfer (λ s. s.view ≡ v) (modes_absent gone) run refl)
    | inr here ↦ elim (Option-cases (e.ctl_codec.decode (e.get v (key_chan_ctl ch)))) [
      | inl bad ↦ absurd (not_failed (modes_garbled here bad) run)
      | inr (c, hc) ↦ elim (Option-cases (e.nicks_codec.decode (e.get v (key_chan_nicks ch lid)))) [
        | inl bad ↦ absurd (not_failed (modes_no_list here c hc bad) run)
        | inr (cns, hn) ↦
            let ends : (chan_mode_member e ec ch m c (find_nick cns ec.nick)
                  (record { flags = record fl { no_chan = false }; view = v })).1.view
                ≡ s.view =
              ap (λ x. x.1.view) (sym (modes_of here c hc cns hn) ∙ run) in
            elim (chan_mode_member-ends c (find_nick cns ec.nick)) [
              | inl same ↦ inl (sym ends ∙ same)
              | inr (n, found, args, op, put) ↦ inr (record {
                channel = c;
                stored = hc;
                asked = args;
                allowed = record {
                  listed = cns;
                  member = n;
                  stored = hn;
                  found = found;
                  ops = lacks_op-has n op;
                };
                view = sym ends ∙ put;
                after =
                    ap (tables e) (sym ends ∙ put) ∙ tables-put_ctl e v no_option ch (new_modes c);
              })
            ]
      ]
    ]
  ]
