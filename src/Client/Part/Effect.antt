-- ===== src/Client/Part/Effect.antt =====
-- etcd_client.go: what a committed `Part` does to the tables.
use etcdircd.Prelude.{
  ℕ, ◌≡◌, refl, Bool, true, false, none, some, if◌then◌else◌, Str, Bool-cases, Option-cases, inl,
  inr, sym, str_eq,
}
use etcdircd.Result.{ok, err, decode_failed}
use etcdircd.Exec.{◌>>=◌}
use etcdircd.Etcd.{Etcd, no_option, ignore_lease}
use etcdircd.User.{UserValue, part, in_chan}
use etcdircd.Channel.{ChannelNicks, del_nick}
use etcdircd.Key.{key_user_ctl, key_chan_nicks, key_chan_msg}
use etcdircd.Key.Names.{user_ctl_chan_nicks}
use etcdircd.Tables.{leave, set_user, set_members}
use etcdircd.Tables.Store.{
  tables, tables-put_chan_msg, tables-put_nicks, tables-put_user, set_members_self, tables-members,
  tables-members_gone,
}
use etcdircd.Client.{Client, Scope}
use etcdircd.Client.Stm.{transfer, not_failed}
use etcdircd.Client.Part.{part_tx, part_msg}

module _ (e : Etcd) (ec : Client) (lid : ℕ) (ch msg : Str) (fl : Bool) (v : e.View) where
  pub part_tx_on :
      (uv : UserValue) (cns : ChannelNicks)
      → e.user_codec.decode (e.get v (key_user_ctl ec.nick)) ≡ some uv
      → (part uv ch).1 ≡ true
      → e.is_empty (e.get v (key_chan_nicks ch lid)) ≡ false
      → e.nicks_codec.decode (e.get v (key_chan_nicks ch lid)) ≡ some cns
      → part_tx e ec lid ch msg (record { flags = fl; view = v }) ≡ (
        ok tt,
        record {
          flags = true;
          view = e.put (key_chan_msg ch) (e.msg_codec.encode (part_msg ec ch msg)) no_option (
              e.put
                (key_chan_nicks ch lid)
                (e.nicks_codec.encode (del_nick cns ec.nick))
                ignore_lease
                (e.put (key_user_ctl ec.nick) (e.user_codec.encode (part uv ch).0) ignore_lease v));
        },
      )
  unfolding part_tx ◌>>=◌
  part_tx_on uv cns hu on full hn = rw (hu, on, e.get-put, user_ctl_chan_nicks, full, hn)

  pub part_tx_last :
      (uv : UserValue)
      → e.user_codec.decode (e.get v (key_user_ctl ec.nick)) ≡ some uv
      → (part uv ch).1 ≡ true
      → e.is_empty (e.get v (key_chan_nicks ch lid)) ≡ true
      → part_tx e ec lid ch msg (record { flags = fl; view = v }) ≡ (
        ok tt,
        record {
          flags = true;
          view =
              e.put
                (key_chan_msg ch)
                (e.msg_codec.encode (part_msg ec ch msg))
                no_option
                (e.put (key_user_ctl ec.nick) (e.user_codec.encode (part uv ch).0) ignore_lease v);
        },
      )
  unfolding part_tx ◌>>=◌
  part_tx_last uv hu on none' = rw (hu, on, e.get-put, user_ctl_chan_nicks, none')

  pub part_tx_off :
      (uv : UserValue)
      → e.user_codec.decode (e.get v (key_user_ctl ec.nick)) ≡ some uv
      → (part uv ch).1 ≡ false
      → part_tx e ec lid ch msg (record { flags = fl; view = v })
        ≡ (ok tt, record { flags = false; view = v })
  unfolding part_tx ◌>>=◌
  part_tx_off uv hu off = rw (hu, off)

  pub part_tx_unknown :
      e.user_codec.decode (e.get v (key_user_ctl ec.nick)) ≡ none
      → part_tx e ec lid ch msg (record { flags = fl; view = v })
        ≡ (err decode_failed, record { flags = fl; view = v })
  unfolding part_tx ◌>>=◌
  part_tx_unknown hu = rw hu

  pub part_tx_garbled :
      (uv : UserValue)
      → e.user_codec.decode (e.get v (key_user_ctl ec.nick)) ≡ some uv
      → (part uv ch).1 ≡ true
      → e.is_empty (e.get v (key_chan_nicks ch lid)) ≡ false
      → e.nicks_codec.decode (e.get v (key_chan_nicks ch lid)) ≡ none
      → (part_tx e ec lid ch msg (record { flags = fl; view = v })).0 ≡ err decode_failed
  unfolding part_tx ◌>>=◌
  part_tx_garbled uv hu on full bad = rw (hu, on, e.get-put, user_ctl_chan_nicks, full, bad)

  abbrev Out : UserValue → Scope Bool e.View → Type 0
  Out uv s =
      (s.flags ≡ in_chan uv ch)
      × (tables e s.view
          ≡ (if in_chan uv ch then leave ec.nick uv ch lid (tables e v) else tables e v))

  left_none :
      (uv : UserValue)
      → e.is_empty (e.get v (key_chan_nicks ch lid)) ≡ true
      → set_user ec.nick (some (part uv ch).0) (tables e v) ≡ leave ec.nick uv ch lid (tables e v)
  unfolding del_nick
  left_none uv last = sym (
      set_members_self ch lid (del_nick ((tables e v).members ch lid) ec.nick)
        (set_user ec.nick (some (part uv ch).0) (tables e v))
        (rw (tables-members_gone e v ch lid last)))

  left_some :
      (uv : UserValue) (cns : ChannelNicks)
      → e.nicks_codec.decode (e.get v (key_chan_nicks ch lid)) ≡ some cns
      → set_members ch lid
          (del_nick cns ec.nick)
          (set_user ec.nick (some (part uv ch).0) (tables e v))
        ≡ leave ec.nick uv ch lid (tables e v)
  left_some uv cns hn = rw (tables-members e v ch lid, hn)

  -- The tables after a closure of `Part` that succeeds: the user has left the channel, in the record
  -- and in the list of the server, or was not on it and nothing has changed.
  pub part_tx-tables :
      (s : Scope Bool e.View) (uv : UserValue)
      → part_tx e ec lid ch msg (record { flags = fl; view = v }) ≡ (ok tt, s)
      → e.user_codec.decode (e.get v (key_user_ctl ec.nick)) ≡ some uv
      → (s.flags ≡ in_chan uv ch)
        × (tables e s.view
            ≡ (if in_chan uv ch then leave ec.nick uv ch lid (tables e v) else tables e v))
  unfolding part in_chan
  part_tx-tables s uv run hu = elim (Bool-cases (in_chan uv ch)) [
    | inr off ↦ transfer (Out uv) (part_tx_off uv hu off) run (rw off (refl, refl))
    | inl on ↦ elim (Bool-cases (e.is_empty (e.get v (key_chan_nicks ch lid)))) [
      | inl last ↦
          transfer (Out uv) (part_tx_last uv hu on last) run
            (rw on (refl, rw (tables-put_chan_msg, tables-put_user) (left_none uv last)))
      | inr full ↦ elim (Option-cases (e.nicks_codec.decode (e.get v (key_chan_nicks ch lid)))) [
        | inl bad ↦ absurd (not_failed (part_tx_garbled uv hu on full bad) run)
        | inr (cns, hn) ↦ transfer (Out uv) (part_tx_on uv cns hu on full hn) run (
            rw on (
              refl,
              rw (tables-put_chan_msg, tables-put_nicks, tables-put_user) (left_some uv cns hn),
            ))
      ]
    ]
  ]
