-- ===== src/Client/Kick/Effect.antt =====
-- etcd_client.go: what a committed `kick` does to the tables, and who may commit one.
use etcdircd.Prelude.{
  ◌≡◌, refl, ◌∙◌, ◌⊎◌, inl, inr, true, false, none, some, Str, ◌==◌, nat_eq, Bool-cases,
  Option-cases,
}
use etcdircd.Result.{ok, err, decode_failed}
use etcdircd.Exec.{◌>>=◌}
use etcdircd.Etcd.{Etcd, no_option, ignore_lease}
use etcdircd.User.{UserValue, part}
use etcdircd.Channel.{ChannelNicks, del_nick}
use etcdircd.Key.{key_user_ctl, key_chan_nicks, key_chan_msg}
use etcdircd.Key.Names.{user_ctl_chan_nicks}
use etcdircd.Tables.{leave}
use etcdircd.Tables.Store.{
  tables, tables-user, tables-members, tables-put_chan_msg, tables-put_nicks, tables-put_user,
}
use etcdircd.Client.{Client, Scope}
use etcdircd.Client.Stm.{transfer, not_failed}
use etcdircd.Client.Kick.{KickFlags, kick_msg, kick_target}

module _ (e : Etcd) (ec : Client) (ch nick msg : Str) (fl : KickFlags) (v : e.View) where
  abbrev pub target_key : Str
  target_key = key_user_ctl nick

  pub target_absent :
      (e.rev v target_key == 0) ≡ true
      → kick_target e ec ch nick msg (record { flags = fl; view = v })
        ≡ (ok tt, record { flags = record fl { user_not_on_chan = true }; view = v })
  unfolding kick_target ◌>>=◌
  target_absent gone = rw gone

  pub target_unknown :
      (e.rev v target_key == 0) ≡ false
      → e.user_codec.decode (e.get v target_key) ≡ none
      → (kick_target e ec ch nick msg (record { flags = fl; view = v })).0 ≡ err decode_failed
  unfolding kick_target ◌>>=◌
  target_unknown here bad = rw (here, bad)

  pub target_off :
      (uv : UserValue)
      → (e.rev v target_key == 0) ≡ false
      → e.user_codec.decode (e.get v target_key) ≡ some uv
      → (part uv ch).1 ≡ false
      → kick_target e ec ch nick msg (record { flags = fl; view = v })
        ≡ (ok tt, record { flags = record fl { user_not_on_chan = true }; view = v })
  unfolding kick_target ◌>>=◌
  target_off uv here hu off = rw (here, hu, off)

  pub target_garbled :
      (uv : UserValue)
      → (e.rev v target_key == 0) ≡ false
      → e.user_codec.decode (e.get v target_key) ≡ some uv
      → (part uv ch).1 ≡ true
      → e.nicks_codec.decode (e.get v (key_chan_nicks ch uv.lease)) ≡ none
      → (kick_target e ec ch nick msg (record { flags = fl; view = v })).0 ≡ err decode_failed
  unfolding kick_target ◌>>=◌
  target_garbled uv here hu on bad = rw (here, hu, on, e.get-put, user_ctl_chan_nicks, bad)

  pub target_kicked :
      (uv : UserValue) (cns : ChannelNicks)
      → (e.rev v target_key == 0) ≡ false
      → e.user_codec.decode (e.get v target_key) ≡ some uv
      → (part uv ch).1 ≡ true
      → e.nicks_codec.decode (e.get v (key_chan_nicks ch uv.lease)) ≡ some cns
      → kick_target e ec ch nick msg (record { flags = fl; view = v }) ≡ (
        ok tt,
        record {
          flags = record fl { user_not_on_chan = false };
          view = e.put (key_chan_msg ch) (e.msg_codec.encode (kick_msg ec ch nick msg)) no_option (
              e.put
                (key_chan_nicks ch uv.lease)
                (e.nicks_codec.encode (del_nick cns nick))
                ignore_lease
                (e.put target_key (e.user_codec.encode (part uv ch).0) ignore_lease v));
        },
      )
  unfolding kick_target ◌>>=◌
  target_kicked uv cns here hu on hn = rw (here, hu, on, e.get-put, user_ctl_chan_nicks, hn)

  -- After the part of the closure that touches the target, nothing has changed, or the target has
  -- left the channel in both places.
  abbrev pub TargetOut : Scope KickFlags e.View → Type 0
  TargetOut s =
      (s.view ≡ v)
      ⊎ ((uv : UserValue) × ((tables e v).user nick ≡ some uv)
          × (tables e s.view ≡ leave nick uv ch uv.lease (tables e v)))

  pub kick_target-tables :
      (s : Scope KickFlags e.View)
      → kick_target e ec ch nick msg (record { flags = fl; view = v }) ≡ (ok tt, s)
      → TargetOut s
  kick_target-tables s run = elim (Bool-cases (e.rev v target_key == 0)) [
    | inl gone ↦ transfer TargetOut (target_absent gone) run (inl refl)
    | inr here ↦ elim (Option-cases (e.user_codec.decode (e.get v target_key))) [
      | inl bad ↦ absurd (not_failed (target_unknown here bad) run)
      | inr (uv, hu) ↦ elim (Bool-cases (part uv ch).1) [
        | inr off ↦ transfer TargetOut (target_off uv here hu off) run (inl refl)
        | inl on ↦
            elim (Option-cases (e.nicks_codec.decode (e.get v (key_chan_nicks ch uv.lease)))) [
              | inl bad ↦ absurd (not_failed (target_garbled uv here hu on bad) run)
              | inr (cns, hn) ↦ transfer TargetOut (target_kicked uv cns here hu on hn) run (
                  inr (
                    uv,
                    tables-user e v nick ∙ hu,
                    rw (tables-put_chan_msg, tables-put_nicks, tables-put_user)
                        (rw (tables-members e v ch uv.lease, hn)),
                  ))
            ]
      ]
    ]
  ]
