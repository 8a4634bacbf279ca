-- ===== src/Client/PrivMsg/Direct.antt =====
-- etcd_client.go: which private messages reach a user.
use etcdircd.Prelude.{
  ◌≡◌, refl, ◌⊎◌, inl, inr, true, false, ◌||◌, none, some, Str, ◌==◌, nat_eq, arith, Bool-cases,
  Option-cases,
}
use etcdircd.Result.{ok, err, decode_failed}
use etcdircd.Exec.{◌>>=◌}
use etcdircd.Etcd.{Etcd, ignore_lease}
use etcdircd.Mode.{has}
use etcdircd.User.{UserValue}
use etcdircd.Key.{key_user_ctl, key_user_msg}
use etcdircd.Client.{Client, Scope}
use etcdircd.Client.Stm.{transfer, not_failed}
use etcdircd.Client.PrivMsg.{UserFlags, privmsg_msg, away_notice, is_otr_msg, user_send, user_tx}

-- The view after the message is delivered, and after the sender is told that the target is away.
abbrev pub delivered : (e : Etcd) → Client → Str → Str → e.View → e.View
delivered e ec target msg v =
    e.put (key_user_msg target) (e.msg_codec.encode (privmsg_msg ec target msg)) ignore_lease v

abbrev pub noticed : (e : Etcd) → Client → Str → UserValue → e.View → e.View
noticed e ec target uv v =
    e.put (key_user_msg ec.nick) (e.msg_codec.encode (away_notice ec target uv.away_msg))
      ignore_lease v

-- Both users are in the store, and if either one has the mode `E` the message is an OTR message.
pub record MayReach (e : Etcd) (ec : Client) (target msg : Str) (v : e.View) : Type 0 where
  pub sender : UserValue
  pub receiver : UserValue
  pub sent_by : e.user_codec.decode (e.get v (key_user_ctl ec.nick)) ≡ some sender
  pub sent_to : e.user_codec.decode (e.get v (key_user_ctl target)) ≡ some receiver
  pub present : has receiver.mode b'a' ≡ false
  pub private_enough :
      (is_otr_msg msg ≡ true) ⊎ ((has sender.mode b'E' ≡ false) × (has receiver.mode b'E' ≡ false))

-- The target is away, and the sender gets its away message.
pub record IsAway (e : Etcd) (ec : Client) (target : Str) (v v' : e.View) : Type 0 where
  pub receiver : UserValue
  pub sent_to : e.user_codec.decode (e.get v (key_user_ctl target)) ≡ some receiver
  pub away : has receiver.mode b'a' ≡ true
  pub told : v' ≡ noticed e ec target receiver v

module _ (e : Etcd) (ec : Client) (target msg : Str) (fl : UserFlags) (v : e.View) where
  abbrev at_start : Scope UserFlags e.View
  at_start = record { flags = fl; view = v }

  user_absent :
      (e.rev v (key_user_ctl target) == 0) ≡ true
      → user_tx e ec target msg at_start
        ≡ (ok tt, record { flags = record fl { no_nick = true }; view = v })
  unfolding user_tx ◌>>=◌
  user_absent gone = rw gone

  module _ (here : (e.rev v (key_user_ctl target) == 0) ≡ false) where
    sender_unknown :
        e.user_codec.decode (e.get v (key_user_ctl ec.nick)) ≡ none
        → (user_tx e ec target msg at_start).0 ≡ err decode_failed
    unfolding user_tx ◌>>=◌
    sender_unknown bad = rw (here, bad)

    module _ (uv : UserValue)
        (hu : e.user_codec.decode (e.get v (key_user_ctl ec.nick)) ≡ some uv) where
      target_garbled :
          e.user_codec.decode (e.get v (key_user_ctl target)) ≡ none
          → (user_tx e ec target msg at_start).0 ≡ err decode_failed
      unfolding user_tx ◌>>=◌
      target_garbled bad = rw (here, hu, bad)

      module _ (tv : UserValue)
          (ht : e.user_codec.decode (e.get v (key_user_ctl target)) ≡ some tv) where
        target_away :
            has tv.mode b'a' ≡ true
            → user_tx e ec target msg at_start ≡ (
              ok tt,
              record { flags = record fl { no_nick = false }; view = noticed e ec target tv v },
            )
        unfolding user_tx ◌>>=◌
        target_away away = rw (here, hu, ht, away)

        module _ (present : has tv.mode b'a' ≡ false) where
          sent_otr :
              is_otr_msg msg ≡ true
              → user_tx e ec target msg at_start ≡ (
                ok tt,
                record {
                  flags = record fl { no_nick = false };
                  view = delivered e ec target msg v;
                },
              )
          unfolding user_tx user_send ◌>>=◌
          sent_otr otr = rw (here, hu, ht, present, otr)

          sent_plain :
              is_otr_msg msg ≡ false
              → (has uv.mode b'E' || has tv.mode b'E') ≡ false
              → user_tx e ec target msg at_start ≡ (
                ok tt,
                record {
                  flags = record fl { no_nick = false; bad_otr = false };
                  view = delivered e ec target msg v;
                },
              )
          unfolding user_tx user_send ◌>>=◌
          sent_plain plain open' = rw (here, hu, ht, present, plain, open')

          refused :
              is_otr_msg msg ≡ false
              → (has uv.mode b'E' || has tv.mode b'E') ≡ true
              → user_tx e ec target msg at_start ≡ (
                ok tt,
                record { flags = record fl { no_nick = false; bad_otr = true }; view = v },
              )
          unfolding user_tx user_send ◌>>=◌
          refused plain shut = rw (here, hu, ht, present, plain, shut)

  abbrev UserOut : Scope UserFlags e.View → Type 0
  UserOut s =
      (s.view ≡ v)
      ⊎ (((s.view ≡ delivered e ec target msg v) × MayReach e ec target msg v)
          ⊎ IsAway e ec target v s.view)

  -- Once the target is there and not away.
  as_present :
      (s : Scope UserFlags e.View)
      → user_tx e ec target msg at_start ≡ (ok tt, s)
      → (e.rev v (key_user_ctl target) == 0) ≡ false
      → (uv : UserValue) → e.user_codec.decode (e.get v (key_user_ctl ec.nick)) ≡ some uv
      → (tv : UserValue) → e.user_codec.decode (e.get v (key_user_ctl target)) ≡ some tv
      → has tv.mode b'a' ≡ false
      → UserOut s
  as_present s run here uv hu tv ht present = elim (Bool-cases (is_otr_msg msg)) [
    | inl otr ↦
        transfer UserOut (sent_otr here uv hu tv ht present otr) run
          (inr (inl (refl, reach (inl otr))))
    | inr plain ↦ elim (Bool-cases (has uv.mode b'E' || has tv.mode b'E')) [
      | inl shut ↦ transfer UserOut (refused here uv hu tv ht present plain shut) run (inl refl)
      | inr open' ↦
          transfer UserOut (sent_plain here uv hu tv ht present plain open') run
            (inr (inl (refl, reach (inr (ground arith, ground arith)))))
    ]
  ]
    where
      reach :
          (is_otr_msg msg ≡ true) ⊎ ((has uv.mode b'E' ≡ false) × (has tv.mode b'E' ≡ false))
          → MayReach e ec target msg v
      reach p = record {
        sender = uv;
        receiver = tv;
        sent_by = hu;
        sent_to = ht;
        present = present;
        private_enough = p;
      }

  -- A closure of `privMsgUser` that succeeds has written nothing; or just the message, and then the
  -- target is not away, and the message is an OTR message if the sender or the target has the mode
  -- `E`; or, for a target that is away, just the notice to the sender.
  pub user_tx-MayReach :
      (s : Scope UserFlags e.View)
      → user_tx e ec target msg (record { flags = fl; view = v }) ≡ (ok tt, s)
      → (s.view ≡ v)
        ⊎ (((s.view ≡ delivered e ec target msg v) × MayReach e ec target msg v)
            ⊎ IsAway e ec target v s.view)
  user_tx-MayReach s run = elim (Bool-cases (e.rev v (key_user_ctl target) == 0)) [
    | inl gone ↦ transfer UserOut (user_absent gone) run (inl refl)
    | inr here ↦ elim (Option-cases (e.user_codec.decode (e.get v (key_user_ctl ec.nick)))) [
      | inl bad ↦ absurd (not_failed (sender_unknown here bad) run)
      | inr (uv, hu) ↦ elim (Option-cases (e.user_codec.decode (e.get v (key_user_ctl target)))) [
        | inl bad ↦ absurd (not_failed (target_garbled here uv hu bad) run)
        | inr (tv, ht) ↦ elim (Bool-cases (has tv.mode b'a')) [
          | inl away ↦
              transfer UserOut (target_away here uv hu tv ht away) run
                (inr (inr (record { receiver = tv; sent_to = ht; away = away; told = refl })))
          | inr present ↦ as_present s run here uv hu tv ht present
        ]
      ]
    ]
  ]
