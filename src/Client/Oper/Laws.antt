-- ===== src/Client/Oper/Laws.antt =====
-- etcd_client.go: who becomes an operator by `Oper`, and what the client is told.
use etcdircd.Prelude.{
  ℕ, ◌≡◌, refl, ◌∙◌, ◌⊎◌, inl, inr, Bool, true, false, none, some, [], ◌∷◌, Str, ◌==◌, nat_eq,
  str_eq, Bool-cases, Option-cases, lit, eq_of_==,
}
use etcdircd.Result.{ok, err, decode_failed}
use etcdircd.Exec.{◌>>=◌}
use etcdircd.Etcd.{Etcd, ignore_lease}
use etcdircd.Mode.{add}
use etcdircd.User.{UserValue}
use etcdircd.Channel.{OperValue}
use etcdircd.Key.{key_user_ctl, key_oper_ctl}
use etcdircd.Tables.{set_user}
use etcdircd.Tables.Store.{tables, tables-user, tables-put_user}
use etcdircd.Client.{Client, World, Scope, send_host_msg}
use etcdircd.Client.Stm.{transfer, not_failed, transact_retry}
use etcdircd.Reply.{rpl_youreoper}
use etcdircd.Client.Oper.{granted, oper_tx, oper_reply, oper}

-- The login names an operator record with the password.
pub record Admitted (e : Etcd) (login pass : Str) (v : e.View) : Type 0 where
  pub operator : OperValue
  pub stored : e.oper_codec.decode (e.get v (key_oper_ctl login)) ≡ some operator
  pub same_pass : operator.pass ≡ pass

module _ (e : Etcd) (ec : Client) (login pass : Str) (fl : Bool) (v : e.View) where
  abbrev at_start : Scope Bool e.View
  at_start = record { flags = fl; view = v }

  oper_unknown :
      e.user_codec.decode (e.get v (key_user_ctl ec.nick)) ≡ none
      → (oper_tx e ec login pass at_start).0 ≡ err decode_failed
  unfolding oper_tx ◌>>=◌
  oper_unknown bad = rw bad

  module _ (uv : UserValue)
      (hu : e.user_codec.decode (e.get v (key_user_ctl ec.nick)) ≡ some uv) where
    pub oper_missing :
        e.is_empty (e.get v (key_oper_ctl login)) ≡ true
        → oper_tx e ec login pass at_start ≡ (ok tt, at_start)
    unfolding oper_tx ◌>>=◌
    oper_missing gone = rw (hu, gone)

    oper_garbled :
        e.is_empty (e.get v (key_oper_ctl login)) ≡ false
        → e.oper_codec.decode (e.get v (key_oper_ctl login)) ≡ none
        → (oper_tx e ec login pass at_start).0 ≡ err decode_failed
    unfolding oper_tx ◌>>=◌
    oper_garbled here bad = rw (hu, here, bad)

    pub oper_refused :
        (ov : OperValue)
        → e.is_empty (e.get v (key_oper_ctl login)) ≡ false
        → e.oper_codec.decode (e.get v (key_oper_ctl login)) ≡ some ov
        → (ov.pass == pass) ≡ false
        → oper_tx e ec login pass at_start ≡ (ok tt, at_start)
    unfolding oper_tx ◌>>=◌
    oper_refused ov here ho wrong = rw (hu, here, ho, wrong)

    pub oper_granted :
        (ov : OperValue)
        → e.is_empty (e.get v (key_oper_ctl login)) ≡ false
        → e.oper_codec.decode (e.get v (key_oper_ctl login)) ≡ some ov
        → (ov.pass == pass) ≡ true
        → oper_tx e ec login pass at_start ≡ (
          ok tt,
          record {
            flags = true;
            view =
                e.put
                  (key_user_ctl ec.nick)
                  (e.user_codec.encode (record uv { mode = add uv.mode (granted ov) }))
                  ignore_lease
                  v;
          },
        )
    unfolding oper_tx ◌>>=◌
    oper_granted ov here ho right = rw (hu, here, ho, right)

  -- The two ends of a closure that succeeds.
  pub record Granted (s : Scope Bool e.View) : Type 0 where
    pub admitted : Admitted e login pass v
    pub before : UserValue
    pub found : (tables e v).user ec.nick ≡ some before
    pub flag : s.flags ≡ true
    pub view :
        s.view
        ≡ e.put
            (key_user_ctl ec.nick)
            (e.user_codec.encode
              (record before { mode = add before.mode (granted (admitted.operator)) }))
            ignore_lease
            v
    pub after :
        tables e s.view
        ≡ set_user ec.nick
            (some (record before { mode = add before.mode (granted (admitted.operator)) }))
            (tables e v)

  abbrev OperOut : Scope Bool e.View → Type 0
  OperOut s = ((s.flags ≡ fl) × (s.view ≡ v)) ⊎ Granted s

  -- A closure of `Oper` that succeeds has changed nothing, the flag included, or it has set the flag,
  -- the login names an operator with this password, and the one change in the tables is that the
  -- client has gained the mode of that operator, `O` for a global one and `o` for a local one.
  pub oper_tx-Granted :
      (s : Scope Bool e.View)
      → oper_tx e ec login pass (record { flags = fl; view = v }) ≡ (ok tt, s)
      → ((s.flags ≡ fl) × (s.view ≡ v)) ⊎ Granted s
  oper_tx-Granted s run =
      elim (Option-cases (e.user_codec.decode (e.get v (key_user_ctl ec.nick)))) [
        | inl bad ↦ absurd (not_failed (oper_unknown bad) run)
        | inr (uv, hu) ↦ elim (Bool-cases (e.is_empty (e.get v (key_oper_ctl login)))) [
          | inl gone ↦ transfer OperOut (oper_missing uv hu gone) run (inl (refl, refl))
          | inr here ↦ elim (Option-cases (e.oper_codec.decode (e.get v (key_oper_ctl login)))) [
            | inl bad ↦ absurd (not_failed (oper_garbled uv hu here bad) run)
            | inr (ov, ho) ↦ elim (Bool-cases (ov.pass == pass)) [
              | inr wrong ↦
                  transfer OperOut (oper_refused uv hu ov here ho wrong) run (inl (refl, refl))
              | inl right ↦ transfer OperOut (oper_granted uv hu ov here ho right) run (
                  inr (record {
                    admitted = record {
                      operator = ov;
                      stored = ho;
                      same_pass = eq_of_== ov.pass pass right;
                    };
                    before = uv;
                    found = tables-user e v ec.nick ∙ hu;
                    flag = refl;
                    view = refl;
                    after =
                        tables-put_user e v ignore_lease ec.nick
                          (record uv { mode = add uv.mode (granted ov) });
                  }))
            ]
          ]
        ]
      ]

-- If an attempt that met a conflict logged the client in, and at the commit the operator record is
-- gone, the client is told that it is an operator, though the transaction has written nothing.
pub oper_stale_reply :
    (e : Etcd) (ec : Client) (login pass : Str) (u : e.View) (su : Scope Bool e.View) (r : ℕ)
    (w : World e.View) (uv : UserValue)
    → oper_tx e ec login pass (record { flags = false; view = u }) ≡ (ok tt, su)
    → su.flags ≡ true
    → e.user_codec.decode (e.get w.db (key_user_ctl ec.nick)) ≡ some uv
    → e.is_empty (e.get w.db (key_oper_ctl login)) ≡ true
    → oper e ec login pass (record { lost = u ∷ []; verdict = ok r }) w
      ≡ send_host_msg ec rpl_youreoper
          (lit "You are now an IRC operator" ∷ [])
          (record w { db = e.commit r w.db })
unfolding oper oper_reply
oper_stale_reply e ec login pass u su r w uv run flag hu gone =
    transact_retry e (oper_tx e ec login pass) false (λ done. oper_reply e ec done.0) w r
      (record { flags = su.flags; view = w.db }) u su run
      (oper_missing e ec login pass su.flags w.db uv hu gone)
    ∙ rw flag
