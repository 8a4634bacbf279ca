-- ===== src/Ctl/Laws.antt =====
-- cmd/ircdctl: operators that are made can log in, and notices change no records.
use etcdircd.Prelude.{
  ℕ, ◌≡◌, refl, Bool, true, false, some, [], ◌∷◌, Str, ◌==◌, nat_eq, str_eq, ==-self, str_beq,
}
use etcdircd.Result.{ok}
use etcdircd.Etcd.{Etcd, ignore_lease}
use etcdircd.User.{UserValue}
use etcdircd.Channel.{OperValue}
use etcdircd.Mode.{add}
use etcdircd.Key.{key_user_ctl, key_oper_ctl}
use etcdircd.Client.{Client}
use etcdircd.Client.Oper.{granted, oper_tx}
use etcdircd.Client.Oper.Laws.{oper_missing, oper_refused, oper_granted}
use etcdircd.Ctl.{Console, run_oper_mk, run_oper_rm}

oper_user : (n m : Str) → (key_oper_ctl n == key_user_ctl m) ≡ false
unfolding key_oper_ctl key_user_ctl str_beq
oper_user n m = refl

module _ (e : Etcd) (ec : Client) (login pass : Str) (global : Bool) (r : ℕ) (c : Console e.View)
    (uv : UserValue)
    (user : e.user_codec.decode (e.get c.db (key_user_ctl ec.nick)) ≡ some uv) where
  abbrev pub made : e.View
  made = (run_oper_mk e global (login ∷ pass ∷ []) (ok r) c).1.db

  abbrev pub removed : e.View
  removed = (run_oper_rm e (login ∷ []) (ok r) c).1.db

  abbrev pub grown : UserValue
  grown = record uv { mode = add uv.mode (granted (record { pass = pass; is_global = global })) }

  abbrev made_operator : OperValue
  made_operator = record { pass = pass; is_global = global }

  made_user : e.user_codec.decode (e.get made (key_user_ctl ec.nick)) ≡ some uv
  unfolding run_oper_mk
  made_user = rw (e.get-commit, e.get-put, oper_user login ec.nick) user

  made_oper : e.get made (key_oper_ctl login) ≡ e.oper_codec.encode made_operator
  unfolding run_oper_mk
  made_oper = rw (e.get-commit, e.get-put, ==-self (key_oper_ctl login))

  made_filled : e.is_empty (e.get made (key_oper_ctl login)) ≡ false
  made_filled = rw made_oper (e.oper_codec.filled made_operator)

  made_stored : e.oper_codec.decode (e.get made (key_oper_ctl login)) ≡ some made_operator
  made_stored = rw made_oper (e.oper_codec.undo made_operator)

  removed_user : e.user_codec.decode (e.get removed (key_user_ctl ec.nick)) ≡ some uv
  unfolding run_oper_rm
  removed_user = rw (e.get-commit, e.get-del, oper_user login ec.nick) user

  removed_oper : e.is_empty (e.get removed (key_oper_ctl login)) ≡ true
  unfolding run_oper_rm
  removed_oper = rw (e.get-commit, e.get-del, ==-self (key_oper_ctl login)) e.empty-IsEmpty

  -- After `oper mk` of a login, a client with a record that gives `Oper` this login and its password
  -- gains the mode of the operator, and one that gives another password gains nothing; after `oper rm`
  -- none does, whatever the password.
  pub oper_mk-oper :
      (fl : Bool) (other any : Str)
      → (pass == other) ≡ false
      → (oper_tx e ec login pass (record { flags = fl; view = made }) ≡ (
        ok tt,
        record {
          flags = true;
          view = e.put (key_user_ctl ec.nick) (e.user_codec.encode grown) ignore_lease made;
        },
      ))
        × (oper_tx e ec login other (record { flags = fl; view = made })
            ≡ (ok tt, record { flags = fl; view = made }))
        × (oper_tx e ec login any (record { flags = fl; view = removed })
            ≡ (ok tt, record { flags = fl; view = removed }))
  oper_mk-oper fl other any differ = (
    oper_granted e ec login pass fl made uv made_user made_operator made_filled made_stored
        (==-self pass),
    oper_refused e ec login other fl made uv made_user made_operator made_filled made_stored differ,
    oper_missing e ec login any fl removed uv removed_user removed_oper,
  )
