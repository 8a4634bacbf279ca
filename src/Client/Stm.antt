-- ===== src/Client/Stm.antt =====
-- etcd_client.go: rules for code that runs one transaction and then replies.
use mathlib.Core.Path.{subst}
use etcdircd.Prelude.{ℕ, ◌≡◌, sym, ap, ◌∙◌, List, [], ◌∷◌, Str, arith}
use etcdircd.Result.{Result, Error, ok, err, panic}
use etcdircd.Exec.{Exec, lift, ◌>>=◌}
use etcdircd.Etcd.{Etcd, Message}
use etcdircd.Tables.{Tables}
use etcdircd.Tables.Store.{tables, tables-commit}
use etcdircd.Client.Commit
use etcdircd.Client.Commit.{IsReply}
use etcdircd.Client.{Client, World, Scope, Fate, send_msg, send_host_msg, replay, settle, do_stm}

module _ {V : Type 0} where
  pub send_msg-IsReply : (msg : Message) (w : World V) → (send_msg msg w).1.db ≡ w.db
  unfolding send_msg
  send_msg-IsReply msg w = ground arith

  pub send_host_msg-IsReply :
      (ec : Client) (cmd : Str) (params : List Str) (w : World V)
      → (send_host_msg ec cmd params w).1.db ≡ w.db
  unfolding send_host_msg
  send_host_msg-IsReply ec cmd params w = send_msg-IsReply _ w

-- The rules of Commit, for what the tables of the store hold.
module _ (e : Etcd) (Q : Tables → Type 0) where
  at_commit : (r : ℕ) (v : e.View) → Q (tables e v) → Q (tables e (e.commit r v))
  at_commit r v h = rw (tables-commit e v r) h

module _ (e : Etcd) {F : Type 0} (Q : Tables → Type 0) (w : World e.View)
    (before : Q (tables e w.db)) where
  pub transact-keeps :
      (f : Exec (Scope F e.View) (Unit {0})) (fl : F) (fate : Fate e.View)
      (reply : F × ℕ → Exec (World e.View) (Unit {0}))
      → ((done : F × ℕ) → IsReply (reply done))
      → ((fl' : F) (s : Scope F e.View)
          → f (record { flags = fl'; view = w.db }) ≡ (ok tt, s)
          → Q (tables e s.view))
      → Q (tables e ((do_stm e f fl fate >>= reply) w).1.db)
  transact-keeps = Commit.transact-keeps e (λ v. Q (tables e v)) (at_commit e Q) w before

  -- The same behind a call of `Session()`.
  pub session-keeps :
      (ses : Result ℕ) (f : ℕ → Exec (Scope F e.View) (Unit {0})) (fl : F) (fate : Fate e.View)
      (reply : F × ℕ → Exec (World e.View) (Unit {0}))
      → ((done : F × ℕ) → IsReply (reply done))
      → ((lid : ℕ) (fl' : F) (s : Scope F e.View)
          → ses ≡ ok lid
          → f lid (record { flags = fl'; view = w.db }) ≡ (ok tt, s)
          → Q (tables e s.view))
      → Q (tables e ((lift ses >>= λ lid. do_stm e (f lid) fl fate >>= reply) w).1.db)
  session-keeps = Commit.session-keeps e (λ v. Q (tables e v)) (at_commit e Q) w before

  -- The same with nothing behind the transaction.
  pub session_step-keeps :
      (ses : Result ℕ) (f : ℕ → Exec (Scope F e.View) (Unit {0})) (fl : F) (fate : Fate e.View)
      → ((lid : ℕ) (fl' : F) (s : Scope F e.View)
          → ses ≡ ok lid
          → f lid (record { flags = fl'; view = w.db }) ≡ (ok tt, s)
          → Q (tables e s.view))
      → Q (tables e ((lift ses >>= λ lid. do_stm e (f lid) fl fate) w).1.db)
  session_step-keeps = Commit.session_step-keeps e (λ v. Q (tables e v)) (at_commit e Q) w before

-- Two accounts of one run agree on its end.
module _ {A S : Type 0} {x : Result A × S} where
  pub transfer : (P : S → Type 0) {a : A} {s s' : S} → x ≡ (ok a, s') → x ≡ (ok a, s) → P s' → P s
  transfer P p q h = subst P (ap (λ (y : Result A × S). y.1) (sym p ∙ q)) h

  pub not_failed : {a : A} {s : S} {x' : Error} → x.0 ≡ err x' → x ≡ (ok a, s) → ⊥
  not_failed p q = cc (p, ap (λ (y : Result A × S). y.0) q)

  pub not_panicked : {a : A} {s : S} → x.0 ≡ panic → x ≡ (ok a, s) → ⊥
  not_panicked p q = cc (p, ap (λ (y : Result A × S). y.0) q)

-- A sequence keeps what its parts keep.
module _ (e : Etcd) {A B : Type 0} (Q : Tables → Type 0) where
  pub bind-keeps :
      (m : Exec (World e.View) A) (f : A → Exec (World e.View) B) (w : World e.View)
      → Q (tables e (m w).1.db)
      → ((a : A) (w' : World e.View) → Q (tables e w'.db) → Q (tables e (f a w').1.db))
      → Q (tables e ((m >>= f) w).1.db)
  bind-keeps = Commit.bind-keeps e (λ v. Q (tables e v))

-- How a transaction that commits goes on: at once, or after one attempt that met a conflict and left
-- its flags.
module _ (e : Etcd) {F : Type 0} (f : Exec (Scope F e.View) (Unit {0})) (fl : F)
    (reply : F × ℕ → Exec (World e.View) (Unit {0})) (w : World e.View) (r : ℕ)
    (s : Scope F e.View) where
  pub transact_once :
      f (record { flags = fl; view = w.db }) ≡ (ok tt, s)
      → (do_stm e f fl (record { lost = []; verdict = ok r }) >>= reply) w
        ≡ reply (s.flags, r) (record w { db = e.commit r s.view })
  unfolding do_stm replay settle ◌>>=◌
  transact_once run = rw run

  replay_one :
      (u : e.View) (su : Scope F e.View)
      → f (record { flags = fl; view = u }) ≡ (ok tt, su)
      → replay f fl (u ∷ []) ≡ ok su.flags
  unfolding replay
  replay_one u su run = rw run

  pub transact_retry :
      (u : e.View) (su : Scope F e.View)
      → f (record { flags = fl; view = u }) ≡ (ok tt, su)
      → f (record { flags = su.flags; view = w.db }) ≡ (ok tt, s)
      → (do_stm e f fl (record { lost = u ∷ []; verdict = ok r }) >>= reply) w
        ≡ reply (s.flags, r) (record w { db = e.commit r s.view })
  unfolding do_stm settle ◌>>=◌
  transact_retry u su first second = rw (replay_one u su first) (rw second)
