-- ===== src/Client/Commit.antt =====
-- etcd_client.go: what holds of the store before a transaction and after its closure holds after it.
use etcdircd.Prelude.{ℕ, ◌≡◌, ◌≢◌, refl, true, Str, ◌==◌, nat_eq}
use etcdircd.Result.{Result, ok, err, panic}
use etcdircd.Exec.{Exec, lift, continue, ◌>>=◌}
use etcdircd.Etcd.{Etcd}
use etcdircd.Client.{World, Scope, Fate, replay, settle, last_attempt, do_stm}

-- A reply leaves the store alone.
abbrev pub IsReply : {V : Type 0} → Exec (World V) (Unit {0}) → Type 0
IsReply {V} m = (w : World V) → (m w).1.db ≡ w.db

-- A key with no revision is not in the store, and holds no value.
pub record IsStored (e : Etcd) (k : Str) (v : e.View) : Type 0 where
  pub absent : (e.rev v k == 0) ≡ true → e.is_empty (e.get v k) ≡ true

-- That is so again after a transaction, since etcd commits it at a revision other than 0.
module _ (e : Etcd) {F : Type 0} (k : Str) (w : World e.View) (before : IsStored e k w.db) where
  settle-IsStored :
      (out : Result (Unit {0}) × Scope F e.View) (v : Result ℕ)
      → ((r : ℕ) → v ≡ ok r → r ≢ 0)
      → IsStored e k (settle e out v w).1.db
  unfolding settle
  settle-IsStored (ok x, s) (ok r) h = record { absent = e.rev-commit-absent s.view r k (h r refl) }
  settle-IsStored (ok x, s) (err x') h = before
  settle-IsStored (ok x, s) panic h = before
  settle-IsStored (err x, s) v h = before
  settle-IsStored (panic, s) v h = before

  last_attempt-IsStored :
      (f : Exec (Scope F e.View) (Unit {0})) (fl : Result F) (v : Result ℕ)
      → ((r : ℕ) → v ≡ ok r → r ≢ 0)
      → IsStored e k (last_attempt e f v fl w).1.db
  last_attempt-IsStored f (ok fl') v h =
      settle-IsStored (f (record { flags = fl'; view = w.db })) v h
  last_attempt-IsStored f (err x) v h = before
  last_attempt-IsStored f panic v h = before

  pub session_step-IsStored :
      (ses : Result ℕ) (f : ℕ → Exec (Scope F e.View) (Unit {0})) (fl : F) (fate : Fate e.View)
      → ((r : ℕ) → fate.verdict ≡ ok r → r ≢ 0)
      → IsStored e k ((lift ses >>= λ lid. do_stm e (f lid) fl fate) w).1.db
  unfolding ◌>>=◌ do_stm
  session_step-IsStored (ok lid) f fl fate h =
      last_attempt-IsStored (f lid) (replay (f lid) fl fate.lost) fate.verdict h
  session_step-IsStored (err x) f fl fate h = before
  session_step-IsStored panic f fl fate h = before

module _ (e : Etcd) {F : Type 0} (Q : e.View → Type 0)
    (committed : (r : ℕ) (v : e.View) → Q v → Q (e.commit r v)) (w : World e.View)
    (before : Q w.db) where
  settle-keeps :
      (out : Result (Unit {0}) × Scope F e.View) (v : Result ℕ)
      → ((s : Scope F e.View) → out ≡ (ok tt, s) → Q s.view)
      → Q (settle e out v w).1.db
  unfolding settle
  settle-keeps (ok x, s) (ok r) h = committed r s.view (h s refl)
  settle-keeps (ok x, s) (err x') h = before
  settle-keeps (ok x, s) panic h = before
  settle-keeps (err x, s) v h = before
  settle-keeps (panic, s) v h = before

  settle_after-keeps :
      (f : Exec (Scope F e.View) (Unit {0})) (fl : Result F) (v : Result ℕ)
      → ((fl' : F) (s : Scope F e.View)
          → f (record { flags = fl'; view = w.db }) ≡ (ok tt, s)
          → Q s.view)
      → Q (last_attempt e f v fl w).1.db
  settle_after-keeps f (ok fl') v h =
      settle-keeps (f (record { flags = fl'; view = w.db })) v (h fl')
  settle_after-keeps f (err x) v h = before
  settle_after-keeps f panic v h = before

  -- What holds of the tables before a transaction, and after its closure whenever the closure
  -- succeeds on the store at the commit, holds after the transaction however it ends.
  pub do_stm-keeps :
      (f : Exec (Scope F e.View) (Unit {0})) (fl : F) (fate : Fate e.View)
      → ((fl' : F) (s : Scope F e.View)
          → f (record { flags = fl'; view = w.db }) ≡ (ok tt, s)
          → Q s.view)
      → Q (do_stm e f fl fate w).1.db
  unfolding do_stm
  do_stm-keeps f fl fate h = settle_after-keeps f (replay f fl fate.lost) fate.verdict h

  reply-keeps :
      (out : Result (F × ℕ) × World e.View) (reply : F × ℕ → Exec (World e.View) (Unit {0}))
      → Q out.1.db
      → ((done : F × ℕ) → IsReply (reply done))
      → Q (◌>>=◌ (λ (w' : World e.View). out) reply w).1.db
  unfolding ◌>>=◌
  reply-keeps (ok done, w') reply h r = rw (r done w') h
  reply-keeps (err x, w') reply h r = h
  reply-keeps (panic, w') reply h r = h

  pub transact-keeps :
      (f : Exec (Scope F e.View) (Unit {0})) (fl : F) (fate : Fate e.View)
      (reply : F × ℕ → Exec (World e.View) (Unit {0}))
      → ((done : F × ℕ) → IsReply (reply done))
      → ((fl' : F) (s : Scope F e.View)
          → f (record { flags = fl'; view = w.db }) ≡ (ok tt, s)
          → Q s.view)
      → Q ((do_stm e f fl fate >>= reply) w).1.db
  unfolding ◌>>=◌
  transact-keeps f fl fate reply r h =
      reply-keeps (do_stm e f fl fate w) reply (do_stm-keeps f fl fate h) r

  -- The same behind a call of `Session()`.
  pub session-keeps :
      (ses : Result ℕ) (f : ℕ → Exec (Scope F e.View) (Unit {0})) (fl : F) (fate : Fate e.View)
      (reply : F × ℕ → Exec (World e.View) (Unit {0}))
      → ((done : F × ℕ) → IsReply (reply done))
      → ((lid : ℕ) (fl' : F) (s : Scope F e.View)
          → ses ≡ ok lid
          → f lid (record { flags = fl'; view = w.db }) ≡ (ok tt, s)
          → Q s.view)
      → Q ((lift ses >>= λ lid. do_stm e (f lid) fl fate >>= reply) w).1.db
  unfolding ◌>>=◌
  session-keeps (ok lid) f fl fate reply r h =
      transact-keeps (f lid) fl fate reply r (λ fl' s. h lid fl' s refl)
  session-keeps (err x) f fl fate reply r h = before
  session-keeps panic f fl fate reply r h = before

  -- The same with nothing behind the transaction.
  pub session_step-keeps :
      (ses : Result ℕ) (f : ℕ → Exec (Scope F e.View) (Unit {0})) (fl : F) (fate : Fate e.View)
      → ((lid : ℕ) (fl' : F) (s : Scope F e.View)
          → ses ≡ ok lid
          → f lid (record { flags = fl'; view = w.db }) ≡ (ok tt, s)
          → Q s.view)
      → Q ((lift ses >>= λ lid. do_stm e (f lid) fl fate) w).1.db
  unfolding ◌>>=◌
  session_step-keeps (ok lid) f fl fate h = do_stm-keeps (f lid) fl fate (λ fl' s. h lid fl' s refl)
  session_step-keeps (err x) f fl fate h = before
  session_step-keeps panic f fl fate h = before

-- A sequence keeps what its parts keep.
module _ (e : Etcd) {A B : Type 0} (Q : e.View → Type 0) where
  continue-keeps :
      (out : Result A × World e.View) (f : A → Exec (World e.View) B)
      → Q out.1.db
      → ((a : A) (w : World e.View) → Q w.db → Q (f a w).1.db)
      → Q (continue out.0 f out.1).1.db
  continue-keeps (ok a, w) f h k = k a w h
  continue-keeps (err x, w) f h k = h
  continue-keeps (panic, w) f h k = h

  pub bind-keeps :
      (m : Exec (World e.View) A) (f : A → Exec (World e.View) B) (w : World e.View)
      → Q (m w).1.db
      → ((a : A) (w' : World e.View) → Q (w'.db) → Q (f a w').1.db)
      → Q ((m >>= f) w).1.db
  unfolding ◌>>=◌
  bind-keeps m f w h k = continue-keeps (m w) f h k
