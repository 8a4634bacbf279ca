-- ===== src/Ctl/Notices.antt =====
-- cmd/ircdctl/notice.go: a notice is a message, and changes no records.
use etcdircd.Prelude.{
  ℕ, ◌≡◌, refl, ◌∙◌, ◌⊎◌, inl, inr, Bool, true, false, not, List, [], ◌∷◌, Str, ◌==◌, nat_eq,
  is_nil, Bool-cases, if◌then◌else◌,
}
use etcdircd.Result.{Result, ok, err, panic, must}
use etcdircd.Exec.{Exec, lift, continue, ◌>>=◌}
use etcdircd.Text.{split}
use etcdircd.Etcd.{Etcd, ignore_lease}
use etcdircd.Key.{slash, is_chan, key_user_msg, key_chan_msg}
use etcdircd.Tables.Store.{tables, tables-commit, tables-put_user_msg, tables-put_chan_msg}
use etcdircd.Ctl.{Console, last_part, notice_txn, notice_to, notice_all, run_notice}

-- The key of the messages of a user or a channel.
abbrev pub IsMailbox : Str → Type 0
IsMailbox k = ((n : Str) × (k ≡ key_user_msg n)) ⊎ ((c : Str) × (k ≡ key_chan_msg c))

abbrev pub AllMailboxes : List (Str × Result ℕ) → Type 0
AllMailboxes [] = Unit
AllMailboxes ((k, verdict) ∷ ks) = IsMailbox k × AllMailboxes ks

module _ (e : Etcd) where
  put_mailbox :
      (k : Str) (b : e.Blob) (v : e.View)
      → IsMailbox k
      → tables e (e.put k b ignore_lease v) ≡ tables e v
  put_mailbox k b v (inl (n, is)) = rw is (tables-put_user_msg e v ignore_lease n b)
  put_mailbox k b v (inr (ch, is)) = rw is (tables-put_chan_msg e v ignore_lease ch b)

  -- What leaves the records alone.
  record KeepsTables {A : Type 0} (m : Exec (Console e.View) A) : Type 0 where
    keeps : (c : Console e.View) → tables e (m c).1.db ≡ tables e c.db

  bind-KeepsTables :
      {A B : Type 0} (m : Exec (Console e.View) A) (f : A → Exec (Console e.View) B)
      → KeepsTables m
      → ((a : A) → KeepsTables (f a))
      → KeepsTables (m >>= f)
  unfolding ◌>>=◌
  bind-KeepsTables {A} {B} m f hm hf = record { keeps = λ c. after c (m c) (hm.keeps c) }
    where
      after :
          (c : Console e.View) (out : Result A × Console e.View)
          → tables e out.1.db ≡ tables e c.db
          → tables e (continue out.0 f out.1).1.db ≡ tables e c.db
      after c (ok a, c') h = (hf a).keeps c' ∙ h
      after c (err x, c') h = h
      after c (panic, c') h = h

  lift-KeepsTables : {A : Type 0} (r : Result A) → KeepsTables (lift r)
  lift-KeepsTables r = record { keeps = λ c. refl }

  if-KeepsTables :
      {A : Type 0} (b : Bool) (m m' : Exec (Console e.View) A)
      → KeepsTables m
      → KeepsTables m'
      → KeepsTables (if b then m else m')
  if-KeepsTables true m m' h h' = h
  if-KeepsTables false m m' h h' = h'

  notice_txn-KeepsTables :
      (k nick text : Str) (verdict : Result ℕ)
      → IsMailbox k
      → KeepsTables (notice_txn e k nick text verdict)
  unfolding notice_txn
  notice_txn-KeepsTables k nick text (err x) box = record { keeps = λ c. refl }
  notice_txn-KeepsTables k nick text panic box = record { keeps = λ c. refl }
  notice_txn-KeepsTables k nick text (ok r) box = record {
    keeps = λ c. elim (Bool-cases (e.rev c.db k == 0)) [
      | inl gone ↦ rw gone
      | inr here ↦ rw here (tables-commit e _ r ∙ put_mailbox k _ c.db box)
    ];
  }

  notice_to-KeepsTables :
      (text k : Str) (verdict : Result ℕ) → IsMailbox k → KeepsTables (notice_to e text k verdict)
  unfolding notice_to
  notice_to-KeepsTables text k verdict box =
      bind-KeepsTables (lift (must (last_part (split slash k)))) _
        (lift-KeepsTables (must (last_part (split slash k))))
        (λ nick. notice_txn-KeepsTables k nick text verdict box)

  notice_all-KeepsTables :
      (text : Str) (ks : List (Str × Result ℕ))
      → AllMailboxes ks
      → KeepsTables (notice_all e text ks)
  unfolding notice_all
  notice_all-KeepsTables text [] boxes = record { keeps = λ c. refl }
  notice_all-KeepsTables text ((k, verdict) ∷ ks) (box, boxes) =
      bind-KeepsTables (notice_to e text k verdict) _ (notice_to-KeepsTables text k verdict box)
        (λ x. notice_all-KeepsTables text ks boxes)

  -- A notice to a user, to a channel or to all users leaves the records of users and channels and the
  -- member lists as they are, however it ends, if the keys that it reads are those of users' messages.
  pub run_notice-tables :
      (target text : Str) (verdict : Result ℕ) (users : Result (List (Str × Result ℕ)))
      (c : Console e.View)
      → ((ks : List (Str × Result ℕ)) → users ≡ ok ks → AllMailboxes ks)
      → tables e (run_notice e target (text ∷ []) verdict users c).1.db ≡ tables e c.db
  unfolding run_notice ◌>>=◌
  run_notice-tables target text verdict users c boxes =
      (if-KeepsTables (is_nil target) _ _ (everyone users refl) (
          if-KeepsTables (not (is_chan target)) _ _
            (notice_to-KeepsTables text (key_user_msg target) verdict (inl (target, refl)))
            (notice_to-KeepsTables text (key_chan_msg target) verdict (inr (target, refl))))).keeps
        c
    where
      everyone :
          (r : Result (List (Str × Result ℕ)))
          → users ≡ r
          → KeepsTables (lift r >>= λ ks. notice_all e text ks)
      everyone (err x) is = record { keeps = λ c. refl }
      everyone panic is = record { keeps = λ c. refl }
      everyone (ok ks) is = record {
        keeps = λ c. (notice_all-KeepsTables text ks (boxes ks is)).keeps c;
      }
