-- ===== src/Exec.antt =====
-- Code that reads and writes a state and may end in an error or a panic. What was written before
-- the end stays written, so the state comes back in every case.
use etcdircd.Prelude.{◌≡◌, refl, ap}
use etcdircd.Result.{Result, ok, err, panic, Error, err_not_ok, panic_not_ok}

abbrev pub Exec {ℓ} : Type ℓ → Type ℓ → Type ℓ
Exec S A = S → Result A × S

module _ {ℓ} {S A : Type ℓ} where
  abbrev pub pure : A → Exec S A
  pure a s = (ok a, s)

  abbrev pub fail : Error → Exec S A
  fail e s = (err e, s)

  abbrev pub lift : Result A → Exec S A
  lift r s = (r, s)

  abbrev pub gets : (S → A) → Exec S A
  gets f s = (ok (f s), s)

module _ {ℓ} {S A B : Type ℓ} where
  abbrev pub continue : Result A → (A → Exec S B) → Exec S B
  continue (ok a) f s = f a s
  continue (err e) f s = (err e, s)
  continue panic f s = (panic, s)

  infixl 10 ◌>>=◌ ◌>>◌
  unfoldable pub ◌>>=◌ : Exec S A → (A → Exec S B) → Exec S B
  ◌>>=◌ m f s = let (r, s') = m s in continue r f s'

  abbrev pub ◌>>◌ : Exec S A → Exec S B → Exec S B
  m >> n = m >>= λ _. n

-- A sequence that succeeds has parts that succeed.
module _ {S A B : Type 0} where
  continue_ok :
      (f : A → Exec S B) (out : Result A × S) {b : B} {s' : S}
      → continue out.0 f out.1 ≡ (ok b, s')
      → (a : A) × (s : S) × (out ≡ (ok a, s)) × (f a s ≡ (ok b, s'))
  continue_ok f (ok a, s) run = (a, s, refl, run)
  continue_ok f (err x, s) run = absurd (err_not_ok (ap (λ y. y.0) run))
  continue_ok f (panic, s) run = absurd (panic_not_ok (ap (λ y. y.0) run))

  pub run_ok :
      (m : Exec S A) (f : A → Exec S B) (s : S) {b : B} {s' : S}
      → (m >>= f) s ≡ (ok b, s')
      → (a : A) × (s1 : S) × (m s ≡ (ok a, s1)) × (f a s1 ≡ (ok b, s'))
  unfolding ◌>>=◌
  run_ok m f s run = continue_ok f (m s) run
