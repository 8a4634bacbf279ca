-- ===== src/Result.antt =====
-- What a call of the program can end in: a value, an error value, or a panic.
use etcdircd.Prelude.{Option, none, some, ◌≡◌, refl}

-- `exited` is the end of the process by `os.Exit`; the other errors are Go error values.
pub data Error : Type 0 where
  decode_failed bad_pkcs7 bad_hmac canceled etcd_error no_session bad_handshake watch_error exited :
      Error

pub data Result {ℓ} (A : Type ℓ) : Type ℓ where
  ok : A → Result A
  err : Error → Result A
  panic : Result A

infixl 10 ◌>>=◌
abbrev pub ◌>>=◌ {ℓ κ} : {A : Type ℓ} {B : Type κ} → Result A → (A → Result B) → Result B
ok a >>= f = f a
err e >>= f = err e
panic >>= f = panic

-- The same where `>>=` is that of a state.
abbrev pub and_then {ℓ κ} : {A : Type ℓ} {B : Type κ} → Result A → (A → Result B) → Result B
and_then x f = x >>= f

-- A step that panics where there is no value: an index out of range, a `nil` that is read.
abbrev pub must {ℓ} : {A : Type ℓ} → Option A → Result A
must none = panic
must (some a) = ok a

-- `v, err := decode(…); if err != nil { return err }`.
abbrev pub decoded {ℓ} : {A : Type ℓ} → Option A → Result A
decoded none = err decode_failed
decoded (some a) = ok a

pub err_not_ok {ℓ} : {A : Type ℓ} {x : Error} {a : A} → ◌≡◌ {A = Result A} (err x) (ok a) → ⊥
err_not_ok h = cc

pub panic_not_ok {ℓ} : {A : Type ℓ} {a : A} → ◌≡◌ {A = Result A} panic (ok a) → ⊥
panic_not_ok h = cc

pub ok_eq {ℓ} : {A : Type ℓ} {a b : A} → ◌≡◌ {A = Result A} (ok a) (ok b) → a ≡ b
ok_eq h = cc

-- A sequence that succeeds has first steps that succeed.
pub bind_ok {ℓ κ} :
    {A : Type ℓ} {B : Type κ} (x : Result A) (f : A → Result B) {b : B}
    → (x >>= f) ≡ ok b
    → (a : A) × (x ≡ ok a) × (f a ≡ ok b)
bind_ok (ok a) f h = (a, refl, h)
bind_ok (err e) f h = absurd (err_not_ok h)
bind_ok panic f h = absurd (panic_not_ok h)
