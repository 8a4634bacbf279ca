-- ===== src/Client/Quiet.antt =====
-- etcd_client.go: rules for code that sends and reads, and writes nothing to the store.
use etcdircd.Prelude.{◌≡◌, refl, Bool, true, false, if◌then◌else◌, List, Str, ◌∙◌, ℕ}
use etcdircd.Result.{Result, ok, err, panic}
use etcdircd.Exec.{Exec, pure, lift, continue, ◌>>=◌}
use etcdircd.Etcd.{Message}
use etcdircd.Client.{Client, World, send_msg, send_host_msg}
use etcdircd.Client.Stm.{send_msg-IsReply, send_host_msg-IsReply}
use etcdircd.Client.Names.{dropping_error}

pub record IsQuiet {V A : Type 0} (m : Exec (World V) A) : Type 0 where
  pub keeps : (w : World V) → (m w).1.db ≡ w.db

module _ {V : Type 0} where
  pub bind-IsQuiet :
      {A B : Type 0} (m : Exec (World V) A) (f : A → Exec (World V) B)
      → IsQuiet m
      → ((a : A) → IsQuiet (f a))
      → IsQuiet (m >>= f)
  unfolding ◌>>=◌
  bind-IsQuiet {A} {B} m f hm hf = record { keeps = λ w. after w (m w) (hm.keeps w) }
    where
      after :
          (w : World V) (out : Result A × World V)
          → out.1.db ≡ w.db
          → (continue out.0 f out.1).1.db ≡ w.db
      after w (ok a, w') h = (hf a).keeps w' ∙ h
      after w (err x, w') h = h
      after w (panic, w') h = h

  pub dropping_error-IsQuiet :
      (m : Exec (World V) Unit) → IsQuiet m → IsQuiet (λ w. dropping_error (m w))
  dropping_error-IsQuiet m hm = record { keeps = λ w. after w (m w) (hm.keeps w) }
    where
      after :
          (w : World V) (out : Result (Unit {0}) × World V)
          → out.1.db ≡ w.db
          → (dropping_error out).1.db ≡ w.db
      after w (ok a, w') h = h
      after w (err x, w') h = h
      after w (panic, w') h = h

  pub lift-IsQuiet : {A : Type 0} (r : Result A) → IsQuiet {V = V} (lift r)
  lift-IsQuiet r = record { keeps = λ w. refl }

  pub pure-IsQuiet : {A : Type 0} (a : A) → IsQuiet {V = V} (pure a)
  pure-IsQuiet a = record { keeps = λ w. refl }

  pub send_msg-IsQuiet : (msg : Message) → IsQuiet {V = V} (send_msg msg)
  send_msg-IsQuiet msg = record { keeps = send_msg-IsReply msg }

  pub send_host_msg-IsQuiet :
      (ec : Client) (cmd : Str) (params : List Str) → IsQuiet {V = V} (send_host_msg ec cmd params)
  send_host_msg-IsQuiet ec cmd params = record { keeps = send_host_msg-IsReply ec cmd params }

  pub if-IsQuiet :
      {A : Type 0} (b : Bool) (m m' : Exec (World V) A)
      → IsQuiet m
      → IsQuiet m'
      → IsQuiet (if b then m else m')
  if-IsQuiet true m m' h h' = h
  if-IsQuiet false m m' h h' = h'

pub ruleset quiet_laws = (
  bind-IsQuiet, dropping_error-IsQuiet, lift-IsQuiet, pure-IsQuiet, send_msg-IsQuiet,
  send_host_msg-IsQuiet, if-IsQuiet,
)

-- A connection that takes every message.
abbrev pub Takes : {V : Type 0} → World V → Type 0
Takes w = (n : ℕ) → w.taken n ≡ true
