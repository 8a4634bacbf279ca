-- ===== src/Client/Monitor/Still.antt =====
-- etcd_client.go: rules for code of a watch that leaves the connection alone.
use etcdircd.Prelude.{◌≡◌, refl, ◌∙◌, Bool, true, false, Str, if◌then◌else◌}
use etcdircd.Result.{Result, ok, err, panic}
use etcdircd.Exec.{Exec, lift, pure, continue, ◌>>=◌}
use etcdircd.Etcd.{Message}
use etcdircd.Client.Monitor.{Watching, unwatch, give_direct}

pub record IsStill {V A : Type 0} (m : Exec (Watching V) A) : Type 0 where
  pub keeps : (s : Watching V) → (m s).1.conn ≡ s.conn

module _ {V : Type 0} where
  pub bind-IsStill :
      {A B : Type 0} (m : Exec (Watching V) A) (f : A → Exec (Watching V) B)
      → IsStill m
      → ((a : A) → IsStill (f a))
      → IsStill (m >>= f)
  unfolding ◌>>=◌
  bind-IsStill {A} {B} m f hm hf = record { keeps = λ s. after s (m s) (hm.keeps s) }
    where
      after :
          (s : Watching V) (out : Result A × Watching V)
          → out.1.conn ≡ s.conn
          → (continue out.0 f out.1).1.conn ≡ s.conn
      after s (ok a, s') h = (hf a).keeps s' ∙ h
      after s (err x, s') h = h
      after s (panic, s') h = h

  pub lift-IsStill : {A : Type 0} (r : Result A) → IsStill {V = V} (lift r)
  lift-IsStill r = record { keeps = λ s. refl }

  pub pure-IsStill : {A : Type 0} (a : A) → IsStill {V = V} (pure a)
  pure-IsStill a = record { keeps = λ s. refl }

  pub unwatch-IsStill : (ch : Str) → IsStill {V = V} (unwatch ch)
  unwatch-IsStill ch = record { keeps = λ s. refl }

  pub give_direct-IsStill : (msg : Message) → IsStill {V = V} (give_direct msg)
  give_direct-IsStill msg = record { keeps = λ s. refl }

  pub if-IsStill :
      {A : Type 0} (b : Bool) (m m' : Exec (Watching V) A)
      → IsStill m
      → IsStill m'
      → IsStill (if b then m else m')
  if-IsStill true m m' h h' = h
  if-IsStill false m m' h h' = h'

pub ruleset still_laws =
    (bind-IsStill, lift-IsStill, pure-IsStill, unwatch-IsStill, give_direct-IsStill, if-IsStill)
