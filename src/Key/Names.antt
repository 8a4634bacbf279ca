-- ===== src/Key/Names.antt =====
-- key.go: which keys are the same key.
use etcdircd.Prelude.{
  ℕ, ◌≡◌, refl, sym, Bool, true, false, ◌&&◌, [], ◌∷◌, ◌++◌, Str, lit, str_beq, ◌==◌, nat_eq,
  str_eq, ==-self, eq_of_==, arith, append_assoc, append_cancel,
}
use mathlib.Core.Path.{subst}
use etcdircd.Text.{hex}
use etcdircd.Text.Parts.{Lacks}
use etcdircd.Text.Digits.{hex-injective, hex-Lacks_slash}
use etcdircd.Key.{
  slash, key_user_ctl, key_user_msg, key_chan_ctl, key_chan_msg, key_chan_nicks, key_chan_nicks_pfx,
}

module _ (m n : Str) where
  pub user_ctl_ctl : (key_user_ctl m == key_user_ctl n) ≡ (m == n)
  unfolding key_user_ctl str_beq
  user_ctl_ctl = refl

  pub user_ctl_msg : (key_user_ctl m == key_user_msg n) ≡ false
  unfolding key_user_ctl key_user_msg str_beq
  user_ctl_msg = refl

  pub user_msg_ctl : (key_user_msg m == key_user_ctl n) ≡ false
  unfolding key_user_ctl key_user_msg str_beq
  user_msg_ctl = refl

  pub user_ctl_chan_ctl : (key_user_ctl m == key_chan_ctl n) ≡ false
  unfolding key_user_ctl key_chan_ctl str_beq
  user_ctl_chan_ctl = refl

  pub chan_ctl_user_ctl : (key_chan_ctl m == key_user_ctl n) ≡ false
  unfolding key_user_ctl key_chan_ctl str_beq
  chan_ctl_user_ctl = refl

  pub chan_ctl_ctl : (key_chan_ctl m == key_chan_ctl n) ≡ (m == n)
  unfolding key_chan_ctl str_beq
  chan_ctl_ctl = refl

  pub chan_msg_user_ctl : (key_chan_msg m == key_user_ctl n) ≡ false
  unfolding key_user_ctl key_chan_msg str_beq
  chan_msg_user_ctl = refl

  pub user_ctl_chan_msg : (key_user_ctl m == key_chan_msg n) ≡ false
  unfolding key_user_ctl key_chan_msg str_beq
  user_ctl_chan_msg = refl

  pub chan_ctl_chan_msg : (key_chan_ctl m == key_chan_msg n) ≡ false
  unfolding key_chan_ctl key_chan_msg str_beq
  chan_ctl_chan_msg = refl

  pub chan_msg_chan_ctl : (key_chan_msg m == key_chan_ctl n) ≡ false
  unfolding key_chan_ctl key_chan_msg str_beq
  chan_msg_chan_ctl = refl

  pub user_msg_chan_ctl : (key_user_msg m == key_chan_ctl n) ≡ false
  unfolding key_user_msg key_chan_ctl str_beq
  user_msg_chan_ctl = refl

  pub user_msg_chan_msg : (key_user_msg m == key_chan_msg n) ≡ false
  unfolding key_user_msg key_chan_msg str_beq
  user_msg_chan_msg = refl

module _ (m n : Str) (id : ℕ) where
  pub user_ctl_chan_nicks : (key_user_ctl m == key_chan_nicks n id) ≡ false
  unfolding key_user_ctl key_chan_nicks str_beq
  user_ctl_chan_nicks = refl

  pub chan_nicks_user_ctl : (key_chan_nicks n id == key_user_ctl m) ≡ false
  unfolding key_user_ctl key_chan_nicks str_beq
  chan_nicks_user_ctl = refl

  pub user_msg_chan_nicks : (key_user_msg m == key_chan_nicks n id) ≡ false
  unfolding key_user_msg key_chan_nicks str_beq
  user_msg_chan_nicks = refl

  pub chan_ctl_chan_nicks : (key_chan_ctl m == key_chan_nicks n id) ≡ false
  unfolding key_chan_ctl key_chan_nicks str_beq
  chan_ctl_chan_nicks = refl

  pub chan_nicks_chan_ctl : (key_chan_nicks n id == key_chan_ctl m) ≡ false
  unfolding key_chan_ctl key_chan_nicks str_beq
  chan_nicks_chan_ctl = refl

  pub chan_msg_chan_nicks : (key_chan_msg m == key_chan_nicks n id) ≡ false
  unfolding key_chan_msg key_chan_nicks str_beq
  chan_msg_chan_nicks = refl

  pub chan_nicks_chan_msg : (key_chan_nicks n id == key_chan_msg m) ≡ false
  unfolding key_chan_msg key_chan_nicks str_beq
  chan_nicks_chan_msg = refl

Lacks-not : (b y : Str) → Lacks slash (b ++ slash ∷ y) → ⊥
Lacks-not [] y h = cc
Lacks-not (c ∷ b) y (hc, hb) = Lacks-not b y hb

-- The last slash divides a string in one way.
last_slash :
    (a b x y : Str)
    → Lacks slash x
    → Lacks slash y
    → a ++ slash ∷ x ≡ b ++ slash ∷ y
    → (a ≡ b) × (x ≡ y)
last_slash [] [] x y hx hy e = (refl, cc)
last_slash [] (c ∷ b) x y hx hy e = absurd (Lacks-not b y (subst (Lacks slash) (tail_eq e) hx))
  where
    tail_eq : slash ∷ x ≡ c ∷ (b ++ slash ∷ y) → x ≡ b ++ slash ∷ y
    tail_eq p = cc
last_slash (c ∷ a) [] x y hx hy e = absurd (Lacks-not a x (subst (Lacks slash) (tail_eq e) hy))
  where
    tail_eq : c ∷ (a ++ slash ∷ x) ≡ slash ∷ y → y ≡ a ++ slash ∷ x
    tail_eq p = cc
last_slash (c ∷ a) (d ∷ b) x y hx hy e =
    let both : (a ≡ b) × (x ≡ y) = last_slash a b x y hx hy (cc) in (cc (both.0), both.1)

-- The key of the nicks of a channel determines the channel and the lease, slashes in the name of the
-- channel or not.
pub chan_nicks_injective :
    (ch ch' : Str) (id id' : ℕ)
    → key_chan_nicks ch id ≡ key_chan_nicks ch' id'
    → (ch ≡ ch') × (id ≡ id')
unfolding key_chan_nicks
chan_nicks_injective ch ch' id id' e =
    let both =
      last_slash ch ch' (hex id) (hex id') (hex-Lacks_slash id) (hex-Lacks_slash id')
        (append_cancel (lit "/chan/nicks/") _ _ e) in
    (both.0, hex-injective id id' both.1)

Bool-eq : (a b : Bool) → (a ≡ true → b ≡ true) → (b ≡ true → a ≡ true) → a ≡ b
Bool-eq true true f g = refl
Bool-eq true false f g = sym (f refl)
Bool-eq false true f g = g refl
Bool-eq false false f g = refl

pub chan_nicks_nicks :
    (ch ch' : Str) (id id' : ℕ)
    → (key_chan_nicks ch id == key_chan_nicks ch' id') ≡ (ch == ch' && id == id')
chan_nicks_nicks ch ch' id id' =
    Bool-eq _ _
      (λ t.
        let both = chan_nicks_injective ch ch' id id' (eq_of_== _ _ t) in
        rw (both.0, both.1, ==-self ch') (ground arith))
      (λ t.
        let named : ch ≡ ch' = eq_of_== ch ch' (ground arith) in
        let leased : id ≡ id' = ground arith in
        rw (named, leased) (==-self (key_chan_nicks ch' id')))

pub ruleset key_laws = (
  user_ctl_ctl, user_ctl_msg, user_msg_ctl, user_ctl_chan_ctl, chan_ctl_user_ctl, chan_ctl_ctl,
  chan_msg_user_ctl, user_ctl_chan_msg, chan_ctl_chan_msg, chan_msg_chan_ctl, user_msg_chan_msg,
  user_msg_chan_ctl, user_ctl_chan_nicks, chan_nicks_user_ctl, user_msg_chan_nicks,
  chan_ctl_chan_nicks, chan_nicks_chan_ctl, chan_msg_chan_nicks, chan_nicks_chan_msg,
  chan_nicks_nicks,
)

-- The prefix with which the member lists of a channel are read is also a prefix of the keys of each
-- channel whose name goes on from it with a slash.
pub chan_nicks_below :
    (ch rest : Str) (id : ℕ)
    → key_chan_nicks (ch ++ slash ∷ rest) id ≡ key_chan_nicks_pfx ch ++ (rest ++ slash ∷ hex id)
unfolding key_chan_nicks key_chan_nicks_pfx lit
chan_nicks_below ch rest id = simp append_assoc
