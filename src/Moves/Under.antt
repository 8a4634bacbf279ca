-- ===== src/Moves/Under.antt =====
-- The lease under which a user's record is kept: what happens to the tables does not change it.
use etcdircd.Prelude.{
  ℕ, ◌≡◌, refl, sym, ap, ◌∙◌, some, Str, ◌==◌, str_eq, some_eq, inl, inr, none_not_some, none,
  Option, if◌then◌else◌,
}
use mathlib.Core.Path.{subst}
use etcdircd.User.{UserValue, part}
use etcdircd.Tables.{Tables}
use etcdircd.Tables.Consistent.{names, lease-part}
use etcdircd.Client.Quit.Lists.{user-leave_lists}
use etcdircd.Moves.{Opers, Move, entered, parted, kicked, revised, ruled, gone, Moves, stay, after}
use etcdircd.Moves.Sound.{revised_same}

-- The record of the user, if there is one, is kept under the lease.
pub record IsUnder (lid : ℕ) (n : Str) (t : Tables) : Type 0 where
  pub own : (uv : UserValue) → t.user n ≡ some uv → uv.lease ≡ lid

module _ (lid : ℕ) (k m : Str) (t : Tables) (h : IsUnder lid k t) where
  put-IsUnder :
      (uv uv' : UserValue)
      → t.user m ≡ some uv
      → uv'.lease ≡ uv.lease
      → (v : UserValue) → (if m == k then some uv' else t.user k) ≡ some v
      → v.lease ≡ lid
  put-IsUnder uv uv' found same v e = elim (names m k) [
    | inl (here, t') ↦
        ap (λ u. u.lease) (sym (some_eq (rw t' at e)))
        ∙ same
        ∙ h.own uv (subst (λ x. t.user x ≡ some uv) here found)
    | inr (other, f) ↦ h.own v (rw f at e)
  ]

  gone-IsUnder :
      (u : Option UserValue)
      → u ≡ t.user k
      → (v : UserValue) → (if m == k then none else u) ≡ some v
      → v.lease ≡ lid
  gone-IsUnder u same v e = elim (names m k) [
    | inl (here, t') ↦ absurd (none_not_some (rw t' at e))
    | inr (other, f) ↦ h.own v (sym same ∙ rw f at e)
  ]

-- Nobody's moves change the lease under which a record is kept.
pub Move-IsUnder :
    {opers : Opers} {n : Str} {t t' : Tables} (lid : ℕ) (k : Str)
    → Move opers n t t'
    → IsUnder lid k t
    → IsUnder lid k t'
Move-IsUnder {opers} {n} {t} lid k (entered uv ch c cn found known called own e) h =
    rw e (record { own = put-IsUnder lid k n t h uv _ found refl })
Move-IsUnder {opers} {n} {t} lid k (parted uv ch found on e) h =
    rw e (record { own = put-IsUnder lid k n t h uv (part uv ch).0 found (lease-part uv ch) })
Move-IsUnder {opers} {n} {t} lid k (kicked m uv ch ops found e) h =
    rw e (record { own = put-IsUnder lid k m t h uv (part uv ch).0 found (lease-part uv ch) })
Move-IsUnder {opers} {n} {t} lid k (revised uv uv' found r e) h =
    rw e (record { own = put-IsUnder lid k n t h uv uv' found (revised_same uv uv' r).1 })
Move-IsUnder {opers} {n} {t} lid k (ruled ch c c' found by e) h = rw e (record { own = h.own })
Move-IsUnder {opers} {n} {t} lid k (gone uv found e) h = rw e (record {
  own =
      gone-IsUnder lid k n t h _
        (ap (λ (u : Str → Option UserValue). u k) (user-leave_lists n uv.lease uv.channels t));
})

pub Moves-IsUnder :
    {opers : Opers} {n : Str} {t t' : Tables} (lid : ℕ) (k : Str)
    → Moves opers n t t'
    → IsUnder lid k t
    → IsUnder lid k t'
Moves-IsUnder lid k stay h = h
Moves-IsUnder lid k (after ms m) h = Move-IsUnder lid k m (Moves-IsUnder lid k ms h)
