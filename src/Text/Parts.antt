-- ===== src/Text/Parts.antt =====
-- Splitting and joining.
use etcdircd.Prelude.{
  ℕ, ◌≡◌, ◌≢◌, refl, ap, ◌∙◌, false, List, [], ◌∷◌, ◌++◌, Str, ◌==◌, nat_eq, arith, ==-self,
  Bool-cases, inl, inr,
}
use etcdircd.Text.{split, join, onto_head}

-- The string has no separator.
abbrev pub Lacks : ℕ → Str → Type 0
Lacks sep [] = Unit
Lacks sep (c ∷ s) = ((c == sep) ≡ false) × Lacks sep s

abbrev pub AllLack : ℕ → List Str → Type 0
AllLack sep [] = Unit
AllLack sep (p ∷ ps) = Lacks sep p × AllLack sep ps

pub split-ne-nil : (sep : ℕ) (s : Str) → split sep s ≢ []
unfolding split
split-ne-nil sep [] = cc
split-ne-nil sep (c ∷ s) = ground arith

join-onto_head : (sep c : ℕ) (ps : List Str) → ps ≢ [] → join sep (onto_head c ps) ≡ c ∷ join sep ps
unfolding join
join-onto_head sep c [] h = absurd (h refl)
join-onto_head sep c (p ∷ []) h = refl
join-onto_head sep c (p ∷ q ∷ ps) h = refl

join-nil_cons : (sep : ℕ) (ps : List Str) → ps ≢ [] → join sep ([] ∷ ps) ≡ sep ∷ join sep ps
unfolding join
join-nil_cons sep [] h = absurd (h refl)
join-nil_cons sep (p ∷ ps) h = refl

-- Joining the parts of a string gives the string.
pub join-split : (sep : ℕ) (s : Str) → join sep (split sep s) ≡ s
unfolding split
join-split sep [] = unfold join in refl
join-split sep (c ∷ s) = elim (Bool-cases (c == sep)) [
  | inl here ↦
      rw here
        (join-nil_cons sep (split sep s) (split-ne-nil sep s) ∙ ground (arith, join-split sep s))
  | inr other ↦
      rw other (
        join-onto_head sep c (split sep s) (split-ne-nil sep s)
        ∙ ap (λ t. c ∷ t) (join-split sep s))
]

AllLack-onto_head :
    (sep c : ℕ) (ps : List Str) → (c == sep) ≡ false → AllLack sep ps → AllLack sep (onto_head c ps)
AllLack-onto_head sep c [] h a = ((h, tt), tt)
AllLack-onto_head sep c (p ∷ ps) h (hp, hps) = ((h, hp), hps)

-- No part has the separator.
pub split-AllLack : (sep : ℕ) (s : Str) → AllLack sep (split sep s)
unfolding split
split-AllLack sep [] = (tt, tt)
split-AllLack sep (c ∷ s) = elim (Bool-cases (c == sep)) [
  | inl here ↦ rw here (tt, split-AllLack sep s)
  | inr other ↦ rw other (AllLack-onto_head sep c (split sep s) other (split-AllLack sep s))
]

-- A part at the front of a string is the first part.
pub split-cons : (sep : ℕ) (p s : Str) → Lacks sep p → split sep (p ++ sep ∷ s) ≡ p ∷ split sep s
unfolding split
split-cons sep [] s h = rw (==-self sep)
split-cons sep (c ∷ p) s (hc, hp) = rw hc (ap (onto_head c) (split-cons sep p s hp))

pub split_whole : (sep : ℕ) (p : Str) → Lacks sep p → split sep p ≡ p ∷ []
unfolding split
split_whole sep [] h = refl
split_whole sep (c ∷ p) (hc, hp) = rw hc (ap (onto_head c) (split_whole sep p hp))

-- Splitting a join gives the parts back.
pub split-join :
    (sep : ℕ) (p : Str) (ps : List Str)
    → AllLack sep (p ∷ ps)
    → split sep (join sep (p ∷ ps)) ≡ p ∷ ps
unfolding join
split-join sep p [] (hp, _) = split_whole sep p hp
split-join sep p (q ∷ ps) (hp, hps) =
    split-cons sep p (join sep (q ∷ ps)) hp ∙ ap (λ l. p ∷ l) (split-join sep q ps hps)

pub Lacks-append : (sep : ℕ) (s t : Str) → Lacks sep s → Lacks sep t → Lacks sep (s ++ t)
Lacks-append sep [] t hs ht = ht
Lacks-append sep (c ∷ s) t (hc, hs) ht = (hc, Lacks-append sep s t hs ht)
