-- ===== src/Mode/Semantics.antt =====
-- mode.go: what an update makes of the set of modes.
use etcdircd.Prelude.{
  ℕ, ◌≡◌, refl, ap, Bool, false, not, ◌&&◌, ◌||◌, List, [], ◌∷◌, ◌++◌, Str, arith, ◌==◌, nat_eq,
  if◌then◌else◌, any-append, Bool-cases, inl, inr, ◌∙◌, nat_beq_iff,
}
use mathlib.Core.Path.{fun_ext}
use etcdircd.Mode.{
  ModeValue, ModePerms, Slice, has, add, del, write, update_add, update_del, update, update_each,
  update_slice, add_round, del_round,
}

-- No mode stands twice.
abbrev pub IsModeSet : ModeValue → Type 0
IsModeSet [] = Unit
IsModeSet (m ∷ mv) = (has mv m ≡ false) × IsModeSet mv

pub has-add : (mv : ModeValue) (m c : ℕ) → has (add mv m) c ≡ (has mv c || m == c)
unfolding add has
has-add mv m c = ground (arith, any-append (λ x. x == c) mv (m ∷ []))

has_append : (mv : ModeValue) (m c : ℕ) → has (mv ++ m ∷ []) c ≡ (has mv c || m == c)
unfolding has
has_append mv m c = ground (arith, any-append (λ x. x == c) mv (m ∷ []))

append-IsModeSet :
    (mv : ModeValue) (m : ℕ) → has mv m ≡ false → IsModeSet mv → IsModeSet (mv ++ m ∷ [])
unfolding has
append-IsModeSet [] m h s = (refl, tt)
append-IsModeSet (x ∷ mv) m h (fresh, s) =
    (ground (arith, has_append mv m x), append-IsModeSet mv m (ground arith) s)

pub add-IsModeSet : (mv : ModeValue) (m : ℕ) → IsModeSet mv → IsModeSet (add mv m)
unfolding add
add-IsModeSet mv m s = elim (Bool-cases (has mv m)) [
  | inl old ↦ rw old s
  | inr new ↦ rw new (append-IsModeSet mv m new s)
]

pub has-del :
    (mv : ModeValue) (m c : ℕ) → IsModeSet mv → has (del mv m) c ≡ (has mv c && not (m == c))
unfolding has del
has-del [] m c s = refl
has-del (x ∷ mv) m c (fresh, s) = ground (arith, has-del mv m c s)

has-del_le : (mv : ModeValue) (m c : ℕ) → has mv c ≡ false → has (del mv m) c ≡ false
unfolding has del
has-del_le [] m c h = refl
has-del_le (x ∷ mv) m c h = ground (arith, has-del_le mv m c)

pub del-IsModeSet : (mv : ModeValue) (m : ℕ) → IsModeSet mv → IsModeSet (del mv m)
unfolding del
del-IsModeSet [] m s = tt
del-IsModeSet (x ∷ mv) m (fresh, s) = elim (Bool-cases (x == m)) [
  | inl here ↦ rw here s
  | inr there ↦ rw there (has-del_le mv m x fresh, del-IsModeSet mv m s)
]

pub value-write : (v : ModeValue) (s : Slice) → (write v s).value ≡ v
unfolding write
value-write v s = ground arith

-- The rounds, on the set of modes and on its form.
module _ (mp : ModePerms) (m : ℕ) (s : Slice) where
  add_round-has :
      (c : ℕ) → has (add_round mp m s).value c ≡ (has s.value c || (m == c && has mp.add_modes c))
  unfolding add_round
  add_round-has c =
      ground (arith, value-write (add s.value m) s, has-add s.value m c, nat_beq_iff m c)

  del_round-has :
      (c : ℕ)
      → IsModeSet s.value
      → has (del_round mp m s).value c ≡ (has s.value c && not (m == c && has mp.del_modes c))
  unfolding del_round
  del_round-has c h =
      ground (arith, value-write (del s.value m) s, has-del s.value m c, nat_beq_iff m c)

  add_round-IsModeSet : IsModeSet s.value → IsModeSet (add_round mp m s).value
  unfolding add_round
  add_round-IsModeSet h = elim (Bool-cases (has mp.add_modes m)) [
    | inl ok ↦ rw ok (rw value-write (add-IsModeSet s.value m h))
    | inr refused ↦ rw refused h
  ]

  del_round-IsModeSet : IsModeSet s.value → IsModeSet (del_round mp m s).value
  unfolding del_round
  del_round-IsModeSet h = elim (Bool-cases (has mp.del_modes m)) [
    | inl ok ↦ rw ok (rw value-write (del-IsModeSet s.value m h))
    | inr refused ↦ rw refused h
  ]

has-cons : (m : ℕ) (ms : List ℕ) (c : ℕ) → has (m ∷ ms) c ≡ (m == c || has ms c)
unfolding has
has-cons m ms c = refl

has-nil : (c : ℕ) → has [] c ≡ false
unfolding has
has-nil c = refl

-- The loops.
module _ (mp : ModePerms) where
  update_add-has :
      (ms : List ℕ) (s : Slice) (bad : List ℕ) (c : ℕ)
      → has (update_add mp ms s bad).0.value c ≡ (has s.value c || (has ms c && has mp.add_modes c))
  unfolding update_add
  update_add-has [] s bad c = ground (arith, has-nil c)
  update_add-has (m ∷ ms) s bad c =
      let bad' = if has mp.add_modes m then bad else bad ++ m ∷ [] in
      ground (
        arith,
        update_add-has ms (add_round mp m s) bad' c,
        add_round-has mp m s c,
        has-cons m ms c,
      )

  update_del-has :
      (ms : List ℕ) (s : Slice) (bad : List ℕ) (c : ℕ)
      → IsModeSet s.value
      → has (update_del mp ms s bad).0.value c
        ≡ (has s.value c && not (has ms c && has mp.del_modes c))
  unfolding update_del
  update_del-has [] s bad c h = ground (arith, has-nil c)
  update_del-has (m ∷ ms) s bad c h =
      let bad' = if has mp.del_modes m then bad else bad ++ m ∷ [] in
      ground (
        arith,
        update_del-has ms (del_round mp m s) bad' c (del_round-IsModeSet mp m s h),
        del_round-has mp m s c h,
        has-cons m ms c,
      )

  update_add-IsModeSet :
      (ms : List ℕ) (s : Slice) (bad : List ℕ)
      → IsModeSet s.value
      → IsModeSet (update_add mp ms s bad).0.value
  unfolding update_add
  update_add-IsModeSet [] s bad h = h
  update_add-IsModeSet (m ∷ ms) s bad h =
      update_add-IsModeSet ms (add_round mp m s) _ (add_round-IsModeSet mp m s h)

  update_del-IsModeSet :
      (ms : List ℕ) (s : Slice) (bad : List ℕ)
      → IsModeSet s.value
      → IsModeSet (update_del mp ms s bad).0.value
  unfolding update_del
  update_del-IsModeSet [] s bad h = h
  update_del-IsModeSet (m ∷ ms) s bad h =
      update_del-IsModeSet ms (del_round mp m s) _ (del_round-IsModeSet mp m s h)

-- The modes after an update: a set of modes as a predicate, with no list and no array.
abbrev pub after_update : ModePerms → Str → (ℕ → Bool) → ℕ → Bool
after_update mp [] held c = held c
after_update mp (x ∷ ms) held c =
    if x == b'+'
    then held c || (has ms c && has mp.add_modes c)
    else if x == b'-'
    then held c && not (has ms c && has mp.del_modes c)
    else held c

abbrev pub after_updates : ModePerms → List Str → (ℕ → Bool) → ℕ → Bool
after_updates mp [] held = held
after_updates mp (m ∷ modes) held = after_updates mp modes (after_update mp m held)

module _ (mp : ModePerms) where
  update-has :
      (s : Slice) (m : Str) (c : ℕ)
      → IsModeSet s.value
      → has (update s m mp).0.value c ≡ after_update mp m (has s.value) c
  unfolding update
  update-has s [] c h = refl
  update-has s (x ∷ ms) c h =
      ground (arith, update_add-has mp ms s [] c, update_del-has mp ms s [] c)

  update-IsModeSet : (s : Slice) (m : Str) → IsModeSet s.value → IsModeSet (update s m mp).0.value
  unfolding update
  update-IsModeSet s [] h = h
  update-IsModeSet s (x ∷ ms) h = elim (Bool-cases (x == b'+')) [
    | inl plus ↦ rw plus (update_add-IsModeSet mp ms s [] h)
    | inr other ↦ elim (Bool-cases (x == b'-')) [
      | inl minus ↦ rw (other, minus) (update_del-IsModeSet mp ms s [] h)
      | inr neither ↦ rw (other, neither) h
    ]
  ]

  update_each-has :
      (modes : List Str) (s : Slice) (bad : List ℕ)
      → IsModeSet s.value
      → has (update_each modes mp s bad).0.value ≡ after_updates mp modes (has s.value)
  unfolding update_each
  update_each-has [] s bad h = refl
  update_each-has (m ∷ modes) s bad h =
      update_each-has modes (update s m mp).0 _ (update-IsModeSet s m h)
      ∙ ap (after_updates mp modes) (fun_ext λ c. update-has s m c h)

  update_each-IsModeSet :
      (modes : List Str) (s : Slice) (bad : List ℕ)
      → IsModeSet s.value
      → IsModeSet (update_each modes mp s bad).0.value
  unfolding update_each
  update_each-IsModeSet [] s bad h = h
  update_each-IsModeSet (m ∷ modes) s bad h =
      update_each-IsModeSet modes (update s m mp).0 _ (update-IsModeSet s m h)

  -- From a mode value in which no mode stands twice, `updateSlice` returns a mode value in which no
  -- mode stands twice, whatever the arguments, the permissions and the spare capacity.
  pub update_slice-IsModeSet :
      (mv : ModeValue) (spare : List ℕ) (modes : List Str)
      → IsModeSet mv
      → IsModeSet (update_slice mv spare modes mp).0
  unfolding update_slice
  update_slice-IsModeSet mv spare modes h = update_each-IsModeSet modes _ [] h

  -- From a mode value in which no mode stands twice, the modes in the result of `updateSlice` are
  -- those that the arguments leave when each is read as an operation on a set: `+ms` adds the
  -- members of `ms` that may be added, `-ms` takes away those that may be taken away, and any other
  -- argument changes nothing.
  pub update_slice-has :
      (mv : ModeValue) (spare : List ℕ) (modes : List Str)
      → IsModeSet mv
      → (c : ℕ) → has (update_slice mv spare modes mp).0 c ≡ after_updates mp modes (has mv) c
  unfolding update_slice
  update_slice-has mv spare modes h c = ap (λ f. f c) (update_each-has modes _ [] h)
