-- ===== src/Mode/Change.antt =====
-- mode.go: the third result of `updateSlice`, which decides whether a handler stores the new modes.
use etcdircd.Prelude.{
  ap, sym, ◌∙◌, eq_of_==, ◌≡◌, refl, true, false, ℕ, suc, List, [], ◌∷◌, ◌++◌, Str, ◌==◌, nat_eq,
  str_eq, arith, length, take, drop, not, length-append, length-drop, length-take, ◌≤◌, ==-self,
  Bool-cases, inl, inr,
}
use etcdircd.Mode.{
  Slice, ModeValue, ModePerms, update_slice, add_round, del_round, update_each, update, update_add,
  update_del, write, has, add, del,
}

-- An append that fits in the shared array is made in place.
write_in_place :
    (u v arr : List ℕ)
    → length v ≤ length arr
    → write v (record { value = u; shared = true; array = arr })
      ≡ record { value = v; shared = true; array = v ++ drop (length v) arr }
unfolding write
write_in_place u v arr h = ground arith

-- `append(mv[:0], mv[1:]...)` leaves one old element behind the new slice.
drop_tail :
    (m : ℕ) (rest spare : List ℕ) → (d : ℕ) × (drop (length rest) (m ∷ (rest ++ spare)) ≡ d ∷ spare)
drop_tail m [] spare = (m, refl)
drop_tail m (x ∷ rest) spare = drop_tail x rest spare

module _ (mp : ModePerms) where
  update_one_del :
      (s : Slice) (m : ℕ)
      → has mp.del_modes m ≡ true
      → update s (b'-' ∷ m ∷ []) mp ≡ (write (del s.value m) s, [])
  unfolding update update_del del_round
  update_one_del s m h = rw h

  update_one_add :
      (s : Slice) (c : ℕ)
      → has mp.add_modes c ≡ true
      → has s.value c ≡ false
      → update s (b'+' ∷ c ∷ []) mp ≡ (write (s.value ++ c ∷ []) s, [])
  unfolding update update_add add_round add
  update_one_add s c h fresh = rw (h, fresh)

del_head : (m : ℕ) (rest : ModeValue) → del (m ∷ rest) m ≡ rest
unfolding del
del_head m rest = rw (==-self m)

fits : (xs ys : List ℕ) → length xs ≤ suc (length (xs ++ ys))
fits xs ys = omega (arith, length-append xs ys)

fits_one : (xs ys : List ℕ) (c d : ℕ) → length (xs ++ c ∷ []) ≤ length (xs ++ d ∷ ys)
fits_one xs ys c d = omega (arith, length-append xs (c ∷ []), length-append xs (d ∷ ys))

drop_past : (xs ys : List ℕ) (c d : ℕ) → drop (length (xs ++ c ∷ [])) (xs ++ d ∷ ys) ≡ ys
drop_past [] ys c d = refl
drop_past (x ∷ xs) ys c d = drop_past xs ys c d

take_one : (xs ys : List ℕ) (c : ℕ) → take (suc (length xs)) ((xs ++ c ∷ []) ++ ys) ≡ xs ++ c ∷ []
take_one [] ys c = refl
take_one (x ∷ xs) ys c = ap (λ l. x ∷ l) (take_one xs ys c)

-- After the two rounds the array of the old slice begins with the new list.
module _ (mp : ModePerms) (m c : ℕ) (rest : ModeValue) (spare : List ℕ) where
  abbrev old_slice : Slice
  old_slice = record { value = m ∷ rest; shared = true; array = m ∷ (rest ++ spare) }

  after_del :
      write (del (m ∷ rest) m) old_slice
      ≡ record { value = rest; shared = true; array = rest ++ (drop_tail m rest spare).0 ∷ spare }
  after_del =
      rw (del_head, write_in_place (m ∷ rest) rest (m ∷ (rest ++ spare)) (fits rest spare))
        (rw ((drop_tail m rest spare).1))

  after_add :
      (d : ℕ)
      → write (rest ++ c ∷ []) (record { value = rest; shared = true; array = rest ++ d ∷ spare })
        ≡ record { value = rest ++ c ∷ []; shared = true; array = (rest ++ c ∷ []) ++ spare }
  after_add d = rw (
    write_in_place rest (rest ++ c ∷ []) (rest ++ d ∷ spare) (fits_one rest spare c d),
    drop_past,
  )

  update_each_del_add :
      has mp.del_modes m ≡ true
      → has mp.add_modes c ≡ true
      → has rest c ≡ false
      → update_each ((b'-' ∷ m ∷ []) ∷ (b'+' ∷ c ∷ []) ∷ []) mp old_slice []
        ≡ (record { value = rest ++ c ∷ []; shared = true; array = (rest ++ c ∷ []) ++ spare }, [])
  unfolding update_each
  update_each_del_add hm hc fresh =
      rw (update_one_del mp old_slice m hm, after_del)
        (rw (
          update_one_add mp
              (record {
                value = rest;
                shared = true;
                array = rest ++ (drop_tail m rest spare).0 ∷ spare;
              })
              c hc fresh,
          after_add,
        ))

-- For a mode list `m ∷ rest`, with `-m` and `+c` permitted and `c` not in `rest`, the arguments `-m`
-- and `+c` give the list of `rest` and then `c`, with no bad mode, and `updateSlice` reports that
-- nothing has changed, whatever stands behind the slice in its array: the appends have written the
-- new list over the old one, with which it is then compared.
pub update_slice_unreported :
    (mp : ModePerms) (m c : ℕ) (rest : ModeValue) (spare : List ℕ)
    → has mp.del_modes m ≡ true
    → has mp.add_modes c ≡ true
    → has rest c ≡ false
    → update_slice (m ∷ rest) spare ((b'-' ∷ m ∷ []) ∷ (b'+' ∷ c ∷ []) ∷ []) mp
      ≡ (rest ++ c ∷ [], [], false)
unfolding update_slice
update_slice_unreported mp m c rest spare hm hc fresh =
    rw (update_each_del_add mp m c rest spare hm hc fresh, take_one rest spare c)
      (rw (==-self (rest ++ c ∷ [])))

-- The array keeps its length, and an unreported result has the length of the old slice.
length-write : (v : ModeValue) (s : Slice) → length (write v s).array ≡ length s.array
unfolding write
length-write v s =
    ground (arith, length-append v (drop (length v) s.array), length-drop (length v) s.array)

eq_of_not : (s t : Str) → not (s == t) ≡ false → s ≡ t
eq_of_not s t h = elim (Bool-cases (s == t)) [ inl same ↦ eq_of_== s t same | inr other ↦ cc ]

module _ (mp : ModePerms) where
  length-update_add :
      (ms : List ℕ) (s : Slice) (bad : List ℕ)
      → length (update_add mp ms s bad).0.array ≡ length s.array
  unfolding update_add add_round
  length-update_add [] s bad = refl
  length-update_add (m ∷ ms) s bad =
      length-update_add ms (add_round mp m s) _ ∙ ground (arith, length-write (add s.value m) s)

  length-update_del :
      (ms : List ℕ) (s : Slice) (bad : List ℕ)
      → length (update_del mp ms s bad).0.array ≡ length s.array
  unfolding update_del del_round
  length-update_del [] s bad = refl
  length-update_del (m ∷ ms) s bad =
      length-update_del ms (del_round mp m s) _ ∙ ground (arith, length-write (del s.value m) s)

  length-update : (s : Slice) (m : Str) → length (update s m mp).0.array ≡ length s.array
  unfolding update
  length-update s [] = refl
  length-update s (c ∷ ms) = ground (arith, length-update_add ms s [], length-update_del ms s [])

  length-update_each :
      (modes : List Str) (s : Slice) (bad : List ℕ)
      → length (update_each modes mp s bad).0.array ≡ length s.array
  unfolding update_each
  length-update_each [] s bad = refl
  length-update_each (m ∷ modes) s bad =
      length-update_each modes (update s m mp).0 _ ∙ length-update s m

  -- When `updateSlice` reports no change, its result has as many modes as the old value: an update
  -- that makes the number of modes another one is always reported.
  pub update_slice_unchanged_length :
      (mv : ModeValue) (spare : List ℕ) (modes : List Str)
      → (update_slice mv spare modes mp).2 ≡ false
      → length (update_slice mv spare modes mp).0 ≡ length mv
  unfolding update_slice
  update_slice_unchanged_length mv spare modes h =
      let s =
        (update_each modes mp (record { value = mv; shared = true; array = mv ++ spare }) []).0 in
      let e : length s.array ≡ length (mv ++ spare) = length-update_each modes _ [] in
      ap length (sym (eq_of_not (take (length mv) s.array) s.value h))
      ∙ length-take (length mv) s.array (omega (arith, length-append mv spare))
