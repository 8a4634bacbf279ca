-- ===== src/Mode.antt =====
-- mode.go: mode values, permission sets and mode updates.
--
-- A Go slice is a window on a backing array, and `append(mv[:i], mv[i+1:]...)` writes into that
-- array. `updateSlice` compares its result with the slice that it was given, so what the appends
-- did to the array of the old slice decides its third result: `Slice` carries that array.
pub mod Semantics
pub mod Change
pub mod Privileges
use etcdircd.Prelude.{
  ℕ, ◌+◌, Bool, true, false, not, str_beq, ◌&&◌, List, [], ◌∷◌, ◌++◌, Str, any, delete_first, drop,
  take, length, leb, ◌==◌, nat_eq, str_eq, if◌then◌else◌, lit,
}

abbrev pub ModeValue : Type 0
ModeValue = List ℕ

abbrev pub ModeSet : Type 0
ModeSet = List ℕ

pub record ModePerms : Type 0 where
  pub all_modes : ModeSet
  pub add_modes : ModeSet
  pub del_modes : ModeSet

abbrev pub user_mode_perms : ModePerms
user_mode_perms = record {
  all_modes = b'a' ∷ b'i' ∷ b'o' ∷ b'E' ∷ b'O' ∷ [];
  add_modes = b'i' ∷ b'E' ∷ [];
  del_modes = b'a' ∷ b'i' ∷ b'o' ∷ b'E' ∷ b'O' ∷ [];
}

abbrev pub chan_modes : ModeSet
chan_modes = b'm' ∷ b't' ∷ b's' ∷ []

abbrev pub chan_mode_perms : ModePerms
chan_mode_perms = record { all_modes = chan_modes; add_modes = chan_modes; del_modes = chan_modes }

-- `_, ok := set[m]`, and `bytes.IndexByte(mv, m) >= 0`.
unfoldable pub has : List ℕ → ℕ → Bool
unfolding any
has mv m = any (λ x. x == m) mv

unfoldable pub add : ModeValue → ℕ → ModeValue
add mv m = if has mv m then mv else mv ++ m ∷ []

unfoldable pub del : ModeValue → ℕ → ModeValue
unfolding delete_first
del mv m = delete_first (λ x. x == m) mv

-- A mode value in the course of `updateSlice`: `array` is the backing array of the slice that the
-- call was given, up to its capacity, and `shared` says that `value` still is a prefix of it.
pub record Slice : Type 0 where
  pub value : ModeValue
  pub shared : Bool
  pub array : List ℕ

-- The result `v` of an `append`: in place where it fits in the array, else in a new array.
unfoldable pub write : ModeValue → Slice → Slice
write v s =
    if s.shared && leb (length v) (length s.array)
    then record s { value = v; array = v ++ drop (length v) s.array }
    else record s { value = v; shared = false }

-- One round of the first and of the second loop of `update`.
unfoldable pub add_round : ModePerms → ℕ → Slice → Slice
add_round mp m s = if has mp.add_modes m then write (add s.value m) s else s

unfoldable pub del_round : ModePerms → ℕ → Slice → Slice
del_round mp m s = if has mp.del_modes m then write (del s.value m) s else s

-- The loops of `update`, over the mode characters that are left.
unfoldable pub update_add : ModePerms → List ℕ → Slice → List ℕ → Slice × List ℕ
update_add mp [] s bad = (s, bad)
update_add mp (m ∷ ms) s bad =
    update_add mp ms (add_round mp m s) (if has mp.add_modes m then bad else bad ++ m ∷ [])

unfoldable pub update_del : ModePerms → List ℕ → Slice → List ℕ → Slice × List ℕ
update_del mp [] s bad = (s, bad)
update_del mp (m ∷ ms) s bad =
    update_del mp ms (del_round mp m s) (if has mp.del_modes m then bad else bad ++ m ∷ [])

unfoldable pub unknown_modes : ModePerms → List ℕ → List ℕ → List ℕ
unknown_modes mp [] bad = bad
unknown_modes mp (m ∷ ms) bad =
    unknown_modes mp ms (if has mp.all_modes m then bad else bad ++ m ∷ [])

unfoldable pub update : Slice → Str → ModePerms → Slice × List ℕ
update s [] mp = (s, [])
update s (c ∷ ms) mp =
    if c == b'+'
    then update_add mp ms s []
    else if c == b'-'
    then update_del mp ms s []
    else (s, unknown_modes mp (c ∷ ms) [])

unfoldable pub update_each : List Str → ModePerms → Slice → List ℕ → Slice × List ℕ
update_each [] mp s bad = (s, bad)
update_each (m ∷ modes) mp s bad =
    let (s', new_bad) = update s m mp in update_each modes mp s' (bad ++ new_bad)

-- `spare` is what stands in the array behind the slice, up to its capacity. The last result is
-- `!oldMode.Equal(ret)`, where `oldMode` reads the array as the appends have left it.
unfoldable pub update_slice : ModeValue → List ℕ → List Str → ModePerms → ModeValue × List ℕ × Bool
unfolding str_beq
update_slice mv spare modes mp =
    let (s, bad) =
      update_each modes mp (record { value = mv; shared = true; array = mv ++ spare }) [] in
    (s.value, bad, not (take (length mv) s.array == s.value))
