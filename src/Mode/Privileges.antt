-- ===== src/Mode/Privileges.antt =====
-- mode.go: the user modes that a client cannot give to itself.
use etcdircd.Prelude.{◌≡◌, Bool, false, ℕ, List, [], ◌∷◌, Str, arith}
use etcdircd.Mode.{ModeValue, ModePerms, has, update_slice}
use etcdircd.Mode.Semantics.{IsModeSet, after_updates, update_slice-has}

module _ (mp : ModePerms) (c : ℕ) (fixed : has mp.add_modes c ≡ false) where
  after_updates_fixed :
      (modes : List Str) (held : ℕ → Bool) → held c ≡ false → after_updates mp modes held c ≡ false
  after_updates_fixed [] held h = h
  after_updates_fixed ([] ∷ modes) held h = after_updates_fixed modes held h
  after_updates_fixed ((x ∷ ms) ∷ modes) held h = after_updates_fixed modes _ (ground arith)

  -- A mode that may not be added is not in the result of `updateSlice` unless the old value had it,
  -- whatever the arguments, if no mode stands twice in the old value.
  pub update_slice_no_escalation :
      (mv : ModeValue) (spare : List ℕ) (modes : List Str)
      → IsModeSet mv
      → has mv c ≡ false
      → has (update_slice mv spare modes mp).0 c ≡ false
  update_slice_no_escalation mv spare modes s h =
      rw (update_slice-has mp mv spare modes s c) (after_updates_fixed modes (has mv) h)
