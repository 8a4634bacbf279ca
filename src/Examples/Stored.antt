-- ===== src/Examples/Stored.antt =====
-- What the store of the runs holds, as tables.
use mathlib.Core.Path.{subst}
use etcdircd.Etcd.{no_option, with_lease}
use etcdircd.Prelude.{
  ℕ, ◌≡◌, refl, sym, ap, ◌∙◌, Bool, true, false, none, some, List, [], ◌∷◌, Str, lit, ◌==◌, str_eq,
  nat_eq, if◌then◌else◌, count_if, str_beq, Bool-cases, inl, inr, eq_of_==,
}
use etcdircd.User.{UserValue}
use etcdircd.Result.{Result, ok}
use etcdircd.Client.Part.Laws.{OwnLease}
use etcdircd.Key.{key_user_ctl, key_chan_nicks, key_chan_ctl}
use etcdircd.Tables.{Tables, set_user, set_members, set_ctl}
use etcdircd.Tables.Store.{tables, tables-commit, tables-put_nicks, tables-put_ctl, tables-put_user}
use etcdircd.Tables.Consistent.{IsConsistent, times_on, times_in}
use etcdircd.Sample.{
  sample, harbour, ann, bob, sea, user_named, client_of, ann_record, crew, bare, sea_ctl,
}

abbrev pub listed : Tables
listed = set_members sea 7 crew (
    set_ctl sea sea_ctl (
      set_user bob (some (user_named bob (sea ∷ []) []))
        (set_user ann (some (user_named ann (sea ∷ []) (b'i' ∷ []))) (tables sample bare))))

pub tables-harbour : tables sample harbour ≡ listed
tables-harbour =
    tables-commit sample _ 5
    ∙ tables-put_nicks sample _ (with_lease 7) sea 7 crew
    ∙ ap (set_members sea 7 crew) (
        tables-put_ctl sample _ no_option sea sea_ctl
        ∙ ap (set_ctl sea sea_ctl) (
            tables-put_user sample _ (with_lease 7) bob _
            ∙ ap (set_user bob _) (tables-put_user sample _ (with_lease 7) ann _)))

not_some : {a : UserValue} → none ≡ some a → ⊥
not_some h = cc

-- A member of the channel is listed once on both sides, and on no other channel.
agrees :
    (n : Str) (mode : List ℕ) (ch : Str)
    → times_in n crew ≡ 1
    → times_on ch (user_named n (sea ∷ []) mode) ≡ times_in n (listed.members ch 7)
unfolding tables count_if
agrees n mode ch h = elim (Bool-cases (sea == ch)) [ inl on ↦ rw on (sym h) | inr off ↦ rw off ]

some_eq : {a b : UserValue} → some a ≡ some b → a ≡ b
some_eq h = cc

if_yes : {A : Type 0} {b : Bool} (x y : A) → b ≡ true → (if b then x else y) ≡ x
if_yes x y h = rw h

if_not : {A : Type 0} {b : Bool} (x y : A) → b ≡ false → (if b then x else y) ≡ y
if_not x y h = rw h

named_agrees :
    (m n ch : Str) (mode : List ℕ) (uv : UserValue)
    → times_in m crew ≡ 1
    → (m == n) ≡ true
    → user_named m (sea ∷ []) mode ≡ uv
    → times_on ch uv ≡ times_in n (listed.members ch uv.lease)
named_agrees m n ch mode uv once here same =
    subst (λ uv. times_on ch uv ≡ times_in n (listed.members ch uv.lease)) same
      (subst (λ n. times_on ch (user_named m (sea ∷ []) mode) ≡ times_in n (listed.members ch 7))
        (eq_of_== m n here) (agrees m mode ch once))

ann_once : times_in ann crew ≡ 1
unfolding count_if lit str_beq
ann_once = refl

bob_once : times_in bob crew ≡ 1
unfolding count_if lit str_beq
bob_once = refl

IsConsistent-listed : IsConsistent listed
unfolding tables
IsConsistent-listed = record { agree = agree }
  where
    agree :
        (n ch : Str) (uv : UserValue)
        → listed.user n ≡ some uv
        → times_on ch uv ≡ times_in n (listed.members ch uv.lease)
    agree n ch uv h = elim (Bool-cases (bob == n)) [
      | inl b ↦ named_agrees bob n ch [] uv bob_once b (some_eq (sym (if_yes _ _ b) ∙ h))
      | inr nb ↦ elim (Bool-cases (ann == n)) [
        | inl a ↦
            named_agrees ann n ch (b'i' ∷ []) uv ann_once a
              (some_eq (sym (if_not _ _ nb ∙ if_yes _ _ a) ∙ h))
        | inr na ↦ absurd (not_some (sym (if_not _ _ nb ∙ if_not _ _ na) ∙ h))
      ]
    ]

pub IsConsistent-harbour : IsConsistent (tables sample harbour)
IsConsistent-harbour = subst IsConsistent (sym tables-harbour) IsConsistent-listed

ann_stored : (tables sample harbour).user ann ≡ some ann_record
unfolding tables str_beq key_chan_nicks key_user_ctl key_chan_ctl
ann_stored = refl

ok_eq : {a b : ℕ} → Result.ok a ≡ ok b → a ≡ b
ok_eq h = cc

pub ann_is : (uv : UserValue) → (tables sample harbour).user ann ≡ some uv → uv ≡ ann_record
ann_is uv h = some_eq (sym h ∙ ann_stored)

pub OwnLease-ann : OwnLease (client_of ann) (ok 7) (tables sample harbour)
OwnLease-ann uv lid s h = ap (λ (u : UserValue). u.lease) (ann_is uv h) ∙ ok_eq s
