-- ===== src/User/Visibility.antt =====
-- user.go: what `pruneInvisible` shows to a user.
use etcdircd.Prelude.{
  ◌≡◌, ◌≢◌, ◌⊎◌, inl, inr, refl, Bool, true, false, not, ◌&&◌, ◌||◌, List, [], ◌∷◌, ◌++◌, map, Str,
  any, arith, ◌==◌, str_eq, if◌then◌else◌, append_assoc, Bool-cases, append-nil, sym, ap, ◌∙◌,
}
use mathlib.Core.Path.{fun_ext}
use etcdircd.Mode.{has}
use etcdircd.User.{
  UserValue, in_chan, insert_all, string_slice_to_map, shared_channels, has_any, prune_round,
  prune_loop, prune_invisible,
}

abbrev pub All {ℓ κ} : {A : Type ℓ} → (A → Type κ) → List A → Type κ
All P [] = Unit
All P (x ∷ xs) = P x × All P xs

All-append {ℓ κ} :
    {A : Type ℓ} (P : A → Type κ) (xs ys : List A) → All P xs → All P ys → All P (xs ++ ys)
All-append P [] ys hx hy = hy
All-append P (x ∷ xs) ys (px, hx) hy = (px, All-append P xs ys hx hy)

insert_all-any :
    (ss : List Str) (m : Str → Bool) (k : Str) → insert_all ss m k ≡ (any (λ s. s == k) ss || m k)
unfolding insert_all any
insert_all-any [] m k = refl
insert_all-any (s ∷ ss) m k = ground (arith, insert_all-any ss (λ j. s == j || m j) k)

-- The set that `stringSliceToMap` makes has a string exactly when the slice has it.
pub string_slice_to_map-any :
    (ss : List Str) (k : Str) → string_slice_to_map ss k ≡ any (λ s. s == k) ss
unfolding string_slice_to_map
string_slice_to_map-any ss k = ground (arith, insert_all-any ss (λ j. false) k)

-- What a viewer who is not a global operator may see of a user.
pub record MayShow (me user : UserValue) : Type 0 where
  pub allowed :
      ((has user.mode b'i' ≡ false)
        ⊎ ((has me.mode b'o' ≡ true) × ((user.server_name == me.server_name) ≡ true)))
      ⊎ ((user.channels ≢ []) × All (λ ch. in_chan me ch ≡ true) user.channels)

has_any_filled : (chs : List Str) → has_any chs ≡ true → chs ≢ []
has_any_filled [] h e = cc
has_any_filled (ch ∷ chs) h e = cc

abbrev viewed : UserValue → Str → Bool
viewed me = string_slice_to_map me.channels

viewed-in_chan : (me : UserValue) (ch : Str) → viewed me ch ≡ in_chan me ch
unfolding in_chan
viewed-in_chan me ch = string_slice_to_map-any me.channels ch

module _ (me : UserValue) where
  shared_channels-All :
      (chs acc : List Str)
      → All (λ ch. in_chan me ch ≡ true) acc
      → All (λ ch. in_chan me ch ≡ true) (shared_channels (viewed me) chs acc)
  unfolding shared_channels
  shared_channels-All [] acc h = h
  shared_channels-All (ch ∷ chs) acc h = elim (Bool-cases (viewed me ch)) [
    | inl shared ↦ rw shared (
        shared_channels-All chs (acc ++ ch ∷ [])
          (All-append _ acc _ h (sym (viewed-in_chan me ch) ∙ shared, tt)))
    | inr other ↦ rw other (shared_channels-All chs acc h)
  ]

  prune_round-MayShow :
      (u : UserValue) (ret : List UserValue)
      → All (MayShow me) ret
      → All (MayShow me) (prune_round me (viewed me) (has me.mode b'o') u ret)
  unfolding prune_round
  prune_round-MayShow u ret h = elim (Bool-cases (has u.mode b'i')) [
    | inr visible ↦ rw visible (All-append _ ret _ h (record { allowed = inl (inl visible) }, tt))
    | inl hidden ↦ elim (Bool-cases (has me.mode b'o' && (u.server_name == me.server_name))) [
      | inl local ↦
          rw (hidden, local)
            (All-append _ ret _ h (record { allowed = inl (inr (ground arith)) }, tt))
      | inr stranger ↦ elim (Bool-cases (has_any (shared_channels (viewed me) u.channels []))) [
        | inl some_shared ↦
            rw (hidden, stranger, some_shared)
              (All-append _ ret _ h (
                record {
                  allowed =
                      inr (has_any_filled _ some_shared, shared_channels-All u.channels [] tt);
                },
                tt,
              ))
        | inr none_shared ↦ rw (hidden, stranger, none_shared) h
      ]
    ]
  ]

  prune_loop-MayShow :
      (users ret : List UserValue)
      → All (MayShow me) ret
      → All (MayShow me) (prune_loop me (viewed me) (has me.mode b'o') users ret)
  unfolding prune_loop
  prune_loop-MayShow [] ret h = h
  prune_loop-MayShow (u ∷ users) ret h = prune_loop-MayShow users _ (prune_round-MayShow u ret h)

  -- To a viewer who is not a global operator `pruneInvisible` shows only what the viewer may see:
  -- each user in the result is not invisible, or is on the server of the viewer, a local operator,
  -- or is shown with one channel or more, of all of which the viewer is a member.
  pub prune_invisible-MayShow :
      (users : List UserValue)
      → has me.mode b'O' ≡ false
      → All (MayShow me) (prune_invisible users me)
  unfolding prune_invisible
  prune_invisible-MayShow users local = rw local (prune_loop-MayShow users [] tt)

-- Who is in the result, said with no loop over shared channels.
abbrev pub can_see : UserValue → UserValue → Bool
can_see me u =
    has me.mode b'O'
    || not (has u.mode b'i')
    || (has me.mode b'o' && (u.server_name == me.server_name))
    || any (λ ch. in_chan me ch) u.channels

abbrev pub seen_nicks : UserValue → List UserValue → List Str
seen_nicks me [] = []
seen_nicks me (u ∷ users) =
    let rest = seen_nicks me users in if can_see me u then u.nick ∷ rest else rest

has_any-append : (xs : List Str) (x : Str) → has_any (xs ++ x ∷ []) ≡ true
has_any-append [] x = refl
has_any-append (y ∷ xs) x = refl

has_any-shared_channels :
    (m : Str → Bool) (chs acc : List Str)
    → has_any (shared_channels m chs acc) ≡ (has_any acc || any m chs)
unfolding shared_channels any
has_any-shared_channels m [] acc = ground arith
has_any-shared_channels m (ch ∷ chs) acc = ground (
  arith,
  has_any-shared_channels m chs (acc ++ ch ∷ []),
  has_any-shared_channels m chs acc,
  has_any-append acc ch,
)

map-append_one {ℓ κ} :
    {A : Type ℓ} {B : Type κ} (f : A → B) (xs : List A) (x : A)
    → map f (xs ++ x ∷ []) ≡ map f xs ++ f x ∷ []
map-append_one f [] x = refl
map-append_one f (y ∷ xs) x = ap (λ l. f y ∷ l) (map-append_one f xs x)

abbrev nicks : List UserValue → List Str
nicks = map (λ u. u.nick)

module _ (me : UserValue) (local : has me.mode b'O' ≡ false) where
  prune_round-nicks :
      (u : UserValue) (ret : List UserValue)
      → nicks (prune_round me (viewed me) (has me.mode b'o') u ret)
        ≡ (if can_see me u then nicks ret ++ u.nick ∷ [] else nicks ret)
  unfolding prune_round
  prune_round-nicks u ret = ground (
    arith,
    map-append_one (λ (v : UserValue). v.nick) ret u,
    map-append_one (λ (v : UserValue). v.nick) ret
        (record u { channels = shared_channels (viewed me) u.channels [] }),
    has_any-shared_channels (viewed me) u.channels [],
    ap (λ m. any m u.channels) (fun_ext (viewed-in_chan me)),
  )

  prune_loop-nicks :
      (users ret : List UserValue)
      → nicks (prune_loop me (viewed me) (has me.mode b'o') users ret)
        ≡ nicks ret ++ seen_nicks me users
  unfolding prune_loop
  prune_loop-nicks [] ret = sym (append-nil (nicks ret))
  prune_loop-nicks (u ∷ users) ret =
      prune_loop-nicks users _
      ∙ rw prune_round-nicks
          (ground (arith, append_assoc (nicks ret) (u.nick ∷ []) (seen_nicks me users)))

global_sees_all :
    (me : UserValue) (users : List UserValue)
    → has me.mode b'O' ≡ true
    → seen_nicks me users ≡ nicks users
global_sees_all me [] h = refl
global_sees_all me (u ∷ users) h = rw h (ap (λ l. u.nick ∷ l) (global_sees_all me users h))

-- The users in the result of `pruneInvisible` are, in their order, exactly those whom the viewer can
-- see: all of them for a global operator, else those who are not invisible, those on the viewer's
-- server for a local operator, and those who are on a channel of the viewer.
pub prune_invisible-nicks :
    (me : UserValue) (users : List UserValue)
    → map (λ u. u.nick) (prune_invisible users me) ≡ seen_nicks me users
unfolding prune_invisible
prune_invisible-nicks me users = elim (Bool-cases (has me.mode b'O')) [
  | inl global ↦ rw global (sym (global_sees_all me users global))
  | inr local ↦ rw local (prune_loop-nicks me local users [])
]
