-- ===== src/Tables/Consistent.antt =====
-- The two places that say who is on a channel agree: the channels of a user's record, and the
-- members of the channel on the user's server.
use etcdircd.Prelude.{
  ℕ, ◌+◌, ◌-◌, [], ◌∷◌, ◌++◌, ◌≡◌, ◌≢◌, refl, sym, ap, ◌∙◌, ◌⊎◌, Bool, true, false, ◌&&◌, some, Str,
  ◌==◌, nat_eq, str_eq, if◌then◌else◌, arith, count_if, count_if-append, count_if-delete_first,
  count_if-delete_other, eq_of_==, ==-self, ==-ne, Bool-cases, inl, inr,
}
use mathlib.Core.Path.{subst}
use etcdircd.User.{UserValue, part}
use etcdircd.Channel.{ChannelCtl, ChannelNick, ChannelNicks, del_nick}
use etcdircd.Tables.Store.{same_members}
use etcdircd.Tables.{Tables, leave, enter, set_user}

-- How often a user's record names a channel, and a channel's list a nick.
abbrev pub times_on : Str → UserValue → ℕ
times_on ch uv = count_if (λ c. c == ch) uv.channels

abbrev pub times_in : Str → ChannelNicks → ℕ
times_in n cns = count_if (λ cn. cn.nick == n) cns

pub record IsConsistent (t : Tables) : Type 0 where
  pub agree :
      (n ch : Str) (uv : UserValue)
      → t.user n ≡ some uv
      → times_on ch uv ≡ times_in n (t.members ch uv.lease)

other_name : (a b x : Str) → a ≢ b → (x == a) ≡ true → (x == b) ≡ false
other_name a b x h e = ==-ne x b (λ p. h (sym (eq_of_== x a e) ∙ p))

-- A test on two names, with what each answer says of the names.
pub names : (a b : Str) → ((a ≡ b) × ((a == b) ≡ true)) ⊎ ((a ≢ b) × ((a == b) ≡ false))
names a b = elim (Bool-cases (a == b)) [
  | inl t ↦ inl (eq_of_== a b t, t)
  | inr f ↦ inr ((λ e. cc (f, ap (λ x. x == b) e, ==-self b)), f)
]

pub times_in-del :
    (n m : Str) (cns : ChannelNicks)
    → times_in m (del_nick cns n) ≡ (if n == m then times_in m cns - 1 else times_in m cns)
unfolding del_nick
times_in-del n m cns = elim (names n m) [
  | inl (same, t) ↦ rw t (
      subst (λ k. times_in k (del_nick cns n) ≡ times_in k cns - 1) same
        (unfold del_nick in count_if-delete_first _ cns))
  | inr (other, f) ↦ rw f (count_if-delete_other _ _ cns (λ cn e. other_name n m cn.nick other e))
]

pub times_on-part :
    (ch c : Str) (uv : UserValue)
    → times_on c (part uv ch).0 ≡ (if ch == c then times_on c uv - 1 else times_on c uv)
unfolding part
times_on-part ch c uv = elim (names ch c) [
  | inl (same, t) ↦ rw t (
      subst (λ k. times_on k (part uv ch).0 ≡ times_on k uv - 1) same
        (unfold part in count_if-delete_first _ uv.channels))
  | inr (other, f) ↦ rw f (count_if-delete_other _ _ uv.channels (λ x e. other_name ch c x other e))
]

count_if_one :
    {A : Type 0} (p : A → Bool) (x : A) (n : ℕ)
    → n + count_if p (x ∷ []) ≡ (if p x then n + 1 else n)
unfolding count_if
count_if_one p x n = ground arith

times_in-add :
    (m : Str) (cns : ChannelNicks) (cn : ChannelNick)
    → times_in m (cns ++ cn ∷ []) ≡ (if cn.nick == m then times_in m cns + 1 else times_in m cns)
times_in-add m cns cn = count_if-append _ cns (cn ∷ []) ∙ count_if_one _ cn _

pub times_on-add :
    (ch c : Str) (uv : UserValue)
    → times_on c (record uv { channels = uv.channels ++ ch ∷ [] })
      ≡ (if ch == c then times_on c uv + 1 else times_on c uv)
times_on-add ch c uv = count_if-append _ uv.channels (ch ∷ []) ∙ count_if_one _ ch _

pub lease-part : (uv : UserValue) (ch : Str) → (part uv ch).0.lease ≡ uv.lease
unfolding part
lease-part uv ch = refl

module _ (t : Tables) (n : Str) (uv : UserValue) (ch : Str) where
  -- The members of a channel after the leave, as one nick counts.
  pub times_in-leave :
      (m c : Str) (id : ℕ)
      → times_in m ((leave n uv ch uv.lease t).members c id) ≡ (
          if (ch == c && uv.lease == id) && n == m
          then times_in m (t.members c id) - 1
          else times_in m (t.members c id))
  times_in-leave m c id = elim (Bool-cases (ch == c && uv.lease == id)) [
    | inl here ↦
        rw here (rw (same_members t ch c uv.lease id here) (times_in-del n m (t.members c id)))
    | inr there ↦ rw there
  ]

  -- A user who leaves a channel on the server of the user's record leaves it in both places.
  pub leave-IsConsistent :
      IsConsistent t → t.user n ≡ some uv → IsConsistent (leave n uv ch uv.lease t)
  leave-IsConsistent h found = record { agree = agree }
    where
      agree :
          (m c : Str) (uv' : UserValue)
          → (if n == m then some (part uv ch).0 else t.user m) ≡ some uv'
          → times_on c uv' ≡ times_in m ((leave n uv ch uv.lease t).members c uv'.lease)
      agree m c uv' e = rw (times_in-leave m c uv'.lease) (elim (names n m) [
        | inl (same, yes') ↦
            ground (arith, times_on-part ch c uv, h.agree n c uv found, lease-part uv ch)
        | inr (other, no') ↦ ground (arith, h.agree m c uv')
      ])

  -- The members of a channel after an entry, as one nick counts.
  pub times_in-enter :
      (c0 : ChannelCtl) (cn : ChannelNick) (m c : Str) (id : ℕ)
      → cn.nick ≡ n
      → times_in m ((enter n uv ch uv.lease c0 cn t).members c id) ≡ (
          if (ch == c && uv.lease == id) && n == m
          then times_in m (t.members c id) + 1
          else times_in m (t.members c id))
  times_in-enter c0 cn m c id named = elim (Bool-cases (ch == c && uv.lease == id)) [
    | inl here ↦
        rw here (
          rw (same_members t ch c uv.lease id here) (times_in-add m (t.members c id) cn ∙ rw named))
    | inr there ↦ rw there
  ]

  -- A user who enters a channel on the server of the user's record enters it in both places.
  pub enter-IsConsistent :
      (c0 : ChannelCtl) (cn : ChannelNick)
      → cn.nick ≡ n
      → IsConsistent t
      → t.user n ≡ some uv
      → IsConsistent (enter n uv ch uv.lease c0 cn t)
  enter-IsConsistent c0 cn named h found = record { agree = agree }
    where
      agree :
          (m c : Str) (uv' : UserValue)
          → (if n == m then some (record uv { channels = uv.channels ++ ch ∷ [] }) else t.user m)
            ≡ some uv'
          → times_on c uv' ≡ times_in m ((enter n uv ch uv.lease c0 cn t).members c uv'.lease)
      agree m c uv' e = rw (times_in-enter c0 cn m c uv'.lease named) (elim (names n m) [
        | inl (same, yes') ↦ ground (arith, times_on-add ch c uv, h.agree n c uv found)
        | inr (other, no') ↦ ground (arith, h.agree m c uv')
      ])

-- A user without channels, whom no channel lists, can be added.
pub set_user-IsConsistent :
    (t : Tables) (n : Str) (uv : UserValue)
    → uv.channels ≡ []
    → ((ch : Str) → times_in n (t.members ch uv.lease) ≡ 0)
    → IsConsistent t
    → IsConsistent (set_user n (some uv) t)
unfolding count_if
set_user-IsConsistent t n uv nowhere unlisted h = record { agree = agree }
  where
    some_eq : {a b : UserValue} → some a ≡ some b → a ≡ b
    some_eq q = cc

    agree :
        (m c : Str) (uv' : UserValue)
        → (if n == m then some uv else t.user m) ≡ some uv'
        → times_on c uv' ≡ times_in m (t.members c uv'.lease)
    agree m c uv' e = elim (names n m) [
      | inl (same, yes') ↦
          subst (λ u. times_on c u ≡ times_in m (t.members c u.lease)) (some_eq (rw yes' at e))
            (subst (λ k. times_on c uv ≡ times_in k (t.members c uv.lease)) same
              (rw nowhere (sym (unlisted c))))
      | inr (other, no') ↦ ground (arith, h.agree m c uv')
    ]
