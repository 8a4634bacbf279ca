-- ===== src/Moves/Sound.antt =====
-- The invariant of the tables: every user's record has the user's nick, and the member lists say of
-- every nick, on every server, what its record says. The moves of the users keep it.
use etcdircd.Prelude.{
  ℕ, ◌≡◌, refl, sym, ap, ◌∙◌, inl, inr, Option, none, some, [], ◌∷◌, ◌++◌, Str, ◌==◌, nat_eq,
  str_eq, if◌then◌else◌, arith, some_eq, none_not_some, count_if, ==-self,
}
use etcdircd.User.{UserValue, part}
use etcdircd.Channel.{ChannelCtl, ChannelNick}
use etcdircd.Tables.{Tables, leave, enter, set_user, set_ctl}
use etcdircd.Tables.Consistent.{
  IsConsistent, times_in, times_on, names, times_in-leave, times_in-enter, times_on-part,
  times_on-add, lease-part,
}
use etcdircd.Client.Quit.Lists.{leave_lists, user-leave_lists, times_in-leave_lists}
use etcdircd.Moves.{
  Opers, Revising, remoded, opered, away_set, Move, entered, parted, kicked, revised, ruled, gone,
  Moves, stay, after,
}

-- How often the lists of the server with a lease should name the owner of a record.
abbrev pub listed_for : Option UserValue → Str → ℕ → ℕ
listed_for none ch id = 0
listed_for (some uv) ch id = if uv.lease == id then times_on ch uv else 0

pub record IsSound (t : Tables) : Type 0 where
  pub named : (n : Str) (uv : UserValue) → t.user n ≡ some uv → uv.nick ≡ n
  pub listed : (n ch : Str) (id : ℕ) → times_in n (t.members ch id) ≡ listed_for (t.user n) ch id

pub IsSound-IsConsistent : (t : Tables) → IsSound t → IsConsistent t
IsSound-IsConsistent t h = record {
  agree =
      λ n ch uv found. sym (h.listed n ch uv.lease ∙ rw found (ground (arith, ==-self uv.lease)));
}

-- A revised record is that of the same user, on the same server and channels.
pub revised_same :
    {opers : Opers} (uv uv' : UserValue)
    → Revising opers uv uv'
    → (uv'.nick ≡ uv.nick) × (uv'.lease ≡ uv.lease) × (uv'.channels ≡ uv.channels)
revised_same uv uv' (remoded m args e) = (refl, refl, refl)
revised_same uv uv' (opered login ov e) = (refl, refl, refl)
revised_same uv uv' (away_set msg) = (refl, refl, refl)

module _ (t : Tables) (n : Str) (uv : UserValue) where
  named_after :
      (u : Option UserValue)
      → ((v : UserValue) → u ≡ some v → v.nick ≡ n)
      → IsSound t
      → (m : Str) (v : UserValue) → (if n == m then u else t.user m) ≡ some v
      → v.nick ≡ m
  named_after u hu h m v e = elim (names n m) [
    | inl (same, here) ↦ hu v (rw here at e) ∙ same
    | inr (other, there) ↦ h.named m v (rw there at e)
  ]

  pub leave-IsSound :
      (ch : Str) → t.user n ≡ some uv → IsSound t → IsSound (leave n uv ch uv.lease t)
  unfolding part
  leave-IsSound ch found h = record {
    named = λ m v e.
        named_after (some (part uv ch).0)
          (λ v e. ap (λ u. u.nick) (sym (some_eq e)) ∙ h.named n uv found) h m v e;
    listed = λ m c id. rw (times_in-leave t n uv ch m c id) (elim (names n m) [
      | inl (same, here) ↦ ground (arith, times_on-part ch c uv, h.listed n c id, lease-part uv ch)
      | inr (other, there) ↦ ground (arith, h.listed m c id)
    ]);
  }

  pub enter-IsSound :
      (ch : Str) (c0 : ChannelCtl) (cn : ChannelNick)
      → t.user n ≡ some uv
      → cn.nick ≡ uv.nick
      → IsSound t
      → IsSound (enter n uv ch uv.lease c0 cn t)
  enter-IsSound ch c0 cn found called h = record {
    named = λ m v e.
        named_after (some (record uv { channels = uv.channels ++ ch ∷ [] }))
          (λ v e. ap (λ u. u.nick) (sym (some_eq e)) ∙ h.named n uv found) h m v e;
    listed = λ m c id.
        rw (times_in-enter t n uv ch c0 cn m c id (called ∙ h.named n uv found)) (elim (names n m) [
          | inl (same, here) ↦ ground (arith, times_on-add ch c uv, h.listed n c id)
          | inr (other, there) ↦ ground (arith, h.listed m c id)
        ]);
  }

  -- A record that is replaced by one of the same user, on the same server and channels.
  pub revised-IsSound :
      {opers : Opers} (uv' : UserValue)
      → Revising opers uv uv'
      → t.user n ≡ some uv
      → IsSound t
      → IsSound (set_user n (some uv') t)
  revised-IsSound uv' r found h = record {
    named = λ k v e.
        named_after (some uv')
          (λ v e.
            ap (λ u. u.nick) (sym (some_eq e)) ∙ (revised_same uv uv' r).0 ∙ h.named n uv found)
          h k v e;
    listed = λ k c id. elim (names n k) [
      | inl (same, here) ↦ ground (
        arith,
        h.listed n c id,
        (revised_same uv uv' r).1,
        ap (λ l. count_if (λ d. d == c) l) (revised_same uv uv' r).2,
      )
      | inr (other, there) ↦ ground (arith, h.listed k c id)
    ];
  }

  pub gone-IsSound :
      t.user n ≡ some uv
      → IsSound t
      → IsSound (set_user n none (leave_lists n uv.lease uv.channels t))
  gone-IsSound found h = record {
    named = λ m v e.
        named_after none (λ v e. absurd (none_not_some e)) h m v
          (sym (
              ap (λ (u : Str → Option UserValue). if n == m then none else u m)
                (user-leave_lists n uv.lease uv.channels t))
            ∙ e);
    listed = λ m c id. rw (times_in-leave_lists n m c uv.lease id uv.channels t) (elim (names n m) [
      | inl (same, here) ↦ ground (arith, h.listed n c id)
      | inr (other, there) ↦ ground (
        arith,
        h.listed m c id,
        ap (λ (u : Str → Option UserValue). u m) (user-leave_lists n uv.lease uv.channels t),
      )
    ]);
  }

  pub signed_up-IsSound :
      t.user n ≡ none
      → uv.nick ≡ n
      → uv.channels ≡ []
      → IsSound t
      → IsSound (set_user n (some uv) t)
  unfolding count_if
  signed_up-IsSound free called nowhere h = record {
    named =
        λ m v e. named_after (some uv) (λ v e. ap (λ u. u.nick) (sym (some_eq e)) ∙ called) h m v e;
    listed = λ k c id. elim (names n k) [
      | inl (same, here) ↦ ground (arith, h.listed n c id, nowhere)
      | inr (other, there) ↦ ground (arith, h.listed k c id)
    ];
  }

set_ctl-IsSound : (ch : Str) (c : ChannelCtl) (t : Tables) → IsSound t → IsSound (set_ctl ch c t)
set_ctl-IsSound ch c t h = record { named = h.named; listed = h.listed }

-- A move keeps the tables sound.
pub Move-IsSound :
    {opers : Opers} {n : Str} {t t' : Tables} → Move opers n t t' → IsSound t → IsSound t'
Move-IsSound {opers} {n} {t} (entered uv ch c cn found known called own e) h =
    rw e (enter-IsSound t n uv ch c cn found called h)
Move-IsSound {opers} {n} {t} (parted uv ch found on e) h = rw e (leave-IsSound t n uv ch found h)
Move-IsSound {opers} {n} {t} (kicked m uv ch ops found e) h = rw e (leave-IsSound t m uv ch found h)
Move-IsSound {opers} {n} {t} (revised uv uv' found r e) h =
    rw e (revised-IsSound t n uv uv' r found h)
Move-IsSound {opers} {n} {t} (ruled ch c c' found by e) h = rw e (set_ctl-IsSound ch c' t h)
Move-IsSound {opers} {n} {t} (gone uv found e) h = rw e (gone-IsSound t n uv found h)

pub Moves-IsSound :
    {opers : Opers} {n : Str} {t t' : Tables} → Moves opers n t t' → IsSound t → IsSound t'
Moves-IsSound stay h = h
Moves-IsSound (after ms m) h = Move-IsSound m (Moves-IsSound ms h)
