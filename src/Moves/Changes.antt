-- ===== src/Moves/Changes.antt =====
-- What happens to the tables: the moves of all users, registrations, and the end of leases.
use etcdircd.Prelude.{
  ℕ, ◌≡◌, Option, none, some, [], Str, ◌==◌, nat_eq, str_eq, if◌then◌else◌, arith, count_if,
  eq_of_==,
}
use etcdircd.User.{UserValue}
use etcdircd.Tables.{Tables, set_user}
use etcdircd.Tables.Consistent.{times_in}
use etcdircd.Moves.{Opers, Move}
use etcdircd.Moves.Sound.{IsSound, listed_for, Move-IsSound, signed_up-IsSound}

-- The records under a lease.
abbrev pub unless_under : ℕ → Option UserValue → Option UserValue
unless_under id none = none
unless_under id (some uv) = if uv.lease == id then none else some uv

-- The end of a lease deletes the records and the member lists that are kept under it.
abbrev pub expire : ℕ → Tables → Tables
expire id t = record t {
  user = λ n. unless_under id (t.user n);
  members = λ ch id'. if id' == id then [] else t.members ch id';
}

pub data Change (t t' : Tables) : Type 0 where
  moved : (opers : Opers) (m : Str) → Move opers m t t' → Change t t'
  signed_up :
      (m : Str) (uv : UserValue)
      → t.user m ≡ none
      → uv.nick ≡ m
      → uv.channels ≡ []
      → t' ≡ set_user m (some uv) t
      → Change t t'
  expired : (id : ℕ) → t' ≡ expire id t → Change t t'

pub data Changes (t : Tables) : Tables → Type 0 where
  rest : Changes t t
  later : {mid t' : Tables} → Changes t mid → Change mid t' → Changes t t'

pub expired_kept :
    (id : ℕ) (u : Option UserValue) (v : UserValue) → unless_under id u ≡ some v → u ≡ some v
expired_kept id none v e = e
expired_kept id (some uv) v e = ground (arith, e)

pub expire-IsSound : (id : ℕ) (t : Tables) → IsSound t → IsSound (expire id t)
unfolding count_if
expire-IsSound id t h = record {
  named = λ n uv e. h.named n uv (expired_kept id (t.user n) uv e);
  listed = λ n ch id'. listed n ch id' (t.user n) (h.listed n ch id');
}
  where
    listed :
        (n ch : Str) (id' : ℕ) (u : Option UserValue)
        → times_in n (t.members ch id') ≡ listed_for u ch id'
        → times_in n (if id' == id then [] else t.members ch id')
          ≡ listed_for (unless_under id u) ch id'
    listed n ch id' none e = ground (arith, e)
    listed n ch id' (some uv) e =
        ground (arith, e, eq_of_== id id', eq_of_== uv.lease id, eq_of_== uv.lease id')

pub Change-IsSound : {t t' : Tables} → Change t t' → IsSound t → IsSound t'
Change-IsSound (moved opers m mv) h = Move-IsSound mv h
Change-IsSound {t} (signed_up m uv free called nowhere e) h =
    rw e (signed_up-IsSound t m uv free called nowhere h)
Change-IsSound {t} (expired id e) h = rw e (expire-IsSound id t h)

pub Changes-IsSound : {t t' : Tables} → Changes t t' → IsSound t → IsSound t'
Changes-IsSound rest h = h
Changes-IsSound (later ss s) h = Change-IsSound s (Changes-IsSound ss h)
