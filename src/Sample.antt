-- ===== src/Sample.antt =====
-- A small etcd in memory, at which the theorems are applied: a view is the functions from keys to
-- values, revisions and leases, and a value is the record that it encodes.
use native.Mathlib.Omega.{arith}
use etcdircd.Prelude.{
  ℕ, ◌≡◌, refl, Bool, true, false, Option, none, some, List, [], ◌∷◌, Str, lit, ◌==◌, str_eq, ◌≢◌,
  eq_of_==, Bool-cases, inl, inr, nat_eq, if◌then◌else◌,
}
use etcdircd.User.{UserValue}
use etcdircd.Channel.{ChannelCtl, ChannelNick, ChannelNicks, OperValue}
use etcdircd.Etcd.{Etcd, Message, PutOption, new_lease, no_option, with_lease}
use etcdircd.Client.{Client, World, Fate}
use etcdircd.Result.{ok}
use etcdircd.Key.{key_user_ctl, key_chan_ctl, key_chan_nicks, key_oper_ctl}

pub data Blob : Type 0 where
  nothing : Blob
  user : UserValue → Blob
  ctl : ChannelCtl → Blob
  nicks : ChannelNicks → Blob
  oper : OperValue → Blob
  msg : Message → Blob

abbrev pub is_nothing : Blob → Bool
is_nothing nothing = true
is_nothing _ = false

abbrev pub as_user : Blob → Option UserValue
as_user (user a) = some a
as_user _ = none

abbrev pub as_ctl : Blob → Option ChannelCtl
as_ctl (ctl a) = some a
as_ctl _ = none

abbrev pub as_nicks : Blob → Option ChannelNicks
as_nicks (nicks a) = some a
as_nicks _ = none

abbrev pub as_oper : Blob → Option OperValue
as_oper (oper a) = some a
as_oper _ = none

abbrev pub as_msg : Blob → Option Message
as_msg (msg a) = some a
as_msg _ = none

nothing_is : (b : Blob) → is_nothing b ≡ true → b ≡ nothing
nothing_is nothing h = refl
nothing_is (user a) h = ground arith
nothing_is (ctl a) h = ground arith
nothing_is (nicks a) h = ground arith
nothing_is (oper a) h = ground arith
nothing_is (msg a) h = ground arith

pub record Memory : Type 0 where
  pub value : Str → Blob
  pub revs : Str → ℕ
  pub next : ℕ → Str → ℕ
  pub leases : Str → ℕ

abbrev pub write_at {ℓ} : {A : Type ℓ} → Str → A → (Str → A) → Str → A
write_at k a f j = if k == j then a else f j

abbrev pub memory_put : Str → Blob → PutOption → Memory → Memory
memory_put k v o s = record {
  value = write_at k v s.value;
  revs = s.revs;
  next = λ r. write_at k r (s.next r);
  leases = λ j. if k == j then new_lease o (s.leases j) else s.leases j;
}

abbrev pub memory_del : Str → Memory → Memory
memory_del k s = record {
  value = write_at k nothing s.value;
  revs = s.revs;
  next = λ r. write_at k 0 (s.next r);
  leases = write_at k 0 s.leases;
}

-- The revision of a key at a commit: that of its last change, and none if it is not there.
abbrev revision_of : ℕ → Bool → ℕ → ℕ
revision_of r gone n = if n == 0 then (if gone then 0 else r) else n

abbrev pub memory_commit : ℕ → Memory → Memory
memory_commit r s = record s {
  revs = λ k. revision_of r (is_nothing (s.value k)) (s.next r k);
  next = λ r' k. revision_of r (is_nothing (s.value k)) (s.next r k);
}

put_revision : (r : ℕ) (gone : Bool) → revision_of r gone r ≡ r
put_revision r gone = ground (arith, eq_of_== r 0)

pub absent_revision :
    (r n : ℕ) (gone : Bool) → r ≢ 0 → (revision_of r gone n == 0) ≡ true → gone ≡ true
absent_revision r n true h e = refl
absent_revision r n false h e = absurd (h (ground (arith, e, eq_of_== r 0, eq_of_== n 0)))

pub memory_rev-commit-put :
    (s : Memory) (r : ℕ) (k : Str) (v : Blob) (o : PutOption) (j : Str)
    → (memory_commit r (memory_put k v o s)).revs j
      ≡ (if k == j then r else (memory_commit r s).revs j)
memory_rev-commit-put s r k v o j = elim (Bool-cases (k == j)) [
  | inl same ↦ rw same (put_revision r _)
  | inr other ↦ rw other refl
]

abbrev pub memory_expire : ℕ → Memory → Memory
memory_expire id s = record s {
  value = λ j. if s.leases j == id then nothing else s.value j;
  leases = λ j. if s.leases j == id then 0 else s.leases j;
}

pub at_end_of :
    {A : Type 0} (f : Blob → Option A)
    → f nothing ≡ none
    → (b : Blob) → is_nothing b ≡ true
    → f b ≡ none
at_end_of f h b e = rw (nothing_is b e) h

abbrev pub sample : Etcd
sample = record {
  Blob = Blob;
  empty = nothing;
  is_empty = is_nothing;
  empty-IsEmpty = refl;
  user_codec = record {
    encode = user;
    decode = as_user;
    undo = λ a. refl;
    filled = λ a. refl;
    at_end = at_end_of as_user refl;
  };
  ctl_codec = record {
    encode = ctl;
    decode = as_ctl;
    undo = λ a. refl;
    filled = λ a. refl;
    at_end = at_end_of as_ctl refl;
  };
  nicks_codec = record {
    encode = nicks;
    decode = as_nicks;
    undo = λ a. refl;
    filled = λ a. refl;
    at_end = at_end_of as_nicks refl;
  };
  oper_codec = record {
    encode = oper;
    decode = as_oper;
    undo = λ a. refl;
    filled = λ a. refl;
    at_end = at_end_of as_oper refl;
  };
  msg_codec = record {
    encode = msg;
    decode = as_msg;
    undo = λ a. refl;
    filled = λ a. refl;
    at_end = at_end_of as_msg refl;
  };
  View = Memory;
  get = λ s j. s.value j;
  rev = λ s j. s.revs j;
  lease_of = λ s j. s.leases j;
  put = memory_put;
  del = memory_del;
  commit = memory_commit;
  get-put = λ s k v o j. refl;
  get-del = λ s k j. refl;
  get-commit = λ s r j. refl;
  rev-put = λ s k v o j. refl;
  rev-del = λ s k j. refl;
  rev-commit-put = memory_rev-commit-put;
  rev-commit-absent = λ s r k. absent_revision r (s.next r k) (is_nothing (s.value k));
  lease-put = λ s k v o j. refl;
  lease-del = λ s k j. refl;
  lease-commit = λ s r j. refl;
}

abbrev pub bare : Memory
bare = record { value = λ j. nothing; revs = λ j. 0; next = λ r j. 0; leases = λ j. 0 }

abbrev pub user_named : Str → List Str → List ℕ → UserValue
user_named n chs mode = record {
  nick = n;
  user = n ∷ n ∷ [];
  server_name = [];
  mode = mode;
  host = lit "host";
  real_name = n;
  created = 0;
  channels = chs;
  away_msg = [];
  lease = 7;
}

abbrev pub ann : Str
ann = lit "ann"

abbrev pub bob : Str
bob = lit "bob"

abbrev pub sea : Str
sea = lit "#sea"

abbrev pub client_of : Str → Client
client_of n = record {
  nick = n;
  prefix = record { name = n; user = n; host = lit "host" };
  host_pfx = record { name = lit "hostname"; user = []; host = [] };
}

abbrev pub world_of : Memory → World Memory
world_of m = record { db = m; taken = λ n. true; tried = 0; sent = [] }

-- A transaction without conflicts that commits at revision 9.
abbrev pub at_once : Fate Memory
at_once = record { lost = []; verdict = ok 9 }

abbrev pub member_of : Str → List ℕ → ChannelNick
member_of n mode = record { nick = n; mode = mode }

-- The members of the channel: an operator and a user.
abbrev pub crew : ChannelNicks
crew = member_of ann (b'o' ∷ []) ∷ member_of bob [] ∷ []

abbrev pub sea_ctl : ChannelCtl
sea_ctl = record { name = sea; topic = []; mode = b'm' ∷ []; created = 0 }

-- Two users of one server, before there is a channel.
abbrev pub ashore : Memory
ashore = memory_put (key_user_ctl bob) (user (user_named bob (sea ∷ []) [])) (with_lease 7) (
    memory_put (key_user_ctl ann) (user (user_named ann (sea ∷ []) (b'i' ∷ []))) (with_lease 7)
      bare)

-- The two users on a moderated channel, committed at revision 5.
abbrev pub harbour : Memory
harbour = memory_commit 5 (
    memory_put (key_chan_nicks sea 7) (nicks crew) (with_lease 7)
      (memory_put (key_chan_ctl sea) (ctl sea_ctl) no_option ashore))

-- The same with an operator's login.
abbrev pub harbour_master : Memory
harbour_master =
    memory_put (key_oper_ctl (lit "root")) (oper (record { pass = lit "secret"; is_global = true }))
      no_option harbour

-- The channel is no longer moderated, from revision 6 on.
abbrev pub open_harbour : Memory
open_harbour =
    memory_commit 6
      (memory_put (key_chan_ctl sea) (ctl (record sea_ctl { mode = [] })) no_option harbour)

abbrev pub ann_record : UserValue
ann_record = user_named ann (sea ∷ []) (b'i' ∷ [])
