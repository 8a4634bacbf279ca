-- ===== src/Etcd.antt =====
-- What the program uses of etcd's client and of `encoding/gob`, which it does not implement: the
-- values that gob writes, and the view of the store that a transaction of `concurrency.STM` reads
-- and writes. An STM reads its own writes with `Get`, and `Rev` is the revision in the snapshot.
use etcdircd.Prelude.{
  ℕ, ◌≡◌, ◌≢◌, nat_eq, Bool, true, false, Option, none, some, Str, ◌==◌, str_eq, if◌then◌else◌,
  List,
}
use etcdircd.User.{UserValue}
use etcdircd.Channel.{ChannelCtl, ChannelNicks, OperValue}

-- `irc.Prefix` and `irc.Message` of gopkg.in/sorcix/irc.v2.
pub record Prefix : Type 0 where
  pub name : Str
  pub user : Str
  pub host : Str

pub record Message : Type 0 where
  pub prefix : Option Prefix
  pub command : Str
  pub params : List Str

-- `etcd.WithLease(id)` and `etcd.WithIgnoreLease()`.
pub data PutOption : Type 0 where
  no_option ignore_lease : PutOption
  with_lease : ℕ → PutOption

-- The lease of a key after a put; 0 stands for none.
abbrev pub new_lease : PutOption → ℕ → ℕ
new_lease no_option old = 0
new_lease ignore_lease old = old
new_lease (with_lease id) old = id

-- gob for one type: an encoding is never empty, is decoded to what it encodes, and the empty value
-- is no encoding.
pub record Codec (Blob : Type 0) (is_empty : Blob → Bool) (A : Type 0) : Type 0 where
  pub encode : A → Blob
  pub decode : Blob → Option A
  pub undo : (a : A) → decode (encode a) ≡ some a
  pub filled : (a : A) → is_empty (encode a) ≡ false
  pub at_end : (b : Blob) → is_empty b ≡ true → decode b ≡ none

pub record Etcd : Type 1 where
  pub Blob : Type 0
  pub empty : Blob
  pub is_empty : Blob → Bool
  pub empty-IsEmpty : is_empty empty ≡ true
  pub user_codec : Codec Blob is_empty UserValue
  pub ctl_codec : Codec Blob is_empty ChannelCtl
  pub nicks_codec : Codec Blob is_empty ChannelNicks
  pub oper_codec : Codec Blob is_empty OperValue
  pub msg_codec : Codec Blob is_empty Message
  pub View : Type 0
  pub get : View → Str → Blob
  pub rev : View → Str → ℕ
  pub lease_of : View → Str → ℕ
  pub put : Str → Blob → PutOption → View → View
  pub del : Str → View → View
  -- The store once the writes of a view are committed at a revision.
  pub commit : ℕ → View → View
  pub get-put :
      (s : View) (k : Str) (v : Blob) (o : PutOption) (j : Str)
      → get (put k v o s) j ≡ (if k == j then v else get s j)
  pub get-del : (s : View) (k j : Str) → get (del k s) j ≡ (if k == j then empty else get s j)
  pub get-commit : (s : View) (r : ℕ) (j : Str) → get (commit r s) j ≡ get s j
  pub rev-put :
      (s : View) (k : Str) (v : Blob) (o : PutOption) (j : Str) → rev (put k v o s) j ≡ rev s j
  pub rev-del : (s : View) (k j : Str) → rev (del k s) j ≡ rev s j
  pub rev-commit-put :
      (s : View) (r : ℕ) (k : Str) (v : Blob) (o : PutOption) (j : Str)
      → rev (commit r (put k v o s)) j ≡ (if k == j then r else rev (commit r s) j)
  -- A key that a committed store holds has a revision.
  pub rev-commit-absent :
      (s : View) (r : ℕ) (k : Str)
      → r ≢ 0
      → (rev (commit r s) k == 0) ≡ true
      → is_empty (get (commit r s) k) ≡ true
  pub lease-put :
      (s : View) (k : Str) (v : Blob) (o : PutOption) (j : Str)
      → lease_of (put k v o s) j ≡ (if k == j then new_lease o (lease_of s j) else lease_of s j)
  pub lease-del :
      (s : View) (k j : Str) → lease_of (del k s) j ≡ (if k == j then 0 else lease_of s j)
  pub lease-commit : (s : View) (r : ℕ) (j : Str) → lease_of (commit r s) j ≡ lease_of s j
