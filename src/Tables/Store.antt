-- ===== src/Tables/Store.antt =====
-- The tables that a view of the store holds, and what a put and a delete do to them.
use etcdircd.Prelude.{
  ℕ, ◌≡◌, refl, Bool, true, false, ◌&&◌, Option, none, some, [], Str, ◌==◌, nat_eq, str_eq,
  if◌then◌else◌, arith, eq_of_==, Bool-cases, inl, inr, sym, ap, ◌∙◌,
}
use etcdircd.User.{UserValue}
use etcdircd.Channel.{ChannelCtl, ChannelNicks}
use etcdircd.Etcd.{Etcd, PutOption}
use etcdircd.Key.{key_user_ctl, key_user_msg, key_chan_ctl, key_chan_msg, key_chan_nicks}
use etcdircd.Key.Names.{key_laws, chan_nicks_nicks, user_ctl_ctl, chan_ctl_ctl}
use etcdircd.Tables.{Tables, set_user, set_ctl, set_members}

pub same_members :
    (t : Tables) (ch c : Str) (a id : ℕ)
    → (ch == c && a == id) ≡ true
    → t.members ch a ≡ t.members c id
same_members t ch c a id h =
    let named : ch ≡ c = eq_of_== ch c (ground arith) in
    let leased : a ≡ id = ground arith in rw (named, leased)

abbrev pub or_empty : Option ChannelNicks → ChannelNicks
or_empty none = []
or_empty (some cns) = cns

module _ (e : Etcd) where
  unfoldable pub tables : e.View → Tables
  tables v = record {
    user = λ n. e.user_codec.decode (e.get v (key_user_ctl n));
    ctl = λ c. e.ctl_codec.decode (e.get v (key_chan_ctl c));
    members = λ c id. or_empty (e.nicks_codec.decode (e.get v (key_chan_nicks c id)));
  }

pub Tables-eq :
    (a b : Tables)
    → ((n : Str) → a.user n ≡ b.user n)
    → ((c : Str) → a.ctl c ≡ b.ctl c)
    → ((c : Str) (id : ℕ) → a.members c id ≡ b.members c id)
    → a ≡ b
Tables-eq a b hu hc hm =
    λ i. record { user = λ n. hu n i; ctl = λ c. hc c i; members = λ c id. hm c id i }

module _ (e : Etcd) where
  if-decode_user :
      (b : Bool) (uv : UserValue) (x : e.Blob)
      → e.user_codec.decode (if b then e.user_codec.encode uv else x)
        ≡ (if b then some uv else e.user_codec.decode x)
  if-decode_user true uv x = e.user_codec.undo uv
  if-decode_user false uv x = refl

  if-decode_ctl :
      (b : Bool) (c : ChannelCtl) (x : e.Blob)
      → e.ctl_codec.decode (if b then e.ctl_codec.encode c else x)
        ≡ (if b then some c else e.ctl_codec.decode x)
  if-decode_ctl true c x = e.ctl_codec.undo c
  if-decode_ctl false c x = refl

  if-decode_nicks :
      (b : Bool) (cns : ChannelNicks) (x : e.Blob)
      → or_empty (e.nicks_codec.decode (if b then e.nicks_codec.encode cns else x))
        ≡ (if b then cns else or_empty (e.nicks_codec.decode x))
  if-decode_nicks true cns x = rw (e.nicks_codec.undo cns)
  if-decode_nicks false cns x = refl

  if-delete_user :
      (b : Bool) (x : e.Blob)
      → e.user_codec.decode (if b then e.empty else x) ≡ (if b then none else e.user_codec.decode x)
  if-delete_user true x = e.user_codec.at_end e.empty e.empty-IsEmpty
  if-delete_user false x = refl

  if-delete_nicks :
      (b : Bool) (x : e.Blob)
      → or_empty (e.nicks_codec.decode (if b then e.empty else x))
        ≡ (if b then [] else or_empty (e.nicks_codec.decode x))
  if-delete_nicks true x = rw (e.nicks_codec.at_end e.empty e.empty-IsEmpty)
  if-delete_nicks false x = refl

module _ (e : Etcd) (v : e.View) (o : PutOption) where
  pub tables-put_user :
      (n : Str) (uv : UserValue)
      → tables e (e.put (key_user_ctl n) (e.user_codec.encode uv) o v)
        ≡ set_user n (some uv) (tables e v)
  unfolding tables
  tables-put_user n uv =
      Tables-eq _ _ (λ m. rw (e.get-put, user_ctl_ctl) (if-decode_user e _ _ _))
        (λ c. simp (e.get-put, key_laws)) (λ c id. simp (e.get-put, key_laws))

  pub tables-put_ctl :
      (c : Str) (ctl : ChannelCtl)
      → tables e (e.put (key_chan_ctl c) (e.ctl_codec.encode ctl) o v) ≡ set_ctl c ctl (tables e v)
  unfolding tables
  tables-put_ctl c ctl =
      Tables-eq _ _ (λ m. simp (e.get-put, key_laws))
        (λ d. rw (e.get-put, chan_ctl_ctl) (if-decode_ctl e _ _ _))
        (λ d id. simp (e.get-put, key_laws))

  pub tables-put_nicks :
      (c : Str) (id : ℕ) (cns : ChannelNicks)
      → tables e (e.put (key_chan_nicks c id) (e.nicks_codec.encode cns) o v)
        ≡ set_members c id cns (tables e v)
  unfolding tables
  tables-put_nicks c id cns =
      Tables-eq _ _ (λ m. simp (e.get-put, key_laws)) (λ d. simp (e.get-put, key_laws))
        (λ d id'.
          rw (e.get-put, chan_nicks_nicks)
            (if-decode_nicks e (c == d && id == id') cns (e.get v (key_chan_nicks d id'))))

  pub tables-put_chan_msg :
      (c : Str) (b : e.Blob) → tables e (e.put (key_chan_msg c) b o v) ≡ tables e v
  unfolding tables
  tables-put_chan_msg c b =
      Tables-eq _ _ (λ m. simp (e.get-put, key_laws)) (λ d. simp (e.get-put, key_laws))
        (λ d id. simp (e.get-put, key_laws))

  pub tables-put_user_msg :
      (n : Str) (b : e.Blob) → tables e (e.put (key_user_msg n) b o v) ≡ tables e v
  unfolding tables
  tables-put_user_msg n b =
      Tables-eq _ _ (λ m. simp (e.get-put, key_laws)) (λ d. simp (e.get-put, key_laws))
        (λ d id. simp (e.get-put, key_laws))

module _ (e : Etcd) (v : e.View) where
  pub tables-del_user :
      (n : Str) → tables e (e.del (key_user_ctl n) v) ≡ set_user n none (tables e v)
  unfolding tables
  tables-del_user n =
      Tables-eq _ _ (λ m. rw (e.get-del, user_ctl_ctl) (if-delete_user e _ _))
        (λ d. simp (e.get-del, key_laws)) (λ d id. simp (e.get-del, key_laws))

  pub tables-del_user_msg : (n : Str) → tables e (e.del (key_user_msg n) v) ≡ tables e v
  unfolding tables
  tables-del_user_msg n =
      Tables-eq _ _ (λ m. simp (e.get-del, key_laws)) (λ d. simp (e.get-del, key_laws))
        (λ d id. simp (e.get-del, key_laws))

  pub tables-del_nicks :
      (c : Str) (id : ℕ)
      → tables e (e.del (key_chan_nicks c id) v) ≡ set_members c id [] (tables e v)
  unfolding tables
  tables-del_nicks c id =
      Tables-eq _ _ (λ m. simp (e.get-del, key_laws)) (λ d. simp (e.get-del, key_laws))
        (λ d id'.
          rw (e.get-del, chan_nicks_nicks)
            (if-delete_nicks e (c == d && id == id') (e.get v (key_chan_nicks d id'))))

  pub tables-commit : (r : ℕ) → tables e (e.commit r v) ≡ tables e v
  unfolding tables
  tables-commit r =
      Tables-eq _ _ (λ m. simp e.get-commit) (λ d. simp e.get-commit) (λ d id. simp e.get-commit)

-- A list of members that is written back as it was.
pub set_members_self :
    (c : Str) (id : ℕ) (cns : ChannelNicks) (t : Tables)
    → t.members c id ≡ cns
    → set_members c id cns t ≡ t
set_members_self c id cns t h =
    Tables-eq _ _ (λ n. refl) (λ d. refl)
      (λ d id'. elim (Bool-cases (c == d && id == id')) [
        | inl here ↦ rw here (sym h ∙ same_members t c d id id' here)
        | inr there ↦ rw there
      ])

-- What a read of the store says of its tables.
module _ (e : Etcd) (v : e.View) where
  pub tables-user : (n : Str) → (tables e v).user n ≡ e.user_codec.decode (e.get v (key_user_ctl n))
  unfolding tables
  tables-user n = refl

  pub tables-ctl : (c : Str) → (tables e v).ctl c ≡ e.ctl_codec.decode (e.get v (key_chan_ctl c))
  unfolding tables
  tables-ctl c = refl

  pub tables-members :
      (c : Str) (id : ℕ)
      → (tables e v).members c id ≡ or_empty (e.nicks_codec.decode (e.get v (key_chan_nicks c id)))
  unfolding tables
  tables-members c id = refl

  pub tables-members_gone :
      (c : Str) (id : ℕ)
      → e.is_empty (e.get v (key_chan_nicks c id)) ≡ true
      → (tables e v).members c id ≡ []
  tables-members_gone c id h =
      tables-members c id ∙ ap or_empty (e.nicks_codec.at_end (e.get v (key_chan_nicks c id)) h)
