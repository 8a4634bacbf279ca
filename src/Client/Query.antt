-- ===== src/Client/Query.antt =====
-- etcd_client.go: the queries for users, `users`, `usersFromChannel`, `usersFromNicks` and
-- `usersFromMask`.
pub mod Laws
use etcdircd.Prelude.{
  ℕ, map, Option, none, some, List, [], ◌∷◌, ◌++◌, Str, lit, ◌==◌, nat_eq, str_eq, if◌then◌else◌,
}
use etcdircd.Result.{Result, ok, err, panic, must, decoded, ◌>>=◌}
use etcdircd.Etcd.{Etcd, Codec}
use etcdircd.User.{UserValue, prune_invisible}
use etcdircd.Channel.{nicks}
use etcdircd.Key.{key_user_ctl, key_chan_nicks_pfx, is_chan}
use etcdircd.Client.{Client}

-- What etcd answers to a read outside of an STM: for a revision that is asked for, 0 for the latest,
-- the store at that revision and the revision in the header of the response.
abbrev pub Read : Type 0 → Type 0
Read V = ℕ → Result (V × ℕ)

-- `etcd.WithPrefix()`: the values of the keys with a prefix, in the order of the keys.
abbrev pub Range : Type 0 → Type 0 → Type 0
Range V B = V → Str → List B

-- The loop that decodes the values of a response.
unfoldable pub decode_all : {B : Type 0} {A : Type 0} → (B → Option A) → List B → Result (List A)
decode_all decode [] = ok []
decode_all decode (b ∷ bs) = do a ← decoded (decode b); rest ← decode_all decode bs; ok (a ∷ rest)

-- `users[:len(users)-1], users[len(users)-1]`
unfoldable pub split_last {ℓ} : {A : Type ℓ} → List A → Option (List A × A)
split_last [] = none
split_last (x ∷ []) = some ([], x)
split_last (x ∷ y ∷ xs) = elim (split_last (y ∷ xs)) [ none ↦ none | some r ↦ some (x ∷ r.0, r.1) ]

concat_nicks : List (List Str) → List Str
concat_nicks [] = []
concat_nicks (ns ∷ rest) = ns ++ concat_nicks rest

module _ (e : Etcd) where
  -- `kv.Value` of the key of a nick; without the key `kv` is `nil`.
  user_at : e.View → Str → Result UserValue
  user_at v n =
      if e.rev v (key_user_ctl n) == 0
      then panic
      else decoded (e.user_codec.decode (e.get v (key_user_ctl n)))

  users_at : e.View → List Str → Result (List UserValue)
  unfolding user_at
  users_at v [] = ok []
  users_at v (n ∷ ns) = do u ← user_at v n; us ← users_at v ns; ok (u ∷ us)

module _ (e : Etcd) (range : Range e.View e.Blob) (ec : Client) where
  -- `usersFromNicks`, with its `userKeysFromNicks`.
  unfoldable pub users_from_nicks : List Str → ℕ → Read e.View → Result (List UserValue)
  unfolding users_at split_last
  users_from_nicks ns rev r = do
    at ← r rev
    us ← users_at e at.0 (ns ++ ec.nick ∷ [])
    last ← must (split_last us)
    ok (prune_invisible last.0 last.1)

  -- `usersFromChannel`: the nicks at the revision asked for, and the users at that of the header.
  unfoldable pub users_from_channel : Str → ℕ → Read e.View → Read e.View → Result (List UserValue)
  unfolding users_from_nicks decode_all concat_nicks
  users_from_channel ch rev r1 r2 = do
    at ← r1 rev
    lists ← decode_all (λ b. e.nicks_codec.decode b) (range at.0 (key_chan_nicks_pfx ch))
    users_from_nicks (concat_nicks (map nicks lists)) at.1 r2

  -- `users`
  unfoldable pub all_users : ℕ → Read e.View → Result (List UserValue)
  unfolding user_at decode_all
  all_users rev r = do
    at ← r rev
    me ← user_at e at.0 ec.nick
    us ← decode_all (λ b. e.user_codec.decode b) (range at.0 (key_user_ctl []))
    ok (prune_invisible us me)

  unfoldable pub users_from_mask : Str → ℕ → Read e.View → Read e.View → Result (List UserValue)
  unfolding users_from_channel all_users users_from_nicks
  users_from_mask mask rev r1 r2 =
      if is_chan mask
      then users_from_channel mask rev r1 r2
      else if mask == lit "*"
      then all_users rev r1
      else users_from_nicks (mask ∷ []) rev r1
