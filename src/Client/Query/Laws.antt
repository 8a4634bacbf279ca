-- ===== src/Client/Query/Laws.antt =====
-- etcd_client.go: what the queries for users tell, and how they fail.
use mathlib.Core.Path.{subst}
use etcdircd.Prelude.{
  ℕ, ◌≡◌, refl, sym, ap, ◌∙◌, ◌⊎◌, inl, inr, true, false, Option, none, some, List, [], ◌∷◌, ◌++◌,
  map, Str, lit, ◌==◌, nat_eq, str_eq, Bool-cases, arith,
}
use etcdircd.Result.{ok, panic, must, bind_ok, ok_eq, panic_not_ok}
use etcdircd.Etcd.{Etcd}
use etcdircd.Mode.{has}
use etcdircd.User.{UserValue, prune_invisible}
use etcdircd.User.Visibility.{All, MayShow, prune_invisible-MayShow}
use etcdircd.Channel.{nicks}
use etcdircd.Key.{key_user_ctl, key_chan_nicks_pfx, is_chan}
use etcdircd.Client.{Client}
use etcdircd.Client.Query.{
  Read, Range, split_last, user_at, users_at, decode_all, concat_nicks, users_from_nicks,
  users_from_channel, all_users, users_from_mask,
}

must_ok : {A : Type 0} (o : Option A) {a : A} → must o ≡ ok a → o ≡ some a
must_ok none h = absurd (panic_not_ok h)
must_ok (some a) h = ap some (ok_eq h)

split_last-cons :
    {A : Type 0} (x : A) (xs front : List A) (y : A)
    → split_last xs ≡ some (front, y)
    → split_last (x ∷ xs) ≡ some (x ∷ front, y)
unfolding split_last
split_last-cons x [] front y h = cc
split_last-cons x (z ∷ xs) front y h = rw h

module _ (e : Etcd) (v : e.View) where
  user_at_ok :
      (n : Str) (u : UserValue)
      → user_at e v n ≡ ok u
      → e.user_codec.decode (e.get v (key_user_ctl n)) ≡ some u
  unfolding user_at
  user_at_ok n u h = ground arith

  -- The last of the users that are read is the one of the last nick.
  users_at_last :
      (ns : List Str) (n : Str) (us : List UserValue)
      → users_at e v (ns ++ n ∷ []) ≡ ok us
      → (front : List UserValue) × (u : UserValue) × (user_at e v n ≡ ok u)
        × (split_last us ≡ some (front, u))
  unfolding users_at
  users_at_last [] n us h =
      let (u, hu, k) = bind_ok (user_at e v n) _ h in
      ([], u, hu, subst (λ us. split_last us ≡ some ([], u)) (ok_eq k) (unfold split_last in refl))
  users_at_last (m ∷ ns) n us h =
      let (w, hw, k) = bind_ok (user_at e v m) _ h in
      let (ws, hs, k') = bind_ok (users_at e v (ns ++ n ∷ [])) _ k in
      let (front, u, hu, last) = users_at_last ns n ws hs in
      (
        w ∷ front,
        u,
        hu,
        subst (λ us. split_last us ≡ some (w ∷ front, u)) (ok_eq k')
            (split_last-cons w ws front u last),
      )

-- The users of a query were shown to the client as a store had its record, which one of the two reads
-- answered: the client is a global operator there, or may see each user as it is shown.
pub record Disclosed (e : Etcd) (ec : Client) (r1 r2 : Read e.View) (us : List UserValue)
    : Type 0 where
  pub rev : ℕ
  pub answer : e.View × ℕ
  pub answered : (r1 rev ≡ ok answer) ⊎ (r2 rev ≡ ok answer)
  pub me : UserValue
  pub stored : e.user_codec.decode (e.get answer.0 (key_user_ctl ec.nick)) ≡ some me
  pub allowed : (has me.mode b'O' ≡ true) ⊎ All (MayShow me) us

module _ (e : Etcd) (range : Range e.View e.Blob) (ec : Client) where
  pruned :
      (me : UserValue) (us : List UserValue)
      → (has me.mode b'O' ≡ true) ⊎ All (MayShow me) (prune_invisible us me)
  pruned me us = elim (Bool-cases (has me.mode b'O')) [
    | inl global ↦ inl global
    | inr local ↦ inr (prune_invisible-MayShow me us local)
  ]

  users_from_nicks-Disclosed :
      (ns : List Str) (rev : ℕ) (r r1 r2 : Read e.View) (us : List UserValue)
      → ((at : e.View × ℕ) → r rev ≡ ok at → (r1 rev ≡ ok at) ⊎ (r2 rev ≡ ok at))
      → users_from_nicks e range ec ns rev r ≡ ok us
      → Disclosed e ec r1 r2 us
  unfolding users_from_nicks
  users_from_nicks-Disclosed ns rev r r1 r2 us by h =
      let (at, hr, k) = bind_ok (r rev) _ h in
      let (all, hs, k') = bind_ok (users_at e at.0 (ns ++ ec.nick ∷ [])) _ k in
      let (last, hl, k'') = bind_ok (must (split_last all)) _ k' in
      let (front, me, hu, split) = users_at_last e at.0 ns ec.nick all hs in
      record {
        rev = rev;
        answer = at;
        answered = by at hr;
        me = me;
        stored = user_at_ok e at.0 ec.nick me hu;
        allowed =
            subst (λ us. (has me.mode b'O' ≡ true) ⊎ All (MayShow me) us)
              (ap (λ l. prune_invisible l.0 l.1) (some_eq (sym split ∙ must_ok (split_last all) hl))
                ∙ ok_eq k'')
              (pruned me front);
      }
    where
      some_eq : {a b : List UserValue × UserValue} → some a ≡ some b → a ≡ b
      some_eq q = cc

  users_from_channel-Disclosed :
      (ch : Str) (rev : ℕ) (r1 r2 : Read e.View) (us : List UserValue)
      → users_from_channel e range ec ch rev r1 r2 ≡ ok us
      → Disclosed e ec r1 r2 us
  unfolding users_from_channel
  users_from_channel-Disclosed ch rev r1 r2 us h =
      let (at, hr, k) = bind_ok (r1 rev) _ h in
      let (lists, hd, k') =
        bind_ok (decode_all (λ b. e.nicks_codec.decode b) (range at.0 (key_chan_nicks_pfx ch))) _
          k in
      users_from_nicks-Disclosed (concat_nicks (map nicks lists)) at.1 r2 r1 r2 us (λ a q. inr q) k'

  all_users-Disclosed :
      (rev : ℕ) (r1 r2 : Read e.View) (us : List UserValue)
      → all_users e range ec rev r1 ≡ ok us
      → Disclosed e ec r1 r2 us
  unfolding all_users
  all_users-Disclosed rev r1 r2 us h =
      let (at, hr, k) = bind_ok (r1 rev) _ h in
      let (me, hu, k') = bind_ok (user_at e at.0 ec.nick) _ k in
      let (all, hd, k'') =
        bind_ok (decode_all (λ b. e.user_codec.decode b) (range at.0 (key_user_ctl []))) _ k' in
      record {
        rev = rev;
        answer = at;
        answered = inl hr;
        me = me;
        stored = user_at_ok e at.0 ec.nick me hu;
        allowed =
            subst (λ us. (has me.mode b'O' ≡ true) ⊎ All (MayShow me) us) (ok_eq k'')
              (pruned me all);
      }

  -- Whatever mask a client gives, for a channel, for all users or for a nick, each user that
  -- `usersFromMask` returns is one that the client may see, by its own record in a store that one of the
  -- two reads answered: the client is a global operator there, or the user is not invisible, or is on
  -- the server of the client, a local operator, or is shown with one channel or more, of all of which
  -- the client is a member.
  pub users_from_mask-Disclosed :
      (mask : Str) (rev : ℕ) (r1 r2 : Read e.View) (us : List UserValue)
      → users_from_mask e range ec mask rev r1 r2 ≡ ok us
      → Disclosed e ec r1 r2 us
  unfolding users_from_mask
  users_from_mask-Disclosed mask rev r1 r2 us h = elim (Bool-cases (is_chan mask)) [
    | inl ch ↦ users_from_channel-Disclosed mask rev r1 r2 us (sym (rw ch) ∙ h)
    | inr other ↦ elim (Bool-cases (mask == lit "*")) [
      | inl all ↦ all_users-Disclosed rev r1 r2 us (sym (rw (other, all)) ∙ h)
      | inr nick ↦
          users_from_nicks-Disclosed (mask ∷ []) rev r1 r1 r2 us (λ a q. inl q)
            (sym (rw (other, nick)) ∙ h)
    ]
  ]

  -- A query for a nick that has no record in the store panics, for it reads the value of a key that
  -- is not there. So a client ends the process of its server by asking for an absent nick.
  pub users_from_mask_absent :
      (nick : Str) (rev : ℕ) (r1 r2 : Read e.View) (at : e.View × ℕ)
      → is_chan nick ≡ false
      → (nick == lit "*") ≡ false
      → r1 rev ≡ ok at
      → (e.rev at.0 (key_user_ctl nick) == 0) ≡ true
      → users_from_mask e range ec nick rev r1 r2 ≡ panic
  unfolding users_from_mask users_from_nicks users_at user_at
  users_from_mask_absent nick rev r1 r2 at plain named answered gone =
      rw (plain, named, answered, gone)
