-- ===== src/Client/Leases.antt =====
-- What the leases of the keys are: a user's record is kept under the lease that it names, and the list
-- of the members of a channel on a server under the lease of the server.
pub mod Parts
pub mod Expiry
pub mod Joins
pub mod Puts
use etcdircd.Prelude.{
  ℕ, ◌≡◌, refl, sym, ap, ◌∙◌, true, false, Option, none, some, Str, ◌==◌, nat_eq, str_eq, ◌&&◌,
  if◌then◌else◌, arith, inl, inr, Bool-cases, some_eq, none_not_some, eq_of_==,
}
use mathlib.Core.Path.{subst}
use etcdircd.Etcd.{Etcd, PutOption, no_option, new_lease}
use etcdircd.User.{UserValue}
use etcdircd.Channel.{ChannelCtl, ChannelNicks}
use etcdircd.Key.{key_user_ctl, key_user_msg, key_chan_ctl, key_chan_msg, key_chan_nicks}
use etcdircd.Key.Names.{key_laws, user_ctl_ctl, chan_ctl_ctl, chan_nicks_nicks}
use etcdircd.Tables.Consistent.{names}

pub record IsLeased (e : Etcd) (v : e.View) : Type 0 where
  pub users :
      (n : Str) (uv : UserValue)
      → e.user_codec.decode (e.get v (key_user_ctl n)) ≡ some uv
      → e.lease_of v (key_user_ctl n) ≡ uv.lease
  pub lists :
      (ch : Str) (id : ℕ)
      → e.is_empty (e.get v (key_chan_nicks ch id)) ≡ false
      → e.lease_of v (key_chan_nicks ch id) ≡ id
  pub ctls : (c : Str) → e.lease_of v (key_chan_ctl c) ≡ 0

module _ (e : Etcd) where
  pub commit-IsLeased : (r : ℕ) (v : e.View) → IsLeased e v → IsLeased e (e.commit r v)
  commit-IsLeased r v h = record {
    users = λ n uv f. e.lease-commit v r _ ∙ h.users n uv (rw e.get-commit at f);
    lists = λ ch id f. e.lease-commit v r _ ∙ h.lists ch id (rw e.get-commit at f);
    ctls = λ c. e.lease-commit v r _ ∙ h.ctls c;
  }

  -- Other keys.
  module _ (b : e.Blob) (o : PutOption) (v : e.View) (h : IsLeased e v) where
    pub put_chan_msg-IsLeased : (c : Str) → IsLeased e (e.put (key_chan_msg c) b o v)
    put_chan_msg-IsLeased c = record {
      users =
          λ n uv f. simp (e.lease-put, key_laws) (h.users n uv (simp (e.get-put, key_laws) at f));
      lists =
          λ ch id f. simp (e.lease-put, key_laws) (h.lists ch id (simp (e.get-put, key_laws) at f));
      ctls = λ d. simp (e.lease-put, key_laws) (h.ctls d);
    }

    pub put_user_msg-IsLeased : (n : Str) → IsLeased e (e.put (key_user_msg n) b o v)
    put_user_msg-IsLeased m = record {
      users =
          λ n uv f. simp (e.lease-put, key_laws) (h.users n uv (simp (e.get-put, key_laws) at f));
      lists =
          λ ch id f. simp (e.lease-put, key_laws) (h.lists ch id (simp (e.get-put, key_laws) at f));
      ctls = λ d. simp (e.lease-put, key_laws) (h.ctls d);
    }

  module _ (v : e.View) (h : IsLeased e v) where
    -- A record that is written under the lease that it names.
    pub put_user-IsLeased :
        (n : Str) (uv : UserValue) (o : PutOption)
        → new_lease o (e.lease_of v (key_user_ctl n)) ≡ uv.lease
        → IsLeased e (e.put (key_user_ctl n) (e.user_codec.encode uv) o v)
    put_user-IsLeased n uv o kept = record {
      users = λ m uv' f. elim (names n m) [
        | inl (same, here) ↦
            let written : some uv ≡ some uv' =
              sym (e.user_codec.undo uv) ∙ rw (e.get-put, user_ctl_ctl, here) at f in
            rw (e.lease-put, user_ctl_ctl, here)
              (subst (λ k. new_lease o (e.lease_of v (key_user_ctl k)) ≡ uv'.lease) same
                (kept ∙ ap (λ u. u.lease) (some_eq written)))
        | inr (other, there) ↦
            rw (e.lease-put, user_ctl_ctl, there)
              (h.users m uv' (rw (e.get-put, user_ctl_ctl, there) at f))
      ];
      lists =
          λ ch id f. simp (e.lease-put, key_laws) (h.lists ch id (simp (e.get-put, key_laws) at f));
      ctls = λ d. simp (e.lease-put, key_laws) (h.ctls d);
    }

    -- The state of a channel is under no lease.
    pub put_ctl-IsLeased :
        (b : e.Blob) (c : Str) → IsLeased e (e.put (key_chan_ctl c) b no_option v)
    put_ctl-IsLeased b c = record {
      users =
          λ n uv f. simp (e.lease-put, key_laws) (h.users n uv (simp (e.get-put, key_laws) at f));
      lists =
          λ ch id f. simp (e.lease-put, key_laws) (h.lists ch id (simp (e.get-put, key_laws) at f));
      ctls = λ d. elim (Bool-cases (c == d)) [
        | inl here ↦ rw (e.lease-put, chan_ctl_ctl, here) refl
        | inr there ↦ rw (e.lease-put, chan_ctl_ctl, there) (h.ctls d)
      ];
    }

    -- A list that is written under the lease that its key names.
    pub put_nicks-IsLeased :
        (ch : Str) (lid : ℕ) (cns : ChannelNicks) (o : PutOption)
        → new_lease o (e.lease_of v (key_chan_nicks ch lid)) ≡ lid
        → IsLeased e (e.put (key_chan_nicks ch lid) (e.nicks_codec.encode cns) o v)
    put_nicks-IsLeased ch lid cns o kept = record {
      users =
          λ m uv' f. simp (e.lease-put, key_laws) (h.users m uv' (simp (e.get-put, key_laws) at f));
      lists = λ c id f. elim (Bool-cases (ch == c && lid == id)) [
        | inl here ↦
            let called : ch ≡ c = eq_of_== ch c (ground (arith, here)) in
            let leased : lid ≡ id = eq_of_== lid id (ground (arith, here)) in
            rw (e.lease-put, chan_nicks_nicks, here)
              (subst (λ k. new_lease o (e.lease_of v (key_chan_nicks k id)) ≡ id) called
                (subst (λ k. new_lease o (e.lease_of v (key_chan_nicks ch k)) ≡ k) leased kept))
        | inr there ↦
            rw (e.lease-put, chan_nicks_nicks, there)
              (h.lists c id (rw (e.get-put, chan_nicks_nicks, there) at f))
      ];
      ctls = λ d. simp (e.lease-put, key_laws) (h.ctls d);
    }

    pub del_user_msg-IsLeased : (n : Str) → IsLeased e (e.del (key_user_msg n) v)
    del_user_msg-IsLeased n = record {
      users =
          λ m uv f. simp (e.lease-del, key_laws) (h.users m uv (simp (e.get-del, key_laws) at f));
      lists =
          λ ch id f. simp (e.lease-del, key_laws) (h.lists ch id (simp (e.get-del, key_laws) at f));
      ctls = λ d. simp (e.lease-del, key_laws) (h.ctls d);
    }

    pub del_user-IsLeased : (n : Str) → IsLeased e (e.del (key_user_ctl n) v)
    del_user-IsLeased n = record {
      users = λ m uv f. elim (names n m) [
        | inl (same, here) ↦ absurd (
            none_not_some (
              sym (e.user_codec.at_end e.empty e.empty-IsEmpty)
              ∙ rw (e.get-del, user_ctl_ctl, here) at f))
        | inr (other, there) ↦
            rw (e.lease-del, user_ctl_ctl, there)
              (h.users m uv (rw (e.get-del, user_ctl_ctl, there) at f))
      ];
      lists =
          λ ch id f. simp (e.lease-del, key_laws) (h.lists ch id (simp (e.get-del, key_laws) at f));
      ctls = λ d. simp (e.lease-del, key_laws) (h.ctls d);
    }

    -- A value that is decoded is stored.
    pub decoded_list :
        (ch : Str) (id : ℕ) (cns : ChannelNicks)
        → e.nicks_codec.decode (e.get v (key_chan_nicks ch id)) ≡ some cns
        → e.lease_of v (key_chan_nicks ch id) ≡ id
    decoded_list ch id cns f = elim (Bool-cases (e.is_empty (e.get v (key_chan_nicks ch id)))) [
      | inl empty ↦ absurd (none_not_some (sym (e.nicks_codec.at_end _ empty) ∙ f))
      | inr full ↦ h.lists ch id full
    ]
