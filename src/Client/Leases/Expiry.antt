-- ===== src/Client/Leases/Expiry.antt =====
-- The end of a lease in etcd, and what it is for the tables.
use etcdircd.Prelude.{
  ℕ, ◌≡◌, ◌≢◌, refl, sym, ◌∙◌, true, false, none, [], Str, ◌==◌, nat_eq, if◌then◌else◌, arith, inl,
  inr, Bool-cases, Option-cases, none_not_some, ==-ne,
}
use etcdircd.Etcd.{Etcd}
use etcdircd.Key.{key_user_ctl, key_chan_ctl, key_chan_nicks}
use etcdircd.Tables.Store.{tables, or_empty, Tables-eq}
use etcdircd.Moves.Changes.{expire, unless_under}
use etcdircd.Client.Leases.{IsLeased}

-- etcd deletes the keys that are attached to a lease when it ends; 0 is no lease.
pub record HasExpired (e : Etcd) (id : ℕ) (v v' : e.View) : Type 0 where
  pub lease : id ≢ 0
  pub values : (k : Str) → e.get v' k ≡ (if e.lease_of v k == id then e.empty else e.get v k)
  pub leases : (k : Str) → e.lease_of v' k ≡ (if e.lease_of v k == id then 0 else e.lease_of v k)

module _ (e : Etcd) (id : ℕ) (v v' : e.View) (x : HasExpired e id v v') where
  kept_value : (k : Str) → (e.lease_of v k == id) ≡ false → e.get v' k ≡ e.get v k
  kept_value k f = x.values k ∙ rw f refl

  kept_lease : (k : Str) → (e.lease_of v k == id) ≡ false → e.lease_of v' k ≡ e.lease_of v k
  kept_lease k f = x.leases k ∙ rw f refl

  gone_value : (k : Str) → (e.lease_of v k == id) ≡ true → e.get v' k ≡ e.empty
  gone_value k t = x.values k ∙ rw t refl

  module _ (h : IsLeased e v) where
    ctl_kept : (c : Str) → (e.lease_of v (key_chan_ctl c) == id) ≡ false
    ctl_kept c = rw (h.ctls c) (==-ne 0 id (λ p. x.lease (sym p)))

    pub expired-IsLeased : IsLeased e v'
    expired-IsLeased = record {
      users = λ n uv f. elim (Bool-cases (e.lease_of v (key_user_ctl n) == id)) [
        | inl over ↦ absurd (
            none_not_some (
              sym (e.user_codec.at_end e.empty e.empty-IsEmpty)
              ∙ rw (gone_value (key_user_ctl n) over) at f))
        | inr on ↦
            kept_lease (key_user_ctl n) on ∙ h.users n uv (rw (kept_value (key_user_ctl n) on) at f)
      ];
      lists = λ ch lid f. elim (Bool-cases (e.lease_of v (key_chan_nicks ch lid) == id)) [
        | inl over ↦
            absurd (cc (e.empty-IsEmpty, rw (gone_value (key_chan_nicks ch lid) over) at f))
        | inr on ↦
            kept_lease (key_chan_nicks ch lid) on
            ∙ h.lists ch lid (rw (kept_value (key_chan_nicks ch lid) on) at f)
      ];
      ctls = λ c. kept_lease (key_chan_ctl c) (ctl_kept c) ∙ h.ctls c;
    }

    expired_user :
        (n : Str)
        → e.user_codec.decode (e.get v' (key_user_ctl n))
          ≡ unless_under id (e.user_codec.decode (e.get v (key_user_ctl n)))
    expired_user n = elim (Option-cases (e.user_codec.decode (e.get v (key_user_ctl n)))) [
      | inl missing ↦ elim (Bool-cases (e.lease_of v (key_user_ctl n) == id)) [
        | inl over ↦
            rw (gone_value (key_user_ctl n) over, missing)
              (e.user_codec.at_end e.empty e.empty-IsEmpty)
        | inr on ↦ rw (kept_value (key_user_ctl n) on, missing) refl
      ]
      | inr (uv, hu) ↦ elim (Bool-cases (e.lease_of v (key_user_ctl n) == id)) [
        | inl over ↦
            let same : (uv.lease == id) ≡ true = rw (h.users n uv hu) at over in
            rw (gone_value (key_user_ctl n) over, hu, same)
              (e.user_codec.at_end e.empty e.empty-IsEmpty)
        | inr on ↦
            let other : (uv.lease == id) ≡ false = rw (h.users n uv hu) at on in
            rw (kept_value (key_user_ctl n) on, hu, other) refl
      ]
    ]

    expired_list :
        (ch : Str) (lid : ℕ)
        → or_empty (e.nicks_codec.decode (e.get v' (key_chan_nicks ch lid))) ≡ (
            if lid == id
            then []
            else or_empty (e.nicks_codec.decode (e.get v (key_chan_nicks ch lid))))
    expired_list ch lid = elim (Bool-cases (e.is_empty (e.get v (key_chan_nicks ch lid)))) [
      | inl missing ↦
          let nothing : e.nicks_codec.decode (e.get v (key_chan_nicks ch lid)) ≡ none =
            e.nicks_codec.at_end _ missing in
          elim (Bool-cases (e.lease_of v (key_chan_nicks ch lid) == id)) [
            | inl over ↦
                rw
                  (
                    gone_value (key_chan_nicks ch lid) over,
                    nothing,
                    e.nicks_codec.at_end e.empty e.empty-IsEmpty,
                  )
                  (ground arith)
            | inr on ↦ rw (kept_value (key_chan_nicks ch lid) on, nothing) (ground arith)
          ]
      | inr full ↦
          let own = h.lists ch lid full in
          elim (Bool-cases (e.lease_of v (key_chan_nicks ch lid) == id)) [
            | inl over ↦
                let same : (lid == id) ≡ true = rw own at over in
                rw
                  (
                    gone_value (key_chan_nicks ch lid) over,
                    same,
                    e.nicks_codec.at_end e.empty e.empty-IsEmpty,
                  )
                  refl
            | inr on ↦
                let other : (lid == id) ≡ false = rw own at on in
                rw (kept_value (key_chan_nicks ch lid) on, other) refl
          ]
    ]

    -- If each key is under the lease that it should have, then the end of a lease deletes the records
    -- and the lists of members of that lease, and nothing else of the tables.
    pub tables-expire : tables e v' ≡ expire id (tables e v)
    unfolding tables
    tables-expire =
        Tables-eq _ _ expired_user (λ c. rw (kept_value (key_chan_ctl c) (ctl_kept c)) refl)
          (λ c lid. expired_list c lid)
