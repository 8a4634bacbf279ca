-- ===== src/Server/Register/Laws.antt =====
-- etcd_client.go: what `newEtcdClient` does to the store.
use mathlib.Core.Path.{subst}
use etcdircd.Prelude.{
  ℕ, ◌+◌, ◌≡◌, refl, sym, ap, ◌∙◌, true, false, Option, none, some, Str, lit, ◌==◌, nat_eq, str_eq,
  ==-self, arith, ◌⊎◌, Bool-cases, Option-cases, inl, inr,
}
use etcdircd.Result.{Result, ok, err, panic, ok_eq, err_not_ok, panic_not_ok}
use etcdircd.Exec.{◌>>=◌}
use etcdircd.Etcd.{Etcd, with_lease}
use etcdircd.Key.{key_user_ctl, key_user_msg}
use etcdircd.Key.Names.{key_laws}
use etcdircd.Tables.{Tables, set_user}
use etcdircd.Tables.Store.{tables, tables-commit, tables-put_user, tables-put_user_msg}
use etcdircd.Tables.Consistent.{IsConsistent, times_in, set_user-IsConsistent}
use etcdircd.Client.{World}
use etcdircd.Client.Names.{second}
use etcdircd.Client.Stm.{not_panicked}
use etcdircd.Server.{Config, ConnectRequest, host_prefix}
use etcdircd.Server.Register.{Connected, new_user, with_user, claim_nick, new_etcd_client}

-- No channel lists the nick on a server with the lease of the session.
abbrev pub Unlisted : Str → Result ℕ → Tables → Type 0
Unlisted n ses t = (ch : Str) (lid : ℕ) → ses ≡ ok lid → times_in n (t.members ch lid) ≡ 0

module _ (e : Etcd) (cfg : Config) (cr : ConnectRequest) (now : ℕ) (w : World e.View) where
  abbrev pub signed_up : ℕ → ℕ → World e.View
  signed_up lid r = record w { db = e.commit r (with_user e (new_user cfg cr now lid) lid w.db) }

  pub tables-signed_up :
      (lid r : ℕ)
      → tables e (signed_up lid r).db
        ≡ set_user cr.nick (some (new_user cfg cr now lid)) (tables e w.db)
  tables-signed_up lid r =
      rw (tables-commit, tables-put_user_msg) (tables-put_user e w.db (with_lease lid) cr.nick _)

  abbrev pub client_for : Str → ℕ → Connected
  client_for user r = record {
    client = record {
      nick = cr.nick;
      prefix = record { name = cr.nick; user = user; host = lit "host" };
      host_pfx = host_prefix cfg;
    };
    watch_from = r + 1;
  }

  module _ (lid r : ℕ) where
    pub in_use :
        (e.rev w.db (key_user_ctl cr.nick) == 0) ≡ false
        → new_etcd_client e cfg cr now (ok lid) (ok r) w ≡ (ok none, w)
    unfolding new_etcd_client claim_nick ◌>>=◌
    in_use h = rw h

    module _ (free : (e.rev w.db (key_user_ctl cr.nick) == 0) ≡ true) where
      pub made :
          (user : Str)
          → second cr.user ≡ some user
          → new_etcd_client e cfg cr now (ok lid) (ok r) w
            ≡ (ok (some (client_for user r)), signed_up lid r)
      unfolding new_etcd_client claim_nick ◌>>=◌
      made user h = rw (free, h)

      pub short :
          second cr.user ≡ none
          → new_etcd_client e cfg cr now (ok lid) (ok r) w ≡ (panic, signed_up lid r)
      unfolding new_etcd_client claim_nick ◌>>=◌
      short h = rw (free, h)

      -- If the nick is free and the transaction commits, a `USER` of fewer than two parameters makes
      -- the registration panic, with the record of the client in the store.
      pub new_etcd_client_short_user :
          second cr.user ≡ none
          → ((new_etcd_client e cfg cr now (ok lid) (ok r) w).0 ≡ panic)
            × ((tables e (new_etcd_client e cfg cr now (ok lid) (ok r) w).1.db).user cr.nick
                ≡ some (new_user cfg cr now lid))
      new_etcd_client_short_user h =
          rw (short h) (refl, rw (tables-signed_up lid r, ==-self cr.nick))

  signed_up-IsConsistent :
      (lid r : ℕ)
      → Unlisted cr.nick (ok lid) (tables e w.db)
      → IsConsistent (tables e w.db)
      → IsConsistent (tables e (signed_up lid r).db)
  signed_up-IsConsistent lid r unlisted h = subst IsConsistent (sym (tables-signed_up lid r)) (
      set_user-IsConsistent (tables e w.db) cr.nick (new_user cfg cr now lid) refl
        (λ ch. unlisted ch lid refl) h)

  -- However a registration ends, with an error, with the nick in use or with a panic, the channels of
  -- the users' records and the member lists stay in agreement, if no channel lists the nick under the
  -- lease of the session.
  pub new_etcd_client-IsConsistent :
      (ses verdict : Result ℕ)
      → Unlisted cr.nick ses (tables e w.db)
      → IsConsistent (tables e w.db)
      → IsConsistent (tables e (new_etcd_client e cfg cr now ses verdict w).1.db)
  unfolding new_etcd_client claim_nick ◌>>=◌
  new_etcd_client-IsConsistent (err x) verdict unlisted h = h
  new_etcd_client-IsConsistent panic verdict unlisted h = h
  new_etcd_client-IsConsistent (ok lid) (err x) unlisted h = h
  new_etcd_client-IsConsistent (ok lid) panic unlisted h = h
  new_etcd_client-IsConsistent (ok lid) (ok r) unlisted h =
      elim (Bool-cases (e.rev w.db (key_user_ctl cr.nick) == 0)) [
        | inl free ↦
            let after = signed_up-IsConsistent lid r unlisted h in
            elim (Option-cases (second cr.user)) [
              | inl few ↦ rw (short lid r free few) after
              | inr (user, named) ↦ rw (made lid r free user named) after
            ]
        | inr used ↦ rw (in_use lid r used) h
      ]

  -- A client that has been made.
  pub record Made (ses verdict : Result ℕ) (c : Connected) (w' : World e.View) : Type 0 where
    pub lease : ℕ
    pub session : ses ≡ ok lease
    pub revision : ℕ
    pub committed : verdict ≡ ok revision
    pub free : e.rev w.db (key_user_ctl cr.nick) ≡ 0
    pub nick : c.client.nick ≡ cr.nick
    pub watches : c.watch_from ≡ revision + 1
    pub after : tables e w'.db ≡ set_user cr.nick (some (new_user cfg cr now lease)) (tables e w.db)
    pub bound : e.lease_of w'.db (key_user_ctl cr.nick) ≡ lease
    pub mailbox : e.get w'.db (key_user_msg cr.nick) ≡ e.empty
    pub mailbox_bound : e.lease_of w'.db (key_user_msg cr.nick) ≡ lease

  signed_up-Made :
      (lid r : ℕ) (user : Str)
      → (e.rev w.db (key_user_ctl cr.nick) == 0) ≡ true
      → Made (ok lid) (ok r) (client_for user r) (signed_up lid r)
  signed_up-Made lid r user free = record {
    lease = lid;
    session = refl;
    revision = r;
    committed = refl;
    free = ground arith;
    nick = refl;
    watches = refl;
    after = tables-signed_up lid r;
    bound = simp (e.lease-commit, e.lease-put, ==-self, key_laws);
    mailbox = simp (e.get-commit, e.get-put, ==-self);
    mailbox_bound = simp (e.lease-commit, e.lease-put, ==-self);
  }

  abbrev pub Answered : (ses verdict : Result ℕ) → Option Connected → World e.View → Type 0
  Answered ses verdict out w' =
      ((out ≡ none) × (w' ≡ w) × ((e.rev w.db (key_user_ctl cr.nick) == 0) ≡ false))
      ⊎ ((c : Connected) × (out ≡ some c) × Made ses verdict c w')

  as_run :
      {ses verdict : Result ℕ} {out out' : Option Connected} {w' w2 : World e.View}
      → new_etcd_client e cfg cr now ses verdict w ≡ (ok out, w')
      → new_etcd_client e cfg cr now ses verdict w ≡ (ok out', w2)
      → Answered ses verdict out w'
      → Answered ses verdict out' w2
  as_run {ses} {verdict} {out} {out'} {w'} {w2} p q h =
      subst (λ o. Answered ses verdict o w2) (ok_eq (ap (λ x. x.0) (sym p ∙ q)))
        (subst (Answered ses verdict out) (ap (λ x. x.1) (sym p ∙ q)) h)

  -- What a registration that answers has done: it has left everything as it was, for a nick that is in
  -- the store, or it has made the client, for a nick that was not.
  pub new_etcd_client-Made :
      (ses verdict : Result ℕ) (out : Option Connected) (w' : World e.View)
      → new_etcd_client e cfg cr now ses verdict w ≡ (ok out, w')
      → ((out ≡ none) × (w' ≡ w) × ((e.rev w.db (key_user_ctl cr.nick) == 0) ≡ false))
        ⊎ ((c : Connected) × (out ≡ some c) × Made ses verdict c w')
  unfolding new_etcd_client claim_nick ◌>>=◌
  new_etcd_client-Made (err x) verdict out w' run = absurd (err_not_ok (ap (λ x. x.0) run))
  new_etcd_client-Made panic verdict out w' run = absurd (panic_not_ok (ap (λ x. x.0) run))
  new_etcd_client-Made (ok lid) (err x) out w' run = absurd (err_not_ok (ap (λ x. x.0) run))
  new_etcd_client-Made (ok lid) panic out w' run = absurd (panic_not_ok (ap (λ x. x.0) run))
  new_etcd_client-Made (ok lid) (ok r) out w' run =
      elim (Bool-cases (e.rev w.db (key_user_ctl cr.nick) == 0)) [
        | inl free ↦ elim (Option-cases (second cr.user)) [
          | inl few ↦ absurd (not_panicked (ap (λ x. x.0) (short lid r free few)) run)
          | inr (user, named) ↦
              as_run (made lid r free user named) run
                (inr (client_for user r, refl, signed_up-Made lid r user free))
        ]
        | inr used ↦ as_run (in_use lid r used) run (inl (refl, refl, used))
      ]
