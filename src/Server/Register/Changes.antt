-- ===== src/Server/Register/Changes.antt =====
-- etcd_client.go: what a registration does to the tables, as the others see it.
use mathlib.Core.Path.{subst}
use etcdircd.Prelude.{
  ℕ, ◌≡◌, refl, sym, ap, ◌∙◌, true, ◌==◌, nat_eq, Bool-cases, Option-cases, inl, inr,
}
use etcdircd.Result.{Result, ok, err, panic}
use etcdircd.Exec.{◌>>=◌}
use etcdircd.Etcd.{Etcd}
use etcdircd.Key.{key_user_ctl}
use etcdircd.Tables.Store.{tables, tables-user}
use etcdircd.Client.{World}
use etcdircd.Client.Commit.{IsStored}
use etcdircd.Client.Names.{second}
use etcdircd.Moves.Changes.{Changes, rest, later, signed_up}
use etcdircd.Etcd.{with_lease}
use etcdircd.Client.Leases.{IsLeased, commit-IsLeased, put_user_msg-IsLeased, put_user-IsLeased}
use etcdircd.Server.{Config, ConnectRequest}
use etcdircd.Server.Register.{new_user, claim_nick, new_etcd_client}
use etcdircd.Server.Register.Laws
use etcdircd.Server.Register.Laws.{
  made, short, in_use, tables-signed_up, Made, new_etcd_client-Made,
}

module _ (e : Etcd) (cfg : Config) (cr : ConnectRequest) (now : ℕ) (w : World e.View)
    (stored : IsStored e (key_user_ctl cr.nick) w.db) where
  signed_up-Changes :
      (lid r : ℕ) (w' : World e.View)
      → (e.rev w.db (key_user_ctl cr.nick) == 0) ≡ true
      → w' ≡ Laws.signed_up e cfg cr now w lid r
      → Changes (tables e w.db) (tables e w'.db)
  signed_up-Changes lid r w' free end = later rest (
      signed_up cr.nick (new_user cfg cr now lid)
        (tables-user e w.db cr.nick
          ∙ e.user_codec.at_end (e.get w.db (key_user_ctl cr.nick)) (stored.absent free))
        refl refl
        (ap (λ (x : World e.View). tables e x.db) end ∙ tables-signed_up e cfg cr now w lid r))

  -- However a registration ends, it does to the tables what a registration may do.
  pub new_etcd_client-Changes :
      (ses verdict : Result ℕ)
      → Changes (tables e w.db) (tables e (new_etcd_client e cfg cr now ses verdict w).1.db)
  unfolding new_etcd_client claim_nick ◌>>=◌
  new_etcd_client-Changes (err x) verdict = rest
  new_etcd_client-Changes panic verdict = rest
  new_etcd_client-Changes (ok lid) (err x) = rest
  new_etcd_client-Changes (ok lid) panic = rest
  new_etcd_client-Changes (ok lid) (ok r) =
      elim (Bool-cases (e.rev w.db (key_user_ctl cr.nick) == 0)) [
        | inr used ↦ rw (in_use e cfg cr now w lid r used) rest
        | inl free ↦ elim (Option-cases (second cr.user)) [
          | inl few ↦
              signed_up-Changes lid r _ free (ap (λ x. x.1) (short e cfg cr now w lid r free few))
          | inr (user, named) ↦
              signed_up-Changes lid r _ free
                (ap (λ x. x.1) (made e cfg cr now w lid r free user named))
        ]
      ]

module _ (e : Etcd) (cfg : Config) (cr : ConnectRequest) (now : ℕ) (w : World e.View)
    (h : IsLeased e w.db) where
  signed_up-IsLeased :
      (lid r : ℕ) (w' : World e.View) → w' ≡ Laws.signed_up e cfg cr now w lid r → IsLeased e w'.db
  signed_up-IsLeased lid r w' end =
      subst (λ (x : World e.View). IsLeased e x.db) (sym end)
        (commit-IsLeased e r _ (
          put_user_msg-IsLeased e _ (with_lease lid) _
            (put_user-IsLeased e w.db h cr.nick (new_user cfg cr now lid) (with_lease lid) refl)
            cr.nick))

  -- However a registration ends, each record and each list of members is under its lease.
  pub new_etcd_client-IsLeased :
      (ses verdict : Result ℕ) → IsLeased e (new_etcd_client e cfg cr now ses verdict w).1.db
  unfolding new_etcd_client claim_nick ◌>>=◌
  new_etcd_client-IsLeased (err x) verdict = h
  new_etcd_client-IsLeased panic verdict = h
  new_etcd_client-IsLeased (ok lid) (err x) = h
  new_etcd_client-IsLeased (ok lid) panic = h
  new_etcd_client-IsLeased (ok lid) (ok r) =
      elim (Bool-cases (e.rev w.db (key_user_ctl cr.nick) == 0)) [
        | inr used ↦ rw (in_use e cfg cr now w lid r used) h
        | inl free ↦ elim (Option-cases (second cr.user)) [
          | inl few ↦
              signed_up-IsLeased lid r _ (ap (λ x. x.1) (short e cfg cr now w lid r free few))
          | inr (user, named) ↦
              signed_up-IsLeased lid r _ (ap (λ x. x.1) (made e cfg cr now w lid r free user named))
        ]
      ]
