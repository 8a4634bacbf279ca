-- ===== src/Server/Register/Joins.antt =====
-- etcd_client.go: a registration and the `Join` that follows it.
use mathlib.Core.Path.{subst}
use etcdircd.Prelude.{ℕ, ◌≡◌, sym, ap, ◌∙◌, some, Str, ==-self, inl, inr, some_eq, none_not_some}
use etcdircd.Result.{Result, ok, ok_eq}
use etcdircd.Etcd.{Etcd}
use etcdircd.User.{UserValue}
use etcdircd.Tables.{Tables, set_user}
use etcdircd.Tables.Store.{tables}
use etcdircd.Tables.Consistent.{IsConsistent}
use etcdircd.Client.{World, Fate}
use etcdircd.Client.Query.{Read, Range}
use etcdircd.Client.Names.{join_chan}
use etcdircd.Client.Names.Laws.{join_chan-IsConsistent}
use etcdircd.Client.Join.Laws.{OwnRecord}
use etcdircd.Server.{Config, ConnectRequest}
use etcdircd.Server.Register.{Connected, new_user, new_etcd_client}
use etcdircd.Server.Register.Laws.{
  Unlisted, Made, new_etcd_client-Made, new_etcd_client-IsConsistent,
}

module _ (e : Etcd) (cfg : Config) (cr : ConnectRequest) (created : ℕ) (w : World e.View) where
  own :
      (n : Str) (uv uv' : UserValue) (t : Tables)
      → (set_user n (some uv) t).user n ≡ some uv'
      → uv ≡ uv'
  own n uv uv' t h = some_eq (rw (==-self n) at h)

  -- A client that has been made has its own record, under the lease of its session.
  pub Made-OwnRecord :
      (ses verdict : Result ℕ) (c : Connected) (w' : World e.View)
      → Made e cfg cr created w ses verdict c w'
      → OwnRecord c.client ses (tables e w'.db)
  Made-OwnRecord ses verdict c w' m uv lid session stored =
      let same : new_user cfg cr created m.lease ≡ uv =
        own cr.nick (new_user cfg cr created m.lease) uv (tables e w.db)
          (rw (m.nick, m.after) at stored) in
      (
        ap (λ u. u.nick) (sym same) ∙ sym m.nick,
        ap (λ u. u.lease) (sym same) ∙ ok_eq (sym m.session ∙ session),
      )

module _ (e : Etcd) (range : Range e.View e.Blob) (cfg : Config) (cr : ConnectRequest) (created : ℕ)
    (w : World e.View) where
  -- If a registration makes a client in a store where the channels of the users' records and the member
  -- lists agree and no channel lists the nick under the lease, they agree after the registration and
  -- after a first `Join` of this client on the same session, however that ends.
  pub new_etcd_client_join_IsConsistent :
      (ses verdict : Result ℕ) (c : Connected) (w' : World e.View) (ch : Str) (now : ℕ)
      (fate : Fate e.View) (r1 r2 r3 : Read e.View) (ctx : Result (Unit {0}))
      → Unlisted cr.nick ses (tables e w.db)
      → IsConsistent (tables e w.db)
      → new_etcd_client e cfg cr created ses verdict w ≡ (ok (some c), w')
      → IsConsistent (tables e w'.db)
        × IsConsistent (tables e (join_chan e range c.client ch now ses fate r1 r2 r3 ctx w').1.db)
  new_etcd_client_join_IsConsistent ses verdict c w' ch now fate r1 r2 r3 ctx unlisted h run =
      let after : IsConsistent (tables e w'.db) =
        subst (λ (x : World e.View). IsConsistent (tables e x.db)) (ap (λ x. x.1) run)
          (new_etcd_client-IsConsistent e cfg cr created w ses verdict unlisted h) in
      elim (new_etcd_client-Made e cfg cr created w ses verdict (some c) w' run) [
        | inl (refused, same, used) ↦ absurd (none_not_some (sym refused))
        | inr (k, is_k, m) ↦ (
          after,
          join_chan-IsConsistent e range c.client ch r1 r2 r3 now ses fate ctx w'
              (subst (λ k. OwnRecord k.client ses (tables e w'.db)) (some_eq (sym is_k))
                (Made-OwnRecord e cfg cr created w ses verdict k w' m))
              after,
        )
      ]
