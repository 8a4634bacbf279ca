-- ===== src/Client/Join/Laws.antt =====
-- etcd_client.go: what `Join` keeps.
use etcdircd.Prelude.{ℕ, ◌≡◌, some, Str, []}
use etcdircd.Result.{Result, ok}
use etcdircd.Etcd.{Etcd}
use etcdircd.User.{UserValue}
use etcdircd.Tables.{Tables}
use etcdircd.Tables.Store.{tables}
use etcdircd.Tables.Consistent.{IsConsistent, enter-IsConsistent}
use etcdircd.Client.{Client, World, Scope, Fate}
use etcdircd.Client.Stm.{session_step-keeps}
use etcdircd.Client.Join.{join_tx, join_commit}
use etcdircd.Client.Join.Effect.{join_tx-Joined}

-- The record of a client has the client's nick, and the lease of the session.
abbrev pub OwnRecord : Client → Result ℕ → Tables → Type 0
OwnRecord ec ses t =
    (uv : UserValue) (lid : ℕ)
    → ses ≡ ok lid
    → t.user ec.nick ≡ some uv
    → (uv.nick ≡ ec.nick) × (uv.lease ≡ lid)

module _ (e : Etcd) (ec : Client) (ch : Str) (now : ℕ) where
  join_tx-IsConsistent :
      (lid : ℕ) (fl : Str) (v : e.View) (s : Scope Str e.View)
      → join_tx e ec lid ch now (record { flags = fl; view = v }) ≡ (ok tt, s)
      → ((uv : UserValue)
          → (tables e v).user ec.nick ≡ some uv
          → (uv.nick ≡ ec.nick) × (uv.lease ≡ lid))
      → IsConsistent (tables e v)
      → IsConsistent (tables e s.view)
  join_tx-IsConsistent lid fl v s run own h =
      let j = join_tx-Joined e ec lid ch now fl v s run in
      let mine = own j.before j.found in
      rw (j.after, ← (mine.1))
        (enter-IsConsistent (tables e v) ec.nick j.before ch j.channel _ mine.0 h j.found)

  -- However the transaction of a `Join` ends, it keeps the channels of the users' records and the
  -- member lists in agreement, if the record of the client has its nick and the lease of its session.
  pub join_commit-IsConsistent :
      (ses : Result ℕ) (fate : Fate e.View) (w : World e.View)
      → OwnRecord ec ses (tables e w.db)
      → IsConsistent (tables e w.db)
      → IsConsistent (tables e (join_commit e ec ch now ses fate w).1.db)
  unfolding join_commit
  join_commit-IsConsistent ses fate w own h =
      session_step-keeps e IsConsistent w h ses (λ lid. join_tx e ec lid ch now) [] fate
        (λ lid fl s got run.
          join_tx-IsConsistent lid fl w.db s run (λ uv found. own uv lid got found) h)
