-- ===== src/Client/Names/Laws.antt =====
-- etcd_client.go: what the whole of `Join` keeps.
use mathlib.Core.Path.{subst}
use etcdircd.Prelude.{ℕ, ◌+◌, sym, Str, is_nil}
use etcdircd.Result.{Result}
use etcdircd.Exec.{lift, pure, ◌>>=◌}
use etcdircd.Etcd.{Etcd}
use etcdircd.Tables.Store.{tables}
use etcdircd.Tables.Consistent.{IsConsistent}
use etcdircd.Client.{Client, World, Fate, send_msg}
use etcdircd.Client.Stm.{bind-keeps}
use etcdircd.Client.Quiet.{
  IsQuiet, quiet_laws, bind-IsQuiet, dropping_error-IsQuiet, send_msg-IsQuiet, if-IsQuiet,
  send_host_msg-IsQuiet,
}
use etcdircd.Client.Join.{join_msg, join_commit}
use etcdircd.Client.Join.Laws.{OwnRecord, join_commit-IsConsistent}
use etcdircd.Client.Query.{Read, Range}
use etcdircd.Client.Names.{dropping_error, names, topic_line, join_reply, join_chan}

module _ (e : Etcd) (range : Range e.View e.Blob) (ec : Client) (ch : Str)
    (r1 r2 r3 : Read e.View) where
  pub names-IsQuiet : (rev : ℕ) → IsQuiet (names e range ec ch rev r1 r2 r3)
  unfolding names
  names-IsQuiet rev = search quiet_laws

  topic_line-IsQuiet : (topic : Str) → IsQuiet (topic_line e range ec ch topic)
  unfolding topic_line
  topic_line-IsQuiet topic =
      if-IsQuiet (is_nil topic) _ _ (send_host_msg-IsQuiet ec _ _) (send_host_msg-IsQuiet ec _ _)

  join_reply-IsQuiet : (done : Str × ℕ) → IsQuiet (join_reply e range ec ch done r1 r2 r3)
  unfolding join_reply
  join_reply-IsQuiet done =
      bind-IsQuiet (λ w. dropping_error (send_msg (join_msg ec ch) w)) _
        (dropping_error-IsQuiet (send_msg (join_msg ec ch)) (send_msg-IsQuiet (join_msg ec ch)))
        (λ x.
          bind-IsQuiet (λ w. dropping_error (topic_line e range ec ch done.0 w)) _
            (dropping_error-IsQuiet (topic_line e range ec ch done.0) (topic_line-IsQuiet done.0))
            (λ y. names-IsQuiet done.1))

  pub join_end-IsQuiet :
      (done : Str × ℕ) (ctx : Result (Unit {0}))
      → IsQuiet {V = e.View} {A = Str × ℕ} (
          join_reply e range ec ch done r1 r2 r3 >>= λ x.
          (lift ctx >>= λ y. pure {A = Str × ℕ} (ch, done.1 + 1)))
  join_end-IsQuiet done ctx = search (quiet_laws, join_reply-IsQuiet)

  -- However a `Join` ends, with conflicts in its transaction, with a read that fails or a reply that is
  -- refused, it keeps the channels of the users' records and the member lists in agreement, if the
  -- record of the client has its nick and the lease of its session.
  pub join_chan-IsConsistent :
      (now : ℕ) (ses : Result ℕ) (fate : Fate e.View) (ctx : Result (Unit {0})) (w : World e.View)
      → OwnRecord ec ses (tables e w.db)
      → IsConsistent (tables e w.db)
      → IsConsistent (tables e (join_chan e range ec ch now ses fate r1 r2 r3 ctx w).1.db)
  unfolding join_chan
  join_chan-IsConsistent now ses fate ctx w own h =
      bind-keeps e IsConsistent (join_commit e ec ch now ses fate) _ w
        (join_commit-IsConsistent e ec ch now ses fate w own h)
        (λ done w' k.
          subst (λ v. IsConsistent (tables e v)) (sym ((join_end-IsQuiet done ctx).keeps w')) k)
