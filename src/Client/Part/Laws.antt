-- ===== src/Client/Part/Laws.antt =====
-- etcd_client.go: what a client and the store see of `Part`.
use etcdircd.Prelude.{
  ℕ, ◌≡◌, refl, ap, ◌∙◌, Bool, true, false, some, Str, Bool-cases, Option-cases, inl, inr,
}
use etcdircd.Result.{Result, ok}
use etcdircd.Etcd.{Etcd}
use etcdircd.User.{UserValue, in_chan}
use etcdircd.Key.{key_user_ctl}
use etcdircd.Tables.{Tables}
use etcdircd.Tables.Store.{tables, tables-user}
use etcdircd.Tables.Consistent.{IsConsistent, leave-IsConsistent}
use etcdircd.Client.{Client, World, Scope, Fate}
use etcdircd.Client.Stm.{send_host_msg-IsReply, session-keeps, not_failed}
use etcdircd.Client.Part.{part_tx, part_reply, part_chan}
use etcdircd.Client.Part.Effect.{part_tx-tables, part_tx_unknown}

-- The user of a client has the lease of the session under which its records are kept.
abbrev pub OwnLease : Client → Result ℕ → Tables → Type 0
OwnLease ec ses t =
    (uv : UserValue) (lid : ℕ) → ses ≡ ok lid → t.user ec.nick ≡ some uv → uv.lease ≡ lid

module _ (e : Etcd) (ec : Client) (ch msg : Str) where
  pub part_reply-IsReply : (b : Bool) (w : World e.View) → (part_reply e ec ch b w).1.db ≡ w.db
  unfolding part_reply
  part_reply-IsReply true w = refl
  part_reply-IsReply false w = send_host_msg-IsReply ec _ _ w

  part_tx-IsConsistent :
      (lid : ℕ) (fl : Bool) (v : e.View) (s : Scope Bool e.View)
      → part_tx e ec lid ch msg (record { flags = fl; view = v }) ≡ (ok tt, s)
      → ((uv : UserValue) → (tables e v).user ec.nick ≡ some uv → uv.lease ≡ lid)
      → IsConsistent (tables e v)
      → IsConsistent (tables e s.view)
  part_tx-IsConsistent lid fl v s run own h =
      elim (Option-cases (e.user_codec.decode (e.get v (key_user_ctl ec.nick)))) [
        | inl unknown ↦
            absurd (not_failed (ap (λ x. x.0) (part_tx_unknown e ec lid ch msg fl v unknown)) run)
        | inr (uv, hu) ↦
            let found : (tables e v).user ec.nick ≡ some uv = tables-user e v ec.nick ∙ hu in
            rw ((part_tx-tables e ec lid ch msg fl v s uv run hu).1)
              (elim (Bool-cases (in_chan uv ch)) [
                | inl on ↦
                    rw (on, ← (own uv found))
                      (leave-IsConsistent (tables e v) ec.nick uv ch h found)
                | inr off ↦ rw off h
              ])
      ]

  -- However a `Part` ends, with conflicts, with an error or with a reply that is refused, it keeps
  -- the channels of the users' records and the member lists in agreement, if the record of the client
  -- has the lease of its session.
  pub part_chan-IsConsistent :
      (ses : Result ℕ) (fate : Fate e.View) (w : World e.View)
      → OwnLease ec ses (tables e w.db)
      → IsConsistent (tables e w.db)
      → IsConsistent (tables e (part_chan e ec ch msg ses fate w).1.db)
  unfolding part_chan
  part_chan-IsConsistent ses fate w own h =
      session-keeps e IsConsistent w h ses (λ lid. part_tx e ec lid ch msg) false fate
        (λ done. part_reply e ec ch done.0) (λ done. part_reply-IsReply done.0)
        (λ lid fl s got run.
          part_tx-IsConsistent lid fl w.db s run (λ uv found. own uv lid got found) h)
