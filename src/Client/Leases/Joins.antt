-- ===== src/Client/Leases/Joins.antt =====
-- etcd_client.go: `Quit` and `Join` write each key under the lease that it should have.
use etcdircd.Prelude.{
  ℕ, ◌≡◌, refl, sym, ◌∙◌, inl, inr, some, List, [], ◌∷◌, ◌++◌, Str, nat_eq, Bool-cases,
  Option-cases,
}
use etcdircd.Result.{Result, ok, err, panic}
use etcdircd.Exec.{pure, continue, ◌>>=◌, ◌>>◌}
use etcdircd.Etcd.{Etcd, no_option, ignore_lease, with_lease}
use etcdircd.User.{UserValue}
use etcdircd.Channel.{del_nick}
use etcdircd.Key.{key_user_ctl, key_user_msg, key_chan_ctl, key_chan_nicks}
use etcdircd.Tables.Store.{tables, tables-user}
use etcdircd.Client.{Client, World, Scope, Fate, stm_del}
use etcdircd.Client.Commit
use etcdircd.Client.Stm.{transfer, not_failed, not_panicked}
use etcdircd.Client.Leases.{
  IsLeased, commit-IsLeased, put_chan_msg-IsLeased, put_user-IsLeased, put_nicks-IsLeased,
  put_ctl-IsLeased, del_user-IsLeased, del_user_msg-IsLeased,
}
use etcdircd.Client.Part.Laws.{OwnLease}
use etcdircd.Client.Quit.{quit_channels, quit_tx, quit}
use etcdircd.Client.Quit.Lists.{channel_gone, channel_garbled, channel_left, no_channel}
use etcdircd.Client.Quit.Laws.{quit_known, quit_unknown, no_session}
use etcdircd.Client.Query.{Read, Range}
use etcdircd.Client.Join.{join_tx, join_commit, found_channel, found_members}
use etcdircd.Client.Join.Effect.{join_unknown, join_garbled, join_no_list, join_done}
use etcdircd.Client.Names.{join_chan}
use etcdircd.Client.Names.Laws.{join_end-IsQuiet}
use mathlib.Core.Path.{subst}

module _ (e : Etcd) (ec : Client) (msg : Str) where
  quit_channels-IsLeased :
      (lid : ℕ) (chs : List Str) (v : e.View) (s : Scope (Unit {0}) e.View)
      → quit_channels e ec lid msg chs (record { flags = tt; view = v }) ≡ (ok tt, s)
      → IsLeased e v
      → IsLeased e s.view
  quit_channels-IsLeased lid [] v s run h =
      transfer (λ (s : Scope (Unit {0}) e.View). IsLeased e s.view) (no_channel e ec lid msg v) run
        h
  quit_channels-IsLeased lid (ch ∷ chs) v s run h =
      elim (Bool-cases (e.is_empty (e.get v (key_chan_nicks ch lid)))) [
        | inl gone ↦
            quit_channels-IsLeased lid chs v s (sym (channel_gone e ec lid msg ch chs v gone) ∙ run)
              h
        | inr here ↦ elim (Option-cases (e.nicks_codec.decode (e.get v (key_chan_nicks ch lid)))) [
          | inl bad ↦ absurd (not_failed (channel_garbled e ec lid msg ch chs v here bad) run)
          | inr (cns, hn) ↦
              quit_channels-IsLeased lid chs _ s
                (sym (channel_left e ec lid msg ch chs v here cns hn) ∙ run)
                (put_chan_msg-IsLeased e _ no_option _
                  (put_nicks-IsLeased e v h ch lid (del_nick cns ec.nick) ignore_lease
                    (h.lists ch lid here))
                  ch)
        ]
      ]

  -- The end of the closure.
  deleted-IsLeased :
      (out : Result (Unit {0}) × Scope (Unit {0}) e.View) (s : Scope (Unit {0}) e.View)
      → ((s' : Scope (Unit {0}) e.View) → out ≡ (ok tt, s') → IsLeased e s'.view)
      → continue out.0
          (λ x. stm_del e (key_user_ctl ec.nick) >> stm_del e (key_user_msg ec.nick))
          out.1
        ≡ (ok tt, s)
      → IsLeased e s.view
  unfolding ◌>>=◌
  deleted-IsLeased (ok x, s') s h run =
      transfer (λ (s : Scope (Unit {0}) e.View). IsLeased e s.view) refl run
        (del_user_msg-IsLeased e _ (del_user-IsLeased e s'.view (h s' refl) ec.nick) ec.nick)
  deleted-IsLeased (err x, s') s h run = absurd (not_failed refl run)
  deleted-IsLeased (panic, s') s h run = absurd (not_panicked refl run)

  quit_tx-IsLeased :
      (ses : Result ℕ) (v : e.View) (s : Scope (Unit {0}) e.View)
      → quit_tx e ec ses msg (record { flags = tt; view = v }) ≡ (ok tt, s)
      → IsLeased e v
      → IsLeased e s.view
  quit_tx-IsLeased (err x) v s run h =
      absurd (no_session e ec msg v s (err x) (λ lid p. (cc p)) run)
  quit_tx-IsLeased panic v s run h = absurd (no_session e ec msg v s panic (λ lid p. (cc p)) run)
  quit_tx-IsLeased (ok lid) v s run h =
      elim (Option-cases (e.user_codec.decode (e.get v (key_user_ctl ec.nick)))) [
        | inl bad ↦ absurd (not_failed (quit_unknown e ec msg v (ok lid) bad) run)
        | inr (uv, hu) ↦
            deleted-IsLeased
              (quit_channels e ec lid msg uv.channels (record { flags = tt; view = v })) s
              (λ s' r. quit_channels-IsLeased lid uv.channels v s' r h)
              (sym (quit_known e ec msg v lid uv hu) ∙ run)
      ]

  pub quit-IsLeased :
      (ses : Result ℕ) (fate : Fate e.View) (w : World e.View)
      → IsLeased e w.db
      → IsLeased e (quit e ec msg ses fate w).1.db
  unfolding quit
  quit-IsLeased ses fate w h =
      Commit.transact-keeps e (IsLeased e) (commit-IsLeased e) w h (quit_tx e ec ses msg) tt fate
        (λ d. pure tt) (λ d w'. refl) (λ fl s run. quit_tx-IsLeased ses w.db s run h)

module _ (e : Etcd) (range : Range e.View e.Blob) (ec : Client) (ch : Str) (now : ℕ) where
  join_tx-IsLeased :
      (lid : ℕ) (fl : Str) (v : e.View) (s : Scope Str e.View)
      → join_tx e ec lid ch now (record { flags = fl; view = v }) ≡ (ok tt, s)
      → ((uv : UserValue) → (tables e v).user ec.nick ≡ some uv → uv.lease ≡ lid)
      → IsLeased e v
      → IsLeased e s.view
  join_tx-IsLeased lid fl v s run own h =
      elim (Option-cases (e.user_codec.decode (e.get v (key_user_ctl ec.nick)))) [
        | inl bad ↦ absurd (not_failed (join_unknown e ec lid ch now fl v bad) run)
        | inr (uv, hu) ↦ elim (Option-cases (found_channel e ch now (e.get v (key_chan_ctl ch)))) [
          | inl bad ↦ absurd (not_failed (join_garbled e ec lid ch now fl v uv hu bad) run)
          | inr (c, hc) ↦ elim (Option-cases (found_members e (e.get v (key_chan_nicks ch lid)))) [
            | inl bad ↦ absurd (not_failed (join_no_list e ec lid ch now fl v uv hu c hc bad) run)
            | inr (cns, hn) ↦
                transfer (λ (s : Scope Str e.View). IsLeased e s.view)
                  (join_done e ec lid ch now fl v uv hu c hc cns hn) run
                  (put_chan_msg-IsLeased e _ no_option _
                    (put_nicks-IsLeased e _
                      (put_ctl-IsLeased e _
                        (put_user-IsLeased e v h ec.nick
                          (record uv { channels = uv.channels ++ ch ∷ [] }) (with_lease lid)
                          (sym (own uv (tables-user e v ec.nick ∙ hu))))
                        _ ch)
                      ch lid _ (with_lease lid) refl)
                    ch)
          ]
        ]
      ]

  pub join_chan-IsLeased :
      (r1 r2 r3 : Read e.View) (ses : Result ℕ) (fate : Fate e.View) (ctx : Result (Unit {0}))
      (w : World e.View)
      → OwnLease ec ses (tables e w.db)
      → IsLeased e w.db
      → IsLeased e (join_chan e range ec ch now ses fate r1 r2 r3 ctx w).1.db
  unfolding join_chan join_commit
  join_chan-IsLeased r1 r2 r3 ses fate ctx w own h =
      Commit.bind-keeps e (IsLeased e) (join_commit e ec ch now ses fate) _ w
        (Commit.session_step-keeps e (IsLeased e) (commit-IsLeased e) w h ses
          (λ lid. join_tx e ec lid ch now) [] fate
          (λ lid fl s got run.
            join_tx-IsLeased lid fl w.db s run (λ uv found. own uv lid got found) h))
        (λ done w' k.
          subst (IsLeased e) (sym ((join_end-IsQuiet e range ec ch r1 r2 r3 done ctx).keeps w')) k)
