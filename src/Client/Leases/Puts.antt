-- ===== src/Client/Leases/Puts.antt =====
-- etcd_client.go: `Topic`, `Mode`, `Oper`, `Away` and `PrivMsg` write each key under the lease that it
-- should have.
use mathlib.Core.Path.{subst}
use etcdircd.Prelude.{
  ℕ, ◌≡◌, sym, ap, ◌∙◌, inl, inr, false, Option, List, [], ◌∷◌, Str, ◌==◌, str_eq, lit, is_nil,
  if◌then◌else◌, Bool-cases, Option-cases,
}
use etcdircd.Result.{Result, ok}
use etcdircd.Etcd.{Etcd, no_option, ignore_lease}
use etcdircd.Mode.{update_slice, user_mode_perms}
use etcdircd.Key.{key_user_ctl, is_chan}
use etcdircd.Tables.Store.{tables-user}
use etcdircd.Reply.{err_usersdontmatch, rpl_unaway, rpl_nowaway}
use etcdircd.Client.{Client, World, Scope, Fate, send_host_msg}
use etcdircd.Client.Commit
use etcdircd.Client.Stm.{not_failed, send_host_msg-IsReply}
use etcdircd.Client.Leases.{
  IsLeased, commit-IsLeased, put_chan_msg-IsLeased, put_user_msg-IsLeased, put_user-IsLeased,
  put_ctl-IsLeased,
}
use etcdircd.Client.Topic.{topic_tx, topic_reply, topic}
use etcdircd.Client.Topic.Laws.{topic_tx-Set}
use etcdircd.Client.Modes.{
  UserModeFlags, chan_mode_tx, chan_mode_reply, chan_mode, user_mode_tx, user_mode_reply, user_mode,
  mode,
}
use etcdircd.Client.Modes.Chan.{chan_mode_tx-Ruled}
use etcdircd.Client.Modes.Laws.{mode_unknown, mode_same, mode_stored, user_mode_reply-IsReply}
use etcdircd.Client.Oper.{oper_tx, oper_reply, oper}
use etcdircd.Client.Oper.Laws.{oper_tx-Granted}
use etcdircd.Client.Away.{away_user, away_tx, away}
use etcdircd.Client.PrivMsg.{
  user_tx, user_reply, priv_msg_user, chan_tx, chan_reply, priv_msg_chan, priv_msg,
}
use etcdircd.Client.PrivMsg.Direct.{user_tx-MayReach}
use etcdircd.Client.PrivMsg.Chan.{chan_tx-MaySpeak}
use etcdircd.Moves.Channels.{topic_reply-IsReply, chan_mode_reply-IsReply}
use etcdircd.Moves.Users.{away_unknown, away_stored, away_reply-IsReply, oper_reply-IsReply}
use etcdircd.Moves.Sends.{user_reply-IsReply, chan_reply-IsReply}

module _ (e : Etcd) (ec : Client) where
  moved : {v v' : e.View} → v' ≡ v → IsLeased e v → IsLeased e v'
  moved same h = subst (IsLeased e) (sym same) h

  pub topic-IsLeased :
      (ch : Str) (given : Option Str) (ses : Result ℕ) (fate : Fate e.View) (w : World e.View)
      → IsLeased e w.db
      → IsLeased e (topic e ec ch given ses fate w).1.db
  unfolding topic
  topic-IsLeased ch given ses fate w h =
      Commit.session-keeps e (IsLeased e) (commit-IsLeased e) w h ses
        (λ lid. topic_tx e ec lid ch given) _ fate (λ done. topic_reply e ec ch given done.0)
        (λ done. topic_reply-IsReply e ec ch given done.0)
        (λ lid fl s got run. elim (topic_tx-Set e ec lid ch given fl w.db s run) [
          | inl same ↦ moved same h
          | inr c ↦
              moved c.view
                (put_chan_msg-IsLeased e _ no_option _ (put_ctl-IsLeased e w.db h _ ch) ch)
        ])

  chan_mode-IsLeased :
      (ch : Str) (m : List Str) (lid : ℕ) (fate : Fate e.View) (w : World e.View)
      → IsLeased e w.db
      → IsLeased e (chan_mode e ec ch m lid fate w).1.db
  unfolding chan_mode
  chan_mode-IsLeased ch m lid fate w h =
      Commit.transact-keeps e (IsLeased e) (commit-IsLeased e) w h (chan_mode_tx e ec lid ch m) _
        fate (λ done. chan_mode_reply e ec ch done.0)
        (λ done. chan_mode_reply-IsReply e ec ch done.0)
        (λ fl s run. elim (chan_mode_tx-Ruled e ec lid ch m fl w.db s run) [
          | inl same ↦ moved same h
          | inr c ↦ moved c.view (put_ctl-IsLeased e w.db h _ ch)
        ])

  user_mode_tx-IsLeased :
      (m : List Str) (fl : UserModeFlags) (v : e.View) (s : Scope UserModeFlags e.View)
      → user_mode_tx e ec m (record { flags = fl; view = v }) ≡ (ok tt, s)
      → IsLeased e v
      → IsLeased e s.view
  user_mode_tx-IsLeased m fl v s run h =
      let ends : (user_mode_tx e ec m (record { flags = fl; view = v })).1.view ≡ s.view =
        ap (λ x. x.1.view) run in
      elim (Option-cases (e.user_codec.decode (e.get v (key_user_ctl ec.nick)))) [
        | inl bad ↦ absurd (not_failed (mode_unknown e ec m fl v bad) run)
        | inr (uv, hu) ↦ elim (Bool-cases (update_slice uv.mode [] m user_mode_perms).2) [
          | inr same ↦ moved (sym ends ∙ mode_same e ec m fl v uv hu same) h
          | inl new ↦
              moved (sym ends ∙ mode_stored e ec m fl v uv hu new)
                (put_user-IsLeased e v h ec.nick _ ignore_lease (h.users ec.nick uv hu))
        ]
      ]

  user_mode-IsLeased :
      (m : List Str) (fate : Fate e.View) (w : World e.View)
      → IsLeased e w.db
      → IsLeased e (user_mode e ec m fate w).1.db
  unfolding user_mode
  user_mode-IsLeased m fate w h =
      Commit.transact-keeps e (IsLeased e) (commit-IsLeased e) w h (user_mode_tx e ec m) _ fate
        (λ done. user_mode_reply e ec m done.0) (λ done. user_mode_reply-IsReply e ec m done.0)
        (λ fl s run. user_mode_tx-IsLeased m fl w.db s run h)

  pub mode-IsLeased :
      (m : List Str) (lid : ℕ) (fate : Fate e.View) (w : World e.View)
      → IsLeased e w.db
      → IsLeased e (mode e ec m lid fate w).1.db
  unfolding mode
  mode-IsLeased [] lid fate w h = h
  mode-IsLeased (target ∷ m) lid fate w h = elim (Bool-cases (is_chan target)) [
    | inl chan ↦ rw chan (chan_mode-IsLeased target m lid fate w h)
    | inr user ↦ elim (Bool-cases (target == ec.nick)) [
      | inl mine ↦ rw (user, mine) (user_mode-IsLeased m fate w h)
      | inr other ↦
          rw (user, other)
            (moved
              (send_host_msg-IsReply ec err_usersdontmatch
                (lit "Cannot change mode for other users" ∷ []) w)
              h)
    ]
  ]

  pub oper-IsLeased :
      (login pass : Str) (fate : Fate e.View) (w : World e.View)
      → IsLeased e w.db
      → IsLeased e (oper e ec login pass fate w).1.db
  unfolding oper
  oper-IsLeased login pass fate w h =
      Commit.transact-keeps e (IsLeased e) (commit-IsLeased e) w h (oper_tx e ec login pass) false
        fate (λ done. oper_reply e ec done.0) (λ done. oper_reply-IsReply e ec done.0)
        (λ fl s run. elim (oper_tx-Granted e ec login pass fl w.db s run) [
          | inl (kept, same) ↦ moved same h
          | inr g ↦ moved g.view (
              put_user-IsLeased e w.db h ec.nick _ ignore_lease
                (h.users ec.nick g.before (sym (tables-user e w.db ec.nick) ∙ g.found)))
        ])

  away_tx-IsLeased :
      (msg : Str) (v : e.View) (s : Scope (Unit {0}) e.View)
      → away_tx e ec msg (record { flags = tt; view = v }) ≡ (ok tt, s)
      → IsLeased e v
      → IsLeased e s.view
  away_tx-IsLeased msg v s run h =
      elim (Option-cases (e.user_codec.decode (e.get v (key_user_ctl ec.nick)))) [
        | inl bad ↦ absurd (not_failed (away_unknown e ec msg v bad) run)
        | inr (uv, hu) ↦ moved (sym (ap (λ x. x.1.view) run) ∙ away_stored e ec msg v uv hu) (
            put_user-IsLeased e v h ec.nick (away_user uv msg) ignore_lease (h.users ec.nick uv hu))
      ]

  pub away-IsLeased :
      (msg : Str) (fate : Fate e.View) (w : World e.View)
      → IsLeased e w.db
      → IsLeased e (away e ec msg fate w).1.db
  unfolding away
  away-IsLeased msg fate w h =
      Commit.transact-keeps e (IsLeased e) (commit-IsLeased e) w h (away_tx e ec msg) tt fate
        (λ done.
          if is_nil msg
          then send_host_msg ec rpl_unaway (lit "You are no longer marked as being away" ∷ [])
          else send_host_msg ec rpl_nowaway (lit "You have been marked as being away" ∷ []))
        (λ done. away_reply-IsReply e ec msg) (λ fl s run. away_tx-IsLeased msg w.db s run h)

  pub priv_msg-IsLeased :
      (target msg : Str) (fate : Fate e.View) (w : World e.View)
      → IsLeased e w.db
      → IsLeased e (priv_msg e ec target msg fate w).1.db
  unfolding priv_msg priv_msg_user priv_msg_chan
  priv_msg-IsLeased target msg fate w h = elim (Bool-cases (is_chan target)) [
    | inl chan ↦ rw chan (
        Commit.transact-keeps e (IsLeased e) (commit-IsLeased e) w h (chan_tx e ec target msg) _
          fate (λ done. chan_reply e ec target done.0)
          (λ done. chan_reply-IsReply e ec target msg done.0)
          (λ fl s run. elim (chan_tx-MaySpeak e ec target msg fl w.db s run) [
            | inl same ↦ moved same h
            | inr (sent, may) ↦ moved sent (put_chan_msg-IsLeased e _ ignore_lease w.db h target)
          ]))
    | inr user ↦ rw user (
        Commit.transact-keeps e (IsLeased e) (commit-IsLeased e) w h (user_tx e ec target msg) _
          fate (λ done. user_reply e ec target done.0)
          (λ done. user_reply-IsReply e ec target msg done.0)
          (λ fl s run. elim (user_tx-MayReach e ec target msg fl w.db s run) [
            | inl same ↦ moved same h
            | inr (inl (sent, may)) ↦
                moved sent (put_user_msg-IsLeased e _ ignore_lease w.db h target)
            | inr (inr told) ↦
                moved told.told (put_user_msg-IsLeased e _ ignore_lease w.db h ec.nick)
          ]))
  ]
