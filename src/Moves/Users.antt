-- ===== src/Moves/Users.antt =====
-- etcd_client.go: what `userMode`, `Mode`, `Oper` and `Away` do to the tables are moves of the client.
use etcdircd.Prelude.{
  ℕ, ◌≡◌, sym, ap, ◌∙◌, inl, inr, Bool, true, false, none, some, List, [], if◌then◌else◌, ◌∷◌, Str,
  ◌==◌, str_eq, lit, is_nil, Bool-cases, Option-cases,
}
use etcdircd.Result.{ok, err, decode_failed}
use etcdircd.Exec.{◌>>=◌}
use etcdircd.Etcd.{Etcd, ignore_lease}
use etcdircd.Mode.{update_slice, user_mode_perms}
use etcdircd.Mode.Semantics.{update_slice-has}
use etcdircd.User.{UserValue}
use etcdircd.Key.{key_user_ctl, key_oper_ctl, is_chan}
use etcdircd.Tables.Store.{tables, tables-user, tables-put_user}
use etcdircd.Reply.{err_usersdontmatch, err_passwdmismatch, rpl_youreoper, rpl_unaway, rpl_nowaway}
use etcdircd.Client.{Client, World, Scope, Fate, send_host_msg}
use etcdircd.Client.Stm.{not_failed, transact-keeps, send_host_msg-IsReply}
use etcdircd.Client.Modes.{UserModeFlags, user_mode_tx, user_mode_reply, user_mode, mode}
use etcdircd.Client.Modes.Laws.{user_mode_tx-tables, user_mode_reply-IsReply}
use etcdircd.Client.Oper.{oper_tx, oper_reply, oper}
use etcdircd.Client.Oper.Laws.{oper_tx-Granted}
use etcdircd.Client.Away.{away_user, away_tx, away}
use etcdircd.Moves.{Opers, remoded, opered, away_set, revised, Moves, stay}
use etcdircd.Moves.Members.{one, nothing_done}
use etcdircd.Moves.Channels.{chan_mode-Moves}

module _ (e : Etcd) (ec : Client) where
  user_mode_tx-Moves :
      {opers : Opers} (m : List Str) (fl : UserModeFlags) (v : e.View)
      (s : Scope UserModeFlags e.View)
      → user_mode_tx e ec m (record { flags = fl; view = v }) ≡ (ok tt, s)
      → Moves opers ec.nick (tables e v) (tables e s.view)
  user_mode_tx-Moves {opers} m fl v s run = elim (user_mode_tx-tables e ec m fl v s run) [
    | inl same ↦ nothing_done (ap (tables e) same)
    | inr (uv, found, new) ↦ one (
        revised uv _ found
          (remoded (update_slice uv.mode [] m user_mode_perms).0 m
            (update_slice-has user_mode_perms uv.mode [] m))
          new)
  ]

  user_mode-Moves :
      {opers : Opers} (m : List Str) (fate : Fate e.View) (w : World e.View)
      → Moves opers ec.nick (tables e w.db) (tables e (user_mode e ec m fate w).1.db)
  unfolding user_mode
  user_mode-Moves {opers} m fate w =
      transact-keeps e (Moves opers ec.nick (tables e w.db)) w stay (user_mode_tx e ec m) _ fate
        (λ done. user_mode_reply e ec m done.0) (λ done. user_mode_reply-IsReply e ec m done.0)
        (λ fl s run. user_mode_tx-Moves m fl w.db s run)

  pub mode-Moves :
      {opers : Opers} (m : List Str) (lid : ℕ) (fate : Fate e.View) (w : World e.View)
      → Moves opers ec.nick (tables e w.db) (tables e (mode e ec m lid fate w).1.db)
  unfolding mode
  mode-Moves {opers} [] lid fate w = stay
  mode-Moves {opers} (target ∷ m) lid fate w = elim (Bool-cases (is_chan target)) [
    | inl chan ↦ rw chan (chan_mode-Moves e ec target m lid fate w)
    | inr user ↦ elim (Bool-cases (target == ec.nick)) [
      | inl mine ↦ rw (user, mine) (user_mode-Moves m fate w)
      | inr other ↦
          rw (user, other)
            (nothing_done (
              ap (tables e) (
                send_host_msg-IsReply ec err_usersdontmatch
                  (lit "Cannot change mode for other users" ∷ []) w)))
    ]
  ]

  module _ (msg : Str) where
    module _ (v : e.View) where
      abbrev pub at_start : Scope (Unit {0}) e.View
      at_start = record { flags = tt; view = v }

      pub away_unknown :
          e.user_codec.decode (e.get v (key_user_ctl ec.nick)) ≡ none
          → (away_tx e ec msg at_start).0 ≡ err decode_failed
      unfolding away_tx ◌>>=◌
      away_unknown bad = rw bad

      pub away_stored :
          (uv : UserValue)
          → e.user_codec.decode (e.get v (key_user_ctl ec.nick)) ≡ some uv
          → (away_tx e ec msg at_start).1.view
            ≡ e.put (key_user_ctl ec.nick) (e.user_codec.encode (away_user uv msg)) ignore_lease v
      unfolding away_tx ◌>>=◌
      away_stored uv hu = rw hu

      away_tx-Moves :
          {opers : Opers} (s : Scope (Unit {0}) e.View)
          → away_tx e ec msg at_start ≡ (ok tt, s)
          → Moves opers ec.nick (tables e v) (tables e s.view)
      away_tx-Moves {opers} s run =
          elim (Option-cases (e.user_codec.decode (e.get v (key_user_ctl ec.nick)))) [
            | inl bad ↦ absurd (not_failed (away_unknown bad) run)
            | inr (uv, hu) ↦ one (
                revised uv (away_user uv msg) (tables-user e v ec.nick ∙ hu) (away_set msg) (
                  ap (tables e) (sym (ap (λ x. x.1.view) run) ∙ away_stored uv hu)
                  ∙ tables-put_user e v ignore_lease ec.nick (away_user uv msg)))
          ]

    pub away_reply-IsReply :
        (w : World e.View)
        → ((if is_nil msg
              then send_host_msg ec rpl_unaway (lit "You are no longer marked as being away" ∷ [])
              else send_host_msg ec rpl_nowaway (lit "You have been marked as being away" ∷ []))
            w).1.db
          ≡ w.db
    away_reply-IsReply w = elim (Bool-cases (is_nil msg)) [
      | inl back ↦ rw back (send_host_msg-IsReply ec rpl_unaway _ w)
      | inr set ↦ rw set (send_host_msg-IsReply ec rpl_nowaway _ w)
    ]

    pub away-Moves :
        {opers : Opers} (fate : Fate e.View) (w : World e.View)
        → Moves opers ec.nick (tables e w.db) (tables e (away e ec msg fate w).1.db)
    unfolding away
    away-Moves {opers} fate w =
        transact-keeps e (Moves opers ec.nick (tables e w.db)) w stay (away_tx e ec msg) tt fate
          (λ done.
            if is_nil msg
            then send_host_msg ec rpl_unaway (lit "You are no longer marked as being away" ∷ [])
            else send_host_msg ec rpl_nowaway (lit "You have been marked as being away" ∷ []))
          (λ done. away_reply-IsReply) (λ fl s run. away_tx-Moves w.db s run)

-- The operator records of a store.
abbrev pub opers_in : (e : Etcd) → e.View → Opers
opers_in e v login = e.oper_codec.decode (e.get v (key_oper_ctl login))

module _ (e : Etcd) (ec : Client) where
  pub oper_reply-IsReply : (b : Bool) (w : World e.View) → (oper_reply e ec b w).1.db ≡ w.db
  unfolding oper_reply
  oper_reply-IsReply true w = send_host_msg-IsReply ec rpl_youreoper _ w
  oper_reply-IsReply false w = send_host_msg-IsReply ec err_passwdmismatch _ w

  oper_tx-Moves :
      (login pass : Str) (fl : Bool) (v : e.View) (s : Scope Bool e.View)
      → oper_tx e ec login pass (record { flags = fl; view = v }) ≡ (ok tt, s)
      → Moves (opers_in e v) ec.nick (tables e v) (tables e s.view)
  oper_tx-Moves login pass fl v s run = elim (oper_tx-Granted e ec login pass fl v s run) [
    | inl (kept, same) ↦ nothing_done (ap (tables e) same)
    | inr g ↦
        one
          (revised g.before _ g.found (opered login g.admitted.operator g.admitted.stored) g.after)
  ]

  pub oper-Moves :
      (login pass : Str) (fate : Fate e.View) (w : World e.View)
      → Moves
          (opers_in e w.db)
          ec.nick
          (tables e w.db)
          (tables e (oper e ec login pass fate w).1.db)
  unfolding oper
  oper-Moves login pass fate w =
      transact-keeps e (Moves (opers_in e w.db) ec.nick (tables e w.db)) w stay
        (oper_tx e ec login pass) false fate (λ done. oper_reply e ec done.0)
        (λ done. oper_reply-IsReply done.0) (λ fl s run. oper_tx-Moves login pass fl w.db s run)
