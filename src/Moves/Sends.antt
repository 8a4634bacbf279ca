-- ===== src/Moves/Sends.antt =====
-- etcd_client.go: `PrivMsg` and the queries leave the tables as they are.
use etcdircd.Prelude.{
  ◌≡◌, refl, ap, ◌∙◌, inl, inr, List, [], ◌∷◌, ◌++◌, Str, nat_eq, str_eq, lit, arith, Bool-cases,
}
use etcdircd.Result.{Error, ok, must}
use etcdircd.Text.{decimal}
use etcdircd.Exec.{fail, lift}
use etcdircd.Etcd.{Etcd, ignore_lease}
use etcdircd.User.{UserValue}
use etcdircd.Key.{is_chan}
use etcdircd.Tables.Store.{tables, tables-put_user_msg, tables-put_chan_msg}
use etcdircd.Reply.{rpl_whoreply, rpl_list, err_nosuchnick, err_notexttosend, err_cannotsendtochan}
use etcdircd.Client.{Client, World, Scope, Fate, send_host_msg}
use etcdircd.Client.Stm.{transact-keeps, send_host_msg-IsReply}
use etcdircd.Client.Quiet.{
  IsQuiet, quiet_laws, bind-IsQuiet, pure-IsQuiet, lift-IsQuiet, send_host_msg-IsQuiet,
  dropping_error-IsQuiet,
}
use etcdircd.Client.Query.{Read, Range}
use etcdircd.Client.Names.{names_now, who, who_lines, who_line, second}
use etcdircd.Client.Names.Laws.{names-IsQuiet}
use etcdircd.Client.Lists.{ReplyList, list_lines, list_chans, whois_lines, whois, ping, die}
use etcdircd.Client.PrivMsg.{
  UserFlags, ChanFlags, user_tx, user_reply, priv_msg_user, chan_tx, chan_reply, priv_msg_chan,
  priv_msg,
}
use etcdircd.Client.PrivMsg.Direct.{user_tx-MayReach}
use etcdircd.Client.PrivMsg.Chan.{chan_tx-MaySpeak}

module _ (e : Etcd) (ec : Client) (target msg : Str) where
  user_tx-tables :
      (fl : UserFlags) (v : e.View) (s : Scope UserFlags e.View)
      → user_tx e ec target msg (record { flags = fl; view = v }) ≡ (ok tt, s)
      → tables e s.view ≡ tables e v
  user_tx-tables fl v s run = elim (user_tx-MayReach e ec target msg fl v s run) [
    | inl same ↦ ap (tables e) same
    | inr (inl (sent, may)) ↦ ap (tables e) sent ∙ tables-put_user_msg e v ignore_lease target _
    | inr (inr told) ↦ ap (tables e) told.told ∙ tables-put_user_msg e v ignore_lease ec.nick _
  ]

  chan_tx-tables :
      (fl : ChanFlags) (v : e.View) (s : Scope ChanFlags e.View)
      → chan_tx e ec target msg (record { flags = fl; view = v }) ≡ (ok tt, s)
      → tables e s.view ≡ tables e v
  chan_tx-tables fl v s run = elim (chan_tx-MaySpeak e ec target msg fl v s run) [
    | inl same ↦ ap (tables e) same
    | inr (sent, may) ↦ ap (tables e) sent ∙ tables-put_chan_msg e v ignore_lease target _
  ]

  pub user_reply-IsReply :
      (fl : UserFlags) (w : World e.View) → (user_reply e ec target fl w).1.db ≡ w.db
  unfolding user_reply
  user_reply-IsReply fl w = ground (
    arith,
    send_host_msg-IsReply ec err_nosuchnick (target ∷ lit "No such nick/channel" ∷ []) w,
    send_host_msg-IsReply ec err_notexttosend (target ∷ lit "No text to send" ∷ []) w,
  )

  pub chan_reply-IsReply :
      (fl : ChanFlags) (w : World e.View) → (chan_reply e ec target fl w).1.db ≡ w.db
  unfolding chan_reply
  chan_reply-IsReply fl w = ground (
    arith,
    send_host_msg-IsReply ec err_nosuchnick (target ∷ lit "No such nick/channel" ∷ []) w,
    send_host_msg-IsReply ec err_cannotsendtochan (target ∷ lit "Cannot send to channel" ∷ []) w,
  )

  -- A `PrivMsg` changes no user, channel or member list, however it ends.
  pub priv_msg-tables :
      (fate : Fate e.View) (w : World e.View)
      → tables e (priv_msg e ec target msg fate w).1.db ≡ tables e w.db
  unfolding priv_msg priv_msg_user priv_msg_chan
  priv_msg-tables fate w = elim (Bool-cases (is_chan target)) [
    | inl chan ↦ rw chan (
        transact-keeps e (λ t. t ≡ tables e w.db) w refl (chan_tx e ec target msg) _ fate
          (λ done. chan_reply e ec target done.0) (λ done. chan_reply-IsReply done.0)
          (λ fl s run. chan_tx-tables fl w.db s run))
    | inr user ↦ rw user (
        transact-keeps e (λ t. t ≡ tables e w.db) w refl (user_tx e ec target msg) _ fate
          (λ done. user_reply e ec target done.0) (λ done. user_reply-IsReply done.0)
          (λ fl s run. user_tx-tables fl w.db s run))
  ]

module _ (e : Etcd) (range : Range e.View e.Blob) (ec : Client) where
  pub names_now-IsQuiet :
      (ch : Str) (r1 r2 r3 : Read e.View) → IsQuiet (names_now e range ec ch r1 r2 r3)
  unfolding names_now
  names_now-IsQuiet ch r1 r2 r3 = names-IsQuiet e range ec ch r1 r2 r3 0

  who_lines-IsQuiet :
      (mask : Str) (modes : Str → Str) (us : List UserValue)
      → IsQuiet (who_lines e range ec mask modes us)
  unfolding who_lines
  who_lines-IsQuiet mask modes [] = pure-IsQuiet tt
  who_lines-IsQuiet mask modes (u ∷ us) =
      bind-IsQuiet (lift (must (second u.user))) _ (lift-IsQuiet (must (second u.user))) (λ user.
        bind-IsQuiet
          (send_host_msg ec rpl_whoreply
            (who_line e range ec mask modes u user ∷ (lit "0 " ++ u.real_name) ∷ []))
          _ (send_host_msg-IsQuiet ec _ _) (λ x. who_lines-IsQuiet mask modes us))

  pub who-IsQuiet :
      (args : List Str) (r1 r2 r3 : Read e.View) → IsQuiet (who e range ec args r1 r2 r3)
  unfolding who
  who-IsQuiet args r1 r2 r3 = search (quiet_laws, who_lines-IsQuiet) depth 12

  list_lines-IsQuiet : (rs : List ReplyList) → IsQuiet (list_lines e range ec rs)
  unfolding list_lines
  list_lines-IsQuiet [] = pure-IsQuiet tt
  list_lines-IsQuiet (r ∷ rs) =
      bind-IsQuiet _ _
        (dropping_error-IsQuiet
          (send_host_msg ec rpl_list (r.channel ∷ decimal r.visible ∷ (lit " " ++ r.topic) ∷ []))
          (send_host_msg-IsQuiet ec _ _))
        (λ x. list_lines-IsQuiet rs)

  pub list_chans-IsQuiet :
      (chs : List Str) (r : Read e.View) → IsQuiet (list_chans e range ec chs r)
  unfolding list_chans
  list_chans-IsQuiet chs r = search (quiet_laws, list_lines-IsQuiet) depth 12

  whois_lines-IsQuiet : (n : Str) (uv : UserValue) → IsQuiet (whois_lines e range ec n uv)
  unfolding whois_lines
  whois_lines-IsQuiet n uv = search quiet_laws depth 12

  pub whois-IsQuiet : (n : Str) (r : Read e.View) → IsQuiet (whois e range ec n r)
  unfolding whois
  whois-IsQuiet n r = search (quiet_laws, whois_lines-IsQuiet) depth 12

  pub ping-IsQuiet : (msg : Str) (r : Read e.View) → IsQuiet (ping e range ec msg r)
  unfolding ping
  ping-IsQuiet msg r = search quiet_laws

  fail-IsQuiet : (x : Error) → IsQuiet {V = e.View} {A = Unit {0}} (fail x)
  fail-IsQuiet x = record { keeps = λ w. refl }

  pub die-IsQuiet : (r : Read e.View) → IsQuiet (die e range ec r)
  unfolding die
  die-IsQuiet r = search (quiet_laws, fail-IsQuiet) depth 12
