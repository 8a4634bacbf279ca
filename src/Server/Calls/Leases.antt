-- ===== src/Server/Calls/Leases.antt =====
-- client.go and server.go: whatever a client asks for, each key stays under the lease that it should have.
use mathlib.Core.Path.{subst}
use etcdircd.Prelude.{ℕ, sym, none, inl, inr, List, [], ◌∷◌, Str, ◌==◌, str_eq, Bool-cases}
use etcdircd.Result.{Result, ok, err, panic}
use etcdircd.Exec.{Exec, ◌>>=◌}
use etcdircd.Etcd.{Etcd}
use etcdircd.Reply.{cmd_motd}
use etcdircd.Tables.Store.{tables}
use etcdircd.Client.{Client, World}
use etcdircd.Client.Stm.{send_host_msg-IsReply}
use etcdircd.Client.Quiet.{IsQuiet}
use etcdircd.Client.Query.{Range}
use etcdircd.Client.Leases.{IsLeased}
use etcdircd.Client.Leases.Parts.{part_chan-IsLeased, kick_all-IsLeased}
use etcdircd.Client.Leases.Joins.{quit-IsLeased, join_chan-IsLeased}
use etcdircd.Client.Leases.Puts.{
  topic-IsLeased, mode-IsLeased, oper-IsLeased, away-IsLeased, priv_msg-IsLeased,
}
use etcdircd.Command.{
  Call, call_nothing, call_die, call_kick, call_away, call_whois, call_names, call_ping, call_quit,
  call_oper, call_part, call_priv_msg, call_who, call_join, call_mode, call_list, call_topic,
  call_send_host, client_do,
}
use etcdircd.Moves.Sends.{
  names_now-IsQuiet, who-IsQuiet, list_chans-IsQuiet, whois-IsQuiet, ping-IsQuiet, die-IsQuiet,
}
use etcdircd.Moves.Under.{IsUnder, Moves-IsUnder}
use etcdircd.Server.{Config}
use etcdircd.Server.Handshake.{motd}
use etcdircd.Server.Handshake.Laws.{motd-IsQuiet}
use etcdircd.Server.Calls.{Turn, with_error, join_one, join_all, run_call}
use etcdircd.Server.Calls.Laws.{
  IsSessionOf, AllStored, own_lease, join_one-Moves, join_one-AllStored,
}
use etcdircd.Server.Loop.{Incoming, incoming, broken, do_call, serve_one, handle}

module _ (e : Etcd) (range : Range e.View e.Blob) (ec : Client) (turn : Turn e.View) (lid : ℕ)
    (under : IsSessionOf lid turn) where
  with_error-IsLeased :
      (r : Result (Unit {0})) (m : Exec (World e.View) (Unit {0})) (w : World e.View)
      → IsLeased e w.db
      → IsLeased e (m w).1.db
      → IsLeased e (with_error r m w).1.db
  with_error-IsLeased (ok x) m w before then' = then'
  with_error-IsLeased (err x) m w before then' = then'
  with_error-IsLeased panic m w before then' = before

  join_one-IsLeased :
      (ch : Str) (w : World e.View)
      → IsUnder lid ec.nick (tables e w.db)
      → IsLeased e w.db
      → IsLeased e (join_one e range ec turn ch w).1.db
  unfolding join_one
  join_one-IsLeased ch w own h =
      join_chan-IsLeased e range ec ch turn.now (turn.first_read ch) (turn.second_read ch)
        (turn.third_read ch) (turn.session ch) (turn.fate ch) turn.ctx w
        (own_lease e range ec turn lid under ch (tables e w.db) own) h

  join_all-IsLeased :
      (chs : List Str) (w : World e.View)
      → IsUnder lid ec.nick (tables e w.db)
      → AllStored e w.db
      → IsLeased e w.db
      → IsLeased e (join_all e range ec turn chs w).1.db
  unfolding join_all
  join_all-IsLeased [] w own stored h = h
  join_all-IsLeased (ch ∷ chs) w own stored h =
      let out = join_one e range ec turn ch w in
      let first = join_one-IsLeased ch w own h in
      let moves = join_one-Moves e range ec turn lid under {opers = λ l. none} ch w own stored in
      with_error-IsLeased out.0 (join_all e range ec turn chs) out.1 first (
        join_all-IsLeased chs out.1 (Moves-IsUnder lid ec.nick moves own)
          (join_one-AllStored e range ec turn lid under ch w stored) first)

  quiet-IsLeased :
      (m : Exec (World e.View) (Unit {0})) (w : World e.View)
      → IsQuiet m
      → IsLeased e w.db
      → IsLeased e (m w).1.db
  quiet-IsLeased m w q h = subst (IsLeased e) (sym (q.keeps w)) h

  run_call-IsLeased :
      (c : Call) (w : World e.View)
      → IsUnder lid ec.nick (tables e w.db)
      → AllStored e w.db
      → IsLeased e w.db
      → IsLeased e (run_call e range ec turn c w).1.db
  unfolding run_call
  run_call-IsLeased call_nothing w own stored h = h
  run_call-IsLeased call_die w own stored h = quiet-IsLeased _ w (die-IsQuiet e range ec _) h
  run_call-IsLeased (call_kick ch nicks msg) w own stored h =
      kick_all-IsLeased e ec ch msg nicks turn.session turn.fate w h
  run_call-IsLeased (call_away msg) w own stored h = away-IsLeased e ec msg (turn.fate []) w h
  run_call-IsLeased (call_whois n) w own stored h =
      quiet-IsLeased _ w (whois-IsQuiet e range ec n _) h
  run_call-IsLeased (call_names ch) w own stored h =
      quiet-IsLeased _ w (names_now-IsQuiet e range ec ch _ _ _) h
  run_call-IsLeased (call_ping msg) w own stored h =
      quiet-IsLeased _ w (ping-IsQuiet e range ec msg _) h
  run_call-IsLeased (call_quit msg) w own stored h =
      quit-IsLeased e ec msg (turn.session []) (turn.fate []) w h
  run_call-IsLeased (call_oper login pass) w own stored h =
      oper-IsLeased e ec login pass (turn.fate []) w h
  run_call-IsLeased (call_part ch msg) w own stored h =
      part_chan-IsLeased e ec ch msg (turn.session ch) (turn.fate ch) w h
  run_call-IsLeased (call_priv_msg target msg) w own stored h =
      priv_msg-IsLeased e ec target msg (turn.fate target) w h
  run_call-IsLeased (call_who args) w own stored h =
      quiet-IsLeased _ w (who-IsQuiet e range ec args _ _ _) h
  run_call-IsLeased (call_join chs) w own stored h =
      join_all-IsLeased (turn.order chs) w own stored h
  run_call-IsLeased (call_mode args) w own stored h =
      mode-IsLeased e ec args turn.held (turn.fate []) w h
  run_call-IsLeased (call_list chs) w own stored h =
      quiet-IsLeased _ w (list_chans-IsQuiet e range ec chs _) h
  run_call-IsLeased (call_topic ch given) w own stored h =
      topic-IsLeased e ec ch given (turn.session ch) (turn.fate ch) w h
  run_call-IsLeased (call_send_host cmd params) w own stored h =
      subst (IsLeased e) (sym (send_host_msg-IsReply ec cmd params w)) h

  -- Whatever comes in, its handling keeps each record and each list of members under its lease.
  pub handle-IsLeased :
      (cfg : Config) (i : Incoming) (w : World e.View)
      → IsUnder lid ec.nick (tables e w.db)
      → AllStored e w.db
      → IsLeased e w.db
      → IsLeased e (handle e range cfg ec turn i w).1.db
  unfolding handle serve_one do_call ◌>>=◌
  handle-IsLeased cfg (broken x) w own stored h = h
  handle-IsLeased cfg (incoming msg) w own stored h = elim (Bool-cases (msg.command == cmd_motd)) [
    | inl asked ↦ rw asked (quiet-IsLeased (motd cfg ec.nick) w (motd-IsQuiet cfg ec.nick) h)
    | inr other ↦ rw other (go (client_do msg))
  ]
    where
      go : (r : Result Call) → IsLeased e (do_call cfg ec.nick (run_call e range ec turn) r w).1.db
      go (ok c) = run_call-IsLeased c w own stored h
      go (err x) = h
      go panic = h
