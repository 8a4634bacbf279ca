-- ===== src/Server/Calls/Laws.antt =====
-- client.go and etcd_client.go: whatever a client asks for, the tables change by moves of the client.
use etcdircd.Prelude.{ℕ, ◌≡◌, ◌≢◌, sym, ap, ◌∙◌, List, [], ◌∷◌, Str, str_eq}
use etcdircd.Result.{Result, ok, err, panic}
use etcdircd.Exec.{Exec}
use etcdircd.Etcd.{Etcd}
use etcdircd.Tables.{Tables}
use etcdircd.Tables.Store.{tables}
use etcdircd.Client.{Client, World}
use etcdircd.Client.Stm.{send_host_msg-IsReply}
use etcdircd.Client.Quiet.{IsQuiet}
use etcdircd.Client.Query.{Range}
use etcdircd.Client.Part.Laws.{OwnLease}
use etcdircd.Command.{
  Call, call_nothing, call_die, call_kick, call_away, call_whois, call_names, call_ping, call_quit,
  call_oper, call_part, call_priv_msg, call_who, call_join, call_mode, call_list, call_topic,
  call_send_host,
}
use etcdircd.Moves.{Opers, Moves, stay}
use etcdircd.Client.Commit
use etcdircd.Client.Commit.{IsStored, session_step-IsStored}
use etcdircd.Client.Join.{join_tx, join_commit}
use etcdircd.Client.Names.{join_chan}
use etcdircd.Client.Names.Laws.{join_end-IsQuiet}
use etcdircd.Key.{key_chan_ctl}
use mathlib.Core.Path.{subst}
use etcdircd.Moves.Members.{
  nothing_done, Moves-trans, part_chan-Moves, kick_all-Moves, join_chan-Moves, quit-Moves,
}
use etcdircd.Moves.Under.{IsUnder, Moves-IsUnder}
use etcdircd.Moves.Channels.{topic-Moves}
use etcdircd.Moves.Users.{opers_in, mode-Moves, oper-Moves, away-Moves}
use etcdircd.Moves.Sends.{
  priv_msg-tables, names_now-IsQuiet, who-IsQuiet, list_chans-IsQuiet, whois-IsQuiet, ping-IsQuiet,
  die-IsQuiet,
}
use etcdircd.Server.Calls.{Turn, with_error, join_one, join_all, run_call}

-- The sessions of a turn that are given are those of the lease, and etcd's revisions are not 0.
pub record IsSessionOf (lid : ℕ) {V : Type 0} (turn : Turn V) : Type 0 where
  pub same : (s : Str) (l : ℕ) → turn.session s ≡ ok l → lid ≡ l
  pub later : (s : Str) (r : ℕ) → (turn.fate s).verdict ≡ ok r → r ≢ 0

-- The state of each channel has a revision in the store if it is there.
abbrev pub AllStored : (e : Etcd) → e.View → Type 0
AllStored e v = (ch : Str) → IsStored e (key_chan_ctl ch) v

module _ (e : Etcd) (range : Range e.View e.Blob) (ec : Client) (turn : Turn e.View) (lid : ℕ)
    (under : IsSessionOf lid turn) where
  pub own_lease : (s : Str) (t : Tables) → IsUnder lid ec.nick t → OwnLease ec (turn.session s) t
  own_lease s t h uv l given found = h.own uv found ∙ under.same s l given

  with_error-Moves :
      {opers : Opers} (t : Tables) (r : Result (Unit {0})) (m : Exec (World e.View) (Unit {0}))
      (w : World e.View)
      → Moves opers ec.nick t (tables e w.db)
      → Moves opers ec.nick t (tables e (m w).1.db)
      → Moves opers ec.nick t (tables e (with_error r m w).1.db)
  with_error-Moves t (ok x) m w before then' = then'
  with_error-Moves t (err x) m w before then' = then'
  with_error-Moves t panic m w before then' = before

  pub join_one-Moves :
      {opers : Opers} (ch : Str) (w : World e.View)
      → IsUnder lid ec.nick (tables e w.db)
      → AllStored e w.db
      → Moves opers ec.nick (tables e w.db) (tables e (join_one e range ec turn ch w).1.db)
  unfolding join_one
  join_one-Moves ch w h stored =
      join_chan-Moves e range ec ch turn.now (turn.first_read ch) (turn.second_read ch)
        (turn.third_read ch) (turn.session ch) (turn.fate ch) turn.ctx w
        (own_lease ch (tables e w.db) h) (stored ch)

  pub join_one-AllStored :
      (ch : Str) (w : World e.View)
      → AllStored e w.db
      → AllStored e (join_one e range ec turn ch w).1.db
  unfolding join_one join_chan join_commit
  join_one-AllStored ch w stored c =
      Commit.bind-keeps e (IsStored e (key_chan_ctl c))
        (join_commit e ec ch turn.now (turn.session ch) (turn.fate ch)) _ w
        (session_step-IsStored e (key_chan_ctl c) w (stored c) (turn.session ch)
          (λ lid. join_tx e ec lid ch turn.now) [] (turn.fate ch) (under.later ch))
        (λ done w' k.
          subst (IsStored e (key_chan_ctl c))
            (sym (
              (join_end-IsQuiet e range ec ch (turn.first_read ch) (turn.second_read ch)
                  (turn.third_read ch) done turn.ctx).keeps
                w'))
            k)

  join_all-Moves :
      {opers : Opers} (chs : List Str) (w : World e.View)
      → IsUnder lid ec.nick (tables e w.db)
      → AllStored e w.db
      → Moves opers ec.nick (tables e w.db) (tables e (join_all e range ec turn chs w).1.db)
  unfolding join_all
  join_all-Moves [] w h stored = stay
  join_all-Moves {opers} (ch ∷ chs) w h stored =
      let first = join_one-Moves {opers = opers} ch w h stored in
      let out = join_one e range ec turn ch w in
      with_error-Moves (tables e w.db) out.0 (join_all e range ec turn chs) out.1 first (
        Moves-trans first (
          join_all-Moves chs out.1 (Moves-IsUnder lid ec.nick first h)
            (join_one-AllStored ch w stored)))

  quiet :
      {opers : Opers} (m : Exec (World e.View) (Unit {0})) (w : World e.View)
      → IsQuiet m
      → Moves opers ec.nick (tables e w.db) (tables e (m w).1.db)
  quiet m w q = nothing_done (ap (tables e) (q.keeps w))

  -- Whatever call a message ends in, and however that call ends, it changes the tables by these moves of
  -- the client and by nothing else: it enters a channel, with the modes `O` and `o` if there was no such
  -- channel and with no mode else; it leaves a channel, or all of them as it quits; an operator of a
  -- channel puts another off it, sets its modes, or its topic, which anybody sets who may by the channel's
  -- modes; and the own record gets modes that users may give themselves, the mode of an operator record
  -- of the store, or an away message. This holds if the client's record, when there is one, is kept under
  -- the lease of the session that the handlers get, and each channel's state has a revision in the store.
  pub run_call-Moves :
      (c : Call) (w : World e.View)
      → IsUnder lid ec.nick (tables e w.db)
      → AllStored e w.db
      → Moves
          (opers_in e w.db)
          ec.nick
          (tables e w.db)
          (tables e (run_call e range ec turn c w).1.db)
  unfolding run_call
  run_call-Moves call_nothing w h stored = stay
  run_call-Moves call_die w h stored = quiet _ w (die-IsQuiet e range ec _)
  run_call-Moves (call_kick ch nicks msg) w h stored =
      kick_all-Moves e ec ch msg nicks turn.session turn.fate w
  run_call-Moves (call_away msg) w h stored = away-Moves e ec msg (turn.fate []) w
  run_call-Moves (call_whois n) w h stored = quiet _ w (whois-IsQuiet e range ec n _)
  run_call-Moves (call_names ch) w h stored = quiet _ w (names_now-IsQuiet e range ec ch _ _ _)
  run_call-Moves (call_ping msg) w h stored = quiet _ w (ping-IsQuiet e range ec msg _)
  run_call-Moves (call_quit msg) w h stored =
      quit-Moves e ec msg (turn.session []) (turn.fate []) w (own_lease [] (tables e w.db) h)
  run_call-Moves (call_oper login pass) w h stored = oper-Moves e ec login pass (turn.fate []) w
  run_call-Moves (call_part ch msg) w h stored =
      part_chan-Moves e ec ch msg (turn.session ch) (turn.fate ch) w
        (own_lease ch (tables e w.db) h)
  run_call-Moves (call_priv_msg target msg) w h stored =
      nothing_done (priv_msg-tables e ec target msg (turn.fate target) w)
  run_call-Moves (call_who args) w h stored = quiet _ w (who-IsQuiet e range ec args _ _ _)
  run_call-Moves (call_join chs) w h stored = join_all-Moves (turn.order chs) w h stored
  run_call-Moves (call_mode args) w h stored = mode-Moves e ec args turn.held (turn.fate []) w
  run_call-Moves (call_list chs) w h stored = quiet _ w (list_chans-IsQuiet e range ec chs _)
  run_call-Moves (call_topic ch given) w h stored =
      topic-Moves e ec ch given (turn.session ch) (turn.fate ch) w
  run_call-Moves (call_send_host cmd params) w h stored =
      nothing_done (ap (tables e) (send_host_msg-IsReply ec cmd params w))
