-- ===== src/Server/Loop/Laws.antt =====
-- server.go: what a connection does to the tables, among what the others do.
use etcdircd.Server.Handshake.Laws.{motd-IsQuiet}
use etcdircd.Prelude.{ℕ, ap, List, [], ◌∷◌, Str, ◌==◌, str_eq, Bool-cases, inl, inr}
use etcdircd.Result.{Result, ok, err, panic}
use etcdircd.Exec.{continue, ◌>>=◌}
use etcdircd.Etcd.{Etcd}
use etcdircd.Reply.{cmd_motd}
use etcdircd.Tables.{Tables}
use etcdircd.Tables.Store.{tables}
use etcdircd.Client.{Client, World}
use etcdircd.Client.Query.{Range}
use etcdircd.Command.{Call, client_do}
use etcdircd.Moves.Users.{opers_in}
use etcdircd.Moves.{Opers, Moves, stay, after}
use etcdircd.Moves.Members.{nothing_done}
use etcdircd.Moves.Sound.{IsSound}
use etcdircd.Moves.Changes.{Changes, rest, later, moved, Changes-IsSound}
use etcdircd.Moves.Under.{IsUnder}
use etcdircd.Server.{Config}
use etcdircd.Server.Calls.{Turn, run_call}
use etcdircd.Server.Calls.Laws.{IsSessionOf, AllStored, run_call-Moves}
use etcdircd.Server.Loop.{
  Incoming, incoming, broken, Meeting, with_store, do_call, serve_one, handle, serve,
}

pub Moves-Changes : {opers : Opers} {n : Str} {t t' : Tables} → Moves opers n t t' → Changes t t'
Moves-Changes stay = rest
Moves-Changes {opers} {n} (after ms m) = later (Moves-Changes ms) (moved opers n m)

pub Changes-trans : {t mid t' : Tables} → Changes t mid → Changes mid t' → Changes t t'
Changes-trans ss rest = ss
Changes-trans ss (later ts s) = later (Changes-trans ss ts) s

module _ (e : Etcd) (range : Range e.View e.Blob) (cfg : Config) (ec : Client) where
  -- Whatever comes in, its handling changes the tables by moves of the client, if the record of the
  -- client is kept under the lease of the session.
  pub handle-Moves :
      (lid : ℕ) (turn : Turn e.View) (i : Incoming) (w : World e.View)
      → IsSessionOf lid turn
      → IsUnder lid ec.nick (tables e w.db)
      → AllStored e w.db
      → Moves
          (opers_in e w.db)
          ec.nick
          (tables e w.db)
          (tables e (handle e range cfg ec turn i w).1.db)
  unfolding handle serve_one do_call ◌>>=◌
  handle-Moves lid turn (broken x) w under h stored = stay
  handle-Moves lid turn (incoming msg) w under h stored =
      elim (Bool-cases (msg.command == cmd_motd)) [
        | inl asked ↦ rw asked (nothing_done (ap (tables e) ((motd-IsQuiet cfg ec.nick).keeps w)))
        | inr other ↦ rw other (go (client_do msg))
      ]
    where
      go :
          (r : Result Call)
          → Moves
              (opers_in e w.db)
              ec.nick
              (tables e w.db)
              (tables e (do_call cfg ec.nick (run_call e range ec turn) r w).1.db)
      go (ok c) = run_call-Moves e range ec turn lid under c w h stored
      go (err x) = stay
      go panic = stay

  -- A round: the others have changed the tables by what anybody may do to them, registrations of the
  -- same nick and the end of leases among it; and in the store that this leaves, the record of the
  -- client, if there is one, is under the lease of the session that the handlers get, which may be
  -- another one than in the round before, and each channel's state has a revision if it is there.
  pub record IsFair (m : Meeting e.View) (w : World e.View) : Type 0 where
    pub changes : Changes (tables e w.db) (tables e (m.others w.db))
    pub lease : ℕ
    pub session : IsSessionOf lease m.turn
    pub under : IsUnder lease ec.nick (tables e (m.others w.db))
    pub stored : AllStored e (m.others w.db)

  abbrev pub round : Meeting e.View → World e.View → Result (Unit {0}) × World e.View
  round m w = handle e range cfg ec m.turn m.comes (with_store (m.others w.db) w)

  -- Rounds that are fair where the rounds before them lead.
  pub data AllFair : List (Meeting e.View) → World e.View → Type 0 where
    none_left : {w : World e.View} → AllFair [] w
    fair :
        {m : Meeting e.View} {ms : List (Meeting e.View)} {w : World e.View}
        → IsFair m w
        → AllFair ms (round m w).1
        → AllFair (m ∷ ms) w

  round-Changes :
      (m : Meeting e.View) (w : World e.View)
      → IsFair m w
      → Changes (tables e w.db) (tables e (round m w).1.db)
  round-Changes m w f = Changes-trans f.changes (
      Moves-Changes (
        handle-Moves f.lease m.turn m.comes (with_store (m.others w.db) w) f.session f.under
          f.stored))

  serve-Changes :
      (ms : List (Meeting e.View)) (w : World e.View)
      → AllFair ms w
      → Changes (tables e w.db) (tables e (serve e range cfg ec ms w).1.db)
  unfolding serve ◌>>=◌
  serve-Changes [] w none_left = rest
  serve-Changes (m ∷ ms) w (fair f fs) =
      go (λ w' gs. serve-Changes ms w' gs) (round m w) (round-Changes m w f) fs
    where
      go :
          ((w' : World e.View)
            → AllFair ms w'
            → Changes (tables e w'.db) (tables e (serve e range cfg ec ms w').1.db))
          → (out : Result (Unit {0}) × World e.View) → Changes (tables e w.db) (tables e out.1.db)
          → AllFair ms out.1
          → Changes
              (tables e w.db)
              (tables e (continue out.0 (λ x. serve e range cfg ec ms) out.1).1.db)
      go more (ok x, w') ss fs = Changes-trans ss (more w' fs)
      go more (err x, w') ss fs = ss
      go more (panic, w') ss fs = ss

  -- Whatever comes in on a connection, and whatever registrations, moves and ends of leases come in
  -- between, sound tables are sound when the loop ends or waits, if in each round the record of the
  -- client, when there is one, is kept under the lease of the session that the handlers get, and each
  -- channel's state has a revision in the store.
  pub serve-IsSound :
      (ms : List (Meeting e.View)) (w : World e.View)
      → AllFair ms w
      → IsSound (tables e w.db)
      → IsSound (tables e (serve e range cfg ec ms w).1.db)
  serve-IsSound ms w fs sound = Changes-IsSound (serve-Changes ms w fs) sound
