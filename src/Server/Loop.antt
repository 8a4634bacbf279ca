-- ===== src/Server/Loop.antt =====
-- server.go: the loop of `handleConn`.
pub mod Laws
use etcdircd.Prelude.{List, [], ◌∷◌, Str, ◌==◌, str_eq, if◌then◌else◌}
use etcdircd.Result.{Result, Error}
use etcdircd.Exec.{Exec, pure, fail, lift, ◌>>=◌, ◌>>◌}
use etcdircd.Etcd.{Etcd, Message}
use etcdircd.Reply.{cmd_motd}
use etcdircd.Client.{Client, World}
use etcdircd.Client.Query.{Range}
use etcdircd.Command.{Call, client_do}
use etcdircd.Server.{Config}
use etcdircd.Server.Calls.{Turn, run_call}
use etcdircd.Server.Handshake.{motd}

-- What the `select` of the loop meets: a message, the error of the connection, or that of the server's
-- context.
pub data Incoming : Type 0 where
  incoming : Message → Incoming
  broken : Error → Incoming

-- A round of the loop: what the others have made of the store since the last one, what comes in, and
-- what its handling meets.
pub record Meeting (V : Type 0) : Type 0 where
  pub others : V → V
  pub comes : Incoming
  pub turn : Turn V

abbrev pub with_store : {V : Type 0} → V → World V → World V
with_store v w = record w { db = v }

module _ {V : Type 0} (cfg : Config) (nick : Str) (call : Call → Exec (World V) (Unit {0})) where
  -- `ClientDo`; `call` are the methods of the client.
  unfoldable pub do_call : Result Call → Exec (World V) Unit
  unfolding ◌>>=◌
  do_call r = do c ← lift r; call c

  unfoldable pub serve_one : Incoming → Exec (World V) Unit
  unfolding do_call
  serve_one (broken x) = fail x
  serve_one (incoming msg) =
      if msg.command == cmd_motd then motd cfg nick else do_call (client_do msg)

module _ (e : Etcd) (range : Range e.View e.Blob) (cfg : Config) (ec : Client) where
  -- The handling of what comes in.
  unfoldable pub handle : Turn e.View → Incoming → Exec (World e.View) Unit
  unfolding serve_one run_call
  handle turn i = serve_one cfg ec.nick (run_call e range ec turn) i

  -- The loop, which ends with the first error; it still waits after what it has met without one.
  unfoldable pub serve : List (Meeting e.View) → Exec (World e.View) Unit
  unfolding handle ◌>>=◌
  serve [] = pure tt
  serve (m ∷ ms) = do (λ w. handle m.turn m.comes (with_store (m.others w.db) w)); serve ms
