-- ===== src/Server/Request.antt =====
-- server.go: `readConnRequest`.
pub mod Laws
use etcdircd.Prelude.{
  Bool, true, false, not, ◌&&◌, ◌||◌, Option, none, some, List, [], ◌∷◌, Str, lit, ◌==◌, str_eq,
  is_nil, if◌then◌else◌,
}
use etcdircd.Result.{Result, ok, must, ◌>>=◌}
use etcdircd.Etcd.{Message}
use etcdircd.Reply.{cmd_cap, cmd_nick, cmd_user}
use etcdircd.Server.{ConnectRequest}

-- The request so far, and whether a `CAP LS` has been read.
pub record Reading : Type 0 where
  pub request : ConnectRequest
  pub got_cap : Bool

abbrev pub no_request : Reading
no_request = record { request = record { nick = []; user = [] }; got_cap = false }

abbrev pub first_param : List Str → Option Str
first_param [] = none
first_param (p ∷ ps) = some p

-- The `switch` on a message; `msg.Params[0]` is an index out of range without parameters. Go does not
-- read the parameters of a `CAP` once there has been a `CAP LS`.
unfoldable pub take_in : Reading → Message → Result Reading
take_in rd msg =
    if msg.command == cmd_cap
    then (if rd.got_cap
        then ok rd
        else (do p ← must (first_param msg.params); ok (record rd { got_cap = p == lit "LS" })))
    else if msg.command == cmd_nick
    then (do
      p ← must (first_param msg.params)
      ok (record rd { request = record { nick = p; user = rd.request.user } }))
    else if msg.command == cmd_user
    then ok (record rd { request = record { nick = rd.request.nick; user = msg.params } })
    else ok rd

-- `cr.nick != "" && cr.user != nil`
abbrev pub is_complete : ConnectRequest → Bool
is_complete cr = not (is_nil cr.nick) && not (is_nil cr.user)

abbrev pub cap_reply : ConnectRequest → Message
cap_reply cr = record {
  prefix = none;
  command = lit ":servname CAP";
  params = cr.nick ∷ lit "LS" ∷ lit "[]" ∷ [];
}

-- A request that has been read: what is written to the connection, and the messages that are left.
pub record Accepted : Type 0 where
  pub request : ConnectRequest
  pub written : List Message
  pub left : List Message

abbrev pub accepted : Reading → List Message → Accepted
accepted rd left = record {
  request = rd.request;
  written = if rd.got_cap then cap_reply rd.request ∷ [] else [];
  left = left;
}

-- `readConnRequest` on the messages that come in. The reader's channel is never closed, so without a
-- complete request the loop still waits for a message when there is none left: `none`.
unfoldable pub read_conn_request : Reading → List Message → Result (Option Accepted)
unfolding take_in
read_conn_request rd [] = ok none
read_conn_request rd (msg ∷ msgs) = do
  rd' ← take_in rd msg
  let rest = read_conn_request rd' msgs
  if is_complete rd'.request then ok (some (accepted rd' msgs)) else rest
