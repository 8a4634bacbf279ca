-- ===== src/Examples/Servers.antt =====
-- server.go: a connection is opened.
use etcdircd.Prelude.{
  ℕ, ◌≡◌, refl, sym, ◌∙◌, Bool, true, ◌==◌, str_eq, nat_eq, ◌&&◌, Option, none, some, List, [], ◌∷◌,
  Str, lit, str_beq, any, Bool-cases, inl, inr,
}
use etcdircd.Result.{Result, ok}
use etcdircd.Etcd.{Message}
use etcdircd.Key.{key_user_ctl, key_user_msg, key_chan_nicks, key_chan_ctl}
use etcdircd.Tables.Store.{tables}
use etcdircd.Tables.Consistent.{times_in}
use etcdircd.Client.{World}
use etcdircd.Server.{ConnectRequest, new_config}
use etcdircd.Server.Request.{Accepted, no_request, read_conn_request}
use etcdircd.Server.Request.Laws.{is_nick, is_user, all_usable, read_conn_request_answers}
use etcdircd.Server.Register.{Connected, new_etcd_client}
use etcdircd.Server.Register.Laws.{Unlisted, client_for, signed_up}
use etcdircd.Server.Handshake.{Round, handshake}
use etcdircd.Server.Handshake.Laws.{IsRegistered, handshake-IsRegistered}
use etcdircd.Sample.{Memory, sample, harbour, ann, sea, crew, world_of}
use etcdircd.Examples.Stored.{listed}

abbrev eve : Str
eve = lit "eve"

abbrev said : Str → List Str → Message
said cmd params = record { prefix = none; command = cmd; params = params }

abbrev opening : List Message
opening =
    said (lit "CAP") (lit "LS" ∷ [])
    ∷ said (lit "USER") (eve ∷ eve ∷ lit "host" ∷ [])
    ∷ said (lit "PING") []
    ∷ said (lit "NICK") (eve ∷ [])
    ∷ []

opening_usable : all_usable opening ≡ true
unfolding lit str_beq
opening_usable = refl

opening_nick : any is_nick opening ≡ true
unfolding any lit str_beq
opening_nick = refl

opening_user : any is_user opening ≡ true
unfolding any lit str_beq
opening_user = refl

read_conn_request_answers_example :
    (acc : Accepted) × (read_conn_request no_request opening ≡ ok (some acc))
read_conn_request_answers_example =
    read_conn_request_answers opening opening_usable opening_nick opening_user

abbrev request_of : Str → ConnectRequest
request_of n = record { nick = n; user = eve ∷ eve ∷ lit "host" ∷ [] }

abbrev eve_joined : Connected
eve_joined = client_for sample new_config (request_of eve) 0 (world_of harbour) eve 9

abbrev eve_world : World Memory
eve_world = signed_up sample new_config (request_of eve) 0 (world_of harbour) 7 9

eve_runs :
    new_etcd_client sample new_config (request_of eve) 0 (ok 7) (ok 9) (world_of harbour)
    ≡ (ok (some eve_joined), eve_world)
unfolding new_etcd_client str_beq key_user_msg key_user_ctl key_chan_nicks key_chan_ctl lit
    etcdircd.Server.Register.claim_nick etcdircd.Exec.◌>>=◌
eve_runs = refl

eve_not_in_crew : times_in eve crew ≡ 0
unfolding lit str_beq etcdircd.Prelude.count_if
eve_not_in_crew = refl

Unlisted-eve : Unlisted eve (ok 7) listed
unfolding tables etcdircd.Prelude.count_if
Unlisted-eve ch lid h = elim (Bool-cases (sea == ch && 7 == lid)) [
  | inl here ↦ rw here eve_not_in_crew
  | inr there ↦ rw there
]

-- The first nick is in use.
abbrev rounds : List (Round Memory)
rounds =
    (record {
      store = harbour;
      session = ok 7;
      verdict = ok 9;
      next = some (said (lit "NICK") (eve ∷ []));
    })
    ∷ (record { store = harbour; session = ok 7; verdict = ok 9; next = none })
    ∷ []

abbrev greeted : Result (Option Connected) × World Memory
greeted =
    handshake sample new_config 0 (lit "now") (ok tt) (request_of ann) rounds (world_of harbour)

handshake_runs : greeted ≡ (ok (some eve_joined), greeted.1)
unfolding handshake new_etcd_client str_beq key_user_msg key_user_ctl key_chan_nicks key_chan_ctl
    lit etcdircd.Server.Register.claim_nick etcdircd.Exec.◌>>=◌ etcdircd.Client.send_msg
handshake_runs = refl

handshake-IsRegistered_example :
    IsRegistered sample new_config 0 (eve ∷ eve ∷ lit "host" ∷ []) eve_joined greeted.1.db
handshake-IsRegistered_example =
    handshake-IsRegistered sample new_config 0 (lit "now") (ok tt) (request_of ann) rounds
      (world_of harbour) greeted.1 eve_joined handshake_runs
