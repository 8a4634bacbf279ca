-- ===== src/Server/Handshake.antt =====
-- server.go: `handshake` and `motd`.
pub mod Laws
use etcdircd.Prelude.{
  ℕ, Option, none, some, List, [], ◌∷◌, ◌++◌, Str, lit, ◌==◌, str_eq, is_nil, if◌then◌else◌,
}
use etcdircd.Result.{Result, ok, must, bad_handshake, canceled}
use etcdircd.Exec.{Exec, pure, lift, fail, ◌>>=◌, ◌>>◌}
use etcdircd.Etcd.{Etcd, Message, Prefix}
use etcdircd.Reply.{
  cmd_cap, cmd_nick, cmd_ping, rpl_welcome, rpl_yourhost, rpl_created, rpl_myinfo, rpl_motd,
  rpl_motdstart, rpl_endofmotd, err_nomotd, err_nicknameinuse,
}
use etcdircd.Client.{World, send_msg}
use etcdircd.Client.Names.{dropping_error, second}
use etcdircd.Server.{Config, ConnectRequest, host_prefix}
use etcdircd.Server.Request.{first_param}
use etcdircd.Server.Register.{Connected, new_etcd_client}

-- One round of the loop: the store that the registration finds, the session and the end of its
-- transaction, and the message that is read next, none where the context of the server is done.
pub record Round (V : Type 0) : Type 0 where
  pub store : V
  pub session : Result ℕ
  pub verdict : Result ℕ
  pub next : Option Message

abbrev pub of_host : Config → Str → List Str → Message
of_host cfg cmd params = record { prefix = some (host_prefix cfg); command = cmd; params = params }

abbrev pub of_net : Config → Str → List Str → Message
of_net cfg cmd params = record {
  prefix = some (record { name = cfg.network_name; user = []; host = [] });
  command = cmd;
  params = params;
}

abbrev pub version : Str
version = lit "etcdircd-0.0.0"

module _ {V : Type 0} where
  -- `cli.SendMsg(…)` whose error is not read.
  abbrev pub tell : Message → Exec (World V) Unit
  tell msg w = dropping_error (send_msg msg w)

  -- `motd`
  unfoldable pub motd : Config → Str → Exec (World V) Unit
  unfolding ◌>>=◌
  motd cfg nick =
      if is_nil cfg.motd
      then send_msg (of_host cfg err_nomotd (nick ∷ lit "MOTD file is missing" ∷ []))
      else (do
        tell (
            of_host cfg rpl_motdstart
              (nick ∷ (lit "- " ++ cfg.host_name ++ lit " Message of the day - ") ∷ []))
        tell (of_host cfg rpl_motd (nick ∷ cfg.motd ∷ []))
        send_msg (of_host cfg rpl_endofmotd (nick ∷ lit "End of MOTD command" ∷ [])))

  -- The messages to a client that is registered; `date` is the formatted time of the server's start.
  unfoldable pub greet : Config → Str → ConnectRequest → Exec (World V) Unit
  unfolding ◌>>=◌ motd
  greet cfg date cr = do
    user ← lift (must (second cr.user))
    tell (
        of_net cfg rpl_welcome (
          cr.nick
          ∷ (lit "Welcome to an Internet Relay Network "
              ++ cr.nick
              ++ lit "!"
              ++ user
              ++ lit "@masked")
          ∷ []))
    tell (
        of_net cfg rpl_yourhost (
          cr.nick
          ∷ (lit "Your host is " ++ cfg.host_name ++ lit ", running version " ++ version)
          ∷ []))
    tell (of_net cfg rpl_created (cr.nick ∷ (lit "This server was created " ++ date) ∷ []))
    tell (
        of_net cfg rpl_myinfo
          (cr.nick ∷ (cfg.network_name ++ lit " " ++ version ++ lit " iE iE") ∷ []))
    (if is_nil cfg.motd then pure tt else (λ w. dropping_error (motd cfg cr.nick w)))
    tell (record { prefix = none; command = cmd_ping; params = lit "hello" ∷ [] })

-- The message after an answer that the nick is in use: the request for the next round.
unfoldable pub retry : ConnectRequest → Option Message → Result ConnectRequest
retry cr none = Result.err canceled
retry cr (some msg) =
    if msg.command == cmd_cap
    then ok cr
    else if msg.command == cmd_nick
    then etcdircd.Result.and_then (must (first_param msg.params))
        (λ p. ok (record { nick = p; user = cr.user }))
    else Result.err bad_handshake

module _ (e : Etcd) (cfg : Config) (now : ℕ) where
  -- The end of a round: a client, or another round for the next request.
  unfoldable pub end_round :
      ConnectRequest
      → Option Message
      → (ConnectRequest → Exec (World e.View) (Option (ConnectRequest × Connected)))
      → Option Connected
      → Exec (World e.View) (Option (ConnectRequest × Connected))
  unfolding retry ◌>>=◌
  end_round cr next more (some c) = pure (some (cr, c))
  end_round cr next more none = do
    tell (of_host cfg err_nicknameinuse (cr.nick ∷ []))
    cr' ← lift (retry cr next)
    more cr'

  -- The loop, which ends with a registered client or an error; it still waits after the rounds where
  -- it ends with none.
  unfoldable pub register :
      ConnectRequest
      → List (Round e.View)
      → Exec (World e.View) (Option (ConnectRequest × Connected))
  unfolding new_etcd_client end_round ◌>>=◌
  register cr [] w = (ok none, w)
  register cr (rd ∷ rds) w =
      let more = λ (cr' : ConnectRequest). register cr' rds in
      (do made ← new_etcd_client e cfg cr now rd.session rd.verdict; end_round cr rd.next more made)
        (record w { db = rd.store })

  -- What follows the loop; `ctx` is `s.cli.Ctx().Err()`.
  unfoldable pub welcome :
      Str
      → Result (Unit {0})
      → Option (ConnectRequest × Connected)
      → Exec (World e.View) (Option Connected)
  unfolding greet ◌>>=◌
  welcome date ctx none = pure none
  welcome date ctx (some r) = do greet cfg date r.0; lift ctx; pure (some r.1)

  -- `handshake`
  unfoldable pub handshake :
      Str
      → Result (Unit {0})
      → ConnectRequest
      → List (Round e.View)
      → Exec (World e.View) (Option Connected)
  unfolding register welcome ◌>>=◌
  handshake date ctx cr rds = do done ← register cr rds; welcome date ctx done
