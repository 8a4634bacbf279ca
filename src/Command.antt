-- ===== src/Command.antt =====
-- client.go: `ClientDo`, which checks a message and calls the handler of its command.
pub mod Laws
use etcdircd.Prelude.{
  ℕ, Bool, true, false, not, Option, none, some, List, [], ◌∷◌, Str, lit, find, ◌==◌, str_eq,
  if◌then◌else◌, is_nil,
}
use etcdircd.Result.{Result, ok, panic}
use etcdircd.Text.{split}
use etcdircd.Etcd.{Message}
use etcdircd.Key.{is_chan}
use etcdircd.Reply.{
  cmd_kick, cmd_die, cmd_away, cmd_oper, cmd_cap, cmd_whois, cmd_who, cmd_join, cmd_mode, cmd_list,
  cmd_names, cmd_ping, cmd_part, cmd_quit, cmd_privmsg, cmd_topic, err_needmoreparams,
  err_badchanmask, err_nosuchchannel, err_nosuchnick,
}

-- The commands of the switch.
pub data Command : Type 0 where
  do_kick do_die do_away do_oper do_cap do_whois do_who do_join do_mode : Command
  do_list do_names do_ping do_part do_quit do_privmsg do_topic : Command

-- The call that a message ends in: a method of `Client`, or nothing. The joins of one message run
-- concurrently, each on its own channel.
pub data Call : Type 0 where
  call_nothing call_die : Call
  call_kick : Str → List Str → Str → Call
  call_away call_whois call_names call_ping call_quit : Str → Call
  call_oper call_part call_priv_msg : Str → Str → Call
  call_who call_join call_mode call_list : List Str → Call
  call_topic : Str → Option Str → Call
  call_send_host : Str → List Str → Call

abbrev pub need_more_params : Call
need_more_params = call_send_host err_needmoreparams (lit "Need more parameters" ∷ [])

abbrev pub bad_chan_mask : Str → Call
bad_chan_mask ch = call_send_host err_badchanmask (ch ∷ lit "Bad Channel Mask" ∷ [])

abbrev pub no_such_channel : Str → Call
no_such_channel ch = call_send_host err_nosuchchannel (ch ∷ lit "No such channel" ∷ [])

abbrev pub no_such_nick : Str → Call
no_such_nick n = call_send_host err_nosuchnick (n ∷ lit "No such nick/channel" ∷ [])

-- The names of the commands, in the order of the switch.
abbrev pub commands : List (Str × Command)
commands =
    (cmd_kick, do_kick)
    ∷ (cmd_die, do_die)
    ∷ (cmd_away, do_away)
    ∷ (cmd_oper, do_oper)
    ∷ (cmd_cap, do_cap)
    ∷ (cmd_whois, do_whois)
    ∷ (cmd_who, do_who)
    ∷ (cmd_join, do_join)
    ∷ (cmd_mode, do_mode)
    ∷ (cmd_list, do_list)
    ∷ (cmd_names, do_names)
    ∷ (cmd_ping, do_ping)
    ∷ (cmd_part, do_part)
    ∷ (cmd_quit, do_quit)
    ∷ (cmd_privmsg, do_privmsg)
    ∷ (cmd_topic, do_topic)
    ∷ []

lookup : Str → List (Str × Command) → Option Command
lookup s [] = none
lookup s ((name, c) ∷ rest) = let later = lookup s rest in if name == s then some c else later

abbrev first_or_empty : List Str → Str
first_or_empty [] = []
first_or_empty (p ∷ ps) = p

abbrev first : List Str → Option Str
first [] = none
first (p ∷ ps) = some p

abbrev join_checked : List Str → Option Str → Call
join_checked chs none = call_join chs
join_checked chs (some ch) = no_such_channel ch

-- The case of a command; a parameter that is read out of range is a panic.
unfoldable pub dispatch : Command → List Str → Result Call
unfolding find
dispatch do_kick (ch ∷ nicks ∷ rest) =
    if not (is_chan ch)
    then ok (bad_chan_mask ch)
    else ok (call_kick ch (split b',' nicks) (first_or_empty rest))
dispatch do_kick _ = ok need_more_params
dispatch do_die _ = ok call_die
dispatch do_away [] = ok (call_away [])
dispatch do_away (msg ∷ rest) = ok (call_away (if is_nil msg then lit "User is away" else msg))
dispatch do_oper (login ∷ pass ∷ rest) = ok (call_oper login pass)
dispatch do_oper _ = ok need_more_params
dispatch do_cap _ = ok call_nothing
dispatch do_whois [] = ok (call_whois [])
dispatch do_whois (n ∷ rest) = if is_chan n then ok (no_such_nick n) else ok (call_whois n)
dispatch do_who args = ok (call_who args)
dispatch do_join [] = ok need_more_params
dispatch do_join (chs ∷ rest) =
    ok (join_checked (split b',' chs) (find (λ ch. not (is_chan ch)) (split b',' chs)))
dispatch do_mode [] = ok need_more_params
dispatch do_mode (target ∷ m) = ok (call_mode (target ∷ m))
dispatch do_list [] = ok (call_list [])
dispatch do_list (chs ∷ rest) = ok (call_list (split b',' chs))
dispatch do_names [] = panic
dispatch do_names (ch ∷ rest) = ok (call_names ch)
dispatch do_ping [] = panic
dispatch do_ping (msg ∷ rest) = ok (call_ping msg)
dispatch do_part [] = ok need_more_params
dispatch do_part (ch ∷ rest) =
    if not (is_chan ch) then ok (no_such_channel ch) else ok (call_part ch (first_or_empty rest))
dispatch do_quit [] = panic
dispatch do_quit (msg ∷ rest) = ok (call_quit msg)
dispatch do_privmsg (target ∷ msg ∷ rest) = ok (call_priv_msg target msg)
dispatch do_privmsg _ = panic
dispatch do_topic [] = ok need_more_params
dispatch do_topic (ch ∷ rest) =
    if not (is_chan ch) then ok (bad_chan_mask ch) else ok (call_topic ch (first rest))

abbrev known_command : Option Command → List Str → Result Call
known_command none ps = ok call_nothing
known_command (some c) ps = dispatch c ps

-- `ClientDo`, up to the call.
unfoldable pub client_do : Message → Result Call
unfolding dispatch lookup
client_do msg = known_command (lookup msg.command commands) msg.params
