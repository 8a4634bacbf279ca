-- ===== src/Reply.antt =====
-- The commands and numerics of gopkg.in/sorcix/irc.v2 that the handlers use.
use etcdircd.Prelude.{Str, lit}

abbrev pub cmd_kick : Str
cmd_kick = lit "KICK"

abbrev pub cmd_die : Str
cmd_die = lit "DIE"

abbrev pub cmd_away : Str
cmd_away = lit "AWAY"

abbrev pub cmd_oper : Str
cmd_oper = lit "OPER"

abbrev pub cmd_cap : Str
cmd_cap = lit "CAP"

abbrev pub cmd_whois : Str
cmd_whois = lit "WHOIS"

abbrev pub cmd_who : Str
cmd_who = lit "WHO"

abbrev pub cmd_join : Str
cmd_join = lit "JOIN"

abbrev pub cmd_mode : Str
cmd_mode = lit "MODE"

abbrev pub cmd_list : Str
cmd_list = lit "LIST"

abbrev pub cmd_names : Str
cmd_names = lit "NAMES"

abbrev pub cmd_ping : Str
cmd_ping = lit "PING"

abbrev pub cmd_part : Str
cmd_part = lit "PART"

abbrev pub cmd_quit : Str
cmd_quit = lit "QUIT"

abbrev pub cmd_privmsg : Str
cmd_privmsg = lit "PRIVMSG"

abbrev pub cmd_topic : Str
cmd_topic = lit "TOPIC"

abbrev pub rpl_away : Str
rpl_away = lit "301"

abbrev pub rpl_unaway : Str
rpl_unaway = lit "305"

abbrev pub rpl_nowaway : Str
rpl_nowaway = lit "306"

abbrev pub rpl_youreoper : Str
rpl_youreoper = lit "381"

abbrev pub rpl_umodeis : Str
rpl_umodeis = lit "221"

abbrev pub err_nosuchnick : Str
err_nosuchnick = lit "401"

abbrev pub err_nosuchchannel : Str
err_nosuchchannel = lit "403"

abbrev pub err_cannotsendtochan : Str
err_cannotsendtochan = lit "404"

abbrev pub err_notexttosend : Str
err_notexttosend = lit "412"

abbrev pub err_usernotinchannel : Str
err_usernotinchannel = lit "441"

abbrev pub err_notonchannel : Str
err_notonchannel = lit "442"

abbrev pub err_needmoreparams : Str
err_needmoreparams = lit "461"

abbrev pub err_passwdmismatch : Str
err_passwdmismatch = lit "464"

abbrev pub err_badchanmask : Str
err_badchanmask = lit "476"

abbrev pub err_nochanmodes : Str
err_nochanmodes = lit "477"

abbrev pub err_chanoprivsneeded : Str
err_chanoprivsneeded = lit "482"

abbrev pub err_umodeunknownflag : Str
err_umodeunknownflag = lit "501"

abbrev pub err_usersdontmatch : Str
err_usersdontmatch = lit "502"

abbrev pub cmd_pong : Str
cmd_pong = lit "PONG"

abbrev pub cmd_error : Str
cmd_error = lit "ERROR"

abbrev pub rpl_whoisuser : Str
rpl_whoisuser = lit "311"

abbrev pub rpl_endofwho : Str
rpl_endofwho = lit "315"

abbrev pub rpl_endofwhois : Str
rpl_endofwhois = lit "318"

abbrev pub rpl_whoischannels : Str
rpl_whoischannels = lit "319"

abbrev pub rpl_list : Str
rpl_list = lit "322"

abbrev pub rpl_listend : Str
rpl_listend = lit "323"

abbrev pub rpl_notopic : Str
rpl_notopic = lit "331"

abbrev pub rpl_topic : Str
rpl_topic = lit "332"

abbrev pub rpl_whoreply : Str
rpl_whoreply = lit "352"

abbrev pub rpl_namreply : Str
rpl_namreply = lit "353"

abbrev pub rpl_endofnames : Str
rpl_endofnames = lit "366"

abbrev pub err_noprivileges : Str
err_noprivileges = lit "481"

abbrev pub cmd_nick : Str
cmd_nick = lit "NICK"

abbrev pub cmd_user : Str
cmd_user = lit "USER"

abbrev pub rpl_welcome : Str
rpl_welcome = lit "001"

abbrev pub rpl_yourhost : Str
rpl_yourhost = lit "002"

abbrev pub rpl_created : Str
rpl_created = lit "003"

abbrev pub rpl_myinfo : Str
rpl_myinfo = lit "004"

abbrev pub rpl_motd : Str
rpl_motd = lit "372"

abbrev pub rpl_motdstart : Str
rpl_motdstart = lit "375"

abbrev pub rpl_endofmotd : Str
rpl_endofmotd = lit "376"

abbrev pub err_nomotd : Str
err_nomotd = lit "422"

abbrev pub err_nicknameinuse : Str
err_nicknameinuse = lit "433"

abbrev pub cmd_notice : Str
cmd_notice = lit "NOTICE"

abbrev pub cmd_motd : Str
cmd_motd = lit "MOTD"
