-- ===== src/Channel.antt =====
-- channel.go and oper.go: the records kept for a channel, for its members and for an operator.
use etcdircd.Prelude.{ℕ, Bool, List, Option, Str, map, find, delete_first, ◌==◌, str_eq}
use etcdircd.Mode.{ModeValue}

pub record ChannelCtl : Type 0 where
  pub name : Str
  pub topic : Str
  pub mode : ModeValue
  pub created : ℕ

pub record ChannelNick : Type 0 where
  pub nick : Str
  pub mode : ModeValue

-- `ChannelNicks`: the members of a channel on one server.
abbrev pub ChannelNicks : Type 0
ChannelNicks = List ChannelNick

unfoldable pub nicks : ChannelNicks → List Str
nicks cns = map (λ cn. cn.nick) cns

unfoldable pub find_nick : ChannelNicks → Str → Option ChannelNick
unfolding find
find_nick cns n = find (λ cn. cn.nick == n) cns

unfoldable pub del_nick : ChannelNicks → Str → ChannelNicks
unfolding delete_first
del_nick cns n = delete_first (λ cn. cn.nick == n) cns

-- oper.go
pub record OperValue : Type 0 where
  pub pass : Str
  pub is_global : Bool
