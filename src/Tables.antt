-- ===== src/Tables.antt =====
-- What the handlers keep in etcd, without keys and encodings: the record of each user, the state of
-- each channel, and the members of each channel on each server, which is named by its lease.
pub mod Store
pub mod Consistent
use etcdircd.Prelude.{
  ℕ, Bool, ◌&&◌, Option, none, some, List, [], ◌∷◌, Str, ◌==◌, nat_eq, str_eq, ◌++◌, if◌then◌else◌,
}
use etcdircd.User.{UserValue, part}
use etcdircd.Channel.{ChannelCtl, ChannelNick, ChannelNicks, del_nick}

pub record Tables : Type 0 where
  pub user : Str → Option UserValue
  pub ctl : Str → Option ChannelCtl
  pub members : Str → ℕ → ChannelNicks

abbrev pub set_user : Str → Option UserValue → Tables → Tables
set_user n uv t = record t { user = λ m. if n == m then uv else t.user m }

abbrev pub set_ctl : Str → ChannelCtl → Tables → Tables
set_ctl c v t = record t { ctl = λ d. if c == d then some v else t.ctl d }

abbrev pub set_members : Str → ℕ → ChannelNicks → Tables → Tables
set_members c id cns t = record t {
  members = λ d id'. if c == d && id == id' then cns else t.members d id';
}

-- A user leaves a channel, on the server with the lease.
abbrev pub leave : Str → UserValue → Str → ℕ → Tables → Tables
leave n uv ch id t =
    set_members ch id (del_nick (t.members ch id) n) (set_user n (some (part uv ch).0) t)

-- A user enters a channel, on the server with the lease, as a member.
abbrev pub enter : Str → UserValue → Str → ℕ → ChannelCtl → ChannelNick → Tables → Tables
enter n uv ch id c cn t =
    set_members ch id (t.members ch id ++ cn ∷ [])
      (set_ctl ch c (set_user n (some (record uv { channels = uv.channels ++ ch ∷ [] })) t))
