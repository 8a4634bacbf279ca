-- ===== src/Server.antt =====
-- server.go and config.go: the configuration, the server, and the request of a connection.
pub mod Request
pub mod Register
pub mod Handshake
pub mod Calls
pub mod System
pub mod Loop
use etcdircd.Prelude.{ℕ, List, [], Str, lit}
use etcdircd.Etcd.{Prefix}

pub record Config : Type 0 where
  pub network_name : Str
  pub host_name : Str
  pub motd : Str
  pub max_channels : ℕ
  pub max_bans : ℕ
  pub nick_len : ℕ
  pub topic_len : ℕ
  pub pinned_user_modes : Str

-- `NewConfig`
abbrev pub new_config : Config
new_config = record {
  network_name = lit "friendNET";
  host_name = lit "hostname";
  motd = [];
  max_channels = 0;
  max_bans = 0;
  nick_len = 0;
  topic_len = 0;
  pinned_user_modes = [];
}

-- `s.hostPfx`, as `NewServer` sets it.
abbrev pub host_prefix : Config → Prefix
host_prefix cfg = record { name = cfg.host_name; user = []; host = [] }

-- `connectRequest`; the slice `user` is `nil` where the list is empty.
pub record ConnectRequest : Type 0 where
  pub nick : Str
  pub user : List Str
