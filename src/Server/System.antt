-- ===== src/Server/System.antt =====
-- The servers on one etcd: connections are opened, meet messages and are closed, in any order, and
-- leases end. A connection is its client. A JOIN or a KICK of several names is a step here; its
-- transactions are those of messages of one name each.
pub mod Safe
use etcdircd.Prelude.{
  ℕ, ◌≡◌, ◌≢◌, Bool, true, Option, none, some, List, [], ◌∷◌, Str, ◌==◌, nat_eq, if◌then◌else◌,
}
use etcdircd.Result.{Result, ok, err, panic}
use etcdircd.Etcd.{Etcd}
use etcdircd.Client.{Client, World}
use etcdircd.Client.Query.{Range}
use etcdircd.Client.Leases.Expiry.{HasExpired}
use etcdircd.Server.{Config, ConnectRequest}
use etcdircd.Server.Register.{Connected, new_etcd_client}
use etcdircd.Server.Calls.{Turn}
use etcdircd.Server.Loop.{Incoming, handle, with_store}

pub record System (V : Type 0) : Type 0 where
  pub store : V
  pub live : List Client

pub data Among (x : Client) : List Client → Type 0 where
  first : {xs : List Client} → Among x (x ∷ xs)
  next : {y : Client} {xs : List Client} → Among x xs → Among x (y ∷ xs)

-- The connections without one of them.
pub data Without : List Client → List Client → Type 0 where
  drop_first : {x : Client} {xs : List Client} → Without (x ∷ xs) xs
  drop_next : {x : Client} {xs ys : List Client} → Without xs ys → Without (x ∷ xs) (x ∷ ys)

-- A connection lives on once `newEtcdClient` has made its client.
abbrev pub add_live : Result (Option Connected) → List Client → List Client
add_live (ok (some c)) live = c.client ∷ live
add_live other live = live

module _ (e : Etcd) (range : Range e.View e.Blob) where
  -- The servers may be configured differently. Any nick may be asked for at any time, also that of an
  -- open connection, and `Session()` may answer anything at each call; `w` is the connection, whose
  -- writer may refuse messages.
  pub data SystemStep (s : System e.View) : System e.View → Type 0 where
    opened :
        (cfg : Config) (cr : ConnectRequest) (now : ℕ) (ses verdict : Result ℕ) (w : World e.View)
        → SystemStep s (record {
          store = (new_etcd_client e cfg cr now ses verdict (with_store s.store w)).1.db;
          live =
              add_live (new_etcd_client e cfg cr now ses verdict (with_store s.store w)).0 s.live;
        })
    met :
        (cfg : Config) (client : Client) (turn : Turn e.View) (i : Incoming) (w : World e.View)
        → Among client s.live
        → SystemStep s (record {
          store = (handle e range cfg client turn i (with_store s.store w)).1.db;
          live = s.live;
        })
    closed :
        {live : List Client}
        → Without s.live live
        → SystemStep s (record { store = s.store; live = live })
    lease_ended :
        {v : e.View} (id : ℕ)
        → HasExpired e id s.store v
        → SystemStep s (record { store = v; live = s.live })

  pub data Reach (s : System e.View) : System e.View → Type 0 where
    start : Reach s s
    and_then : {mid s' : System e.View} → Reach s mid → SystemStep mid s' → Reach s s'
