-- ===== src/Server/Register.antt =====
-- etcd_client.go: `newEtcdClient`.
pub mod Laws
pub mod Joins
pub mod Changes
use etcdircd.Prelude.{
  ℕ, ◌+◌, Option, none, some, List, [], ◌∷◌, Str, lit, ◌==◌, nat_eq, if◌then◌else◌,
}
use etcdircd.Result.{Result, ok, err, panic, must}
use etcdircd.Exec.{Exec, pure, lift, ◌>>=◌}
use etcdircd.Etcd.{Etcd, with_lease}
use etcdircd.User.{UserValue}
use etcdircd.Key.{key_user_ctl, key_user_msg}
use etcdircd.Client.{Client, World}
use etcdircd.Client.Names.{second}
use etcdircd.Server.{Config, ConnectRequest, host_prefix}

-- A connected client, and the revision from which it watches its messages.
pub record Connected : Type 0 where
  pub client : Client
  pub watch_from : ℕ

abbrev pub new_user : Config → ConnectRequest → ℕ → ℕ → UserValue
new_user cfg cr now lid = record {
  nick = cr.nick;
  user = cr.user;
  server_name = [];
  mode = cfg.pinned_user_modes;
  host = [];
  real_name = [];
  created = now;
  channels = [];
  away_msg = [];
  lease = lid;
}

module _ (e : Etcd) where
  -- The two puts of the transaction.
  abbrev pub with_user : UserValue → ℕ → e.View → e.View
  with_user uv lid v =
      e.put (key_user_msg uv.nick) e.empty (with_lease lid)
        (e.put (key_user_ctl uv.nick) (e.user_codec.encode uv) (with_lease lid) v)

  -- `Txn(If(Version(k) = 0).Then(…)).Commit()`: whether it succeeded, and the revision in the header.
  -- A key has version 0 when it is not in the store. A transaction that ends in an error is one that
  -- etcd has not run.
  unfoldable pub claim_nick : UserValue → ℕ → Result ℕ → Exec (World e.View) (Option ℕ)
  claim_nick uv lid (ok r) w =
      if e.rev w.db (key_user_ctl uv.nick) == 0
      then (ok (some r), record w { db = e.commit r (with_user uv lid w.db) })
      else (ok none, w)
  claim_nick uv lid (err x) w = (err x, w)
  claim_nick uv lid panic w = (panic, w)

  -- `newEtcdClient` once it has answered: with `uv.User[1]` the prefix is set.
  abbrev pub connected : Config → ConnectRequest → Option ℕ → Exec (World e.View) (Option Connected)
  connected cfg cr none = pure none
  connected cfg cr (some r) = do
    user ← lift (must (second cr.user))
    pure (
        some (record {
          client = record {
            nick = cr.nick;
            prefix = record { name = cr.nick; user = user; host = lit "host" };
            host_pfx = host_prefix cfg;
          };
          watch_from = r + 1;
        }))

  -- `none` where the nick is in use.
  unfoldable pub new_etcd_client :
      Config → ConnectRequest → ℕ → Result ℕ → Result ℕ → Exec (World e.View) (Option Connected)
  unfolding claim_nick ◌>>=◌
  new_etcd_client cfg cr now ses verdict = do
    lid ← lift ses
    done ← claim_nick (new_user cfg cr now lid) lid verdict
    connected cfg cr done
