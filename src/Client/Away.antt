-- ===== src/Client/Away.antt =====
-- etcd_client.go: `Away`.
use etcdircd.Client.{Client, World, Scope, Fate, send_host_msg, do_stm, stm_get, stm_put}
use etcdircd.Prelude.{[], ◌∷◌, Str, lit, nat_eq, str_eq, is_nil, if◌then◌else◌}
use etcdircd.Result.{decoded}
use etcdircd.Exec.{Exec, lift, ◌>>=◌}
use etcdircd.Etcd.{Etcd, ignore_lease}
use etcdircd.Mode.{add, del}
use etcdircd.User.{UserValue}
use etcdircd.Key.{key_user_ctl}
use etcdircd.Reply.{rpl_unaway, rpl_nowaway}

abbrev pub away_user : UserValue → Str → UserValue
away_user uv msg = record uv {
  mode = if is_nil msg then del uv.mode b'a' else add uv.mode b'a';
  away_msg = msg;
}

module _ (e : Etcd) (ec : Client) where
  -- The closure of `Away`, which captures no flag.
  unfoldable pub away_tx : Str → Exec (Scope (Unit {0}) e.View) Unit
  unfolding ◌>>=◌
  away_tx msg = do
    v ← stm_get e (key_user_ctl ec.nick)
    uv ← lift (decoded (e.user_codec.decode v))
    stm_put e (key_user_ctl ec.nick) (e.user_codec.encode (away_user uv msg)) ignore_lease

  unfoldable pub away : Str → Fate e.View → Exec (World e.View) Unit
  unfolding away_tx ◌>>=◌
  away msg fate = do
    done ← do_stm e (away_tx msg) tt fate
    if is_nil msg
        then send_host_msg ec rpl_unaway (lit "You are no longer marked as being away" ∷ [])
        else send_host_msg ec rpl_nowaway (lit "You have been marked as being away" ∷ [])
