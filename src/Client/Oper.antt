-- ===== src/Client/Oper.antt =====
-- etcd_client.go: `Oper`.
pub mod Laws
use etcdircd.Client.{Client, World, Scope, Fate, send_host_msg, do_stm, stm_get, stm_put, set_flags}
use etcdircd.Prelude.{
  ℕ, Bool, true, false, not, [], ◌∷◌, Str, lit, ◌==◌, nat_eq, str_eq, if◌then◌else◌,
}
use etcdircd.Result.{decoded}
use etcdircd.Exec.{Exec, pure, lift, ◌>>=◌, ◌>>◌}
use etcdircd.Etcd.{Etcd, ignore_lease}
use etcdircd.Mode.{add}
use etcdircd.Channel.{OperValue}
use etcdircd.Key.{key_user_ctl, key_oper_ctl}
use etcdircd.Reply.{err_passwdmismatch, rpl_youreoper}

-- `o` for a local operator, `O` for a global one.
abbrev pub granted : OperValue → ℕ
granted ov = if ov.is_global then b'O' else b'o'

module _ (e : Etcd) (ec : Client) where
  -- The closure of `Oper`; its flag is `loggedIn`, which it only ever sets.
  unfoldable pub oper_tx : Str → Str → Exec (Scope Bool e.View) Unit
  unfolding ◌>>=◌
  oper_tx login pass = do
    v ← stm_get e (key_user_ctl ec.nick)
    uv ← lift (decoded (e.user_codec.decode v))
    vo ← stm_get e (key_oper_ctl login)
    if e.is_empty vo then pure tt else do
      ov ← lift (decoded (e.oper_codec.decode vo))
      if not (ov.pass == pass) then pure tt else do
        set_flags e true
        stm_put e (key_user_ctl ec.nick)
            (e.user_codec.encode (record uv { mode = add uv.mode (granted ov) })) ignore_lease

  unfoldable pub oper_reply : Bool → Exec (World e.View) Unit
  oper_reply logged_in =
      if not logged_in
      then send_host_msg ec err_passwdmismatch (lit "Password incorrect" ∷ [])
      else send_host_msg ec rpl_youreoper (lit "You are now an IRC operator" ∷ [])

  unfoldable pub oper : Str → Str → Fate e.View → Exec (World e.View) Unit
  unfolding oper_tx oper_reply ◌>>=◌
  oper login pass fate = do done ← do_stm e (oper_tx login pass) false fate; oper_reply done.0
