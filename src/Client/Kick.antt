-- ===== src/Client/Kick.antt =====
-- etcd_client.go: `Kick` and `kick`.
pub mod Effect
pub mod Laws
use etcdircd.Client.{
  Client, World, Scope, Fate, send_host_msg, do_stm, stm_get, stm_rev, stm_put, set_flags,
}
use etcdircd.Prelude.{
  ℕ, Bool, true, false, not, ◌&&◌, Option, none, some, List, [], ◌∷◌, Str, lit, ◌==◌, nat_eq,
  str_eq, if◌then◌else◌,
}
use etcdircd.Result.{Result, decoded}
use etcdircd.Exec.{Exec, pure, lift, ◌>>=◌, ◌>>◌}
use etcdircd.Etcd.{Etcd, Message, no_option, ignore_lease}
use etcdircd.Mode.{ModeValue, has}
use etcdircd.User.{part}
use etcdircd.Channel.{ChannelNick, find_nick, del_nick}
use etcdircd.Key.{key_user_ctl, key_chan_nicks, key_chan_msg}
use etcdircd.Reply.{cmd_kick, err_notonchannel, err_usernotinchannel, err_chanoprivsneeded}

pub record KickFlags : Type 0 where
  pub not_op : Bool
  pub not_on_chan : Bool
  pub user_not_on_chan : Bool

abbrev pub kick_msg : Client → Str → Str → Str → Message
kick_msg ec ch nick msg = record {
  prefix = some ec.prefix;
  command = cmd_kick;
  params = ch ∷ nick ∷ msg ∷ [];
}

-- `!n.Mode.has('o') && !n.Mode.has('O')`
abbrev pub lacks_op : ModeValue → Bool
lacks_op m = not (has m b'o') && not (has m b'O')

module _ (e : Etcd) (ec : Client) where
  -- Each flag is written on its own.
  abbrev set_not_on_chan : Bool → Exec (Scope KickFlags e.View) Unit
  set_not_on_chan b s = set_flags e (record (s.flags) { not_on_chan = b }) s

  abbrev set_not_op : Bool → Exec (Scope KickFlags e.View) Unit
  set_not_op b s = set_flags e (record (s.flags) { not_op = b }) s

  abbrev set_user_not_on_chan : Bool → Exec (Scope KickFlags e.View) Unit
  set_user_not_on_chan b s = set_flags e (record (s.flags) { user_not_on_chan = b }) s

  -- From "Remove channel from user" to the end of the closure.
  unfoldable pub kick_target : Str → Str → Str → Exec (Scope KickFlags e.View) Unit
  unfolding ◌>>=◌
  kick_target ch nick msg = do
    r ← stm_rev e (key_user_ctl nick)
    set_user_not_on_chan (r == 0)
    if r == 0 then pure tt else do
      v ← stm_get e (key_user_ctl nick)
      uv ← lift (decoded (e.user_codec.decode v))
      set_user_not_on_chan (not (part uv ch).1)
      if not (part uv ch).1 then pure tt else do
        stm_put e (key_user_ctl nick) (e.user_codec.encode (part uv ch).0) ignore_lease
        users ← stm_get e (key_chan_nicks ch uv.lease)
        cn ← lift (decoded (e.nicks_codec.decode users))
        stm_put e (key_chan_nicks ch uv.lease) (e.nicks_codec.encode (del_nick cn nick))
            ignore_lease
        stm_put e (key_chan_msg ch) (e.msg_codec.encode (kick_msg ec ch nick msg)) no_option

  kick_checked : Str → Str → Str → Option ChannelNick → Exec (Scope KickFlags e.View) Unit
  unfolding ◌>>=◌ kick_target
  kick_checked ch nick msg none = set_not_on_chan true
  kick_checked ch nick msg (some n) = do
    set_not_on_chan false
    set_not_op (lacks_op n.mode)
    if lacks_op n.mode then pure tt else kick_target ch nick msg

  -- The closure of `kick`.
  unfoldable pub kick_tx : ℕ → Str → Str → Str → Exec (Scope KickFlags e.View) Unit
  unfolding ◌>>=◌ kick_checked
  kick_tx lid ch nick msg = do
    r ← stm_rev e (key_chan_nicks ch lid)
    set_not_on_chan (r == 0)
    if r == 0 then pure tt else do
      v ← stm_get e (key_chan_nicks ch lid)
      cns ← lift (decoded (e.nicks_codec.decode v))
      kick_checked ch nick msg (find_nick cns ec.nick)

  unfoldable pub kick_reply : Str → Str → KickFlags → Exec (World e.View) Unit
  kick_reply ch nick fl =
      if fl.not_on_chan
      then send_host_msg ec err_notonchannel (ch ∷ lit "You're not on that channel" ∷ [])
      else if fl.user_not_on_chan
      then send_host_msg ec err_usernotinchannel (nick ∷ ch ∷ lit "User not in channel" ∷ [])
      else if fl.not_op
      then send_host_msg ec err_chanoprivsneeded (ch ∷ lit "You're not channel operator" ∷ [])
      else pure tt

  unfoldable pub kick_one : Str → Str → Str → Result ℕ → Fate e.View → Exec (World e.View) Unit
  unfolding kick_tx kick_reply ◌>>=◌
  kick_one ch nick msg ses fate = do
    lid ← lift ses
    done ←
        do_stm e (kick_tx lid ch nick msg)
          (record { not_op = false; not_on_chan = false; user_not_on_chan = false }) fate
    kick_reply ch nick done.0

  -- `Kick`: each nick has a session call and a transaction of its own.
  unfoldable pub kick_all :
      Str → List Str → Str → (Str → Result ℕ) → (Str → Fate e.View) → Exec (World e.View) Unit
  unfolding kick_one ◌>>=◌
  kick_all ch [] msg ses fate = pure tt
  kick_all ch (n ∷ nicks) msg ses fate = do
    kick_one ch n msg (ses n) (fate n)
    kick_all ch nicks msg ses fate
