-- ===== src/Client/Quit.antt =====
-- etcd_client.go: `Quit`.
pub mod Laws
pub mod Lists
use etcdircd.Client.{Client, World, Scope, Fate, do_stm, stm_get, stm_put, stm_del}
use etcdircd.Prelude.{ℕ, some, List, [], ◌∷◌, Str, nat_eq, str_eq, if◌then◌else◌}
use etcdircd.Result.{Result, decoded}
use etcdircd.Exec.{Exec, pure, lift, ◌>>=◌, ◌>>◌}
use etcdircd.Etcd.{Etcd, Message, no_option, ignore_lease}
use etcdircd.Channel.{del_nick}
use etcdircd.Key.{key_user_ctl, key_user_msg, key_chan_nicks, key_chan_msg}
use etcdircd.Reply.{cmd_quit}

abbrev pub quit_msg : Client → Str → Message
quit_msg ec msg = record { prefix = some ec.prefix; command = cmd_quit; params = msg ∷ [] }

module _ (e : Etcd) (ec : Client) where
  -- The loop over the channels of the user.
  unfoldable pub quit_channels : ℕ → Str → List Str → Exec (Scope (Unit {0}) e.View) Unit
  unfolding ◌>>=◌
  quit_channels lid msg [] = pure tt
  quit_channels lid msg (ch ∷ chs) = do
    users ← stm_get e (key_chan_nicks ch lid)
    (if e.is_empty users then pure tt else do
      cns ← lift (decoded (e.nicks_codec.decode users))
      stm_put e (key_chan_nicks ch lid) (e.nicks_codec.encode (del_nick cns ec.nick)) ignore_lease
      stm_put e (key_chan_msg ch) (e.msg_codec.encode (quit_msg ec msg)) no_option)
    quit_channels lid msg chs

  -- The closure of `Quit`, which calls `Session()` itself.
  unfoldable pub quit_tx : Result ℕ → Str → Exec (Scope (Unit {0}) e.View) Unit
  unfolding ◌>>=◌ quit_channels
  quit_tx ses msg = do
    v ← stm_get e (key_user_ctl ec.nick)
    uv ← lift (decoded (e.user_codec.decode v))
    lid ← lift ses
    quit_channels lid msg uv.channels
    stm_del e (key_user_ctl ec.nick)
    stm_del e (key_user_msg ec.nick)

  unfoldable pub quit : Str → Result ℕ → Fate e.View → Exec (World e.View) Unit
  unfolding quit_tx ◌>>=◌
  quit msg ses fate = do done ← do_stm e (quit_tx ses msg) tt fate; pure tt
