-- ===== src/Client/Part.antt =====
-- etcd_client.go: `Part`.
pub mod Effect
pub mod Laws
use etcdircd.Prelude.{ℕ, Bool, false, not, some, [], ◌∷◌, Str, lit, if◌then◌else◌}
use etcdircd.Result.{Result, decoded}
use etcdircd.Exec.{Exec, pure, lift, ◌>>=◌, ◌>>◌}
use etcdircd.Etcd.{Etcd, Message, no_option, ignore_lease}
use etcdircd.Reply.{cmd_part, err_notonchannel}
use etcdircd.User.{part}
use etcdircd.Channel.{del_nick}
use etcdircd.Key.{key_user_ctl, key_chan_nicks, key_chan_msg}
use etcdircd.Client.{Client, World, Scope, Fate, send_host_msg, do_stm, stm_get, stm_put, set_flags}

abbrev pub part_msg : Client → Str → Str → Message
part_msg ec ch msg = record { prefix = some ec.prefix; command = cmd_part; params = ch ∷ msg ∷ [] }

module _ (e : Etcd) (ec : Client) where
  -- The closure of `Part`; its flag is `onChannel`.
  unfoldable pub part_tx : ℕ → Str → Str → Exec (Scope Bool e.View) Unit
  unfolding ◌>>=◌
  part_tx lid ch msg = do
    v ← stm_get e (key_user_ctl ec.nick)
    uv ← lift (decoded (e.user_codec.decode v))
    set_flags e (part uv ch).1
    if not (part uv ch).1 then pure tt else do
      stm_put e (key_user_ctl ec.nick) (e.user_codec.encode (part uv ch).0) ignore_lease
      users ← stm_get e (key_chan_nicks ch lid)
      (if e.is_empty users then pure tt else do
        cn ← lift (decoded (e.nicks_codec.decode users))
        stm_put e (key_chan_nicks ch lid) (e.nicks_codec.encode (del_nick cn ec.nick)) ignore_lease)
      stm_put e (key_chan_msg ch) (e.msg_codec.encode (part_msg ec ch msg)) no_option

  unfoldable pub part_reply : Str → Bool → Exec (World e.View) Unit
  part_reply ch on_channel =
      if not on_channel
      then send_host_msg ec err_notonchannel (ch ∷ lit "You're not on that channel" ∷ [])
      else pure tt

  -- `Part`; `ses` is the result of `Session()`.
  unfoldable pub part_chan : Str → Str → Result ℕ → Fate e.View → Exec (World e.View) Unit
  unfolding part_tx part_reply ◌>>=◌
  part_chan ch msg ses fate = do
    lid ← lift ses
    done ← do_stm e (part_tx lid ch msg) false fate
    part_reply ch done.0
