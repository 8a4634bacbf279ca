-- ===== src/Client/Join.antt =====
-- etcd_client.go: the transaction of `Join`. Names has what follows it.
pub mod Effect
pub mod Laws
use etcdircd.Prelude.{
  ℕ, Bool, Option, none, some, List, [], ◌∷◌, ◌++◌, Str, ◌==◌, nat_eq, if◌then◌else◌,
}
use etcdircd.Result.{Result, decoded}
use etcdircd.Exec.{Exec, lift, ◌>>=◌, ◌>>◌}
use etcdircd.Etcd.{Etcd, Message, no_option, with_lease}
use etcdircd.Mode.{add}
use etcdircd.User.{UserValue}
use etcdircd.Channel.{ChannelCtl, ChannelNick, ChannelNicks}
use etcdircd.Key.{key_user_ctl, key_chan_ctl, key_chan_nicks, key_chan_msg}
use etcdircd.Reply.{cmd_join}
use etcdircd.Client.{Client, World, Scope, Fate, do_stm, stm_get, stm_rev, stm_put, set_flags}

abbrev pub join_msg : Client → Str → Message
join_msg ec ch = record { prefix = some ec.prefix; command = cmd_join; params = ch ∷ [] }

-- A channel that is made at a time.
abbrev pub new_channel : Str → ℕ → ChannelCtl
new_channel ch now = record { name = ch; topic = []; mode = []; created = now }

-- The first user has ops and owner status.
abbrev pub new_member : UserValue → Bool → ChannelNick
new_member uv first = record { nick = uv.nick; mode = if first then add (add [] b'O') b'o' else [] }

module _ (e : Etcd) where
  abbrev pub found_channel : Str → ℕ → e.Blob → Option ChannelCtl
  found_channel ch now b = if e.is_empty b then some (new_channel ch now) else e.ctl_codec.decode b

  abbrev pub found_members : e.Blob → Option ChannelNicks
  found_members b = if e.is_empty b then some [] else e.nicks_codec.decode b

module _ (e : Etcd) (ec : Client) where
  -- The closure of `Join`, with the time that it reads; its flag is `topic`.
  unfoldable pub join_tx : ℕ → Str → ℕ → Exec (Scope Str e.View) Unit
  unfolding ◌>>=◌
  join_tx lid ch now = do
    v ← stm_get e (key_user_ctl ec.nick)
    uv ← lift (decoded (e.user_codec.decode v))
    stm_put e (key_user_ctl ec.nick)
        (e.user_codec.encode (record uv { channels = uv.channels ++ ch ∷ [] })) (with_lease lid)
    vc ← stm_get e (key_chan_ctl ch)
    chv ← lift (decoded (found_channel e ch now vc))
    set_flags e chv.topic
    stm_put e (key_chan_ctl ch) (e.ctl_codec.encode chv) no_option
    users ← stm_get e (key_chan_nicks ch lid)
    cns ← lift (decoded (found_members e users))
    r ← stm_rev e (key_chan_ctl ch)
    stm_put e (key_chan_nicks ch lid) (e.nicks_codec.encode (cns ++ new_member uv (r == 0) ∷ []))
        (with_lease lid)
    stm_put e (key_chan_msg ch) (e.msg_codec.encode (join_msg ec ch)) no_option

  -- `Join` up to the end of its transaction, which gives the topic and the revision.
  unfoldable pub join_commit : Str → ℕ → Result ℕ → Fate e.View → Exec (World e.View) (Str × ℕ)
  unfolding join_tx ◌>>=◌
  join_commit ch now ses fate = do lid ← lift ses; do_stm e (join_tx lid ch now) [] fate
