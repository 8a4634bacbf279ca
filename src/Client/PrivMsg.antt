-- ===== src/Client/PrivMsg.antt =====
-- etcd_client.go: `PrivMsg`, `privMsgUser` and `privMsgChan`.
pub mod Chan
pub mod Direct
use etcdircd.Client.{
  Client, World, Scope, Fate, send_host_msg, do_stm, stm_get, stm_rev, stm_put, set_flags,
}
use etcdircd.Prelude.{
  Bool, true, false, not, ◌&&◌, ◌||◌, Option, none, some, [], ◌∷◌, Str, lit, take, ◌==◌, nat_eq,
  str_eq, if◌then◌else◌,
}
use etcdircd.Result.{decoded}
use etcdircd.Exec.{Exec, pure, lift, ◌>>=◌, ◌>>◌}
use etcdircd.Etcd.{Etcd, Message, ignore_lease}
use etcdircd.Mode.{has}
use etcdircd.User.{UserValue}
use etcdircd.Channel.{ChannelNick, find_nick}
use etcdircd.Key.{key_user_ctl, key_user_msg, key_chan_ctl, key_chan_nicks, key_chan_msg, is_chan}
use etcdircd.Reply.{cmd_privmsg, rpl_away, err_nosuchnick, err_notexttosend, err_cannotsendtochan}

pub record UserFlags : Type 0 where
  pub no_nick : Bool
  pub bad_otr : Bool

pub record ChanFlags : Type 0 where
  pub no_nick : Bool
  pub no_send : Bool

abbrev pub privmsg_msg : Client → Str → Str → Message
privmsg_msg ec target msg = record {
  prefix = some ec.prefix;
  command = cmd_privmsg;
  params = target ∷ msg ∷ [];
}

abbrev pub away_notice : Client → Str → Str → Message
away_notice ec target away = record {
  prefix = some ec.prefix;
  command = rpl_away;
  params = ec.nick ∷ target ∷ away ∷ [];
}

-- `strings.HasPrefix(msg, "?OTR")`
unfoldable pub is_otr_msg : Str → Bool
is_otr_msg msg = take 4 msg == lit "?OTR"

module _ (e : Etcd) (ec : Client) where
  -- `badOtr` is assigned as far as the two tests are evaluated.
  user_send : Str → Str → UserValue → UserValue → Exec (Scope UserFlags e.View) Unit
  unfolding ◌>>=◌ is_otr_msg
  user_send target msg uv uv_target s =
      let bad = has uv.mode b'E' || has uv_target.mode b'E' in
      let to_user =
        stm_put e (key_user_msg target) (e.msg_codec.encode (privmsg_msg ec target msg))
          ignore_lease in
      if is_otr_msg msg
      then to_user s
      else let s' : Scope UserFlags e.View = record s {
        flags = record (s.flags) { bad_otr = bad };
      } in
        if bad then pure tt s' else to_user s'

  -- The closure of `privMsgUser`.
  unfoldable pub user_tx : Str → Str → Exec (Scope UserFlags e.View) Unit
  unfolding ◌>>=◌ user_send
  user_tx target msg = do
    r ← stm_rev e (key_user_ctl target)
    (λ s. set_flags e (record (s.flags) { no_nick = r == 0 }) s)
    if r == 0 then pure tt else do
      v ← stm_get e (key_user_ctl ec.nick)
      uv ← lift (decoded (e.user_codec.decode v))
      vt ← stm_get e (key_user_ctl target)
      uv_target ← lift (decoded (e.user_codec.decode vt))
      if has uv_target.mode b'a'
          then stm_put e (key_user_msg ec.nick)
              (e.msg_codec.encode (away_notice ec target uv_target.away_msg)) ignore_lease
          else user_send target msg uv uv_target

  unfoldable pub user_reply : Str → UserFlags → Exec (World e.View) Unit
  user_reply target fl =
      if fl.no_nick
      then send_host_msg ec err_nosuchnick (target ∷ lit "No such nick/channel" ∷ [])
      else if fl.bad_otr
      then send_host_msg ec err_notexttosend (target ∷ lit "No text to send" ∷ [])
      else pure tt

  unfoldable pub priv_msg_user : Str → Str → Fate e.View → Exec (World e.View) Unit
  unfolding user_tx user_reply ◌>>=◌
  priv_msg_user target msg fate = do
    done ← do_stm e (user_tx target msg) (record { no_nick = false; bad_otr = false }) fate
    user_reply target done.0

  chan_post : Str → Str → Exec (Scope ChanFlags e.View) Unit
  chan_post ch msg =
      stm_put e (key_chan_msg ch) (e.msg_codec.encode (privmsg_msg ec ch msg)) ignore_lease

  chan_member : Str → Str → Option ChannelNick → Exec (Scope ChanFlags e.View) Unit
  unfolding chan_post
  chan_member ch msg none s = set_flags e (record (s.flags) { no_nick = true }) s
  chan_member ch msg (some n) s =
      let mute = not (has n.mode b'o') && not (has n.mode b'O') && not (has n.mode b'v') in
      let s' : Scope ChanFlags e.View = record s {
        flags = record (s.flags) { no_nick = false; no_send = mute };
      } in
      if mute then pure tt s' else chan_post ch msg s'

  -- The closure of `privMsgChan`.
  unfoldable pub chan_tx : Str → Str → Exec (Scope ChanFlags e.View) Unit
  unfolding ◌>>=◌ chan_member
  chan_tx ch msg = do
    r ← stm_rev e (key_chan_ctl ch)
    (λ s. set_flags e (record (s.flags) { no_nick = r == 0 }) s)
    if r == 0 then pure tt else do
      v ← stm_get e (key_user_ctl ec.nick)
      uv ← lift (decoded (e.user_codec.decode v))
      vc ← stm_get e (key_chan_ctl ch)
      ctl ← lift (decoded (e.ctl_codec.decode vc))
      if has ctl.mode b'm'
          then (do
            vn ← stm_get e (key_chan_nicks ch uv.lease)
            cns ← lift (decoded (e.nicks_codec.decode vn))
            chan_member ch msg (find_nick cns ec.nick))
          else chan_post ch msg

  unfoldable pub chan_reply : Str → ChanFlags → Exec (World e.View) Unit
  chan_reply ch fl =
      if fl.no_nick
      then send_host_msg ec err_nosuchnick (ch ∷ lit "No such nick/channel" ∷ [])
      else if fl.no_send
      then send_host_msg ec err_cannotsendtochan (ch ∷ lit "Cannot send to channel" ∷ [])
      else pure tt

  unfoldable pub priv_msg_chan : Str → Str → Fate e.View → Exec (World e.View) Unit
  unfolding chan_tx chan_reply ◌>>=◌
  priv_msg_chan ch msg fate = do
    done ← do_stm e (chan_tx ch msg) (record { no_nick = false; no_send = false }) fate
    chan_reply ch done.0

  unfoldable pub priv_msg : Str → Str → Fate e.View → Exec (World e.View) Unit
  unfolding priv_msg_user priv_msg_chan
  priv_msg target msg fate =
      if is_chan target then priv_msg_chan target msg fate else priv_msg_user target msg fate
