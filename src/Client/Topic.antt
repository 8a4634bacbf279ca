-- ===== src/Client/Topic.antt =====
-- etcd_client.go: `Topic`.
pub mod Laws
use etcdircd.Client.{
  Client, World, Scope, Fate, send_host_msg, do_stm, stm_get, stm_rev, stm_put, set_flags,
}
use etcdircd.Prelude.{
  ℕ, Bool, true, false, not, ◌&&◌, Option, none, some, [], ◌∷◌, Str, lit, ◌==◌, nat_eq, str_eq,
  if◌then◌else◌,
}
use etcdircd.Result.{Result, decoded}
use etcdircd.Exec.{Exec, pure, lift, ◌>>=◌, ◌>>◌}
use etcdircd.Etcd.{Etcd, Message, no_option}
use etcdircd.Mode.{has}
use etcdircd.Channel.{ChannelCtl, ChannelNick, find_nick}
use etcdircd.Key.{key_chan_ctl, key_chan_nicks, key_chan_msg}
use etcdircd.Reply.{cmd_topic, err_nochanmodes, err_notonchannel, err_chanoprivsneeded}

pub record TopicFlags : Type 0 where
  pub topic : Str
  pub no_chan : Bool
  pub not_on_chan : Bool
  pub not_op : Bool

abbrev pub topic_msg : Client → Str → Str → Message
topic_msg ec ch msg = record {
  prefix = some ec.prefix;
  command = cmd_topic;
  params = ch ∷ msg ∷ [];
}

module _ (e : Etcd) (ec : Client) where
  -- What the closure does once the topic may be set.
  unfoldable pub topic_write : Str → Str → ChannelCtl → Exec (Scope TopicFlags e.View) Unit
  unfolding ◌>>=◌
  topic_write ch msg chv = do
    stm_put e (key_chan_ctl ch) (e.ctl_codec.encode (record chv { topic = msg })) no_option
    stm_put e (key_chan_msg ch) (e.msg_codec.encode (topic_msg ec ch msg)) no_option

  topic_member : Str → Str → ChannelCtl → Option ChannelNick → Exec (Scope TopicFlags e.View) Unit
  unfolding ◌>>=◌ topic_write
  topic_member ch msg chv none s = set_flags e (record (s.flags) { not_on_chan = true }) s
  topic_member ch msg chv (some n) s =
      let lacks = not (has n.mode b'o') && not (has n.mode b'O') in
      let s' : Scope TopicFlags e.View = record s {
        flags = record (s.flags) { not_on_chan = false; not_op = lacks };
      } in
      if lacks then pure tt s' else topic_write ch msg chv s'

  topic_given : ℕ → Str → ChannelCtl → Option Str → Exec (Scope TopicFlags e.View) Unit
  unfolding ◌>>=◌ topic_member
  topic_given lid ch chv none s = set_flags e (record (s.flags) { topic = chv.topic }) s
  topic_given lid ch chv (some msg) s =
      let as_member = do
        v ← stm_get e (key_chan_nicks ch lid)
        cns ← lift (decoded (e.nicks_codec.decode v))
        topic_member ch msg chv (find_nick cns ec.nick)
      in (if has chv.mode b't' then as_member else topic_write ch msg chv) s

  -- The closure of `Topic`.
  unfoldable pub topic_tx : ℕ → Str → Option Str → Exec (Scope TopicFlags e.View) Unit
  unfolding ◌>>=◌ topic_given
  topic_tx lid ch msg = do
    r ← stm_rev e (key_chan_ctl ch)
    (λ s. set_flags e (record (s.flags) { no_chan = r == 0 }) s)
    if r == 0 then pure tt else do
      v ← stm_get e (key_chan_ctl ch)
      chv ← lift (decoded (e.ctl_codec.decode v))
      topic_given lid ch chv msg

  unfoldable pub topic_reply : Str → Option Str → TopicFlags → Exec (World e.View) Unit
  topic_reply ch msg fl =
      if fl.no_chan
      then send_host_msg ec err_nochanmodes (ch ∷ lit "Channel doesn't support modes" ∷ [])
      else if fl.not_on_chan
      then send_host_msg ec err_notonchannel (ch ∷ lit "You're not on that channel" ∷ [])
      else if fl.not_op
      then send_host_msg ec err_chanoprivsneeded (ch ∷ lit "You're not channel operator" ∷ [])
      else (elim msg [ none ↦ send_host_msg ec cmd_topic (ch ∷ fl.topic ∷ []) | some m ↦ pure tt ])

  unfoldable pub topic : Str → Option Str → Result ℕ → Fate e.View → Exec (World e.View) Unit
  unfolding topic_tx topic_reply ◌>>=◌
  topic ch msg ses fate = do
    lid ← lift ses
    done ←
        do_stm e (topic_tx lid ch msg)
          (record { topic = []; no_chan = false; not_on_chan = false; not_op = false }) fate
    topic_reply ch msg done.0
