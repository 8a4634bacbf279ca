-- ===== src/Moves/Channels.antt =====
-- etcd_client.go: what `Topic` and `chanMode` do to the tables are moves of the client.
use etcdircd.Prelude.{
  ℕ, ◌≡◌, refl, ap, ◌∙◌, ◌⊎◌, inl, inr, false, Option, none, some, List, [], ◌∷◌, Str, lit, arith,
}
use etcdircd.Result.{Result, ok}
use etcdircd.Etcd.{Etcd}
use etcdircd.Mode.{has}
use etcdircd.Channel.{ChannelCtl}
use etcdircd.Tables.Store.{tables, tables-ctl}
use etcdircd.Reply.{err_nochanmodes, err_notonchannel, err_chanoprivsneeded, cmd_topic, cmd_mode}
use etcdircd.Client.{Client, World, Scope, Fate}
use etcdircd.Client.Stm.{session-keeps, transact-keeps, send_host_msg-IsReply, send_msg-IsReply}
use etcdircd.Client.Kick.Laws.{HasOps}
use etcdircd.Client.Topic.{TopicFlags, topic_tx, topic_reply, topic}
use etcdircd.Client.Topic.Laws.{topic_tx-Set}
use etcdircd.Client.Modes.{ChanModeFlags, chan_mode_tx, chan_mode_reply, chan_mode}
use etcdircd.Client.Modes.Chan.{chan_mode_tx-Ruled}
use etcdircd.Moves.{Opers, IsOperator, titled, moded, ruled, Moves, stay}
use etcdircd.Moves.Members.{one, nothing_done, HasOps-IsOperator}

module _ (e : Etcd) (ec : Client) (ch : Str) where
  pub topic_reply-IsReply :
      (given : Option Str) (fl : TopicFlags) (w : World e.View)
      → (topic_reply e ec ch given fl w).1.db ≡ w.db
  unfolding topic_reply
  topic_reply-IsReply none fl w = ground (
    arith,
    send_host_msg-IsReply ec err_nochanmodes (ch ∷ lit "Channel doesn't support modes" ∷ []) w,
    send_host_msg-IsReply ec err_notonchannel (ch ∷ lit "You're not on that channel" ∷ []) w,
    send_host_msg-IsReply ec err_chanoprivsneeded (ch ∷ lit "You're not channel operator" ∷ []) w,
    send_host_msg-IsReply ec cmd_topic (ch ∷ fl.topic ∷ []) w,
  )
  topic_reply-IsReply (some m) fl w = ground (
    arith,
    send_host_msg-IsReply ec err_nochanmodes (ch ∷ lit "Channel doesn't support modes" ∷ []) w,
    send_host_msg-IsReply ec err_notonchannel (ch ∷ lit "You're not on that channel" ∷ []) w,
    send_host_msg-IsReply ec err_chanoprivsneeded (ch ∷ lit "You're not channel operator" ∷ []) w,
  )

  topic_tx-Moves :
      {opers : Opers} (given : Option Str) (lid : ℕ) (fl : TopicFlags) (v : e.View)
      (s : Scope TopicFlags e.View)
      → topic_tx e ec lid ch given (record { flags = fl; view = v }) ≡ (ok tt, s)
      → Moves opers ec.nick (tables e v) (tables e s.view)
  topic_tx-Moves {opers} given lid fl v s run = elim (topic_tx-Set e ec lid ch given fl v s run) [
    | inl same ↦ nothing_done (ap (tables e) same)
    | inr c ↦ one (
        ruled ch c.channel (record (c.channel) { topic = c.topic }) (tables-ctl e v ch ∙ c.stored)
          (titled c.topic (may c.channel c.allowed) refl) c.after)
  ]
    where
      may :
          (c : ChannelCtl)
          → (has c.mode b't' ≡ false) ⊎ HasOps e ec lid ch v
          → (has c.mode b't' ≡ false) ⊎ IsOperator ec.nick ch (tables e v)
      may c (inl open') = inl open'
      may c (inr ops) = inr (HasOps-IsOperator e ec lid ch v ops)

  pub topic-Moves :
      {opers : Opers} (given : Option Str) (ses : Result ℕ) (fate : Fate e.View) (w : World e.View)
      → Moves opers ec.nick (tables e w.db) (tables e (topic e ec ch given ses fate w).1.db)
  unfolding topic
  topic-Moves {opers} given ses fate w =
      session-keeps e (Moves opers ec.nick (tables e w.db)) w stay ses
        (λ lid. topic_tx e ec lid ch given) _ fate (λ done. topic_reply e ec ch given done.0)
        (λ done. topic_reply-IsReply given done.0)
        (λ lid fl s got run. topic_tx-Moves given lid fl w.db s run)

  pub chan_mode_reply-IsReply :
      (fl : ChanModeFlags) (w : World e.View) → (chan_mode_reply e ec ch fl w).1.db ≡ w.db
  unfolding chan_mode_reply
  chan_mode_reply-IsReply fl w = ground (
    arith,
    send_host_msg-IsReply ec err_nochanmodes (ch ∷ lit "Channel doesn't support modes" ∷ []) w,
    send_host_msg-IsReply ec err_notonchannel (ch ∷ lit "You're not on that channel" ∷ []) w,
    send_host_msg-IsReply ec err_chanoprivsneeded (ch ∷ lit "You're not channel operator" ∷ []) w,
    send_msg-IsReply
        (record { prefix = some ec.host_pfx; command = cmd_mode; params = ch ∷ fl.mode ∷ [] }) w,
  )

  chan_mode_tx-Moves :
      {opers : Opers} (m : List Str) (lid : ℕ) (fl : ChanModeFlags) (v : e.View)
      (s : Scope ChanModeFlags e.View)
      → chan_mode_tx e ec lid ch m (record { flags = fl; view = v }) ≡ (ok tt, s)
      → Moves opers ec.nick (tables e v) (tables e s.view)
  chan_mode_tx-Moves {opers} m lid fl v s run = elim (chan_mode_tx-Ruled e ec lid ch m fl v s run) [
    | inl same ↦ nothing_done (ap (tables e) same)
    | inr c ↦ one (
        ruled ch c.channel _ (tables-ctl e v ch ∙ c.stored)
          (moded _ (HasOps-IsOperator e ec lid ch v c.allowed) refl) c.after)
  ]

  pub chan_mode-Moves :
      {opers : Opers} (m : List Str) (lid : ℕ) (fate : Fate e.View) (w : World e.View)
      → Moves opers ec.nick (tables e w.db) (tables e (chan_mode e ec ch m lid fate w).1.db)
  unfolding chan_mode
  chan_mode-Moves {opers} m lid fate w =
      transact-keeps e (Moves opers ec.nick (tables e w.db)) w stay (chan_mode_tx e ec lid ch m) _
        fate (λ done. chan_mode_reply e ec ch done.0) (λ done. chan_mode_reply-IsReply done.0)
        (λ fl s run. chan_mode_tx-Moves m lid fl w.db s run)
