-- ===== src/Client/Kick/Laws.antt =====
-- etcd_client.go: who may kick, and that a kick keeps the tables in agreement.
use etcdircd.Prelude.{
  ℕ, ◌≡◌, refl, sym, ◌∙◌, ◌⊎◌, inl, inr, true, false, none, some, List, [], ◌∷◌, Str, ◌==◌, nat_eq,
  arith, Bool-cases, Option-cases, lit,
}
use etcdircd.Result.{Result, ok, err, decode_failed}
use etcdircd.Exec.{◌>>=◌}
use etcdircd.Etcd.{Etcd}
use etcdircd.User.{UserValue}
use etcdircd.Channel.{ChannelNick, ChannelNicks, find_nick}
use etcdircd.Key.{key_chan_nicks}
use etcdircd.Tables.{leave}
use etcdircd.Tables.Store.{tables}
use etcdircd.Tables.Consistent.{IsConsistent, leave-IsConsistent}
use etcdircd.Reply.{err_notonchannel, err_usernotinchannel, err_chanoprivsneeded}
use etcdircd.Client.{Client, World, Scope, Fate}
use etcdircd.Client.Stm.{transfer, not_failed, send_host_msg-IsReply, session-keeps, bind-keeps}
use etcdircd.Client.Kick.{
  KickFlags, kick_target, kick_checked, kick_tx, kick_reply, kick_one, kick_all, lacks_op,
}
use etcdircd.Client.Kick.Effect.{kick_target-tables}

-- The client is listed on the channel, by its server, with one of the operator modes.
pub record HasOps (e : Etcd) (ec : Client) (lid : ℕ) (ch : Str) (v : e.View) : Type 0 where
  pub listed : ChannelNicks
  pub member : ChannelNick
  pub stored : e.nicks_codec.decode (e.get v (key_chan_nicks ch lid)) ≡ some listed
  pub found : find_nick listed ec.nick ≡ some member
  pub ops : lacks_op member.mode ≡ false

-- The target has left the channel, in its record and in the list of its server.
pub record Kicked (e : Etcd) (ch nick : Str) (v v' : e.View) : Type 0 where
  pub target : UserValue
  pub before : (tables e v).user nick ≡ some target
  pub after : tables e v' ≡ leave nick target ch target.lease (tables e v)

module _ (e : Etcd) (ec : Client) (lid : ℕ) (ch nick msg : Str) (fl : KickFlags) (v : e.View) where
  abbrev pub at_start : Scope KickFlags e.View
  at_start = record { flags = fl; view = v }

  pub kick_tx_absent :
      (e.rev v (key_chan_nicks ch lid) == 0) ≡ true
      → kick_tx e ec lid ch nick msg at_start
        ≡ (ok tt, record { flags = record fl { not_on_chan = true }; view = v })
  unfolding kick_tx ◌>>=◌
  kick_tx_absent gone = rw gone

  pub kick_tx_garbled :
      (e.rev v (key_chan_nicks ch lid) == 0) ≡ false
      → e.nicks_codec.decode (e.get v (key_chan_nicks ch lid)) ≡ none
      → (kick_tx e ec lid ch nick msg at_start).0 ≡ err decode_failed
  unfolding kick_tx ◌>>=◌
  kick_tx_garbled here bad = rw (here, bad)

  kick_tx_checked :
      (cns : ChannelNicks)
      → (e.rev v (key_chan_nicks ch lid) == 0) ≡ false
      → e.nicks_codec.decode (e.get v (key_chan_nicks ch lid)) ≡ some cns
      → kick_tx e ec lid ch nick msg at_start
        ≡ kick_checked e ec ch nick msg
            (find_nick cns ec.nick)
            (record { flags = record fl { not_on_chan = false }; view = v })
  unfolding kick_tx ◌>>=◌
  kick_tx_checked cns here hn = rw (here, hn)

  -- What the test of the client's own membership decides.
  module _ (cns : ChannelNicks) (here : (e.rev v (key_chan_nicks ch lid) == 0) ≡ false)
      (hn : e.nicks_codec.decode (e.get v (key_chan_nicks ch lid)) ≡ some cns) where
    pub kick_tx_missing :
        find_nick cns ec.nick ≡ none
        → kick_tx e ec lid ch nick msg at_start
          ≡ (ok tt, record { flags = record fl { not_on_chan = true }; view = v })
    unfolding kick_tx kick_checked ◌>>=◌
    kick_tx_missing missing = rw (here, hn, missing)

    pub kick_tx_not_op :
        (n : ChannelNick)
        → find_nick cns ec.nick ≡ some n
        → lacks_op n.mode ≡ true
        → kick_tx e ec lid ch nick msg at_start
          ≡ (ok tt, record { flags = record fl { not_on_chan = false; not_op = true }; view = v })
    unfolding kick_tx kick_checked ◌>>=◌
    kick_tx_not_op n found no_op = rw (here, hn, found, no_op)

    pub kick_tx_op :
        (n : ChannelNick)
        → find_nick cns ec.nick ≡ some n
        → lacks_op n.mode ≡ false
        → kick_tx e ec lid ch nick msg at_start
          ≡ kick_target e ec ch nick msg
              (record { flags = record fl { not_on_chan = false; not_op = false }; view = v })
    unfolding kick_tx kick_checked ◌>>=◌
    kick_tx_op n found op = rw (here, hn, found, op)

  abbrev KickOut : Scope KickFlags e.View → Type 0
  KickOut s = (s.view ≡ v) ⊎ (HasOps e ec lid ch v × Kicked e ch nick v s.view)

  -- A closure of `kick` that succeeds has left the store as it was, or the client is an operator of
  -- the channel and the target has left it, in the target's record and in the list of the target's
  -- server, with nothing else changed in the tables.
  pub kick_tx_needs_ops :
      (s : Scope KickFlags e.View)
      → kick_tx e ec lid ch nick msg (record { flags = fl; view = v }) ≡ (ok tt, s)
      → (s.view ≡ v) ⊎ (HasOps e ec lid ch v × Kicked e ch nick v s.view)
  kick_tx_needs_ops s run = elim (Bool-cases (e.rev v (key_chan_nicks ch lid) == 0)) [
    | inl gone ↦ inl (transfer (λ s. s.view ≡ v) (kick_tx_absent gone) run refl)
    | inr here ↦ elim (Option-cases (e.nicks_codec.decode (e.get v (key_chan_nicks ch lid)))) [
      | inl bad ↦ absurd (not_failed (kick_tx_garbled here bad) run)
      | inr (cns, hn) ↦ elim (Option-cases (find_nick cns ec.nick)) [
        | inl missing ↦ transfer KickOut (kick_tx_missing cns here hn missing) run (inl refl)
        | inr (n, found) ↦ elim (Bool-cases (lacks_op n.mode)) [
          | inl no_op ↦ transfer KickOut (kick_tx_not_op cns here hn n found no_op) run (inl refl)
          | inr op ↦
              elim (kick_target-tables e ec ch nick msg _ v s
                (sym (kick_tx_op cns here hn n found op) ∙ run)) [
                  | inl same ↦ inl same
                  | inr (uv, before, after) ↦ inr (
                    record { listed = cns; member = n; stored = hn; found = found; ops = op },
                    record { target = uv; before = before; after = after },
                  )
                ]
        ]
      ]
    ]
  ]

  kick_tx-IsConsistent :
      (s : Scope KickFlags e.View)
      → kick_tx e ec lid ch nick msg (record { flags = fl; view = v }) ≡ (ok tt, s)
      → IsConsistent (tables e v)
      → IsConsistent (tables e s.view)
  kick_tx-IsConsistent s run h = elim (kick_tx_needs_ops s run) [
    | inl same ↦ rw same h
    | inr (ops, k) ↦ rw (k.after) (leave-IsConsistent (tables e v) nick k.target ch h k.before)
  ]

module _ (e : Etcd) (ec : Client) (ch msg : Str) where
  pub kick_reply-IsReply :
      (nick : Str) (fl : KickFlags) (w : World e.View) → (kick_reply e ec ch nick fl w).1.db ≡ w.db
  unfolding kick_reply
  kick_reply-IsReply nick fl w = ground (
    arith,
    send_host_msg-IsReply ec err_notonchannel (ch ∷ lit "You're not on that channel" ∷ []) w,
    send_host_msg-IsReply ec err_usernotinchannel (nick ∷ ch ∷ lit "User not in channel" ∷ []) w,
    send_host_msg-IsReply ec err_chanoprivsneeded (ch ∷ lit "You're not channel operator" ∷ []) w,
  )

  kick_one-IsConsistent :
      (nick : Str) (ses : Result ℕ) (fate : Fate e.View) (w : World e.View)
      → IsConsistent (tables e w.db)
      → IsConsistent (tables e (kick_one e ec ch nick msg ses fate w).1.db)
  unfolding kick_one
  kick_one-IsConsistent nick ses fate w h =
      session-keeps e IsConsistent w h ses (λ lid. kick_tx e ec lid ch nick msg) _ fate
        (λ done. kick_reply e ec ch nick done.0) (λ done. kick_reply-IsReply nick done.0)
        (λ lid fl s got run. kick_tx-IsConsistent e ec lid ch nick msg fl w.db s run h)

  -- A `Kick` of any nicks keeps the channels of the users' records and the member lists in agreement,
  -- however its transactions end.
  pub kick_all-IsConsistent :
      (nicks : List Str) (ses : Str → Result ℕ) (fate : Str → Fate e.View) (w : World e.View)
      → IsConsistent (tables e w.db)
      → IsConsistent (tables e (kick_all e ec ch nicks msg ses fate w).1.db)
  unfolding kick_all
  kick_all-IsConsistent [] ses fate w h = h
  kick_all-IsConsistent (n ∷ nicks) ses fate w h =
      bind-keeps e IsConsistent (kick_one e ec ch n msg (ses n) (fate n)) _ w
        (kick_one-IsConsistent n (ses n) (fate n) w h)
        (λ a w' h'. kick_all-IsConsistent nicks ses fate w' h')
