-- ===== src/Client/Leases/Parts.antt =====
-- etcd_client.go: `Part`, `Kick`, `Quit` and `Join` write each key under the lease that it should have.
use etcdircd.Prelude.{
  ℕ, ◌≡◌, sym, ap, ◌∙◌, inl, inr, Bool, false, some, List, [], ◌∷◌, Str, ◌==◌, nat_eq, Bool-cases,
  Option-cases,
}
use etcdircd.Result.{Result, ok}
use etcdircd.Etcd.{Etcd, no_option, ignore_lease}
use etcdircd.User.{UserValue, part}
use etcdircd.Channel.{ChannelNicks, del_nick, find_nick}
use etcdircd.Key.{key_user_ctl, key_chan_nicks}
use etcdircd.Key.Names.{key_laws}
use etcdircd.Tables.Consistent.{lease-part}
use etcdircd.Client.{Client, World, Scope, Fate}
use etcdircd.Client.Commit
use etcdircd.Client.Stm.{transfer, not_failed}
use etcdircd.Client.Leases.{
  IsLeased, commit-IsLeased, put_chan_msg-IsLeased, put_user-IsLeased, put_nicks-IsLeased,
  decoded_list,
}
use etcdircd.Client.Part.{part_tx, part_reply, part_chan}
use etcdircd.Client.Part.Effect.{
  part_tx_on, part_tx_last, part_tx_off, part_tx_unknown, part_tx_garbled,
}
use etcdircd.Client.Part.Laws.{part_reply-IsReply}
use etcdircd.Client.Kick.{KickFlags, kick_target, kick_tx, kick_reply, kick_one, kick_all, lacks_op}
use etcdircd.Client.Kick.Effect.{
  target_absent, target_unknown, target_off, target_garbled, target_kicked,
}
use etcdircd.Client.Kick.Laws.{
  kick_tx_absent, kick_tx_garbled, kick_tx_missing, kick_tx_not_op, kick_tx_op, kick_reply-IsReply,
}

-- A list of members is still under its lease once the record of a user has been written.
module _ (e : Etcd) (v : e.View) (h : IsLeased e v) where
  left_lists :
      (n ch : Str) (uv uv' : UserValue) (id : ℕ) (cns : ChannelNicks)
      → e.user_codec.decode (e.get v (key_user_ctl n)) ≡ some uv
      → uv'.lease ≡ uv.lease
      → e.nicks_codec.decode (e.get v (key_chan_nicks ch id)) ≡ some cns
      → IsLeased e (
          e.put
            (key_chan_nicks ch id)
            (e.nicks_codec.encode (del_nick cns n))
            ignore_lease
            (e.put (key_user_ctl n) (e.user_codec.encode uv') ignore_lease v))
  left_lists n ch uv uv' id cns hu same hn =
      put_nicks-IsLeased e _
        (put_user-IsLeased e v h n uv' ignore_lease (h.users n uv hu ∙ sym same)) ch id
        (del_nick cns n) ignore_lease
        (simp (e.lease-put, key_laws) (decoded_list e v h ch id cns hn))

module _ (e : Etcd) (ec : Client) (ch msg : Str) where
  part_tx-IsLeased :
      (lid : ℕ) (fl : Bool) (v : e.View) (s : Scope Bool e.View)
      → part_tx e ec lid ch msg (record { flags = fl; view = v }) ≡ (ok tt, s)
      → IsLeased e v
      → IsLeased e s.view
  part_tx-IsLeased lid fl v s run h =
      let Q : Scope Bool e.View → Type 0 = λ s. IsLeased e s.view in
      elim (Option-cases (e.user_codec.decode (e.get v (key_user_ctl ec.nick)))) [
        | inl unknown ↦
            absurd (not_failed (ap (λ x. x.0) (part_tx_unknown e ec lid ch msg fl v unknown)) run)
        | inr (uv, hu) ↦ elim (Bool-cases (part uv ch).1) [
          | inr off ↦ transfer Q (part_tx_off e ec lid ch msg fl v uv hu off) run h
          | inl on ↦ elim (Bool-cases (e.is_empty (e.get v (key_chan_nicks ch lid)))) [
            | inl last ↦ transfer Q (part_tx_last e ec lid ch msg fl v uv hu on last) run (
                put_chan_msg-IsLeased e _ no_option _
                  (put_user-IsLeased e v h ec.nick (part uv ch).0 ignore_lease
                    (h.users ec.nick uv hu ∙ sym (lease-part uv ch)))
                  ch)
            | inr full ↦
                elim (Option-cases (e.nicks_codec.decode (e.get v (key_chan_nicks ch lid)))) [
                  | inl bad ↦
                      absurd
                        (not_failed (part_tx_garbled e ec lid ch msg fl v uv hu on full bad) run)
                  | inr (cns, hn) ↦
                      transfer Q (part_tx_on e ec lid ch msg fl v uv cns hu on full hn) run (
                        put_chan_msg-IsLeased e _ no_option _
                          (left_lists e v h ec.nick ch uv (part uv ch).0 lid cns hu
                            (lease-part uv ch) hn)
                          ch)
                ]
          ]
        ]
      ]

  pub part_chan-IsLeased :
      (ses : Result ℕ) (fate : Fate e.View) (w : World e.View)
      → IsLeased e w.db
      → IsLeased e (part_chan e ec ch msg ses fate w).1.db
  unfolding part_chan
  part_chan-IsLeased ses fate w h =
      Commit.session-keeps e (IsLeased e) (commit-IsLeased e) w h ses
        (λ lid. part_tx e ec lid ch msg) false fate (λ done. part_reply e ec ch done.0)
        (λ done. part_reply-IsReply e ec ch msg done.0)
        (λ lid fl s got run. part_tx-IsLeased lid fl w.db s run h)

  kick_target-IsLeased :
      (nick : Str) (fl : KickFlags) (v : e.View) (s : Scope KickFlags e.View)
      → kick_target e ec ch nick msg (record { flags = fl; view = v }) ≡ (ok tt, s)
      → IsLeased e v
      → IsLeased e s.view
  kick_target-IsLeased nick fl v s run h =
      let Q : Scope KickFlags e.View → Type 0 = λ s. IsLeased e s.view in
      elim (Bool-cases (e.rev v (key_user_ctl nick) == 0)) [
        | inl gone ↦ transfer Q (target_absent e ec ch nick msg fl v gone) run h
        | inr here ↦ elim (Option-cases (e.user_codec.decode (e.get v (key_user_ctl nick)))) [
          | inl bad ↦ absurd (not_failed (target_unknown e ec ch nick msg fl v here bad) run)
          | inr (uv, hu) ↦ elim (Bool-cases (part uv ch).1) [
            | inr off ↦ transfer Q (target_off e ec ch nick msg fl v uv here hu off) run h
            | inl on ↦
                elim (Option-cases (e.nicks_codec.decode (e.get v (key_chan_nicks ch uv.lease)))) [
                  | inl bad ↦
                      absurd
                        (not_failed (target_garbled e ec ch nick msg fl v uv here hu on bad) run)
                  | inr (cns, hn) ↦
                      transfer Q (target_kicked e ec ch nick msg fl v uv cns here hu on hn) run (
                        put_chan_msg-IsLeased e _ no_option _
                          (left_lists e v h nick ch uv (part uv ch).0 uv.lease cns hu
                            (lease-part uv ch) hn)
                          ch)
                ]
          ]
        ]
      ]

  kick_tx-IsLeased :
      (nick : Str) (lid : ℕ) (fl : KickFlags) (v : e.View) (s : Scope KickFlags e.View)
      → kick_tx e ec lid ch nick msg (record { flags = fl; view = v }) ≡ (ok tt, s)
      → IsLeased e v
      → IsLeased e s.view
  kick_tx-IsLeased nick lid fl v s run h =
      let Q : Scope KickFlags e.View → Type 0 = λ s. IsLeased e s.view in
      elim (Bool-cases (e.rev v (key_chan_nicks ch lid) == 0)) [
        | inl gone ↦ transfer Q (kick_tx_absent e ec lid ch nick msg fl v gone) run h
        | inr here ↦ elim (Option-cases (e.nicks_codec.decode (e.get v (key_chan_nicks ch lid)))) [
          | inl bad ↦ absurd (not_failed (kick_tx_garbled e ec lid ch nick msg fl v here bad) run)
          | inr (cns, hn) ↦ elim (Option-cases (find_nick cns ec.nick)) [
            | inl missing ↦
                transfer Q (kick_tx_missing e ec lid ch nick msg fl v cns here hn missing) run h
            | inr (n, found) ↦ elim (Bool-cases (lacks_op n.mode)) [
              | inl no_op ↦
                  transfer Q (kick_tx_not_op e ec lid ch nick msg fl v cns here hn n found no_op)
                    run h
              | inr op ↦
                  kick_target-IsLeased nick _ v s
                    (sym (kick_tx_op e ec lid ch nick msg fl v cns here hn n found op) ∙ run) h
            ]
          ]
        ]
      ]

  kick_one-IsLeased :
      (nick : Str) (ses : Result ℕ) (fate : Fate e.View) (w : World e.View)
      → IsLeased e w.db
      → IsLeased e (kick_one e ec ch nick msg ses fate w).1.db
  unfolding kick_one
  kick_one-IsLeased nick ses fate w h =
      Commit.session-keeps e (IsLeased e) (commit-IsLeased e) w h ses
        (λ lid. kick_tx e ec lid ch nick msg) _ fate (λ done. kick_reply e ec ch nick done.0)
        (λ done. kick_reply-IsReply e ec ch msg nick done.0)
        (λ lid fl s got run. kick_tx-IsLeased nick lid fl w.db s run h)

  pub kick_all-IsLeased :
      (nicks : List Str) (ses : Str → Result ℕ) (fate : Str → Fate e.View) (w : World e.View)
      → IsLeased e w.db
      → IsLeased e (kick_all e ec ch nicks msg ses fate w).1.db
  unfolding kick_all
  kick_all-IsLeased [] ses fate w h = h
  kick_all-IsLeased (n ∷ nicks) ses fate w h =
      Commit.bind-keeps e (IsLeased e) (kick_one e ec ch n msg (ses n) (fate n)) _ w
        (kick_one-IsLeased n (ses n) (fate n) w h) (λ a w' k. kick_all-IsLeased nicks ses fate w' k)
