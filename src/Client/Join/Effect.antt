-- ===== src/Client/Join/Effect.antt =====
-- etcd_client.go: what a committed `Join` does to the tables.
use etcdircd.Prelude.{
  ℕ, ◌≡◌, refl, ◌∙◌, none, some, [], ◌∷◌, ◌++◌, Str, ◌==◌, nat_eq, Bool-cases, Option-cases, inl,
  inr, arith, Bool, true, false, if◌then◌else◌,
}
use etcdircd.Result.{ok, err, decode_failed}
use etcdircd.Exec.{◌>>=◌}
use etcdircd.Etcd.{Etcd, PutOption, no_option, with_lease}
use etcdircd.User.{UserValue}
use etcdircd.Mode.{add, has}
use etcdircd.Channel.{ChannelCtl, ChannelNicks}
use etcdircd.Key.{key_user_ctl, key_chan_ctl, key_chan_nicks, key_chan_msg}
use etcdircd.Key.Names.{user_ctl_chan_nicks, user_ctl_chan_ctl, chan_ctl_chan_nicks}
use etcdircd.Tables.{enter}
use etcdircd.Tables.Store.{
  or_empty, tables, tables-user, tables-members, tables-put_chan_msg, tables-put_nicks,
  tables-put_ctl, tables-put_user,
}
use etcdircd.Client.{Client, Scope}
use etcdircd.Client.Stm.{transfer, not_failed}
use etcdircd.Client.Join.{join_msg, join_tx, new_member, found_channel, found_members}

found_members-or_empty :
    (e : Etcd) (b : e.Blob) (cns : ChannelNicks)
    → found_members e b ≡ some cns
    → or_empty (e.nicks_codec.decode b) ≡ cns
found_members-or_empty e b cns h = elim (Bool-cases (e.is_empty b)) [
  | inl gone ↦ rw (e.nicks_codec.at_end b gone) (ground (arith, gone))
  | inr here ↦ ground (arith, here)
]

new_member_lem :
    (uv : UserValue) (first : Bool)
    → new_member uv first ≡ record { nick = uv.nick; mode = if first then b'O' ∷ b'o' ∷ [] else [] }
unfolding add has
new_member_lem uv true = refl
new_member_lem uv false = refl

-- The closure reads keys that it has not written.
module _ (e : Etcd) (n ch : Str) (b : e.Blob) (o : PutOption) (v : e.View) where
  ctl_read : e.get (e.put (key_user_ctl n) b o v) (key_chan_ctl ch) ≡ e.get v (key_chan_ctl ch)
  ctl_read = rw (e.get-put, user_ctl_chan_ctl)

module _ (e : Etcd) (n ch : Str) (id : ℕ) (b d : e.Blob) (o p : PutOption) (v : e.View) where
  nicks_read :
      e.get (e.put (key_chan_ctl ch) d p (e.put (key_user_ctl n) b o v)) (key_chan_nicks ch id)
      ≡ e.get v (key_chan_nicks ch id)
  nicks_read = rw (e.get-put, chan_ctl_chan_nicks) (rw (e.get-put, user_ctl_chan_nicks))

module _ (e : Etcd) (n ch : Str) (b d : e.Blob) (o p : PutOption) (v : e.View) where
  ctl_rev :
      e.rev (e.put (key_chan_ctl ch) d p (e.put (key_user_ctl n) b o v)) (key_chan_ctl ch)
      ≡ e.rev v (key_chan_ctl ch)
  ctl_rev = e.rev-put _ _ _ _ _ ∙ e.rev-put _ _ _ _ _

module _ (e : Etcd) (ec : Client) (lid : ℕ) (ch : Str) (now : ℕ) (fl : Str) (v : e.View) where
  abbrev pub at_start : Scope Str e.View
  at_start = record { flags = fl; view = v }

  pub join_unknown :
      e.user_codec.decode (e.get v (key_user_ctl ec.nick)) ≡ none
      → (join_tx e ec lid ch now at_start).0 ≡ err decode_failed
  unfolding join_tx ◌>>=◌
  join_unknown bad = rw bad

  module _ (uv : UserValue)
      (hu : e.user_codec.decode (e.get v (key_user_ctl ec.nick)) ≡ some uv) where
    pub join_garbled :
        found_channel e ch now (e.get v (key_chan_ctl ch)) ≡ none
        → (join_tx e ec lid ch now at_start).0 ≡ err decode_failed
    unfolding join_tx ◌>>=◌
    join_garbled bad = rw (hu, ctl_read, bad)

    module _ (c : ChannelCtl)
        (hc : found_channel e ch now (e.get v (key_chan_ctl ch)) ≡ some c) where
      pub join_no_list :
          found_members e (e.get v (key_chan_nicks ch lid)) ≡ none
          → (join_tx e ec lid ch now at_start).0 ≡ err decode_failed
      unfolding join_tx ◌>>=◌
      join_no_list bad = rw (hu, ctl_read, hc, nicks_read, bad)

      pub join_done :
          (cns : ChannelNicks)
          → found_members e (e.get v (key_chan_nicks ch lid)) ≡ some cns
          → join_tx e ec lid ch now at_start ≡ (
            ok tt,
            record {
              flags = c.topic;
              view = e.put (key_chan_msg ch) (e.msg_codec.encode (join_msg ec ch)) no_option (
                  e.put
                    (key_chan_nicks ch lid)
                    (e.nicks_codec.encode
                      (cns ++ new_member uv (e.rev v (key_chan_ctl ch) == 0) ∷ []))
                    (with_lease lid)
                    (e.put (key_chan_ctl ch) (e.ctl_codec.encode c) no_option (
                      e.put
                        (key_user_ctl ec.nick)
                        (e.user_codec.encode (record uv { channels = uv.channels ++ ch ∷ [] }))
                        (with_lease lid)
                        v)));
            },
          )
      unfolding join_tx ◌>>=◌
      join_done cns hn = rw (hu, ctl_read, hc, nicks_read, hn) (rw ctl_rev)

  -- The end of a closure that succeeds.
  pub record Joined (s : Scope Str e.View) : Type 0 where
    pub before : UserValue
    pub found : (tables e v).user ec.nick ≡ some before
    pub channel : ChannelCtl
    pub known : found_channel e ch now (e.get v (key_chan_ctl ch)) ≡ some channel
    pub told : s.flags ≡ channel.topic
    pub after :
        tables e s.view
        ≡ enter ec.nick before ch lid channel
            (record {
              nick = before.nick;
              mode = if e.rev v (key_chan_ctl ch) == 0 then b'O' ∷ b'o' ∷ [] else [];
            })
            (tables e v)

  -- A closure of `Join` that succeeds has put the user on the channel, in the record and in the list
  -- of the server: with the modes `O` and `o` if the channel had no key in the store, and with no
  -- mode else. The channel is stored as it was found, or as a new one, and its topic is the flag.
  pub join_tx-Joined :
      (s : Scope Str e.View)
      → join_tx e ec lid ch now (record { flags = fl; view = v }) ≡ (ok tt, s)
      → Joined s
  join_tx-Joined s run =
      elim (Option-cases (e.user_codec.decode (e.get v (key_user_ctl ec.nick)))) [
        | inl bad ↦ absurd (not_failed (join_unknown bad) run)
        | inr (uv, hu) ↦ elim (Option-cases (found_channel e ch now (e.get v (key_chan_ctl ch)))) [
          | inl bad ↦ absurd (not_failed (join_garbled uv hu bad) run)
          | inr (c, hc) ↦ elim (Option-cases (found_members e (e.get v (key_chan_nicks ch lid)))) [
            | inl bad ↦ absurd (not_failed (join_no_list uv hu c hc bad) run)
            | inr (cns, hn) ↦ transfer Joined (join_done uv hu c hc cns hn) run (record {
              before = uv;
              found = tables-user e v ec.nick ∙ hu;
              channel = c;
              known = hc;
              told = refl;
              after =
                  rw (tables-put_chan_msg, tables-put_nicks, tables-put_ctl, tables-put_user)
                    (rw (
                      tables-members,
                      found_members-or_empty e _ cns hn,
                      new_member_lem uv (e.rev v (key_chan_ctl ch) == 0),
                    ));
            })
          ]
        ]
      ]
