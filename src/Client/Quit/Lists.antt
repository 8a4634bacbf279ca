-- ===== src/Client/Quit/Lists.antt =====
-- etcd_client.go: the loop of `Quit` over the channels takes the client off the member lists.
use etcdircd.Prelude.{
  ℕ, ◌-◌, ◌≡◌, refl, sym, ap, ◌∙◌, true, false, ◌&&◌, none, some, List, [], ◌∷◌, Str, ◌==◌, nat_eq,
  str_eq, Bool-cases, Option-cases, inl, inr, if◌then◌else◌, arith, count_if,
}
use etcdircd.Result.{ok, err, decode_failed}
use etcdircd.Exec.{◌>>=◌}
use etcdircd.Etcd.{Etcd, no_option, ignore_lease}
use etcdircd.Channel.{ChannelNicks, del_nick}
use etcdircd.Key.{key_chan_nicks, key_chan_msg}
use etcdircd.Tables.{Tables, set_members}
use etcdircd.Tables.Store.{
  tables, tables-members, tables-members_gone, tables-put_chan_msg, tables-put_nicks,
  set_members_self, same_members,
}
use etcdircd.Tables.Consistent.{times_in, times_in-del}
use etcdircd.Client.{Client, Scope}
use etcdircd.Client.Stm.{transfer, not_failed}
use etcdircd.Client.Quit.{quit_channels, quit_msg}

-- A nick is taken once off the list of each channel in turn, on one server.
unfoldable pub leave_lists : Str → ℕ → List Str → Tables → Tables
leave_lists n id [] t = t
leave_lists n id (ch ∷ chs) t =
    leave_lists n id chs (set_members ch id (del_nick (t.members ch id) n) t)

pub user-leave_lists :
    (n : Str) (id : ℕ) (chs : List Str) (t : Tables) → (leave_lists n id chs t).user ≡ t.user
unfolding leave_lists
user-leave_lists n id [] t = refl
user-leave_lists n id (ch ∷ chs) t = user-leave_lists n id chs _

times_in-left :
    (n m ch c : Str) (id id' : ℕ) (t : Tables)
    → times_in m ((set_members ch id (del_nick (t.members ch id) n) t).members c id') ≡ (
        if (ch == c && id == id') && n == m
        then times_in m (t.members c id') - 1
        else times_in m (t.members c id'))
times_in-left n m ch c id id' t = elim (Bool-cases (ch == c && id == id')) [
  | inl here ↦ rw here (rw (same_members t ch c id id' here) (times_in-del n m (t.members c id')))
  | inr there ↦ rw there
]

pub times_in-leave_lists :
    (n m c : Str) (id id' : ℕ) (chs : List Str) (t : Tables)
    → times_in m ((leave_lists n id chs t).members c id') ≡ (
        if n == m && id == id'
        then times_in m (t.members c id') - count_if (λ x. x == c) chs
        else times_in m (t.members c id'))
unfolding leave_lists count_if
times_in-leave_lists n m c id id' [] t = ground arith
times_in-leave_lists n m c id id' (ch ∷ chs) t =
    times_in-leave_lists n m c id id' chs _ ∙ rw (times_in-left n m ch c id id' t) (ground arith)

module _ (e : Etcd) (ec : Client) (lid : ℕ) (msg : Str) where
  module _ (ch : Str) (chs : List Str) (v : e.View) where
    pub channel_gone :
        e.is_empty (e.get v (key_chan_nicks ch lid)) ≡ true
        → quit_channels e ec lid msg (ch ∷ chs) (record { flags = tt; view = v })
          ≡ quit_channels e ec lid msg chs (record { flags = tt; view = v })
    unfolding quit_channels ◌>>=◌
    channel_gone gone = rw gone

    module _ (here : e.is_empty (e.get v (key_chan_nicks ch lid)) ≡ false) where
      pub channel_garbled :
          e.nicks_codec.decode (e.get v (key_chan_nicks ch lid)) ≡ none
          → (quit_channels e ec lid msg (ch ∷ chs) (record { flags = tt; view = v })).0
            ≡ err decode_failed
      unfolding quit_channels ◌>>=◌
      channel_garbled bad = rw (here, bad)

      pub channel_left :
          (cns : ChannelNicks)
          → e.nicks_codec.decode (e.get v (key_chan_nicks ch lid)) ≡ some cns
          → quit_channels e ec lid msg (ch ∷ chs) (record { flags = tt; view = v })
            ≡ quit_channels e ec lid msg chs (record {
              flags = tt;
              view = e.put (key_chan_msg ch) (e.msg_codec.encode (quit_msg ec msg)) no_option (
                  e.put
                    (key_chan_nicks ch lid)
                    (e.nicks_codec.encode (del_nick cns ec.nick))
                    ignore_lease
                    v);
            })
      unfolding quit_channels ◌>>=◌
      channel_left cns hn = rw (here, hn)

  pub no_channel :
      (v : e.View)
      → quit_channels e ec lid msg [] (record { flags = tt; view = v })
        ≡ (ok tt, record { flags = tt; view = v })
  unfolding quit_channels
  no_channel v = refl

  pub quit_channels-tables :
      (chs : List Str) (v : e.View) (s : Scope (Unit {0}) e.View)
      → quit_channels e ec lid msg chs (record { flags = tt; view = v }) ≡ (ok tt, s)
      → tables e s.view ≡ leave_lists ec.nick lid chs (tables e v)
  unfolding leave_lists
  quit_channels-tables [] v s run =
      transfer (λ s. tables e s.view ≡ tables e v) (no_channel v) run refl
  quit_channels-tables (ch ∷ chs) v s run =
      elim (Bool-cases (e.is_empty (e.get v (key_chan_nicks ch lid)))) [
        | inl gone ↦
            quit_channels-tables chs v s (sym (channel_gone ch chs v gone) ∙ run)
            ∙ ap (leave_lists ec.nick lid chs) (
                sym (
                  set_members_self ch lid (del_nick ((tables e v).members ch lid) ec.nick)
                    (tables e v)
                    (rw (tables-members_gone e v ch lid gone) (unfold del_nick in refl))))
        | inr here ↦ elim (Option-cases (e.nicks_codec.decode (e.get v (key_chan_nicks ch lid)))) [
          | inl bad ↦ absurd (not_failed (channel_garbled ch chs v here bad) run)
          | inr (cns, hn) ↦
              quit_channels-tables chs _ s (sym (channel_left ch chs v here cns hn) ∙ run)
              ∙ ap (leave_lists ec.nick lid chs)
                  (rw (tables-put_chan_msg, tables-put_nicks) (rw (tables-members e v ch lid, hn)))
        ]
      ]
