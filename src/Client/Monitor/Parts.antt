-- ===== src/Client/Monitor/Parts.antt =====
-- etcd_client.go: the clean-up of `monitorPart` loses no member.
use etcdircd.Prelude.{
  ℕ, ◌≡◌, refl, sym, ap, ◌∙◌, true, not, ◌||◌, Option, none, some, List, [], ◌∷◌, Str, ◌==◌, nat_eq,
  is_nil, eq_of_==, Bool-cases, Option-cases, inl, inr, arith, ◌-◌,
}
use mathlib.Core.Path.{subst}
use etcdircd.Result.{Result, ok, err, panic, must}
use etcdircd.Exec.{lift, pure, ◌>>=◌}
use etcdircd.Etcd.{Etcd}
use etcdircd.Channel.{ChannelNicks, nicks}
use etcdircd.User.{UserValue}
use etcdircd.Key.{key_chan_nicks}
use etcdircd.Tables.{Tables}
use etcdircd.Tables.Store.{
  tables, tables-commit, tables-del_nicks, tables-members, set_members_self, or_empty,
}
use etcdircd.Client.{Client, World, send_msg}
use etcdircd.Client.Query.{Read, Range, users_from_nicks}
use etcdircd.Client.Quiet.{
  IsQuiet, quiet_laws, bind-IsQuiet, lift-IsQuiet, pure-IsQuiet, send_msg-IsQuiet,
}
use etcdircd.Client.Stm.{bind-keeps}
use etcdircd.Client.Names.{second}
use etcdircd.Client.Monitor.{
  Event, put, deleted, Turn, delete_if, part_users, part_event, monitor_part_event,
  monitor_part_events, monitor_part,
}

-- What etcd promises of an event on the key of a member list: a key that still has the revision of the
-- event has its value.
pub record IsGenuine (e : Etcd) (turn : Turn e) : Type 0 where
  pub listed :
      (key : Str) (value : e.Blob) (rev lease : ℕ)
      → turn.event ≡ put key value rev lease
      → (c : Str) × (id : ℕ) × (key ≡ key_chan_nicks c id)
  pub current :
      (key : Str) (value : e.Blob) (rev lease : ℕ)
      → turn.event ≡ put key value rev lease
      → e.rev turn.store key ≡ rev
      → e.get turn.store key ≡ value

nil_of : (cns : ChannelNicks) → is_nil cns ≡ true → cns ≡ []
nil_of [] h = refl
nil_of (cn ∷ cns) h = absurd (ground arith)

module _ (e : Etcd) (range : Range e.View e.Blob) (ec : Client) where
  part_users-IsQuiet : (ch : Str) (us : List UserValue) → IsQuiet (part_users e ec ch us)
  unfolding part_users
  part_users-IsQuiet ch [] = pure-IsQuiet tt
  part_users-IsQuiet ch (u ∷ us) =
      bind-IsQuiet (lift (must (second u.user))) _ (lift-IsQuiet (must (second u.user)))
        λ user. bind-IsQuiet (send_msg _) _ (send_msg-IsQuiet _) λ x. part_users-IsQuiet ch us

  -- A list without members can be deleted.
  delete_empty :
      (v : e.View) (c : Str) (id rev : ℕ) (verdict : Result ℕ)
      → (e.rev v (key_chan_nicks c id) ≡ rev
          → e.nicks_codec.decode (e.get v (key_chan_nicks c id)) ≡ some [])
      → tables e (delete_if e range ec (key_chan_nicks c id) rev verdict v) ≡ tables e v
  unfolding delete_if
  delete_empty v c id rev (err x) h = refl
  delete_empty v c id rev panic h = refl
  delete_empty v c id rev (ok r) h = elim (Bool-cases (e.rev v (key_chan_nicks c id) == rev)) [
    | inl same ↦ rw same (
        tables-commit e _ r
        ∙ tables-del_nicks e v c id
        ∙ set_members_self c id [] (tables e v)
            (tables-members e v c id ∙ ap or_empty (h (eq_of_== _ _ same))))
    | inr other ↦ rw other
  ]

  deleted-IsQuiet :
      (ch : Str) (lid rev : ℕ) (reads : ℕ → Read e.View) (verdict : Result ℕ) (key : Str)
      (previous : Option e.Blob)
      → IsQuiet (part_event e range ec ch lid reads verdict (deleted key previous rev))
  unfolding part_event
  deleted-IsQuiet ch lid rev reads verdict key previous =
      bind-IsQuiet (lift (must previous)) _ (lift-IsQuiet (must previous))
        λ value. decoded_quiet (e.nicks_codec.decode value)
    where
      decoded_quiet :
          (o : Option ChannelNicks)
          → IsQuiet {V = e.View} {A = Unit {0}} (elim o [
            | none ↦ pure tt
            | some cns ↦
                lift (users_from_nicks e range ec (nicks cns) (rev - 1) (reads rev)) >>= λ users.
                part_users e ec ch users
          ])
      decoded_quiet none = pure-IsQuiet tt
      decoded_quiet (some cns) = search (quiet_laws, part_users-IsQuiet)

  put-tables :
      (ch c : Str) (lid id rev lease : ℕ) (reads : ℕ → Read e.View) (verdict : Result ℕ)
      (value : e.Blob) (w : World e.View)
      → (e.rev w.db (key_chan_nicks c id) ≡ rev → e.get w.db (key_chan_nicks c id) ≡ value)
      → tables e
          (part_event e range ec ch lid reads verdict
            (put (key_chan_nicks c id) value rev lease)
            w).1.db
        ≡ tables e w.db
  unfolding part_event
  put-tables ch c lid id rev lease reads verdict value w current =
      elim (Option-cases (e.nicks_codec.decode value)) [
        | inl bad ↦ rw (part_event, bad)
        | inr (cns, hc) ↦ elim (Bool-cases (not (is_nil cns) || not (lease == lid))) [
          | inl kept ↦ rw (part_event, hc, kept)
          | inr gone ↦
              rw (part_event, hc, gone)
                (delete_empty w.db c id rev verdict
                  (λ same. rw (current same) (hc ∙ ap some (nil_of cns (ground arith)))))
        ]
      ]

  part_event-tables :
      (ch : Str) (lid : ℕ) (reads : ℕ → Read e.View) (turn : Turn e) (w : World e.View)
      (ev : Event e.Blob)
      → IsGenuine e turn
      → turn.event ≡ ev
      → w.db ≡ turn.store
      → tables e (part_event e range ec ch lid reads turn.verdict ev w).1.db ≡ tables e w.db
  part_event-tables ch lid reads turn w (put key value rev lease) g is at =
      let (c, id, named) = g.listed key value rev lease is in
      rw named (
        put-tables ch c lid id rev lease reads turn.verdict value w (λ same. rw at (
          subst (λ k. e.get turn.store k ≡ value) named
            (g.current key value rev lease is (rw (named, sym at) same)))))
  part_event-tables ch lid reads turn w (deleted key previous rev) g is at =
      ap (tables e) ((deleted-IsQuiet ch lid rev reads turn.verdict key previous).keeps w)

module _ (e : Etcd) (range : Range e.View e.Blob) (ec : Client) (Q : Tables → Type 0) where
  -- The events are genuine, and the stores that their transactions find have the property.
  abbrev pub Allowed : List (Turn e) → Type 0
  Allowed [] = Unit
  Allowed (turn ∷ turns) = IsGenuine e turn × Q (tables e turn.store) × Allowed turns

  events-keep :
      (ch : Str) (lid : ℕ) (reads : ℕ → Read e.View) (turns : List (Turn e)) (w : World e.View)
      → Allowed turns
      → Q (tables e w.db)
      → Q (tables e (monitor_part_events e range ec ch lid reads turns w).1.db)
  unfolding monitor_part_events
  events-keep ch lid reads [] w allowed h = h
  events-keep ch lid reads (turn ∷ turns) w (g, q, allowed) h =
      bind-keeps e Q (monitor_part_event e range ec ch lid reads turn) _ w
        (subst Q
          (sym (
            part_event-tables e range ec ch lid reads turn (record w { db = turn.store }) turn.event
              g refl refl))
          q)
        (λ x w' k. events-keep ch lid reads turns w' allowed k)

  abbrev pub AllAllowed : List (Result (List (Turn e)) × Result ℕ) → Type 0
  AllAllowed [] = Unit
  AllAllowed ((resp, ses) ∷ resps) =
      ((turns : List (Turn e)) → resp ≡ ok turns → Allowed turns) × AllAllowed resps

  -- What holds of the tables when a watch of the member lists of a channel starts, and of those of each
  -- store that its transactions find, holds of them however and whenever the watch ends: the lists that
  -- it deletes have no members.
  pub monitor_part-keeps :
      (ch : Str) (reads : ℕ → Read e.View) (ctx : Result (Unit {0}))
      (resps : List (Result (List (Turn e)) × Result ℕ)) (w : World e.View)
      → AllAllowed resps
      → Q (tables e w.db)
      → Q (tables e (monitor_part e range ec ch reads ctx resps w).1.db)
  unfolding monitor_part
  monitor_part-keeps ch reads ctx [] w allowed h = h
  monitor_part-keeps ch reads ctx ((resp, ses) ∷ resps) w (here, later) h =
      start (λ w' k. monitor_part-keeps ch reads ctx resps w' later k) resp refl ses
    where
      start :
          ((w' : World e.View)
            → Q (tables e w'.db)
            → Q (tables e (monitor_part e range ec ch reads ctx resps w').1.db))
          → (rs : Result (List (Turn e))) → resp ≡ rs
          → (ss : Result ℕ)
          → Q (tables e (monitor_part e range ec ch reads ctx ((rs, ss) ∷ resps) w).1.db)
      start ih (err x) is ss = h
      start ih panic is ss = h
      start ih (ok turns) is (err x) = h
      start ih (ok turns) is panic = h
      start ih (ok turns) is (ok lid) =
          bind-keeps e Q (monitor_part_events e range ec ch lid reads turns) _ w
            (events-keep ch lid reads turns w (here turns is) h) (λ x w' k. ih w' k)
