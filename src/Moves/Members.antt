-- ===== src/Moves/Members.antt =====
-- etcd_client.go: what `Join`, `Part`, `Kick` and `Quit` do to the tables are moves of the client.
use etcdircd.Prelude.{
  ℕ, ◌≡◌, refl, sym, ap, ◌∙◌, ◌⊎◌, inl, inr, false, none, some, List, [], ◌∷◌, Str, ◌==◌, nat_eq,
  Bool-cases, Option-cases, some_eq, Bool, if◌then◌else◌,
}
use mathlib.Core.Path.{subst}
use etcdircd.Result.{Result, ok, err, panic}
use etcdircd.Exec.{pure}
use etcdircd.Etcd.{Etcd}
use etcdircd.User.{UserValue, in_chan}
use etcdircd.Channel.{ChannelCtl, ChannelNick}
use etcdircd.Key.{key_user_ctl, key_chan_ctl}
use etcdircd.Tables.{Tables, leave, enter, set_user}
use etcdircd.Tables.Store.{tables, tables-user, tables-ctl, tables-members}
use etcdircd.Client.{Client, World, Scope, Fate}
use etcdircd.Client.Stm.{not_failed, session-keeps, session_step-keeps, transact-keeps, bind-keeps}
use etcdircd.Client.Commit.{IsStored}
use etcdircd.Client.Query.{Read, Range}
use etcdircd.Client.Join.{join_tx, join_commit, found_channel}
use etcdircd.Client.Join.Effect.{join_tx-Joined}
use etcdircd.Client.Names.{join_chan}
use etcdircd.Client.Names.Laws.{join_end-IsQuiet}
use etcdircd.Client.Part.{part_tx, part_reply, part_chan}
use etcdircd.Client.Part.Effect.{part_tx-tables, part_tx_unknown}
use etcdircd.Client.Part.Laws.{OwnLease, part_reply-IsReply}
use etcdircd.Client.Kick.{KickFlags, kick_tx, kick_reply, kick_one, kick_all}
use etcdircd.Client.Kick.Laws.{HasOps, kick_tx_needs_ops, kick_reply-IsReply}
use etcdircd.Client.Quit.{quit_tx, quit}
use etcdircd.Client.Quit.Lists.{leave_lists}
use etcdircd.Client.Quit.Laws.{quit_tx-tables, quit_unknown, no_session}
use etcdircd.Moves.{
  Opers, IsNew, IsOperator, EntersWith, with_none, as_owner, Move, entered, parted, kicked, gone,
  Moves, stay, after,
}

pub one : {opers : Opers} {n : Str} {t t' : Tables} → Move opers n t t' → Moves opers n t t'
one m = after stay m

pub nothing_done : {opers : Opers} {n : Str} {t t' : Tables} → t' ≡ t → Moves opers n t t'
nothing_done {opers} {n} {t} e = subst (Moves opers n t) (sym e) stay

pub Moves-trans :
    {opers : Opers} {n : Str} {t mid t' : Tables}
    → Moves opers n t mid
    → Moves opers n mid t'
    → Moves opers n t t'
Moves-trans ms stay = ms
Moves-trans ms (after ns m) = after (Moves-trans ms ns) m

-- An operator in the store is one in its tables.
pub HasOps-IsOperator :
    (e : Etcd) (ec : Client) (lid : ℕ) (ch : Str) (v : e.View)
    → HasOps e ec lid ch v
    → IsOperator ec.nick ch (tables e v)
HasOps-IsOperator e ec lid ch v h = record {
  lease = lid;
  member = h.member;
  found = rw (tables-members e v ch lid, h.stored) h.found;
  ops = h.ops;
}

module _ {opers : Opers} (e : Etcd) (ec : Client) (ch : Str) where
  part_tx-Moves :
      (msg : Str) (lid : ℕ) (fl : Bool) (v : e.View) (s : Scope Bool e.View)
      → part_tx e ec lid ch msg (record { flags = fl; view = v }) ≡ (ok tt, s)
      → ((uv : UserValue) → (tables e v).user ec.nick ≡ some uv → uv.lease ≡ lid)
      → Moves opers ec.nick (tables e v) (tables e s.view)
  part_tx-Moves msg lid fl v s run own =
      elim (Option-cases (e.user_codec.decode (e.get v (key_user_ctl ec.nick)))) [
        | inl unknown ↦
            absurd (not_failed (ap (λ x. x.0) (part_tx_unknown e ec lid ch msg fl v unknown)) run)
        | inr (uv, hu) ↦
            let found : (tables e v).user ec.nick ≡ some uv = tables-user e v ec.nick ∙ hu in
            let out = (part_tx-tables e ec lid ch msg fl v s uv run hu).1 in
            elim (Bool-cases (in_chan uv ch)) [
              | inl on ↦ one (
                  parted uv ch found on (
                    (rw on at out)
                    ∙ ap (λ id. leave ec.nick uv ch id (tables e v)) (sym (own uv found))))
              | inr off ↦ nothing_done (rw off at out)
            ]
      ]

  pub part_chan-Moves :
      (msg : Str) (ses : Result ℕ) (fate : Fate e.View) (w : World e.View)
      → OwnLease ec ses (tables e w.db)
      → Moves opers ec.nick (tables e w.db) (tables e (part_chan e ec ch msg ses fate w).1.db)
  unfolding part_chan
  part_chan-Moves msg ses fate w own =
      session-keeps e (Moves opers ec.nick (tables e w.db)) w stay ses
        (λ lid. part_tx e ec lid ch msg) false fate (λ done. part_reply e ec ch done.0)
        (λ done. part_reply-IsReply e ec ch msg done.0)
        (λ lid fl s got run. part_tx-Moves msg lid fl w.db s run (λ uv found. own uv lid got found))

  kick_tx-Moves :
      (nick msg : Str) (lid : ℕ) (fl : KickFlags) (v : e.View) (s : Scope KickFlags e.View)
      → kick_tx e ec lid ch nick msg (record { flags = fl; view = v }) ≡ (ok tt, s)
      → Moves opers ec.nick (tables e v) (tables e s.view)
  kick_tx-Moves nick msg lid fl v s run = elim (kick_tx_needs_ops e ec lid ch nick msg fl v s run) [
    | inl same ↦ nothing_done (ap (tables e) same)
    | inr (ops, k) ↦
        one (kicked nick k.target ch (HasOps-IsOperator e ec lid ch v ops) k.before k.after)
  ]

  kick_one-Moves :
      (nick msg : Str) (ses : Result ℕ) (fate : Fate e.View) (w : World e.View)
      → Moves opers ec.nick (tables e w.db) (tables e (kick_one e ec ch nick msg ses fate w).1.db)
  unfolding kick_one
  kick_one-Moves nick msg ses fate w =
      session-keeps e (Moves opers ec.nick (tables e w.db)) w stay ses
        (λ lid. kick_tx e ec lid ch nick msg) _ fate (λ done. kick_reply e ec ch nick done.0)
        (λ done. kick_reply-IsReply e ec ch msg nick done.0)
        (λ lid fl s got run. kick_tx-Moves nick msg lid fl w.db s run)

  pub kick_all-Moves :
      (msg : Str) (nicks : List Str) (ses : Str → Result ℕ) (fate : Str → Fate e.View)
      (w : World e.View)
      → Moves opers ec.nick (tables e w.db) (tables e (kick_all e ec ch nicks msg ses fate w).1.db)
  unfolding kick_all
  kick_all-Moves msg [] ses fate w = stay
  kick_all-Moves msg (n ∷ nicks) ses fate w =
      bind-keeps e (Moves opers ec.nick (tables e w.db)) (kick_one e ec ch n msg (ses n) (fate n)) _
        w (kick_one-Moves n msg (ses n) (fate n) w)
        (λ a w' ms. Moves-trans ms (kick_all-Moves msg nicks ses fate w'))

-- The channel that a `Join` finds.
found_channel-IsNew :
    (e : Etcd) (ch : Str) (now : ℕ) (v : e.View) (c : ChannelCtl)
    → found_channel e ch now (e.get v (key_chan_ctl ch)) ≡ some c
    → ((tables e v).ctl ch ≡ some c) ⊎ (((tables e v).ctl ch ≡ none) × IsNew ch c)
found_channel-IsNew e ch now v c h = elim (Bool-cases (e.is_empty (e.get v (key_chan_ctl ch)))) [
  | inl empty ↦
      let made = some_eq (rw empty at h) in
      inr (
        tables-ctl e v ch ∙ e.ctl_codec.at_end (e.get v (key_chan_ctl ch)) empty,
        record {
          named = ap (λ x. x.name) (sym made);
          no_topic = ap (λ x. x.topic) (sym made);
          no_mode = ap (λ x. x.mode) (sym made);
        },
      )
  | inr here ↦ inl (tables-ctl e v ch ∙ rw here at h)
]

-- Who becomes the owner of a channel.
enters_lem :
    (e : Etcd) (ch : Str) (v : e.View)
    → IsStored e (key_chan_ctl ch) v
    → EntersWith ch (tables e v) (if e.rev v (key_chan_ctl ch) == 0 then b'O' ∷ b'o' ∷ [] else [])
enters_lem e ch v stored = elim (Bool-cases (e.rev v (key_chan_ctl ch) == 0)) [
  | inl fresh ↦ rw fresh (
      as_owner
        (tables-ctl e v ch ∙ e.ctl_codec.at_end (e.get v (key_chan_ctl ch)) (stored.absent fresh))
        refl)
  | inr known ↦ rw known (with_none refl)
]

module _ {opers : Opers} (e : Etcd) (range : Range e.View e.Blob) (ec : Client) (ch : Str)
    (now : ℕ) where
  join_tx-Moves :
      (lid : ℕ) (fl : Str) (v : e.View) (s : Scope Str e.View)
      → join_tx e ec lid ch now (record { flags = fl; view = v }) ≡ (ok tt, s)
      → ((uv : UserValue) → (tables e v).user ec.nick ≡ some uv → uv.lease ≡ lid)
      → IsStored e (key_chan_ctl ch) v
      → Moves opers ec.nick (tables e v) (tables e s.view)
  join_tx-Moves lid fl v s run own stored =
      let j = join_tx-Joined e ec lid ch now fl v s run in
      let cn : ChannelNick = record {
        nick = j.before.nick;
        mode = if e.rev v (key_chan_ctl ch) == 0 then b'O' ∷ b'o' ∷ [] else [];
      } in
      one (
        entered j.before ch j.channel cn j.found (found_channel-IsNew e ch now v j.channel j.known)
          refl (enters_lem e ch v stored)
          (j.after
            ∙ ap (λ id. enter ec.nick j.before ch id j.channel cn (tables e v))
                (sym (own j.before j.found))))

  pub join_chan-Moves :
      (r1 r2 r3 : Read e.View) (ses : Result ℕ) (fate : Fate e.View) (ctx : Result (Unit {0}))
      (w : World e.View)
      → OwnLease ec ses (tables e w.db)
      → IsStored e (key_chan_ctl ch) w.db
      → Moves opers ec.nick
          (tables e w.db)
          (tables e (join_chan e range ec ch now ses fate r1 r2 r3 ctx w).1.db)
  unfolding join_chan join_commit
  join_chan-Moves r1 r2 r3 ses fate ctx w own stored =
      bind-keeps e (Moves opers ec.nick (tables e w.db)) (join_commit e ec ch now ses fate) _ w
        (session_step-keeps e (Moves opers ec.nick (tables e w.db)) w stay ses
          (λ lid. join_tx e ec lid ch now) [] fate
          (λ lid fl s got run.
            join_tx-Moves lid fl w.db s run (λ uv found. own uv lid got found) stored))
        (λ done w' k.
          subst (λ v. Moves opers ec.nick (tables e w.db) (tables e v))
            (sym ((join_end-IsQuiet e range ec ch r1 r2 r3 done ctx).keeps w')) k)

module _ {opers : Opers} (e : Etcd) (ec : Client) (msg : Str) where
  quit_tx-Moves :
      (ses : Result ℕ) (v : e.View) (s : Scope (Unit {0}) e.View)
      → quit_tx e ec ses msg (record { flags = tt; view = v }) ≡ (ok tt, s)
      → OwnLease ec ses (tables e v)
      → Moves opers ec.nick (tables e v) (tables e s.view)
  quit_tx-Moves (err x) v s run own = absurd (no_session e ec msg v s (err x) (λ lid p. (cc p)) run)
  quit_tx-Moves panic v s run own = absurd (no_session e ec msg v s panic (λ lid p. (cc p)) run)
  quit_tx-Moves (ok lid) v s run own =
      elim (Option-cases (e.user_codec.decode (e.get v (key_user_ctl ec.nick)))) [
        | inl bad ↦ absurd (not_failed (quit_unknown e ec msg v (ok lid) bad) run)
        | inr (uv, hu) ↦
            let found : (tables e v).user ec.nick ≡ some uv = tables-user e v ec.nick ∙ hu in
            one (
              gone uv found (
                quit_tx-tables e ec msg v lid uv s hu run
                ∙ ap (λ id. set_user ec.nick none (leave_lists ec.nick id uv.channels (tables e v)))
                    (sym (own uv lid refl found))))
      ]

  pub quit-Moves :
      (ses : Result ℕ) (fate : Fate e.View) (w : World e.View)
      → OwnLease ec ses (tables e w.db)
      → Moves opers ec.nick (tables e w.db) (tables e (quit e ec msg ses fate w).1.db)
  unfolding quit
  quit-Moves ses fate w own =
      transact-keeps e (Moves opers ec.nick (tables e w.db)) w stay (quit_tx e ec ses msg) tt fate
        (λ d. pure tt) (λ d w'. refl) (λ fl s run. quit_tx-Moves ses w.db s run own)
