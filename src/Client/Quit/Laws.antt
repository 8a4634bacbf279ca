-- ===== src/Client/Quit/Laws.antt =====
-- etcd_client.go: what `Quit` leaves behind.
use mathlib.Core.Path.{subst}
use etcdircd.Prelude.{
  ℕ, ◌≡◌, ◌≢◌, refl, sym, ap, ◌∙◌, Option, none, some, Str, ◌==◌, nat_eq, str_eq, Option-cases, inl,
  inr, if◌then◌else◌, arith, ==-self,
}
use etcdircd.Result.{Result, ok, err, panic, decode_failed}
use etcdircd.Exec.{◌>>=◌, ◌>>◌, Exec, pure, continue}
use etcdircd.Etcd.{Etcd}
use etcdircd.User.{UserValue}
use etcdircd.Key.{key_user_ctl, key_user_msg}
use etcdircd.Tables.{Tables, set_user}
use etcdircd.Tables.Store.{tables, tables-user, tables-del_user, tables-del_user_msg}
use etcdircd.Tables.Consistent.{IsConsistent, times_in, times_on}
use etcdircd.Client.{Client, World, Scope, Fate, stm_del}
use etcdircd.Client.Stm.{transfer, not_failed, not_panicked, transact-keeps}
use etcdircd.Client.Part.Laws.{OwnLease}
use etcdircd.Client.Quit.{quit_channels, quit_tx, quit}
use etcdircd.Client.Quit.Lists.{
  leave_lists, user-leave_lists, times_in-leave_lists, quit_channels-tables,
}

module _ (e : Etcd) (ec : Client) (msg : Str) (v : e.View) where
  abbrev pub at_start : Scope (Unit {0}) e.View
  at_start = record { flags = tt; view = v }

  pub quit_unknown :
      (ses : Result ℕ)
      → e.user_codec.decode (e.get v (key_user_ctl ec.nick)) ≡ none
      → (quit_tx e ec ses msg at_start).0 ≡ err decode_failed
  unfolding quit_tx ◌>>=◌
  quit_unknown ses bad = rw bad

  abbrev pub delete_user : Exec (Scope (Unit {0}) e.View) (Unit {0})
  delete_user = stm_del e (key_user_ctl ec.nick) >> stm_del e (key_user_msg ec.nick)

  -- The end of the closure, once the loop has ended.
  pub deleted :
      (out : Result (Unit {0}) × Scope (Unit {0}) e.View) (s : Scope (Unit {0}) e.View)
      → continue out.0 (λ x. delete_user) out.1 ≡ (ok tt, s)
      → (out ≡ (ok tt, out.1)) × (tables e s.view ≡ set_user ec.nick none (tables e out.1.view))
  unfolding ◌>>=◌
  deleted (ok x, s') s run = (
    refl,
    transfer (λ s. tables e s.view ≡ set_user ec.nick none (tables e s'.view)) refl run
        (tables-del_user_msg e _ ec.nick ∙ tables-del_user e _ ec.nick),
  )
  deleted (err x, s') s run = absurd (not_failed refl run)
  deleted (panic, s') s run = absurd (not_panicked refl run)

  pub quit_known :
      (lid : ℕ) (uv : UserValue)
      → e.user_codec.decode (e.get v (key_user_ctl ec.nick)) ≡ some uv
      → quit_tx e ec (ok lid) msg at_start
        ≡ continue
            (quit_channels e ec lid msg uv.channels at_start).0
            (λ x. delete_user)
            (quit_channels e ec lid msg uv.channels at_start).1
  unfolding quit_tx ◌>>=◌
  quit_known lid uv hu = rw hu

  pub quit_tx-tables :
      (lid : ℕ) (uv : UserValue) (s : Scope (Unit {0}) e.View)
      → e.user_codec.decode (e.get v (key_user_ctl ec.nick)) ≡ some uv
      → quit_tx e ec (ok lid) msg at_start ≡ (ok tt, s)
      → tables e s.view ≡ set_user ec.nick none (leave_lists ec.nick lid uv.channels (tables e v))
  quit_tx-tables lid uv s hu run =
      let done =
        deleted (quit_channels e ec lid msg uv.channels at_start) s
          (sym (quit_known lid uv hu) ∙ run) in
      done.1 ∙ ap (set_user ec.nick none) (quit_channels-tables e ec lid msg uv.channels v _ done.0)

  -- A client that has quit, on the server with a lease: it has no record, no channel of the server
  -- lists it, and the other users' channels and the member lists agree.
  pub record Gone (lid : ℕ) (t : Tables) : Type 0 where
    pub absent : t.user ec.nick ≡ none
    pub unlisted : (ch : Str) → times_in ec.nick (t.members ch lid) ≡ 0
    pub consistent : IsConsistent t

  leave_lists-Gone :
      (lid : ℕ) (uv : UserValue) (t : Tables)
      → t.user ec.nick ≡ some uv
      → uv.lease ≡ lid
      → IsConsistent t
      → Gone lid (set_user ec.nick none (leave_lists ec.nick lid uv.channels t))
  leave_lists-Gone lid uv t found own h = record {
    absent = rw (==-self ec.nick);
    unlisted = λ ch. unlisted ch;
    consistent = record { agree = agree };
  }
    where
      unlisted :
          (ch : Str) → times_in ec.nick ((leave_lists ec.nick lid uv.channels t).members ch lid) ≡ 0
      unlisted ch =
          let same : times_on ch uv ≡ times_in ec.nick (t.members ch lid) =
            subst (λ id. times_on ch uv ≡ times_in ec.nick (t.members ch id)) own
              (h.agree ec.nick ch uv found) in
          times_in-leave_lists ec.nick ec.nick ch lid lid uv.channels t
          ∙ rw (==-self ec.nick, ==-self lid) (omega (arith, same))

      agree :
          (m ch : Str) (uv' : UserValue)
          → (if ec.nick == m then none else (leave_lists ec.nick lid uv.channels t).user m)
            ≡ some uv'
          → times_on ch uv'
            ≡ times_in m ((leave_lists ec.nick lid uv.channels t).members ch uv'.lease)
      agree m ch uv' g =
          let stays =
            ap (λ (u : Str → Option UserValue). u m) (user-leave_lists ec.nick lid uv.channels t) in
          rw (times_in-leave_lists ec.nick m ch lid uv'.lease uv.channels t)
            (ground (arith, stays, h.agree m ch uv'))

  -- A closure of `Quit` that succeeds has deleted the record of the client and taken its nick off the
  -- lists of all channels of the server, if the record had the lease of the session and the channels
  -- of the users' records and the member lists agreed; and they still do.
  pub quit_tx-Gone :
      (lid : ℕ) (uv : UserValue) (s : Scope (Unit {0}) e.View)
      → quit_tx e ec (ok lid) msg (record { flags = tt; view = v }) ≡ (ok tt, s)
      → e.user_codec.decode (e.get v (key_user_ctl ec.nick)) ≡ some uv
      → uv.lease ≡ lid
      → IsConsistent (tables e v)
      → Gone lid (tables e s.view)
  quit_tx-Gone lid uv s run hu own h =
      rw (quit_tx-tables lid uv s hu run)
        (leave_lists-Gone lid uv (tables e v) (tables-user e v ec.nick ∙ hu) own h)

-- Without a session the closure fails.
pub no_session :
    (e : Etcd) (ec : Client) (msg : Str) (v : e.View) (s : Scope (Unit {0}) e.View) (ses : Result ℕ)
    → ((lid : ℕ) → ses ≢ ok lid)
    → quit_tx e ec ses msg (record { flags = tt; view = v }) ≢ (ok tt, s)
unfolding quit_tx ◌>>=◌
no_session e ec msg v s (ok lid) none_held run = none_held lid refl
no_session e ec msg v s (err x) none_held run =
    elim (Option-cases (e.user_codec.decode (e.get v (key_user_ctl ec.nick)))) [
      | inl bad ↦ not_failed {x' = decode_failed} (rw bad) run
      | inr (uv, hu) ↦ not_failed {x' = x} (rw hu) run
    ]
no_session e ec msg v s panic none_held run =
    elim (Option-cases (e.user_codec.decode (e.get v (key_user_ctl ec.nick)))) [
      | inl bad ↦ not_failed {x' = decode_failed} (rw bad) run
      | inr (uv, hu) ↦ not_panicked (rw hu) run
    ]

-- However a `Quit` ends, it keeps the channels of the users' records and the member lists in
-- agreement, if the record of the client has the lease of its session.
pub quit-IsConsistent :
    (e : Etcd) (ec : Client) (msg : Str) (ses : Result ℕ) (fate : Fate e.View) (w : World e.View)
    → OwnLease ec ses (tables e w.db)
    → IsConsistent (tables e w.db)
    → IsConsistent (tables e (quit e ec msg ses fate w).1.db)
unfolding quit
quit-IsConsistent e ec msg ses fate w own h =
    transact-keeps e IsConsistent w h (quit_tx e ec ses msg) tt fate (λ d. pure tt) (λ d w'. refl)
      (λ fl s run. keeps ses own s run)
  where
    keeps :
        (ses : Result ℕ)
        → OwnLease ec ses (tables e w.db)
        → (s : Scope (Unit {0}) e.View)
        → quit_tx e ec ses msg (record { flags = tt; view = w.db }) ≡ (ok tt, s)
        → IsConsistent (tables e s.view)
    keeps (err x) own s run = absurd (no_session e ec msg w.db s (err x) (λ lid p. (cc p)) run)
    keeps panic own s run = absurd (no_session e ec msg w.db s panic (λ lid p. (cc p)) run)
    keeps (ok lid) own s run =
        elim (Option-cases (e.user_codec.decode (e.get w.db (key_user_ctl ec.nick)))) [
          | inl bad ↦ absurd (not_failed (quit_unknown e ec msg w.db (ok lid) bad) run)
          | inr (uv, hu) ↦
              let gone =
                quit_tx-Gone e ec msg w.db lid uv s run hu
                  (own uv lid refl (tables-user e w.db ec.nick ∙ hu)) h in
              gone.consistent
        ]
