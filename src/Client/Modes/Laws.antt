-- ===== src/Client/Modes/Laws.antt =====
-- etcd_client.go: what `userMode` can and cannot give to a client.
use mathlib.Core.Path.{subst}
use etcdircd.Prelude.{
  ℕ, ◌≡◌, refl, sym, ap, ◌∙◌, ◌⊎◌, inl, inr, true, false, none, some, List, [], ◌∷◌, Str, nat_eq,
  str_eq, Bool-cases, Option-cases, lit,
}
use etcdircd.Result.{Result, ok, err, panic, decode_failed}
use etcdircd.Exec.{Exec, continue, ◌>>=◌}
use etcdircd.Etcd.{Etcd, ignore_lease}
use etcdircd.Mode.{has}
use etcdircd.User.{UserValue}
use etcdircd.Key.{key_user_ctl}
use etcdircd.Tables.{Tables, set_user}
use etcdircd.Tables.Store.{tables, tables-user, tables-put_user}
use etcdircd.Client.{Client, World, Scope, Fate, send_host_msg}
use etcdircd.Client.Stm.{not_failed, send_host_msg-IsReply, transact-keeps}
use etcdircd.Prelude.{==-self, ◌++◌}
use etcdircd.Mode.{user_mode_perms, update_slice}
use etcdircd.Mode.Semantics.{IsModeSet, update_slice-IsModeSet}
use etcdircd.Mode.Privileges.{update_slice_no_escalation}
use etcdircd.Reply.{cmd_mode, rpl_umodeis, err_umodeunknownflag}
use etcdircd.Client.Modes.{
  UserModeFlags, has_args, byte_string, user_mode_tx, send_bad_modes, user_mode_reply, user_mode,
}

-- The client does not hold a mode, and no mode stands twice in its record.
abbrev pub NotHeld : Client → ℕ → Tables → Type 0
NotHeld ec c t =
    (uv : UserValue) → t.user ec.nick ≡ some uv → IsModeSet uv.mode × (has uv.mode c ≡ false)

some_eq : {a b : UserValue} → some a ≡ some b → a ≡ b
some_eq h = cc

abbrev unknown_flag : ℕ → List Str
unknown_flag b = (byte_string b ++ lit " is unknown mode char to me") ∷ []

module _ (e : Etcd) (ec : Client) (m : List Str) where
  bind-IsReply :
      (a b : Exec (World e.View) (Unit {0}))
      → ((w : World e.View) → (a w).1.db ≡ w.db)
      → ((w : World e.View) → (b w).1.db ≡ w.db)
      → (w : World e.View) → ((a >>= λ x. b) w).1.db ≡ w.db
  unfolding ◌>>=◌
  bind-IsReply a b ha hb w = after (a w) (ha w)
    where
      after :
          (out : Result (Unit {0}) × World e.View)
          → out.1.db ≡ w.db
          → (continue out.0 (λ x. b) out.1).1.db ≡ w.db
      after (ok x, w') h = hb w' ∙ h
      after (err x, w') h = h
      after (panic, w') h = h

  send_bad_modes-IsReply : (bad : Str) (w : World e.View) → (send_bad_modes e ec bad w).1.db ≡ w.db
  unfolding send_bad_modes
  send_bad_modes-IsReply [] w = refl
  send_bad_modes-IsReply (b ∷ bad) w =
      bind-IsReply (send_host_msg ec err_umodeunknownflag (unknown_flag b))
        (send_bad_modes e ec bad) (send_host_msg-IsReply ec err_umodeunknownflag (unknown_flag b))
        (send_bad_modes-IsReply bad) w

  pub user_mode_reply-IsReply :
      (fl : UserModeFlags) (w : World e.View) → (user_mode_reply e ec m fl w).1.db ≡ w.db
  unfolding user_mode_reply
  user_mode_reply-IsReply fl w = elim (Bool-cases (has_args m)) [
    | inl args ↦ rw args (
        bind-IsReply (send_host_msg ec cmd_mode (fl.mode ∷ [])) (send_bad_modes e ec fl.bad)
          (send_host_msg-IsReply ec cmd_mode (fl.mode ∷ [])) (send_bad_modes-IsReply fl.bad) w)
    | inr bare ↦ rw bare (send_host_msg-IsReply ec rpl_umodeis (fl.mode ∷ []) w)
  ]

  module _ (fl : UserModeFlags) (v : e.View) where
    abbrev pub at_start : Scope UserModeFlags e.View
    at_start = record { flags = fl; view = v }

    pub mode_unknown :
        e.user_codec.decode (e.get v (key_user_ctl ec.nick)) ≡ none
        → (user_mode_tx e ec m at_start).0 ≡ err decode_failed
    unfolding user_mode_tx ◌>>=◌
    mode_unknown bad = rw bad

    module _ (uv : UserValue)
        (hu : e.user_codec.decode (e.get v (key_user_ctl ec.nick)) ≡ some uv) where
      abbrev pub updated : UserValue
      updated = record uv { mode = (update_slice uv.mode [] m user_mode_perms).0 }

      pub mode_same :
          (update_slice uv.mode [] m user_mode_perms).2 ≡ false
          → (user_mode_tx e ec m at_start).1.view ≡ v
      unfolding user_mode_tx ◌>>=◌
      mode_same same = rw (hu, same)

      pub mode_stored :
          (update_slice uv.mode [] m user_mode_perms).2 ≡ true
          → (user_mode_tx e ec m at_start).1.view
            ≡ e.put (key_user_ctl ec.nick) (e.user_codec.encode updated) ignore_lease v
      unfolding user_mode_tx ◌>>=◌
      mode_stored new = rw (hu, new)

    pub user_mode_tx-tables :
        (s : Scope UserModeFlags e.View)
        → user_mode_tx e ec m at_start ≡ (ok tt, s)
        → (s.view ≡ v)
          ⊎ ((uv : UserValue) × ((tables e v).user ec.nick ≡ some uv)
              × (tables e s.view
                  ≡ set_user ec.nick
                      (some (record uv { mode = (update_slice uv.mode [] m user_mode_perms).0 }))
                      (tables e v)))
    user_mode_tx-tables s run =
        let ends : (user_mode_tx e ec m at_start).1.view ≡ s.view = ap (λ x. x.1.view) run in
        elim (Option-cases (e.user_codec.decode (e.get v (key_user_ctl ec.nick)))) [
          | inl bad ↦ absurd (not_failed (mode_unknown bad) run)
          | inr (uv, hu) ↦ elim (Bool-cases (update_slice uv.mode [] m user_mode_perms).2) [
            | inr same ↦ inl (sym ends ∙ mode_same uv hu same)
            | inl new ↦ inr (
              uv,
              tables-user e v ec.nick ∙ hu,
              ap (tables e) (sym ends ∙ mode_stored uv hu new)
                  ∙ tables-put_user e v ignore_lease ec.nick (updated uv hu),
            )
          ]
        ]

  set_user-NotHeld :
      (c : ℕ) (t : Tables) (uv : UserValue)
      → has user_mode_perms.add_modes c ≡ false
      → t.user ec.nick ≡ some uv
      → NotHeld ec c t
      → NotHeld ec c (
          set_user ec.nick
            (some (record uv { mode = (update_slice uv.mode [] m user_mode_perms).0 }))
            t)
  set_user-NotHeld c t uv fixed found h uv' e' =
      let same : some (record uv { mode = (update_slice uv.mode [] m user_mode_perms).0 })
          ≡ some uv' =
        rw (==-self ec.nick) at e' in
      let (form, free) = h uv found in
      subst (λ (x : UserValue). IsModeSet x.mode × (has x.mode c ≡ false)) (some_eq same)
        (
          update_slice-IsModeSet user_mode_perms uv.mode [] m form,
          update_slice_no_escalation user_mode_perms c fixed uv.mode [] m form free,
        )

  -- A mode that users may not add to themselves, such as the operator modes `o` and `O`, is not in the
  -- record of the client after a `userMode` if it was not there before, whatever the arguments and
  -- however the transaction ends; and no mode stands twice in the record if none did before.
  pub user_mode-NotHeld :
      (c : ℕ) (fate : Fate e.View) (w : World e.View)
      → has user_mode_perms.add_modes c ≡ false
      → NotHeld ec c (tables e w.db)
      → NotHeld ec c (tables e (user_mode e ec m fate w).1.db)
  unfolding user_mode
  user_mode-NotHeld c fate w fixed h =
      transact-keeps e (NotHeld ec c) w h (user_mode_tx e ec m) _ fate
        (λ done. user_mode_reply e ec m done.0) (λ done. user_mode_reply-IsReply done.0)
        (λ fl s run. elim (user_mode_tx-tables fl w.db s run) [
          | inl same ↦ rw same h
          | inr (uv, found, after) ↦ rw after (set_user-NotHeld c (tables e w.db) uv fixed found h)
        ])
