-- ===== src/Examples/Systems.antt =====
-- The servers run: a connection is opened, and joins a channel.
use mathlib.Core.List.Perm
use etcdircd.Key.{key_user_msg, key_user_ctl, key_chan_nicks, key_chan_ctl}
use etcdircd.Prelude.{
  false, ◌⊎◌, ◌≡◌, ◌≢◌, sym, refl, str_beq, none, [], ◌∷◌, lit, str_eq, nat_eq, ◌==◌, if◌then◌else◌,
  none_not_some, some_eq, ap, count_if,
}
use etcdircd.Result.{ok, ok_eq}
use etcdircd.Tables.Store.{tables}
use etcdircd.Client.{World}
use etcdircd.Command.{call_join}
use etcdircd.Client.Leases.{IsLeased}
use etcdircd.Moves.{Moves}
use etcdircd.Moves.Sound.{IsSound}
use etcdircd.Moves.Changes.{rest}
use etcdircd.Moves.Under.{IsUnder}
use etcdircd.Server.{ConnectRequest, new_config}
use etcdircd.Server.Register.{new_etcd_client}
use etcdircd.Server.Calls.{Turn, run_call}
use etcdircd.Server.Calls.Laws.{IsSessionOf, AllStored, run_call-Moves}
use etcdircd.Client.Commit.{IsStored}
use etcdircd.Moves.Users.{opers_in}
use etcdircd.Server.Loop.{Incoming, incoming, Meeting, handle, serve, with_store}
use etcdircd.Server.Loop.Laws.{AllFair, none_left, fair, serve-IsSound}
use etcdircd.Server.System.{
  System, first, SystemStep, add_live, opened, met, lease_ended, start, and_then,
}
use etcdircd.Server.System.Safe.{IsSafe, Reach-IsSafe}
use etcdircd.Mode.{has}
use etcdircd.Client.{Scope}
use etcdircd.Client.Modes.{ChanModeFlags, chan_mode_tx}
use etcdircd.Client.Modes.Chan.{Ruled, chan_mode_tx-Ruled}
use native.Mathlib.Omega.{arith}
use etcdircd.Sample.{
  harbour, Memory, memory_expire, absent_revision, sample, bare, ann, sea, client_of, world_of,
  at_once,
}

IsSound-bare : IsSound (tables sample bare)
unfolding tables count_if
IsSound-bare = record { named = λ n uv e. absurd (none_not_some e); listed = λ n ch id. refl }

IsLeased-bare : IsLeased sample bare
IsLeased-bare = record {
  users = λ n uv f. absurd (none_not_some f);
  lists = λ ch id f. cc;
  ctls = λ c. refl;
}

abbrev asks : ConnectRequest
asks = record { nick = ann; user = ann ∷ ann ∷ [] }

abbrev on_bare : World Memory
on_bare = with_store bare (world_of bare)

abbrev opened_state : System Memory
opened_state = record {
  store = (new_etcd_client sample new_config asks 0 (ok 7) (ok 3) on_bare).1.db;
  live = client_of ann ∷ [];
}

abbrev turn : Turn Memory
turn = record {
  now = 1;
  session = λ s. ok 7;
  held = 7;
  fate = λ s. at_once;
  first_read = λ s n. ok (bare, 9);
  second_read = λ s n. ok (bare, 9);
  third_read = λ s n. ok (bare, 9);
  ctx = ok tt;
  order = λ chs. chs;
  scheduled = λ chs. Perm.refl chs;
}

turn-IsSessionOf : IsSessionOf 7 turn
turn-IsSessionOf = record {
  same = λ s l e. ok_eq e;
  later = λ s r e p. absurd (omega (arith, ok_eq e, p));
}

abbrev joins : Incoming
joins = incoming (record { prefix = none; command = lit "JOIN"; params = sea ∷ [] })

opens : SystemStep sample (λ v p. []) (record { store = bare; live = [] }) opened_state
unfolding new_etcd_client etcdircd.Server.Register.claim_nick etcdircd.Exec.◌>>=◌ lit
opens = opened new_config asks 0 (ok 7) (ok 3) (world_of bare)

opened-IsUnder : IsUnder 7 ann (tables sample opened_state.store)
unfolding tables new_etcd_client etcdircd.Server.Register.claim_nick etcdircd.Exec.◌>>=◌ lit str_beq
    key_user_msg key_user_ctl
opened-IsUnder = record { own = λ uv e. sym (ap (λ u. u.lease) (some_eq e)) }

opened-AllStored : AllStored sample opened_state.store
unfolding new_etcd_client etcdircd.Server.Register.claim_nick etcdircd.Exec.◌>>=◌ lit
opened-AllStored ch = record {
  absent =
      absent_revision 3
        (if key_user_msg ann == key_chan_ctl ch
          then 3
          else if key_user_ctl ann == key_chan_ctl ch
          then 3
          else 0)
        _ (λ p. absurd (omega (arith, p)));
}

opened-IsSafe : IsSafe sample opened_state
unfolding opens
opened-IsSafe =
    Reach-IsSafe sample (λ v p. []) bare IsSound-bare IsLeased-bare (and_then start opens)
      (tt, record { absent = λ h. refl })

abbrev joined_state : System Memory
joined_state = record {
  store =
      (handle sample (λ v p. []) new_config (client_of ann) turn joins
        (with_store opened_state.store (world_of bare))).1.db;
  live = opened_state.live;
}

-- The lease of the server ends while the client is connected.
abbrev ended_state : System Memory
ended_state = record { store = memory_expire 7 joined_state.store; live = joined_state.live }

abbrev ends : SystemStep sample (λ v p. []) joined_state ended_state
ends = lease_ended 7 (record { lease = omega arith; values = λ k. refl; leases = λ k. refl })

opened_user : (tables sample opened_state.store).user ann ≢ none
unfolding tables new_etcd_client etcdircd.Server.Register.claim_nick etcdircd.Exec.◌>>=◌ lit str_beq
    key_user_msg key_user_ctl
opened_user p = none_not_some (sym p)

ended_user : (tables sample (memory_expire 7 opened_state.store)).user ann ≡ none
unfolding tables new_etcd_client etcdircd.Server.Register.claim_nick etcdircd.Exec.◌>>=◌ lit str_beq
    key_user_msg key_user_ctl
ended_user = refl

abbrev joined_meeting : SystemStep sample (λ v p. []) opened_state joined_state
joined_meeting = met new_config (client_of ann) turn joins (world_of bare) first

-- The nick is asked for again while its first connection is open.
abbrev reopened : System Memory
reopened = record {
  store =
      (new_etcd_client sample new_config asks 2 (ok 8) (ok 12)
        (with_store ended_state.store (world_of bare))).1.db;
  live =
      add_live
        (new_etcd_client sample new_config asks 2 (ok 8) (ok 12)
          (with_store ended_state.store (world_of bare))).0
        ended_state.live;
}

abbrev reopens : SystemStep sample (λ v p. []) ended_state reopened
reopens = opened new_config asks 2 (ok 8) (ok 12) (world_of bare)

ended-IsStored : IsStored sample (key_user_ctl ann) ended_state.store
unfolding new_etcd_client etcdircd.Server.Register.claim_nick etcdircd.Exec.◌>>=◌ lit handle str_beq
    etcdircd.Command.client_do etcdircd.Text.split etcdircd.Key.is_chan
    etcdircd.Client.Names.join_chan etcdircd.Client.do_stm key_user_msg key_user_ctl key_chan_ctl
    key_chan_nicks etcdircd.Client.send_msg etcdircd.Client.send_host_msg
    etcdircd.Client.Query.users_from_mask etcdircd.Key.key_chan_msg
ended-IsStored = record { absent = λ h. refl }

Reach-IsSafe_example : IsSafe sample reopened
unfolding opens
Reach-IsSafe_example =
    Reach-IsSafe sample (λ v p. []) bare IsSound-bare IsLeased-bare
      (and_then (and_then (and_then (and_then start opens) joined_meeting) ends) reopens)
      ((
        (
          (
            (tt, record { absent = λ h. refl }),
            (7, turn-IsSessionOf, opened-IsUnder, opened-AllStored),
          ),
          tt,
        ),
        ended-IsStored,
      ))

abbrev ann_here : World Memory
ann_here = world_of opened_state.store

run_call-Moves_example :
    Moves (opers_in sample opened_state.store) ann (tables sample opened_state.store) (
      tables sample
        (run_call sample (λ v p. []) (client_of ann) turn (call_join (sea ∷ [])) ann_here).1.db)
run_call-Moves_example =
    run_call-Moves sample (λ v p. []) (client_of ann) turn 7 turn-IsSessionOf (call_join (sea ∷ []))
      ann_here opened-IsUnder opened-AllStored

abbrev meeting : Meeting Memory
meeting = record { others = λ v. v; comes = joins; turn = turn }

meeting-AllFair : AllFair sample (λ v p. []) new_config (client_of ann) (meeting ∷ []) ann_here
meeting-AllFair =
    fair
      (record {
        changes = rest;
        lease = 7;
        session = turn-IsSessionOf;
        under = opened-IsUnder;
        stored = opened-AllStored;
      })
      none_left

abbrev served : World Memory
served = (serve sample (λ v p. []) new_config (client_of ann) (meeting ∷ []) ann_here).1

serve-IsSound_example : IsSound (tables sample served.db)
serve-IsSound_example =
    serve-IsSound sample (λ v p. []) new_config (client_of ann) (meeting ∷ []) ann_here
      meeting-AllFair opened-IsSafe.sound

abbrev no_mode : ChanModeFlags
no_mode = record { mode = []; no_chan = false; not_on_chan = false; not_op = false }

abbrev moderated : Scope ChanModeFlags Memory
moderated =
    (chan_mode_tx sample (client_of ann) 7 sea (lit "-m" ∷ [])
      (record { flags = no_mode; view = harbour })).1

moderated_runs :
    chan_mode_tx sample
      (client_of ann)
      7
      sea
      (lit "-m" ∷ [])
      (record { flags = no_mode; view = harbour })
    ≡ (ok tt, moderated)
unfolding chan_mode_tx str_beq lit key_chan_nicks key_user_ctl key_chan_ctl has etcdircd.Text.hex
    etcdircd.Channel.find_nick etcdircd.Mode.update_slice etcdircd.Mode.update_each
    etcdircd.Mode.update etcdircd.Mode.update_del etcdircd.Mode.del_round etcdircd.Mode.write
    etcdircd.Mode.del
moderated_runs = refl

chan_mode_tx-Ruled_example :
    (moderated.view ≡ harbour)
    ⊎ Ruled sample (client_of ann) 7 sea (lit "-m" ∷ []) no_mode harbour moderated.view
chan_mode_tx-Ruled_example =
    chan_mode_tx-Ruled sample (client_of ann) 7 sea (lit "-m" ∷ []) no_mode harbour moderated
      moderated_runs
