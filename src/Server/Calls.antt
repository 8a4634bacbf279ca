-- ===== src/Server/Calls.antt =====
-- client.go and etcd_client.go: the calls of `ClientDo` are the methods of `etcdClient`.
pub mod Laws
pub mod Leases
use mathlib.Core.List.{Perm}
use etcdircd.Prelude.{ℕ, List, [], ◌∷◌, Str}
use etcdircd.Result.{Result, ok, err, panic}
use etcdircd.Exec.{Exec, pure}
use etcdircd.Etcd.{Etcd}
use etcdircd.Client.{Client, World, Fate, send_host_msg}
use etcdircd.Client.Query.{Read, Range}
use etcdircd.Client.Names.{names_now, who, join_chan}
use etcdircd.Client.Lists.{list_chans, whois, ping, die}
use etcdircd.Client.Part.{part_chan}
use etcdircd.Client.Kick.{kick_all}
use etcdircd.Client.Quit.{quit}
use etcdircd.Client.Topic.{topic}
use etcdircd.Client.PrivMsg.{priv_msg}
use etcdircd.Client.Oper.{oper}
use etcdircd.Client.Away.{away}
use etcdircd.Client.Modes.{mode}
use etcdircd.Command.{
  Call, call_nothing, call_die, call_kick, call_away, call_whois, call_names, call_ping, call_quit,
  call_oper, call_part, call_priv_msg, call_who, call_join, call_mode, call_list, call_topic,
  call_send_host,
}

-- What the handling of a message meets: the time, the answers of `Session()`, which are asked for by
-- the channel or nick that they are for, the lease of the session at hand, what etcd does to each
-- transaction and answers to each read, the end of the client's context, and the order in which the
-- goroutines of a JOIN come to their transactions.
pub record Turn (V : Type 0) : Type 0 where
  pub now : ℕ
  pub session : Str → Result ℕ
  pub held : ℕ
  pub fate : Str → Fate V
  pub first_read : Str → Read V
  pub second_read : Str → Read V
  pub third_read : Str → Read V
  pub ctx : Result (Unit {0})
  pub order : List Str → List Str
  pub scheduled : (chs : List Str) → Perm (order chs) chs

-- `errc <- err` in a goroutine: the others go on, and the first error is returned at the end. A panic
-- ends the process.
abbrev pub with_error : {V : Type 0} → Result (Unit {0}) → Exec (World V) Unit → Exec (World V) Unit
with_error (ok x) m w = m w
with_error (err x) m w = let (r, w') = m w in (keep r, w')
  where
    keep : Result (Unit {0}) → Result (Unit {0})
    keep panic = panic
    keep other = err x
with_error panic m w = (panic, w)

module _ (e : Etcd) (range : Range e.View e.Blob) (ec : Client) (turn : Turn e.View) where
  unfoldable pub join_one : Str → World e.View → Result (Unit {0}) × World e.View
  join_one ch w =
      let (r, w') =
        join_chan e range ec ch turn.now (turn.session ch) (turn.fate ch) (turn.first_read ch)
          (turn.second_read ch) (turn.third_read ch) turn.ctx w in
      (done r, w')
    where
      done : Result (Str × ℕ) → Result (Unit {0})
      done (ok x) = ok tt
      done (err x) = err x
      done panic = panic

  -- The goroutines of a JOIN, in the order of their transactions.
  unfoldable pub join_all : List Str → Exec (World e.View) Unit
  unfolding join_one
  join_all [] w = pure tt w
  join_all (ch ∷ chs) w = let (r, w') = join_one ch w in with_error r (join_all chs) w'

  unfoldable pub run_call : Call → Exec (World e.View) Unit
  unfolding join_all
  run_call call_nothing = pure tt
  run_call call_die = die e range ec (turn.first_read [])
  run_call (call_kick ch nicks msg) = kick_all e ec ch nicks msg turn.session turn.fate
  run_call (call_away msg) = away e ec msg (turn.fate [])
  run_call (call_whois n) = whois e range ec n (turn.first_read n)
  run_call (call_names ch) =
      names_now e range ec ch (turn.first_read ch) (turn.second_read ch) (turn.third_read ch)
  run_call (call_ping msg) = ping e range ec msg (turn.first_read [])
  run_call (call_quit msg) = quit e ec msg (turn.session []) (turn.fate [])
  run_call (call_oper login pass) = oper e ec login pass (turn.fate [])
  run_call (call_part ch msg) = part_chan e ec ch msg (turn.session ch) (turn.fate ch)
  run_call (call_priv_msg target msg) = priv_msg e ec target msg (turn.fate target)
  run_call (call_who args) =
      who e range ec args (turn.first_read []) (turn.second_read []) (turn.third_read [])
  run_call (call_join chs) = join_all (turn.order chs)
  run_call (call_mode args) = mode e ec args turn.held (turn.fate [])
  run_call (call_list chs) = list_chans e range ec chs (turn.first_read [])
  run_call (call_topic ch given) = topic e ec ch given (turn.session ch) (turn.fate ch)
  run_call (call_send_host cmd params) = send_host_msg ec cmd params
