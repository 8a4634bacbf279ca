-- ===== src/Client/Monitor.antt =====
-- etcd_client.go: the watches of a client, `monitorMsg`, `monitorPart` and `sendParts`.
--
-- A goroutine of a watch reads the responses of etcd until the watch ends. The list of its responses
-- is a parameter, and so is what the other parties do to the store between two events.
pub mod Messages
pub mod Delivery
pub mod Parts
pub mod Still
use etcdircd.Prelude.{
  ℕ, ◌-◌, Bool, true, false, not, ◌&&◌, ◌||◌, Option, none, some, List, [], ◌∷◌, ◌++◌, Str, lit,
  ◌==◌, str_eq, nat_eq, is_nil, if◌then◌else◌,
}
use etcdircd.Result.{Result, ok, err, panic, must}
use etcdircd.Exec.{Exec, pure, lift, ◌>>=◌, ◌>>◌}
use etcdircd.Etcd.{Etcd, Message, Prefix}
use etcdircd.User.{UserValue}
use etcdircd.Channel.{ChannelNicks, nicks}
use etcdircd.Reply.{cmd_error, cmd_part, cmd_kick, cmd_privmsg}
use etcdircd.Client.{Client, World, send_msg}
use etcdircd.Client.Query.{Read, Range, users_from_nicks}
use etcdircd.Client.Names.{second}

-- `etcd.Event`: a put, or a deletion with the value before it.
pub data Event (B : Type 0) : Type 0 where
  put : (key : Str) (value : B) (mod_revision lease : ℕ) → Event B
  deleted : (key : Str) (previous : Option B) (mod_revision : ℕ) → Event B

-- `chCancel`: the channels that are watched. `direct` holds what `SendMsgSync` was given, past the
-- queue of the connection.
pub record Watching (V : Type 0) : Type 0 where
  pub conn : World V
  pub watched : Str → Bool
  pub direct : List Message

abbrev pub with_conn : {V A : Type 0} → Exec (World V) A → Exec (Watching V) A
with_conn m s = let (r, w) = m s.conn in (r, record s { conn = w })

abbrev pub is_echo : Client → Message → Bool
is_echo ec msg = elim msg.prefix [
  | none ↦ false
  | some p ↦ p.name == ec.nick && msg.command == cmd_privmsg
]

abbrev pub prefix_name : Option Prefix → Result Str
prefix_name none = panic
prefix_name (some p) = ok p.name

abbrev pub param_1 : List Str → Result Str
param_1 ps = must (second ps)

abbrev pub param_0 : List Str → Result Str
param_0 [] = panic
param_0 (p ∷ ps) = ok p

-- Whether a message says that the client is no longer on the channel. A `PART` without a prefix and a
-- `KICK` of fewer than two parameters are read out of range.
unfoldable pub takes_leave : Client → Message → Result Bool
takes_leave ec msg =
    if msg.command == cmd_part
    then etcdircd.Result.and_then (prefix_name msg.prefix) (λ n. ok (n == ec.nick))
    else if msg.command == cmd_kick
    then etcdircd.Result.and_then (param_1 msg.params) (λ n. ok (n == ec.nick))
    else ok false

abbrev pub unwatch : {V : Type 0} → Str → Exec (Watching V) Unit
unwatch ch s = (ok tt, record s { watched = λ c. if ch == c then false else s.watched c })

abbrev pub give_direct : {V : Type 0} → Message → Exec (Watching V) Unit
give_direct msg s = (ok tt, record s { direct = s.direct ++ msg ∷ [] })

module _ (e : Etcd) (ec : Client) where
  -- What follows a message that has been forwarded; `true` is the next turn of the loop.
  unfoldable pub after_msg : Message → Exec (Watching e.View) Bool
  unfolding takes_leave ◌>>=◌
  after_msg msg = do
    leaves ← lift (takes_leave ec msg)
    if leaves then (do ch ← lift (param_0 msg.params); unwatch ch; pure false) else pure true

  -- One event of `monitorMsg`; `sync` is the end of the `Encode` of `SendMsgSync`.
  unfoldable pub monitor_msg_event : Result (Unit {0}) → Event e.Blob → Exec (Watching e.View) Bool
  unfolding after_msg ◌>>=◌
  monitor_msg_event sync (deleted key previous rev) = do
    give_direct (record { prefix = some ec.host_pfx; command = cmd_error; params = [] })
    lift sync
    pure false
  monitor_msg_event sync (put key value rev lease) = elim (e.msg_codec.decode value) [
    | none ↦ pure true
    | some msg ↦ if is_echo ec msg then pure true else (do with_conn (send_msg msg); after_msg msg)
  ]

  -- The events of one response; `false` where the function has returned `nil`.
  unfoldable pub monitor_msg_events :
      Result (Unit {0}) → List (Event e.Blob) → Exec (Watching e.View) Bool
  unfolding monitor_msg_event ◌>>=◌
  monitor_msg_events sync [] = pure true
  monitor_msg_events sync (ev ∷ evs) =
      let rest = monitor_msg_events sync evs in
      do more ← monitor_msg_event sync ev; if more then rest else pure false

  -- `monitorMsg`; a response is its events or the error of `resp.Err()`, and `ctx` is `ec.ctx.Err()`.
  unfoldable pub monitor_msg :
      Result (Unit {0})
      → Result (Unit {0})
      → List (Result (List (Event e.Blob)))
      → Exec (Watching e.View) Unit
  unfolding monitor_msg_events ◌>>=◌
  monitor_msg sync ctx [] = lift ctx
  monitor_msg sync ctx (resp ∷ resps) =
      let rest = monitor_msg sync ctx resps in
      do evs ← lift resp; more ← monitor_msg_events sync evs; if more then rest else pure tt

  -- `sendParts`
  unfoldable pub part_users : Str → List UserValue → Exec (World e.View) Unit
  unfolding ◌>>=◌
  part_users ch [] = pure tt
  part_users ch (u ∷ us) = do
    user ← lift (must (second u.user))
    send_msg (record {
      prefix = some (record { name = u.nick; user = user; host = u.host });
      command = cmd_part;
      params = ch ∷ lit "session lost" ∷ [];
    })
    part_users ch us

-- An event of `monitorPart`, the store that its transaction finds, and how that ends.
pub record Turn (e : Etcd) : Type 0 where
  pub event : Event e.Blob
  pub store : e.View
  pub verdict : Result ℕ

module _ (e : Etcd) (range : Range e.View e.Blob) (ec : Client) where
  -- `Txn(If(ModRevision(k) = rev).Then(OpDelete(k))).Commit()`, whose end is not read.
  unfoldable pub delete_if : Str → ℕ → Result ℕ → e.View → e.View
  delete_if k rev (ok r) v = if e.rev v k == rev then e.commit r (e.del k v) else v
  delete_if k rev (err x) v = v
  delete_if k rev panic v = v

  -- The events of a list of members: put, and deleted.
  unfoldable pub part_event :
      Str → ℕ → (ℕ → Read e.View) → Result ℕ → Event e.Blob → Exec (World e.View) Unit
  unfolding delete_if part_users ◌>>=◌
  part_event ch lid reads verdict (put key value rev lease) = elim (e.nicks_codec.decode value) [
    | none ↦ pure tt
    | some cns ↦ if not (is_nil cns) || not (lease == lid) then pure tt else λ w.
        (ok tt, record w { db = delete_if key rev verdict w.db })
  ]
  part_event ch lid reads verdict (deleted key previous rev) = do
    value ← lift (must previous)
    elim (e.nicks_codec.decode value) [
      | none ↦ pure tt
      | some cns ↦ (do
        users ← lift (users_from_nicks e range ec (nicks cns) (rev - 1) (reads rev))
        part_users e ec ch users)
    ]

  unfoldable pub monitor_part_event :
      Str → ℕ → (ℕ → Read e.View) → Turn e → Exec (World e.View) Unit
  unfolding part_event
  monitor_part_event ch lid reads turn w =
      part_event ch lid reads turn.verdict turn.event (record w { db = turn.store })

  unfoldable pub monitor_part_events :
      Str → ℕ → (ℕ → Read e.View) → List (Turn e) → Exec (World e.View) Unit
  unfolding monitor_part_event ◌>>=◌
  monitor_part_events ch lid reads [] = pure tt
  monitor_part_events ch lid reads (turn ∷ turns) = do
    monitor_part_event ch lid reads turn
    monitor_part_events ch lid reads turns

  -- `monitorPart`: for each response its events, or its error, and the answer of `Session()`.
  unfoldable pub monitor_part :
      Str
      → (ℕ → Read e.View)
      → Result (Unit {0})
      → List (Result (List (Turn e)) × Result ℕ)
      → Exec (World e.View) Unit
  unfolding monitor_part_events ◌>>=◌
  monitor_part ch reads ctx [] = lift ctx
  monitor_part ch reads ctx ((resp, ses) ∷ resps) = do
    turns ← lift resp
    lid ← lift ses
    monitor_part_events ch lid reads turns
    monitor_part ch reads ctx resps
