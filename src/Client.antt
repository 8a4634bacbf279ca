-- ===== src/Client.antt =====
-- etcd_client.go: the connected client, the messages that it sends, and its transactions.
--
-- A handler runs on a `World`: the store as it is when the handler's transaction commits, and the
-- connection. A send can be refused, when the context of the client is done before the writer takes
-- the message; which of the sends are taken is a parameter of the world.
pub mod Commit
pub mod Stm
pub mod Part
pub mod Join
pub mod Query
pub mod Names
pub mod Quiet
pub mod Lists
pub mod Monitor
pub mod Watches
pub mod Leases
pub mod Kick
pub mod Quit
pub mod Topic
pub mod PrivMsg
pub mod Oper
pub mod Away
pub mod Modes
use etcdircd.Prelude.{
  ℕ, suc, ◌+◌, Bool, Option, none, some, List, [], ◌∷◌, ◌++◌, Str, if◌then◌else◌,
}
use etcdircd.Result.{Result, ok, err, panic, Error, canceled}
use etcdircd.Exec.{Exec}
use etcdircd.Etcd.{Etcd, Prefix, Message, PutOption}

-- The fields of `etcdClient` that its handlers read, and the host prefix of its server.
pub record Client : Type 0 where
  pub nick : Str
  pub prefix : Prefix
  pub host_pfx : Prefix

pub record World (V : Type 0) : Type 0 where
  pub db : V
  pub taken : ℕ → Bool
  pub tried : ℕ
  pub sent : List Message

-- The flags that a transaction's closure captures, beside its view of the store.
pub record Scope (F V : Type 0) : Type 0 where
  pub flags : F
  pub view : V

-- How etcd treats a transaction: the snapshots of the attempts that met a conflict, in order, and
-- then the revision of the commit or the error that ends it.
pub record Fate (V : Type 0) : Type 0 where
  pub lost : List V
  pub verdict : Result ℕ

module _ {V : Type 0} where
  -- `Conn.SendMsg`
  unfoldable pub send_msg : Message → Exec (World V) Unit
  send_msg msg w =
      if w.taken w.tried
      then (ok tt, record w { tried = w.tried + 1; sent = w.sent ++ msg ∷ [] })
      else (err canceled, record w { tried = w.tried + 1 })

  unfoldable pub send_host_msg : Client → Str → List Str → Exec (World V) Unit
  send_host_msg ec cmd params =
      send_msg (record { prefix = some ec.host_pfx; command = cmd; params = ec.nick ∷ params })

module _ {F V : Type 0} where
  -- An attempt whose closure fails ends the transaction; else the next one is made.
  abbrev pub after_attempt : Result (Unit {0}) × Scope F V → (F → Result F) → Result F
  after_attempt (ok x, s) next = next s.flags
  after_attempt (err x, s) next = err x
  after_attempt (panic, s) next = panic

  -- The attempts that meet a conflict write nothing, but they leave their flags to the next one.
  unfoldable pub replay : Exec (Scope F V) Unit → F → List V → Result F
  replay f fl [] = ok fl
  replay f fl (v ∷ vs) =
      after_attempt (f (record { flags = fl; view = v })) (λ fl'. replay f fl' vs)

module _ (e : Etcd) {F : Type 0} where
  -- The attempt that is not lost, and its commit.
  unfoldable pub settle :
      Result (Unit {0}) × Scope F e.View → Result ℕ → Exec (World e.View) (F × ℕ)
  settle (ok x, s) (ok r) w = (ok (s.flags, r), record w { db = e.commit r s.view })
  settle (ok x, s) (err x') w = (err x', w)
  settle (ok x, s) panic w = (panic, w)
  settle (err x, s) v w = (err x, w)
  settle (panic, s) v w = (panic, w)

  -- The attempt that reads the store of the world, once the others are lost.
  abbrev pub last_attempt :
      Exec (Scope F e.View) Unit → Result ℕ → Result F → Exec (World e.View) (F × ℕ)
  last_attempt f verdict (ok fl) w = settle (f (record { flags = fl; view = w.db })) verdict w
  last_attempt f verdict (err x) w = (err x, w)
  last_attempt f verdict panic w = (panic, w)

  -- `doSTM`, with the values that the captured flags have before it and after it.
  unfoldable pub do_stm : Exec (Scope F e.View) Unit → F → Fate e.View → Exec (World e.View) (F × ℕ)
  unfolding replay settle
  do_stm f fl fate w = last_attempt f fate.verdict (replay f fl fate.lost) w

  abbrev pub stm_get : Str → Exec (Scope F e.View) e.Blob
  stm_get k s = (ok (e.get s.view k), s)

  abbrev pub stm_rev : Str → Exec (Scope F e.View) ℕ
  stm_rev k s = (ok (e.rev s.view k), s)

  abbrev pub stm_put : Str → e.Blob → PutOption → Exec (Scope F e.View) Unit
  stm_put k v o s = (ok tt, record s { view = e.put k v o s.view })

  abbrev pub stm_del : Str → Exec (Scope F e.View) Unit
  stm_del k s = (ok tt, record s { view = e.del k s.view })

  abbrev pub set_flags : F → Exec (Scope F e.View) Unit
  set_flags fl s = (ok tt, record s { flags = fl })
