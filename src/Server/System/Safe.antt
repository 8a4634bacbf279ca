-- ===== src/Server/System/Safe.antt =====
-- The servers on one etcd: the tables are sound in every state that they reach, as long as each message
-- is handled under the lease of the client's record.
use etcdircd.Prelude.{ℕ, []}
use etcdircd.Etcd.{Etcd}
use etcdircd.Key.{key_user_ctl}
use etcdircd.Tables.Store.{tables}
use etcdircd.Client.Commit.{IsStored}
use etcdircd.Client.Query.{Range}
use etcdircd.Client.Leases.{IsLeased}
use etcdircd.Client.Leases.Expiry.{tables-expire, expired-IsLeased}
use etcdircd.Moves.Sound.{IsSound}
use etcdircd.Moves.Changes.{rest, later, expired, Changes-IsSound}
use etcdircd.Moves.Under.{IsUnder}
use etcdircd.Server.Register.Changes.{new_etcd_client-Changes, new_etcd_client-IsLeased}
use etcdircd.Server.Calls.Laws.{IsSessionOf, AllStored}
use etcdircd.Server.Calls.Leases.{handle-IsLeased}
use etcdircd.Server.Loop.{with_store}
use etcdircd.Server.Loop.Laws.{handle-Moves, Moves-Changes}
use etcdircd.Server.System.{
  System, SystemStep, opened, met, closed, lease_ended, Reach, start, and_then,
}

-- The tables are sound, and each key is under the lease that it should have.
pub record IsSafe (e : Etcd) (s : System e.View) : Type 0 where
  pub sound : IsSound (tables e s.store)
  pub leased : IsLeased e s.store

module _ (e : Etcd) (range : Range e.View e.Blob) where
  -- What is asked of an event. A message is handled while the record of the nick of the client, if there
  -- is one, is under the lease of the session that the handlers get. And a key that the store holds has
  -- a revision, as it has in etcd.
  abbrev pub Regular : {s s' : System e.View} → SystemStep e range s s' → Type 0
  Regular {s} (opened cfg cr now ses verdict w) = IsStored e (key_user_ctl cr.nick) s.store
  Regular {s} (met cfg client turn i w a) =
      (lid : ℕ) × IsSessionOf lid turn
      × IsUnder lid client.nick (tables e s.store)
      × AllStored e s.store
  Regular (closed w) = Unit
  Regular (lease_ended id x) = Unit

  abbrev pub AllRegular : {s s' : System e.View} → Reach e range s s' → Type 0
  AllRegular start = Unit
  AllRegular (and_then r ev) = AllRegular r × Regular ev

  -- Such an event keeps the tables sound, and every key under the lease that its record or list names.
  pub SystemStep-IsSafe :
      {s s' : System e.View} (ev : SystemStep e range s s') → Regular ev → IsSafe e s → IsSafe e s'
  SystemStep-IsSafe {s} (opened cfg cr now ses verdict w) stored h =
      let w0 = with_store s.store w in
      record {
        sound =
            Changes-IsSound (new_etcd_client-Changes e cfg cr now w0 stored ses verdict) h.sound;
        leased = new_etcd_client-IsLeased e cfg cr now w0 h.leased ses verdict;
      }
  SystemStep-IsSafe {s} (met cfg client turn i w a) (lid, session, under, stored) h =
      let w0 = with_store s.store w in
      record {
        sound =
            Changes-IsSound
              (Moves-Changes (handle-Moves e range cfg client lid turn i w0 session under stored))
              h.sound;
        leased = handle-IsLeased e range client turn lid session cfg i w0 under stored h.leased;
      }
  SystemStep-IsSafe (closed w) reg h = record { sound = h.sound; leased = h.leased }
  SystemStep-IsSafe {s} (lease_ended {v} id x) reg h = record {
    sound =
        Changes-IsSound (later rest (expired id (tables-expire e id s.store v x h.leased))) h.sound;
    leased = expired-IsLeased e id s.store v x h.leased;
  }

  -- In every state that the servers reach from a store without connections that is sound and has its
  -- keys under their leases, by any sequence of connections, which may ask for nicks that are in use,
  -- of messages, closed connections and ended leases: each record has the nick of its key; the member
  -- lists of each server name exactly the users whose records are under its lease, on the channels of
  -- their records and as often; and etcd keeps each record and each list under the lease that it names.
  -- This holds if each message is handled while the record of the client's nick, when there is one, is
  -- under the lease of the session that the handlers get; and if the keys that the store holds have
  -- revisions.
  pub Reach-IsSafe :
      (v : e.View) {s : System e.View}
      → IsSound (tables e v)
      → IsLeased e v
      → (r : Reach e range (record { store = v; live = [] }) s) → AllRegular r
      → IsSafe e s
  Reach-IsSafe v sound leased start reg = record { sound = sound; leased = leased }
  Reach-IsSafe v sound leased (and_then r ev) (regs, reg) =
      SystemStep-IsSafe ev reg (Reach-IsSafe v sound leased r regs)
