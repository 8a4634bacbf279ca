-- ===== src/Client/Watches/Laws.antt =====
-- etcd_client.go: which watches end when the client leaves a channel.
use etcdircd.Prelude.{
  ℕ, ◌<◌, ◌≡◌, refl, Bool, true, false, Option, none, some, List, [], ◌∷◌, Str, ◌==◌, nat_eq,
  str_eq, if◌then◌else◌, ==-self,
}
use etcdircd.Client.Watches.{
  Watch, of_members, Watches, no_watches, monitor_channel, leave_channel, close_client, is_live,
}

pub data Started (w : Watch) : List Watch → Type 0 where
  at_head : {ws : List Watch} → Started w (w ∷ ws)
  further : {v : Watch} {ws : List Watch} → Started w ws → Started w (v ∷ ws)

-- What a client does with its watches, in any order: it joins a channel, whether or not it watches it,
-- a watch on a channel meets the client's own leave, and the client is closed.
pub data WatchStep (ws : Watches) : Watches → Type 0 where
  joined : (ch : Str) (rev : ℕ) → WatchStep ws (monitor_channel ch rev ws)
  left : (ch : Str) → WatchStep ws (leave_channel ch ws)
  shut : WatchStep ws (close_client ws)

pub data WatchReach : Watches → Type 0 where
  start : WatchReach no_watches
  onward : {ws ws' : Watches} → WatchReach ws → WatchStep ws ws' → WatchReach ws'

-- The context of the last JOIN of a channel.
abbrev pub last_join : Str → List Watch → Option ℕ
last_join ch [] = none
last_join ch (w ∷ ws) = if w.channel == ch then some w.context else last_join ch ws

abbrev pub is_just : Option ℕ → ℕ → Bool
is_just none c = false
is_just (some f) c = f == c

-- Whether a watch is one of those that the last JOIN of its channel has started.
abbrev pub is_of_last_join : Watches → Watch → Bool
is_of_last_join ws w = is_just (last_join w.channel ws.started) w.context

record IsTracked (ws : Watches) : Type 0 where
  current : (ch : Str) (c : ℕ) → ws.ch_cancel ch ≡ some c → last_join ch ws.started ≡ some c
  dropped :
      (ch : Str) (c : ℕ)
      → ws.ch_cancel ch ≡ none
      → last_join ch ws.started ≡ some c
      → ws.canceled c ≡ true
  fresh : (w : Watch) → Started w ws.started → w.context < ws.next
  own :
      (w v : Watch)
      → Started w ws.started
      → Started v ws.started
      → w.context ≡ v.context
      → w.channel ≡ v.channel

-- A channel that is joined again while it is watched has two watches on its members, and the one of
-- the first JOIN still runs after the client has left the channel.
pub second_join_leaks :
    (ch : Str) (rev rev' : ℕ)
    → is_live
        (leave_channel ch (monitor_channel ch rev' (monitor_channel ch rev no_watches)))
        (record { channel = ch; kind = of_members; context = 0; from_rev = rev })
      ≡ true
second_join_leaks ch rev rev' = rw (==-self ch) refl
