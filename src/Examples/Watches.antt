-- ===== src/Examples/Watches.antt =====
-- etcd_client.go: the watches of a client on a channel.
use mathlib.Core.Path.{subst}
use etcdircd.Prelude.{
  ℕ, ◌≡◌, refl, sym, ap, ◌∙◌, true, some, List, [], ◌∷◌, ◌++◌, Str, lit, str_beq,
}
use etcdircd.Result.{Result, ok, err, canceled, ok_eq}
use etcdircd.Etcd.{Message, with_lease}
use etcdircd.Key.{key_user_ctl, key_chan_msg, key_chan_nicks, key_chan_ctl}
use etcdircd.Tables.Store.{tables, tables-commit, tables-put_nicks, set_members_self}
use etcdircd.Tables.Consistent.{IsConsistent}
use etcdircd.Client.Monitor.{Event, put, deleted, Turn, Watching, monitor_msg, monitor_part}
use etcdircd.Client.Monitor.Messages.{Forwarded, all_events, monitor_msg-Forwarded}
use etcdircd.Client.Monitor.Delivery.{AllStay, answered, all_wanted, monitor_msg-wanted}
use etcdircd.Client.Monitor.Parts.{IsGenuine, Allowed, AllAllowed, monitor_part-keeps}
use etcdircd.Sample.{
  Memory, Blob, msg, nicks, sample, harbour, ann, bob, sea, client_of, world_of, memory_put,
  memory_commit,
}
use etcdircd.Examples.Stored.{IsConsistent-harbour}

abbrev said_by : Str → Str → List Str → Message
said_by n cmd params = record {
  prefix = some (record { name = n; user = n; host = lit "host" });
  command = cmd;
  params = params;
}

abbrev posted : Message → Event Blob
posted m = put (key_chan_msg sea) (msg m) 6 0

abbrev talk : List (List (Event Blob))
talk =
    (posted (said_by bob (lit "PRIVMSG") (sea ∷ lit "hi" ∷ []))
      ∷ posted (said_by ann (lit "PRIVMSG") (sea ∷ lit "hello" ∷ []))
      ∷ [])
    ∷ (posted (said_by bob (lit "PART") (sea ∷ lit "bye" ∷ [])) ∷ [])
    ∷ []

abbrev watching : Watching Memory
watching = record { conn = world_of harbour; watched = λ ch. true; direct = [] }

monitor_msg-Forwarded_example :
    Forwarded sample
      (client_of ann)
      (all_events sample (client_of ann) (answered sample (client_of ann) talk))
      watching
      (monitor_msg sample
        (client_of ann)
        (ok tt)
        (err canceled)
        (answered sample (client_of ann) talk)
        watching).1
monitor_msg-Forwarded_example =
    monitor_msg-Forwarded sample (client_of ann) (ok tt) (err canceled)
      (answered sample (client_of ann) talk) watching

talk_stays : AllStay sample (client_of ann) talk
unfolding str_beq lit etcdircd.Client.Monitor.takes_leave
talk_stays = (refl, (refl, tt))

monitor_msg-wanted_example :
    ((monitor_msg sample
        (client_of ann)
        (ok tt)
        (ok tt)
        (answered sample (client_of ann) talk)
        watching).0
      ≡ ok tt)
    × ((monitor_msg sample
          (client_of ann)
          (ok tt)
          (ok tt)
          (answered sample (client_of ann) talk)
          watching).1.conn.sent
        ≡ [] ++ all_wanted sample (client_of ann) talk)
monitor_msg-wanted_example =
    monitor_msg-wanted sample (client_of ann) (ok tt) talk watching (λ n. refl) talk_stays

abbrev ice : Str
ice = lit "#ice"

-- The last member has left a channel.
abbrev left : Memory
left = memory_commit 6 (memory_put (key_chan_nicks ice 7) (nicks []) (with_lease 7) harbour)

abbrev last_part : Turn sample
last_part = record {
  event = put (key_chan_nicks ice 7) (nicks []) 6 7;
  store = left;
  verdict = ok 8;
}

no_members : (tables sample harbour).members ice 7 ≡ []
unfolding tables str_beq key_chan_nicks key_user_ctl key_chan_ctl lit etcdircd.Text.hex
no_members = refl

tables-left : tables sample left ≡ tables sample harbour
tables-left =
    tables-commit sample _ 6
    ∙ tables-put_nicks sample harbour (with_lease 7) ice 7 []
    ∙ set_members_self ice 7 [] (tables sample harbour) no_members

IsConsistent-left : IsConsistent (tables sample left)
IsConsistent-left = subst IsConsistent (sym tables-left) IsConsistent-harbour

put_eq :
    {k k' : Str} {v v' : Blob} {r r' l l' : ℕ} → put k v r l ≡ put k' v' r' l' → (k' ≡ k) × (v ≡ v')
put_eq h = (cc, cc)

left_value : sample.get left (key_chan_nicks ice 7) ≡ nicks []
unfolding str_beq key_chan_nicks lit etcdircd.Text.hex
left_value = refl

IsGenuine-last_part : IsGenuine sample last_part
IsGenuine-last_part = record {
  listed = λ key value rev lease h. (ice, 7, (put_eq h).0);
  current = λ key value rev lease h same.
      ap (λ k. sample.get left k) (put_eq h).0 ∙ left_value ∙ (put_eq h).1;
}

abbrev parting : List (Result (List (Turn sample)) × Result ℕ)
parting = (ok (last_part ∷ []), ok 7) ∷ []

parting_allowed : AllAllowed sample (λ v p. []) (client_of ann) IsConsistent parting
parting_allowed = (
  (λ turns h.
      subst (Allowed sample (λ v p. []) (client_of ann) IsConsistent) (ok_eq h)
        (IsGenuine-last_part, IsConsistent-left, tt)),
  tt,
)

monitor_part-keeps_example : IsConsistent (
    tables sample
      (monitor_part sample
        (λ v p. [])
        (client_of ann)
        ice
        (λ rev n. ok (left, 6))
        (ok tt)
        parting
        (world_of left)).1.db)
monitor_part-keeps_example =
    monitor_part-keeps sample (λ v p. []) (client_of ann) IsConsistent ice (λ rev n. ok (left, 6))
      (ok tt) parting (world_of left) parting_allowed IsConsistent-left
