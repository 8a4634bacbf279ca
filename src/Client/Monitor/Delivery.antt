-- ===== src/Client/Monitor/Delivery.antt =====
-- etcd_client.go: `monitorMsg` forwards all that it should.
use etcdircd.Prelude.{
  ℕ, ◌≡◌, refl, sym, ap, ◌∙◌, Bool, true, false, ◌&&◌, ◌||◌, Option, none, some, List, [], ◌∷◌,
  ◌++◌, append_assoc, append-nil, Str, Bool-cases, Option-cases, inl, inr, if◌then◌else◌, arith,
}
use etcdircd.Result.{Result, ok, err, panic}
use etcdircd.Exec.{Exec, ◌>>=◌}
use etcdircd.Etcd.{Etcd, Message}
use etcdircd.Client.{Client, send_msg}
use etcdircd.Client.Quiet.{Takes}
use etcdircd.Client.Monitor.{
  Event, put, deleted, Watching, is_echo, takes_leave, after_msg, monitor_msg_event,
  monitor_msg_events, monitor_msg,
}

abbrev is_ok_false : Result Bool → Bool
is_ok_false (ok false) = true
is_ok_false _ = false

ok_false : (r : Result Bool) → is_ok_false r ≡ true → r ≡ ok false
ok_false (ok false) h = refl
ok_false (ok true) h = absurd (ground arith)
ok_false (err x) h = absurd (ground arith)
ok_false panic h = absurd (ground arith)

module _ (e : Etcd) (ec : Client) where
  abbrev wanted_of : Option Message → List Message
  wanted_of none = []
  wanted_of (some msg) = if is_echo ec msg then [] else msg ∷ []

  -- The messages that the puts of some events carry, but for the `PRIVMSG`s of the client itself.
  abbrev pub wanted : List (Event e.Blob) → List Message
  wanted [] = []
  wanted (put key value rev lease ∷ evs) = wanted_of (e.msg_codec.decode value) ++ wanted evs
  wanted (deleted key previous rev ∷ evs) = wanted evs

  abbrev keeps_watch : Option Message → Bool
  keeps_watch none = true
  keeps_watch (some msg) = is_echo ec msg || is_ok_false (takes_leave ec msg)

  -- The events are puts, and no message says that the client has left.
  abbrev pub all_stay : List (Event e.Blob) → Bool
  all_stay [] = true
  all_stay (put key value rev lease ∷ evs) = keeps_watch (e.msg_codec.decode value) && all_stay evs
  all_stay (deleted key previous rev ∷ evs) = false

  -- The loop goes on, and the connection has been given the messages.
  pub record Goes {A : Type 0} (out : Result A × Watching e.View) (a : A) (s : Watching e.View)
      (ms : List Message) : Type 0 where
    pub result : out.0 ≡ ok a
    pub sent : out.1.conn.sent ≡ s.conn.sent ++ ms
    pub taken : Takes out.1.conn

  event-Goes :
      (sync : Result (Unit {0})) (key : Str) (value : e.Blob) (rev lease : ℕ) (s : Watching e.View)
      → Takes s.conn
      → keeps_watch (e.msg_codec.decode value) ≡ true
      → Goes
          (monitor_msg_event e ec sync (put key value rev lease) s)
          true
          s
          (wanted_of (e.msg_codec.decode value))
  unfolding monitor_msg_event after_msg send_msg ◌>>=◌
  event-Goes sync key value rev lease s takes stays =
      elim (Option-cases (e.msg_codec.decode value)) [
        | inl bad ↦
            rw (monitor_msg_event, bad)
              (record { result = refl; sent = sym (append-nil s.conn.sent); taken = takes })
        | inr (msg, h) ↦ elim (Bool-cases (is_echo ec msg)) [
          | inl echo ↦
              rw (monitor_msg_event, h, echo)
                (record { result = refl; sent = sym (append-nil s.conn.sent); taken = takes })
          | inr other ↦
              let stay : takes_leave ec msg ≡ ok false = ok_false _ (rw (h, other) at stays) in
              rw (monitor_msg_event, h, other, takes s.conn.tried, stay)
                (record { result = refl; sent = refl; taken = takes })
        ]
      ]

  bind-Goes :
      {A B : Type 0} (m : Exec (Watching e.View) A) (f : A → Exec (Watching e.View) B)
      (s : Watching e.View) (a : A) (b : B) (ms ms' : List Message)
      → Goes (m s) a s ms
      → Goes (f a (m s).1) b (m s).1 ms'
      → Goes ((m >>= f) s) b s (ms ++ ms')
  unfolding ◌>>=◌
  bind-Goes m f s a b ms ms' h k = rw h.result (record {
    result = k.result;
    sent = k.sent ∙ ap (λ x. x ++ ms') h.sent ∙ append_assoc s.conn.sent ms ms';
    taken = k.taken;
  })

  stays_first :
      (evs : List (Event e.Blob)) (b : Bool)
      → (b && all_stay evs) ≡ true
      → (b ≡ true) × (all_stay evs ≡ true)
  stays_first evs true h = (refl, h)
  stays_first evs false h = absurd (ground arith)

  events-Goes :
      (sync : Result (Unit {0})) (evs : List (Event e.Blob)) (s : Watching e.View)
      → Takes s.conn
      → all_stay evs ≡ true
      → Goes (monitor_msg_events e ec sync evs s) true s (wanted evs)
  unfolding monitor_msg_events
  events-Goes sync [] s takes stay = record {
    result = refl;
    sent = sym (append-nil s.conn.sent);
    taken = takes;
  }
  events-Goes sync (deleted key previous rev ∷ evs) s takes stay = absurd (ground arith)
  events-Goes sync (put key value rev lease ∷ evs) s takes stay =
      let (here, later) = stays_first evs (keeps_watch (e.msg_codec.decode value)) stay in
      let first = event-Goes sync key value rev lease s takes here in
      bind-Goes (monitor_msg_event e ec sync (put key value rev lease)) _ s true true _ (wanted evs)
        first
        (events-Goes sync evs (monitor_msg_event e ec sync (put key value rev lease) s).1
          first.taken later)

  abbrev pub answered : List (List (Event e.Blob)) → List (Result (List (Event e.Blob)))
  answered [] = []
  answered (evs ∷ rest) = ok evs ∷ answered rest

  abbrev pub all_wanted : List (List (Event e.Blob)) → List Message
  all_wanted [] = []
  all_wanted (evs ∷ rest) = wanted evs ++ all_wanted rest

  abbrev pub AllStay : List (List (Event e.Blob)) → Type 0
  AllStay [] = Unit
  AllStay (evs ∷ rest) = (all_stay evs ≡ true) × AllStay rest

  -- If the responses of a watch are without errors, and in their events nothing is deleted and no
  -- message takes the client off the channel, then over a connection that takes every message the watch
  -- forwards all messages of the puts, in order, but for the `PRIVMSG`s of the client itself, and ends
  -- with the context of the client.
  pub monitor_msg-wanted :
      (sync : Result (Unit {0})) (resps : List (List (Event e.Blob))) (s : Watching e.View)
      → Takes s.conn
      → AllStay resps
      → ((monitor_msg e ec sync (ok tt) (answered resps) s).0 ≡ ok tt)
        × ((monitor_msg e ec sync (ok tt) (answered resps) s).1.conn.sent
            ≡ s.conn.sent ++ all_wanted resps)
  unfolding monitor_msg
  monitor_msg-wanted sync resps s takes stay = let g = go resps s takes stay in (g.result, g.sent)
    where
      go :
          (resps : List (List (Event e.Blob))) (s : Watching e.View)
          → Takes s.conn
          → AllStay resps
          → Goes (monitor_msg e ec sync (ok tt) (answered resps) s) tt s (all_wanted resps)
      go [] s takes stay = record {
        result = refl;
        sent = sym (append-nil s.conn.sent);
        taken = takes;
      }
      go (evs ∷ rest) s takes (here, later) =
          let first = events-Goes sync evs s takes here in
          bind-Goes (monitor_msg_events e ec sync evs) _ s true tt (wanted evs) (all_wanted rest)
            first (go rest (monitor_msg_events e ec sync evs s).1 first.taken later)
