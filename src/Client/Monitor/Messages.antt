-- ===== src/Client/Monitor/Messages.antt =====
-- etcd_client.go: which messages `monitorMsg` forwards.
use etcdircd.Prelude.{
  ℕ, ◌≡◌, refl, sym, ap, ◌∙◌, Bool, true, false, Option, some, List, [], ◌∷◌, ◌++◌, append_assoc,
  append-nil, Str, Bool-cases, Option-cases, inl, inr, if◌then◌else◌,
}
use etcdircd.Result.{Result, ok, err, panic}
use etcdircd.Exec.{Exec, pure, continue, ◌>>=◌}
use etcdircd.Etcd.{Etcd, Message}
use etcdircd.Client.{Client, send_msg}
use etcdircd.Client.Monitor.Still.{IsStill, still_laws}
use etcdircd.Client.Monitor.{
  Event, put, deleted, Watching, is_echo, with_conn, after_msg, monitor_msg_event,
  monitor_msg_events, monitor_msg,
}

module _ (e : Etcd) (ec : Client) where
  -- Messages that the puts of some events carry, in the order of the events, and none a `PRIVMSG` of the
  -- client itself.
  pub data Among : List Message → List (Event e.Blob) → Type 0 where
    no_more : (evs : List (Event e.Blob)) → Among [] evs
    skip :
        {ms : List Message} {evs : List (Event e.Blob)} (ev : Event e.Blob)
        → Among ms evs
        → Among ms (ev ∷ evs)
    take :
        {ms : List Message} {evs : List (Event e.Blob)} (msg : Message) (key : Str) (value : e.Blob)
        (rev lease : ℕ)
        → e.msg_codec.decode value ≡ some msg
        → is_echo ec msg ≡ false
        → Among ms evs
        → Among (msg ∷ ms) (put key value rev lease ∷ evs)

  -- What the connection has been given between two states.
  pub record Forwarded (evs : List (Event e.Blob)) (s s' : Watching e.View) : Type 0 where
    pub messages : List Message
    pub among : Among messages evs
    pub sent : s'.conn.sent ≡ s.conn.sent ++ messages

  skip_all :
      (evs : List (Event e.Blob)) {ms : List Message} {evs' : List (Event e.Blob)}
      → Among ms evs'
      → Among ms (evs ++ evs')
  skip_all [] a = a
  skip_all (ev ∷ evs) a = skip ev (skip_all evs a)

  Among-append :
      {ms ms' : List Message} {evs evs' : List (Event e.Blob)}
      → Among ms evs
      → Among ms' evs'
      → Among (ms ++ ms') (evs ++ evs')
  Among-append (no_more evs) b = skip_all evs b
  Among-append (skip ev a) b = skip ev (Among-append a b)
  Among-append (take msg key value rev lease h k a) b =
      take msg key value rev lease h k (Among-append a b)

  nothing_sent :
      (evs : List (Event e.Blob)) (s s' : Watching e.View)
      → s'.conn.sent ≡ s.conn.sent
      → Forwarded evs s s'
  nothing_sent evs s s' same = record {
    messages = [];
    among = no_more evs;
    sent = same ∙ sym (append-nil s.conn.sent);
  }

  Forwarded-append :
      (evs evs' : List (Event e.Blob)) (s s1 s2 : Watching e.View)
      → Forwarded evs s s1
      → Forwarded evs' s1 s2
      → Forwarded (evs ++ evs') s s2
  Forwarded-append evs evs' s s1 s2 f g = record {
    messages = f.messages ++ g.messages;
    among = Among-append f.among g.among;
    sent =
        g.sent ∙ ap (λ x. x ++ g.messages) f.sent ∙ append_assoc s.conn.sent f.messages g.messages;
  }

  after_msg-IsStill : (msg : Message) → IsStill (after_msg e ec msg)
  unfolding after_msg
  after_msg-IsStill msg = search still_laws depth 10

  deleted-IsStill :
      (sync : Result (Unit {0})) (key : Str) (previous : Option e.Blob) (rev : ℕ)
      → IsStill (monitor_msg_event e ec sync (deleted key previous rev))
  unfolding monitor_msg_event
  deleted-IsStill sync key previous rev = search still_laws depth 10

  -- A message that the connection is given is taken or refused.
  offered :
      (msg : Message) (key : Str) (value : e.Blob) (rev lease : ℕ) (s : Watching e.View)
      → e.msg_codec.decode value ≡ some msg
      → is_echo ec msg ≡ false
      → Forwarded
          (put key value rev lease ∷ [])
          s
          ((with_conn (send_msg msg) >>= λ x. after_msg e ec msg) s).1
  unfolding ◌>>=◌ send_msg
  offered msg key value rev lease s h k = elim (Bool-cases (s.conn.taken s.conn.tried)) [
    | inl yes' ↦ rw yes' (record {
      messages = msg ∷ [];
      among = take msg key value rev lease h k (no_more []);
      sent = ap (λ c. c.sent) ((after_msg-IsStill msg).keeps _);
    })
    | inr no' ↦ rw no' (nothing_sent _ s _ refl)
  ]

  monitor_msg_event-Forwarded :
      (sync : Result (Unit {0})) (ev : Event e.Blob) (s : Watching e.View)
      → Forwarded (ev ∷ []) s (monitor_msg_event e ec sync ev s).1
  unfolding monitor_msg_event
  monitor_msg_event-Forwarded sync (deleted key previous rev) s =
      nothing_sent _ s _ (ap (λ c. c.sent) ((deleted-IsStill sync key previous rev).keeps s))
  monitor_msg_event-Forwarded sync (put key value rev lease) s =
      elim (Option-cases (e.msg_codec.decode value)) [
        | inl bad ↦ rw (monitor_msg_event, bad) (nothing_sent _ s s refl)
        | inr (msg, h) ↦ elim (Bool-cases (is_echo ec msg)) [
          | inl echo ↦ rw (monitor_msg_event, h, echo) (nothing_sent _ s s refl)
          | inr other ↦ rw (monitor_msg_event, h, other) (offered msg key value rev lease s h other)
        ]
      ]

  -- A step and what follows it where the step succeeds.
  bind-Forwarded :
      {A B : Type 0} (m : Exec (Watching e.View) A) (f : A → Exec (Watching e.View) B)
      (evs evs' : List (Event e.Blob)) (s : Watching e.View)
      → Forwarded evs s (m s).1
      → ((a : A) (s1 : Watching e.View) → Forwarded evs' s1 (f a s1).1)
      → Forwarded (evs ++ evs') s ((m >>= f) s).1
  unfolding ◌>>=◌
  bind-Forwarded {A} {B} m f evs evs' s hm hf = after (m s) hm
    where
      after :
          (out : Result A × Watching e.View)
          → Forwarded evs s out.1
          → Forwarded (evs ++ evs') s (continue out.0 f out.1).1
      after (ok a, s1) h = Forwarded-append evs evs' s s1 _ h (hf a s1)
      after (err x, s1) h = Forwarded-append evs evs' s s1 s1 h (nothing_sent evs' s1 s1 refl)
      after (panic, s1) h = Forwarded-append evs evs' s s1 s1 h (nothing_sent evs' s1 s1 refl)

  if-Forwarded :
      {A : Type 0} (b : Bool) (m m' : Exec (Watching e.View) A) (evs : List (Event e.Blob))
      (s : Watching e.View)
      → Forwarded evs s (m s).1
      → Forwarded evs s (m' s).1
      → Forwarded evs s ((if b then m else m') s).1
  if-Forwarded true m m' evs s h h' = h
  if-Forwarded false m m' evs s h h' = h'

  monitor_msg_events-Forwarded :
      (sync : Result (Unit {0})) (evs : List (Event e.Blob)) (s : Watching e.View)
      → Forwarded evs s (monitor_msg_events e ec sync evs s).1
  unfolding monitor_msg_events
  monitor_msg_events-Forwarded sync [] s = nothing_sent [] s s refl
  monitor_msg_events-Forwarded sync (ev ∷ evs) s =
      bind-Forwarded (monitor_msg_event e ec sync ev) _ (ev ∷ []) evs s
        (monitor_msg_event-Forwarded sync ev s)
        (λ more s1.
          if-Forwarded more _ (pure false) evs s1 (monitor_msg_events-Forwarded sync evs s1)
            (nothing_sent evs s1 s1 refl))

  -- The events of the responses without an error.
  abbrev pub all_events : List (Result (List (Event e.Blob))) → List (Event e.Blob)
  all_events [] = []
  all_events (ok evs ∷ resps) = evs ++ all_events resps
  all_events (_ ∷ resps) = all_events resps

  -- However a watch of messages ends, what its connection has been given are messages that the puts of
  -- its events carry, in the order of the events, none twice, and none a `PRIVMSG` of the client itself.
  pub monitor_msg-Forwarded :
      (sync ctx : Result (Unit {0})) (resps : List (Result (List (Event e.Blob))))
      (s : Watching e.View)
      → Forwarded (all_events resps) s (monitor_msg e ec sync ctx resps s).1
  unfolding monitor_msg
  monitor_msg-Forwarded sync ctx [] s = nothing_sent [] s s refl
  monitor_msg-Forwarded sync ctx (err x ∷ resps) s = nothing_sent (all_events resps) s s refl
  monitor_msg-Forwarded sync ctx (panic ∷ resps) s = nothing_sent (all_events resps) s s refl
  monitor_msg-Forwarded sync ctx (ok evs ∷ resps) s =
      bind-Forwarded (monitor_msg_events e ec sync evs) _ evs (all_events resps) s
        (monitor_msg_events-Forwarded sync evs s)
        (λ more s1.
          if-Forwarded more _ (pure tt) (all_events resps) s1
            (monitor_msg-Forwarded sync ctx resps s1) (nothing_sent (all_events resps) s1 s1 refl))
