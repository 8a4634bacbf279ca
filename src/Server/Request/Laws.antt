-- ===== src/Server/Request/Laws.antt =====
-- server.go: when `readConnRequest` has a request.
use etcdircd.Prelude.{
  ◌≡◌, refl, Bool, true, false, not, ◌&&◌, ◌||◌, some, List, [], ◌∷◌, Str, lit, str_beq, ◌==◌,
  str_eq, is_nil, arith, any, Bool-cases, inl, inr, eq_of_==,
}
use etcdircd.Result.{ok}
use etcdircd.Etcd.{Message}
use etcdircd.Reply.{cmd_cap, cmd_nick, cmd_user}
use etcdircd.Server.Request.{
  Reading, Accepted, accepted, no_request, first_param, take_in, is_complete, read_conn_request,
}

abbrev pub is_nick : Message → Bool
is_nick m = m.command == cmd_nick

abbrev pub is_user : Message → Bool
is_user m = m.command == cmd_user

-- A `CAP` has a parameter, a `NICK` one that is not empty, and a `USER` some parameters.
abbrev usable_with : Message → List Str → Bool
usable_with m [] = not (m.command == cmd_cap || (is_nick m || is_user m))
usable_with m (p ∷ ps) = not (is_nick m && is_nil p)

abbrev pub is_usable : Message → Bool
is_usable m = usable_with m m.params

abbrev pub all_usable : List Message → Bool
all_usable [] = true
all_usable (m ∷ ms) = is_usable m && all_usable ms

abbrev knows_nick : Reading → Bool
knows_nick rd = not (is_nil rd.request.nick)

abbrev knows_user : Reading → Bool
knows_user rd = not (is_nil rd.request.user)

-- What is known after a message.
record TakenIn (rd : Reading) (m : Message) : Type 0 where
  after : Reading
  taken : take_in rd m ≡ ok after
  nick : knows_nick after ≡ (knows_nick rd || is_nick m)
  user : knows_user after ≡ (knows_user rd || is_user m)

or_false : (b : Bool) → b ≡ (b || false)
or_false true = refl
or_false false = refl

or_true : (a b : Bool) → a ≡ true → a ≡ (b || true)
or_true a true h = h
or_true a false h = h

-- A message that is neither leaves the request alone.
no_news :
    (rd rd' : Reading) (m : Message)
    → rd'.request ≡ rd.request
    → is_nick m ≡ false
    → is_user m ≡ false
    → take_in rd m ≡ ok rd'
    → TakenIn rd m
no_news rd rd' m same no_nick no_user h = record {
  after = rd';
  taken = h;
  nick = rw (same, no_nick) (or_false (knows_nick rd));
  user = rw (same, no_user) (or_false (knows_user rd));
}

module _ (rd : Reading) (m : Message) where
  not_cap : is_nick m ≡ true → (m.command == cmd_cap) ≡ false
  unfolding str_beq lit
  not_cap h = rw (eq_of_== m.command cmd_nick h)

  take_in_cap :
      (p : Str) → first_param m.params ≡ some p → (m.command == cmd_cap) ≡ true → TakenIn rd m
  unfolding take_in str_beq lit
  take_in_cap p h cap =
      let named = eq_of_== m.command cmd_cap cap in
      elim (Bool-cases rd.got_cap) [
        | inl got ↦ no_news rd rd m refl (rw named) (rw named) (rw (cap, got))
        | inr first ↦
            no_news rd (record rd { got_cap = p == lit "LS" }) m refl (rw named) (rw named)
              (rw (cap, first, h))
      ]

  take_in_nick :
      (p : Str) → first_param m.params ≡ some p → is_nil p ≡ false → is_nick m ≡ true → TakenIn rd m
  unfolding take_in str_beq lit
  take_in_nick p h filled nick =
      let named = eq_of_== m.command cmd_nick nick in
      record {
        after = record rd { request = record { nick = p; user = rd.request.user } };
        taken = rw (not_cap nick, nick, h);
        nick = rw nick (or_true _ (knows_nick rd) (rw filled));
        user = rw named (or_false (knows_user rd));
      }

  take_in_user : is_nil m.params ≡ false → is_user m ≡ true → TakenIn rd m
  unfolding take_in str_beq lit
  take_in_user filled user =
      let named = eq_of_== m.command cmd_user user in
      record {
        after = record rd { request = record { nick = rd.request.nick; user = m.params } };
        taken = rw named;
        nick = rw named (or_false (knows_nick rd));
        user = rw user (or_true _ (knows_user rd) (rw filled));
      }

  take_in_other :
      (m.command == cmd_cap) ≡ false → is_nick m ≡ false → is_user m ≡ false → TakenIn rd m
  unfolding take_in
  take_in_other no_cap no_nick no_user =
      no_news rd rd m refl no_nick no_user (rw (no_cap, no_nick, no_user))

neither : (a b c : Bool) → not (a || (b || c)) ≡ true → (a ≡ false) × (b ≡ false) × (c ≡ false)
neither false false false h = (refl, refl, refl)
neither true b c h = absurd (ground arith)
neither false true c h = absurd (ground arith)
neither false false true h = absurd (ground arith)

take_in-TakenIn : (rd : Reading) (m : Message) → is_usable m ≡ true → TakenIn rd m
take_in-TakenIn rd m = by_params m.params refl
  where
    by_params : (ps : List Str) → m.params ≡ ps → usable_with m ps ≡ true → TakenIn rd m
    by_params [] none' h =
        let (no_cap, no_nick, no_user) = neither _ (is_nick m) (is_user m) h in
        take_in_other rd m no_cap no_nick no_user
    by_params (p ∷ ps) some' h = elim (Bool-cases (is_nick m)) [
      | inl nick ↦ take_in_nick rd m p (rw some') (ground arith) nick
      | inr no_nick ↦ elim (Bool-cases (m.command == cmd_cap)) [
        | inl cap ↦ take_in_cap rd m p (rw some') cap
        | inr no_cap ↦ elim (Bool-cases (is_user m)) [
          | inl user ↦ take_in_user rd m (rw some') user
          | inr no_user ↦ take_in_other rd m no_cap no_nick no_user
        ]
      ]
    ]

known_then : (k k' h r : Bool) → k' ≡ (k || h) → (k || (h || r)) ≡ true → (k' || r) ≡ true
known_then k k' h r e o = ground arith

read_conn_request_from :
    (msgs : List Message) (rd : Reading)
    → is_complete rd.request ≡ false
    → all_usable msgs ≡ true
    → (knows_nick rd || any is_nick msgs) ≡ true
    → (knows_user rd || any is_user msgs) ≡ true
    → (acc : Accepted) × (read_conn_request rd msgs ≡ ok (some acc))
unfolding read_conn_request any
read_conn_request_from [] rd open' usable nick user = absurd (ground arith)
read_conn_request_from (m ∷ ms) rd open' usable nick user =
    let step = take_in-TakenIn rd m (ground arith) in
    elim (Bool-cases (is_complete step.after.request)) [
      | inl done ↦ (accepted step.after ms, rw (step.taken, done))
      | inr more ↦
          let rest =
            read_conn_request_from ms step.after more (ground arith)
              (known_then (knows_nick rd) _ (is_nick m) _ step.nick nick)
              (known_then (knows_user rd) _ (is_user m) _ step.user user) in
          (rest.0, rw (step.taken, more) rest.1)
    ]

-- If every `CAP` that comes in has a parameter, every `NICK` one that is not empty and every `USER`
-- some, and there is a `NICK` and a `USER` among the messages, in any order and between any others,
-- then the request is read.
pub read_conn_request_answers :
    (msgs : List Message)
    → all_usable msgs ≡ true
    → any is_nick msgs ≡ true
    → any is_user msgs ≡ true
    → (acc : Accepted) × (read_conn_request no_request msgs ≡ ok (some acc))
read_conn_request_answers msgs usable nick user =
    read_conn_request_from msgs no_request refl usable nick user
