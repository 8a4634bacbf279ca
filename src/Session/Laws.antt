-- ===== src/Session/Laws.antt =====
-- session.go: a session that `Session()` returns is never nil, and the goroutine can always go on.
use etcdircd.Prelude.{
  ℕ, suc, ◌≡◌, refl, ap, Bool, true, false, not, ◌&&◌, ltb, Option, none, some, ◌==◌, nat_eq,
  ==-self, arith, inl, inr, ◌⊎◌,
}
use etcdircd.Result.{Result, ok, err, canceled}
use etcdircd.Session.{
  Phase, creating, retrying, publishing, serving, renewing, pausing, closing, ended, storing,
  EtcdSession, new_etcd_session, at_phase, store_session, close_ready, renew_ready, Step, Steps,
  Answer,
}

abbrev pub is_some : Option ℕ → Bool
is_some none = false
is_some (some id) = true

-- What holds of the current channel and the session at each place of the goroutine: whether the channel
-- is closed, where that is known, and whether there is a session.
abbrev pub fits : Phase → Bool → Option ℕ → Bool
fits creating c s = not c
fits retrying c s = not c
fits (storing id) c s = not c
fits publishing c s = not c && is_some s
fits serving c s = c && is_some s
fits renewing c s = c && is_some s
fits pausing c s = not c && is_some s
fits closing c s = true
fits ended c s = true

pub record IsSound (es : EtcdSession) : Type 0 where
  pub current : fits es.phase (es.closed es.readyc) es.s ≡ true
  pub later : (c : ℕ) → ltb es.readyc c ≡ true → es.closed c ≡ false
  pub earlier : (c : ℕ) → es.closed c ≡ true → is_some es.s ≡ true

pub new_etcd_session-IsSound : IsSound new_etcd_session
new_etcd_session-IsSound = record {
  current = refl;
  later = λ c h. refl;
  earlier = λ c h. absurd (ground arith);
}

at_phase-IsSound :
    (p : Phase) (es : EtcdSession)
    → (fits es.phase (es.closed es.readyc) es.s ≡ true → fits p (es.closed es.readyc) es.s ≡ true)
    → IsSound es
    → IsSound (at_phase p es)
at_phase-IsSound p es f h = record { current = f h.current; later = h.later; earlier = h.earlier }

pub both : (a b : Bool) → (a && b) ≡ true → (a ≡ true) × (b ≡ true)
both true true h = (refl, refl)
both true false h = absurd (ground arith)
both false b h = absurd (ground arith)

ne_of_ltb : (a b : ℕ) → ltb a b ≡ true → (a == b) ≡ false
ne_of_ltb a b h = ground arith

ltb_next : (a : ℕ) → ltb a (suc a) ≡ true
ltb_next a = ground arith

ltb_of_next : (a b : ℕ) → ltb (suc a) b ≡ true → ltb a b ≡ true
ltb_of_next a b h = ground arith

store_session-IsSound :
    (es : EtcdSession) (id : ℕ)
    → not (es.closed es.readyc) ≡ true
    → IsSound es
    → IsSound (store_session id es)
store_session-IsSound es id k h = record { current = rw k; later = h.later; earlier = λ c k'. refl }

-- The channel that is closed is the current one, which is open.
close_ready-IsSound :
    (es : EtcdSession)
    → (not (es.closed es.readyc) && is_some es.s) ≡ true
    → IsSound es
    → IsSound (close_ready es)
close_ready-IsSound es k h =
    let there = (both (not (es.closed es.readyc)) (is_some es.s) k).1 in
    record {
      current = rw (==-self es.readyc) there;
      later = λ c l. rw (ne_of_ltb es.readyc c l) (h.later c l);
      earlier = λ c k'. there;
    }

renew_ready-IsSound :
    (es : EtcdSession)
    → (es.closed es.readyc && is_some es.s) ≡ true
    → IsSound es
    → IsSound (renew_ready es)
renew_ready-IsSound es k h = record {
  current =
      rw (h.later (suc es.readyc) (ltb_next es.readyc))
        (both (es.closed es.readyc) (is_some es.s) k).1;
  later = λ c l. h.later c (ltb_of_next es.readyc c l);
  earlier = h.earlier;
}

Step-IsSound : {es es' : EtcdSession} → Step es es' → IsSound es → IsSound es'
Step-IsSound (Step.failed {es} p) h = at_phase-IsSound retrying es (λ k. rw p at k) h
Step-IsSound (Step.made {es} id p on) h = at_phase-IsSound (storing id) es (λ k. rw p at k) h
Step-IsSound (Step.waited {es} p) h = at_phase-IsSound creating es (λ k. rw p at k) h
Step-IsSound (Step.stored {es} id p) h = store_session-IsSound es id (rw p at h.current) h
Step-IsSound (Step.published {es} p) h = close_ready-IsSound es (rw p at h.current) h
Step-IsSound (Step.lost {es} p) h = at_phase-IsSound renewing es (λ k. rw p at k) h
Step-IsSound (Step.renewed {es} p) h = renew_ready-IsSound es (rw p at h.current) h
Step-IsSound (Step.resumed {es} p) h =
    at_phase-IsSound creating es
      (λ k. (both (not (es.closed es.readyc)) (is_some es.s) (rw p at k)).0) h
Step-IsSound (Step.stopped {es} w c) h = at_phase-IsSound closing es (λ k. refl) h
Step-IsSound (Step.finished {es} p) h = at_phase-IsSound ended es (λ k. refl) h
Step-IsSound (Step.cancelled {es}) h = record {
  current = h.current;
  later = h.later;
  earlier = h.earlier;
}

pub Steps-IsSound : {es es' : EtcdSession} → Steps es es' → IsSound es → IsSound es'
Steps-IsSound Steps.stay h = h
Steps-IsSound (Steps.then run step) h = Step-IsSound step (Steps-IsSound run h)

some_of : (o : Option ℕ) → is_some o ≡ true → (id : ℕ) × (o ≡ some id)
some_of none h = absurd (ground arith)
some_of (some id) h = (id, refl)

-- A call of `Session()` that reads the current channel at some moment and is answered at a later one,
-- however often the session was lost in between, gets a session or the error of the context: it never
-- gets no session without an error.
pub Session_answers :
    (es es' : EtcdSession) (out : Result (Option ℕ))
    → Steps new_etcd_session es
    → Steps es es'
    → Answer es' es.readyc out
    → (out ≡ err canceled) ⊎ ((id : ℕ) × (out ≡ ok (some id)))
Session_answers es es' out before during (Answer.late k) = inl refl
Session_answers es es' out before during (Answer.ready closed on) =
    let sound = Steps-IsSound during (Steps-IsSound before new_etcd_session-IsSound) in
    let (id, is) = some_of es'.s (sound.earlier es.readyc closed) in inr (id, ap ok is)

-- `close` is called on a channel that is open: the goroutine never panics there.
pub close_ready_open :
    (es : EtcdSession)
    → Steps new_etcd_session es
    → es.phase ≡ publishing
    → es.closed es.readyc ≡ false
close_ready_open es run p =
    let sound = Steps-IsSound run new_etcd_session-IsSound in
    let k : (not (es.closed es.readyc) && is_some es.s) ≡ true = rw p at sound.current in
    let open' = (both (not (es.closed es.readyc)) (is_some es.s) k).0 in ground arith
