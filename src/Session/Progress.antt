-- ===== src/Session/Progress.antt =====
-- session.go: there is always a way to the next session, and to the end of the goroutine.
use etcdircd.Prelude.{ℕ, ◌≡◌, refl, Bool, true, false, ◌&&◌, nat_eq, ==-self, arith}
use etcdircd.Session.{
  Phase, creating, retrying, publishing, serving, renewing, pausing, closing, ended, storing,
  EtcdSession, new_etcd_session, at_phase, store_session, close_ready, renew_ready, Waits, Step,
  Steps,
}
use etcdircd.Session.Laws.{IsSound, Steps-IsSound, new_etcd_session-IsSound, is_some, both}

-- A way to a state where the current channel is closed, or where the goroutine has ended.
record Onward (es : EtcdSession) : Type 0 where
  then_state : EtcdSession
  way : Steps es then_state
  closed : then_state.closed then_state.readyc ≡ true

-- The steps that wait for nobody: not for a timer, not for the loss of the session, and not for a
-- session that is made.
abbrev pub is_prompt : {a b : EtcdSession} → Step a b → Bool
is_prompt (Step.failed p) = true
is_prompt (Step.made id p on) = false
is_prompt (Step.waited p) = false
is_prompt (Step.stored id p) = true
is_prompt (Step.published p) = true
is_prompt (Step.lost p) = false
is_prompt (Step.renewed p) = true
is_prompt (Step.resumed p) = false
is_prompt (Step.stopped w c) = true
is_prompt (Step.finished p) = true
is_prompt Step.cancelled = false

pub data PromptSteps : EtcdSession → EtcdSession → Type 0 where
  at_once : {a : EtcdSession} → PromptSteps a a
  promptly :
      {a b c : EtcdSession} (s : Step a b) → is_prompt s ≡ true → PromptSteps b c → PromptSteps a c

record Outward (es : EtcdSession) : Type 0 where
  then_state : EtcdSession
  way : PromptSteps es then_state
  at_end : then_state.phase ≡ ended

Steps-cons : {a b c : EtcdSession} → Step a b → Steps b c → Steps a c
Steps-cons step Steps.stay = Steps.then Steps.stay step
Steps-cons step (Steps.then run last) = Steps.then (Steps-cons step run) last

ready_after : {a b : EtcdSession} → Step a b → Onward b → Onward a
ready_after step r = record {
  then_state = r.then_state;
  way = Steps-cons step r.way;
  closed = r.closed;
}

ended_after : {a b : EtcdSession} (s : Step a b) → is_prompt s ≡ true → Outward b → Outward a
ended_after step now r = record {
  then_state = r.then_state;
  way = PromptSteps.promptly step now r.way;
  at_end = r.at_end;
}

ready_publishing : (es : EtcdSession) → es.phase ≡ publishing → Onward es
ready_publishing es p = record {
  then_state = close_ready es;
  way = Steps.then Steps.stay (Step.published p);
  closed = rw (==-self es.readyc);
}

ready_storing : (id : ℕ) (es : EtcdSession) → es.phase ≡ storing id → Onward es
ready_storing id es p = ready_after (Step.stored id p) (ready_publishing (store_session id es) refl)

ready_creating : (es : EtcdSession) → es.phase ≡ creating → es.is_canceled ≡ false → Onward es
ready_creating es p on =
    ready_after (Step.made 0 p on) (ready_storing 0 (at_phase (storing 0) es) refl)

ready_pausing : (es : EtcdSession) → es.phase ≡ pausing → es.is_canceled ≡ false → Onward es
ready_pausing es p on = ready_after (Step.resumed p) (ready_creating (at_phase creating es) refl on)

ended_closing : (es : EtcdSession) → es.phase ≡ closing → Outward es
ended_closing es p = record {
  then_state = at_phase ended es;
  way = PromptSteps.promptly (Step.finished p) refl PromptSteps.at_once;
  at_end = refl;
}

ended_waiting : (es : EtcdSession) → Waits es.phase → es.is_canceled ≡ true → Outward es
ended_waiting es w c =
    ended_after (Step.stopped w c) refl (ended_closing (at_phase closing es) refl)

ended_serving : (es : EtcdSession) → es.phase ≡ serving → es.is_canceled ≡ true → Outward es
ended_serving es p c = ended_waiting es (rw p Waits.wait_lost) c

ended_pausing : (es : EtcdSession) → es.phase ≡ pausing → es.is_canceled ≡ true → Outward es
ended_pausing es p c = ended_waiting es (rw p Waits.wait_next) c

ended_retrying : (es : EtcdSession) → es.phase ≡ retrying → es.is_canceled ≡ true → Outward es
ended_retrying es p c = ended_waiting es (rw p Waits.wait_retry) c

ended_publishing : (es : EtcdSession) → es.phase ≡ publishing → es.is_canceled ≡ true → Outward es
ended_publishing es p c =
    ended_after (Step.published p) refl (ended_serving (close_ready es) refl c)

-- Wherever the goroutine is, once the context is cancelled it has a way to its end on which it waits
-- for no timer, for no loss of the session, and for no new session, so that `Close`, which cancels the
-- context and waits for the end, need not wait for them either.
pub can_end :
    (es : EtcdSession)
    → es.is_canceled ≡ true
    → (es' : EtcdSession) × PromptSteps es es' × (es'.phase ≡ ended)
can_end es c = let r = go es.phase refl in (r.then_state, r.way, r.at_end)
  where
    go : (p : Phase) → es.phase ≡ p → Outward es
    go creating p = ended_after (Step.failed p) refl (ended_retrying (at_phase retrying es) refl c)
    go retrying p = ended_retrying es p c
    go (storing id) p =
        ended_after (Step.stored id p) refl (ended_publishing (store_session id es) refl c)
    go publishing p = ended_publishing es p c
    go serving p = ended_serving es p c
    go renewing p = ended_after (Step.renewed p) refl (ended_pausing (renew_ready es) refl c)
    go pausing p = ended_pausing es p c
    go closing p = ended_closing es p
    go ended p = record { then_state = es; way = PromptSteps.at_once; at_end = p }

abbrev is_over : Phase → Bool
is_over closing = true
is_over ended = true
is_over _ = false

-- The goroutine only ends when the context is cancelled.
abbrev OverOnCancel : EtcdSession → Type 0
OverOnCancel es = is_over es.phase ≡ true → es.is_canceled ≡ true

Step-OverOnCancel : {es es' : EtcdSession} → Step es es' → OverOnCancel es → OverOnCancel es'
Step-OverOnCancel (Step.failed {es} p) h o = absurd (ground arith)
Step-OverOnCancel (Step.made {es} id p on) h o = absurd (ground arith)
Step-OverOnCancel (Step.waited {es} p) h o = absurd (ground arith)
Step-OverOnCancel (Step.stored {es} id p) h o = absurd (ground arith)
Step-OverOnCancel (Step.published {es} p) h o = absurd (ground arith)
Step-OverOnCancel (Step.lost {es} p) h o = absurd (ground arith)
Step-OverOnCancel (Step.renewed {es} p) h o = absurd (ground arith)
Step-OverOnCancel (Step.resumed {es} p) h o = absurd (ground arith)
Step-OverOnCancel (Step.stopped {es} w c) h o = c
Step-OverOnCancel (Step.finished {es} p) h o = h (rw p)
Step-OverOnCancel (Step.cancelled {es}) h o = refl

Steps-OverOnCancel : {es es' : EtcdSession} → Steps es es' → OverOnCancel es → OverOnCancel es'
Steps-OverOnCancel Steps.stay h = h
Steps-OverOnCancel (Steps.then run step) h = Step-OverOnCancel step (Steps-OverOnCancel run h)

not_over :
    (es : EtcdSession) → OverOnCancel es → es.is_canceled ≡ false → is_over es.phase ≡ true → ⊥
not_over es h on o = cc (h o, on)

-- As long as the context is not cancelled, the goroutine has a way to a state where the current channel
-- is closed: where a call of `Session()` is answered.
pub can_be_ready :
    (es : EtcdSession)
    → Steps new_etcd_session es
    → es.is_canceled ≡ false
    → (es' : EtcdSession) × Steps es es' × (es'.closed es'.readyc ≡ true)
can_be_ready es run on = let r = go es.phase refl in (r.then_state, r.way, r.closed)
  where
    sound : IsSound es
    sound = Steps-IsSound run new_etcd_session-IsSound

    go : (p : Phase) → es.phase ≡ p → Onward es
    go creating p = ready_creating es p on
    go retrying p = ready_after (Step.waited p) (ready_creating (at_phase creating es) refl on)
    go (storing id) p = ready_storing id es p
    go publishing p = ready_publishing es p
    go serving p = record {
      then_state = es;
      way = Steps.stay;
      closed =
          let k : (es.closed es.readyc && is_some es.s) ≡ true = rw p at sound.current in
          (both (es.closed es.readyc) (is_some es.s) k).0;
    }
    go renewing p = ready_after (Step.renewed p) (ready_pausing (renew_ready es) refl on)
    go pausing p = ready_pausing es p on
    go closing p =
        absurd (not_over es (Steps-OverOnCancel run (λ o. absurd (ground arith))) on (rw p))
    go ended p =
        absurd (not_over es (Steps-OverOnCancel run (λ o. absurd (ground arith))) on (rw p))
