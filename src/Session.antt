-- ===== src/Session.antt =====
-- session.go: the session with etcd, which a goroutine makes, and makes again when it is lost.
--
-- The state has the fields of `etcdSession` and the place where its goroutine is. A channel that is
-- only ever closed is a number and whether it is closed; `make` takes the next number. Each step of the
-- goroutine, and the cancelling of the context at any moment, is a step of the relation.
pub mod Laws
pub mod Progress
use etcdircd.Prelude.{
  ℕ, suc, ◌≡◌, Bool, true, false, Option, none, some, ◌==◌, nat_eq, if◌then◌else◌,
}
use etcdircd.Result.{Result, ok, err, canceled}

-- Where the goroutine is: at `NewSession`, in the wait after its failure, before `es.s = s`, before
-- `close(es.readyc)`, in the wait for the loss of the session, before the new `readyc`, in the wait
-- before the next session, in the deferred function, and at its end.
pub data Phase : Type 0 where
  creating retrying publishing serving renewing pausing closing ended : Phase
  storing : ℕ → Phase

pub record EtcdSession : Type 0 where
  pub phase : Phase
  pub readyc : ℕ
  pub closed : ℕ → Bool
  pub s : Option ℕ
  pub is_canceled : Bool

-- `newEtcdSession`
abbrev pub new_etcd_session : EtcdSession
new_etcd_session = record {
  phase = creating;
  readyc = 0;
  closed = λ c. false;
  s = none;
  is_canceled = false;
}

abbrev pub at_phase : Phase → EtcdSession → EtcdSession
at_phase p es = record es { phase = p }

-- `es.s = s`
abbrev pub store_session : ℕ → EtcdSession → EtcdSession
store_session id es = record es { phase = publishing; s = some id }

-- `close(es.readyc)`
abbrev pub close_ready : EtcdSession → EtcdSession
close_ready es = record es {
  phase = serving;
  closed = λ c. if es.readyc == c then true else es.closed c;
}

-- `es.readyc = make(chan struct{})`
abbrev pub renew_ready : EtcdSession → EtcdSession
renew_ready es = record es { phase = pausing; readyc = suc es.readyc }

abbrev pub cancel : EtcdSession → EtcdSession
cancel es = record es { is_canceled = true }

-- The waits that end when the context is cancelled.
pub data Waits : Phase → Type 0 where
  wait_retry : Waits retrying
  wait_lost : Waits serving
  wait_next : Waits pausing

-- `NewSession` is given the context, and fails once it is cancelled.
pub data Step : EtcdSession → EtcdSession → Type 0 where
  failed : {es : EtcdSession} → es.phase ≡ creating → Step es (at_phase retrying es)
  made :
      {es : EtcdSession} (id : ℕ)
      → es.phase ≡ creating
      → es.is_canceled ≡ false
      → Step es (at_phase (storing id) es)
  waited : {es : EtcdSession} → es.phase ≡ retrying → Step es (at_phase creating es)
  stored : {es : EtcdSession} (id : ℕ) → es.phase ≡ storing id → Step es (store_session id es)
  published : {es : EtcdSession} → es.phase ≡ publishing → Step es (close_ready es)
  lost : {es : EtcdSession} → es.phase ≡ serving → Step es (at_phase renewing es)
  renewed : {es : EtcdSession} → es.phase ≡ renewing → Step es (renew_ready es)
  resumed : {es : EtcdSession} → es.phase ≡ pausing → Step es (at_phase creating es)
  stopped :
      {es : EtcdSession} → Waits es.phase → es.is_canceled ≡ true → Step es (at_phase closing es)
  finished : {es : EtcdSession} → es.phase ≡ closing → Step es (at_phase ended es)
  cancelled : {es : EtcdSession} → Step es (cancel es)

pub data Steps : EtcdSession → EtcdSession → Type 0 where
  stay : {es : EtcdSession} → Steps es es
  then : {es es' es2 : EtcdSession} → Steps es es' → Step es' es2 → Steps es es2

-- The select of `Session()` on the channel that it has read: it goes on once the channel is closed, or
-- ends with the error of the context.
pub data Answer : EtcdSession → ℕ → Result (Option ℕ) → Type 0 where
  ready :
      {es : EtcdSession} {rc : ℕ}
      → es.closed rc ≡ true
      → es.is_canceled ≡ false
      → Answer es rc (ok es.s)
  late : {es : EtcdSession} {rc : ℕ} → es.is_canceled ≡ true → Answer es rc (err canceled)
