-- ===== src/Examples/Sessions.antt =====
-- session.go: a session that is made, lost, and made again.
use etcdircd.Prelude.{ℕ, ◌≡◌, refl, ◌⊎◌, Option, some}
use etcdircd.Result.{Result, ok, err, canceled}
use etcdircd.Session.{
  creating, ended, storing, EtcdSession, new_etcd_session, at_phase, store_session, close_ready,
  renew_ready, cancel, renewing, Step, Steps, Answer,
}
use etcdircd.Session.Laws.{Session_answers}
use etcdircd.Session.Progress.{PromptSteps, can_end}

abbrev first_made : EtcdSession
first_made = close_ready (store_session 7 (at_phase (storing 7) new_etcd_session))

abbrev first_lost : EtcdSession
first_lost = renew_ready (at_phase renewing first_made)

abbrev second_made : EtcdSession
second_made = close_ready (store_session 8 (at_phase (storing 8) (at_phase creating first_lost)))

to_lost : Steps new_etcd_session first_lost
to_lost =
    Steps.then
      (Steps.then
        (Steps.then
          (Steps.then (Steps.then Steps.stay (Step.made 7 refl refl)) (Step.stored 7 refl))
          (Step.published refl))
        (Step.lost refl))
      (Step.renewed refl)

to_second : Steps first_lost second_made
to_second =
    Steps.then
      (Steps.then (Steps.then (Steps.then Steps.stay (Step.resumed refl)) (Step.made 8 refl refl))
        (Step.stored 8 refl))
      (Step.published refl)

Session_answers_example :
    (◌≡◌ {A = Result (Option ℕ)} (ok (some 8)) (err canceled))
    ⊎ ((id : ℕ) × (◌≡◌ {A = Result (Option ℕ)} (ok (some 8)) (ok (some id))))
Session_answers_example =
    Session_answers first_lost second_made (ok (some 8)) to_lost to_second (Answer.ready refl refl)

can_end_example : (es' : EtcdSession) × PromptSteps (cancel first_lost) es' × (es'.phase ≡ ended)
can_end_example = can_end (cancel first_lost) refl
