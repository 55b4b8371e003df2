-- ===== src/Workers/Loop/Sound.antt =====
-- The message worker keeps the queue sound.
use poolbrian_sms_automation.Prelude.{
  ℕ, ◌+◌, refl, String, Option, none, some, Bool, true, false, List, [], ◌∷◌, inl, inr, Bool-cases,
  str_eq, get_or_text, find_where, ◌==◌,
}
use poolbrian_sms_automation.Store.{Db, MessageJob, UnsubscribeToken}
use poolbrian_sms_automation.Store.Json.{get}
use poolbrian_sms_automation.Jobs.Claim.{ClaimRequest, claim_message_jobs}
use poolbrian_sms_automation.Jobs.Lease.{mark_delivery_unknown}
use poolbrian_sms_automation.Outcomes.{set_processed_job_outcome, set_processed_alert_outcome}
use poolbrian_sms_automation.Preferences.{get_or_create_unsubscribe_token, token_for}
use poolbrian_sms_automation.Queue.{
  claim, start_sending, accept, fail, lose, cancel, claimed_db, perform,
}
use poolbrian_sms_automation.Queue.Sound.{IsSound, IsSound-jobs, perform-IsSound}
use poolbrian_sms_automation.Workers.{
  Answer, taken, provider_error, network_error, other_error, Worker, positive_int, job_outcome,
  alert_outcome, update_source_outcome, failure_of, fail_with, is_final, on_provider_error,
  on_exception, on_taken, acceptance_of, on_answer, seconds, lost_lease,
}
use poolbrian_sms_automation.Domain.Backoff.{retry_delay}
use poolbrian_sms_automation.Workers.Loop.{
  Turn, refused, needs_token, with_token, send, after_render, process_job, process_jobs,
  process_claimed, no_kinds, process_due_messages,
}

job_outcome-IsSound :
    (now : ℕ) (job : MessageJob) (id : Option ℕ) (status : String) (sid error : Option String)
    (db : Db)
    → IsSound db
    → IsSound (job_outcome now job id status sid error db)
unfolding set_processed_job_outcome
job_outcome-IsSound now job none status sid error db s = s
job_outcome-IsSound now job (some id) status sid error db s = IsSound-jobs db _ refl refl s

alert_outcome-IsSound :
    (now : ℕ) (job : MessageJob) (id source : Option ℕ) (status : String)
    (sid error : Option String) (db : Db)
    → IsSound db
    → IsSound (alert_outcome now job id source status sid error db)
unfolding set_processed_alert_outcome
alert_outcome-IsSound now job none source status sid error db s = s
alert_outcome-IsSound now job (some id) source status sid error db s = IsSound-jobs db _ refl refl s

outcome-IsSound :
    (w : Worker) (now : ℕ) (job : MessageJob) (status : String) (sid error : Option String)
    (db : Db)
    → IsSound db
    → IsSound (update_source_outcome w now job status sid error db)
unfolding update_source_outcome
outcome-IsSound w now job status sid error db s =
    elim (Bool-cases (str_eq job.message_kind "completed_service_sms")) [
      | inl e ↦ rw e (
          job_outcome-IsSound now job
            (positive_int w.int_of_text (get "source_job_id" job.template_data)) status sid error db
            s)
      | inr e ↦ rw e (elim (Bool-cases (str_eq job.message_kind "water_level_low_sms")) [
        | inl a ↦ rw a (
            alert_outcome-IsSound now job
              (positive_int w.int_of_text (get "alert_id" job.template_data))
              (positive_int w.int_of_text (get "source_job_id" job.template_data)) status sid error
              db s)
        | inr o ↦ rw o s
      ])
    ]

module _ (w : Worker) (now : ℕ) (job : MessageJob) where
  fail_with-IsSound :
      (error : String) (code : Option String) (retryable : Bool) (at : ℕ) (db : Db)
      → IsSound db
      → IsSound (fail_with w now job error code retryable at db).1
  fail_with-IsSound error code retryable at db s =
      unfold perform in
      perform-IsSound (fail now job.id w.worker_id (failure_of error code retryable at)) db s

  lost-IsSound :
      (error : String) (code : Option String) (db : Db)
      → IsSound db
      → IsSound (
          update_source_outcome w now job "delivery_unknown" none
            (some error)
            (mark_delivery_unknown now job.id w.worker_id error code db).1)
  lost-IsSound error code db s =
      outcome-IsSound w now job "delivery_unknown" none (some error) _
        (unfold perform in perform-IsSound (lose now job.id w.worker_id error code) db s)

  provider_error-IsSound :
      (uncertain retryable : Bool) (code : Option String) (error : String) (db : Db)
      → IsSound db
      → IsSound (on_provider_error w now job uncertain retryable code error db).1
  unfolding on_provider_error
  provider_error-IsSound true retryable code error db s = lost-IsSound error code db s
  provider_error-IsSound false retryable code error db s =
      let at = now + seconds (retry_delay job.attempt_count) in
      let kept = fail_with-IsSound error code retryable at db s in
      elim (Bool-cases (is_final (fail_with w now job error code retryable at db).0)) [
        | inl e ↦ rw e (outcome-IsSound w now job "send_failed" none (some error) _ kept)
        | inr e ↦ rw e kept
      ]

  exception-IsSound :
      (accepted : Bool) (error : String) (db : Db)
      → IsSound db
      → IsSound (on_exception w now job accepted error db).1
  unfolding on_exception
  exception-IsSound true error db s = lost-IsSound error (some "persistence_error") db s
  exception-IsSound false error db s =
      fail_with-IsSound error (some "unexpected_error") false now db s

  taken-IsSound :
      (sid : String) (x : Bool × Db) → IsSound x.1 → IsSound (on_taken w now job sid x).1
  unfolding on_taken
  taken-IsSound sid (true, db) s = outcome-IsSound w now job "message_accepted" (some sid) none db s
  taken-IsSound sid (false, db) s = exception-IsSound true lost_lease db s

  answer-IsSound : (a : Answer) (db : Db) → IsSound db → IsSound (on_answer w now job a db).1
  unfolding on_answer
  answer-IsSound (taken sid status) db s = taken-IsSound sid _ (
      unfold perform in
      perform-IsSound (accept now job.id w.worker_id (acceptance_of w job sid status)) db s)
  answer-IsSound (provider_error uncertain retryable code error) db s =
      provider_error-IsSound uncertain retryable code error db s
  answer-IsSound (network_error error) db s =
      fail_with-IsSound error (some "network_error") true _ db s
  answer-IsSound (other_error error) db s = exception-IsSound false error db s

token-IsSound : (t : Turn) (job : MessageJob) (db : Db) → IsSound db → IsSound (with_token t job db)
unfolding with_token get_or_create_unsubscribe_token
token-IsSound t job db s = elim (Bool-cases (needs_token job)) [
  | inl e ↦ rw e (of_token (find_where (λ u. u.message_job_id == job.id) db.unsubscribe_tokens))
  | inr e ↦ rw e s
]
  where
    of_token :
        (row : Option UnsubscribeToken)
        → IsSound
            (token_for t.fresh_token job.id job.channel
              (get_or_text job.destination_normalized "")
              db
              row).1
    of_token none = IsSound-jobs db _ refl refl s
    of_token (some u) = s

send-IsSound :
    (w : Worker) (t : Turn) (job : MessageJob) (leave : Bool) (db : Db)
    → IsSound db
    → IsSound (send w t job leave db).1
unfolding send
send-IsSound w t job false db s = s
send-IsSound w t job true db s = answer-IsSound w t.now job t.answer db s

render-IsSound :
    (w : Worker) (t : Turn) (job : MessageJob) (error : Option String) (db : Db)
    → IsSound db
    → IsSound (after_render w t job error db).1
unfolding after_render
render-IsSound w t job (some error) db s = exception-IsSound w t.now job false error db s
render-IsSound w t job none db s =
    send-IsSound w t job _ _
      (unfold perform in perform-IsSound (start_sending t.now job.id w.worker_id) db s)

process_job-IsSound :
    (w : Worker) (t : Turn) (job : MessageJob) (db : Db)
    → IsSound db
    → IsSound (process_job w t job db).1
unfolding process_job
process_job-IsSound w t job db s = elim (Bool-cases (refused job db job.destination_normalized)) [
  | inl e ↦ rw e (
      unfold perform in
      perform-IsSound (cancel t.now job.id w.worker_id "missing or suppressed destination") db s)
  | inr e ↦ rw e (render-IsSound w t job t.render_error _ (token-IsSound t job db s))
]

process_jobs-IsSound :
    (w : Worker) (turn : ℕ → Turn) (jobs : List MessageJob) (db : Db)
    → IsSound db
    → IsSound (process_jobs w turn jobs db).1
unfolding process_jobs
process_jobs-IsSound w turn [] db s = s
process_jobs-IsSound w turn (job ∷ rest) db s =
    process_jobs-IsSound w turn rest _ (process_job-IsSound w (turn job.id) job db s)

-- The tables after a call that may raise, which leaves them as they were.
abbrev pub db_after {ℓ} : {A : Type ℓ} → Db → Option (A × Db) → Db
db_after db none = db
db_after db (some (x, after)) = after

pub process_due_messages-IsSound :
    (w : Worker) (turn : ℕ → Turn) (now : ℕ) (r : ClaimRequest) (held : ℕ → Bool) (db : Db)
    → IsSound db
    → IsSound (db_after db (process_due_messages w turn now r held db))
unfolding process_due_messages
process_due_messages-IsSound w turn now r held db s = elim (Bool-cases (no_kinds r.allowed_kinds)) [
  | inl e ↦ rw e s
  | inr e ↦ rw e (
      of_claim (claim_message_jobs r now held db)
        (unfold perform in perform-IsSound (claim r now held) db s))
]
  where
    of_claim :
        (found : Option (List MessageJob × Db))
        → IsSound (claimed_db db found)
        → IsSound (db_after db (process_claimed w turn found))
    of_claim none k = k
    of_claim (some (jobs, after)) k = process_jobs-IsSound w turn jobs after k
