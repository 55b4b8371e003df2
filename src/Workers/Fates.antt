-- ===== src/Workers/Fates.antt =====
-- What `process_due_messages` leaves of the job that a round is about.
use poolbrian_sms_automation.Prelude.{
  ℕ, ◌∙◌, subst, ◌+◌, refl, ◌≡◌, ◌⊎◌, ap, sym, inl, inr, String, Option, none, some, Bool, true,
  false, arith, Bool-cases, if◌then◌else◌, count_where, ◌==◌,
}
use poolbrian_sms_automation.Store.{Db, MessageJob}
use poolbrian_sms_automation.Jobs.Lease.{
  mark_sending, sending_test, mark_accepted, accepted_test, close_accepted, mark_delivery_unknown,
}
use poolbrian_sms_automation.Preferences.{get_or_create_unsubscribe_token}
use poolbrian_sms_automation.Outcomes.{set_processed_job_outcome, set_processed_alert_outcome}
use poolbrian_sms_automation.Domain.Backoff.{retry_delay}
use poolbrian_sms_automation.Workers.{
  seconds, on_taken, acceptance_of, fail_with, failure_of, is_final, lost_lease, taken,
  provider_error, network_error, other_error, Worker, Answer, on_answer, on_exception,
  on_provider_error, update_source_outcome,
}
use poolbrian_sms_automation.Workers.Loop.{
  Turn, process_job, refused, with_token, after_render, send,
}
use poolbrian_sms_automation.Workers.Releases.{
  Released, NotLeased, after_find, fail_message_job-Released, cancel_message_job-Released,
  mark_delivery_unknown-Released, mark_sending-NotLeased,
}

update_source_outcome-message_jobs :
    (worker : Worker) (now : ℕ) (job : MessageJob) (status : String)
    (message_id error : Option String) (db : Db)
    → (update_source_outcome worker now job status message_id error db).message_jobs
      ≡ db.message_jobs
unfolding update_source_outcome set_processed_job_outcome set_processed_alert_outcome
update_source_outcome-message_jobs worker now job status message_id error db = ground arith

outcome-Released :
    (worker : Worker) (now : ℕ) (job : MessageJob) (status : String)
    (message_id error : Option String) (id : ℕ) (w : String) (db : Db)
    → Released id w db
    → Released id w (update_source_outcome worker now job status message_id error db)
outcome-Released worker now job status message_id error id w db h =
    rw (update_source_outcome-message_jobs worker now job status message_id error db) h

on_exception-Released :
    (worker : Worker) (now : ℕ) (job : MessageJob) (accepted : Bool) (error : String) (db : Db)
    → (accepted ≡ false) ⊎ NotLeased job.id worker.worker_id db
    → Released job.id worker.worker_id (on_exception worker now job accepted error db).1
unfolding on_exception
on_exception-Released worker now job false error db h =
    fail_message_job-Released now job.id worker.worker_id
      (failure_of error (some "unexpected_error") false now) db
on_exception-Released worker now job true error db (inr h) =
    outcome-Released worker now job "delivery_unknown" none (some error) job.id worker.worker_id
      (mark_delivery_unknown now job.id worker.worker_id error (some "persistence_error") db).1
      (mark_delivery_unknown-Released now job.id worker.worker_id error (some "persistence_error")
        db h)
on_exception-Released worker now job true error db (inl e) = absurd (cc e)

on_provider_error-Released :
    (worker : Worker) (now : ℕ) (job : MessageJob) (uncertain retryable : Bool)
    (code : Option String) (error : String) (db : Db)
    → NotLeased job.id worker.worker_id db
    → Released job.id worker.worker_id
        (on_provider_error worker now job uncertain retryable code error db).1
unfolding on_provider_error
on_provider_error-Released worker now job true retryable code error db h =
    outcome-Released worker now job "delivery_unknown" none (some error) job.id worker.worker_id
      (mark_delivery_unknown now job.id worker.worker_id error code db).1
      (mark_delivery_unknown-Released now job.id worker.worker_id error code db h)
on_provider_error-Released worker now job false retryable code error db h =
    after_failure (is_final (fail_with worker now job error code retryable at db).0)
      (fail_with worker now job error code retryable at db).1
      (fail_message_job-Released now job.id worker.worker_id (failure_of error code retryable at)
        db)
  where
    at : ℕ
    at = now + seconds (retry_delay job.attempt_count)

    after_failure :
        (b : Bool) (db' : Db)
        → Released job.id worker.worker_id db'
        → Released job.id worker.worker_id (
            if b
            then update_source_outcome worker now job "send_failed" none (some error) db'
            else db')
    after_failure true db' r =
        outcome-Released worker now job "send_failed" none (some error) job.id worker.worker_id db'
          r
    after_failure false db' r = r

on_answer-Released :
    (worker : Worker) (now : ℕ) (job : MessageJob) (answer : Answer) (db : Db)
    → NotLeased job.id worker.worker_id db
    → (on_answer worker now job answer db).0.accepted ≡ 0
    → Released job.id worker.worker_id (on_answer worker now job answer db).1
unfolding on_answer mark_accepted on_taken
on_answer-Released worker now job (taken message_id status) db h z =
    after_find
      (λ row.
        (on_taken worker now job message_id (closed row)).0.accepted ≡ 0
        → Released job.id worker.worker_id (on_taken worker now job message_id (closed row)).1)
      (accepted_test job.id worker.worker_id (acceptance_of worker job message_id status))
      db.message_jobs (λ k e. on_exception-Released worker now job true lost_lease db (inr h))
      (λ row e. absurd (cc e)) z
  where
    closed : Option MessageJob → Bool × Db
    closed =
        close_accepted now job.id worker.worker_id (acceptance_of worker job message_id status) db
on_answer-Released worker now job (provider_error uncertain retryable code error) db h z =
    on_provider_error-Released worker now job uncertain retryable code error db h
on_answer-Released worker now job (network_error error) db h z =
    fail_message_job-Released now job.id worker.worker_id
      (failure_of error (some "network_error") true (now + seconds (retry_delay job.attempt_count)))
      db
on_answer-Released worker now job (other_error error) db h z =
    on_exception-Released worker now job false error db (inl refl)

with_token-message_jobs :
    (turn : Turn) (job : MessageJob) (db : Db)
    → (with_token turn job db).message_jobs ≡ db.message_jobs
unfolding with_token get_or_create_unsubscribe_token
with_token-message_jobs turn job db = ground arith

mark_sending_cong :
    (now id : ℕ) (w : String) (db db' : Db)
    → db'.message_jobs ≡ db.message_jobs
    → (mark_sending now id w db).0 ≡ true
    → (mark_sending now id w db').0 ≡ true
unfolding mark_sending
mark_sending_cong now id w db db' e h = ap (λ rows. count_where (sending_test id w) rows == 1) e ∙ h

after_render-Released :
    (worker : Worker) (turn : Turn) (job : MessageJob) (error : Option String) (db : Db)
    → (mark_sending turn.now job.id worker.worker_id db).0 ≡ true
    → (after_render worker turn job error db).0.accepted ≡ 0
    → Released job.id worker.worker_id (after_render worker turn job error db).1
unfolding after_render send
after_render-Released worker turn job (some error) db held z =
    on_exception-Released worker turn.now job false error db (inl refl)
after_render-Released worker turn job none db held z =
    subst
      (λ b.
        (send worker turn job b sent).0.accepted ≡ 0
        → Released job.id worker.worker_id (send worker turn job b sent).1)
      (sym held)
      (on_answer-Released worker turn.now job turn.answer sent
        (mark_sending-NotLeased turn.now job.id worker.worker_id db))
      z
  where
    sent : Db
    sent = (mark_sending turn.now job.id worker.worker_id db).1

-- A round of the worker that holds the lease of a job, whatever it meets outside the tables: unless
-- the round counts the job as accepted, no row with the job's id is left leased or sending in the
-- worker's name.
pub process_job-Released :
    (worker : Worker) (turn : Turn) (job : MessageJob) (db : Db)
    → (mark_sending turn.now job.id worker.worker_id db).0 ≡ true
    → (process_job worker turn job db).0.accepted ≡ 0
    → Released job.id worker.worker_id (process_job worker turn job db).1
unfolding process_job
process_job-Released worker turn job db held =
    elim (Bool-cases (refused job db job.destination_normalized)) [
      | inl e ↦ rw e (λ z.
          cancel_message_job-Released turn.now job.id worker.worker_id
            "missing or suppressed destination" db)
      | inr e ↦ rw e (
          after_render-Released worker turn job turn.render_error (with_token turn job db) (
            mark_sending_cong turn.now job.id worker.worker_id db (with_token turn job db)
              (with_token-message_jobs turn job db) held))
    ]
