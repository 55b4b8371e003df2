-- ===== src/Jobs/Lease.antt =====
-- The operations of app/repositories/jobs.py on a job that is leased or in flight: each is
-- a guarded UPDATE of message_jobs, and some close the job's attempt in the same transaction.
use poolbrian_sms_automation.Prelude.{
  ℕ, String, Option, none, some, Bool, true, false, ◌&&◌, ◌||◌, max, ltb, leb, ◌==◌, if◌then◌else◌,
  str_eq, coalesce, holds_text, take_text, update_where, count_where, find_where,
}
use poolbrian_sms_automation.Store.{Db, MessageJob, MessageAttempt, JobStatus}

abbrev pub is_leased : JobStatus → Bool
is_leased JobStatus.leased = true
is_leased _ = false

abbrev pub is_sending : JobStatus → Bool
is_sending JobStatus.sending = true
is_sending _ = false

-- `status IN ('leased', 'sending')`.
abbrev pub in_flight : JobStatus → Bool
in_flight s = is_leased s || is_sending s

-- `id = :job_id AND locked_by = :worker_id`.
abbrev pub owned : ℕ → String → MessageJob → Bool
owned job_id worker_id job = job.id == job_id && holds_text job.locked_by worker_id

-- `locked_at = NULL, locked_by = NULL, lease_expires_at = NULL, updated_at = NOW()`.
abbrev pub unlock : ℕ → MessageJob → MessageJob
unlock now job = record job {
  locked_at = none;
  locked_by = none;
  lease_expires_at = none;
  updated_at = now;
}

abbrev pub attempt_count_of : Option MessageJob → ℕ → Bool
attempt_count_of none n = false
attempt_count_of (some job) n = n == job.attempt_count

-- `attempt_number = (SELECT attempt_count FROM message_jobs WHERE id = :job_id)`.
unfoldable pub current_attempt : ℕ → Db → MessageAttempt → Bool
current_attempt job_id db a =
    a.message_job_id == job_id
    && attempt_count_of (find_where (λ job. job.id == job_id) db.message_jobs) a.attempt_number

abbrev pub update_jobs : (MessageJob → Bool) → (MessageJob → MessageJob) → Db → Db
update_jobs test set db = record db { message_jobs = update_where test set db.message_jobs }

-- The UPDATE of message_attempts that the failures share.
unfoldable pub fail_attempt : ℕ → ℕ → JobStatus → Option String → String → Db → Db
fail_attempt now job_id outcome error_code error db = record db {
  message_attempts =
      update_where (current_attempt job_id db)
        (λ a. record a {
          finished_at = some now;
          outcome = some outcome;
          error_code = error_code;
          error_message = some (take_text 1000 error);
        })
        db.message_attempts;
}

abbrev pub sending_test : ℕ → String → MessageJob → Bool
sending_test job_id worker_id job = owned job_id worker_id job && is_leased job.status

unfoldable pub mark_sending : ℕ → ℕ → String → Db → Bool × Db
mark_sending now job_id worker_id db = (
  count_where (sending_test job_id worker_id) db.message_jobs == 1,
  update_jobs (sending_test job_id worker_id)
      (λ job. record job { status = JobStatus.sending; updated_at = now }) db,
)

-- `status IN ('sending', 'accepted', 'sent', 'delivered', 'failed')`.
abbrev pub may_be_accepted : JobStatus → Bool
may_be_accepted JobStatus.sending = true
may_be_accepted JobStatus.accepted = true
may_be_accepted JobStatus.sent = true
may_be_accepted JobStatus.delivered = true
may_be_accepted JobStatus.failed = true
may_be_accepted _ = false

pub record Acceptance : Type 0 where
  pub provider : String
  pub provider_message_id : String
  pub provider_status : String
  pub status_rank : ℕ

-- `column IS NULL OR column = :value`.
abbrev pub unset_or : Option String → String → Bool
unset_or none v = true
unset_or (some u) v = str_eq u v

abbrev pub accepted_test : ℕ → String → Acceptance → MessageJob → Bool
accepted_test job_id worker_id a job =
    owned job_id worker_id job
    && (may_be_accepted job.status && unset_or job.provider_message_id a.provider_message_id)

-- A callback of a higher rank that came first keeps its status.
unfoldable pub accept_job : ℕ → Acceptance → MessageJob → MessageJob
accept_job now a job = record job {
  status = if ltb a.status_rank job.provider_status_rank then job.status else JobStatus.accepted;
  provider = coalesce job.provider (some a.provider);
  provider_message_id = coalesce job.provider_message_id (some a.provider_message_id);
  provider_status =
      if ltb a.status_rank job.provider_status_rank
      then job.provider_status
      else some a.provider_status;
  provider_status_rank = max job.provider_status_rank a.status_rank;
  accepted_at = some now;
  locked_at = none;
  locked_by = none;
  lease_expires_at = none;
  last_error_code = none;
  last_error = none;
  updated_at = now;
}

abbrev pub close_accepted : ℕ → ℕ → String → Acceptance → Db → Option MessageJob → Bool × Db
close_accepted now job_id worker_id a db none = (false, db)
close_accepted now job_id worker_id a db (some job) =
    let updated = update_jobs (accepted_test job_id worker_id a) (accept_job now a) db in
    (
      true,
      record updated {
        message_attempts =
            update_where (current_attempt job_id updated)
              (λ t. record t {
                finished_at = some now;
                outcome = some (accept_job now a job).status;
                provider_message_id = some a.provider_message_id;
              })
              updated.message_attempts;
      },
    )

-- `row` is the one row with the primary key that the WHERE clause meets.
unfoldable pub mark_accepted : ℕ → ℕ → String → Acceptance → Db → Bool × Db
mark_accepted now job_id worker_id a db =
    close_accepted now job_id worker_id a db
      (find_where (accepted_test job_id worker_id a) db.message_jobs)

abbrev pub flight_test : ℕ → String → MessageJob → Bool
flight_test job_id worker_id job = owned job_id worker_id job && in_flight job.status

pub record Failure : Type 0 where
  pub error : String
  pub error_code : Option String
  pub retryable : Bool
  pub next_attempt_at : ℕ

-- The CASE expressions test `:retryable AND attempt_count < max_attempts`.
abbrev pub can_retry : Failure → MessageJob → Bool
can_retry f job = f.retryable && ltb job.attempt_count job.max_attempts

unfoldable pub failed_status : Failure → MessageJob → JobStatus
failed_status f job =
    if can_retry f job
    then JobStatus.retry
    else (if leb job.max_attempts job.attempt_count then JobStatus.dead else JobStatus.failed)

unfoldable pub fail_job : ℕ → Failure → MessageJob → MessageJob
unfolding failed_status
fail_job now f job = record job {
  status = failed_status f job;
  scheduled_at = if can_retry f job then f.next_attempt_at else job.scheduled_at;
  failed_at = if can_retry f job then job.failed_at else some now;
  last_error_code = f.error_code;
  last_error = some (take_text 1000 f.error);
  locked_at = none;
  locked_by = none;
  lease_expires_at = none;
  updated_at = now;
}

abbrev pub close_failed : ℕ → ℕ → String → Failure → Db → Option MessageJob → Option JobStatus × Db
close_failed now job_id worker_id f db none = (none, db)
close_failed now job_id worker_id f db (some job) =
    let updated = update_jobs (flight_test job_id worker_id) (fail_job now f) db in
    (
      some (fail_job now f job).status,
      fail_attempt now job_id (fail_job now f job).status f.error_code f.error updated,
    )

-- The result is the job's new status; `none` is "unchanged".
unfoldable pub fail_message_job : ℕ → ℕ → String → Failure → Db → Option JobStatus × Db
fail_message_job now job_id worker_id f db =
    close_failed now job_id worker_id f db
      (find_where (flight_test job_id worker_id) db.message_jobs)

abbrev pub unknown_test : ℕ → String → MessageJob → Bool
unknown_test job_id worker_id job = owned job_id worker_id job && is_sending job.status

unfoldable pub unknown_job : ℕ → String → Option String → MessageJob → MessageJob
unknown_job now error error_code job = record job {
  status = JobStatus.delivery_unknown;
  last_error_code = error_code;
  last_error = some (take_text 1000 error);
  locked_at = none;
  locked_by = none;
  lease_expires_at = none;
  updated_at = now;
}

unfoldable pub mark_delivery_unknown : ℕ → ℕ → String → String → Option String → Db → Bool × Db
mark_delivery_unknown now job_id worker_id error error_code db =
    let updated =
      update_jobs (unknown_test job_id worker_id) (unknown_job now error error_code) db in
    if count_where (unknown_test job_id worker_id) db.message_jobs == 1
    then (true, fail_attempt now job_id JobStatus.delivery_unknown error_code error updated)
    else (false, updated)
