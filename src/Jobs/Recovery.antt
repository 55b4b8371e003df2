-- ===== src/Jobs/Recovery.antt =====
-- The operations of app/repositories/jobs.py from outside a lease: recovery, cancellation, the
-- operator's retry, and the sweep of suppressed jobs.
use poolbrian_sms_automation.Prelude.{
  ℕ, String, none, some, Bool, true, false, ◌&&◌, ◌||◌, leb, ◌==◌, if◌then◌else◌, coalesce,
  holds_before, count_where,
}
use poolbrian_sms_automation.Store.{Db, MessageJob, JobStatus}
use poolbrian_sms_automation.Jobs.Claim.{suppressed_for, is_waiting}
use poolbrian_sms_automation.Jobs.Lease.{is_leased, is_sending, in_flight, update_jobs, flight_test}

abbrev pub stale_test : ℕ → MessageJob → Bool
stale_test now job = in_flight job.status && holds_before job.lease_expires_at now

-- A job whose send may have happened is never scheduled again.
unfoldable pub recover_job : ℕ → MessageJob → MessageJob
recover_job now job = record job {
  status =
      if is_sending job.status
      then JobStatus.delivery_unknown
      else (if leb job.max_attempts job.attempt_count then JobStatus.dead else JobStatus.retry);
  scheduled_at = now;
  locked_at = none;
  locked_by = none;
  lease_expires_at = none;
  last_error = coalesce job.last_error (some "worker lease expired");
  updated_at = now;
}

unfoldable pub recover_stale_message_jobs : ℕ → Db → ℕ × Db
recover_stale_message_jobs now db = (
  count_where (stale_test now) db.message_jobs,
  update_jobs (stale_test now) (recover_job now) db,
)

unfoldable pub cancel_job : ℕ → String → MessageJob → MessageJob
cancel_job now reason job = record job {
  status = JobStatus.cancelled;
  cancelled_at = some now;
  last_error = some reason;
  locked_at = none;
  locked_by = none;
  lease_expires_at = none;
  updated_at = now;
}

unfoldable pub cancel_message_job : ℕ → ℕ → String → String → Db → Db
cancel_message_job now job_id worker_id reason db =
    update_jobs (flight_test job_id worker_id) (cancel_job now reason) db

abbrev pub is_failed_or_dead : JobStatus → Bool
is_failed_or_dead JobStatus.failed = true
is_failed_or_dead JobStatus.dead = true
is_failed_or_dead _ = false

-- `id = :job_id AND status IN ('failed', 'dead')`.
abbrev pub over_test : ℕ → MessageJob → Bool
over_test job_id job = job.id == job_id && is_failed_or_dead job.status

unfoldable pub requeue_job : ℕ → MessageJob → MessageJob
requeue_job now job = record job {
  status = JobStatus.queued;
  scheduled_at = now;
  locked_at = none;
  locked_by = none;
  lease_expires_at = none;
  provider = none;
  provider_message_id = none;
  provider_status = none;
  provider_status_rank = 0;
  last_error_code = none;
  last_error = none;
  accepted_at = none;
  sent_at = none;
  delivered_at = none;
  failed_at = none;
  updated_at = now;
}

unfoldable pub retry_dead_or_failed_job : ℕ → ℕ → Db → Bool × Db
retry_dead_or_failed_job now job_id db = (
  count_where (over_test job_id) db.message_jobs == 1,
  update_jobs (over_test job_id) (requeue_job now) db,
)

-- `status IN ('queued', 'retry', 'leased')`.
abbrev pub is_pending : JobStatus → Bool
is_pending s = is_waiting s || is_leased s

-- The SET list of the cancellations from outside: the lease columns stay.
unfoldable pub withdraw_job : ℕ → String → MessageJob → MessageJob
withdraw_job now reason job = record job {
  status = JobStatus.cancelled;
  cancelled_at = some now;
  last_error = some reason;
  updated_at = now;
}

unfoldable pub suppressed_test : Db → MessageJob → Bool
suppressed_test db job =
    suppressed_for db.communication_preferences job.channel job.destination_normalized
    && is_pending job.status

unfoldable pub cancel_suppressed_queued_jobs : ℕ → Db → ℕ × Db
cancel_suppressed_queued_jobs now db = (
  count_where (suppressed_test db) db.message_jobs,
  update_jobs (suppressed_test db) (withdraw_job now "communication preference suppressed") db,
)
