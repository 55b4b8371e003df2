-- ===== src/Jobs/Coherent.antt =====
-- What the columns of a job say together with its status, and that each assignment of
-- app/repositories/jobs.py to a row keeps it.
use poolbrian_sms_automation.Prelude.{
  ℕ, ◌<◌, ◌≡◌, Bool, true, false, String, Option, arith, is_some, ◌||◌, Bool-cases, inl, inr,
  str_eq,
}
use poolbrian_sms_automation.Store.{Db, MessageJob, JobStatus}
use poolbrian_sms_automation.Jobs.Claim.{ClaimRequest, is_waiting, lease_job}
use poolbrian_sms_automation.Jobs.Lease.{
  is_leased, is_sending, in_flight, may_be_accepted, Acceptance, Failure, accept_job, fail_job,
  unknown_job,
}
use poolbrian_sms_automation.Jobs.Recovery.{recover_job, cancel_job, requeue_job, withdraw_job}
use poolbrian_sms_automation.Jobs.Provider.{Callback, bind_job, apply_event, event_status, is_lost}

abbrev pub is_retry : JobStatus → Bool
is_retry JobStatus.retry = true
is_retry _ = false

abbrev pub is_accepted : JobStatus → Bool
is_accepted JobStatus.accepted = true
is_accepted _ = false

abbrev pub is_sent : JobStatus → Bool
is_sent JobStatus.sent = true
is_sent _ = false

abbrev pub is_delivered : JobStatus → Bool
is_delivered JobStatus.delivered = true
is_delivered _ = false

abbrev pub is_failed : JobStatus → Bool
is_failed JobStatus.failed = true
is_failed _ = false

abbrev pub is_cancelled : JobStatus → Bool
is_cancelled JobStatus.cancelled = true
is_cancelled _ = false

pub record IsCoherent (job : MessageJob) : Type 0 where
  pub waiting_free : is_waiting job.status ≡ true → is_some job.locked_by ≡ false
  pub leased_held : is_leased job.status ≡ true → is_some job.locked_by ≡ true
  pub leased_expires : is_leased job.status ≡ true → is_some job.lease_expires_at ≡ true
  pub sending_held :
      is_sending job.status ≡ true → (is_some job.locked_by || is_some job.accepted_at) ≡ true
  pub sending_expires :
      is_sending job.status ≡ true
      → (is_some job.lease_expires_at || is_some job.accepted_at) ≡ true
  pub flight_counted : in_flight job.status ≡ true → 0 < job.attempt_count
  pub retry_has_room : is_retry job.status ≡ true → job.attempt_count < job.max_attempts
  pub accepted_named : is_accepted job.status ≡ true → is_some job.provider_message_id ≡ true
  pub accepted_dated : is_accepted job.status ≡ true → is_some job.accepted_at ≡ true
  pub sent_dated : is_sent job.status ≡ true → is_some job.sent_at ≡ true
  pub delivered_dated : is_delivered job.status ≡ true → is_some job.delivered_at ≡ true
  pub failed_dated : is_failed job.status ≡ true → is_some job.failed_at ≡ true
  pub cancelled_dated : is_cancelled job.status ≡ true → is_some job.cancelled_at ≡ true

pub lease_job-IsCoherent :
    (r : ClaimRequest) (now : ℕ) (db : Db) (job : MessageJob)
    → IsCoherent job
    → IsCoherent (lease_job r now db job)
unfolding lease_job
lease_job-IsCoherent r now db job h = ground arith

pub start_sending-IsCoherent :
    (now : ℕ) (job : MessageJob)
    → is_leased job.status ≡ true
    → IsCoherent job
    → IsCoherent (record job { status = JobStatus.sending; updated_at = now })
start_sending-IsCoherent now job l h = ground arith

pub accept_job-IsCoherent :
    (now : ℕ) (a : Acceptance) (job : MessageJob)
    → may_be_accepted job.status ≡ true
    → IsCoherent job
    → IsCoherent (accept_job now a job)
unfolding accept_job
accept_job-IsCoherent now a job m h = ground arith

pub fail_job-IsCoherent :
    (now : ℕ) (f : Failure) (job : MessageJob) → IsCoherent job → IsCoherent (fail_job now f job)
unfolding fail_job
fail_job-IsCoherent now f job h = ground arith

pub unknown_job-IsCoherent :
    (now : ℕ) (error : String) (code : Option String) (job : MessageJob)
    → IsCoherent job
    → IsCoherent (unknown_job now error code job)
unfolding unknown_job
unknown_job-IsCoherent now error code job h = ground arith

pub recover_job-IsCoherent :
    (now : ℕ) (job : MessageJob) → IsCoherent job → IsCoherent (recover_job now job)
unfolding recover_job
recover_job-IsCoherent now job h = ground arith

pub cancel_job-IsCoherent :
    (now : ℕ) (reason : String) (job : MessageJob)
    → IsCoherent job
    → IsCoherent (cancel_job now reason job)
unfolding cancel_job
cancel_job-IsCoherent now reason job h = ground arith

pub requeue_job-IsCoherent :
    (now : ℕ) (job : MessageJob) → IsCoherent job → IsCoherent (requeue_job now job)
unfolding requeue_job
requeue_job-IsCoherent now job h = ground arith

pub withdraw_job-IsCoherent :
    (now : ℕ) (reason : String) (job : MessageJob)
    → IsCoherent job
    → IsCoherent (withdraw_job now reason job)
unfolding withdraw_job
withdraw_job-IsCoherent now reason job h = ground arith

pub bind_job-IsCoherent :
    (now : ℕ) (e : Callback) (job : MessageJob) → IsCoherent job → IsCoherent (bind_job now e job)
unfolding bind_job
bind_job-IsCoherent now e job h = ground arith

pub apply_event-IsCoherent :
    (now : ℕ) (e : Callback) (job : MessageJob)
    → IsCoherent job
    → IsCoherent (apply_event now e job)
unfolding apply_event event_status
apply_event-IsCoherent now e job h = elim (Bool-cases (str_eq e.status "delivered")) [
  | inl d ↦ rw d (ground arith)
  | inr d ↦ elim (Bool-cases (is_lost e.status)) [
    | inl l ↦ rw (d, l) (ground arith)
    | inr l ↦ elim (Bool-cases (str_eq e.status "sent")) [
      | inl t ↦ rw (d, l, t) (ground arith)
      | inr t ↦ rw (d, l, t) (ground arith)
    ]
  ]
]
