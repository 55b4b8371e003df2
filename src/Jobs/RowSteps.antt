-- ===== src/Jobs/RowSteps.antt =====
-- Each assignment of app/repositories/jobs.py to a row, as a step of the state machine that keeps the
-- row coherent.
use poolbrian_sms_automation.Prelude.{ℕ, ◌≡◌, true, String, Option, arith}
use poolbrian_sms_automation.Store.{Db, MessageJob, JobStatus}
use poolbrian_sms_automation.Jobs.Claim.{ClaimRequest, is_waiting, lease_job}
use poolbrian_sms_automation.Jobs.Lease.{
  is_leased, is_sending, in_flight, may_be_accepted, Acceptance, Failure, accept_job, fail_job,
  unknown_job,
}
use poolbrian_sms_automation.Jobs.Recovery.{
  is_pending, is_failed_or_dead, recover_job, cancel_job, requeue_job, withdraw_job,
}
use poolbrian_sms_automation.Jobs.Coherent.{
  IsCoherent, start_sending-IsCoherent, lease_job-IsCoherent, accept_job-IsCoherent,
  fail_job-IsCoherent, unknown_job-IsCoherent, recover_job-IsCoherent, cancel_job-IsCoherent,
  requeue_job-IsCoherent, withdraw_job-IsCoherent, bind_job-IsCoherent, apply_event-IsCoherent,
}
use poolbrian_sms_automation.Jobs.Provider.{Callback, bind_job, apply_event}
use poolbrian_sms_automation.Jobs.Edges.{
  start, Grant, RowMove, RowMove-refl, lease_job-RowMove, accept_job-RowMove, fail_job-RowMove,
  unknown_job-RowMove, recover_job-RowMove, cancel_job-RowMove, requeue_job-RowMove,
  withdraw_job-RowMove, bind_job-RowMove, apply_event-RowMove,
}

-- A step also keeps what the columns say together.
pub record RowStep (g : Grant) (a b : MessageJob) : Type 0 where
  pub move : RowMove g a b
  pub open move use *
  pub keeps : IsCoherent a → IsCoherent b

pub RowStep-refl : {g : Grant} (a : MessageJob) → RowStep g a a
RowStep-refl a = record { move = RowMove-refl a; keeps = λ h. h }

start_job-RowMove :
    {g : Grant} (now : ℕ) (job : MessageJob)
    → is_leased job.status ≡ true
    → RowMove g job (record job { status = JobStatus.sending; updated_at = now })
start_job-RowMove now job h = grind (arith, start)

pub start_job-RowStep :
    {g : Grant} (now : ℕ) (job : MessageJob)
    → is_leased job.status ≡ true
    → RowStep g job (record job { status = JobStatus.sending; updated_at = now })
start_job-RowStep now job h = record {
  move = start_job-RowMove now job h;
  keeps = start_sending-IsCoherent now job h;
}

pub lease_job-RowStep :
    {g : Grant} (r : ClaimRequest) (now : ℕ) (db : Db) (job : MessageJob)
    → is_waiting job.status ≡ true
    → g.may_lease job ≡ true
    → RowStep g job (lease_job r now db job)
lease_job-RowStep r now db job h m = record {
  move = lease_job-RowMove r now db job h m;
  keeps = lease_job-IsCoherent r now db job;
}

pub accept_job-RowStep :
    {g : Grant} (now : ℕ) (a : Acceptance) (job : MessageJob)
    → may_be_accepted job.status ≡ true
    → RowStep g job (accept_job now a job)
accept_job-RowStep now a job h = record {
  move = accept_job-RowMove now a job h;
  keeps = accept_job-IsCoherent now a job h;
}

pub fail_job-RowStep :
    {g : Grant} (now : ℕ) (f : Failure) (job : MessageJob)
    → in_flight job.status ≡ true
    → RowStep g job (fail_job now f job)
fail_job-RowStep now f job h = record {
  move = fail_job-RowMove now f job h;
  keeps = fail_job-IsCoherent now f job;
}

pub unknown_job-RowStep :
    {g : Grant} (now : ℕ) (error : String) (code : Option String) (job : MessageJob)
    → is_sending job.status ≡ true
    → RowStep g job (unknown_job now error code job)
unknown_job-RowStep now error code job h = record {
  move = unknown_job-RowMove now error code job h;
  keeps = unknown_job-IsCoherent now error code job;
}

pub recover_job-RowStep :
    {g : Grant} (now : ℕ) (job : MessageJob)
    → in_flight job.status ≡ true
    → RowStep g job (recover_job now job)
recover_job-RowStep now job h = record {
  move = recover_job-RowMove now job h;
  keeps = recover_job-IsCoherent now job;
}

pub cancel_job-RowStep :
    {g : Grant} (now : ℕ) (reason : String) (job : MessageJob)
    → in_flight job.status ≡ true
    → RowStep g job (cancel_job now reason job)
cancel_job-RowStep now reason job h = record {
  move = cancel_job-RowMove now reason job h;
  keeps = cancel_job-IsCoherent now reason job;
}

pub requeue_job-RowStep :
    {g : Grant} (now : ℕ) (job : MessageJob)
    → g.operator ≡ true
    → is_failed_or_dead job.status ≡ true
    → RowStep g job (requeue_job now job)
requeue_job-RowStep now job o h = record {
  move = requeue_job-RowMove now job o h;
  keeps = requeue_job-IsCoherent now job;
}

pub withdraw_job-RowStep :
    {g : Grant} (now : ℕ) (reason : String) (job : MessageJob)
    → is_pending job.status ≡ true
    → RowStep g job (withdraw_job now reason job)
withdraw_job-RowStep now reason job h = record {
  move = withdraw_job-RowMove now reason job h;
  keeps = withdraw_job-IsCoherent now reason job;
}

pub bind_job-RowStep :
    {g : Grant} (now : ℕ) (e : Callback) (job : MessageJob) → RowStep g job (bind_job now e job)
bind_job-RowStep now e job = record {
  move = bind_job-RowMove now e job;
  keeps = bind_job-IsCoherent now e job;
}

pub apply_event-RowStep :
    {g : Grant} (now : ℕ) (e : Callback) (job : MessageJob) → RowStep g job (apply_event now e job)
apply_event-RowStep now e job = record {
  move = apply_event-RowMove now e job;
  keeps = apply_event-IsCoherent now e job;
}
