-- ===== src/Jobs/Edges.antt =====
-- The state machine that a message job follows, and that each assignment of
-- app/repositories/jobs.py to a row follows it.
use poolbrian_sms_automation.Prelude.{
  ℕ, ◌≤◌, ◌<◌, ◌≡◌, refl, ◌⊎◌, inl, inr, Bool, true, false, String, Option, arith,
}
use poolbrian_sms_automation.Store.{Db, MessageJob, JobStatus}
use poolbrian_sms_automation.Jobs.Claim.{ClaimRequest, is_waiting, lease_job}
use poolbrian_sms_automation.Jobs.Lease.{
  is_leased, is_sending, in_flight, may_be_accepted, Acceptance, Failure, accept_job, failed_status,
  fail_job, unknown_job,
}
use poolbrian_sms_automation.Jobs.Recovery.{
  is_pending, is_failed_or_dead, recover_job, cancel_job, requeue_job, withdraw_job,
}
use poolbrian_sms_automation.Jobs.Provider.{Callback, bind_job, apply_event, event_status}

-- What a provider's callback can report.
abbrev pub is_reported : JobStatus → Bool
is_reported JobStatus.sent = true
is_reported JobStatus.delivered = true
is_reported JobStatus.failed = true
is_reported _ = false

-- The edges of the state machine; only an operator takes `requeue`.
pub data Edge (operator : Bool) (s t : JobStatus) : Type 0 where
  stay : t ≡ s → Edge operator s t
  lease : is_waiting s ≡ true → t ≡ JobStatus.leased → Edge operator s t
  start : is_leased s ≡ true → t ≡ JobStatus.sending → Edge operator s t
  accept : may_be_accepted s ≡ true → t ≡ JobStatus.accepted → Edge operator s t
  again : in_flight s ≡ true → t ≡ JobStatus.retry → Edge operator s t
  give_up : in_flight s ≡ true → t ≡ JobStatus.dead → Edge operator s t
  refuse : in_flight s ≡ true → t ≡ JobStatus.failed → Edge operator s t
  lose : is_sending s ≡ true → t ≡ JobStatus.delivery_unknown → Edge operator s t
  stop : in_flight s ≡ true → t ≡ JobStatus.cancelled → Edge operator s t
  withdraw : is_pending s ≡ true → t ≡ JobStatus.cancelled → Edge operator s t
  requeue : operator ≡ true → is_failed_or_dead s ≡ true → t ≡ JobStatus.queued → Edge operator s t
  report : is_reported t ≡ true → Edge operator s t

-- What an action may do beyond what every action may: requeue jobs, and lease those of a kind.
pub record Grant : Type 0 where
  pub operator : Bool
  pub may_lease : MessageJob → Bool

-- One step of a job: its identity and its recipient stay, its status takes an edge, its attempts are counted
-- upwards, and it is leased only as a new attempt.
pub record RowMove (g : Grant) (a b : MessageJob) : Type 0 where
  pub same_id : b.id ≡ a.id
  pub same_key : b.idempotency_key ≡ a.idempotency_key
  pub same_channel : b.channel ≡ a.channel
  pub same_destination : b.destination_normalized ≡ a.destination_normalized
  pub edge : Edge g.operator a.status b.status
  pub counted : a.attempt_count ≤ b.attempt_count
  pub leased_anew :
      is_leased b.status ≡ true
      → ((a.attempt_count < b.attempt_count) × (g.may_lease a ≡ true))
        ⊎ ((is_leased a.status ≡ true) × (b.attempt_count ≡ a.attempt_count))

pub RowMove-refl : {g : Grant} (a : MessageJob) → RowMove g a a
RowMove-refl a = record {
  same_id = refl;
  same_key = refl;
  same_channel = refl;
  same_destination = refl;
  edge = stay refl;
  counted = omega arith;
  leased_anew = λ h. inr (h, refl);
}

pub lease_job-RowMove :
    {g : Grant} (r : ClaimRequest) (now : ℕ) (db : Db) (job : MessageJob)
    → is_waiting job.status ≡ true
    → g.may_lease job ≡ true
    → RowMove g job (lease_job r now db job)
unfolding lease_job
lease_job-RowMove r now db job h m = record {
  same_id = refl;
  same_key = refl;
  same_channel = refl;
  same_destination = refl;
  edge = lease h refl;
  counted = omega arith;
  leased_anew = λ _. inl (omega arith, m);
}

pub accept_job-RowMove :
    {g : Grant} (now : ℕ) (a : Acceptance) (job : MessageJob)
    → may_be_accepted job.status ≡ true
    → RowMove g job (accept_job now a job)
unfolding accept_job
accept_job-RowMove now a job h = grind (arith, accept, stay)

pub failed_status-Edge :
    {o : Bool} (f : Failure) (job : MessageJob)
    → in_flight job.status ≡ true
    → Edge o job.status (failed_status f job)
unfolding failed_status
failed_status-Edge f job h = grind (arith, again, give_up, refuse)

pub failed_status-not_leased :
    (f : Failure) (job : MessageJob) → is_leased (failed_status f job) ≡ false
unfolding failed_status
failed_status-not_leased f job = ground arith

pub fail_job-RowMove :
    {g : Grant} (now : ℕ) (f : Failure) (job : MessageJob)
    → in_flight job.status ≡ true
    → RowMove g job (fail_job now f job)
unfolding fail_job
fail_job-RowMove now f job h = record {
  same_id = refl;
  same_key = refl;
  same_channel = refl;
  same_destination = refl;
  edge = failed_status-Edge f job h;
  counted = omega arith;
  leased_anew = λ l. cc (failed_status-not_leased f job);
}

pub unknown_job-RowMove :
    {g : Grant} (now : ℕ) (error : String) (code : Option String) (job : MessageJob)
    → is_sending job.status ≡ true
    → RowMove g job (unknown_job now error code job)
unfolding unknown_job
unknown_job-RowMove now error code job h = grind (arith, lose)

pub recover_job-RowMove :
    {g : Grant} (now : ℕ) (job : MessageJob)
    → in_flight job.status ≡ true
    → RowMove g job (recover_job now job)
unfolding recover_job
recover_job-RowMove now job h = grind (arith, lose, give_up, again)

pub cancel_job-RowMove :
    {g : Grant} (now : ℕ) (reason : String) (job : MessageJob)
    → in_flight job.status ≡ true
    → RowMove g job (cancel_job now reason job)
unfolding cancel_job
cancel_job-RowMove now reason job h = grind (arith, stop)

pub requeue_job-RowMove :
    {g : Grant} (now : ℕ) (job : MessageJob)
    → g.operator ≡ true
    → is_failed_or_dead job.status ≡ true
    → RowMove g job (requeue_job now job)
unfolding requeue_job
requeue_job-RowMove now job o h = record {
  same_id = refl;
  same_key = refl;
  same_channel = refl;
  same_destination = refl;
  edge = requeue o h refl;
  counted = omega arith;
  leased_anew = λ l. cc;
}

pub withdraw_job-RowMove :
    {g : Grant} (now : ℕ) (reason : String) (job : MessageJob)
    → is_pending job.status ≡ true
    → RowMove g job (withdraw_job now reason job)
unfolding withdraw_job
withdraw_job-RowMove now reason job h = grind (arith, withdraw)

pub bind_job-RowMove :
    {g : Grant} (now : ℕ) (e : Callback) (job : MessageJob) → RowMove g job (bind_job now e job)
unfolding bind_job
bind_job-RowMove now e job = grind (arith, stay)

pub event_status-Edge :
    {o : Bool} (status : String) (s : JobStatus) → Edge o s (event_status status s)
unfolding event_status
event_status-Edge status s = grind (arith, report, stay)

pub event_status-is_leased :
    (status : String) (s : JobStatus)
    → is_leased (event_status status s) ≡ true
    → is_leased s ≡ true
unfolding event_status
event_status-is_leased status s h = ground arith

pub apply_event-RowMove :
    {g : Grant} (now : ℕ) (e : Callback) (job : MessageJob) → RowMove g job (apply_event now e job)
unfolding apply_event
apply_event-RowMove now e job = record {
  same_id = refl;
  same_key = refl;
  same_channel = refl;
  same_destination = refl;
  edge = event_status-Edge e.status job.status;
  counted = omega arith;
  leased_anew = λ l. inr (event_status-is_leased e.status job.status l, refl);
}
