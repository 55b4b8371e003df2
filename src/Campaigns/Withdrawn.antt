-- ===== src/Campaigns/Withdrawn.antt =====
-- What `cancel_campaign_jobs` leaves of a campaign's jobs, and of the rows beside them.
use poolbrian_sms_automation.Prelude.{
  ℕ, ◌≡◌, ◌≢◌, ◌⊎◌, inl, inr, refl, sym, String, none, some, true, false, arith, All,
  All-update_where_new, Bool-cases, holds_number, ap, ◌∙◌, All-append,
}
use poolbrian_sms_automation.Store.{Db, MessageJob, JobStatus}
use poolbrian_sms_automation.Jobs.Enqueue.{NewJob, insert_message_job, key_taken}
use poolbrian_sms_automation.Jobs.Recovery.{withdraw_job, is_pending}
use poolbrian_sms_automation.Campaigns.Cancel.{campaign_test, cancel_campaign_jobs}

-- No worker can still take or send the job: it is not queued, not waiting for a retry, not leased.
abbrev pub IsOut : JobStatus → Type 0
IsOut s = (s ≢ JobStatus.queued) × (s ≢ JobStatus.retry) × (s ≢ JobStatus.leased)

-- A job of another campaign or of none, or a job that is out.
abbrev pub OutOf : ℕ → MessageJob → Type 0
OutOf id job = (job.campaign_id ≢ some id) ⊎ IsOut job.status

status-IsOut : (s : JobStatus) → is_pending s ≡ false → IsOut s
status-IsOut s h = ((λ e. cc (rw e at h)), (λ e. cc (rw e at h)), (λ e. cc (rw e at h)))

of_test : (id : ℕ) (job : MessageJob) → campaign_test id job ≡ false → OutOf id job
of_test id job h = elim (Bool-cases (holds_number job.campaign_id id)) [
  | inl e ↦ inr (status-IsOut job.status (rw e at h))
  | inr e ↦ inl (λ k. cc (held id ∙ ap (λ o. holds_number o id) (sym k) ∙ e))
]
  where
    held : (n : ℕ) → true ≡ holds_number (some n) n
    held n = ground arith

-- After the cancellation no job of the campaign can be taken or sent.
pub cancel_campaign_jobs-OutOf :
    (now id : ℕ) (reason : String) (db : Db)
    → All (OutOf id) (cancel_campaign_jobs now id reason db).message_jobs
unfolding cancel_campaign_jobs withdraw_job
cancel_campaign_jobs-OutOf now id reason db =
    All-update_where_new (OutOf id) (campaign_test id) (withdraw_job now reason)
      (λ job e. inr (status-IsOut JobStatus.cancelled refl)) (λ job e. of_test id job e)
      db.message_jobs

-- A job of no campaign that is inserted then is none of its jobs.
pub insert_message_job-OutOf :
    (now id : ℕ) (n : NewJob) (db : Db)
    → n.campaign_id ≡ none
    → All (OutOf id) db.message_jobs
    → All (OutOf id) (insert_message_job now n db).1.message_jobs
unfolding insert_message_job
insert_message_job-OutOf now id n db e h =
    elim (Bool-cases (key_taken n.idempotency_key db.message_jobs)) [
      | inl k ↦ rw k h
      | inr k ↦ rw k (All-append (OutOf id) db.message_jobs _ h (inl (λ p. cc (sym e ∙ p)), tt))
    ]
