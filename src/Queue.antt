-- ===== src/Queue.antt =====
-- All that happens to the queue, as sequences of transactions: any number of workers, callbacks,
-- opt-outs and operators, in any order. Each action is one transaction, which the database runs
-- as if alone.
pub mod Same
pub mod Rows
pub mod Sound
pub mod Dispatch
pub mod Settled
pub mod OptOut
pub mod Sequences
pub mod Unchanged
pub mod Chains
use poolbrian_sms_automation.Prelude.{
  ℕ, ◌+◌, String, Option, none, some, Bool, true, false, List, [], ◌∷◌, if◌then◌else◌, find_where,
}
use poolbrian_sms_automation.Store.{Db, MessageJob, Campaign}
use poolbrian_sms_automation.Jobs.Claim.{ClaimRequest, claim_message_jobs}
use poolbrian_sms_automation.Jobs.Lease.{
  Acceptance, Failure, mark_sending, sending_test, mark_accepted, fail_message_job,
  mark_delivery_unknown,
}
use poolbrian_sms_automation.Jobs.Recovery.{
  recover_stale_message_jobs, cancel_message_job, retry_dead_or_failed_job,
  cancel_suppressed_queued_jobs,
}
use poolbrian_sms_automation.Jobs.Provider.{Callback, record_provider_event}
use poolbrian_sms_automation.Jobs.Enqueue.{NewJob, insert_message_job}
use poolbrian_sms_automation.Preferences.{
  PreferenceChange, save_preference, record_permanent_bounce,
}
use poolbrian_sms_automation.Campaigns.Cancel.{cancel_campaign_jobs}
use poolbrian_sms_automation.Notices.{cancel_service_notice_campaign}
use poolbrian_sms_automation.Retention.{scrub_forwarded, delete_attempts}

-- A transaction that writes to message_jobs, or to what a claim reads. `change_campaigns` stands for
-- any writing of review_campaigns by other code.
pub data Action : Type 0 where
  claim : ClaimRequest → ℕ → (ℕ → Bool) → Action
  start_sending : ℕ → ℕ → String → Action
  accept : ℕ → ℕ → String → Acceptance → Action
  fail : ℕ → ℕ → String → Failure → Action
  lose : ℕ → ℕ → String → String → Option String → Action
  recover : ℕ → Action
  cancel : ℕ → ℕ → String → String → Action
  retry : ℕ → ℕ → Action
  callback : ℕ → Callback → Action
  sweep : ℕ → Action
  enqueue : ℕ → NewJob → Action
  prefer : ℕ → PreferenceChange → Action
  bounce : ℕ → String → String → Action
  cancel_campaign : ℕ → ℕ → String → Action
  cancel_notice : ℕ → ℕ → Action
  change_campaigns : List Campaign → Action
  expire : ℕ → ℕ → ℕ → Action

-- A claim that raises leaves the tables as they were.
abbrev pub claimed_db : Db → Option (List MessageJob × Db) → Db
claimed_db db none = db
claimed_db db (some (claimed, db')) = db'

unfoldable pub perform : Action → Db → Db
perform (claim r now held) db = claimed_db db (claim_message_jobs r now held db)
perform (start_sending now id w) db = (mark_sending now id w db).1
perform (accept now id w a) db = (mark_accepted now id w a db).1
perform (fail now id w f) db = (fail_message_job now id w f db).1
perform (lose now id w error code) db = (mark_delivery_unknown now id w error code db).1
perform (recover now) db = (recover_stale_message_jobs now db).1
perform (cancel now id w reason) db = cancel_message_job now id w reason db
perform (retry now id) db = (retry_dead_or_failed_job now id db).1
perform (callback now e) db = (record_provider_event now e db).1
perform (sweep now) db = (cancel_suppressed_queued_jobs now db).1
perform (enqueue now n) db = (insert_message_job now n db).1
perform (prefer now c) db = save_preference now c db
perform (bounce now destination message_id) db =
    record_permanent_bounce now destination message_id db
perform (cancel_campaign now id reason) db = cancel_campaign_jobs now id reason db
perform (cancel_notice now id) db = (cancel_service_notice_campaign now id db).1
perform (change_campaigns campaigns) db = record db { review_campaigns = campaigns }
perform (expire now content_days event_days) db =
    delete_attempts now event_days (scrub_forwarded now content_days db)

-- The job and the number of the attempt that a worker may now hand to the provider.
abbrev pub dispatched_row : Option MessageJob → List (ℕ × ℕ) → List (ℕ × ℕ)
dispatched_row none log = log
dispatched_row (some job) log = (job.id, job.attempt_count) ∷ log

-- `mark_sending` that returns true is the worker's leave to send.
unfoldable pub dispatch : Action → Db → List (ℕ × ℕ) → List (ℕ × ℕ)
dispatch (start_sending now id w) db log =
    if (mark_sending now id w db).0
    then dispatched_row (find_where (sending_test id w) db.message_jobs) log
    else log
dispatch _ db log = log

-- The sends of a whole run, the last one first.
unfoldable pub dispatches : List Action → Db → List (ℕ × ℕ) → List (ℕ × ℕ)
dispatches [] db log = log
dispatches (a ∷ rest) db log = dispatches rest (perform a db) (dispatch a db log)

unfoldable pub run : List Action → Db → Db
run [] db = db
run (a ∷ rest) db = run rest (perform a db)
