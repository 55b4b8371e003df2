-- ===== src/Workers.antt =====
-- The message worker of app/workers.py: what `process_due_messages` does with a job after the
-- provider's answer, which is an argument.
pub mod Fates
pub mod Releases
pub mod Loop
pub mod Contacts
pub mod Polling
pub mod Alerts
pub mod Inbox
pub mod Passes
use poolbrian_sms_automation.Prelude.{
  ℕ, ◌+◌, ◌-◌, ◌*◌, String, Option, none, some, Bool, true, false, not, ◌&&◌, ◌||◌, List, [], ◌∷◌,
  ltb, if◌then◌else◌, str_eq, get_or_text, contains_text,
}
use package.text.Mathlib.Text.{starts_with}
use poolbrian_sms_automation.Domain.Backoff.{retry_delay, provider_status_rank}
use poolbrian_sms_automation.Store.{Db, MessageJob, Channel, sms, email, JobStatus}
use poolbrian_sms_automation.Store.Json.{
  Json, null, flag, number, negative, text, array, object, get,
}
use poolbrian_sms_automation.Jobs.Claim.{ClaimRequest, claim_message_jobs}
use poolbrian_sms_automation.Jobs.Lease.{
  Acceptance, Failure, mark_sending, mark_accepted, fail_message_job, mark_delivery_unknown,
}
use poolbrian_sms_automation.Jobs.Recovery.{cancel_message_job}
use poolbrian_sms_automation.Preferences.{is_suppressed, get_or_create_unsubscribe_token}
use poolbrian_sms_automation.Outcomes.{set_processed_job_outcome, set_processed_alert_outcome}

-- What becomes of the send: the provider's acceptance, its error, an error of the network below
-- it, or any other exception.
pub data Answer : Type 0 where
  taken : String → String → Answer
  provider_error : Bool → Bool → Option String → String → Answer
  network_error : String → Answer
  other_error : String → Answer

-- What the run of one job adds to the counters of `process_due_messages`.
pub record Counts : Type 0 where
  pub accepted : ℕ
  pub failed : ℕ
  pub delivery_unknown : ℕ
  pub cancelled : ℕ

abbrev pub no_counts : Counts
no_counts = record { accepted = 0; failed = 0; delivery_unknown = 0; cancelled = 0 }

-- A number, when it is positive.
abbrev pub positive_id : Option ℕ → Option ℕ
positive_id none = none
positive_id (some n) = if ltb 0 n then some n else none

-- `_positive_int`: `int_of_text` is Python's `int` on a text, `none` where it raises or is negative.
unfoldable pub positive_int : (String → Option ℕ) → Json → Option ℕ
positive_int int_of_text (number n) = if ltb 0 n then some n else none
positive_int int_of_text (text s) = positive_id (int_of_text s)
positive_int int_of_text (flag true) = some 1
positive_int int_of_text (flag false) = none
positive_int int_of_text null = none
positive_int int_of_text (negative n) = none
positive_int int_of_text (array xs) = none
positive_int int_of_text (object fs) = none

-- All that a worker needs besides the tables: its id, Python's `int` and `str.lower`.
pub record Worker : Type 0 where
  pub worker_id : String
  pub int_of_text : String → Option ℕ
  pub lower : String → String

abbrev pub job_outcome :
    ℕ → MessageJob → Option ℕ → String → Option String → Option String → Db → Db
job_outcome now job none status message_id error db = db
job_outcome now job (some id) status message_id error db =
    set_processed_job_outcome now id (positive_id job.customer_id) status message_id error db

abbrev pub alert_outcome :
    ℕ → MessageJob → Option ℕ → Option ℕ → String → Option String → Option String → Db → Db
alert_outcome now job none source status message_id error db = db
alert_outcome now job (some id) source status message_id error db =
    set_processed_alert_outcome now id (positive_id job.customer_id) source status message_id error
      db

-- `_update_source_outcome`.
unfoldable pub update_source_outcome :
    Worker → ℕ → MessageJob → String → Option String → Option String → Db → Db
unfolding positive_int
update_source_outcome w now job status message_id error db =
    if str_eq job.message_kind "completed_service_sms"
    then job_outcome now job (positive_int w.int_of_text (get "source_job_id" job.template_data))
        status message_id error db
    else (if str_eq job.message_kind "water_level_low_sms"
        then alert_outcome now job (positive_int w.int_of_text (get "alert_id" job.template_data))
            (positive_int w.int_of_text (get "source_job_id" job.template_data)) status message_id
            error db
        else db)

abbrev pub provider_of : Channel → String
provider_of sms = "twilio"
provider_of email = "microsoft_graph"

-- `timedelta(seconds=…)`, in microseconds.
abbrev pub seconds : ℕ → ℕ
seconds n = n * 1000000

abbrev pub failure_of : String → Option String → Bool → ℕ → Failure
failure_of error code retryable at = record {
  error = error;
  error_code = code;
  retryable = retryable;
  next_attempt_at = at;
}

-- `exc.retryable` and the delay after it.
abbrev pub fail_with :
    Worker → ℕ → MessageJob → String → Option String → Bool → ℕ → Db → Option JobStatus × Db
fail_with w now job error code retryable at db =
    fail_message_job now job.id w.worker_id (failure_of error code retryable at) db

abbrev pub is_final : Option JobStatus → Bool
is_final (some JobStatus.failed) = true
is_final (some JobStatus.dead) = true
is_final _ = false

abbrev pub one_failed : Counts
one_failed = record no_counts { failed = 1 }

-- The branch for `SmsSendError` and `MicrosoftApiError`.
unfoldable pub on_provider_error :
    Worker → ℕ → MessageJob → Bool → Bool → Option String → String → Db → Counts × Db
unfolding update_source_outcome
on_provider_error w now job uncertain retryable code error db =
    if uncertain
    then (
      record no_counts { delivery_unknown = 1 },
      update_source_outcome w now job "delivery_unknown" none (some error)
          (mark_delivery_unknown now job.id w.worker_id error code db).1,
    )
    else (let (state, db') =
          fail_with w now job error code retryable (now + seconds (retry_delay job.attempt_count))
            db in
        (
          one_failed,
          if is_final state
              then update_source_outcome w now job "send_failed" none (some error) db'
              else db',
        ))

-- The branch for any other exception, before or after the provider accepted.
unfoldable pub on_exception : Worker → ℕ → MessageJob → Bool → String → Db → Counts × Db
unfolding update_source_outcome
on_exception w now job provider_accepted error db =
    if provider_accepted
    then (
      record no_counts { failed = 1; delivery_unknown = 1 },
      update_source_outcome w now job "delivery_unknown" none (some error)
          (mark_delivery_unknown now job.id w.worker_id error (some "persistence_error") db).1,
    )
    else (one_failed, (fail_with w now job error (some "unexpected_error") false now db).1)

abbrev pub lost_lease : String
lost_lease = "Provider accepted the message but the lease was no longer owned"

-- After `mark_accepted`.
unfoldable pub on_taken : Worker → ℕ → MessageJob → String → Bool × Db → Counts × Db
on_taken w now job message_id (true, db) = (
  record no_counts { accepted = 1 },
  update_source_outcome w now job "message_accepted" (some message_id) none db,
)
on_taken w now job message_id (false, db) = on_exception w now job true lost_lease db

abbrev pub acceptance_of : Worker → MessageJob → String → String → Acceptance
acceptance_of w job message_id status = record {
  provider = provider_of job.channel;
  provider_message_id = message_id;
  provider_status = status;
  status_rank = provider_status_rank w.lower (some status);
}

-- After the send.
unfoldable pub on_answer : Worker → ℕ → MessageJob → Answer → Db → Counts × Db
on_answer w now job (taken message_id status) db =
    on_taken w now job message_id
      (mark_accepted now job.id w.worker_id (acceptance_of w job message_id status) db)
on_answer w now job (provider_error uncertain retryable code error) db =
    on_provider_error w now job uncertain retryable code error db
on_answer w now job (network_error error) db = (
  one_failed,
  (fail_with w now job error (some "network_error") true
      (now + seconds (retry_delay job.attempt_count)) db).1,
)
on_answer w now job (other_error error) db = on_exception w now job false error db
