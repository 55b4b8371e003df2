-- ===== src/Jobs/Provider.antt =====
-- `record_provider_event` of app/repositories/jobs.py: a delivery callback is logged, bound to its
-- job, moves the job if its rank allows, and is copied to the table of the job's source.
use poolbrian_sms_automation.Prelude.{
  ℕ, String, Option, none, some, Bool, true, false, ◌&&◌, ◌||◌, [], ◌∷◌, ◌++◌, ltb, ◌==◌,
  if◌then◌else◌, str_eq, coalesce, holds_text, holds_number, update_where, find_where,
}
use poolbrian_sms_automation.Store.{Db, MessageJob, JobStatus}
use poolbrian_sms_automation.Store.Json.{
  Json, null, flag, number, negative, text, array, object, get,
}
use poolbrian_sms_automation.Jobs.Lease.{unset_or, update_jobs}

pub record Callback : Type 0 where
  pub provider : String
  pub provider_message_id : String
  pub status : String
  pub status_rank : ℕ
  pub error_code : Option String
  pub destination : Option String
  pub message_job_id : Option ℕ

unfoldable pub log_event : ℕ → Callback → Db → Db
log_event now e db = record db {
  provider_message_events =
      db.provider_message_events
      ++ record {
        provider = e.provider;
        provider_message_id = e.provider_message_id;
        status = e.status;
        status_rank = e.status_rank;
        error_code = e.error_code;
        destination_normalized = e.destination;
        received_at = now;
      }
        ∷ [];
}

abbrev pub bind_test : ℕ → Callback → MessageJob → Bool
bind_test job_id e job = job.id == job_id && unset_or job.provider_message_id e.provider_message_id

unfoldable pub bind_job : ℕ → Callback → MessageJob → MessageJob
bind_job now e job = record job {
  provider = coalesce job.provider (some e.provider);
  provider_message_id = coalesce job.provider_message_id (some e.provider_message_id);
  accepted_at = coalesce job.accepted_at (some now);
  updated_at = now;
}

-- The first UPDATE, which is made only if the callback names a job.
abbrev pub bind_named : ℕ → Callback → Option ℕ → Db → Db
bind_named now e none db = db
bind_named now e (some job_id) db = update_jobs (bind_test job_id e) (bind_job now e) db

-- `status NOT IN ('delivered', 'failed', 'cancelled', 'dead')`.
abbrev pub is_open : JobStatus → Bool
is_open JobStatus.delivered = false
is_open JobStatus.failed = false
is_open JobStatus.cancelled = false
is_open JobStatus.dead = false
is_open _ = true

abbrev pub event_test : Callback → MessageJob → Bool
event_test e job =
    holds_text job.provider e.provider
    && (holds_text job.provider_message_id e.provider_message_id
        && (ltb job.provider_status_rank e.status_rank
            || (e.status_rank == job.provider_status_rank && is_open job.status)))

-- `:status IN ('failed', 'undelivered')`.
abbrev pub is_undelivered : String → Bool
is_undelivered status = str_eq status "failed" || str_eq status "undelivered"

abbrev pub is_lost : String → Bool
is_lost status = is_undelivered status || str_eq status "canceled"

unfoldable pub event_status : String → JobStatus → JobStatus
event_status status old =
    if str_eq status "delivered"
    then JobStatus.delivered
    else (if is_lost status
        then JobStatus.failed
        else (if str_eq status "sent" then JobStatus.sent else old))

unfoldable pub apply_event : ℕ → Callback → MessageJob → MessageJob
apply_event now e job = record job {
  provider_status = some e.status;
  provider_status_rank = e.status_rank;
  status = event_status e.status job.status;
  sent_at = if str_eq e.status "sent" then coalesce job.sent_at (some now) else job.sent_at;
  delivered_at =
      if str_eq e.status "delivered"
      then coalesce job.delivered_at (some now)
      else job.delivered_at;
  failed_at = if is_lost e.status then coalesce job.failed_at (some now) else job.failed_at;
  last_error_code = if is_undelivered e.status then e.error_code else job.last_error_code;
  updated_at = now;
}

-- `(template_data->>key)::BIGINT`, on the numbers that the program stores there.
bigint : Json → Option ℕ
bigint (number n) = some n
bigint null = none
bigint (flag b) = none
bigint (negative n) = none
bigint (text s) = none
bigint (array xs) = none
bigint (object fs) = none

abbrev outcome_of : Callback → String
outcome_of e = if is_undelivered e.status then "delivery_failed" else e.status

-- The copy to processed_jobs or processed_alerts.
unfoldable pub copy_outcome : ℕ → Callback → MessageJob → Db → Db
unfolding bigint
copy_outcome now e job db =
    if str_eq job.message_kind "completed_service_sms"
    then record db {
      processed_jobs =
          update_where
            (λ p. holds_number (bigint (get "source_job_id" job.template_data)) p.record_id)
            (λ p. record p {
              status = outcome_of e;
              twilio_message_sid = some e.provider_message_id;
              last_error = e.error_code;
              processed_at = now;
            })
            db.processed_jobs;
    }
    else (if str_eq job.message_kind "water_level_low_sms"
        then record db {
          processed_alerts =
              update_where
                (λ p. holds_number (bigint (get "alert_id" job.template_data)) p.alert_id)
                (λ p. record p {
                  status = outcome_of e;
                  twilio_message_sid = some e.provider_message_id;
                  last_error = e.error_code;
                  processed_at = now;
                })
                db.processed_alerts;
        }
        else db)

abbrev pub copy_first : ℕ → Callback → Db → Option MessageJob → Option MessageJob × Db
copy_first now e db none = (none, db)
copy_first now e db (some job) =
    (some (apply_event now e job), copy_outcome now e (apply_event now e job) db)

-- The result is the first row that the second UPDATE returns.
unfoldable pub record_provider_event : ℕ → Callback → Db → Option MessageJob × Db
unfolding log_event
record_provider_event now e db =
    let bound = bind_named now e e.message_job_id (log_event now e db) in
    let updated = update_jobs (event_test e) (apply_event now e) bound in
    copy_first now e updated (find_where (event_test e) bound.message_jobs)
