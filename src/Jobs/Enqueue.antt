-- ===== src/Jobs/Enqueue.antt =====
-- The functions that insert message jobs: `_insert_message_job` of app/repositories/campaigns.py
-- and the two enqueuing functions of app/repositories/jobs.py. A conflict on the idempotency key
-- inserts nothing; the sequence of ids moves on all the same.
use poolbrian_sms_automation.Prelude.{
  ℕ, ◌+◌, String, Option, none, some, Bool, false, ◌||◌, List, [], ◌∷◌, ◌++◌, if◌then◌else◌, str_eq,
  is_some, get_or_text, concat_texts,
}
use poolbrian_sms_automation.Store.{Db, MessageJob, Channel, sms, email, JobStatus}
use poolbrian_sms_automation.Store.Json.{Fields, text, field, end}

-- The columns that an INSERT gives; the others take their defaults.
pub record NewJob : Type 0 where
  pub idempotency_key : String
  pub campaign_id : Option ℕ
  pub inbound_event_id : Option ℕ
  pub customer_id : Option ℕ
  pub channel : Channel
  pub message_kind : String
  pub destination : String
  pub template_key : String
  pub template_data : Fields
  pub scheduled_at : ℕ
  pub max_attempts : ℕ

unfoldable pub key_taken : String → List MessageJob → Bool
key_taken key [] = false
key_taken key (job ∷ rest) = str_eq job.idempotency_key key || key_taken key rest

unfoldable pub new_row : ℕ → ℕ → NewJob → MessageJob
new_row now id n = record {
  id = id;
  idempotency_key = n.idempotency_key;
  campaign_id = n.campaign_id;
  inbound_event_id = n.inbound_event_id;
  customer_id = n.customer_id;
  channel = n.channel;
  message_kind = n.message_kind;
  destination_normalized = some n.destination;
  template_key = n.template_key;
  template_data = n.template_data;
  status = JobStatus.queued;
  scheduled_at = n.scheduled_at;
  attempt_count = 0;
  max_attempts = n.max_attempts;
  locked_at = none;
  locked_by = none;
  lease_expires_at = none;
  provider = none;
  provider_message_id = none;
  provider_status = none;
  provider_status_rank = 0;
  last_error_code = none;
  last_error = none;
  accepted_at = none;
  sent_at = none;
  delivered_at = none;
  failed_at = none;
  cancelled_at = none;
  created_at = now;
  updated_at = now;
}

-- The id of the new row, if one was inserted.
unfoldable pub insert_message_job : ℕ → NewJob → Db → Option ℕ × Db
unfolding new_row
insert_message_job now n db =
    let next = record db { message_job_seq = db.message_job_seq + 1 } in
    if key_taken n.idempotency_key db.message_jobs then (none, next) else (
      some db.message_job_seq,
      record next { message_jobs = db.message_jobs ++ new_row now db.message_job_seq n ∷ [] },
    )

-- A job that the code inserts with no campaign, event or customer.
abbrev admin_job : String → Channel → String → String → Fields → ℕ → ℕ → NewJob
admin_job key channel kind destination data_fields now max_attempts = record {
  idempotency_key = key;
  campaign_id = none;
  inbound_event_id = none;
  customer_id = none;
  channel = channel;
  message_kind = kind;
  destination = destination;
  template_key = kind;
  template_data = data_fields;
  scheduled_at = now;
  max_attempts = max_attempts;
}

abbrev alert_text : String → String → Option String → String
alert_text failed_destination_masked provider_status error_code = concat_texts (
    "SMS ALERT: Message to "
    ∷ failed_destination_masked
    ∷ " was "
    ∷ provider_status
    ∷ ". Twilio error: "
    ∷ get_or_text error_code "none"
    ∷ "."
    ∷ [])

abbrev pub delivery_failure_job : ℕ → String → String → String → String → Option String → ℕ → NewJob
delivery_failure_job now failed_id destination masked status error_code max_attempts =
    admin_job (concat_texts ("delivery-failure-alert:" ∷ failed_id ∷ [])) sms
      "admin_delivery_failure_sms" destination
      (field "message" (text (alert_text masked status error_code)) end) now max_attempts

unfoldable pub enqueue_delivery_failure_alert :
    ℕ → String → String → String → String → Option String → ℕ → Db → Bool × Db
unfolding insert_message_job
enqueue_delivery_failure_alert now failed_id destination masked status error_code max_attempts db =
    let (id, db') =
      insert_message_job now
        (delivery_failure_job now failed_id destination masked status error_code max_attempts) db in
    (is_some id, db')

abbrev lead_key : String → String → String
lead_key event_id suffix = concat_texts ("website-lead:" ∷ event_id ∷ ":" ∷ suffix ∷ [])

-- The result says which of the two jobs, text message and email, are new.
unfoldable pub enqueue_website_lead_notifications :
    ℕ → String → String → String → Fields → ℕ → Db → (Bool × Bool) × Db
unfolding insert_message_job
enqueue_website_lead_notifications now event_id sms_to email_to lead max_attempts db =
    let (first, db') =
      insert_message_job now
        (admin_job (lead_key event_id "sms") sms "admin_website_lead_sms" sms_to lead now
          max_attempts)
        db in
    let (second, db'') =
      insert_message_job now
        (admin_job (lead_key event_id "email") email "admin_website_lead_email" email_to lead now
          max_attempts)
        db' in
    ((is_some first, is_some second), db'')
