-- ===== src/Notices/Enqueue.antt =====
-- `enqueue_service_notice_campaign` of app/repositories/service_notices.py.
use poolbrian_sms_automation.Prelude.{
  ℕ, ◌+◌, String, Option, none, some, List, [], ◌∷◌, ◌++◌, length, concat_texts,
}
use poolbrian_sms_automation.Store.{Db, sms, NoticeStatus, NoticeCampaign, NoticeRecipient}
use poolbrian_sms_automation.Store.Json.{field, end, text, number}
use poolbrian_sms_automation.Jobs.Enqueue.{NewJob, insert_message_job}
use poolbrian_sms_automation.Notices.Recipients.{Recipient, normalized_customer_ids, recipient_rows}

-- The arguments of the function; `str_of` writes a number in decimal, as Python's `str` does.
pub record Notice : Type 0 where
  pub name : String
  pub message_body : String
  pub customer_ids : List ℕ
  pub consent_basis : String
  pub consent_evidence : String
  pub scheduled_at : ℕ
  pub created_by : String
  pub max_attempts : ℕ
  pub str_of : ℕ → String

-- What the function returns or raises: a ValueError with its text, a violation of a constraint,
-- or the campaign and the number of its recipients.
pub data Queued : Type 0 where
  value_error : String → Queued
  integrity_error : Queued
  queued_campaign : ℕ → ℕ → Queued

abbrev pub notice_row : ℕ → ℕ → Notice → ℕ → NoticeCampaign
notice_row now id n count = record {
  id = id;
  name = n.name;
  message_body = n.message_body;
  status = NoticeStatus.queued;
  consent_basis = n.consent_basis;
  consent_evidence = n.consent_evidence;
  recipient_count = count;
  scheduled_at = n.scheduled_at;
  created_by = n.created_by;
  created_at = now;
  cancelled_at = none;
}

abbrev pub notice_key : Notice → ℕ → String → String
notice_key n campaign_id phone =
    concat_texts ("service-notice:" ∷ n.str_of campaign_id ∷ ":" ∷ phone ∷ [])

abbrev pub notice_job : Notice → ℕ → Recipient → NewJob
notice_job n campaign_id r = record {
  idempotency_key = notice_key n campaign_id r.phone_e164;
  campaign_id = none;
  inbound_event_id = none;
  customer_id = some r.customer_id;
  channel = sms;
  message_kind = "service_notice_sms";
  destination = r.phone_e164;
  template_key = "service_notice_sms";
  template_data = field "service_notice_campaign_id" (number campaign_id) (
      field "customer_name" (text r.customer_name)
        (field "message_body" (text n.message_body) end));
  scheduled_at = n.scheduled_at;
  max_attempts = n.max_attempts;
}

abbrev pub notice_recipient : ℕ → Recipient → ℕ → NoticeRecipient
notice_recipient campaign_id r job_id = record {
  campaign_id = campaign_id;
  customer_id = r.customer_id;
  customer_name = r.customer_name;
  phone_e164 = r.phone_e164;
  message_job_id = job_id;
}

-- The row of the recipient behind its job; `none` where the job's key was taken.
abbrev pub link_recipient : ℕ → Recipient → Option ℕ × Db → Option Db
link_recipient campaign_id r (none, db) = none
link_recipient campaign_id r (some job_id, db) = some (record db {
  service_notice_recipients =
      db.service_notice_recipients ++ notice_recipient campaign_id r job_id ∷ [];
})

-- One round of the loop. The INSERT has no ON CONFLICT: a key that is taken raises.
unfoldable pub notify : ℕ → Notice → ℕ → Recipient → Db → Option Db
notify now n campaign_id r db =
    link_recipient campaign_id r (insert_message_job now (notice_job n campaign_id r) db)

abbrev pub and_then : Option Db → (Db → Option Db) → Option Db
and_then none f = none
and_then (some db) f = f db

unfoldable pub notify_all : ℕ → Notice → ℕ → List Recipient → Db → Option Db
notify_all now n campaign_id [] db = some db
notify_all now n campaign_id (r ∷ rest) db =
    and_then (notify now n campaign_id r db) (notify_all now n campaign_id rest)

abbrev pub insert_notice : ℕ → Notice → ℕ → Db → Db
insert_notice now n count db = record db {
  service_notice_campaigns =
      db.service_notice_campaigns ++ notice_row now db.notice_campaign_seq n count ∷ [];
  notice_campaign_seq = db.notice_campaign_seq + 1;
}

-- An exception rolls the rows back.
abbrev pub finish_notice : Db → ℕ → ℕ → Option Db → Queued × Db
finish_notice db id count none = (integrity_error, db)
finish_notice db id count (some after) = (queued_campaign id count, after)

abbrev pub enqueue_for : ℕ → Notice → Db → List Recipient → Queued × Db
enqueue_for now n db [] = (value_error "No selected customers are currently eligible", db)
enqueue_for now n db (r ∷ rest) = finish_notice db db.notice_campaign_seq (length (r ∷ rest)) (
    notify_all now n db.notice_campaign_seq (r ∷ rest) (insert_notice now n (length (r ∷ rest)) db))

abbrev pub enqueue_selected : ℕ → Notice → Db → List ℕ → Queued × Db
enqueue_selected now n db [] = (value_error "Select at least one customer", db)
enqueue_selected now n db (id ∷ ids) = enqueue_for now n db (recipient_rows (id ∷ ids) db)

unfoldable pub enqueue_service_notice_campaign : ℕ → Notice → Db → Queued × Db
enqueue_service_notice_campaign now n db =
    enqueue_selected now n db (normalized_customer_ids n.customer_ids)
