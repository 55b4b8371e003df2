-- ===== src/Campaigns/Workflow.antt =====
-- `create_completed_service_workflow` of app/repositories/campaigns.py: the campaign and the
-- messages that a completed service gives rise to. It is one transaction, whose advisory locks make
-- it run as if alone.
pub mod Again
pub mod Sound
use poolbrian_sms_automation.Prelude.{
  ℕ, ◌+◌, ◌*◌, String, Option, none, some, Bool, true, false, ◌&&◌, ◌||◌, List, [], ◌∷◌, ◌++◌, leb,
  ◌==◌, if◌then◌else◌, str_eq, is_some, coalesce, concat_texts, update_where, find_where,
}
use poolbrian_sms_automation.Store.{
  Db, Channel, sms, email, Campaign, CampaignStatus, ProcessedJob, ProcessedAlert,
}
use poolbrian_sms_automation.Store.Json.{Json, null, number, text, Fields, field, end}
use poolbrian_sms_automation.Domain.Schedule.{ReviewSchedule}
use poolbrian_sms_automation.Jobs.Enqueue.{NewJob, insert_message_job}

-- The arguments of `create_completed_service_workflow`, with the schedule that it computes first,
-- the fresh token of `secrets.token_urlsafe`, and `str` on an int.
pub record Service : Type 0 where
  pub source_job_id : ℕ
  pub customer_id : ℕ
  pub customer_name : String
  pub phone_e164 : Option String
  pub email_normalized : Option String
  pub schedule : ReviewSchedule
  pub suppression_days : ℕ
  pub max_attempts : ℕ
  pub review_token : String
  pub str_of : ℕ → String

pub data WorkflowResult : Type 0 where
  already_processed : WorkflowResult
  recent_or_confirmed_campaign : WorkflowResult
  campaign_created : ℕ → WorkflowResult

abbrev pub same_record : ℕ → ProcessedJob → Bool
same_record id p = p.record_id == id

-- `if phone_e164`, `if email_normalized`: an empty text is false too.
abbrev pub if_text : Option String → (String → Db → Db) → Db → Db
if_text none insert db = db
if_text (some String.[]) insert db = db
if_text (some (String.◌∷◌ c s)) insert db = insert (String.◌∷◌ c s) db

-- The first INSERT.
unfoldable pub store_processed_job : ℕ → Service → Db → Db
store_processed_job now s db = record db {
  processed_jobs =
      db.processed_jobs
      ++ record {
        record_id = s.source_job_id;
        customer_id = some s.customer_id;
        status = "queued";
        twilio_message_sid = none;
        last_error = none;
        processed_at = now;
      }
        ∷ [];
}

abbrev service_job : ℕ → Service → String → NewJob
service_job now s phone = record {
  idempotency_key = concat_texts ("completed-service:" ∷ s.str_of s.source_job_id ∷ []);
  campaign_id = none;
  inbound_event_id = none;
  customer_id = some s.customer_id;
  channel = sms;
  message_kind = "completed_service_sms";
  destination = phone;
  template_key = "completed_service_sms";
  template_data =
      field "customer_name" (text s.customer_name)
        (field "source_job_id" (number s.source_job_id) end);
  scheduled_at = now;
  max_attempts = s.max_attempts;
}

abbrev pub equal_texts : Option String → Option String → Bool
equal_texts (some a) (some b) = str_eq a b
equal_texts _ _ = false

-- `status IN ('active', 'completed', 'confirmed')`.
abbrev pub not_cancelled : CampaignStatus → Bool
not_cancelled CampaignStatus.cancelled = false
not_cancelled _ = true

abbrev pub days : ℕ → ℕ
days n = n * 86400000000

-- The WHERE clause of `suppressed_campaign`; `created_at >= NOW() - days` has its two sides added to.
unfoldable pub suppresses : ℕ → Service → Campaign → Bool
suppresses now s c =
    (c.customer_id == s.customer_id
      || (equal_texts c.phone_e164 s.phone_e164
          || equal_texts c.email_normalized s.email_normalized))
    && (is_some c.confirmed_at
        || (not_cancelled c.status && leb now (c.created_at + days s.suppression_days)))

abbrev new_campaign : ℕ → ℕ → Service → Campaign
new_campaign now id s = record {
  id = id;
  source_job_id = s.source_job_id;
  customer_id = s.customer_id;
  customer_name = some s.customer_name;
  phone_e164 = s.phone_e164;
  email_normalized = s.email_normalized;
  review_token = s.review_token;
  status = CampaignStatus.active;
  clicked_at = none;
  customer_replied_at = none;
  confirmed_at = none;
  google_review_id = none;
  google_reviewer_name = none;
  cancelled_reason = none;
  created_at = now;
  updated_at = now;
}

abbrev review_job : Service → ℕ → String → Channel → String → ℕ → String → NewJob
review_job s campaign_id suffix channel kind at destination = record {
  idempotency_key = concat_texts ("review:" ∷ s.str_of campaign_id ∷ ":" ∷ suffix ∷ []);
  campaign_id = some campaign_id;
  inbound_event_id = none;
  customer_id = some s.customer_id;
  channel = channel;
  message_kind = kind;
  destination = destination;
  template_key = kind;
  template_data =
      field "customer_name" (text s.customer_name) (field "review_token" (text s.review_token) end);
  scheduled_at = at;
  max_attempts = s.max_attempts;
}

-- The text message of the campaign, and its two emails.
unfoldable pub insert_review_jobs : ℕ → Service → ℕ → Db → Db
unfolding insert_message_job
insert_review_jobs now s id db =
    if_text s.email_normalized
      (λ to db'.
        (insert_message_job now
          (review_job s id "saturday_review_email" email "saturday_review_email"
            s.schedule.saturday_review_email to)
          (insert_message_job now
            (review_job s id "next_day_review_email" email "next_day_review_email"
              s.schedule.next_day_review_email to)
            db').1).1)
      (if_text s.phone_e164
        (λ to db'.
          (insert_message_job now
            (review_job s id "initial-sms" sms "initial_review_sms" s.schedule.initial_review_sms
              to)
            db').1)
        db)

unfoldable pub create_campaign : ℕ → Service → Db → WorkflowResult × Db
unfolding insert_review_jobs
create_campaign now s db = (
  campaign_created db.campaign_seq,
  insert_review_jobs now s db.campaign_seq (record db {
    review_campaigns = db.review_campaigns ++ new_campaign now db.campaign_seq s ∷ [];
    campaign_seq = db.campaign_seq + 1;
  }),
)

abbrev pub after_service : ℕ → Service → Db → Option Campaign → WorkflowResult × Db
after_service now s db (some c) = (recent_or_confirmed_campaign, db)
after_service now s db none = create_campaign now s db

unfoldable pub create_completed_service_workflow : ℕ → Service → Db → WorkflowResult × Db
create_completed_service_workflow now s db =
    if is_some (find_where (same_record s.source_job_id) db.processed_jobs)
    then (already_processed, db)
    else (let served =
          if_text s.phone_e164 (λ to db'. (insert_message_job now (service_job now s to) db').1)
            (store_processed_job now s db) in
        after_service now s served (find_where (suppresses now s) served.review_campaigns))
