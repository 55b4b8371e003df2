-- ===== src/Examples/Tables.antt =====
-- The tables and requests that the examples share.
use poolbrian_sms_automation.Prelude.{ℕ, String, none, some, true, List, [], ◌∷◌}
use poolbrian_sms_automation.Store.{Db, MessageJob, sms, JobStatus, Campaign, CampaignStatus}
use poolbrian_sms_automation.Store.Json.{end}
use poolbrian_sms_automation.Jobs.Claim.{ClaimRequest}
use poolbrian_sms_automation.Jobs.Lease.{Acceptance, Failure}
use poolbrian_sms_automation.Preferences.{PreferenceChange}

abbrev pub customer_phone : String
customer_phone = "+18135550100"

abbrev pub queued_job : ℕ → String → MessageJob
queued_job id key = record {
  id = id;
  idempotency_key = key;
  campaign_id = none;
  inbound_event_id = none;
  customer_id = some 7;
  channel = sms;
  message_kind = "service_notice_sms";
  destination_normalized = some customer_phone;
  template_key = "service_notice_sms";
  template_data = end;
  status = JobStatus.queued;
  scheduled_at = 100;
  attempt_count = 0;
  max_attempts = 5;
  locked_at = none;
  locked_by = none;
  lease_expires_at = none;
  provider = none;
  provider_message_id = none;
  provider_status = none;
  provider_status_rank = 0;
  last_error_code = none;
  last_error = none;
  accepted_at = none;
  sent_at = none;
  delivered_at = none;
  failed_at = none;
  cancelled_at = none;
  created_at = 50;
  updated_at = 50;
}

abbrev pub with_jobs : List MessageJob → ℕ → Db
with_jobs jobs seq = record {
  message_jobs = jobs;
  message_attempts = [];
  provider_message_events = [];
  inbound_events = [];
  communication_preferences = [];
  communication_preference_events = [];
  review_campaigns = [];
  processed_jobs = [];
  processed_alerts = [];
  inbound_messages = [];
  unsubscribe_tokens = [];
  google_reviews = [];
  service_notice_campaigns = [];
  service_notice_recipients = [];
  automation_state = [];
  worker_heartbeats = [];
  message_job_seq = seq;
  inbound_event_seq = 1;
  campaign_seq = 1;
  inbound_message_seq = 1;
  notice_campaign_seq = 1;
}

abbrev pub two_jobs : Db
two_jobs = with_jobs (queued_job 1 "a" ∷ queued_job 2 "b" ∷ []) 3

abbrev pub request : ClaimRequest
request = record {
  worker_id = "w1";
  limit = 1;
  lease_minutes = 10;
  allowed_kinds = none;
  idempotency_prefix = none;
}

abbrev pub acceptance : Acceptance
acceptance = record {
  provider = "twilio";
  provider_message_id = "SM1";
  provider_status = "accepted";
  status_rank = 10;
}

abbrev pub network_error : Failure
network_error = record {
  error = "timed out";
  error_code = some "network_error";
  retryable = true;
  next_attempt_at = 400;
}

abbrev pub stop : PreferenceChange
stop = record {
  channel = sms;
  destination = customer_phone;
  suppressed = true;
  reason = "customer_opt_out";
  source = "twilio_inbound";
  evidence = end;
}

abbrev pub campaign_row : ℕ → ℕ → Campaign
campaign_row id customer_id = record {
  id = id;
  source_job_id = id;
  customer_id = customer_id;
  customer_name = some "Ann";
  phone_e164 = some customer_phone;
  email_normalized = none;
  review_token = "token";
  status = CampaignStatus.active;
  clicked_at = none;
  customer_replied_at = none;
  confirmed_at = none;
  google_review_id = none;
  google_reviewer_name = none;
  cancelled_reason = none;
  created_at = 50;
  updated_at = 50;
}
