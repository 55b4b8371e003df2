-- ===== src/Store.antt =====
-- The database of migrations/versions (20260822_0001, 20260903_0002, 20261102_0003): one record
-- for the rows of each table and one for all tables. A nullable column is an `Option`, a column
-- with a CHECK on a list of words is a data type, a timestamp is the number of microseconds since
-- the start of year 1 (UTC), as `datetime` counts them. Tables and columns that no modelled code
-- reads or writes are left out, and so is the payload of a provider event.
pub mod Json
use poolbrian_sms_automation.Prelude.{ℕ, Bool, true, false, String, Option, List}
use Json.{Fields}

-- CHECK (channel IN ('sms', 'email')).
pub data Channel : Type 0 where
  sms email : Channel

abbrev pub channel_eq : Channel → Channel → Bool
channel_eq sms sms = true
channel_eq email email = true
channel_eq _ _ = false

-- The CHECK of message_jobs.status.
pub data JobStatus : Type 0 where
  queued leased retry sending accepted sent delivered failed cancelled dead : JobStatus
  delivery_unknown : JobStatus

pub record MessageJob : Type 0 where
  pub id : ℕ
  pub idempotency_key : String
  pub campaign_id : Option ℕ
  pub inbound_event_id : Option ℕ
  pub customer_id : Option ℕ
  pub channel : Channel
  pub message_kind : String
  pub destination_normalized : Option String
  pub template_key : String
  pub template_data : Fields
  pub status : JobStatus
  pub scheduled_at : ℕ
  pub attempt_count : ℕ
  pub max_attempts : ℕ
  pub locked_at : Option ℕ
  pub locked_by : Option String
  pub lease_expires_at : Option ℕ
  pub provider : Option String
  pub provider_message_id : Option String
  pub provider_status : Option String
  pub provider_status_rank : ℕ
  pub last_error_code : Option String
  pub last_error : Option String
  pub accepted_at : Option ℕ
  pub sent_at : Option ℕ
  pub delivered_at : Option ℕ
  pub failed_at : Option ℕ
  pub cancelled_at : Option ℕ
  pub created_at : ℕ
  pub updated_at : ℕ

pub record MessageAttempt : Type 0 where
  pub message_job_id : ℕ
  pub attempt_number : ℕ
  pub worker_id : String
  pub started_at : ℕ
  pub finished_at : Option ℕ
  pub outcome : Option JobStatus
  pub provider_message_id : Option String
  pub error_code : Option String
  pub error_message : Option String

pub record ProviderMessageEvent : Type 0 where
  pub provider : String
  pub provider_message_id : String
  pub status : String
  pub status_rank : ℕ
  pub error_code : Option String
  pub destination_normalized : Option String
  pub received_at : ℕ

-- The CHECK of inbound_events.status.
pub data EventStatus : Type 0 where
  queued leased retry completed dead : EventStatus

pub record InboundEvent : Type 0 where
  pub id : ℕ
  pub provider : String
  pub event_type : String
  pub external_id : String
  pub payload : Fields
  pub payload_sha256 : String
  pub status : EventStatus
  pub attempt_count : ℕ
  pub max_attempts : ℕ
  pub next_attempt_at : ℕ
  pub locked_at : Option ℕ
  pub locked_by : Option String
  pub lease_expires_at : Option ℕ
  pub last_error : Option String
  pub provider_record_id : Option String
  pub result : Option Fields
  pub received_at : ℕ
  pub completed_at : Option ℕ
  pub updated_at : ℕ

pub record Preference : Type 0 where
  pub channel : Channel
  pub destination_normalized : String
  pub suppressed : Bool
  pub reason : String
  pub source : String
  pub changed_at : ℕ

pub record PreferenceEvent : Type 0 where
  pub channel : Channel
  pub destination_normalized : String
  pub suppressed : Bool
  pub reason : String
  pub source : String
  pub evidence : Fields
  pub occurred_at : ℕ

-- The CHECK of review_campaigns.status.
pub data CampaignStatus : Type 0 where
  active completed confirmed cancelled : CampaignStatus

pub record Campaign : Type 0 where
  pub id : ℕ
  pub source_job_id : ℕ
  pub customer_id : ℕ
  pub customer_name : Option String
  pub phone_e164 : Option String
  pub email_normalized : Option String
  pub review_token : String
  pub status : CampaignStatus
  pub clicked_at : Option ℕ
  pub customer_replied_at : Option ℕ
  pub confirmed_at : Option ℕ
  pub google_review_id : Option String
  pub google_reviewer_name : Option String
  pub cancelled_reason : Option String
  pub created_at : ℕ
  pub updated_at : ℕ

-- processed_jobs, and processed_alerts with its two further columns.
pub record ProcessedJob : Type 0 where
  pub record_id : ℕ
  pub customer_id : Option ℕ
  pub status : String
  pub twilio_message_sid : Option String
  pub last_error : Option String
  pub processed_at : ℕ

pub record ProcessedAlert : Type 0 where
  pub alert_id : ℕ
  pub customer_id : Option ℕ
  pub job_id : Option ℕ
  pub alert_type : String
  pub status : String
  pub twilio_message_sid : Option String
  pub last_error : Option String
  pub processed_at : ℕ

pub record InboundMessage : Type 0 where
  pub id : ℕ
  pub provider : String
  pub provider_message_id : String
  pub from_normalized : String
  pub to_normalized : Option String
  pub body_ciphertext : Option String
  pub body_preview : Option String
  pub customer_id : Option ℕ
  pub campaign_id : Option ℕ
  pub received_at : ℕ

pub record UnsubscribeToken : Type 0 where
  pub token : String
  pub message_job_id : ℕ
  pub channel : Channel
  pub destination_normalized : String
  pub used_at : Option ℕ

-- The CHECK of google_reviews.match_status.
pub data MatchStatus : Type 0 where
  unmatched candidate matched ignored : MatchStatus

-- `match_confidence` is in thousandths.
pub record GoogleReview : Type 0 where
  pub google_review_id : String
  pub reviewer_name : Option String
  pub star_rating : Option ℕ
  pub review_comment : Option String
  pub review_created_at : Option ℕ
  pub review_updated_at : Option ℕ
  pub campaign_id : Option ℕ
  pub match_status : MatchStatus
  pub match_confidence : Option ℕ
  pub updated_at : ℕ

-- The CHECK of service_notice_campaigns.status.
pub data NoticeStatus : Type 0 where
  queued cancelled : NoticeStatus

pub record NoticeCampaign : Type 0 where
  pub id : ℕ
  pub name : String
  pub message_body : String
  pub status : NoticeStatus
  pub consent_basis : String
  pub consent_evidence : String
  pub recipient_count : ℕ
  pub scheduled_at : ℕ
  pub created_by : String
  pub created_at : ℕ
  pub cancelled_at : Option ℕ

pub record NoticeRecipient : Type 0 where
  pub campaign_id : ℕ
  pub customer_id : ℕ
  pub customer_name : String
  pub phone_e164 : String
  pub message_job_id : ℕ

pub record AutomationState : Type 0 where
  pub key : String
  pub value : String

pub record Heartbeat : Type 0 where
  pub worker_name : String
  pub last_started_at : Option ℕ
  pub last_succeeded_at : Option ℕ
  pub last_failed_at : Option ℕ
  pub last_error : Option String
  pub metadata : Fields
  pub updated_at : ℕ

-- All tables, and the sequences behind the BIGSERIAL columns that the code reads.
pub record Db : Type 0 where
  pub message_jobs : List MessageJob
  pub message_attempts : List MessageAttempt
  pub provider_message_events : List ProviderMessageEvent
  pub inbound_events : List InboundEvent
  pub communication_preferences : List Preference
  pub communication_preference_events : List PreferenceEvent
  pub review_campaigns : List Campaign
  pub processed_jobs : List ProcessedJob
  pub processed_alerts : List ProcessedAlert
  pub inbound_messages : List InboundMessage
  pub unsubscribe_tokens : List UnsubscribeToken
  pub google_reviews : List GoogleReview
  pub service_notice_campaigns : List NoticeCampaign
  pub service_notice_recipients : List NoticeRecipient
  pub automation_state : List AutomationState
  pub worker_heartbeats : List Heartbeat
  pub message_job_seq : ℕ
  pub inbound_event_seq : ℕ
  pub campaign_seq : ℕ
  pub inbound_message_seq : ℕ
  pub notice_campaign_seq : ℕ
