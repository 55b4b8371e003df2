-- ===== src/Preferences.antt =====
-- app/repositories/preferences.py, unsubscribe.py and bounces.py: opting out and in, the links that
-- opt out, and the permanent bounces that do.
pub mod OptOut
pub mod Links
use poolbrian_sms_automation.Prelude.{
  ℕ, String, Option, none, some, Bool, true, false, ◌&&◌, ◌||◌, List, [], ◌∷◌, ◌++◌, ltb, leb, ◌==◌,
  if◌then◌else◌, str_eq, holds_text, coalesce, update_where, select_where, find_where,
}
use poolbrian_sms_automation.Store.{
  Db, MessageJob, Channel, sms, email, channel_eq, Preference, PreferenceEvent, UnsubscribeToken,
  JobStatus,
}
use poolbrian_sms_automation.Store.Json.{Fields, field, end, text, flag}
use poolbrian_sms_automation.Jobs.Claim.{prefers}
use poolbrian_sms_automation.Jobs.Lease.{update_jobs}
use poolbrian_sms_automation.Jobs.Recovery.{is_pending, withdraw_job}

abbrev suppressed_value : Option Preference → Bool
suppressed_value none = false
suppressed_value (some p) = p.suppressed

unfoldable pub is_suppressed : Channel → String → Db → Bool
is_suppressed channel destination db =
    suppressed_value (find_where (prefers channel destination) db.communication_preferences)

-- `INSERT … ON CONFLICT (channel, destination_normalized) DO UPDATE`.
unfoldable pub upsert_preference : Preference → List Preference → List Preference
upsert_preference p [] = p ∷ []
upsert_preference p (q ∷ rest) =
    if prefers p.channel p.destination_normalized q then p ∷ rest else q ∷ upsert_preference p rest

-- `channel = :channel AND destination_normalized = :destination`.
abbrev pub sent_to : Channel → String → MessageJob → Bool
sent_to channel destination job =
    channel_eq job.channel channel && holds_text job.destination_normalized destination

abbrev pub withdraw_test : Channel → String → MessageJob → Bool
withdraw_test channel destination job = sent_to channel destination job && is_pending job.status

pub record PreferenceChange : Type 0 where
  pub channel : Channel
  pub destination : String
  pub suppressed : Bool
  pub reason : String
  pub source : String
  pub evidence : Fields

abbrev pub preference_of : ℕ → PreferenceChange → Preference
preference_of now c = record {
  channel = c.channel;
  destination_normalized = c.destination;
  suppressed = c.suppressed;
  reason = c.reason;
  source = c.source;
  changed_at = now;
}

abbrev event_of : ℕ → PreferenceChange → PreferenceEvent
event_of now c = record {
  channel = c.channel;
  destination_normalized = c.destination;
  suppressed = c.suppressed;
  reason = c.reason;
  source = c.source;
  evidence = c.evidence;
  occurred_at = now;
}

-- The two INSERTs.
unfoldable pub store_preference : ℕ → PreferenceChange → Db → Db
store_preference now c db = record db {
  communication_preferences = upsert_preference (preference_of now c) db.communication_preferences;
  communication_preference_events = db.communication_preference_events ++ event_of now c ∷ [];
}

unfoldable pub save_preference : ℕ → PreferenceChange → Db → Db
save_preference now c db =
    let stored = store_preference now c db in
    if c.suppressed
    then update_jobs (withdraw_test c.channel c.destination) (withdraw_job now c.reason) stored
    else stored

abbrev pub token_for : String → ℕ → Channel → String → Db → Option UnsubscribeToken → String × Db
token_for fresh job_id channel destination db (some t) = (t.token, db)
token_for fresh job_id channel destination db none = (
  fresh,
  record db {
    unsubscribe_tokens =
        db.unsubscribe_tokens
        ++ record {
          token = fresh;
          message_job_id = job_id;
          channel = channel;
          destination_normalized = destination;
          used_at = none;
        }
          ∷ [];
  },
)

-- The token of the job, or the fresh one that `secrets.token_urlsafe` gives.
unfoldable pub get_or_create_unsubscribe_token : String → ℕ → Channel → String → Db → String × Db
get_or_create_unsubscribe_token fresh job_id channel destination db =
    token_for fresh job_id channel destination db
      (find_where (λ t. t.message_job_id == job_id) db.unsubscribe_tokens)

abbrev pub unsubscribe_change : UnsubscribeToken → PreferenceChange
unsubscribe_change t = record {
  channel = t.channel;
  destination = t.destination_normalized;
  suppressed = true;
  reason = "customer_unsubscribe";
  source = "unsubscribe_link";
  evidence = field "token_used" (flag true) end;
}

abbrev pub consume_row : ℕ → Db → Option UnsubscribeToken → Option (Channel × String) × Db
consume_row now db none = (none, db)
consume_row now db (some t) =
    (some (t.channel, t.destination_normalized), save_preference now (unsubscribe_change t) db)

unfoldable pub consume_unsubscribe_token : ℕ → String → Db → Option (Channel × String) × Db
consume_unsubscribe_token now token db =
    consume_row now
      (record db {
        unsubscribe_tokens =
            update_where (λ t. str_eq t.token token)
              (λ t. record t { used_at = coalesce t.used_at (some now) }) db.unsubscribe_tokens;
      })
      (find_where (λ t. str_eq t.token token) db.unsubscribe_tokens)

-- `status IN ('accepted', 'sent', 'delivered')`.
abbrev was_sent : JobStatus → Bool
was_sent JobStatus.accepted = true
was_sent JobStatus.sent = true
was_sent JobStatus.delivered = true
was_sent _ = false

abbrev newer : MessageJob → Option MessageJob → Option MessageJob
newer job none = some job
newer job (some best) = if ltb job.created_at best.created_at then some best else some job

-- `ORDER BY created_at DESC LIMIT 1`.
unfoldable pub latest_sent : String → List MessageJob → Option MessageJob
latest_sent destination [] = none
latest_sent destination (job ∷ rest) =
    let best = latest_sent destination rest in
    if sent_to email destination job && was_sent job.status then newer job best else best

unfoldable pub bounce_job : ℕ → MessageJob → MessageJob
bounce_job now job = record job {
  status = JobStatus.failed;
  failed_at = coalesce job.failed_at (some now);
  provider_status = some "bounced";
  provider_status_rank = 100;
  last_error_code = some "permanent_bounce";
  last_error = some "Microsoft 365 non-delivery report";
  updated_at = now;
}

abbrev pub bounce_latest : ℕ → Db → Option MessageJob → Db
bounce_latest now db none = db
bounce_latest now db (some latest) = update_jobs (λ job. job.id == latest.id) (bounce_job now) db

abbrev pub bounce_change : String → String → PreferenceChange
bounce_change destination graph_message_id = record {
  channel = email;
  destination = destination;
  suppressed = true;
  reason = "permanent_bounce";
  source = "microsoft_graph_ndr";
  evidence = field "graph_message_id" (text graph_message_id) end;
}

unfoldable pub record_permanent_bounce : ℕ → String → String → Db → Db
record_permanent_bounce now destination graph_message_id db =
    let saved = save_preference now (bounce_change destination graph_message_id) db in
    bounce_latest now saved (latest_sent destination saved.message_jobs)
