-- ===== src/Campaigns/Alerts.antt =====
-- The jobs of water alerts, and clicks on the links of campaigns (app/repositories/campaigns.py).
use poolbrian_sms_automation.Prelude.{
  ℕ, String, Option, none, some, Bool, true, false, [], ◌∷◌, ◌++◌, ◌==◌, if◌then◌else◌, str_eq,
  is_some, coalesce, concat_texts, update_where, find_where,
}
use poolbrian_sms_automation.Store.{Db, sms, Campaign}
use poolbrian_sms_automation.Store.Json.{Json, null, number, text, field, end}
use poolbrian_sms_automation.Jobs.Enqueue.{NewJob, insert_message_job}

pub record WaterAlert : Type 0 where
  pub alert_id : ℕ
  pub customer_id : ℕ
  pub source_job_id : Option ℕ
  pub customer_name : String
  pub phone_e164 : String
  pub inbound_event_id : ℕ
  pub scheduled_at : ℕ
  pub max_attempts : ℕ
  pub alert_text : String

abbrev json_of : Option ℕ → Json
json_of none = null
json_of (some n) = number n

-- `alert_text` is `str` of the alert's id.
abbrev water_job : WaterAlert → NewJob
water_job a = record {
  idempotency_key = concat_texts ("water-alert:" ∷ a.alert_text ∷ []);
  campaign_id = none;
  inbound_event_id = some a.inbound_event_id;
  customer_id = some a.customer_id;
  channel = sms;
  message_kind = "water_level_low_sms";
  destination = a.phone_e164;
  template_key = "water_level_low_sms";
  template_data =
      field "customer_name" (text a.customer_name) (
        field "alert_id" (number a.alert_id) (field "source_job_id" (json_of a.source_job_id) end));
  scheduled_at = a.scheduled_at;
  max_attempts = a.max_attempts;
}

unfoldable pub create_water_alert_job : ℕ → WaterAlert → Db → Bool × Db
create_water_alert_job now a db =
    if is_some (find_where (λ p. p.alert_id == a.alert_id) db.processed_alerts)
    then (false, db)
    else (
      true,
      (insert_message_job now (water_job a) (record db {
        processed_alerts =
            db.processed_alerts
            ++ record {
              alert_id = a.alert_id;
              customer_id = some a.customer_id;
              job_id = a.source_job_id;
              alert_type = "WaterLevelLow";
              status = "queued";
              twilio_message_sid = none;
              last_error = none;
              processed_at = now;
            }
              ∷ [];
      })).1,
    )

abbrev id_of : Option Campaign → Option ℕ
id_of none = none
id_of (some c) = some c.id

unfoldable pub mark_campaign_clicked : ℕ → String → Db → Option ℕ × Db
mark_campaign_clicked now token db = (
  id_of (find_where (λ c. str_eq c.review_token token) db.review_campaigns),
  record db {
    review_campaigns =
        update_where (λ c. str_eq c.review_token token)
          (λ c. record c { clicked_at = coalesce c.clicked_at (some now); updated_at = now })
          db.review_campaigns;
  },
)
