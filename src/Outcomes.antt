-- ===== src/Outcomes.antt =====
-- app/repositories/outcomes.py: the outcome of a message, kept by the job or alert it is about.
use poolbrian_sms_automation.Prelude.{
  ℕ, String, Option, none, some, List, [], ◌∷◌, ◌==◌, if◌then◌else◌, coalesce, take_text,
}
use poolbrian_sms_automation.Store.{Db, ProcessedJob, ProcessedAlert}

-- `error[:1000] if error else None`.
unfoldable pub cut_error : Option String → Option String
cut_error none = none
cut_error (some String.[]) = none
cut_error (some (String.◌∷◌ c s)) = some (take_text 1000 (String.◌∷◌ c s))

-- ON CONFLICT (record_id): a NULL message id keeps the one that is there.
abbrev pub merge_job : ProcessedJob → ProcessedJob → ProcessedJob
merge_job new old = record old {
  status = new.status;
  twilio_message_sid = coalesce new.twilio_message_sid old.twilio_message_sid;
  last_error = new.last_error;
  processed_at = new.processed_at;
}

unfoldable pub upsert_job : ProcessedJob → List ProcessedJob → List ProcessedJob
upsert_job new [] = new ∷ []
upsert_job new (p ∷ rest) =
    if p.record_id == new.record_id then merge_job new p ∷ rest else p ∷ upsert_job new rest

unfoldable pub set_processed_job_outcome :
    ℕ → ℕ → Option ℕ → String → Option String → Option String → Db → Db
unfolding cut_error upsert_job
set_processed_job_outcome now record_id customer_id status message_id error db = record db {
  processed_jobs =
      upsert_job
        (record {
          record_id = record_id;
          customer_id = customer_id;
          status = status;
          twilio_message_sid = message_id;
          last_error = cut_error error;
          processed_at = now;
        })
        db.processed_jobs;
}

abbrev pub merge_alert : ProcessedAlert → ProcessedAlert → ProcessedAlert
merge_alert new old = record old {
  status = new.status;
  twilio_message_sid = coalesce new.twilio_message_sid old.twilio_message_sid;
  last_error = new.last_error;
  processed_at = new.processed_at;
}

unfoldable pub upsert_alert : ProcessedAlert → List ProcessedAlert → List ProcessedAlert
upsert_alert new [] = new ∷ []
upsert_alert new (p ∷ rest) =
    if p.alert_id == new.alert_id then merge_alert new p ∷ rest else p ∷ upsert_alert new rest

unfoldable pub set_processed_alert_outcome :
    ℕ → ℕ → Option ℕ → Option ℕ → String → Option String → Option String → Db → Db
unfolding cut_error upsert_alert
set_processed_alert_outcome now alert_id customer_id source_job_id status message_id error db =
    record db {
      processed_alerts =
          upsert_alert
            (record {
              alert_id = alert_id;
              customer_id = customer_id;
              job_id = source_job_id;
              alert_type = "WaterLevelLow";
              status = status;
              twilio_message_sid = message_id;
              last_error = cut_error error;
              processed_at = now;
            })
            db.processed_alerts;
    }
