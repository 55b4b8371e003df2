-- ===== src/Webhooks/Status.antt =====
-- `twilio_status` of app/routes/webhooks.py.
use poolbrian_sms_automation.Prelude.{
  ℕ, String, Option, none, some, Bool, false, not, ◌&&◌, ◌||◌, leb, if◌then◌else◌, str_eq,
  contains_text,
}
use poolbrian_sms_automation.Store.{Db, MessageJob}
use poolbrian_sms_automation.Domain.Contact.{masked_destination}
use poolbrian_sms_automation.Domain.Backoff.{provider_status_rank}
use poolbrian_sms_automation.Jobs.Provider.{Callback, record_provider_event}
use poolbrian_sms_automation.Jobs.Enqueue.{enqueue_delivery_failure_alert}
use poolbrian_sms_automation.Webhooks.{
  App, Response, aborted, no_content, given, points, text_of, phone_of, is_sid, twilio_statuses,
}

-- The fields of the form, and the argument `job_id`.
pub record StatusForm : Type 0 where
  pub message_sid : Option String
  pub message_status : Option String
  pub error_code : Option String
  pub to_number : Option String
  pub job_id : Option String

-- `_positive_int`.
abbrev pub positive : Option ℕ → Option ℕ
positive none = none
positive (some n) = if leb 1 n then some n else none

abbrev pub positive_int : App → Option String → Option ℕ
positive_int app none = none
positive_int app (some s) = positive (app.int_of s)

-- `… or None`.
abbrev pub or_none : String → Option String
or_none String.[] = none
or_none (String.◌∷◌ c s) = some (String.◌∷◌ c s)

abbrev pub status_of : App → StatusForm → String
status_of app f = app.lower (app.strip (given f.message_status))

abbrev pub callback_of : App → StatusForm → Callback
callback_of app f = record {
  provider = "twilio";
  provider_message_id = app.strip (given f.message_sid);
  status = status_of app f;
  status_rank = provider_status_rank app.lower (some (status_of app f));
  error_code = or_none (app.strip (given f.error_code));
  destination = phone_of app f.to_number;
  message_job_id = positive_int app f.job_id;
}

-- A message that failed and is no such alert itself.
abbrev pub alerts : String → Option MessageJob → Bool
alerts status none = false
alerts status (some job) =
    (str_eq status "failed" || str_eq status "undelivered")
    && not (str_eq job.message_kind "admin_delivery_failure_sms")

abbrev pub masked : App → Option String → String
masked app destination = text_of app.chr (masked_destination app.py (points destination))

unfoldable pub alert_about : ℕ → App → Callback → Option String → Db → Db
alert_about now app e none db = db
alert_about now app e (some phone) db =
    (enqueue_delivery_failure_alert now e.provider_message_id phone (masked app e.destination)
      e.status e.error_code app.message_max_attempts db).1

abbrev pub alert_phone : App → Option String
alert_phone app = phone_of app app.alert_phone_number

abbrev pub after_event : ℕ → App → Callback → Option MessageJob → Db → Db
after_event now app e row db =
    if alerts e.status row then alert_about now app e (alert_phone app) db else db

abbrev pub valid_status : App → StatusForm → Bool
valid_status app f =
    is_sid (app.strip (given f.message_sid)) && contains_text twilio_statuses (status_of app f)

unfoldable pub twilio_status : ℕ → App → Bool → StatusForm → Db → Response × Db
twilio_status now app signed f db =
    let event = callback_of app f in
    let recorded = record_provider_event now event db in
    if not signed
    then (aborted 403, db)
    else (if valid_status app f
        then (no_content, after_event now app event recorded.0 recorded.1)
        else (aborted 400, db))
