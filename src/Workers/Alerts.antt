-- ===== src/Workers/Alerts.antt =====
-- `_process_poolbrain_event` of app/workers.py. What the PoolBrain service answers, and whether the
-- forwarding of a new customer raises, are arguments.
use poolbrian_sms_automation.Prelude.{
  ℕ, ◌+◌, String, Option, none, some, Bool, false, List, [], ◌∷◌, ◌++◌, if◌then◌else◌, str_eq,
}
use poolbrian_sms_automation.Store.{Db, InboundEvent, sms}
use poolbrian_sms_automation.Store.Json.{Json, text, array, object, Items, nil, cons, Fields, get}
use poolbrian_sms_automation.Retention.{has_key}
use poolbrian_sms_automation.Preferences.{is_suppressed}
use poolbrian_sms_automation.Campaigns.Alerts.{WaterAlert, create_water_alert_job}
use poolbrian_sms_automation.Outcomes.{set_processed_alert_outcome}
use poolbrian_sms_automation.Workers.{positive_int}
use poolbrian_sms_automation.Workers.Contacts.{Contacts, customer_contacts, is_falsy}
use poolbrian_sms_automation.Workers.Polling.{Config, Turn, Lookup, raised, absent, customer}

-- An alert of a report, with the ids of its job.
pub record Report : Type 0 where
  pub alert : Fields
  pub customer_id : Option ℕ
  pub source_job_id : Option ℕ

-- `value.get(key, [])`, where a missing key gives the empty list and null is null.
abbrev pub get_list : String → Fields → Json
get_list key fs = if has_key key fs then get key fs else array nil

unfoldable pub reports_in : Option ℕ → Option ℕ → Items → List Report
reports_in customer_id job_id nil = []
reports_in customer_id job_id (cons (object alert) rest) =
    (record { alert = alert; customer_id = customer_id; source_job_id = job_id })
    ∷ reports_in customer_id job_id rest
reports_in customer_id job_id (cons _ rest) = reports_in customer_id job_id rest

abbrev pub reports_of : Option ℕ → Option ℕ → Json → List Report
reports_of customer_id job_id (array items) = reports_in customer_id job_id items
reports_of customer_id job_id _ = []

unfoldable pub categories_in : Option ℕ → Option ℕ → Items → List Report
categories_in customer_id job_id nil = []
categories_in customer_id job_id (cons (object category) rest) =
    reports_of customer_id job_id (get_list "IssueReport" category)
    ++ categories_in customer_id job_id rest
categories_in customer_id job_id (cons _ rest) = categories_in customer_id job_id rest

abbrev pub categories_of : Option ℕ → Option ℕ → Json → List Report
categories_of customer_id job_id (array items) = categories_in customer_id job_id items
categories_of customer_id job_id _ = []

unfoldable pub jobs_in : (String → Option ℕ) → Items → List Report
jobs_in int_of nil = []
jobs_in int_of (cons (object job) rest) =
    categories_of (positive_int int_of (get "CustomerID" job))
      (positive_int int_of (get "JobID" job)) (get_list "AlertCategories" job)
    ++ jobs_in int_of rest
jobs_in int_of (cons _ rest) = jobs_in int_of rest

-- `none` is the ValueError.
abbrev pub jobs_of : (String → Option ℕ) → Json → Option (List Report)
jobs_of int_of (array items) = some (jobs_in int_of items)
jobs_of int_of _ = none

-- `outer = payload.get("data") or {}`.
abbrev pub outer_of : (String → Option ℕ) → Json → Option (List Report)
outer_of int_of (object outer) = jobs_of int_of (get_list "data" outer)
outer_of int_of _ = some []

-- `alert.get("AlertName") or alert.get("type")`.
abbrev pub alert_name : Fields → Json
alert_name alert =
    if is_falsy (get "AlertName" alert) then get "type" alert else get "AlertName" alert

abbrev pub is_text : Json → String → Bool
is_text (text s) t = str_eq s t
is_text _ t = false

-- What one alert raises, and the tables after it.
abbrev pub alert_for : Config → Turn → ℕ → Option ℕ → ℕ → ℕ → Contacts → String → WaterAlert
alert_for config turn event_id source_job_id alert_id customer_id c phone = record {
  alert_id = alert_id;
  customer_id = customer_id;
  source_job_id = source_job_id;
  customer_name = c.name;
  phone_e164 = phone;
  inbound_event_id = event_id;
  scheduled_at = turn.now;
  max_attempts = config.message_max_attempts;
  alert_text = config.str_of alert_id;
}

abbrev pub outcome_only : Turn → ℕ → ℕ → Option ℕ → String → Db → Option String × Db
outcome_only turn alert_id customer_id source_job_id status db = (
  none,
  set_processed_alert_outcome turn.now alert_id (some customer_id) source_job_id status none none
      db,
)

abbrev pub alert_phone :
    Config → Turn → ℕ → Option ℕ → ℕ → ℕ → Contacts → Option String → Db → Option String × Db
alert_phone config turn event_id source alert_id customer_id c none db =
    outcome_only turn alert_id customer_id source "no_phone" db
alert_phone config turn event_id source alert_id customer_id c (some phone) db =
    if is_suppressed sms phone db
    then outcome_only turn alert_id customer_id source "sms_suppressed" db
    else (
      none,
      (create_water_alert_job turn.now
          (alert_for config turn event_id source alert_id customer_id c phone) db).1,
    )

abbrev pub alert_contacts :
    Config → Turn → ℕ → Option ℕ → ℕ → ℕ → Option Contacts → Db → Option String × Db
alert_contacts config turn event_id source alert_id customer_id none db =
    (some "contact is not a text", db)
alert_contacts config turn event_id source alert_id customer_id (some c) db =
    alert_phone config turn event_id source alert_id customer_id c c.phone db

abbrev pub alert_lookup : Config → Turn → ℕ → Option ℕ → ℕ → ℕ → Lookup → Db → Option String × Db
alert_lookup config turn event_id source alert_id customer_id (raised error) db = (some error, db)
alert_lookup config turn event_id source alert_id customer_id absent db =
    outcome_only turn alert_id customer_id source "customer_not_found" db
alert_lookup config turn event_id source alert_id customer_id (customer fields) db =
    alert_contacts config turn event_id source alert_id customer_id
      (customer_contacts config.host fields) db

-- An alert with invalid identifiers is skipped.
abbrev pub alert_ids : Config → Turn → ℕ → Option ℕ → Option ℕ → Option ℕ → Db → Option String × Db
alert_ids config turn event_id source (some alert_id) (some customer_id) db =
    alert_lookup config turn event_id source alert_id customer_id turn.lookup db
alert_ids config turn event_id source (some alert_id) none db = (none, db)
alert_ids config turn event_id source none customer_id db = (none, db)

unfoldable pub process_report : Config → Turn → ℕ → Report → Db → Option String × Db
process_report config turn event_id r db =
    if is_text (alert_name r.alert) "WaterLevelLow"
    then alert_ids config turn event_id r.source_job_id
        (positive_int config.host.int_of_text (get "alertId" r.alert)) r.customer_id db
    else (none, db)

abbrev pub unless_raised : Option String → Option String × Db → Db → Option String × Db
unless_raised none rest db = rest
unless_raised (some error) rest db = (some error, db)

-- The loops over the alerts; `turns` are the rounds by their position.
unfoldable pub process_reports : Config → (ℕ → Turn) → ℕ → ℕ → List Report → Db → Option String × Db
process_reports config turns n event_id [] db = (none, db)
process_reports config turns n event_id (r ∷ rest) db =
    let done = process_report config (turns n) event_id r db in
    unless_raised done.0 (process_reports config turns (n + 1) event_id rest done.1) done.1

abbrev pub reports_or_error :
    Config → (ℕ → Turn) → ℕ → Option (List Report) → Db → Option String × Db
reports_or_error config turns event_id none db = (some "PoolBrain alert data is not a list", db)
reports_or_error config turns event_id (some reports) db =
    process_reports config turns 0 event_id reports db

-- `forward` is `forward_customer_created`: what it raises.
unfoldable pub process_poolbrain_event :
    Config → (Fields → Option String) → (ℕ → Turn) → InboundEvent → Db → Option String × Db
process_poolbrain_event config forward turns event db =
    if is_text (get "event" event.payload) "customer.created"
    then (forward event.payload, db)
    else (if is_text (get "event" event.payload) "alert.triggered"
        then reports_or_error config turns event.id
            (outer_of config.host.int_of_text (get "data" event.payload)) db
        else (none, db))
