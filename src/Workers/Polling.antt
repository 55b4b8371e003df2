-- ===== src/Workers/Polling.antt =====
-- `poll_completed_services` of app/workers.py. The answers of the PoolBrain service, an exception of
-- its set-up and the times of the calls are arguments.
pub mod Counted
pub mod Sound
use poolbrian_sms_automation.Prelude.{
  ℕ, ◌+◌, String, Option, none, some, Bool, true, false, not, ◌&&◌, ◌||◌, List, [], ◌∷◌, ◌==◌,
  if◌then◌else◌, is_some, holds_text,
}
use poolbrian_sms_automation.Store.{Db}
use poolbrian_sms_automation.Store.Json.{Fields, field, end, text, number, get}
use poolbrian_sms_automation.Domain.Schedule.{Zone, within_local_hours, review_message_schedule}
use poolbrian_sms_automation.Campaigns.Workflow.{
  Service, WorkflowResult, already_processed, recent_or_confirmed_campaign, campaign_created,
  create_completed_service_workflow,
}
use poolbrian_sms_automation.Outcomes.{set_processed_job_outcome}
use poolbrian_sms_automation.State.{
  get_state, baseline_key, heartbeat_started, heartbeat_succeeded, heartbeat_failed,
}
use poolbrian_sms_automation.Workers.{positive_int}
use poolbrian_sms_automation.Workers.Contacts.{Host, Contacts, customer_contacts}

-- The settings that the function reads.
pub record Config : Type 0 where
  pub host : Host
  pub zone : Zone
  pub review_sms_delay_hours : ℕ
  pub review_email_hour : ℕ
  pub review_suppression_days : ℕ
  pub message_max_attempts : ℕ
  pub str_of : ℕ → String

-- `client.customer`: an exception, a falsy answer, or the customer.
pub data Lookup : Type 0 where
  raised : String → Lookup
  absent : Lookup
  customer : Fields → Lookup

-- What belongs to one round of the loop: the time, the answer, and the fresh token of a campaign.
pub record Turn : Type 0 where
  pub now : ℕ
  pub lookup : Lookup
  pub fresh_token : String

-- What a round adds to: the counters, or an exception that ends the loop.
pub data Fate : Type 0 where
  counted_created counted_skipped counted_failed : Fate
  ended : String → Fate

abbrev pub service_of : Config → Turn → ℕ → ℕ → Contacts → Service
service_of config turn record_id customer_id c = record {
  source_job_id = record_id;
  customer_id = customer_id;
  customer_name = c.name;
  phone_e164 = c.phone;
  email_normalized = c.email;
  schedule =
      review_message_schedule config.zone turn.now config.review_sms_delay_hours
        config.review_email_hour;
  suppression_days = config.review_suppression_days;
  max_attempts = config.message_max_attempts;
  review_token = turn.fresh_token;
  str_of = config.str_of;
}

-- `outcome.get("created")`: it is True as well where a recent or confirmed campaign stands in the
-- way of a new one.
abbrev pub is_created : WorkflowResult → Bool
is_created (campaign_created id) = true
is_created recent_or_confirmed_campaign = true
is_created already_processed = false

unfoldable pub serve : Config → Turn → ℕ → ℕ → Contacts → Db → Fate × Db
serve config turn record_id customer_id c db =
    let (outcome, after) =
      create_completed_service_workflow turn.now (service_of config turn record_id customer_id c)
        db in
    (if is_created outcome then counted_created else counted_skipped, after)

unfoldable pub with_contacts : Config → Turn → ℕ → ℕ → Option Contacts → Db → Fate × Db
with_contacts config turn record_id customer_id none db = (ended "contact is not a text", db)
with_contacts config turn record_id customer_id (some c) db =
    if is_some c.phone || is_some c.email then serve config turn record_id customer_id c db else (
      counted_skipped,
      set_processed_job_outcome turn.now record_id (some customer_id) "no_contact" none none db,
    )

abbrev pub look_up : Config → Turn → ℕ → ℕ → Lookup → Db → Fate × Db
look_up config turn record_id customer_id (raised error) db = (counted_failed, db)
look_up config turn record_id customer_id absent db = (
  counted_skipped,
  set_processed_job_outcome turn.now record_id (some customer_id) "customer_not_found" none none db,
)
look_up config turn record_id customer_id (customer fields) db =
    with_contacts config turn record_id customer_id (customer_contacts config.host fields) db

abbrev pub poll_job : Config → Turn → Option ℕ → Option ℕ → Db → Fate × Db
poll_job config turn (some record_id) (some customer_id) db =
    look_up config turn record_id customer_id turn.lookup db
poll_job config turn (some record_id) none db = (counted_skipped, db)
poll_job config turn none customer_id db = (counted_skipped, db)

pub record Counters : Type 0 where
  pub created : ℕ
  pub skipped : ℕ
  pub failed : ℕ

abbrev pub add_fate : Fate → Counters → Counters
add_fate counted_created c = record c { created = c.created + 1 }
add_fate counted_skipped c = record c { skipped = c.skipped + 1 }
add_fate counted_failed c = record c { failed = c.failed + 1 }
add_fate (ended error) c = c

pub data Ending : Type 0 where
  complete : Counters → Ending
  broken_off : String → Ending

abbrev pub go_on : Fate → Ending × Db → Db → Ending × Db
go_on counted_created rest db = rest
go_on counted_skipped rest db = rest
go_on counted_failed rest db = rest
go_on (ended error) rest db = (broken_off error, db)

-- The loop over the jobs; `turns` are the rounds by their position.
unfoldable pub poll_jobs : Config → (ℕ → Turn) → ℕ → List Fields → Counters → Db → Ending × Db
poll_jobs config turns n [] counters db = (complete counters, db)
poll_jobs config turns n (job ∷ rest) counters db =
    let int_of = config.host.int_of_text in
    let done =
      poll_job config (turns n) (positive_int int_of (get "RecordID" job))
        (positive_int int_of (get "CustomerId" job)) db in
    go_on done.0 (poll_jobs config turns (n + 1) rest (add_fate done.0 counters) done.1) done.1

-- What comes before the loop: the set-up of the client, which may raise outside the `try`, and the
-- list of jobs, which may raise inside it.
pub data Source : Type 0 where
  no_setup : String → Source
  no_jobs : String → Source
  jobs : List Fields → Source

-- What the function returns or raises.
pub data Polled : Type 0 where
  outside_hours baseline_required : Polled
  polled : Counters → Polled
  poll_error : String → Polled

abbrev pub poll_name : String
poll_name = "poll_completed_services"

abbrev pub result_of : String → Counters → Fields
result_of status c =
    field "status" (text status)
      (field "created" (number c.created) (field "skipped" (number c.skipped) end))

abbrev pub no_counters : Counters
no_counters = record { created = 0; skipped = 0; failed = 0 }

abbrev pub finish_poll : ℕ → Ending × Db → Polled × Db
finish_poll at (complete c, db) = (
  polled c,
  heartbeat_succeeded at poll_name
      (field "status" (text "complete") (
        field "created" (number c.created)
          (field "skipped" (number c.skipped) (field "failed" (number c.failed) end))))
      db,
)
finish_poll at (broken_off error, db) = (poll_error error, heartbeat_failed at poll_name error db)

abbrev pub poll_source : Config → (ℕ → Turn) → ℕ → Source → Db → Polled × Db
poll_source config turns at (no_setup error) db = (poll_error error, db)
poll_source config turns at (no_jobs error) db =
    (poll_error error, heartbeat_failed at poll_name error db)
poll_source config turns at (jobs list) db =
    finish_poll at (poll_jobs config turns 0 list no_counters db)

unfoldable pub poll_completed_services : Config → (ℕ → Turn) → ℕ → Source → Db → Polled × Db
poll_completed_services config turns at source db =
    let started = heartbeat_started at poll_name end db in
    if not (within_local_hours config.zone at 6 19)
    then (
      outside_hours,
      heartbeat_succeeded at poll_name (result_of "outside_hours" no_counters) started,
    )
    else (if holds_text (get_state baseline_key started) "complete"
        then poll_source config turns at source started
        else (
          baseline_required,
          heartbeat_succeeded at poll_name (result_of "baseline_required" no_counters) started,
        ))
