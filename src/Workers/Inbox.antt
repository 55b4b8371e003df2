-- ===== src/Workers/Inbox.antt =====
-- `process_inbound_events`, `recover_stale_work` and the lists of message kinds of app/workers.py.
pub mod Sound
use poolbrian_sms_automation.Prelude.{
  ℕ, ◌+◌, ◌*◌, String, Option, none, some, Bool, true, false, List, [], ◌∷◌, ◌++◌, if◌then◌else◌,
  str_eq, length,
}
use poolbrian_sms_automation.Store.{Db, InboundEvent}
use poolbrian_sms_automation.Store.Json.{Fields, field, end, number}
use poolbrian_sms_automation.Domain.Backoff.{retry_delay}
use poolbrian_sms_automation.Domain.Schedule.{Zone, within_local_hours}
use poolbrian_sms_automation.Events.{
  EventClaim, claim_inbound_events, complete_inbound_event, fail_inbound_event,
  recover_stale_events,
}
use poolbrian_sms_automation.Jobs.Recovery.{
  recover_stale_message_jobs, cancel_suppressed_queued_jobs,
}
use poolbrian_sms_automation.State.{heartbeat_started, heartbeat_succeeded}
use poolbrian_sms_automation.Workers.Polling.{Config, Turn}
use poolbrian_sms_automation.Workers.Alerts.{process_poolbrain_event}

-- What belongs to one event: the time, what the forwarding of a new customer raises, and the rounds
-- of its alerts.
pub record EventTurn : Type 0 where
  pub now : ℕ
  pub forward : Fields → Option String
  pub turns : ℕ → Turn

-- `timedelta(seconds=n)`, in microseconds.
abbrev pub seconds : ℕ → ℕ
seconds n = n * 1000000

pub record EventCounts : Type 0 where
  pub completed : ℕ
  pub failed : ℕ

-- Where nothing was raised the event is complete, elsewhere it failed.
abbrev pub close_event : EventTurn → String → InboundEvent → Option String × Db → EventCounts × Db
close_event turn worker_id event (none, db) = (
  record { completed = 1; failed = 0 },
  complete_inbound_event turn.now event.id worker_id none none db,
)
close_event turn worker_id event (some error, db) = (
  record { completed = 0; failed = 1 },
  fail_inbound_event turn.now event.id worker_id error
      (turn.now + seconds (retry_delay event.attempt_count)) none db,
)

unfoldable pub process_event : Config → EventTurn → String → InboundEvent → Db → EventCounts × Db
process_event config turn worker_id event db = close_event turn worker_id event (
    if str_eq event.provider "poolbrain"
    then process_poolbrain_event config turn.forward turn.turns event db
    else (none, db))

abbrev pub add_counts : EventCounts → EventCounts → EventCounts
add_counts a b = record { completed = a.completed + b.completed; failed = a.failed + b.failed }

abbrev pub no_counts : EventCounts
no_counts = record { completed = 0; failed = 0 }

-- The loop; `turns` are the rounds by the event's id.
unfoldable pub process_events :
    Config → (ℕ → EventTurn) → String → List InboundEvent → Db → EventCounts × Db
process_events config turns worker_id [] db = (no_counts, db)
process_events config turns worker_id (event ∷ rest) db =
    let first = process_event config (turns event.id) worker_id event db in
    let others = process_events config turns worker_id rest first.1 in
    (add_counts first.0 others.0, others.1)

abbrev pub inbox_name : String
inbox_name = "process_inbound_events"

abbrev pub inbox_claim : String → ℕ → ℕ → EventClaim
inbox_claim worker_id limit lease_minutes = record {
  worker_id = worker_id;
  limit = limit;
  lease_minutes = lease_minutes;
  provider = none;
  excluded_provider = some "website";
  event_type = none;
  external_id = none;
}

pub record EventResult : Type 0 where
  pub claimed : ℕ
  pub counts : EventCounts

abbrev pub event_fields : EventResult → Fields
event_fields r =
    field "claimed" (number r.claimed)
      (field "completed" (number r.counts.completed) (field "failed" (number r.counts.failed) end))

-- What comes behind the claim: `PoolBrainClient()` is set up, and where it raises the function
-- ends with the claimed events still leased.
abbrev pub serve_events :
    Config
    → (ℕ → EventTurn)
    → String
    → ℕ
    → Option String
    → List InboundEvent
    → Db
    → Option EventResult × Db
serve_events config turns worker_id at (some error) claimed db = (none, db)
serve_events config turns worker_id at none claimed db =
    let done = process_events config turns worker_id claimed db in
    let result : EventResult = record { claimed = length claimed; counts = done.0 } in
    (some result, heartbeat_succeeded at inbox_name (event_fields result) done.1)

-- `worker_id` is the fresh id of the worker, `setup` what the set-up of the client raises; `none` is
-- that exception.
unfoldable pub process_inbound_events :
    Config
    → (ℕ → EventTurn)
    → String
    → ℕ
    → ℕ
    → ℕ
    → (ℕ → Bool)
    → Option String
    → Db
    → Option EventResult × Db
process_inbound_events config turns worker_id limit lease_minutes at held setup db =
    let (claimed, after) =
      claim_inbound_events (inbox_claim worker_id limit lease_minutes) at held
        (heartbeat_started at inbox_name end db) in
    serve_events config turns worker_id at setup claimed after

-- Where the database fails: at none of the three transactions, or at one of them, whose changes are
-- then rolled back.
pub data FailedAt : Type 0 where
  at_none at_events at_messages at_sweep : FailedAt

-- The events and the jobs that were recovered, and the suppressed jobs that were cancelled; `none`
-- is an exception of the database.
unfoldable pub recover_stale_work : ℕ → FailedAt → Db → Option (ℕ × ℕ × ℕ) × Db
recover_stale_work now at_events db = (none, db)
recover_stale_work now at_messages db = (none, (recover_stale_events now db).1)
recover_stale_work now at_sweep db =
    (none, (recover_stale_message_jobs now (recover_stale_events now db).1).1)
recover_stale_work now at_none db =
    let events = recover_stale_events now db in
    let messages = recover_stale_message_jobs now events.1 in
    let swept = cancel_suppressed_queued_jobs now messages.1 in
    (some (events.0, messages.0, swept.0), swept.1)

abbrev pub if_kinds : Bool → List String → List String
if_kinds b kinds = if b then kinds else []

unfoldable pub allowed_message_kinds : Zone → Bool → ℕ → List String
allowed_message_kinds zone outlook_send_enabled now =
    if_kinds (within_local_hours zone now 6 19) (
      "completed_service_sms" ∷ "water_level_low_sms" ∷ "admin_customer_reply_sms"
      ∷ "admin_delivery_failure_sms" ∷ [])
    ++ if_kinds (within_local_hours zone now 9 19) (
        "initial_review_sms"
        ∷ "service_notice_sms"
        ∷ if_kinds outlook_send_enabled ("next_day_review_email" ∷ "saturday_review_email" ∷ []))

unfoldable pub website_lead_message_kinds : Zone → Bool → ℕ → List String
website_lead_message_kinds zone outlook_send_enabled now =
    if_kinds (within_local_hours zone now 6 19) ("admin_website_lead_sms" ∷ [])
    ++ if_kinds outlook_send_enabled ("admin_website_lead_email" ∷ [])
