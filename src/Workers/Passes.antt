-- ===== src/Workers/Passes.antt =====
-- `process_all` of app/workers.py: one pass over all work. A step that raises is noted, and the
-- steps behind it run all the same.
pub mod Sound
use poolbrian_sms_automation.Prelude.{
  ℕ, String, Option, none, some, Bool, true, false, not, is_some, List, [], ◌∷◌, ◌++◌,
}
use poolbrian_sms_automation.Store.{Db}
use poolbrian_sms_automation.Jobs.Claim.{ClaimRequest}
use poolbrian_sms_automation.Workers.{Worker}
use poolbrian_sms_automation.Workers.Loop.{process_due_messages}
use poolbrian_sms_automation.Workers.Loop
use poolbrian_sms_automation.Workers.Polling.{
  Config, Source, Polled, poll_error, poll_completed_services,
}
use poolbrian_sms_automation.Workers.Polling
use poolbrian_sms_automation.Workers.Inbox.{
  EventTurn, FailedAt, recover_stale_work, process_inbound_events,
}

-- All that a pass meets outside the tables: the times of its steps, the transaction of the recovery
-- at which the database fails, what the set-up of the inbox's client raises, whether the drafts of agreements
-- raise, the answers of the services, the rows that other transactions hold, and its workers.
pub record Pass : Type 0 where
  pub config : Config
  pub recovered_at : ℕ
  pub recovery_failure : FailedAt
  pub drafts_raise : Bool
  pub polled_at : ℕ
  pub source : Source
  pub poll_turns : ℕ → Polling.Turn
  pub inbox_worker : String
  pub lease_minutes : ℕ
  pub inbox_at : ℕ
  pub inbox_setup : Option String
  pub events_held : ℕ → Bool
  pub event_turns : ℕ → EventTurn
  pub worker : Worker
  pub claimed_at : ℕ
  pub request : ClaimRequest
  pub jobs_held : ℕ → Bool
  pub job_turns : ℕ → Loop.Turn

-- The name of a step that raised.
abbrev pub if_raised : Bool → String → List String
if_raised b name = if_then b
  where
    if_then : Bool → List String
    if_then true = name ∷ []
    if_then false = []

abbrev pub poll_raised : Polled → Bool
poll_raised (poll_error error) = true
poll_raised _ = false

abbrev pub after_messages {ℓ} : {A : Type ℓ} → Db → Option (A × Db) → List String × Db
after_messages db none = ("messages" ∷ [], db)
after_messages db (some (counts, after)) = ([], after)

-- The names of the steps that raised, and the tables.
unfoldable pub process_all : Pass → Db → List String × Db
process_all p db =
    let recovered = recover_stale_work p.recovered_at p.recovery_failure db in
    let polls = poll_completed_services p.config p.poll_turns p.polled_at p.source recovered.1 in
    let inbox =
      process_inbound_events p.config p.event_turns p.inbox_worker 50 p.lease_minutes p.inbox_at
        p.events_held p.inbox_setup polls.1 in
    let messages =
      after_messages inbox.1
        (process_due_messages p.worker p.job_turns p.claimed_at p.request p.jobs_held inbox.1) in
    (
      if_raised (not (is_some recovered.0)) "recovery"
          ++ if_raised p.drafts_raise "agreement_drafts"
          ++ if_raised (poll_raised polls.0) "completed_services"
          ++ if_raised (not (is_some inbox.0)) "inbound_events"
          ++ messages.0,
      messages.1,
    )
