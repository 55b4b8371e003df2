-- ===== src/Workers/Inbox/Sound.antt =====
-- The processing of inbound events keeps the queue sound.
use poolbrian_sms_automation.Prelude.{
  ℕ, ◌+◌, refl, String, Option, none, some, Bool, List, [], ◌∷◌, inl, inr, Bool-cases, str_eq,
  is_some, find_where, ◌==◌,
}
use poolbrian_sms_automation.Store.{Db, InboundEvent, sms}
use poolbrian_sms_automation.Store.Json.{Fields, get}
use poolbrian_sms_automation.Preferences.{is_suppressed}
use poolbrian_sms_automation.Outcomes.{set_processed_alert_outcome}
use poolbrian_sms_automation.Campaigns.Alerts.{WaterAlert, create_water_alert_job}
use poolbrian_sms_automation.Events.{
  claim_inbound_events, complete_inbound_event, fail_inbound_event,
}
use poolbrian_sms_automation.State.{heartbeat_started, heartbeat_succeeded}
use poolbrian_sms_automation.Queue.Sound.{IsSound, IsSound-jobs, insert_message_job-IsSound}
use poolbrian_sms_automation.Workers.Contacts.{Contacts, customer_contacts}
use poolbrian_sms_automation.Workers.Polling.{Config, Turn, Lookup, raised, absent, customer}
use poolbrian_sms_automation.Workers.Alerts.{
  Report, alert_for, alert_phone, alert_contacts, alert_lookup, alert_ids, alert_name, is_text,
  process_report, unless_raised, process_reports, reports_or_error, process_poolbrain_event,
}
use poolbrian_sms_automation.Workers.Inbox.{
  EventTurn, close_event, process_event, process_events, serve_events, process_inbound_events,
}

water_alert-IsSound :
    (now : ℕ) (a : WaterAlert) (db : Db) → IsSound db → IsSound (create_water_alert_job now a db).1
unfolding create_water_alert_job
water_alert-IsSound now a db s =
    elim (Bool-cases (is_some (find_where (λ p. p.alert_id == a.alert_id) db.processed_alerts))) [
      | inl e ↦ rw e s
      | inr e ↦ rw e (insert_message_job-IsSound now _ _ (IsSound-jobs db _ refl refl s))
    ]

module _ (config : Config) (turn : Turn) (event_id : ℕ) (source : Option ℕ) where
  phone-IsSound :
      (alert_id customer_id : ℕ) (c : Contacts) (phone : Option String) (db : Db)
      → IsSound db
      → IsSound (alert_phone config turn event_id source alert_id customer_id c phone db).1
  unfolding set_processed_alert_outcome
  phone-IsSound alert_id customer_id c none db s = IsSound-jobs db _ refl refl s
  phone-IsSound alert_id customer_id c (some phone) db s =
      elim (Bool-cases (is_suppressed sms phone db)) [
        | inl e ↦ rw e (IsSound-jobs db _ refl refl s)
        | inr e ↦ rw e (
            water_alert-IsSound turn.now
              (alert_for config turn event_id source alert_id customer_id c phone) db s)
      ]

  lookup-IsSound :
      (alert_id customer_id : ℕ) (answer : Lookup) (db : Db)
      → IsSound db
      → IsSound (alert_lookup config turn event_id source alert_id customer_id answer db).1
  unfolding set_processed_alert_outcome
  lookup-IsSound alert_id customer_id (raised error) db s = s
  lookup-IsSound alert_id customer_id absent db s = IsSound-jobs db _ refl refl s
  lookup-IsSound alert_id customer_id (customer fields) db s =
      contacts (customer_contacts config.host fields)
    where
      contacts :
          (c : Option Contacts)
          → IsSound (alert_contacts config turn event_id source alert_id customer_id c db).1
      contacts none = s
      contacts (some c) = phone-IsSound alert_id customer_id c c.phone db s

  ids-IsSound :
      (alert_id customer_id : Option ℕ) (db : Db)
      → IsSound db
      → IsSound (alert_ids config turn event_id source alert_id customer_id db).1
  ids-IsSound (some a) (some c) db s = lookup-IsSound a c turn.lookup db s
  ids-IsSound (some a) none db s = s
  ids-IsSound none c db s = s

report-IsSound :
    (config : Config) (turn : Turn) (event_id : ℕ) (r : Report) (db : Db)
    → IsSound db
    → IsSound (process_report config turn event_id r db).1
unfolding process_report
report-IsSound config turn event_id r db s =
    elim (Bool-cases (is_text (alert_name r.alert) "WaterLevelLow")) [
      | inl e ↦ rw e (ids-IsSound config turn event_id r.source_job_id _ r.customer_id db s)
      | inr e ↦ rw e s
    ]

unless-IsSound :
    (error : Option String) (rest : Option String × Db) (db : Db)
    → IsSound rest.1
    → IsSound db
    → IsSound (unless_raised error rest db).1
unless-IsSound none rest db r s = r
unless-IsSound (some error) rest db r s = s

reports-IsSound :
    (config : Config) (turns : ℕ → Turn) (n event_id : ℕ) (reports : List Report) (db : Db)
    → IsSound db
    → IsSound (process_reports config turns n event_id reports db).1
unfolding process_reports
reports-IsSound config turns n event_id [] db s = s
reports-IsSound config turns n event_id (r ∷ rest) db s =
    let kept = report-IsSound config (turns n) event_id r db s in
    unless-IsSound (process_report config (turns n) event_id r db).0 _
      (process_report config (turns n) event_id r db).1
      (reports-IsSound config turns (n + 1) event_id rest _ kept) kept

found-IsSound :
    (config : Config) (turns : ℕ → Turn) (event_id : ℕ) (reports : Option (List Report)) (db : Db)
    → IsSound db
    → IsSound (reports_or_error config turns event_id reports db).1
found-IsSound config turns event_id none db s = s
found-IsSound config turns event_id (some reports) db s =
    reports-IsSound config turns 0 event_id reports db s

poolbrain-IsSound :
    (config : Config) (forward : Fields → Option String) (turns : ℕ → Turn) (event : InboundEvent)
    (db : Db)
    → IsSound db
    → IsSound (process_poolbrain_event config forward turns event db).1
unfolding process_poolbrain_event
poolbrain-IsSound config forward turns event db s =
    elim (Bool-cases (is_text (get "event" event.payload) "customer.created")) [
      | inl e ↦ rw e s
      | inr e ↦ rw e (elim (Bool-cases (is_text (get "event" event.payload) "alert.triggered")) [
        | inl alert ↦ rw alert (found-IsSound config turns event.id _ db s)
        | inr other ↦ rw other s
      ])
    ]

close-IsSound :
    (turn : EventTurn) (worker_id : String) (event : InboundEvent) (x : Option String × Db)
    → IsSound x.1
    → IsSound (close_event turn worker_id event x).1
unfolding complete_inbound_event fail_inbound_event
close-IsSound turn worker_id event (none, db) s = IsSound-jobs db _ refl refl s
close-IsSound turn worker_id event (some error, db) s = IsSound-jobs db _ refl refl s

event-IsSound :
    (config : Config) (turn : EventTurn) (worker_id : String) (event : InboundEvent) (db : Db)
    → IsSound db
    → IsSound (process_event config turn worker_id event db).1
unfolding process_event
event-IsSound config turn worker_id event db s =
    elim (Bool-cases (str_eq event.provider "poolbrain")) [
      | inl e ↦ rw e (
          close-IsSound turn worker_id event _
            (poolbrain-IsSound config turn.forward turn.turns event db s))
      | inr e ↦ rw e (close-IsSound turn worker_id event (none, db) s)
    ]

events-IsSound :
    (config : Config) (turns : ℕ → EventTurn) (worker_id : String) (events : List InboundEvent)
    (db : Db)
    → IsSound db
    → IsSound (process_events config turns worker_id events db).1
unfolding process_events
events-IsSound config turns worker_id [] db s = s
events-IsSound config turns worker_id (e ∷ rest) db s =
    events-IsSound config turns worker_id rest _
      (event-IsSound config (turns e.id) worker_id e db s)

serve_events-IsSound :
    (config : Config) (turns : ℕ → EventTurn) (worker_id : String) (at : ℕ) (setup : Option String)
    (claimed : List InboundEvent) (db : Db)
    → IsSound db
    → IsSound (serve_events config turns worker_id at setup claimed db).1
unfolding heartbeat_succeeded
serve_events-IsSound config turns worker_id at (some error) claimed db s = s
serve_events-IsSound config turns worker_id at none claimed db s =
    IsSound-jobs _ _ refl refl (events-IsSound config turns worker_id claimed db s)

-- Whatever the events say and the service answers, the processing of inbound events keeps the queue
-- sound, also where the set-up of its client raises.
pub process_inbound_events-IsSound :
    (config : Config) (turns : ℕ → EventTurn) (worker_id : String) (limit lease_minutes at : ℕ)
    (held : ℕ → Bool) (setup : Option String) (db : Db)
    → IsSound db
    → IsSound (process_inbound_events config turns worker_id limit lease_minutes at held setup db).1
unfolding process_inbound_events heartbeat_started claim_inbound_events
process_inbound_events-IsSound config turns worker_id limit lease_minutes at held setup db s =
    serve_events-IsSound config turns worker_id at setup _ _ (IsSound-jobs db _ refl refl s)
