-- ===== src/Workers/Polling/Sound.antt =====
-- A poll of completed services keeps the queue sound.
use poolbrian_sms_automation.Prelude.{
  ℕ, ◌+◌, refl, Option, none, some, not, List, [], ◌∷◌, inl, inr, Bool-cases, ◌||◌, is_some,
  holds_text,
}
use poolbrian_sms_automation.Store.{Db}
use poolbrian_sms_automation.Store.Json.{Fields, get, end}
use poolbrian_sms_automation.Domain.Schedule.{within_local_hours}
use poolbrian_sms_automation.Outcomes.{set_processed_job_outcome}
use poolbrian_sms_automation.State.{
  get_state, baseline_key, heartbeat_started, heartbeat_succeeded, heartbeat_failed,
}
use poolbrian_sms_automation.Campaigns.Workflow.Sound.{create_completed_service_workflow-IsSound}
use poolbrian_sms_automation.Queue.Sound.{IsSound, IsSound-jobs}
use poolbrian_sms_automation.Workers.{positive_int}
use poolbrian_sms_automation.Workers.Contacts.{Contacts, customer_contacts}
use poolbrian_sms_automation.Workers.Polling.{
  Config, Turn, Lookup, raised, absent, customer, Fate, counted_created, counted_skipped,
  counted_failed, ended, service_of, serve, with_contacts, look_up, poll_job, Counters, add_fate,
  Ending, complete, broken_off, go_on, poll_jobs, Source, no_setup, no_jobs, jobs, no_counters,
  poll_name, finish_poll, poll_source, poll_completed_services,
}

contacts-IsSound :
    (config : Config) (turn : Turn) (record_id customer_id : ℕ) (c : Option Contacts) (db : Db)
    → IsSound db
    → IsSound (with_contacts config turn record_id customer_id c db).1
unfolding with_contacts serve set_processed_job_outcome
contacts-IsSound config turn record_id customer_id none db s = s
contacts-IsSound config turn record_id customer_id (some c) db s =
    elim (Bool-cases (is_some c.phone || is_some c.email)) [
      | inl e ↦ rw e (
          create_completed_service_workflow-IsSound turn.now
            (service_of config turn record_id customer_id c) db s)
      | inr e ↦ rw e (IsSound-jobs db _ refl refl s)
    ]

look_up-IsSound :
    (config : Config) (turn : Turn) (record_id customer_id : ℕ) (answer : Lookup) (db : Db)
    → IsSound db
    → IsSound (look_up config turn record_id customer_id answer db).1
unfolding set_processed_job_outcome
look_up-IsSound config turn record_id customer_id (raised error) db s = s
look_up-IsSound config turn record_id customer_id absent db s = IsSound-jobs db _ refl refl s
look_up-IsSound config turn record_id customer_id (customer fields) db s =
    contacts-IsSound config turn record_id customer_id (customer_contacts config.host fields) db s

job-IsSound :
    (config : Config) (turn : Turn) (record_id customer_id : Option ℕ) (db : Db)
    → IsSound db
    → IsSound (poll_job config turn record_id customer_id db).1
job-IsSound config turn (some r) (some c) db s = look_up-IsSound config turn r c turn.lookup db s
job-IsSound config turn (some r) none db s = s
job-IsSound config turn none c db s = s

go_on-IsSound :
    (f : Fate) (rest : Ending × Db) (db : Db)
    → IsSound rest.1
    → IsSound db
    → IsSound (go_on f rest db).1
go_on-IsSound counted_created rest db r s = r
go_on-IsSound counted_skipped rest db r s = r
go_on-IsSound counted_failed rest db r s = r
go_on-IsSound (ended error) rest db r s = s

poll_jobs-IsSound :
    (config : Config) (turns : ℕ → Turn) (n : ℕ) (list : List Fields) (c : Counters) (db : Db)
    → IsSound db
    → IsSound (poll_jobs config turns n list c db).1
unfolding poll_jobs
poll_jobs-IsSound config turns n [] c db s = s
poll_jobs-IsSound config turns n (job ∷ rest) c db s =
    let int_of = config.host.int_of_text in
    let done =
      poll_job config (turns n) (positive_int int_of (get "RecordID" job))
        (positive_int int_of (get "CustomerId" job)) db in
    let kept = job-IsSound config (turns n) _ _ db s in
    go_on-IsSound done.0 _ done.1
      (poll_jobs-IsSound config turns (n + 1) rest (add_fate done.0 c) done.1 kept) kept

finish-IsSound : (at : ℕ) (x : Ending × Db) → IsSound x.1 → IsSound (finish_poll at x).1
unfolding heartbeat_succeeded heartbeat_failed
finish-IsSound at (complete c, db) s = IsSound-jobs db _ refl refl s
finish-IsSound at (broken_off error, db) s = IsSound-jobs db _ refl refl s

source-IsSound :
    (config : Config) (turns : ℕ → Turn) (at : ℕ) (source : Source) (db : Db)
    → IsSound db
    → IsSound (poll_source config turns at source db).1
unfolding heartbeat_failed
source-IsSound config turns at (no_setup error) db s = s
source-IsSound config turns at (no_jobs error) db s = IsSound-jobs db _ refl refl s
source-IsSound config turns at (jobs list) db s =
    finish-IsSound at _ (poll_jobs-IsSound config turns 0 list no_counters db s)

-- Whatever the service answers and wherever an exception ends it, a poll of completed services
-- keeps the queue sound.
pub poll_completed_services-IsSound :
    (config : Config) (turns : ℕ → Turn) (at : ℕ) (source : Source) (db : Db)
    → IsSound db
    → IsSound (poll_completed_services config turns at source db).1
unfolding poll_completed_services heartbeat_started heartbeat_succeeded
poll_completed_services-IsSound config turns at source db s =
    let started = heartbeat_started at poll_name end db in
    let kept : IsSound started = IsSound-jobs db started refl refl s in
    elim (Bool-cases (not (within_local_hours config.zone at 6 19))) [
      | inl e ↦ rw e (IsSound-jobs started _ refl refl kept)
      | inr e ↦ rw e (elim (Bool-cases (holds_text (get_state baseline_key started) "complete")) [
        | inl ready ↦ rw ready (source-IsSound config turns at source started kept)
        | inr unready ↦ rw unready (IsSound-jobs started _ refl refl kept)
      ])
    ]
