-- ===== src/Workers/Passes/Sound.antt =====
-- A pass over all work keeps the queue sound.
use poolbrian_sms_automation.Prelude.{ℕ, refl, Option, none, some}
use poolbrian_sms_automation.Store.{Db}
use poolbrian_sms_automation.Events.{recover_stale_events}
use poolbrian_sms_automation.Jobs.Recovery.{recover_stale_message_jobs}
use poolbrian_sms_automation.Queue.{recover, sweep, perform}
use poolbrian_sms_automation.Queue.Sound.{IsSound, IsSound-jobs, perform-IsSound}
use poolbrian_sms_automation.Workers.Loop.Sound.{db_after, process_due_messages-IsSound}
use poolbrian_sms_automation.Workers.Loop.{process_due_messages}
use poolbrian_sms_automation.Workers.Polling.{poll_completed_services}
use poolbrian_sms_automation.Workers.Polling.Sound.{poll_completed_services-IsSound}
use poolbrian_sms_automation.Workers.Inbox.{
  FailedAt, at_none, at_events, at_messages, at_sweep, recover_stale_work, process_inbound_events,
}
use poolbrian_sms_automation.Workers.Inbox.Sound.{process_inbound_events-IsSound}
use poolbrian_sms_automation.Workers.Passes.{Pass, after_messages, process_all}

events-IsSound : (now : ℕ) (db : Db) → IsSound db → IsSound (recover_stale_events now db).1
unfolding recover_stale_events
events-IsSound now db s = IsSound-jobs db _ refl refl s

recovered-IsSound : (now : ℕ) (db : Db) → IsSound db → IsSound (recover_stale_message_jobs now db).1
recovered-IsSound now db s = unfold perform in perform-IsSound (recover now) db s

recover_stale_work-IsSound :
    (now : ℕ) (failure : FailedAt) (db : Db)
    → IsSound db
    → IsSound (recover_stale_work now failure db).1
unfolding recover_stale_work
recover_stale_work-IsSound now at_events db s = s
recover_stale_work-IsSound now at_messages db s = events-IsSound now db s
recover_stale_work-IsSound now at_sweep db s = recovered-IsSound now _ (events-IsSound now db s)
recover_stale_work-IsSound now at_none db s =
    unfold perform in
    perform-IsSound (sweep now) _ (recovered-IsSound now _ (events-IsSound now db s))

messages-IsSound {ℓ} :
    {A : Type ℓ} (db : Db) (x : Option (A × Db))
    → IsSound (db_after db x)
    → IsSound (after_messages db x).1
messages-IsSound db none s = s
messages-IsSound db (some (counts, after)) s = s

-- A pass over all work keeps the queue sound, whatever the services and providers answer and
-- whichever of its steps raise: the recovery at a failure of the database between its transactions,
-- the poll of completed services, the inbound events at the set-up of their client, and the claim
-- of the due messages.
pub process_all-IsSound : (p : Pass) (db : Db) → IsSound db → IsSound (process_all p db).1
unfolding process_all
process_all-IsSound p db s =
    let recovered = recover_stale_work-IsSound p.recovered_at p.recovery_failure db s in
    let polls =
      poll_completed_services-IsSound p.config p.poll_turns p.polled_at p.source _ recovered in
    let after =
      (process_inbound_events p.config p.event_turns p.inbox_worker 50 p.lease_minutes p.inbox_at
        p.events_held p.inbox_setup
        (poll_completed_services p.config p.poll_turns p.polled_at p.source
          (recover_stale_work p.recovered_at p.recovery_failure db).1).1).1 in
    let inbox : IsSound after =
      process_inbound_events-IsSound p.config p.event_turns p.inbox_worker 50 p.lease_minutes
        p.inbox_at p.events_held p.inbox_setup _ polls in
    messages-IsSound after
      (process_due_messages p.worker p.job_turns p.claimed_at p.request p.jobs_held after)
      (process_due_messages-IsSound p.worker p.job_turns p.claimed_at p.request p.jobs_held after
        inbox)
