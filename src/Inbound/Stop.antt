-- ===== src/Inbound/Stop.antt =====
-- A customer's STOP message and the queue: soundness, and what is sent afterwards.
use poolbrian_sms_automation.Prelude.{
  ℕ, ◌≡◌, String, some, true, false, List, arith, All, All-weaken, All-at, is_some, find_where,
  find_where-Has, find_where_sound,
}
use poolbrian_sms_automation.Store.{Db, MessageJob, sms}
use poolbrian_sms_automation.Jobs.Lease.{sending_test}
use poolbrian_sms_automation.Preferences.{sent_to}
use poolbrian_sms_automation.Queue.{Action, run}
use poolbrian_sms_automation.Queue.Sound.{IsSound, run-IsSound, IsSound-SameQueue}
use poolbrian_sms_automation.Queue.OptOut.{stays_out, IsIdle, run-IsIdle, not_sendable}
use poolbrian_sms_automation.Inbound.{Sms, same_message, record_inbound_sms}
use poolbrian_sms_automation.Inbound.Again.{record_inbound_sms-OptedOut}
use poolbrian_sms_automation.Inbound.Runs.{inbound_actions, record_inbound_sms-run}

-- An inbound message keeps the queue sound.
pub record_inbound_sms-IsSound :
    (now : ℕ) (m : Sms) (db : Db) → IsSound db → IsSound (record_inbound_sms now m db).1
record_inbound_sms-IsSound now m db s =
    IsSound-SameQueue (run (inbound_actions now m db) db) (record_inbound_sms now m db).1
      (record_inbound_sms-run now m db) (run-IsSound (inbound_actions now m db) db s)

-- Once a sound queue has recorded a customer's new message that opts out, then after any actions
-- that do not opt the customer in again the job that any worker would be given leave to send is
-- not a text message to that customer.
pub stopped-not_sent :
    (now : ℕ) (m : Sms) (actions : List Action) (db : Db)
    → m.opt_out ≡ true
    → is_some (find_where (same_message m.provider_message_id) db.inbound_messages) ≡ false
    → IsSound db
    → All (λ a. stays_out sms m.from_normalized a ≡ true) actions
    → (id : ℕ) (w : String) (job : MessageJob)
    → find_where (sending_test id w) (run actions (record_inbound_sms now m db).1).message_jobs
      ≡ some job
    → sent_to sms m.from_normalized job ≡ false
stopped-not_sent now m actions db out new s k id w job found =
    let stopped = record_inbound_sms-OptedOut now m db out new in
    let idle =
      run-IsIdle sms m.from_normalized actions (record_inbound_sms now m db).1 k
        (record_inbound_sms-IsSound now m db s) stopped.0
        (All-weaken (λ j h t. ground arith) _ stopped.1) in
    not_sendable sms m.from_normalized id w job
      (All-at (IsIdle sms m.from_normalized) job _ (find_where-Has (sending_test id w) _ job found)
        idle)
      (find_where_sound (sending_test id w) _ job found)
