-- ===== src/State.antt =====
-- app/repositories/state.py and app/repositories/heartbeats.py: small facts that the workers keep.
use poolbrian_sms_automation.Prelude.{
  ℕ, ◌+◌, String, Option, none, some, Bool, not, List, [], ◌∷◌, ◌++◌, ◌==◌, if◌then◌else◌, str_eq,
  is_some, take_text, find_where, select_where,
}
use poolbrian_sms_automation.Store.{Db, AutomationState, Heartbeat, ProcessedJob}
use poolbrian_sms_automation.Store.Json.{Fields, get, end}
use poolbrian_sms_automation.Workers.{positive_int}

abbrev value_of : Option AutomationState → Option String
value_of none = none
value_of (some s) = some s.value

abbrev pub state_key : String → AutomationState → Bool
state_key key s = str_eq s.key key

unfoldable pub get_state : String → Db → Option String
get_state key db = value_of (find_where (state_key key) db.automation_state)

unfoldable pub put_state : String → String → List AutomationState → List AutomationState
put_state key value [] = (record { key = key; value = value }) ∷ []
put_state key value (s ∷ rest) =
    let others = put_state key value rest in
    if str_eq s.key key then record s { value = value } ∷ rest else s ∷ others

unfoldable pub set_state : String → String → Db → Db
unfolding put_state
set_state key value db = record db { automation_state = put_state key value db.automation_state }

unfoldable pub delete_state : String → Db → Db
delete_state key db = record db {
  automation_state = select_where (λ s. not (state_key key s)) db.automation_state;
}

abbrev pub baseline_row : ℕ → ℕ → Option ℕ → ProcessedJob
baseline_row now record_id customer_id = record {
  record_id = record_id;
  customer_id = customer_id;
  status = "baseline";
  twilio_message_sid = none;
  last_error = none;
  processed_at = now;
}

-- One round of the loop; a conflict on record_id inserts nothing.
abbrev pub remember_job : ℕ → Option ℕ → Option ℕ → ℕ × Db → ℕ × Db
remember_job now none customer_id (count, db) = (count, db)
remember_job now (some record_id) customer_id (count, db) =
    if is_some (find_where (λ p. p.record_id == record_id) db.processed_jobs)
    then (count, db)
    else (
      count + 1,
      record db {
        processed_jobs = db.processed_jobs ++ baseline_row now record_id customer_id ∷ [];
      },
    )

unfoldable pub remember_jobs : ℕ → (String → Option ℕ) → List Fields → ℕ × Db → ℕ × Db
remember_jobs now int_of_text [] state = state
remember_jobs now int_of_text (job ∷ rest) state = remember_jobs now int_of_text rest (
    remember_job now (positive_int int_of_text (get "RecordID" job))
      (positive_int int_of_text (get "CustomerId" job)) state)

abbrev pub baseline_key : String
baseline_key = "completed_service_baseline_v2"

unfoldable pub baseline_completed_jobs : ℕ → (String → Option ℕ) → List Fields → Db → ℕ × Db
unfolding set_state
baseline_completed_jobs now int_of_text jobs db =
    let (count, after) = remember_jobs now int_of_text jobs (0, db) in
    (count, set_state baseline_key "complete" after)

-- `INSERT … ON CONFLICT (worker_name) DO UPDATE`.
unfoldable pub put_heartbeat : Heartbeat → (Heartbeat → Heartbeat) → List Heartbeat → List Heartbeat
put_heartbeat new set [] = new ∷ []
put_heartbeat new set (h ∷ rest) =
    let others = put_heartbeat new set rest in
    if str_eq h.worker_name new.worker_name then set h ∷ rest else h ∷ others

abbrev started_row : ℕ → String → Fields → Heartbeat
started_row now name metadata = record {
  worker_name = name;
  last_started_at = some now;
  last_succeeded_at = none;
  last_failed_at = none;
  last_error = none;
  metadata = metadata;
  updated_at = now;
}

unfoldable pub heartbeat_started : ℕ → String → Fields → Db → Db
unfolding put_heartbeat
heartbeat_started now name metadata db = record db {
  worker_heartbeats =
      put_heartbeat (started_row now name metadata)
        (λ h. record h { last_started_at = some now; metadata = metadata; updated_at = now })
        db.worker_heartbeats;
}

unfoldable pub heartbeat_succeeded : ℕ → String → Fields → Db → Db
unfolding put_heartbeat
heartbeat_succeeded now name metadata db = record db {
  worker_heartbeats =
      put_heartbeat (record (started_row now name metadata) { last_succeeded_at = some now })
        (λ h. record h {
          last_succeeded_at = some now;
          last_error = none;
          metadata = metadata;
          updated_at = now;
        })
        db.worker_heartbeats;
}

unfoldable pub heartbeat_failed : ℕ → String → String → Db → Db
unfolding put_heartbeat take_text
heartbeat_failed now name error db =
    let cut = some (take_text 1000 error) in
    record db {
      worker_heartbeats =
          put_heartbeat
            (record (started_row now name end) { last_failed_at = some now; last_error = cut })
            (λ h. record h { last_failed_at = some now; last_error = cut; updated_at = now })
            db.worker_heartbeats;
    }
