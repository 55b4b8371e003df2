-- ===== src/Webhooks/Alerts.antt =====
-- The alerts of status callbacks: when one is queued, and that an alert brings no further alert.
use poolbrian_sms_automation.Prelude.{
  ℕ, ◌≡◌, ◌≢◌, ◌⊎◌, inl, inr, refl, ap, ◌∙◌, String, Option, none, some, Bool, true, false, List,
  [], ◌∷◌, ◌++◌, map, arith, Bool-cases, str_eq, eq_iff, concat_texts, map-update_where, find_where,
}
use poolbrian_sms_automation.Store.{Db, MessageJob}
use poolbrian_sms_automation.Jobs.Provider.{
  Callback, record_provider_event, log_event, bind_named, bind_test, bind_job, event_test,
  apply_event, copy_first, copy_outcome,
}
use poolbrian_sms_automation.Jobs.Enqueue.{
  NewJob, insert_message_job, new_row, key_taken, enqueue_delivery_failure_alert,
}
use poolbrian_sms_automation.Webhooks.{App, given}
use poolbrian_sms_automation.Webhooks.Status.{
  StatusForm, callback_of, status_of, alerts, alert_about, alert_phone, valid_status, twilio_status,
}

copy_outcome-jobs :
    (now : ℕ) (e : Callback) (job : MessageJob) (db : Db)
    → (copy_outcome now e job db).message_jobs ≡ db.message_jobs
unfolding copy_outcome
copy_outcome-jobs now e job db = ground arith

copy_first-jobs :
    (now : ℕ) (e : Callback) (db : Db) (o : Option MessageJob)
    → (copy_first now e db o).1.message_jobs ≡ db.message_jobs
copy_first-jobs now e db none = refl
copy_first-jobs now e db (some job) = copy_outcome-jobs now e (apply_event now e job) db

bind_named-ids :
    (now : ℕ) (e : Callback) (o : Option ℕ) (db : Db)
    → map MessageJob.id (bind_named now e o db).message_jobs ≡ map MessageJob.id db.message_jobs
unfolding bind_job
bind_named-ids now e none db = refl
bind_named-ids now e (some id) db =
    map-update_where MessageJob.id (bind_test id e) (bind_job now e) (λ job. refl) db.message_jobs

-- A callback adds no job and removes none.
record_provider_event-ids :
    (now : ℕ) (e : Callback) (db : Db)
    → map MessageJob.id (record_provider_event now e db).1.message_jobs
      ≡ map MessageJob.id db.message_jobs
unfolding record_provider_event log_event apply_event
record_provider_event-ids now e db =
    let bound = bind_named now e e.message_job_id (log_event now e db) in
    ap (map MessageJob.id) (copy_first-jobs now e _ (find_where (event_test e) bound.message_jobs))
    ∙ map-update_where MessageJob.id (event_test e) (apply_event now e) (λ job. refl)
        bound.message_jobs
    ∙ bind_named-ids now e e.message_job_id (log_event now e db)

-- A callback that is about an alert, or about no job, queues nothing, whatever it says of the
-- message: every job is still there, and no other.
pub twilio_status-quiet :
    (now : ℕ) (app : App) (signed : Bool) (f : StatusForm) (db : Db) (row : Option MessageJob)
    → (record_provider_event now (callback_of app f) db).0 ≡ row
    → (row ≡ none)
      ⊎ ((job : MessageJob) × (row ≡ some job) × (job.message_kind ≡ "admin_delivery_failure_sms"))
    → map MessageJob.id (twilio_status now app signed f db).1.message_jobs
      ≡ map MessageJob.id db.message_jobs
unfolding twilio_status
twilio_status-quiet now app false f db row h about = refl
twilio_status-quiet now app true f db row h about = elim (Bool-cases (valid_status app f)) [
  | inr e ↦ rw e refl
  | inl e ↦ rw (e, h, silent row about) (record_provider_event-ids now (callback_of app f) db)
]
  where
    silent :
        (o : Option MessageJob)
        → (o ≡ none)
          ⊎ ((job : MessageJob) × (o ≡ some job)
              × (job.message_kind ≡ "admin_delivery_failure_sms"))
        → alerts (status_of app f) o ≡ false
    silent o (inl k) = rw k refl
    silent o (inr (job, k, kind)) = rw (k, kind) (ground arith)

key_taken-snoc :
    (key : String) (jobs : List MessageJob) (job : MessageJob)
    → job.idempotency_key ≡ key
    → key_taken key (jobs ++ job ∷ []) ≡ true
unfolding key_taken
key_taken-snoc key [] job e = ground (arith, eq_iff job.idempotency_key key)
key_taken-snoc key (j ∷ jobs) job e = ground (arith, key_taken-snoc key jobs job e)

-- After an INSERT there is a job with the key.
insert_message_job-taken :
    (now : ℕ) (n : NewJob) (db : Db)
    → key_taken n.idempotency_key (insert_message_job now n db).1.message_jobs ≡ true
unfolding insert_message_job new_row
insert_message_job-taken now n db =
    elim (Bool-cases (key_taken n.idempotency_key db.message_jobs)) [
      | inl e ↦ rw e e
      | inr e ↦ rw e (key_taken-snoc n.idempotency_key db.message_jobs _ refl)
    ]

-- A signed callback with valid fields that says of a job that is no alert that it failed or was not
-- delivered leaves a job with the key of the alert about that message, where an alert number is set.
pub twilio_status-alerted :
    (now : ℕ) (app : App) (f : StatusForm) (db : Db) (job : MessageJob) (phone : String)
    → valid_status app f ≡ true
    → (record_provider_event now (callback_of app f) db).0 ≡ some job
    → job.message_kind ≢ "admin_delivery_failure_sms"
    → (status_of app f ≡ "failed") ⊎ (status_of app f ≡ "undelivered")
    → alert_phone app ≡ some phone
    → key_taken
        (concat_texts ("delivery-failure-alert:" ∷ app.strip (given f.message_sid) ∷ []))
        (twilio_status now app true f db).1.message_jobs
      ≡ true
unfolding twilio_status alert_about enqueue_delivery_failure_alert
twilio_status-alerted now app f db job phone v h kind failed set =
    rw (v, h, loud failed, set) (insert_message_job-taken now _ _)
  where
    other : str_eq job.message_kind "admin_delivery_failure_sms" ≡ false
    other = ground (arith, eq_iff job.message_kind "admin_delivery_failure_sms")

    loud :
        (status_of app f ≡ "failed") ⊎ (status_of app f ≡ "undelivered")
        → alerts (status_of app f) (some job) ≡ true
    loud (inl s) = rw (s, other) refl
    loud (inr s) = rw (s, other) refl
