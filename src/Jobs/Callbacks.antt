-- ===== src/Jobs/Callbacks.antt =====
-- Delivery callbacks that come twice (`record_provider_event` of app/repositories/jobs.py).
use poolbrian_sms_automation.Prelude.{
  ℕ, ◌≡◌, ◌∙◌, refl, ap, String, none, Bool, true, false, ◌||◌, List, [], ◌∷◌, arith, All,
  All-update_where_new, update_where, find_where, str_eq,
}
use poolbrian_sms_automation.Store.{Db, MessageJob}
use poolbrian_sms_automation.Jobs.Provider.{
  Callback, record_provider_event, event_test, apply_event, event_status, is_lost, copy_outcome,
  log_event,
}

-- A status that no later callback of its rank changes.
abbrev pub is_final_status : String → Bool
is_final_status status = str_eq status "delivered" || is_lost status

apply_event-closed :
    (now : ℕ) (e : Callback) (job : MessageJob)
    → is_final_status e.status ≡ true
    → event_test e (apply_event now e job) ≡ false
unfolding apply_event event_status
apply_event-closed now e job h = ground arith

update_where_miss :
    {A : Type 0} (p : A → Bool) (f : A → A) (xs : List A)
    → All (λ x. p x ≡ false) xs
    → update_where p f xs ≡ xs
unfolding update_where
update_where_miss p f [] h = refl
update_where_miss p f (x ∷ xs) h = rw h.0 (ap (λ t. x ∷ t) (update_where_miss p f xs h.1))

find_where_miss :
    {A : Type 0} (p : A → Bool) (xs : List A) → All (λ x. p x ≡ false) xs → find_where p xs ≡ none
unfolding find_where
find_where_miss p [] h = refl
find_where_miss p (x ∷ xs) h = rw h.0 (find_where_miss p xs h.1)

recorded_jobs :
    (now : ℕ) (e : Callback) (db : Db)
    → e.message_job_id ≡ none
    → (record_provider_event now e db).1.message_jobs
      ≡ update_where (event_test e) (apply_event now e) db.message_jobs
unfolding record_provider_event copy_outcome log_event
recorded_jobs now e db h = rw h (ground arith)

answered :
    (now : ℕ) (e : Callback) (db : Db)
    → e.message_job_id ≡ none
    → All (λ job. event_test e job ≡ false) db.message_jobs
    → (record_provider_event now e db).0 ≡ none
unfolding record_provider_event log_event
answered now e db h m = rw (h, find_where_miss (event_test e) db.message_jobs m) refl

-- A callback with a final status that comes a second time, found by the provider's message id
-- alone, finds no job and changes no row of message_jobs.
pub record_provider_event_again :
    (now later : ℕ) (e : Callback) (db : Db)
    → is_final_status e.status ≡ true
    → e.message_job_id ≡ none
    → let first = record_provider_event now e db in
      let second = record_provider_event later e first.1 in
      (second.0 ≡ none) × (second.1.message_jobs ≡ first.1.message_jobs)
record_provider_event_again now later e db final unnamed =
    let first = (record_provider_event now e db).1 in
    let closed : All (λ job. event_test e job ≡ false) first.message_jobs =
      rw (recorded_jobs now e db unnamed) (
        All-update_where_new (λ job. event_test e job ≡ false) (event_test e) (apply_event now e)
          (λ job m. apply_event-closed now e job final) (λ job m. m) db.message_jobs) in
    (
      answered later e first unnamed closed,
      recorded_jobs later e first unnamed
          ∙ update_where_miss (event_test e) (apply_event later e) first.message_jobs closed,
    )
