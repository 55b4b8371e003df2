-- ===== src/Workers/Releases.antt =====
-- Which statements take a job out of flight, for the rounds of app/workers.py.
use poolbrian_sms_automation.Prelude.{
  ℕ, ◌≡◌, inl, inr, String, Option, none, some, Bool, false, List, [], ◌∷◌, arith, All,
  All-update_where_new, Bool-cases, update_where, find_where, count_where, ◌==◌,
}
use poolbrian_sms_automation.Store.{Db, MessageJob, JobStatus}
use poolbrian_sms_automation.Jobs.Lease.{
  Failure, mark_sending, sending_test, fail_message_job, flight_test, close_failed, fail_job,
  fail_attempt, mark_delivery_unknown, unknown_test, unknown_job,
}
use poolbrian_sms_automation.Jobs.Recovery.{cancel_message_job, cancel_job}

-- No row is in flight in the worker's name.
abbrev pub Released : ℕ → String → Db → Type 0
Released id w db = All (λ job. flight_test id w job ≡ false) db.message_jobs

abbrev pub NotLeased : ℕ → String → Db → Type 0
NotLeased id w db = All (λ job. sending_test id w job ≡ false) db.message_jobs

fail_job-released :
    (now id : ℕ) (w : String) (f : Failure) (job : MessageJob)
    → flight_test id w (fail_job now f job) ≡ false
unfolding fail_job
fail_job-released now id w f job = ground arith

unknown_job-released :
    (now id : ℕ) (w error : String) (code : Option String) (job : MessageJob)
    → flight_test id w (unknown_job now error code job) ≡ false
unfolding unknown_job
unknown_job-released now id w error code job = ground arith

cancel_job-released :
    (now id : ℕ) (w reason : String) (job : MessageJob)
    → flight_test id w (cancel_job now reason job) ≡ false
unfolding cancel_job
cancel_job-released now id w reason job = ground arith

-- The two outcomes of a search, for a property of its result.
pub after_find {ℓ κ} :
    {A : Type ℓ} (P : Option A → Type κ) (p : A → Bool) (xs : List A)
    → (All (λ x. p x ≡ false) xs → P none)
    → ((x : A) → P (some x))
    → P (find_where p xs)
unfolding find_where
after_find P p [] miss hit = miss tt
after_find P p (x ∷ xs) miss hit = elim (Bool-cases (p x)) [
  | inl e ↦ rw e (hit x)
  | inr e ↦ rw e (after_find P p xs (λ h. miss (e, h)) hit)
]

pub fail_message_job-Released :
    (now id : ℕ) (w : String) (f : Failure) (db : Db)
    → Released id w (fail_message_job now id w f db).1
unfolding fail_message_job fail_attempt
fail_message_job-Released now id w f db =
    after_find (λ row. Released id w (close_failed now id w f db row).1) (flight_test id w)
      db.message_jobs (λ h. h)
      (λ job.
        All-update_where_new (λ j. flight_test id w j ≡ false) (flight_test id w) (fail_job now f)
          (λ j e. fail_job-released now id w f j) (λ j e. e) db.message_jobs)

pub cancel_message_job-Released :
    (now id : ℕ) (w reason : String) (db : Db)
    → Released id w (cancel_message_job now id w reason db)
unfolding cancel_message_job
cancel_message_job-Released now id w reason db =
    All-update_where_new (λ j. flight_test id w j ≡ false) (flight_test id w)
      (cancel_job now reason) (λ j e. cancel_job-released now id w reason j) (λ j e. e)
      db.message_jobs

-- What a statement does to the rows a worker owns but has not leased.
update_where-released :
    (id : ℕ) (w : String) (p : MessageJob → Bool) (f : MessageJob → MessageJob)
    → ((job : MessageJob) → flight_test id w (f job) ≡ false)
    → ((job : MessageJob)
        → p job ≡ false
        → sending_test id w job ≡ false
        → flight_test id w job ≡ false)
    → (rows : List MessageJob) → All (λ job. sending_test id w job ≡ false) rows
    → All (λ job. flight_test id w job ≡ false) (update_where p f rows)
unfolding update_where
update_where-released id w p f hit miss [] h = tt
update_where-released id w p f hit miss (x ∷ xs) h = elim (Bool-cases (p x)) [
  | inl e ↦ rw e (hit x, update_where-released id w p f hit miss xs h.1)
  | inr e ↦ rw e (miss x e h.0, update_where-released id w p f hit miss xs h.1)
]

in_flight_split :
    (id : ℕ) (w : String) (job : MessageJob)
    → unknown_test id w job ≡ false
    → sending_test id w job ≡ false
    → flight_test id w job ≡ false
in_flight_split id w job h k = ground arith

pub mark_delivery_unknown-Released :
    (now id : ℕ) (w error : String) (code : Option String) (db : Db)
    → NotLeased id w db
    → Released id w (mark_delivery_unknown now id w error code db).1
unfolding mark_delivery_unknown fail_attempt
mark_delivery_unknown-Released now id w error code db h =
    elim (Bool-cases (count_where (unknown_test id w) db.message_jobs == 1)) [
      | inl e ↦ rw e (
          update_where-released id w (unknown_test id w) (unknown_job now error code)
            (unknown_job-released now id w error code) (in_flight_split id w) db.message_jobs h)
      | inr e ↦ rw e (
          update_where-released id w (unknown_test id w) (unknown_job now error code)
            (unknown_job-released now id w error code) (in_flight_split id w) db.message_jobs h)
    ]

pub mark_sending-NotLeased :
    (now id : ℕ) (w : String) (db : Db) → NotLeased id w (mark_sending now id w db).1
unfolding mark_sending
mark_sending-NotLeased now id w db =
    All-update_where_new (λ j. sending_test id w j ≡ false) (sending_test id w)
      (λ job. record job { status = JobStatus.sending; updated_at = now }) (λ j e. ground arith)
      (λ j e. e) db.message_jobs
