-- ===== src/Queue/Dispatch.antt =====
-- A worker has leave to send at most once for each numbered attempt of a job.
use poolbrian_sms_automation.Prelude.{
  ℕ, ◌≤◌, ◌<◌, ◌≡◌, refl, sym, ap, subst, inl, inr, String, true, false, Option, none, some, List,
  [], ◌∷◌, arith, All, All-weaken, All-append, All-at, All-Has_self, IsUnique, Fresh, Chain-All,
  Has, eq_of_key, Bool-cases, find_where, find_where_sound, find_where-Has, All-update_where_each,
  if◌then◌else◌, ◌∙◌,
}
use poolbrian_sms_automation.Store.{Db, MessageJob, JobStatus}
use poolbrian_sms_automation.Jobs.Edges.{Grant}
use poolbrian_sms_automation.Jobs.RowSteps.{RowStep}
use poolbrian_sms_automation.Jobs.Lease.{is_leased, mark_sending, sending_test}
use poolbrian_sms_automation.Queue.{
  Action, start_sending, perform, dispatched_row, dispatch, dispatches,
}
use poolbrian_sms_automation.Queue.Rows.{Growth, kept, added, perform-Progress}
use poolbrian_sms_automation.Queue.Sound.{IsSound, perform-IsSound}

-- The job has passed the attempt: its count is at least `n`, and it is not leased as attempt `n`.
abbrev IsPassed : ℕ → ℕ → MessageJob → Type 0
IsPassed id n job =
    job.id ≡ id → (n ≤ job.attempt_count) × (n ≡ job.attempt_count → is_leased job.status ≡ false)

-- An attempt that is spent: its job is in the table or was, and has passed it.
record IsSpent (db : Db) (sent : ℕ × ℕ) : Type 0 where
  known : sent.0 < db.message_job_seq
  passed : All (IsPassed sent.0 sent.1) db.message_jobs

RowStep-IsPassed :
    {g : Grant} (id n : ℕ) (a b : MessageJob) → RowStep g a b → IsPassed id n a → IsPassed id n b
RowStep-IsPassed id n a b r h e =
    let before = h (sym r.same_id ∙ e) in
    (
      omega (arith, r.counted, before.0),
      λ at. elim (Bool-cases (is_leased b.status)) [
        | inl leased ↦ elim (r.leased_anew leased) [
          | inl more ↦ absurd (omega (arith, before.0, more.0))
          | inr same ↦ cc (before.1 (at ∙ same.1), same.0)
        ]
        | inr free ↦ free
      ],
    )

-- An action leaves a spent attempt spent.
perform-IsSpent :
    (a : Action) (db : Db) (sent : ℕ × ℕ)
    → IsSound db
    → IsSpent db sent
    → IsSpent (perform a db) sent
perform-IsSpent a db sent s h =
    let p = perform-Progress a db s.unique_ids in
    grown (perform a db) p.middle p.growth
      (Chain-All (IsPassed sent.0 sent.1) (RowStep-IsPassed sent.0 sent.1) p.rows h.passed)
  where
    grown :
        (after : Db) (middle : List MessageJob)
        → Growth db after middle
        → All (IsPassed sent.0 sent.1) middle
        → IsSpent after sent
    grown after middle (kept e le) m = record { known = omega (arith, h.known); passed = rw e m }
    grown after middle (added row e i q st n w k) m = record {
      known = omega (arith, h.known);
      passed = rw e (
          All-append (IsPassed sent.0 sent.1) middle (row ∷ []) m
            ((λ same. absurd (omega (arith, h.known))), tt));
    }

-- The job that a worker may now send: nobody sent this attempt before, and it is spent now.
module _ (now id : ℕ) (w : String) (db : Db) (job : MessageJob) (sound : IsSound db)
    (found : find_where (sending_test id w) db.message_jobs ≡ some job) where
  stored : Has job db.message_jobs
  stored = find_where-Has (sending_test id w) db.message_jobs job found

  tested : sending_test id w job ≡ true
  tested = find_where_sound (sending_test id w) db.message_jobs job found

  newly-IsSpent : IsSpent (perform (start_sending now id w) db) (job.id, job.attempt_count)
  unfolding perform mark_sending
  newly-IsSpent = record {
    known = All-at (λ j. j.id < db.message_job_seq) job db.message_jobs stored sound.below_seq;
    passed =
        All-update_where_each (IsPassed job.id job.attempt_count) (sending_test id w)
          (λ j. record j { status = JobStatus.sending; updated_at = now }) db.message_jobs
          (All-weaken (λ j m. sent_row j m) db.message_jobs (All-Has_self db.message_jobs));
  }
    where
      sent_row :
          (j : MessageJob)
          → Has j db.message_jobs
          → IsPassed job.id job.attempt_count (
              if sending_test id w j
              then (record j { status = JobStatus.sending; updated_at = now })
              else j)
      sent_row j m = elim (Bool-cases (sending_test id w j)) [
        | inl e ↦ rw e (λ same.
            let whole =
              eq_of_key MessageJob.id j job db.message_jobs m stored same sound.unique_ids in
            (omega (arith, ap MessageJob.attempt_count whole), λ _. refl))
        | inr e ↦ rw e (λ same.
            let whole =
              eq_of_key MessageJob.id j job db.message_jobs m stored same sound.unique_ids in
            absurd (cc (ap (sending_test id w) whole, tested, e)))
      ]

  not_sent_before :
      (log : List (ℕ × ℕ)) → All (IsSpent db) log → Fresh (job.id, job.attempt_count) log
  not_sent_before [] h = tt
  not_sent_before (p ∷ log) h = (
    (λ e.
        let spent = subst (IsSpent db) e h.0 in
        let passed =
          All-at (IsPassed job.id job.attempt_count) job db.message_jobs stored spent.passed refl in
        absurd (ground (arith, passed.1 refl, tested))),
    not_sent_before log h.1,
  )

All-IsSpent :
    (a : Action) (db : Db) (log : List (ℕ × ℕ))
    → IsSound db
    → All (IsSpent db) log
    → All (IsSpent (perform a db)) log
All-IsSpent a db log s h = All-weaken (λ p spent. perform-IsSpent a db p s spent) log h

-- What is known of the log of sends: no attempt is in it twice, and all in it are spent.
abbrev IsHistory : Db → List (ℕ × ℕ) → Type 0
IsHistory db log = IsUnique log × All (IsSpent db) log

start-IsHistory :
    (now id : ℕ) (w : String) (db : Db) (log : List (ℕ × ℕ))
    → IsSound db
    → IsHistory db log
    → IsHistory (perform (start_sending now id w) db) (dispatch (start_sending now id w) db log)
unfolding dispatch
start-IsHistory now id w db log s h = elim (Bool-cases (mark_sending now id w db).0) [
  | inr e ↦ rw e (h.0, All-IsSpent (start_sending now id w) db log s h.1)
  | inl e ↦ rw e (by_row (find_where (sending_test id w) db.message_jobs) refl)
]
  where
    by_row :
        (row : Option MessageJob)
        → find_where (sending_test id w) db.message_jobs ≡ row
        → IsHistory (perform (start_sending now id w) db) (dispatched_row row log)
    by_row none f = (h.0, All-IsSpent (start_sending now id w) db log s h.1)
    by_row (some job) f = (
      (not_sent_before now id w db job s f log h.1, h.0),
      (newly-IsSpent now id w db job s f, All-IsSpent (start_sending now id w) db log s h.1),
    )

dispatch-IsHistory :
    (a : Action) (db : Db) (log : List (ℕ × ℕ))
    → IsSound db
    → IsHistory db log
    → IsHistory (perform a db) (dispatch a db log)
unfolding dispatch
dispatch-IsHistory (start_sending now id w) db log s h = start-IsHistory now id w db log s h
dispatch-IsHistory a db log s h = (h.0, All-IsSpent a db log s h.1)

dispatches-IsHistory :
    (actions : List Action) (db : Db) (log : List (ℕ × ℕ))
    → IsSound db
    → IsHistory db log
    → IsUnique (dispatches actions db log)
unfolding dispatches
dispatches-IsHistory [] db log s h = h.0
dispatches-IsHistory (a ∷ rest) db log s h =
    dispatches-IsHistory rest (perform a db) (dispatch a db log) (perform-IsSound a db s)
      (dispatch-IsHistory a db log s h)

-- From sound tables, in every run of claims, sends, callbacks, recoveries, operators' retries and
-- opt-outs, by any workers and in any order, no attempt of a job is given leave to send twice.
pub dispatches-IsUnique :
    (actions : List Action) (db : Db) → IsSound db → IsUnique (dispatches actions db [])
dispatches-IsUnique actions db s = dispatches-IsHistory actions db [] s (tt, tt)
