-- ===== src/Jobs/Attempts.antt =====
-- The attempts that a claim records are new: the UNIQUE constraint of message_attempts never fails.
use mathlib.Core.List.{append-nil, append_assoc}
use poolbrian_sms_automation.Prelude.{
  ℕ, ◌<◌, ◌≡◌, refl, ap, sym, Bool, false, some, List, [], ◌∷◌, ◌++◌, map, arith, All, All-append,
  Fresh, IsUnique, subst, ◌∙◌,
}
use poolbrian_sms_automation.Store.{Db, MessageJob, MessageAttempt}
use poolbrian_sms_automation.Jobs.Claim.{
  ClaimRequest, due_jobs, lease_job, lease_due, attempt_taken, insert_attempts, new_attempt,
  recorded_attempt_count, claimed_jobs, claim_message_jobs,
}
use poolbrian_sms_automation.Jobs.Due.{IsUnique-due_jobs}

-- The job's recorded attempts have numbers below `n`.
abbrev pub IsBelow : ℕ → ℕ → MessageAttempt → Type 0
IsBelow job_id n a = a.message_job_id ≡ job_id → a.attempt_number < n

not-taken_of_below :
    (job_id n : ℕ) (l : List MessageAttempt)
    → All (IsBelow job_id n) l
    → attempt_taken job_id n l ≡ false
unfolding attempt_taken
not-taken_of_below job_id n [] h = refl
not-taken_of_below job_id n (a ∷ rest) h = grind (arith, not-taken_of_below job_id n rest h.1, h.0)

IsBelow-recorded :
    (job_id n : ℕ) (l : List MessageAttempt)
    → recorded_attempt_count job_id l < n
    → All (IsBelow job_id n) l
unfolding recorded_attempt_count
IsBelow-recorded job_id n [] h = tt
IsBelow-recorded job_id n (a ∷ rest) h =
    ((λ e. ground arith), IsBelow-recorded job_id n rest (ground arith))

-- The selected rows, leased: none of their numbers is recorded yet.
leased-IsBelow :
    (r : ClaimRequest) (now : ℕ) (db : Db) (due : List MessageJob)
    → All
        (λ j. All (IsBelow j.id j.attempt_count) db.message_attempts)
        (map (lease_job r now db) due)
unfolding lease_job
leased-IsBelow r now db [] = tt
leased-IsBelow r now db (x ∷ xs) =
    (IsBelow-recorded x.id _ db.message_attempts (omega arith), leased-IsBelow r now db xs)

leased_ids :
    (r : ClaimRequest) (now : ℕ) (db : Db) (due : List MessageJob)
    → map MessageJob.id (map (lease_job r now db) due) ≡ map MessageJob.id due
unfolding lease_job
leased_ids r now db [] = refl
leased_ids r now db (x ∷ xs) = ap (λ t. x.id ∷ t) (leased_ids r now db xs)

-- One more recorded attempt of another job changes nothing for the jobs that are left.
IsBelow-snoc :
    (r : ClaimRequest) (now : ℕ) (job : MessageJob) (attempts : List MessageAttempt)
    (rest : List MessageJob)
    → Fresh job.id (map MessageJob.id rest)
    → All (λ j. All (IsBelow j.id j.attempt_count) attempts) rest
    → All (λ j. All (IsBelow j.id j.attempt_count) (attempts ++ new_attempt r now job ∷ [])) rest
IsBelow-snoc r now job attempts [] f h = tt
IsBelow-snoc r now job attempts (x ∷ rest) f h = (
  All-append (IsBelow x.id x.attempt_count) attempts _ h.0 ((λ e. absurd (f.0 (sym e))), tt),
  IsBelow-snoc r now job attempts rest f.1 h.1,
)

insert_attempts_lem :
    (r : ClaimRequest) (now : ℕ) (jobs : List MessageJob) (attempts : List MessageAttempt)
    → IsUnique (map MessageJob.id jobs)
    → All (λ j. All (IsBelow j.id j.attempt_count) attempts) jobs
    → insert_attempts r now jobs attempts ≡ some (attempts ++ map (new_attempt r now) jobs)
unfolding insert_attempts
insert_attempts_lem r now [] attempts u h = rw append-nil
insert_attempts_lem r now (job ∷ rest) attempts u h =
    rw (not-taken_of_below job.id job.attempt_count attempts h.0) (
      insert_attempts_lem r now rest (attempts ++ new_attempt r now job ∷ []) u.1
        (IsBelow-snoc r now job attempts rest u.0 h.1)
      ∙ ap some (append_assoc attempts (new_attempt r now job ∷ []) _))

-- Where the ids are unique, a claim always succeeds: it returns the selected jobs leased, and
-- records one new attempt for each of them behind the attempts that were there.
pub claim_message_jobs_lem :
    (r : ClaimRequest) (now : ℕ) (held : ℕ → Bool) (db : Db)
    → IsUnique (map MessageJob.id db.message_jobs)
    → claim_message_jobs r now held db
      ≡ some (
        claimed_jobs r now held db,
        record (lease_due r now held db) {
          message_attempts =
              db.message_attempts ++ map (new_attempt r now) (claimed_jobs r now held db);
        },
      )
unfolding claim_message_jobs claimed_jobs
claim_message_jobs_lem r now held db u =
    let due = due_jobs r now held db in
    rw (
      insert_attempts_lem r now (map (lease_job r now db) due) db.message_attempts
        (subst IsUnique (sym (leased_ids r now db due)) (IsUnique-due_jobs r now held db u))
        (leased-IsBelow r now db due))
