-- ===== src/Jobs/Served.antt =====
-- Which jobs a claim leaves waiting: those that are behind as many as it may take.

use poolbrian_sms_automation.Prelude.{
  ℕ, suc, ◌∙◌, ◌≡◌, refl, ap, ◌⊎◌, inl, inr, Bool, true, false, some, List, [], ◌∷◌, map, arith,
  All, Has, here, there, IsUnique, length, IsOrder, IsServed-select_due,
}
use poolbrian_sms_automation.Store.{Db, MessageJob}
use poolbrian_sms_automation.Jobs.Claim.{
  ClaimRequest, is_due, before, due_jobs, claimed_jobs, lease_job, claim_message_jobs,
}
use poolbrian_sms_automation.Jobs.Attempts.{claim_message_jobs_lem}

before-IsOrder : IsOrder before
unfolding before
before-IsOrder = record { total = λ a b h. ground arith; transitive = λ a b c h k. ground arith }

-- Leasing keeps the order and the length.
leased_before :
    (r : ClaimRequest) (now : ℕ) (db : Db) (job : MessageJob) (jobs : List MessageJob)
    → All (λ j. before j job ≡ true) jobs
    → All (λ j. before j job ≡ true) (map (lease_job r now db) jobs)
unfolding lease_job before
leased_before r now db job [] h = tt
leased_before r now db job (j ∷ jobs) h = (h.0, leased_before r now db job jobs h.1)

leased_length :
    (r : ClaimRequest) (now : ℕ) (db : Db) (jobs : List MessageJob)
    → length (map (lease_job r now db) jobs) ≡ length jobs
leased_length r now db [] = refl
leased_length r now db (j ∷ jobs) = ap suc (leased_length r now db jobs)

leased_Has :
    (r : ClaimRequest) (now : ℕ) (db : Db) (job : MessageJob) (jobs : List MessageJob)
    → Has job jobs
    → Has (lease_job r now db job) (map (lease_job r now db) jobs)
leased_Has r now db job [] m = elim m [ ]
leased_Has r now db job (j ∷ jobs) (here e) = here (ap (lease_job r now db) e)
leased_Has r now db job (j ∷ jobs) (there m) = there (leased_Has r now db job jobs m)

-- The job is among the claimed ones, or as many as the limit were claimed, none scheduled later.
abbrev pub IsClaimed : ClaimRequest → ℕ → Db → MessageJob → List MessageJob → Type 0
IsClaimed r now db job claimed =
    Has (lease_job r now db job) claimed
    ⊎ ((length claimed ≡ r.limit) × All (λ j. before j job ≡ true) claimed)

-- Where the ids are unique, a claim gives a result, and a job that is due and that no other
-- transaction holds is leased by it, unless as many jobs as the limit were, each of them in the
-- order of `scheduled_at, id` no later than the job.
pub claim_message_jobs-IsClaimed :
    (r : ClaimRequest) (now : ℕ) (held : ℕ → Bool) (db : Db) (job : MessageJob)
    → IsUnique (map MessageJob.id db.message_jobs)
    → Has job db.message_jobs
    → is_due r now db job ≡ true
    → held job.id ≡ false
    → (found : List MessageJob × Db) × (claim_message_jobs r now held db ≡ some found)
      × IsClaimed r now db job found.0
unfolding claimed_jobs due_jobs
claim_message_jobs-IsClaimed r now held db job u m d f =
    let claimed = claim_message_jobs_lem r now held db u in
    let due = due_jobs r now held db in
    (
      _,
      claimed,
      elim (IsServed-select_due before before-IsOrder (is_due r now db) MessageJob.id held r.limit
          db.message_jobs job (record { stored = m; due = d; free = f })) [
            | inl found ↦ inl (leased_Has r now db job due found)
            | inr full ↦
                inr (leased_length r now db due ∙ full.0, leased_before r now db job due full.1)
          ],
    )
