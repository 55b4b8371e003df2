-- ===== src/Jobs/Due.antt =====
-- The jobs that `claim_message_jobs` selects: which they are.
use poolbrian_sms_automation.Prelude.{
  ℕ, ◌≡◌, Bool, true, false, map, arith, Has, IsUnique, contains_key, IsCandidate,
  IsUnique-select_due, selected-IsCandidate,
}
use poolbrian_sms_automation.Store.{Db, MessageJob}
use poolbrian_sms_automation.Jobs.Claim.{
  ClaimRequest, is_due, is_waiting, suppressed_for, before, due_jobs,
}

pub IsUnique-due_jobs :
    (r : ClaimRequest) (now : ℕ) (held : ℕ → Bool) (db : Db)
    → IsUnique (map MessageJob.id db.message_jobs)
    → IsUnique (map MessageJob.id (due_jobs r now held db))
unfolding due_jobs
IsUnique-due_jobs r now held db u =
    IsUnique-select_due (is_due r now db) MessageJob.id held before r.limit db.message_jobs u

pub leased-IsCandidate :
    (r : ClaimRequest) (now : ℕ) (held : ℕ → Bool) (db : Db) (job : MessageJob)
    → IsUnique (map MessageJob.id db.message_jobs)
    → Has job db.message_jobs
    → contains_key MessageJob.id job.id (due_jobs r now held db) ≡ true
    → IsCandidate (is_due r now db) MessageJob.id held db.message_jobs job
unfolding due_jobs
leased-IsCandidate r now held db =
    selected-IsCandidate (is_due r now db) MessageJob.id held before r.limit db.message_jobs

pub waiting_of_due :
    (r : ClaimRequest) (now : ℕ) (db : Db) (job : MessageJob)
    → is_due r now db job ≡ true
    → is_waiting job.status ≡ true
unfolding is_due
waiting_of_due r now db job h = ground arith

pub unsuppressed_of_due :
    (r : ClaimRequest) (now : ℕ) (db : Db) (job : MessageJob)
    → is_due r now db job ≡ true
    → suppressed_for db.communication_preferences job.channel job.destination_normalized ≡ false
unfolding is_due
unsuppressed_of_due r now db job h = ground arith
