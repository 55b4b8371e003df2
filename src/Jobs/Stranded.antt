-- ===== src/Jobs/Stranded.antt =====
-- A send whose callback comes before its acceptance is recorded (`mark_accepted` of
-- app/repositories/jobs.py).
use poolbrian_sms_automation.Prelude.{ℕ, ◌<◌, ◌≡◌, String, true, false, arith}
use poolbrian_sms_automation.Store.{MessageJob}
use poolbrian_sms_automation.Jobs.Lease.{Acceptance, accept_job, is_sending, owned}
use poolbrian_sms_automation.Jobs.Recovery.{stale_test, is_pending, is_failed_or_dead}

-- Where a callback has given a job that is still sending a rank above that of its acceptance, the
-- acceptance leaves the job sending with neither owner nor expiry: no recovery at any later time
-- meets it, no worker owns it, and it is neither queued, waiting for a retry, leased, failed nor dead.
pub accept_job-stranded :
    (now : ℕ) (a : Acceptance) (job : MessageJob)
    → is_sending job.status ≡ true
    → a.status_rank < job.provider_status_rank
    → let after = accept_job now a job in
      (is_sending after.status ≡ true)
      × ((later : ℕ) → stale_test later after ≡ false)
      × ((id : ℕ) (w : String) → owned id w after ≡ false)
      × (is_pending after.status ≡ false)
      × (is_failed_or_dead after.status ≡ false)
unfolding accept_job
accept_job-stranded now a job s r =
    (ground arith, (λ later. ground arith), (λ id w. ground arith), ground arith, ground arith)
