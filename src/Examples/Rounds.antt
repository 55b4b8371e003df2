-- ===== src/Examples/Rounds.antt =====
-- Claims of jobs, and rounds of the worker.
use poolbrian_sms_automation.Prelude.{
  ℕ, ◌≡◌, refl, true, false, String, none, some, [], ◌∷◌, ◌++◌, map, arith, IsUnique, find_where,
  count_where,
}
use poolbrian_sms_automation.Store.{Db, MessageJob, JobStatus}
use poolbrian_sms_automation.Jobs.Claim.{
  claim_message_jobs, claimed_jobs, is_due, lease_due, new_attempt,
}
use poolbrian_sms_automation.Jobs.Lease.{mark_sending, owned, accept_job, is_sending}
use poolbrian_sms_automation.Jobs.Recovery.{stale_test, is_pending, is_failed_or_dead}
use poolbrian_sms_automation.Jobs.Served.{IsClaimed, claim_message_jobs-IsClaimed}
use poolbrian_sms_automation.Prelude.{here, there, List, find_where}
use poolbrian_sms_automation.Jobs.Claim.{suppressed_for, campaign_open}
use poolbrian_sms_automation.Jobs.Attempts.{claim_message_jobs_lem}
use poolbrian_sms_automation.Jobs.Provider.{Callback, record_provider_event}
use poolbrian_sms_automation.Jobs.Callbacks.{record_provider_event_again}
use poolbrian_sms_automation.Jobs.Stranded.{accept_job-stranded}
use poolbrian_sms_automation.Preferences.{is_suppressed}
use poolbrian_sms_automation.Workers.{Worker, network_error, on_answer}
use poolbrian_sms_automation.Workers.Loop.{
  Turn, process_job, refused, with_token, after_render, send,
}
use poolbrian_sms_automation.Workers.Fates.{process_job-Released}
use poolbrian_sms_automation.Workers.Releases.{Released}
use poolbrian_sms_automation.Examples.Tables.{queued_job, with_jobs, two_jobs, request, acceptance}

two_ids-IsUnique : IsUnique (map MessageJob.id two_jobs.message_jobs)
two_ids-IsUnique = ground arith

claim_message_jobs_lem_example :
    claim_message_jobs request 100 (λ id. false) two_jobs
    ≡ some (
      claimed_jobs request 100 (λ id. false) two_jobs,
      record (lease_due request 100 (λ id. false) two_jobs) {
        message_attempts =
            [] ++ map (new_attempt request 100) (claimed_jobs request 100 (λ id. false) two_jobs);
      },
    )
claim_message_jobs_lem_example =
    claim_message_jobs_lem request 100 (λ id. false) two_jobs two_ids-IsUnique

-- The callback "sending", of rank 30, came before the acceptance, of rank 10.
abbrev early_callback_job : MessageJob
early_callback_job = record (queued_job 1 "a") {
  status = JobStatus.sending;
  attempt_count = 1;
  locked_at = some 100;
  locked_by = some "w1";
  lease_expires_at = some 600000100;
  provider = some "twilio";
  provider_message_id = some "SM1";
  provider_status = some "sending";
  provider_status_rank = 30;
  accepted_at = some 102;
}

accept_job-stranded_example :
    let after = accept_job 103 acceptance early_callback_job in
    (is_sending after.status ≡ true)
    × ((later : ℕ) → stale_test later after ≡ false)
    × ((id : ℕ) (w : String) → owned id w after ≡ false)
    × (is_pending after.status ≡ false)
    × (is_failed_or_dead after.status ≡ false)
accept_job-stranded_example =
    accept_job-stranded 103 acceptance early_callback_job refl (omega arith)

abbrev worker : Worker
worker = record { worker_id = "w1"; int_of_text = λ s. none; lower = λ s. s }

abbrev turn : Turn
turn = record {
  now = 101;
  fresh_token = "token";
  render_error = none;
  answer = network_error "timed out";
}

abbrev leased_job : MessageJob
leased_job = record (queued_job 1 "a") {
  status = JobStatus.leased;
  attempt_count = 1;
  locked_at = some 100;
  locked_by = some "w1";
  lease_expires_at = some 600000100;
}

abbrev one_leased : Db
one_leased = with_jobs (leased_job ∷ []) 2

lease_held : (mark_sending 101 1 "w1" one_leased).0 ≡ true
unfolding mark_sending count_where
lease_held = refl

none_accepted : (process_job worker turn leased_job one_leased).0.accepted ≡ 0
unfolding process_job refused after_render send on_answer with_token mark_sending count_where
    is_suppressed find_where
none_accepted = ground arith

process_job-Released_example : Released 1 "w1" (process_job worker turn leased_job one_leased).1
process_job-Released_example =
    process_job-Released worker turn leased_job one_leased lease_held none_accepted

abbrev delivered : Callback
delivered = record {
  provider = "twilio";
  provider_message_id = "SM1";
  status = "delivered";
  status_rank = 100;
  error_code = none;
  destination = none;
  message_job_id = none;
}

record_provider_event_again_example :
    let first = record_provider_event 200 delivered (with_jobs (early_callback_job ∷ []) 2) in
    let second = record_provider_event 300 delivered first.1 in
    (second.0 ≡ none) × (second.1.message_jobs ≡ first.1.message_jobs)
record_provider_event_again_example =
    record_provider_event_again 200 300 delivered (with_jobs (early_callback_job ∷ []) 2) refl refl

-- The limit is one job, and the other one is no later.
claim_message_jobs-IsClaimed_example :
    (found : List MessageJob × Db) × (claim_message_jobs request 100 (λ id. false) two_jobs
      ≡ some found)
    × IsClaimed request 100 two_jobs (queued_job 2 "b") found.0
unfolding is_due suppressed_for campaign_open find_where
claim_message_jobs-IsClaimed_example =
    claim_message_jobs-IsClaimed request 100 (λ id. false) two_jobs (queued_job 2 "b")
      two_ids-IsUnique (there (here refl)) refl refl
