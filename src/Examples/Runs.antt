-- ===== src/Examples/Runs.antt =====
-- Runs of the queue.
use text.Mathlib.TextEquality.{eq_iff}
use poolbrian_sms_automation.Prelude.{
  ℕ, ◌≡◌, ◌≢◌, refl, false, String, some, List, [], ◌∷◌, arith, All, IsUnique, find_where,
  contains_key, select_where, update_where, count_where, take_text,
}
use poolbrian_sms_automation.Store.{Db, MessageJob, JobStatus}
use poolbrian_sms_automation.Jobs.Claim.{
  claim_message_jobs, claimed_jobs, due_jobs, before, is_due, suppressed_for, campaign_open,
  recorded_attempt_count, lease_job, insert_attempts, attempt_taken,
}
use poolbrian_sms_automation.Jobs.Lease.{
  mark_sending, mark_accepted, accept_job, fail_message_job, fail_job, fail_attempt,
  current_attempt, sending_test,
}
use poolbrian_sms_automation.Jobs.Recovery.{withdraw_job}
use poolbrian_sms_automation.Jobs.Coherent.{IsCoherent}
use poolbrian_sms_automation.Queue.{
  Action, claim, start_sending, accept, fail, prefer, perform, dispatches, dispatch, run,
}
use poolbrian_sms_automation.Queue.Sound.{IsSound, run-IsSound}
use poolbrian_sms_automation.Queue.Rows.{Progress, perform-Progress, grant_of}
use poolbrian_sms_automation.Queue.OptOut.{opted_out-not_sent}
use poolbrian_sms_automation.Preferences.{
  sent_to, save_preference, store_preference, upsert_preference,
}
use poolbrian_sms_automation.Queue.Dispatch.{dispatches-IsUnique}
use poolbrian_sms_automation.Queue.Settled.{Settled-not_dispatched}
use poolbrian_sms_automation.Examples.Tables.{
  queued_job, with_jobs, two_jobs, request, acceptance, network_error, stop,
}

queued_job-IsCoherent : (id : ℕ) (key : String) → IsCoherent (queued_job id key)
queued_job-IsCoherent id key = ground arith

pub two_jobs-IsSound : IsSound two_jobs
two_jobs-IsSound = record {
  unique_ids = ground arith;
  unique_keys = ground (arith, eq_iff "a" "b", eq_iff "b" "a");
  below_seq = omega arith;
  coherent = (queued_job-IsCoherent 1 "a", (queued_job-IsCoherent 2 "b", tt));
}

-- What a test by evaluation opens.
unfoldable pub queue_code : Unit {0}
unfolding claim_message_jobs claimed_jobs due_jobs before is_due suppressed_for campaign_open
    recorded_attempt_count lease_job contains_key insert_attempts attempt_taken mark_sending
    mark_accepted accept_job fail_message_job fail_job fail_attempt current_attempt take_text
    select_where update_where find_where count_where
queue_code = tt

-- The first send fails for the network, the job is claimed again, and the second is accepted.
abbrev script : List Action
script =
    claim request 100 (λ id. false)
    ∷ start_sending 101 1 "w1"
    ∷ fail 102 1 "w1" network_error
    ∷ claim request 500 (λ id. false)
    ∷ claim request 500 (λ id. false)
    ∷ start_sending 501 1 "w1"
    ∷ start_sending 502 1 "w1"
    ∷ accept 503 1 "w1" acceptance
    ∷ []

script-dispatches : dispatches script two_jobs [] ≡ (1, 2) ∷ (1, 1) ∷ []
unfolding dispatches dispatch perform queue_code
script-dispatches = refl

dispatches-IsUnique_example : IsUnique (dispatches script two_jobs [])
dispatches-IsUnique_example = dispatches-IsUnique script two_jobs two_jobs-IsSound

run-IsSound_example : IsSound (run script two_jobs)
run-IsSound_example = run-IsSound script two_jobs two_jobs-IsSound

perform-Progress_example :
    Progress
      (grant_of (claim request 100 (λ id. false)) two_jobs)
      two_jobs
      (perform (claim request 100 (λ id. false)) two_jobs)
perform-Progress_example =
    perform-Progress (claim request 100 (λ id. false)) two_jobs two_jobs-IsSound.unique_ids

-- The second job goes to another phone.
abbrev pub other_job : MessageJob
other_job = record (queued_job 2 "b") { destination_normalized = some "+18135550111" }

abbrev pub two_phones : Db
two_phones = with_jobs (queued_job 1 "a" ∷ other_job ∷ []) 3

pub two_phones-IsSound : IsSound two_phones
two_phones-IsSound = record {
  unique_ids = ground arith;
  unique_keys = ground (arith, eq_iff "a" "b", eq_iff "b" "a");
  below_seq = omega arith;
  coherent = (queued_job-IsCoherent 1 "a", ((unfold lease_job in ground arith), tt));
}

abbrev pub claim_both : List Action
claim_both = claim (record request { limit = 2 }) 100 (λ id. false) ∷ start_sending 101 1 "w1" ∷ []

abbrev pub leased_other : MessageJob
leased_other = record other_job {
  status = JobStatus.leased;
  attempt_count = 1;
  locked_at = some 100;
  locked_by = some "w1";
  lease_expires_at = some 600000100;
  updated_at = 100;
}

other_found :
    find_where
      (sending_test 2 "w1")
      (run claim_both (perform (prefer 60 stop) two_phones)).message_jobs
    ≡ some leased_other
unfolding run perform queue_code save_preference store_preference upsert_preference withdraw_job
other_found = refl

opted_out-not_sent_example : sent_to stop.channel stop.destination leased_other ≡ false
opted_out-not_sent_example =
    opted_out-not_sent 60 stop claim_both two_phones refl two_phones-IsSound (refl, (refl, tt)) 2
      "w1" leased_other other_found

abbrev delivered_job : MessageJob
delivered_job = record (queued_job 1 "a") {
  status = JobStatus.delivered;
  attempt_count = 1;
  provider = some "twilio";
  provider_message_id = some "SM1";
  provider_status_rank = 100;
  accepted_at = some 80;
  delivered_at = some 90;
}

abbrev delivered_and_queued : Db
delivered_and_queued = with_jobs (delivered_job ∷ queued_job 2 "b" ∷ []) 3

delivered_and_queued-IsSound : IsSound delivered_and_queued
delivered_and_queued-IsSound = record {
  unique_ids = ground arith;
  unique_keys = ground (arith, eq_iff "a" "b", eq_iff "b" "a");
  below_seq = omega arith;
  coherent = (ground arith, (queued_job-IsCoherent 2 "b", tt));
}

Settled-not_dispatched_example :
    All (λ sent. sent.0 ≢ 1) (dispatches claim_both delivered_and_queued [])
Settled-not_dispatched_example =
    Settled-not_dispatched 1 claim_both delivered_and_queued (refl, (refl, tt))
      delivered_and_queued-IsSound
      (record { known = omega arith; settled = ((λ e. refl), ((λ e. absurd (omega arith)), tt)) })
