-- ===== src/Queue/Rows.antt =====
-- What every action does to the rows of the queue: it takes the rows that are there along the
-- state machine, and may add one new row behind them.
use poolbrian_sms_automation.Prelude.{
  ℕ, ◌+◌, ◌≤◌, ◌≡◌, refl, ap, not, Bool, true, false, List, [], ◌∷◌, ◌++◌, map, arith, IsUnique,
  Chain, done, next, Bool-cases, inl, inr,
}
use poolbrian_sms_automation.Store.{Db, MessageJob, JobStatus}
use poolbrian_sms_automation.Jobs.Claim.{ClaimRequest, claim_message_jobs, suppressed_for, is_due}
use poolbrian_sms_automation.Jobs.Due.{unsuppressed_of_due}
use poolbrian_sms_automation.Jobs.Attempts.{claim_message_jobs_lem}
use poolbrian_sms_automation.Jobs.Coherent.{IsCoherent}
use poolbrian_sms_automation.Jobs.Edges.{Grant}
use poolbrian_sms_automation.Jobs.RowSteps.{RowStep}
use poolbrian_sms_automation.Jobs.Steps.{
  mark_sending-JobsMove, mark_accepted-JobsMove, fail_message_job-JobsMove,
  mark_delivery_unknown-JobsMove, recover_stale_message_jobs-JobsMove, cancel_message_job-JobsMove,
  retry_dead_or_failed_job-JobsMove, cancel_suppressed_queued_jobs-JobsMove,
  claim_message_jobs-JobsMove, record_provider_event-Chain,
}
use poolbrian_sms_automation.Jobs.Enqueue.{NewJob, insert_message_job, key_taken, new_row}
use poolbrian_sms_automation.Jobs.Lease.{mark_sending}
use poolbrian_sms_automation.Jobs.Recovery.{
  recover_stale_message_jobs, cancel_message_job, retry_dead_or_failed_job,
  cancel_suppressed_queued_jobs,
}
use poolbrian_sms_automation.Campaigns.Cancel.{cancel_campaign_jobs}
use poolbrian_sms_automation.Queue.{
  Action, claim, start_sending, accept, fail, lose, recover, cancel, retry, callback, sweep,
  enqueue, prefer, bounce, cancel_campaign, perform, claimed_db,
}
use poolbrian_sms_automation.Queue.Sequences.{
  seq_mark_accepted, seq_fail_message_job, seq_mark_delivery_unknown, seq_record_provider_event,
  seq_save_preference, seq_record_permanent_bounce,
}
use poolbrian_sms_automation.Queue.Chains.{
  save_preference-Chain, record_permanent_bounce-Chain, cancel_campaign_jobs-Chain,
}
use poolbrian_sms_automation.Queue.Chains.{
  cancel_service_notice_campaign-Chain, scrub_forwarded-Chain,
}
use poolbrian_sms_automation.Queue.Sequences.{seq_cancel_notice}
use poolbrian_sms_automation.Queue.{cancel_notice, change_campaigns, expire}
use poolbrian_sms_automation.Retention.{delete_attempts, scrub_forwarded}

-- A job whose recipient has not opted out.
abbrev pub unsuppressed : Db → MessageJob → Bool
unsuppressed db job =
    not (suppressed_for db.communication_preferences job.channel job.destination_normalized)

-- `retry_dead_or_failed_job` alone, which the admin pages call, requeues; a claim alone leases, and
-- only jobs to recipients that have not opted out.
abbrev pub grant_of : Action → Db → Grant
grant_of (retry now id) db = record { operator = true; may_lease = λ job. false }
grant_of (claim r now held) db = record { operator = false; may_lease = unsuppressed db }
grant_of _ db = record { operator = false; may_lease = λ job. false }

-- How an action ends: with the rows that were there, or with a new row behind them that takes
-- the next id of the sequence and a key that no row had.
pub data Growth (before after : Db) (middle : List MessageJob) : Type 0 where
  kept :
      after.message_jobs ≡ middle
      → before.message_job_seq ≤ after.message_job_seq
      → Growth before after middle
  added :
      (row : MessageJob)
      → after.message_jobs ≡ middle ++ row ∷ []
      → row.id ≡ before.message_job_seq
      → after.message_job_seq ≡ before.message_job_seq + 1
      → row.status ≡ JobStatus.queued
      → row.attempt_count ≡ 0
      → IsCoherent row
      → key_taken row.idempotency_key before.message_jobs ≡ false
      → Growth before after middle

pub record Progress (g : Grant) (before after : Db) : Type 0 where
  pub middle : List MessageJob
  pub rows : Chain (RowStep g) before.message_jobs middle
  pub growth : Growth before after middle

updated :
    {g : Grant} {before after : Db}
    → Chain (RowStep g) before.message_jobs after.message_jobs
    → after.message_job_seq ≡ before.message_job_seq
    → Progress g before after
updated {after} c e = record {
  middle = after.message_jobs;
  rows = c;
  growth = kept refl (omega arith);
}

new_row-IsCoherent : (now id : ℕ) (n : NewJob) → IsCoherent (new_row now id n)
unfolding new_row
new_row-IsCoherent now id n = ground arith

insert_message_job-Progress :
    {g : Grant} (now : ℕ) (n : NewJob) (db : Db) → Progress g db (insert_message_job now n db).1
unfolding insert_message_job
insert_message_job-Progress now n db =
    elim (Bool-cases (key_taken n.idempotency_key db.message_jobs)) [
      | inl e ↦
          rw e (record { middle = db.message_jobs; rows = done; growth = kept refl (omega arith) })
      | inr e ↦ rw e (record {
        middle = db.message_jobs;
        rows = done;
        growth =
            added (new_row now db.message_job_seq n) refl refl refl refl refl
              (new_row-IsCoherent now db.message_job_seq n) e;
      })
    ]

may_lease_due :
    (r : ClaimRequest) (now : ℕ) (db : Db) (job : MessageJob)
    → is_due r now db job ≡ true
    → unsuppressed db job ≡ true
may_lease_due r now db job h = ap not (unsuppressed_of_due r now db job h)

claim-Progress :
    (r : ClaimRequest) (now : ℕ) (held : ℕ → Bool) (db : Db)
    → IsUnique (map MessageJob.id db.message_jobs)
    → Progress
        (grant_of (claim r now held) db)
        db
        (claimed_db db (claim_message_jobs r now held db))
claim-Progress r now held db u =
    let e = claim_message_jobs_lem r now held db u in
    rw e (
      updated
        (next (claim_message_jobs-JobsMove r now held db _ _ u (may_lease_due r now db) e) done)
        refl)

-- Each action, on tables with unique job ids, moves every row of message_jobs by a chain of steps
-- that the state machine of jobs allows, and at most adds one queued row behind them with the next
-- id and a key that no row has.
pub perform-Progress :
    (a : Action) (db : Db)
    → IsUnique (map MessageJob.id db.message_jobs)
    → Progress (grant_of a db) db (perform a db)
unfolding perform
perform-Progress (claim r now held) db u = claim-Progress r now held db u
perform-Progress (start_sending now id w) db u =
    updated (next (mark_sending-JobsMove now id w db) done) (unfold mark_sending in refl)
perform-Progress (accept now id w a) db u =
    updated (next (mark_accepted-JobsMove now id w a db) done) (seq_mark_accepted now id w a db)
perform-Progress (fail now id w f) db u =
    updated (next (fail_message_job-JobsMove now id w f db) done)
      (seq_fail_message_job now id w f db)
perform-Progress (lose now id w error code) db u =
    updated (next (mark_delivery_unknown-JobsMove now id w error code db) done)
      (seq_mark_delivery_unknown now id w error code db)
perform-Progress (recover now) db u =
    updated (next (recover_stale_message_jobs-JobsMove now db) done)
      (unfold recover_stale_message_jobs in refl)
perform-Progress (cancel now id w reason) db u =
    updated (next (cancel_message_job-JobsMove now id w reason db) done)
      (unfold cancel_message_job in refl)
perform-Progress (retry now id) db u =
    updated (next (retry_dead_or_failed_job-JobsMove now id db refl) done)
      (unfold retry_dead_or_failed_job in refl)
perform-Progress (callback now e) db u =
    updated (record_provider_event-Chain now e db) (seq_record_provider_event now e db)
perform-Progress (sweep now) db u =
    updated (next (cancel_suppressed_queued_jobs-JobsMove now db) done)
      (unfold cancel_suppressed_queued_jobs in refl)
perform-Progress (enqueue now n) db u = insert_message_job-Progress now n db
perform-Progress (prefer now c) db u =
    updated (save_preference-Chain now c db) (seq_save_preference now c db)
perform-Progress (bounce now destination message_id) db u =
    updated (record_permanent_bounce-Chain now destination message_id db)
      (seq_record_permanent_bounce now destination message_id db)
perform-Progress (cancel_campaign now id reason) db u =
    updated (cancel_campaign_jobs-Chain now id reason db) (unfold cancel_campaign_jobs in refl)
perform-Progress (cancel_notice now id) db u =
    updated (cancel_service_notice_campaign-Chain now id db) (seq_cancel_notice now id db)
perform-Progress (change_campaigns campaigns) db u = updated done refl
perform-Progress (expire now content_days event_days) db u =
    updated (unfold delete_attempts in scrub_forwarded-Chain now content_days db)
      (unfold delete_attempts scrub_forwarded in refl)
