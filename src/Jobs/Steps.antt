-- ===== src/Jobs/Steps.antt =====
-- Each operation of app/repositories/jobs.py takes the rows of the queue along the state machine
-- of Jobs/Edges.antt.
use poolbrian_sms_automation.Prelude.{
  ℕ, ◌≡◌, refl, inl, inr, Bool, true, String, Option, some, none, List, ◌==◌, arith, sym, subst,
  Moves, Moves-refl, Moves-update_where, Bool-cases, find_where, update_where, count_where,
  contains_key, Moves-update_where_All, All-weaken, All-Has_self, IsUnique, map, Chain, done, next,
}
use poolbrian_sms_automation.Store.{Db, MessageJob, MessageAttempt}
use poolbrian_sms_automation.Jobs.Claim.{
  ClaimRequest, is_due, lease_job, lease_due, finish_claim, due_jobs, claim_message_jobs,
}
use poolbrian_sms_automation.Jobs.Lease.{
  update_jobs, Acceptance, Failure, mark_sending, accept_job, mark_accepted, fail_job,
  fail_message_job, unknown_job, mark_delivery_unknown, sending_test, accepted_test, close_accepted,
  flight_test, close_failed, fail_attempt, unknown_test,
}
use poolbrian_sms_automation.Jobs.Recovery.{
  recover_job, recover_stale_message_jobs, cancel_job, cancel_message_job, requeue_job,
  retry_dead_or_failed_job, withdraw_job, cancel_suppressed_queued_jobs, stale_test, over_test,
  suppressed_test,
}
use poolbrian_sms_automation.Jobs.Provider.{
  Callback, bind_job, apply_event, copy_outcome, record_provider_event, bind_named, bind_test,
  copy_first, event_test, log_event,
}
use poolbrian_sms_automation.Jobs.Due.{leased-IsCandidate, waiting_of_due}
use poolbrian_sms_automation.Jobs.Edges.{Grant}
use poolbrian_sms_automation.Jobs.RowSteps.{
  start_job-RowStep, RowStep, RowStep-refl, lease_job-RowStep, accept_job-RowStep, fail_job-RowStep,
  unknown_job-RowStep, recover_job-RowStep, cancel_job-RowStep, requeue_job-RowStep,
  withdraw_job-RowStep, bind_job-RowStep, apply_event-RowStep,
}

-- How the queue's rows stand to each other before and after an operation.
abbrev pub JobsMove : Grant → Db → Db → Type 0
JobsMove g before after = Moves (RowStep g) before.message_jobs after.message_jobs

abbrev stand_still : {g : Grant} (db : Db) → JobsMove g db db
stand_still {g} db = Moves-refl (RowStep g) RowStep-refl db.message_jobs

abbrev moved :
    {g : Grant} (p : MessageJob → Bool) (f : MessageJob → MessageJob)
    → ((x : MessageJob) → p x ≡ true → RowStep g x (f x))
    → (jobs : List MessageJob) → Moves (RowStep g) jobs (update_where p f jobs)
moved {g} p f h jobs = Moves-update_where (RowStep g) RowStep-refl p f h jobs

pub mark_sending-JobsMove :
    {g : Grant} (now job_id : ℕ) (w : String) (db : Db)
    → JobsMove g db (mark_sending now job_id w db).1
unfolding mark_sending
mark_sending-JobsMove now job_id w db =
    moved (sending_test job_id w) _ (λ job h. start_job-RowStep now job (ground arith))
      db.message_jobs

close_accepted-JobsMove :
    {g : Grant} (now job_id : ℕ) (w : String) (a : Acceptance) (db : Db) (row : Option MessageJob)
    → JobsMove g db (close_accepted now job_id w a db row).1
close_accepted-JobsMove now job_id w a db none = stand_still db
close_accepted-JobsMove now job_id w a db (some job) =
    moved (accepted_test job_id w a) (accept_job now a)
      (λ x h. accept_job-RowStep now a x (ground arith)) db.message_jobs

pub mark_accepted-JobsMove :
    {g : Grant} (now job_id : ℕ) (w : String) (a : Acceptance) (db : Db)
    → JobsMove g db (mark_accepted now job_id w a db).1
unfolding mark_accepted
mark_accepted-JobsMove now job_id w a db = close_accepted-JobsMove now job_id w a db _

close_failed-JobsMove :
    {g : Grant} (now job_id : ℕ) (w : String) (f : Failure) (db : Db) (row : Option MessageJob)
    → JobsMove g db (close_failed now job_id w f db row).1
unfolding fail_attempt
close_failed-JobsMove now job_id w f db none = stand_still db
close_failed-JobsMove now job_id w f db (some job) =
    moved (flight_test job_id w) (fail_job now f) (λ x h. fail_job-RowStep now f x (ground arith))
      db.message_jobs

pub fail_message_job-JobsMove :
    {g : Grant} (now job_id : ℕ) (w : String) (f : Failure) (db : Db)
    → JobsMove g db (fail_message_job now job_id w f db).1
unfolding fail_message_job
fail_message_job-JobsMove now job_id w f db = close_failed-JobsMove now job_id w f db _

pub mark_delivery_unknown-JobsMove :
    {g : Grant} (now job_id : ℕ) (w error : String) (code : Option String) (db : Db)
    → JobsMove g db (mark_delivery_unknown now job_id w error code db).1
unfolding mark_delivery_unknown fail_attempt
mark_delivery_unknown-JobsMove now job_id w error code db =
    let update =
      moved (unknown_test job_id w) (unknown_job now error code)
        (λ x h. unknown_job-RowStep now error code x (ground arith)) db.message_jobs in
    elim (Bool-cases (count_where (unknown_test job_id w) db.message_jobs == 1)) [
      | inl e ↦ rw e update
      | inr e ↦ rw e update
    ]

pub recover_stale_message_jobs-JobsMove :
    {g : Grant} (now : ℕ) (db : Db) → JobsMove g db (recover_stale_message_jobs now db).1
unfolding recover_stale_message_jobs
recover_stale_message_jobs-JobsMove now db =
    moved (stale_test now) (recover_job now) (λ x h. recover_job-RowStep now x (ground arith))
      db.message_jobs

pub cancel_message_job-JobsMove :
    {g : Grant} (now job_id : ℕ) (w reason : String) (db : Db)
    → JobsMove g db (cancel_message_job now job_id w reason db)
unfolding cancel_message_job
cancel_message_job-JobsMove now job_id w reason db =
    moved (flight_test job_id w) (cancel_job now reason)
      (λ x h. cancel_job-RowStep now reason x (ground arith)) db.message_jobs

pub retry_dead_or_failed_job-JobsMove :
    {g : Grant} (now job_id : ℕ) (db : Db)
    → g.operator ≡ true
    → JobsMove g db (retry_dead_or_failed_job now job_id db).1
unfolding retry_dead_or_failed_job
retry_dead_or_failed_job-JobsMove now job_id db o =
    moved (over_test job_id) (requeue_job now) (λ x h. requeue_job-RowStep now x o (ground arith))
      db.message_jobs

pub cancel_suppressed_queued_jobs-JobsMove :
    {g : Grant} (now : ℕ) (db : Db) → JobsMove g db (cancel_suppressed_queued_jobs now db).1
unfolding cancel_suppressed_queued_jobs suppressed_test
cancel_suppressed_queued_jobs-JobsMove now db =
    moved (suppressed_test db) (withdraw_job now _)
      (λ x h. withdraw_job-RowStep now _ x (ground arith)) db.message_jobs

-- A claim leases only the rows that it selected.
lease-JobsMove :
    {g : Grant} (r : ClaimRequest) (now : ℕ) (held : ℕ → Bool) (db : Db)
    → IsUnique (map MessageJob.id db.message_jobs)
    → ((job : MessageJob) → is_due r now db job ≡ true → g.may_lease job ≡ true)
    → Moves (RowStep g) db.message_jobs (
        update_where
          (λ job. contains_key MessageJob.id job.id (due_jobs r now held db))
          (lease_job r now db)
          db.message_jobs)
lease-JobsMove {g} r now held db u may =
    Moves-update_where_All (RowStep g) RowStep-refl _ (lease_job r now db) db.message_jobs (
      All-weaken
        (λ job m c.
          let due = (leased-IsCandidate r now held db job u m c).due in
          lease_job-RowStep r now db job (waiting_of_due r now db job due) (may job due))
        db.message_jobs (All-Has_self db.message_jobs))

finish_claim-jobs :
    (db db' : Db) (claimed claimed' : List MessageJob) (o : Option (List MessageAttempt))
    → finish_claim db claimed o ≡ some (claimed', db')
    → db'.message_jobs ≡ db.message_jobs
finish_claim-jobs db db' claimed claimed' none h = cc
finish_claim-jobs db db' claimed claimed' (some attempts) h = ground arith

pub claim_message_jobs-JobsMove :
    {g : Grant} (r : ClaimRequest) (now : ℕ) (held : ℕ → Bool) (db db' : Db)
    (claimed : List MessageJob)
    → IsUnique (map MessageJob.id db.message_jobs)
    → ((job : MessageJob) → is_due r now db job ≡ true → g.may_lease job ≡ true)
    → claim_message_jobs r now held db ≡ some (claimed, db')
    → JobsMove g db db'
unfolding claim_message_jobs
claim_message_jobs-JobsMove {g} r now held db db' claimed u may h =
    subst (Moves (RowStep g) db.message_jobs)
      (sym (finish_claim-jobs (lease_due r now held db) db' _ claimed _ h))
      (lease-JobsMove r now held db u may)

copy_outcome-jobs :
    (now : ℕ) (e : Callback) (job : MessageJob) (db : Db)
    → (copy_outcome now e job db).message_jobs ≡ db.message_jobs
unfolding copy_outcome
copy_outcome-jobs now e job db = ground arith

copy_first-jobs :
    (now : ℕ) (e : Callback) (db : Db) (row : Option MessageJob)
    → (copy_first now e db row).1.message_jobs ≡ db.message_jobs
copy_first-jobs now e db none = refl
copy_first-jobs now e db (some job) = copy_outcome-jobs now e (apply_event now e job) db

bind_named-JobsMove :
    {g : Grant} (now : ℕ) (e : Callback) (id : Option ℕ) (db : Db)
    → JobsMove g db (bind_named now e id db)
bind_named-JobsMove now e none db = stand_still db
bind_named-JobsMove now e (some job_id) db =
    moved (bind_test job_id e) (bind_job now e) (λ x h. bind_job-RowStep now e x) db.message_jobs

-- The rows after a callback: they are bound first and then moved.
pub record_provider_event-Chain :
    {g : Grant} (now : ℕ) (e : Callback) (db : Db)
    → Chain (RowStep g) db.message_jobs (record_provider_event now e db).1.message_jobs
unfolding record_provider_event
record_provider_event-Chain now e db =
    let bound = bind_named now e e.message_job_id (log_event now e db) in
    let updated = update_jobs (event_test e) (apply_event now e) bound in
    next (bind_named-JobsMove now e e.message_job_id (log_event now e db)) (
      next
        (moved (event_test e) (apply_event now e) (λ x h. apply_event-RowStep now e x)
          bound.message_jobs)
        (rw (copy_first-jobs now e updated (find_where (event_test e) bound.message_jobs)) done))
