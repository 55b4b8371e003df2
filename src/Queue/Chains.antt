-- ===== src/Queue/Chains.antt =====
-- The writes of several tables as chains of steps of the rows of message_jobs.
use poolbrian_sms_automation.Prelude.{
  ℕ, ◌≡◌, refl, String, Option, none, some, true, arith, Chain, done, next, Chain-trans,
  Moves-update_where, Bool-cases, inl, inr, ◌==◌,
}
use poolbrian_sms_automation.Store.{Db, MessageJob}
use poolbrian_sms_automation.Jobs.Coherent.{IsCoherent}
use poolbrian_sms_automation.Jobs.Edges.{Grant, RowMove, report}
use poolbrian_sms_automation.Jobs.RowSteps.{RowStep, RowStep-refl, withdraw_job-RowStep}
use poolbrian_sms_automation.Jobs.Recovery.{withdraw_job}
use poolbrian_sms_automation.Preferences.{
  PreferenceChange, save_preference, store_preference, withdraw_test, record_permanent_bounce,
  bounce_job, bounce_latest, bounce_change,
}
use poolbrian_sms_automation.Campaigns.Cancel.{cancel_campaign_jobs, campaign_test}
use poolbrian_sms_automation.Prelude.{find_where, inl, inr, refl}
use poolbrian_sms_automation.Store.{NoticeCampaign}
use poolbrian_sms_automation.Jobs.Edges.{stay}
use poolbrian_sms_automation.Jobs.Recovery.{is_pending}
use poolbrian_sms_automation.Notices.{
  cancel_service_notice_campaign, cancel_found, open_notice, notice_job_test,
}
use poolbrian_sms_automation.Retention.{scrub_forwarded, forwarded_test, scrub_job}

pub save_preference-Chain :
    {g : Grant} (now : ℕ) (c : PreferenceChange) (db : Db)
    → Chain (RowStep g) db.message_jobs (save_preference now c db).message_jobs
unfolding save_preference store_preference
save_preference-Chain {g} now c db = elim (Bool-cases c.suppressed) [
  | inl e ↦ rw e (
      next
        (Moves-update_where (RowStep g) RowStep-refl (withdraw_test c.channel c.destination)
          (withdraw_job now c.reason) (λ x h. withdraw_job-RowStep now c.reason x (ground arith))
          db.message_jobs)
        done)
  | inr e ↦ rw e done
]

bounce_job-RowMove : {g : Grant} (now : ℕ) (job : MessageJob) → RowMove g job (bounce_job now job)
unfolding bounce_job
bounce_job-RowMove now job = grind (arith, report)

bounce_job-IsCoherent :
    (now : ℕ) (job : MessageJob) → IsCoherent job → IsCoherent (bounce_job now job)
unfolding bounce_job
bounce_job-IsCoherent now job h = ground arith

bounce_job-RowStep : {g : Grant} (now : ℕ) (job : MessageJob) → RowStep g job (bounce_job now job)
bounce_job-RowStep now job = record {
  move = bounce_job-RowMove now job;
  keeps = bounce_job-IsCoherent now job;
}

bounce_latest-Chain :
    {g : Grant} (now : ℕ) (db : Db) (latest : Option MessageJob)
    → Chain (RowStep g) db.message_jobs (bounce_latest now db latest).message_jobs
bounce_latest-Chain {g} now db none = done
bounce_latest-Chain {g} now db (some latest) =
    next
      (Moves-update_where (RowStep g) RowStep-refl (λ job. job.id == latest.id) (bounce_job now)
        (λ x h. bounce_job-RowStep now x) db.message_jobs)
      done

pub record_permanent_bounce-Chain :
    {g : Grant} (now : ℕ) (destination message_id : String) (db : Db)
    → Chain
        (RowStep g)
        db.message_jobs
        (record_permanent_bounce now destination message_id db).message_jobs
unfolding record_permanent_bounce
record_permanent_bounce-Chain now destination message_id db =
    Chain-trans (save_preference-Chain now (bounce_change destination message_id) db)
      (bounce_latest-Chain now _ _)

pub cancel_campaign_jobs-Chain :
    {g : Grant} (now id : ℕ) (reason : String) (db : Db)
    → Chain (RowStep g) db.message_jobs (cancel_campaign_jobs now id reason db).message_jobs
unfolding cancel_campaign_jobs
cancel_campaign_jobs-Chain {g} now id reason db =
    next
      (Moves-update_where (RowStep g) RowStep-refl (campaign_test id) (withdraw_job now reason)
        (λ x h. withdraw_job-RowStep now reason x (ground arith)) db.message_jobs)
      done

pending_of_notice :
    (id : ℕ) (db : Db) (job : MessageJob)
    → notice_job_test id db job ≡ true
    → is_pending job.status ≡ true
unfolding notice_job_test
pending_of_notice id db job h = ground arith

pub cancel_service_notice_campaign-Chain :
    {g : Grant} (now id : ℕ) (db : Db)
    → Chain (RowStep g) db.message_jobs (cancel_service_notice_campaign now id db).1.message_jobs
unfolding cancel_service_notice_campaign
cancel_service_notice_campaign-Chain {g} now id db =
    found (find_where (open_notice id) db.service_notice_campaigns)
  where
    found :
        (o : Option NoticeCampaign)
        → Chain (RowStep g) db.message_jobs (cancel_found now id db o).1.message_jobs
    found none = done
    found (some c) =
        next
          (Moves-update_where (RowStep g) RowStep-refl (notice_job_test id db)
            (withdraw_job now "service notice campaign cancelled")
            (λ x h. withdraw_job-RowStep now _ x (pending_of_notice id db x h)) db.message_jobs)
          done

scrub_job-RowStep : {g : Grant} (now : ℕ) (job : MessageJob) → RowStep g job (scrub_job now job)
scrub_job-RowStep now job = record {
  move = record {
    same_id = refl;
    same_key = refl;
    same_channel = refl;
    same_destination = refl;
    edge = stay refl;
    counted = omega arith;
    leased_anew = λ h. inr (h, refl);
  };
  keeps = λ h. ground arith;
}

pub scrub_forwarded-Chain :
    {g : Grant} (now days : ℕ) (db : Db)
    → Chain (RowStep g) db.message_jobs (scrub_forwarded now days db).message_jobs
unfolding scrub_forwarded
scrub_forwarded-Chain {g} now days db =
    next
      (Moves-update_where (RowStep g) RowStep-refl (forwarded_test now days) (scrub_job now)
        (λ x h. scrub_job-RowStep now x) db.message_jobs)
      done
