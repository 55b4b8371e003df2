-- ===== src/Campaigns/Workflow/Again.antt =====
-- A service or an alert that is reported twice.
use poolbrian_sms_automation.Prelude.{
  find_where-append_self, ℕ, ◌≡◌, refl, Option, none, some, true, false, String, arith, Bool-cases,
  inl, inr, is_some, find_where, ◌==◌, ap, ◌∙◌,
}
use poolbrian_sms_automation.Store.{Db, Campaign}
use poolbrian_sms_automation.Jobs.Enqueue.{NewJob, insert_message_job}
use poolbrian_sms_automation.Campaigns.Workflow.{
  Service, already_processed, same_record, store_processed_job, create_campaign,
  create_completed_service_workflow, insert_review_jobs, if_text, suppresses, after_service,
}
use poolbrian_sms_automation.Campaigns.Alerts.{WaterAlert, create_water_alert_job}

insert_message_job-processed_jobs :
    (now : ℕ) (n : NewJob) (db : Db)
    → (insert_message_job now n db).1.processed_jobs ≡ db.processed_jobs
unfolding insert_message_job
insert_message_job-processed_jobs now n db = ground arith

insert_message_job-processed_alerts :
    (now : ℕ) (n : NewJob) (db : Db)
    → (insert_message_job now n db).1.processed_alerts ≡ db.processed_alerts
unfolding insert_message_job
insert_message_job-processed_alerts now n db = ground arith

if_text-processed_jobs :
    (t : Option String) (f : String → Db → Db)
    → ((s : String) (db : Db) → (f s db).processed_jobs ≡ db.processed_jobs)
    → (db : Db) → (if_text t f db).processed_jobs ≡ db.processed_jobs
if_text-processed_jobs none f h db = refl
if_text-processed_jobs (some String.[]) f h db = refl
if_text-processed_jobs (some (String.◌∷◌ c s)) f h db = h (String.◌∷◌ c s) db

create_campaign-processed_jobs :
    (now : ℕ) (s : Service) (db : Db)
    → (create_campaign now s db).1.processed_jobs ≡ db.processed_jobs
unfolding create_campaign insert_review_jobs
create_campaign-processed_jobs now s db =
    if_text-processed_jobs s.email_normalized _
      (λ t db'.
        insert_message_job-processed_jobs now _ _ ∙ insert_message_job-processed_jobs now _ db')
      _
    ∙ if_text-processed_jobs s.phone_e164 _ (λ t db'. insert_message_job-processed_jobs now _ db') _

after_service-processed_jobs :
    (now : ℕ) (s : Service) (db : Db) (o : Option Campaign)
    → (after_service now s db o).1.processed_jobs ≡ db.processed_jobs
after_service-processed_jobs now s db none = create_campaign-processed_jobs now s db
after_service-processed_jobs now s db (some c) = refl

served-processed_jobs :
    (now : ℕ) (s : Service) (job : String → NewJob) (db : Db) (search : Db → Option Campaign)
    → let served =
        if_text s.phone_e164
          (λ to db'. (insert_message_job now (job to) db').1)
          (store_processed_job now s db) in
      (after_service now s served (search served)).1.processed_jobs
      ≡ (store_processed_job now s db).processed_jobs
served-processed_jobs now s job db search =
    after_service-processed_jobs now s _ _
    ∙ if_text-processed_jobs s.phone_e164 _
        (λ t db'. insert_message_job-processed_jobs now (job t) db') _

service_known :
    (now : ℕ) (s : Service) (db : Db)
    → is_some (
        find_where
          (same_record s.source_job_id)
          (create_completed_service_workflow now s db).1.processed_jobs)
      ≡ true
unfolding create_completed_service_workflow store_processed_job
service_known now s db =
    elim (Bool-cases (is_some (find_where (same_record s.source_job_id) db.processed_jobs))) [
      | inl e ↦ rw e e
      | inr e ↦ rw e (
          ap (λ rows. is_some (find_where (same_record s.source_job_id) rows))
            (served-processed_jobs now s _ db
              (λ db'. find_where (suppresses now s) db'.review_campaigns))
          ∙ find_where-append_self (same_record s.source_job_id) db.processed_jobs _ (ground arith))
    ]

already :
    (now : ℕ) (s : Service) (db : Db)
    → is_some (find_where (same_record s.source_job_id) db.processed_jobs) ≡ true
    → create_completed_service_workflow now s db ≡ (already_processed, db)
unfolding create_completed_service_workflow
already now s db known = rw known refl

-- A completed service that is reported again, with the same source job and whatever else, is
-- answered with `already_processed` and changes no table.
pub create_completed_service_workflow_again :
    (now later : ℕ) (s t : Service) (db : Db)
    → t.source_job_id ≡ s.source_job_id
    → let first = create_completed_service_workflow now s db in
      create_completed_service_workflow later t first.1 ≡ (already_processed, first.1)
create_completed_service_workflow_again now later s t db same =
    already later t _ (rw same (service_known now s db))

already_alerted :
    (now : ℕ) (a : WaterAlert) (db : Db)
    → is_some (find_where (λ p. p.alert_id == a.alert_id) db.processed_alerts) ≡ true
    → create_water_alert_job now a db ≡ (false, db)
unfolding create_water_alert_job
already_alerted now a db known = rw known refl

alert_known :
    (now : ℕ) (a : WaterAlert) (db : Db)
    → is_some (
        find_where
          (λ p. p.alert_id == a.alert_id)
          (create_water_alert_job now a db).1.processed_alerts)
      ≡ true
unfolding create_water_alert_job
alert_known now a db =
    elim (Bool-cases (is_some (find_where (λ p. p.alert_id == a.alert_id) db.processed_alerts))) [
      | inl e ↦ rw e e
      | inr e ↦ rw e (
          ap (λ rows. is_some (find_where (λ p. p.alert_id == a.alert_id) rows))
            (insert_message_job-processed_alerts now _ _)
          ∙ find_where-append_self (λ p. p.alert_id == a.alert_id) db.processed_alerts _
              (ground arith))
    ]

-- A water alert that is reported again, with the same alert id, is refused and changes no table.
pub create_water_alert_job_again :
    (now later : ℕ) (a b : WaterAlert) (db : Db)
    → b.alert_id ≡ a.alert_id
    → let first = create_water_alert_job now a db in
      create_water_alert_job later b first.1 ≡ (false, first.1)
create_water_alert_job_again now later a b db same =
    already_alerted later b _ (rw same (alert_known now a db))
