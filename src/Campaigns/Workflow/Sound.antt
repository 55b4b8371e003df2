-- ===== src/Campaigns/Workflow/Sound.antt =====
-- A completed service keeps the queue sound.
use poolbrian_sms_automation.Prelude.{
  ℕ, refl, String, Option, none, some, inl, inr, Bool-cases, is_some, find_where,
}
use poolbrian_sms_automation.Store.{Db, Campaign}
use poolbrian_sms_automation.Queue.Sound.{IsSound, IsSound-jobs, insert_message_job-IsSound}
use poolbrian_sms_automation.Campaigns.Workflow.{
  Service, same_record, if_text, store_processed_job, insert_review_jobs, create_campaign,
  after_service, create_completed_service_workflow,
}

if_text-IsSound :
    (o : Option String) (insert : String → Db → Db) (db : Db)
    → ((to : String) (d : Db) → IsSound d → IsSound (insert to d))
    → IsSound db
    → IsSound (if_text o insert db)
if_text-IsSound none insert db keeps s = s
if_text-IsSound (some String.[]) insert db keeps s = s
if_text-IsSound (some (String.◌∷◌ c t)) insert db keeps s = keeps (String.◌∷◌ c t) db s

review_jobs-IsSound :
    (now : ℕ) (s : Service) (id : ℕ) (db : Db)
    → IsSound db
    → IsSound (insert_review_jobs now s id db)
unfolding insert_review_jobs
review_jobs-IsSound now s id db h =
    if_text-IsSound s.email_normalized _ _
      (λ to d k. insert_message_job-IsSound now _ _ (insert_message_job-IsSound now _ d k))
      (if_text-IsSound s.phone_e164 _ db (λ to d k. insert_message_job-IsSound now _ d k) h)

after-IsSound :
    (now : ℕ) (s : Service) (db : Db) (c : Option Campaign)
    → IsSound db
    → IsSound (after_service now s db c).1
unfolding create_campaign
after-IsSound now s db (some c) h = h
after-IsSound now s db none h =
    review_jobs-IsSound now s db.campaign_seq _ (IsSound-jobs db _ refl refl h)

pub create_completed_service_workflow-IsSound :
    (now : ℕ) (s : Service) (db : Db)
    → IsSound db
    → IsSound (create_completed_service_workflow now s db).1
unfolding create_completed_service_workflow store_processed_job
create_completed_service_workflow-IsSound now s db h =
    elim (Bool-cases (is_some (find_where (same_record s.source_job_id) db.processed_jobs))) [
      | inl e ↦ rw e h
      | inr e ↦ rw e (
          after-IsSound now s _ _ (
            if_text-IsSound s.phone_e164 _ _ (λ to d k. insert_message_job-IsSound now _ d k)
              (IsSound-jobs db (store_processed_job now s db) refl refl h)))
    ]
