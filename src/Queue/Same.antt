-- ===== src/Queue/Same.antt =====
-- Two databases with one queue: what the workers read and write of it is the same.
use poolbrian_sms_automation.Prelude.{◌≡◌}
use poolbrian_sms_automation.Store.{Db}

pub record SameQueue (a b : Db) : Type 0 where
  pub same_jobs : a.message_jobs ≡ b.message_jobs
  pub same_attempts : a.message_attempts ≡ b.message_attempts
  pub same_seq : a.message_job_seq ≡ b.message_job_seq
  pub same_preferences : a.communication_preferences ≡ b.communication_preferences
  pub same_campaigns : a.review_campaigns ≡ b.review_campaigns
