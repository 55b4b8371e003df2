-- ===== src/Notices.antt =====
-- app/repositories/service_notices.py: campaigns of service notices, to selected customers.
pub mod Recipients
pub mod Enqueue
pub mod Phones
pub mod Eligible
pub mod Queued
pub mod Candidates
pub mod Counts
use poolbrian_sms_automation.Prelude.{
  ℕ, zero, suc, ◌+◌, ◌-◌, ◌*◌, ◌/◌, min, max, String, Option, none, some, Bool, true, false, not,
  ◌&&◌, ◌||◌, List, [], ◌∷◌, ◌++◌, map, ltb, leb, ◌==◌, if◌then◌else◌, str_eq, length, take,
  contains_text, concat_texts, get_or_text, holds_text, holds_number, update_where, select_where,
  count_where, find_where, order_by,
}
use poolbrian_sms_automation.Store.{
  Db, MessageJob, JobStatus, Campaign, Channel, sms, NoticeStatus, NoticeCampaign, NoticeRecipient,
  Preference,
}
use poolbrian_sms_automation.Store.Json.{Fields, field, end, text, number}
use poolbrian_sms_automation.Jobs.Claim.{suppressed_for, is_waiting}
use poolbrian_sms_automation.Jobs.Recovery.{withdraw_job}
use poolbrian_sms_automation.Jobs.Lease.{update_jobs}

abbrev pub queued_notice : NoticeStatus → Bool
queued_notice NoticeStatus.queued = true
queued_notice NoticeStatus.cancelled = false

abbrev pub open_notice : ℕ → NoticeCampaign → Bool
open_notice id c = c.id == id && queued_notice c.status

-- `job.id = recipient.message_job_id` for a recipient of the campaign.
unfoldable pub of_notice : ℕ → List NoticeRecipient → ℕ → Bool
of_notice id [] job_id = false
of_notice id (r ∷ rest) job_id =
    (r.campaign_id == id && r.message_job_id == job_id) || of_notice id rest job_id

unfoldable pub notice_job_test : ℕ → Db → MessageJob → Bool
unfolding of_notice
notice_job_test id db job =
    of_notice id db.service_notice_recipients job.id && is_waiting job.status

abbrev pub cancelled_notice : ℕ → ℕ → Db → Option ℕ × Db
cancelled_notice now id db = (
  some (count_where (notice_job_test id db) db.message_jobs),
  update_jobs (notice_job_test id db) (withdraw_job now "service notice campaign cancelled")
      (record db {
        service_notice_campaigns =
            update_where (open_notice id)
              (λ c. record c { status = NoticeStatus.cancelled; cancelled_at = some now })
              db.service_notice_campaigns;
      }),
)

abbrev pub cancel_found : ℕ → ℕ → Db → Option NoticeCampaign → Option ℕ × Db
cancel_found now id db none = (none, db)
cancel_found now id db (some c) = cancelled_notice now id db

-- The number of cancelled jobs; `none` where the campaign is not queued.
unfoldable pub cancel_service_notice_campaign : ℕ → ℕ → Db → Option ℕ × Db
cancel_service_notice_campaign now id db =
    cancel_found now id db (find_where (open_notice id) db.service_notice_campaigns)
