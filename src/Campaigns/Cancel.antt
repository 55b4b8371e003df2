-- ===== src/Campaigns/Cancel.antt =====
-- `cancel_campaign_jobs` of app/repositories/campaigns.py, and `cancel_campaign` of
-- app/repositories/admin.py, which calls it.
use poolbrian_sms_automation.Prelude.{
  ℕ, String, some, Bool, true, false, ◌&&◌, ◌==◌, if◌then◌else◌, holds_number, update_where,
  count_where,
}
use poolbrian_sms_automation.Store.{Db, MessageJob, Campaign, CampaignStatus}
use poolbrian_sms_automation.Jobs.Lease.{update_jobs}
use poolbrian_sms_automation.Jobs.Recovery.{is_pending, withdraw_job}

abbrev pub campaign_test : ℕ → MessageJob → Bool
campaign_test campaign_id job = holds_number job.campaign_id campaign_id && is_pending job.status

unfoldable pub cancel_campaign_jobs : ℕ → ℕ → String → Db → Db
cancel_campaign_jobs now campaign_id reason db =
    update_jobs (campaign_test campaign_id) (withdraw_job now reason) db

abbrev pub is_active : CampaignStatus → Bool
is_active CampaignStatus.active = true
is_active _ = false

abbrev pub active_test : ℕ → Campaign → Bool
active_test id c = c.id == id && is_active c.status

unfoldable pub cancel_campaign : ℕ → ℕ → String → Db → Bool × Db
cancel_campaign now id reason db =
    let updated = record db {
      review_campaigns =
          update_where (active_test id)
            (λ c. record c {
              status = CampaignStatus.cancelled;
              cancelled_reason = some reason;
              updated_at = now;
            })
            db.review_campaigns;
    } in
    let rowcount = count_where (active_test id) db.review_campaigns in
    (rowcount == 1, if rowcount == 0 then updated else cancel_campaign_jobs now id reason updated)
