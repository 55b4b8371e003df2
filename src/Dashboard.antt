-- ===== src/Dashboard.antt =====
-- `dashboard_snapshot` of app/repositories/dashboard.py: the numbers and the tables that the
-- operator sees.
pub mod Numbers
pub mod Tables
use poolbrian_sms_automation.Prelude.{
  ℕ, ◌+◌, ◌-◌, ◌/◌, String, Option, none, some, Bool, true, false, not, ◌&&◌, ◌||◌, List, [], ◌∷◌,
  ltb, leb, ◌==◌, if◌then◌else◌, is_some, min, get_or_text, select_where, count_where, order_by,
}
use poolbrian_sms_automation.Store.{
  Db, MessageJob, JobStatus, Channel, channel_eq, sms, email, Campaign, CampaignStatus, Preference,
  GoogleReview, MatchStatus, Heartbeat,
}
use poolbrian_sms_automation.Jobs.Claim.{is_waiting, is_active}
use poolbrian_sms_automation.Jobs.Recovery.{is_failed_or_dead}
use poolbrian_sms_automation.Pages.{Page, paginated_rows}
use poolbrian_sms_automation.Pages.Search.{Sql, normalized_search, search_test, latest_first}
use poolbrian_sms_automation.Dashboard.Numbers.{
  Metrics, message_metrics, CampaignMetrics, campaign_metrics, suppressed_count,
}
use poolbrian_sms_automation.Dashboard.Tables.{
  recent_jobs, campaigns_table, reviews_table, workers_table,
}

-- What is asked for: a page and a search for each table.
pub record Filters : Type 0 where
  pub jobs_page : ℕ
  pub jobs_search : String
  pub campaigns_page : ℕ
  pub campaigns_search : String
  pub reviews_page : ℕ
  pub reviews_search : String
  pub workers_page : ℕ
  pub workers_search : String
  pub page_size : ℕ

pub record Snapshot : Type 0 where
  pub metrics : Metrics
  pub campaign_metrics : CampaignMetrics
  pub sms_suppressed : ℕ
  pub email_suppressed : ℕ
  pub jobs : Page MessageJob
  pub campaigns : Page Campaign
  pub reviews : Page GoogleReview
  pub workers : Page Heartbeat

unfoldable pub dashboard_snapshot : Sql → ℕ → Filters → Db → Snapshot
dashboard_snapshot sql now f db = record {
  metrics = message_metrics sql now db.message_jobs;
  campaign_metrics = campaign_metrics db.review_campaigns;
  sms_suppressed = suppressed_count sms db.communication_preferences;
  email_suppressed = suppressed_count email db.communication_preferences;
  jobs = recent_jobs sql f.jobs_search f.jobs_page f.page_size db;
  campaigns = campaigns_table sql f.campaigns_search f.campaigns_page f.page_size db;
  reviews = reviews_table sql f.reviews_search f.reviews_page f.page_size db;
  workers = workers_table sql f.workers_search f.workers_page f.page_size db;
}
