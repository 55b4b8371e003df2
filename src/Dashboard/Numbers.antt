-- ===== src/Dashboard/Numbers.antt =====
-- The numbers of `dashboard_snapshot` in app/repositories/dashboard.py.
use poolbrian_sms_automation.Prelude.{
  ℕ, ◌-◌, Option, none, some, Bool, true, false, ◌&&◌, List, [], ◌∷◌, leb, ◌==◌, if◌then◌else◌,
  is_some, min, count_where,
}
use poolbrian_sms_automation.Store.{
  MessageJob, JobStatus, Channel, channel_eq, Campaign, CampaignStatus, Preference,
}
use poolbrian_sms_automation.Jobs.Claim.{is_waiting, is_active}
use poolbrian_sms_automation.Jobs.Recovery.{is_failed_or_dead}
use poolbrian_sms_automation.Pages.Search.{Sql}

abbrev pub same_day : Sql → ℕ → Option ℕ → Bool
same_day sql now none = false
same_day sql now (some t) = sql.date_of t == sql.date_of now

abbrev pub is_delivered : JobStatus → Bool
is_delivered JobStatus.delivered = true
is_delivered _ = false

abbrev pub is_lost : JobStatus → Bool
is_lost JobStatus.delivery_unknown = true
is_lost _ = false

abbrev pub due_now : ℕ → MessageJob → Bool
due_now now job = is_waiting job.status && leb job.scheduled_at now

-- `MIN(scheduled_at) FILTER (…)`.
unfoldable pub oldest_due : ℕ → List MessageJob → Option ℕ
oldest_due now [] = none
oldest_due now (job ∷ rest) =
    let oldest = oldest_due now rest in
    if due_now now job then some (earlier job.scheduled_at oldest) else oldest
  where
    earlier : ℕ → Option ℕ → ℕ
    earlier t none = t
    earlier t (some u) = min t u

-- `oldest_due_minutes` is in microseconds here: the division by 60 seconds leaves a fraction.
pub record Metrics : Type 0 where
  pub messages_today : ℕ
  pub delivered_today : ℕ
  pub failed_today : ℕ
  pub queued : ℕ
  pub due : ℕ
  pub delivery_unknown : ℕ
  pub oldest_due_microseconds : ℕ

abbrev pub age_of : ℕ → Option ℕ → ℕ
age_of now none = 0
age_of now (some t) = now - t

unfoldable pub message_metrics : Sql → ℕ → List MessageJob → Metrics
message_metrics sql now jobs = record {
  messages_today = count_where (λ job. same_day sql now (some job.created_at)) jobs;
  delivered_today =
      count_where (λ job. is_delivered job.status && same_day sql now job.delivered_at) jobs;
  failed_today =
      count_where (λ job. is_failed_or_dead job.status && same_day sql now job.failed_at) jobs;
  queued = count_where (λ job. is_waiting job.status) jobs;
  due = count_where (due_now now) jobs;
  delivery_unknown = count_where (λ job. is_lost job.status) jobs;
  oldest_due_microseconds = age_of now (oldest_due now jobs);
}

pub record CampaignMetrics : Type 0 where
  pub active : ℕ
  pub clicked : ℕ
  pub confirmed : ℕ
  pub replied : ℕ
  pub cancelled : ℕ

abbrev pub is_confirmed : CampaignStatus → Bool
is_confirmed CampaignStatus.confirmed = true
is_confirmed _ = false

abbrev pub is_completed : CampaignStatus → Bool
is_completed CampaignStatus.completed = true
is_completed _ = false

abbrev pub is_cancelled : CampaignStatus → Bool
is_cancelled CampaignStatus.cancelled = true
is_cancelled _ = false

unfoldable pub campaign_metrics : List Campaign → CampaignMetrics
campaign_metrics campaigns = record {
  active = count_where (λ c. is_active c.status) campaigns;
  clicked = count_where (λ c. is_some c.clicked_at) campaigns;
  confirmed = count_where (λ c. is_confirmed c.status) campaigns;
  replied = count_where (λ c. is_completed c.status) campaigns;
  cancelled = count_where (λ c. is_cancelled c.status) campaigns;
}

unfoldable pub suppressed_count : Channel → List Preference → ℕ
suppressed_count channel preferences =
    count_where (λ p. channel_eq p.channel channel && p.suppressed) preferences
