-- ===== src/Dashboard/Tables.antt =====
-- The four tables of `dashboard_snapshot` in app/repositories/dashboard.py.
use poolbrian_sms_automation.Prelude.{
  ℕ, String, Option, none, some, Bool, true, false, not, ◌&&◌, ◌||◌, [], ◌∷◌, ltb, ◌==◌,
  get_or_text, select_where, order_by,
}
use poolbrian_sms_automation.Store.{
  Db, MessageJob, JobStatus, Channel, sms, email, Campaign, CampaignStatus, GoogleReview,
  MatchStatus, Heartbeat,
}
use poolbrian_sms_automation.Pages.{Page, paginated_rows}
use poolbrian_sms_automation.Pages.Search.{Sql, normalized_search, search_test, latest_first}

abbrev pub channel_text : Channel → String
channel_text sms = "sms"
channel_text email = "email"

abbrev pub status_text : JobStatus → String
status_text JobStatus.queued = "queued"
status_text JobStatus.leased = "leased"
status_text JobStatus.retry = "retry"
status_text JobStatus.sending = "sending"
status_text JobStatus.accepted = "accepted"
status_text JobStatus.sent = "sent"
status_text JobStatus.delivered = "delivered"
status_text JobStatus.failed = "failed"
status_text JobStatus.cancelled = "cancelled"
status_text JobStatus.dead = "dead"
status_text JobStatus.delivery_unknown = "delivery_unknown"

abbrev pub campaign_text : CampaignStatus → String
campaign_text CampaignStatus.active = "active"
campaign_text CampaignStatus.completed = "completed"
campaign_text CampaignStatus.confirmed = "confirmed"
campaign_text CampaignStatus.cancelled = "cancelled"

abbrev pub match_text : MatchStatus → String
match_text MatchStatus.unmatched = "unmatched"
match_text MatchStatus.candidate = "candidate"
match_text MatchStatus.matched = "matched"
match_text MatchStatus.ignored = "ignored"

abbrev pub number_text : Sql → Option ℕ → String
number_text sql none = ""
number_text sql (some n) = sql.str_of n

unfoldable pub job_listed : Sql → String → MessageJob → Bool
job_listed sql search job = search_test sql search (
    some (sql.str_of job.id)
    ∷ some (channel_text job.channel)
    ∷ some job.message_kind
    ∷ job.destination_normalized
    ∷ some (status_text job.status)
    ∷ some (get_or_text job.provider_status "")
    ∷ some (get_or_text job.last_error_code "")
    ∷ [])

unfoldable pub recent_jobs : Sql → String → ℕ → ℕ → Db → Page MessageJob
recent_jobs sql search page page_size db =
    paginated_rows
      (order_by (λ a b. latest_first a.updated_at a.id b.updated_at b.id)
        (select_where (job_listed sql (normalized_search sql search)) db.message_jobs))
      page page_size

unfoldable pub campaign_listed : Sql → String → Campaign → Bool
campaign_listed sql search c = search_test sql search (
    some (sql.str_of c.id)
    ∷ some (get_or_text c.customer_name "")
    ∷ some (get_or_text c.phone_e164 "")
    ∷ some (get_or_text c.email_normalized "")
    ∷ some (campaign_text c.status)
    ∷ some (get_or_text c.google_reviewer_name "")
    ∷ some (get_or_text c.cancelled_reason "")
    ∷ [])

unfoldable pub campaigns_table : Sql → String → ℕ → ℕ → Db → Page Campaign
campaigns_table sql search page page_size db =
    paginated_rows
      (order_by (λ a b. latest_first a.created_at a.id b.created_at b.id)
        (select_where (campaign_listed sql (normalized_search sql search)) db.review_campaigns))
      page page_size

abbrev pub is_open_match : MatchStatus → Bool
is_open_match MatchStatus.unmatched = true
is_open_match MatchStatus.candidate = true
is_open_match _ = false

unfoldable pub review_listed : Sql → String → GoogleReview → Bool
review_listed sql search r =
    is_open_match r.match_status
    && search_test sql search (
        some r.google_review_id
        ∷ some (get_or_text r.reviewer_name "")
        ∷ some (number_text sql r.star_rating)
        ∷ some (match_text r.match_status)
        ∷ some (number_text sql r.campaign_id)
        ∷ [])

-- `ORDER BY review_created_at DESC NULLS LAST, google_review_id DESC`.
abbrev pub review_before : Sql → GoogleReview → GoogleReview → Bool
review_before sql a b = time_before a.review_created_at b.review_created_at
  where
    later_id : Bool
    later_id = not (sql.text_before a.google_review_id b.google_review_id)

    time_before : Option ℕ → Option ℕ → Bool
    time_before none none = later_id
    time_before none (some t) = false
    time_before (some t) none = true
    time_before (some t) (some u) = ltb u t || (t == u && later_id)

unfoldable pub reviews_table : Sql → String → ℕ → ℕ → Db → Page GoogleReview
reviews_table sql search page page_size db =
    paginated_rows
      (order_by (review_before sql)
        (select_where (review_listed sql (normalized_search sql search)) db.google_reviews))
      page page_size

unfoldable pub worker_listed : Sql → String → Heartbeat → Bool
worker_listed sql search h =
    search_test sql search (some h.worker_name ∷ some (get_or_text h.last_error "") ∷ [])

unfoldable pub workers_table : Sql → String → ℕ → ℕ → Db → Page Heartbeat
workers_table sql search page page_size db =
    paginated_rows
      (order_by (λ a b. sql.text_before a.worker_name b.worker_name)
        (select_where (worker_listed sql (normalized_search sql search)) db.worker_heartbeats))
      page page_size
