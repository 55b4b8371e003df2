-- ===== src/Notices/Candidates.antt =====
-- The lists of app/repositories/service_notices.py: the customers that a notice may go to,
-- `recent_service_notice_campaigns` and its status.
use poolbrian_sms_automation.Prelude.{
  ℕ, String, Option, none, some, Bool, true, false, not, ◌&&◌, ◌||◌, List, [], ◌∷◌, map, take, min,
  max, ltb, leb, if◌then◌else◌, is_some, get_or_text, select_where, count_where, order_by,
}
use poolbrian_sms_automation.Store.{Db, Campaign, sms, JobStatus, NoticeStatus, NoticeCampaign}
use poolbrian_sms_automation.Jobs.Claim.{suppressed_for}
use poolbrian_sms_automation.Pages.{Page, paginated_rows}
use poolbrian_sms_automation.Pages.Search.{Sql, normalized_search, search_test}
use poolbrian_sms_automation.Notices.{of_notice}
use poolbrian_sms_automation.Notices.Recipients.{
  newest_first, distinct_on, max_service_notice_recipients,
}

abbrev pub has_phone : Campaign → Bool
has_phone c = is_some c.phone_e164

-- The WHERE clause of the outer query.
unfoldable pub candidate_test : Sql → String → Db → Campaign → Bool
candidate_test sql search db c =
    not (suppressed_for db.communication_preferences sms c.phone_e164)
    && search_test sql search (
        some (get_or_text c.customer_name "") ∷ c.phone_e164 ∷ some (sql.str_of c.customer_id) ∷ [])

abbrev pub name_before : Sql → Option String → Option String → Bool
name_before sql none none = false
name_before sql none (some b) = false
name_before sql (some a) none = true
name_before sql (some a) (some b) = sql.text_before a b

-- `ORDER BY customer_name NULLS LAST, customer_id`.
unfoldable pub by_name : Sql → Campaign → Campaign → Bool
by_name sql a b =
    name_before sql a.customer_name b.customer_name
    || (not (name_before sql b.customer_name a.customer_name) && leb a.customer_id b.customer_id)

-- The rows of `_candidate_rows` without LIMIT and OFFSET, which `_candidate_count` counts.
unfoldable pub candidate_rows : Sql → String → Db → List Campaign
candidate_rows sql search db = order_by (by_name sql) (
    select_where (candidate_test sql search db)
      (distinct_on none (order_by newest_first (select_where has_phone db.review_campaigns))))

unfoldable pub service_notice_candidates : Sql → String → ℕ → Db → List Campaign
service_notice_candidates sql search limit db =
    take (min (max limit 1) max_service_notice_recipients)
      (candidate_rows sql (normalized_search sql search) db)

-- The page and the search that it is for.
unfoldable pub service_notice_candidate_page : Sql → String → ℕ → ℕ → Db → Page Campaign × String
service_notice_candidate_page sql search page page_size db = (
  paginated_rows (candidate_rows sql (normalized_search sql search) db) page page_size,
  normalized_search sql search,
)

abbrev pub pending_job : JobStatus → Bool
pending_job JobStatus.queued = true
pending_job JobStatus.retry = true
pending_job JobStatus.leased = true
pending_job _ = false

abbrev pub accepted_job : JobStatus → Bool
accepted_job JobStatus.accepted = true
accepted_job JobStatus.sent = true
accepted_job JobStatus.delivered = true
accepted_job _ = false

abbrev pub failed_job : JobStatus → Bool
failed_job JobStatus.failed = true
failed_job JobStatus.dead = true
failed_job JobStatus.delivery_unknown = true
failed_job _ = false

abbrev pub cancelled_job : JobStatus → Bool
cancelled_job JobStatus.cancelled = true
cancelled_job _ = false

-- `COUNT(*) FILTER (WHERE job.status IN …)`. A job is joined to one recipient row, for
-- message_job_id is UNIQUE.
unfoldable pub notice_count : (JobStatus → Bool) → ℕ → Db → ℕ
unfolding of_notice
notice_count test id db =
    count_where (λ job. of_notice id db.service_notice_recipients job.id && test job.status)
      db.message_jobs

pub record NoticeSummary : Type 0 where
  pub campaign : NoticeCampaign
  pub pending_count : ℕ
  pub accepted_count : ℕ
  pub failed_count : ℕ
  pub cancelled_count : ℕ

abbrev pub summary_of : Db → NoticeCampaign → NoticeSummary
summary_of db c = record {
  campaign = c;
  pending_count = notice_count pending_job c.id db;
  accepted_count = notice_count accepted_job c.id db;
  failed_count = notice_count failed_job c.id db;
  cancelled_count = notice_count cancelled_job c.id db;
}

abbrev pub is_withdrawn : NoticeStatus → Bool
is_withdrawn NoticeStatus.cancelled = true
is_withdrawn NoticeStatus.queued = false

unfoldable pub display_status : NoticeSummary → String
display_status s =
    if is_withdrawn s.campaign.status
    then "cancelled"
    else (if ltb 0 s.failed_count
        then "attention"
        else (if ltb 0 s.pending_count then "queued" else "completed"))

-- The inner joins leave out a campaign without a job.
abbrev pub has_job : Db → NoticeCampaign → Bool
has_job db c = ltb 0 (notice_count (λ status. true) c.id db)

abbrev pub newest_notice : NoticeCampaign → NoticeCampaign → Bool
newest_notice a b = leb b.created_at a.created_at

unfoldable pub recent_service_notice_campaigns : ℕ → Db → List NoticeSummary
recent_service_notice_campaigns limit db = map (summary_of db) (
    take (min (max limit 1) 100)
      (order_by newest_notice (select_where (has_job db) db.service_notice_campaigns)))
