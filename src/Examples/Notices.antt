-- ===== src/Examples/Notices.antt =====
-- Service notices and pages of tables.
use poolbrian_sms_automation.Prelude.{
  ◌≤◌, ◌≡◌, ◌+◌, true, none, [], ◌∷◌, All, IsUnique, map, length,
}
use poolbrian_sms_automation.Store.{Db, NoticeCampaign, NoticeStatus}
use poolbrian_sms_automation.Notices.Recipients.{Recipient, recipient_rows}
use poolbrian_sms_automation.Notices.Eligible.{IsEligible, recipient_rows-IsEligible}
use poolbrian_sms_automation.Notices.Enqueue.{Notice}
use poolbrian_sms_automation.Notices.Candidates.{summary_of, notice_count}
use poolbrian_sms_automation.Notices.Counts.{sending_job, summary_of_complete}
use poolbrian_sms_automation.Pages.{paginated_rows}
use poolbrian_sms_automation.Pages.Whole.{pages_up_to, pages_up_to-whole}
use poolbrian_sms_automation.Pages.Bounds.{IsSensible, paginated_rows-IsSensible}
use poolbrian_sms_automation.Examples.Tables.{customer_phone, campaign_row, two_jobs}

abbrev with_campaign : Db
with_campaign = record two_jobs { review_campaigns = campaign_row 1 7 ∷ [] }

recipient_rows-IsEligible_example :
    All (IsEligible (7 ∷ []) with_campaign) (recipient_rows (7 ∷ []) with_campaign)
    × IsUnique (map Recipient.phone_e164 (recipient_rows (7 ∷ []) with_campaign))
    × (length (recipient_rows (7 ∷ []) with_campaign) ≤ 100)
recipient_rows-IsEligible_example = recipient_rows-IsEligible (7 ∷ []) with_campaign

abbrev notice : Notice
notice = record {
  name = "Storm";
  message_body = "We are closed today.";
  customer_ids = 7 ∷ [];
  consent_basis = "written_customer_consent";
  consent_evidence = "letter";
  scheduled_at = 500;
  created_by = "admin";
  max_attempts = 5;
  str_of = λ n. "1";
}

abbrev storm : NoticeCampaign
storm = record {
  id = 1;
  name = "Storm";
  message_body = "We are closed today.";
  status = NoticeStatus.queued;
  consent_basis = "written_customer_consent";
  consent_evidence = "letter";
  recipient_count = 1;
  scheduled_at = 500;
  created_by = "admin";
  created_at = 100;
  cancelled_at = none;
}

abbrev notified_db : Db
notified_db = record two_jobs {
  service_notice_campaigns = storm ∷ [];
  service_notice_recipients =
      (record {
        campaign_id = 1;
        customer_id = 7;
        customer_name = "Ann";
        phone_e164 = customer_phone;
        message_job_id = 1;
      })
      ∷ [];
}

summary_of_complete_example :
    (summary_of notified_db storm).pending_count
      + (summary_of notified_db storm).accepted_count
      + (summary_of notified_db storm).failed_count
      + (summary_of notified_db storm).cancelled_count
      + notice_count sending_job 1 notified_db
    ≡ notice_count (λ status. true) 1 notified_db
summary_of_complete_example = summary_of_complete notified_db storm

pages_up_to-whole_example :
    pages_up_to two_jobs.message_jobs 1 (paginated_rows two_jobs.message_jobs 2 1).pages
    ≡ two_jobs.message_jobs
pages_up_to-whole_example = pages_up_to-whole two_jobs.message_jobs 2 1

paginated_rows-IsSensible_example : IsSensible (paginated_rows two_jobs.message_jobs 9 1)
paginated_rows-IsSensible_example = paginated_rows-IsSensible two_jobs.message_jobs 9 1
