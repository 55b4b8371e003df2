-- ===== src/Campaigns/Confirm.antt =====
-- `confirm_campaign` and `undo_campaign_confirmation` of app/repositories/admin.py.
pub mod Undo
use poolbrian_sms_automation.Prelude.{
  ℕ, String, Option, none, some, Bool, true, false, ◌&&◌, List, [], ◌∷◌, ◌==◌, if◌then◌else◌,
  str_eq, is_some, coalesce, holds_number, update_where, find_where,
}
use poolbrian_sms_automation.Store.{Db, Campaign, CampaignStatus, GoogleReview, MatchStatus}
use poolbrian_sms_automation.Campaigns.Cancel.{cancel_campaign_jobs}

-- `if google_review_id`: an empty text is false too.
abbrev pub given_text : Option String → Option String
given_text none = none
given_text (some String.[]) = none
given_text (some (String.◌∷◌ c s)) = some (String.◌∷◌ c s)

unfoldable pub confirm_row : ℕ → String → Option String → Campaign → Campaign
confirm_row now reviewer_name google_review_id c = record c {
  status = CampaignStatus.confirmed;
  confirmed_at = coalesce c.confirmed_at (some now);
  google_reviewer_name = some reviewer_name;
  google_review_id = coalesce google_review_id c.google_review_id;
  updated_at = now;
}

unfoldable pub match_review : ℕ → ℕ → Option String → Db → Db
match_review now campaign_id none db = db
match_review now campaign_id (some review_id) db = record db {
  google_reviews =
      update_where (λ r. str_eq r.google_review_id review_id)
        (λ r. record r {
          campaign_id = some campaign_id;
          match_status = MatchStatus.matched;
          match_confidence = some 1000;
          updated_at = now;
        })
        db.google_reviews;
}

abbrev pub confirm_rows : ℕ → ℕ → String → Option String → List Campaign → List Campaign
confirm_rows now id reviewer_name google_review_id =
    update_where (λ c. c.id == id) (confirm_row now reviewer_name google_review_id)

unfoldable pub confirm_found :
    ℕ → ℕ → String → Option String → Db → Option Campaign → Option (Campaign × Campaign) × Db
confirm_found now id reviewer_name google_review_id db none = (none, db)
confirm_found now id reviewer_name google_review_id db (some before) = (
  some (before, confirm_row now reviewer_name google_review_id before),
  match_review now id (given_text google_review_id) (
      cancel_campaign_jobs now id "review confirmed" (record db {
        review_campaigns = confirm_rows now id reviewer_name google_review_id db.review_campaigns;
      })),
)

-- The row before and after; `none` where there is no such campaign.
unfoldable pub confirm_campaign :
    ℕ → ℕ → String → Option String → Db → Option (Campaign × Campaign) × Db
confirm_campaign now id reviewer_name google_review_id db =
    confirm_found now id reviewer_name google_review_id db
      (find_where (λ c. c.id == id) db.review_campaigns)

abbrev pub confirmed_test : ℕ → Campaign → Bool
confirmed_test id c = c.id == id && is_some c.confirmed_at

abbrev pub restored_status : Campaign → CampaignStatus
restored_status before =
    if is_some before.customer_replied_at then CampaignStatus.completed else CampaignStatus.active

unfoldable pub undo_row : ℕ → CampaignStatus → Campaign → Campaign
undo_row now status c = record c {
  status = status;
  confirmed_at = none;
  google_reviewer_name = none;
  google_review_id = none;
  updated_at = now;
}

unfoldable pub undo_found : ℕ → ℕ → Db → Option Campaign → Option (Campaign × Campaign) × Db
undo_found now id db none = (none, db)
undo_found now id db (some before) = (
  some (before, undo_row now (restored_status before) before),
  record db {
    review_campaigns =
        update_where (λ c. c.id == id) (undo_row now (restored_status before)) db.review_campaigns;
    google_reviews =
        update_where (λ r. holds_number r.campaign_id id)
          (λ r. record r {
            campaign_id = none;
            match_status = MatchStatus.unmatched;
            match_confidence = none;
            updated_at = now;
          })
          db.google_reviews;
  },
)

unfoldable pub undo_campaign_confirmation : ℕ → ℕ → Db → Option (Campaign × Campaign) × Db
undo_campaign_confirmation now id db =
    undo_found now id db (find_where (confirmed_test id) db.review_campaigns)
