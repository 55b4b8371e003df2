-- ===== src/Reviews/Import.antt =====
-- `import_google_review` of app/repositories/google_reviews.py.
use poolbrian_sms_automation.Prelude.{
  ℕ, String, Option, none, some, Bool, true, false, List, ◌==◌, if◌then◌else◌, str_eq, coalesce,
  update_where, select_where, find_where,
}
use poolbrian_sms_automation.Store.{Db, Campaign, CampaignStatus, GoogleReview, MatchStatus}
use poolbrian_sms_automation.Campaigns.Cancel.{cancel_campaign_jobs}
use poolbrian_sms_automation.Reviews.{
  Names, Review, same_review, store_review, review_candidates, score_of, is_full, is_half, only_one,
  best_of, thousandths,
}

-- What the function raises or returns.
pub data Imported : Type 0 where
  missing_id : Imported
  matched_before : Imported
  unmatched : Imported
  matched_to : ℕ → Imported
  candidate_of : ℕ → Imported

abbrev pub link_review : ℕ → ℕ → MatchStatus → ℕ → GoogleReview → GoogleReview
link_review now campaign_id status confidence row = record row {
  campaign_id = some campaign_id;
  match_status = status;
  match_confidence = some confidence;
  updated_at = now;
}

abbrev pub confirmed_by : ℕ → String → String → Campaign → Campaign
confirmed_by now review_id name c = record c {
  status = CampaignStatus.confirmed;
  confirmed_at = coalesce c.confirmed_at (some now);
  google_review_id = some review_id;
  google_reviewer_name = some name;
  updated_at = now;
}

-- The campaigns after a match.
abbrev pub confirmed_rows : ℕ → ℕ → String → String → List Campaign → List Campaign
confirmed_rows now id review_id name rows =
    update_where (λ c. c.id == id) (confirmed_by now review_id name) rows

unfoldable pub match_to : ℕ → Review → String → Campaign → Db → Imported × Db
match_to now r name c db = (
  matched_to c.id,
  cancel_campaign_jobs now c.id "matched Google review" (record db {
    google_reviews =
        update_where (same_review r.review_id) (link_review now c.id MatchStatus.matched 950)
          db.google_reviews;
    review_campaigns = confirmed_rows now c.id r.review_id name db.review_campaigns;
  }),
)

unfoldable pub propose : ℕ → Names → Review → String → Option Campaign → Db → Imported × Db
propose now py r name none db = (unmatched, db)
propose now py r name (some c) db = (
  candidate_of c.id,
  record db {
    google_reviews =
        update_where (same_review r.review_id)
          (link_review now c.id MatchStatus.candidate (thousandths (score_of py name c)))
          db.google_reviews;
  },
)

abbrev pub strong_match : Names → String → List Campaign → Option Campaign
strong_match py name candidates =
    only_one (select_where (λ c. is_full (score_of py name c)) candidates)

abbrev pub weak_match : Names → String → List Campaign → Option Campaign
weak_match py name candidates =
    best_of (score_of py name) (select_where (λ c. is_half (score_of py name c)) candidates)

abbrev pub match_among :
    ℕ → Names → Review → String → List Campaign → Option Campaign → Db → Imported × Db
match_among now py r name candidates (some c) db = match_to now r name c db
match_among now py r name candidates none db =
    propose now py r name (weak_match py name candidates) db

-- A review without a name or a time is not matched.
abbrev pub match_review : ℕ → Names → Review → Option String → Option ℕ → Db → Imported × Db
match_review now py r (some name) (some created_at) db =
    let candidates = review_candidates created_at db in
    match_among now py r name candidates (strong_match py name candidates) db
match_review now py r (some name) none db = (unmatched, db)
match_review now py r none created_at db = (unmatched, db)

abbrev pub is_matched : MatchStatus → Bool
is_matched MatchStatus.matched = true
is_matched _ = false

abbrev pub was_matched : Option GoogleReview → Bool
was_matched none = false
was_matched (some row) = is_matched row.match_status

unfoldable pub import_google_review : ℕ → Names → Review → Db → Imported × Db
import_google_review now py r db =
    let stored = store_review now r db in
    if str_eq r.review_id ""
    then (missing_id, db)
    else (if was_matched (find_where (same_review r.review_id) db.google_reviews)
        then (matched_before, stored)
        else match_review now py r r.reviewer_name r.created_at stored)
