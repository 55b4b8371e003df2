-- ===== src/Reviews/Matched.antt =====
-- What an imported review does to the review, to the campaigns and to the queue.
use poolbrian_sms_automation.Prelude.{
  ℕ, is_some-coalesce, ne_of_test, ◌≡◌, ◌≢◌, ◌⊎◌, inl, inr, refl, String, Option, none, some, List,
  ◌==◌, not, true, false, arith, All, All-update_where_new, Bool-cases, find_where, str_eq, is_some,
  select_where, select_where-update_where, eq_iff,
}
use poolbrian_sms_automation.Store.{Db, Campaign, CampaignStatus, GoogleReview, MatchStatus}
use poolbrian_sms_automation.Campaigns.Cancel.{cancel_campaign_jobs}
use poolbrian_sms_automation.Campaigns.Withdrawn.{OutOf, cancel_campaign_jobs-OutOf}
use poolbrian_sms_automation.Queue.Same.{SameQueue}
use poolbrian_sms_automation.Reviews.{Names, Review, store_review, same_review, review_candidates}
use poolbrian_sms_automation.Reviews.Import.{
  Imported, missing_id, matched_before, unmatched, matched_to, candidate_of, confirmed_by,
  link_review, match_to, propose, match_among, match_review, strong_match, weak_match, was_matched,
  import_google_review,
}

-- A campaign that the review confirms.
pub record IsConfirmed (review_id : String) (row : Campaign) : Type 0 where
  pub confirmed : row.status ≡ CampaignStatus.confirmed
  pub dated : is_some row.confirmed_at ≡ true
  pub by_review : row.google_review_id ≡ some review_id

-- The tables after a match of the review with the campaign of that id.
pub record IsMatched (r : Review) (id : ℕ) (before after : Db) : Type 0 where
  pub confirmed : All (λ row. (row.id ≢ id) ⊎ IsConfirmed r.review_id row) after.review_campaigns
  pub others :
      select_where (λ row. not (row.id == id)) after.review_campaigns
      ≡ select_where (λ row. not (row.id == id)) before.review_campaigns
  pub out : All (OutOf id) after.message_jobs
  pub linked :
      All
        (λ g.
          (g.google_review_id ≢ r.review_id)
          ⊎ ((g.campaign_id ≡ some id) × (g.match_status ≡ MatchStatus.matched)))
        after.google_reviews

-- What each result stands for.
abbrev pub IsImported : Review → Db → Imported × Db → Type 0
IsImported r before (matched_to id, after) = IsMatched r id before after
IsImported r before (missing_id, after) = SameQueue before after
IsImported r before (matched_before, after) = SameQueue before after
IsImported r before (unmatched, after) = SameQueue before after
IsImported r before (candidate_of id, after) = SameQueue before after

other_review : (id : String) (g : GoogleReview) → same_review id g ≡ false → g.google_review_id ≢ id
other_review id g h e = ground (arith, eq_iff g.google_review_id id)

match_to-IsMatched :
    (now : ℕ) (r : Review) (name : String) (c : Campaign) (db : Db)
    → IsMatched r c.id db (match_to now r name c (store_review now r db)).1
unfolding match_to store_review
match_to-IsMatched now r name c db = record {
  confirmed =
      unfold cancel_campaign_jobs in
      All-update_where_new (λ row. (row.id ≢ c.id) ⊎ IsConfirmed r.review_id row)
        (λ row. row.id == c.id) (confirmed_by now r.review_id name)
        (λ row e. inr (record {
          confirmed = refl;
          dated = is_some-coalesce row.confirmed_at now;
          by_review = refl;
        }))
        (λ row e. inl (ne_of_test row.id c.id e)) db.review_campaigns;
  others =
      unfold cancel_campaign_jobs in
      select_where-update_where (λ row. row.id == c.id) (confirmed_by now r.review_id name)
        (λ row. refl) db.review_campaigns;
  out = cancel_campaign_jobs-OutOf now c.id _ _;
  linked =
      unfold cancel_campaign_jobs in
      All-update_where_new
        (λ g.
          (g.google_review_id ≢ r.review_id)
          ⊎ ((g.campaign_id ≡ some c.id) × (g.match_status ≡ MatchStatus.matched)))
        (same_review r.review_id) (link_review now c.id MatchStatus.matched 950)
        (λ g e. inr (refl, refl)) (λ g e. inl (other_review r.review_id g e)) _;
}

propose-IsImported :
    (now : ℕ) (py : Names) (r : Review) (name : String) (o : Option Campaign) (db : Db)
    → IsImported r db (propose now py r name o (store_review now r db))
unfolding propose store_review
propose-IsImported now py r name none db = ground arith
propose-IsImported now py r name (some c) db = ground arith

among-IsImported :
    (now : ℕ) (py : Names) (r : Review) (name : String) (cs : List Campaign) (o : Option Campaign)
    (db : Db)
    → IsImported r db (match_among now py r name cs o (store_review now r db))
among-IsImported now py r name cs none db =
    propose-IsImported now py r name (weak_match py name cs) db
among-IsImported now py r name cs (some c) db = matched
  where
    matched : IsImported r db (match_to now r name c (store_review now r db))
    matched = unfold match_to in match_to-IsMatched now r name c db

stored-SameQueue : (now : ℕ) (r : Review) (db : Db) → SameQueue db (store_review now r db)
unfolding store_review
stored-SameQueue now r db = ground arith

review-IsImported :
    (now : ℕ) (py : Names) (r : Review) (name : Option String) (time : Option ℕ) (db : Db)
    → IsImported r db (match_review now py r name time (store_review now r db))
review-IsImported now py r none time db = stored-SameQueue now r db
review-IsImported now py r (some name) none db = stored-SameQueue now r db
review-IsImported now py r (some name) (some t) db =
    among-IsImported now py r name _
      (strong_match py name (review_candidates t (store_review now r db))) db

-- An import that answers a match with a campaign leaves that campaign confirmed by the review with a
-- date, every campaign with another id as it was, no job of that campaign queued, waiting for a
-- retry or leased, and the review matched with it. Any other answer leaves jobs, attempts,
-- preferences and campaigns as they were.
pub import_google_review-IsImported :
    (now : ℕ) (py : Names) (r : Review) (db : Db)
    → IsImported r db (import_google_review now py r db)
unfolding import_google_review
import_google_review-IsImported now py r db = elim (Bool-cases (str_eq r.review_id "")) [
  | inl e ↦ rw e (ground arith)
  | inr e ↦
      rw e
        (elim (Bool-cases (was_matched (find_where (same_review r.review_id) db.google_reviews))) [
          | inl m ↦ rw m (stored-SameQueue now r db)
          | inr m ↦ rw m (review-IsImported now py r r.reviewer_name r.created_at db)
        ])
]
