-- ===== src/Reviews.antt =====
-- `normalized_person_name` and `name_match_score` of app/domain/reviews.py, and
-- `import_google_review` of app/repositories/google_reviews.py. A score is a fraction; the code's
-- quotient of two small numbers is 1.0, or at least 0.5, exactly where the fraction is.
pub mod Import
pub mod Scores
pub mod Matched
use poolbrian_sms_automation.Prelude.{
  ℕ, zero, suc, ◌+◌, ◌-◌, ◌*◌, ◌/◌, ◌%◌, max, String, Option, none, some, Bool, true, false, not,
  ◌&&◌, ◌||◌, List, [], ◌∷◌, ◌++◌, map, take, length, ltb, leb, ◌==◌, if◌then◌else◌, str_eq,
  is_some, contains_text, coalesce, update_where, select_where, count_where, find_where, order_by,
  append_text,
}
use poolbrian_sms_automation.Store.{Db, Campaign, CampaignStatus, GoogleReview, MatchStatus}
use poolbrian_sms_automation.Campaigns.Cancel.{cancel_campaign_jobs}

-- `str.casefold` and `str.split`.
pub record Names : Type 0 where
  pub casefold : String → String
  pub split : String → List String

-- `" ".join(words)`.
unfoldable pub join_words : List String → String
join_words [] = ""
join_words (w ∷ []) = w
join_words (w ∷ v ∷ rest) = append_text w (append_text " " (join_words (v ∷ rest)))

unfoldable pub normalized_person_name : Names → Option String → String
normalized_person_name py none = ""
normalized_person_name py (some String.[]) = ""
normalized_person_name py (some (String.◌∷◌ c s)) =
    join_words (py.split (py.casefold (String.◌∷◌ c s)))

-- `set(words)`, as a list without repetition.
unfoldable pub distinct_words : List String → List String
distinct_words [] = []
distinct_words (w ∷ rest) =
    let others = distinct_words rest in if contains_text others w then others else w ∷ others

pub record Score : Type 0 where
  pub overlap : ℕ
  pub parts : ℕ

abbrev pub no_score : Score
no_score = record { overlap = 0; parts = 1 }

abbrev pub full_score : Score
full_score = record { overlap = 1; parts = 1 }

abbrev pub is_empty_set : List String → Bool
is_empty_set [] = true
is_empty_set (w ∷ rest) = false

abbrev pub parts_score : List String → List String → Score
parts_score customer reviewer =
    if is_empty_set customer || is_empty_set reviewer then no_score else (record {
      overlap = count_where (contains_text reviewer) customer;
      parts = max (length customer) (length reviewer);
    })

unfoldable pub name_match_score : Names → Option String → Option String → Score
name_match_score py customer_name reviewer_name =
    let customer = normalized_person_name py customer_name in
    let reviewer = normalized_person_name py reviewer_name in
    if str_eq customer "" || str_eq reviewer ""
    then no_score
    else (if str_eq customer reviewer
        then full_score
        else parts_score (distinct_words (py.split customer)) (distinct_words (py.split reviewer)))

-- What the function reads of the provider's review: the stripped id, the stripped name if it is
-- not empty, and the parsed times.
pub record Review : Type 0 where
  pub review_id : String
  pub reviewer_name : Option String
  pub star_value : String
  pub comment : Option String
  pub created_at : Option ℕ
  pub updated_at : Option ℕ

unfoldable pub star_rating : String → Option ℕ
star_rating v =
    if str_eq v "ONE"
    then some 1
    else (if str_eq v "TWO"
        then some 2
        else (if str_eq v "THREE"
            then some 3
            else (if str_eq v "FOUR" then some 4 else (if str_eq v "FIVE" then some 5 else none))))

abbrev pub same_review : String → GoogleReview → Bool
same_review id row = str_eq row.google_review_id id

abbrev pub new_review : ℕ → Review → GoogleReview
new_review now r = record {
  google_review_id = r.review_id;
  reviewer_name = r.reviewer_name;
  star_rating = star_rating r.star_value;
  review_comment = r.comment;
  review_created_at = r.created_at;
  review_updated_at = r.updated_at;
  campaign_id = none;
  match_status = MatchStatus.unmatched;
  match_confidence = none;
  updated_at = now;
}

-- The DO UPDATE of the INSERT: the match is kept.
unfoldable pub refresh_review : ℕ → Review → GoogleReview → GoogleReview
refresh_review now r row = record row {
  reviewer_name = r.reviewer_name;
  star_rating = star_rating r.star_value;
  review_comment = r.comment;
  review_created_at = r.created_at;
  review_updated_at = r.updated_at;
  updated_at = now;
}

unfoldable pub store_review : ℕ → Review → Db → Db
store_review now r db = record db {
  google_reviews =
      if is_some (find_where (same_review r.review_id) db.google_reviews)
      then update_where (same_review r.review_id) (refresh_review now r) db.google_reviews
      else db.google_reviews ++ new_review now r ∷ [];
}

-- A day, in microseconds.
abbrev pub days : ℕ → ℕ
days n = n * 86400000000

abbrev pub awaits_review : CampaignStatus → Bool
awaits_review CampaignStatus.active = true
awaits_review CampaignStatus.completed = true
awaits_review _ = false

abbrev pub window_test : ℕ → Campaign → Bool
window_test created_at c =
    awaits_review c.status
    && (leb created_at (c.created_at + days 45) && leb c.created_at (created_at + days 1))

abbrev pub newer : Campaign → Campaign → Bool
newer a b = leb b.created_at a.created_at

unfoldable pub review_candidates : ℕ → Db → List Campaign
review_candidates created_at db =
    take 100 (order_by newer (select_where (window_test created_at) db.review_campaigns))

abbrev pub is_full : Score → Bool
is_full s = s.overlap == s.parts

-- `score >= 0.5`.
abbrev pub is_half : Score → Bool
is_half s = leb s.parts (2 * s.overlap)

abbrev pub score_of : Names → String → Campaign → Score
score_of py name c = name_match_score py c.customer_name (some name)

-- The only one, if there is one only.
abbrev pub only_one : List Campaign → Option Campaign
only_one [] = none
only_one (c ∷ []) = some c
only_one (c ∷ d ∷ rest) = none

abbrev pub lower : Score → Score → Bool
lower a b = ltb (a.overlap * b.parts) (b.overlap * a.parts)

-- `max(…, key=…)`: the first of the best.
unfoldable pub best : (Campaign → Score) → Campaign → List Campaign → Campaign
best score c [] = c
best score c (d ∷ rest) =
    let kept = best score c rest in
    let moved = best score d rest in if lower (score c) (score d) then moved else kept

abbrev pub best_of : (Campaign → Score) → List Campaign → Option Campaign
best_of score [] = none
best_of score (c ∷ rest) = some (best score c rest)

-- `round(score, 3)`, in thousandths: ties go to the even number.
unfoldable pub thousandths : Score → ℕ
thousandths s =
    let q = s.overlap * 1000 / s.parts in
    let r = s.overlap * 1000 % s.parts in
    if ltb (2 * r) s.parts || (2 * r == s.parts && q % 2 == 0) then q else q + 1
