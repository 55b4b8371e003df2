-- ===== src/Examples/Reviews.antt =====
-- Reviews, and confirmations that are undone.
use poolbrian_sms_automation.Prelude.{
  ◌≡◌, refl, none, some, [], ◌∷◌, ◌==◌, find_where, select_where, not, List,
}
use poolbrian_sms_automation.Store.{Db, Campaign}
use poolbrian_sms_automation.Campaigns.Confirm.{confirm_campaign, undo_campaign_confirmation}
use poolbrian_sms_automation.Campaigns.Confirm.Undo.{IsUndone, undo-confirm_campaign}
use poolbrian_sms_automation.Reviews.{Names, Review, name_match_score}
use poolbrian_sms_automation.Reviews.Scores.{IsFraction, name_match_score-IsFraction}
use poolbrian_sms_automation.Reviews.Import.{import_google_review}
use poolbrian_sms_automation.Reviews.Matched.{IsImported, import_google_review-IsImported}
use poolbrian_sms_automation.Examples.Tables.{campaign_row, two_jobs}

abbrev with_campaign : Db
with_campaign = record two_jobs { review_campaigns = campaign_row 1 7 ∷ [] }

abbrev undone : List Campaign
undone =
    (undo_campaign_confirmation 200 1
      (confirm_campaign 100 1 "Ann" none with_campaign).1).1.review_campaigns

undo-confirm_campaign_example :
    ((row : Campaign) × (find_where (λ c. c.id == 1) undone ≡ some row)
      × IsUndone (campaign_row 1 7) row)
    × (select_where (λ c. not (c.id == 1)) undone
        ≡ select_where (λ c. not (c.id == 1)) with_campaign.review_campaigns)
unfolding find_where
undo-confirm_campaign_example =
    undo-confirm_campaign 100 200 1 "Ann" none with_campaign (campaign_row 1 7) refl

abbrev names : Names
names = record { casefold = λ s. s; split = λ s. s ∷ [] }

abbrev review : Review
review = record {
  review_id = "r1";
  reviewer_name = some "Ann";
  star_value = "FIVE";
  comment = none;
  created_at = some 60;
  updated_at = none;
}

import_google_review-IsImported_example :
    IsImported review with_campaign (import_google_review 100 names review with_campaign)
import_google_review-IsImported_example =
    import_google_review-IsImported 100 names review with_campaign

name_match_score-IsFraction_example : IsFraction (name_match_score names (some "Ann") (some "Bob"))
name_match_score-IsFraction_example = name_match_score-IsFraction names (some "Ann") (some "Bob")
