-- ===== src/Campaigns/Confirm/Undo.antt =====
-- What is left of a campaign when its confirmation is undone.
use poolbrian_sms_automation.Prelude.{
  ℕ, is_some-coalesce, ◌≡◌, refl, String, Option, none, some, List, [], ◌∷◌, ◌==◌, Bool-cases, inl,
  inr, is_some, find_where, update_where, select_where, select_where-update_where,
  found-update_where, not, if◌then◌else◌,
}
use poolbrian_sms_automation.Store.{Db, Campaign, CampaignStatus}
use poolbrian_sms_automation.Campaigns.Cancel.{cancel_campaign_jobs}
use poolbrian_sms_automation.Campaigns.Confirm.{
  confirm_campaign, confirm_found, confirm_row, confirm_rows, confirmed_test, match_review,
  given_text, undo_campaign_confirmation, undo_found, undo_row, restored_status,
}

-- The search meets the campaign that was confirmed, in its confirmed form.
found-confirm_rows :
    (now id : ℕ) (name : String) (review_id : Option String) (rows : List Campaign)
    → find_where (confirmed_test id) (confirm_rows now id name review_id rows)
      ≡ (elim (find_where (λ c. c.id == id) rows) [
        | none ↦ none
        | some c ↦ some (confirm_row now name review_id c)
      ])
unfolding find_where update_where confirm_row
found-confirm_rows now id name review_id [] = refl
found-confirm_rows now id name review_id (c ∷ rows) =
    let ih = found-confirm_rows now id name review_id rows in
    elim (Bool-cases (c.id == id)) [
      | inl e ↦ rw (e, e, is_some-coalesce c.confirmed_at now) refl
      | inr e ↦ rw (e, e) ih
    ]

undo_row-confirm_row :
    (now later id : ℕ) (name : String) (review_id : Option String) (status : CampaignStatus)
    (rows : List Campaign)
    → update_where
        (λ c. c.id == id)
        (undo_row later status)
        (confirm_rows now id name review_id rows)
      ≡ update_where (λ c. c.id == id) (undo_row later status) rows
unfolding update_where confirm_row undo_row
undo_row-confirm_row now later id name review_id status [] = refl
undo_row-confirm_row now later id name review_id status (c ∷ rows) =
    let ih = undo_row-confirm_row now later id name review_id status rows in
    elim (Bool-cases (c.id == id)) [ inl e ↦ rw (e, e, ih) refl | inr e ↦ rw (e, e, ih) refl ]

match_review-campaigns :
    (now id : ℕ) (review_id : Option String) (db : Db)
    → (match_review now id review_id db).review_campaigns ≡ db.review_campaigns
unfolding match_review
match_review-campaigns now id none db = refl
match_review-campaigns now id (some r) db = refl

confirmed_rows :
    (now id : ℕ) (name : String) (review_id : Option String) (db : Db) (c : Campaign)
    → find_where (λ c. c.id == id) db.review_campaigns ≡ some c
    → (confirm_campaign now id name review_id db).1.review_campaigns
      ≡ confirm_rows now id name review_id db.review_campaigns
unfolding confirm_campaign confirm_found cancel_campaign_jobs
confirmed_rows now id name review_id db c h =
    rw (h, match_review-campaigns now id (given_text review_id) _) refl

undone_rows :
    (later id : ℕ) (db : Db) (c : Campaign)
    → find_where (confirmed_test id) db.review_campaigns ≡ some c
    → (undo_campaign_confirmation later id db).1.review_campaigns
      ≡ update_where (λ c. c.id == id) (undo_row later (restored_status c)) db.review_campaigns
unfolding undo_campaign_confirmation undo_found
undone_rows later id db c h = rw h refl

-- The rows after both: those of the campaign are undone.
undone_confirmation :
    (now later id : ℕ) (name : String) (review_id : Option String) (db : Db) (c : Campaign)
    → find_where (λ c. c.id == id) db.review_campaigns ≡ some c
    → (undo_campaign_confirmation later id
        (confirm_campaign now id name review_id db).1).1.review_campaigns
      ≡ update_where (λ c. c.id == id) (undo_row later (restored_status c)) db.review_campaigns
undone_confirmation now later id name review_id db c h =
    let rows = confirmed_rows now id name review_id db c h in
    let found : find_where (confirmed_test id)
          (confirm_campaign now id name review_id db).1.review_campaigns
        ≡ some (confirm_row now name review_id c) =
      rw (rows, found-confirm_rows now id name review_id db.review_campaigns, h) refl in
    rw
      (
        undone_rows later id (confirm_campaign now id name review_id db).1
            (confirm_row now name review_id c) found,
        rows,
      )
      (unfold confirm_row in
        undo_row-confirm_row now later id name review_id (restored_status c) db.review_campaigns)

-- The status that goes with the time of a reply.
abbrev pub status_of_reply : Option ℕ → CampaignStatus
status_of_reply none = CampaignStatus.active
status_of_reply (some t) = CampaignStatus.completed

restored_status_lem : (c : Campaign) → restored_status c ≡ status_of_reply c.customer_replied_at
restored_status_lem c = by_reply c.customer_replied_at
  where
    by_reply :
        (o : Option ℕ)
        → (if is_some o then CampaignStatus.completed else CampaignStatus.active)
          ≡ status_of_reply o
    by_reply none = refl
    by_reply (some t) = refl

-- What is left of a campaign that was confirmed and undone: no trace of the confirmation, the rest
-- of the row, and a status that only says whether the customer has replied.
pub record IsUndone (before after : Campaign) : Type 0 where
  pub status : after.status ≡ status_of_reply before.customer_replied_at
  pub no_date : after.confirmed_at ≡ none
  pub no_reviewer : after.google_reviewer_name ≡ none
  pub no_review : after.google_review_id ≡ none
  pub same_reply : after.customer_replied_at ≡ before.customer_replied_at
  pub same_reason : after.cancelled_reason ≡ before.cancelled_reason
  pub same_token : after.review_token ≡ before.review_token

-- Confirming a campaign and undoing that leaves its row with no date, reviewer or review of a
-- confirmation, with its reply, reason and token, and with the status `completed` where the customer
-- has replied and `active` elsewhere, whatever its status was. Every campaign with another id is
-- what it was.
pub undo-confirm_campaign :
    (now later id : ℕ) (name : String) (review_id : Option String) (db : Db) (c : Campaign)
    → find_where (λ c. c.id == id) db.review_campaigns ≡ some c
    → let after =
        (undo_campaign_confirmation later id
          (confirm_campaign now id name review_id db).1).1.review_campaigns in
      ((row : Campaign) × (find_where (λ c. c.id == id) after ≡ some row) × IsUndone c row)
      × (select_where (λ c. not (c.id == id)) after
          ≡ select_where (λ c. not (c.id == id)) db.review_campaigns)
undo-confirm_campaign now later id name review_id db c h =
    let undone = undo_row later (restored_status c) in
    rw (undone_confirmation now later id name review_id db c h) (
      (
        undone c,
        unfold undo_row in
            found-update_where (λ c. c.id == id) undone (λ x. refl) db.review_campaigns c h,
        unfold undo_row in
            record {
              status = restored_status_lem c;
              no_date = refl;
              no_reviewer = refl;
              no_review = refl;
              same_reply = refl;
              same_reason = refl;
              same_token = refl;
            },
      ),
      select_where-update_where (λ c. c.id == id) undone (unfold undo_row in λ x. refl)
          db.review_campaigns,
    )
