-- ===== src/Inbound/Ended.antt =====
-- What a message of a customer ends: the newest active campaign of the sender, and its jobs.
use poolbrian_sms_automation.Prelude.{
  ℕ, is_some-coalesce, ne_of_test, ◌≡◌, ◌≢◌, ◌⊎◌, inl, inr, refl, subst, String, Option, none, some,
  Bool, true, false, not, List, ◌==◌, arith, All, All-update_where_new, is_some, find_where,
  select_where, select_where-update_where, if◌then◌else◌,
}
use poolbrian_sms_automation.Store.{Db, Campaign, CampaignStatus}
use poolbrian_sms_automation.Jobs.Enqueue.{insert_message_job}
use poolbrian_sms_automation.Campaigns.Cancel.{cancel_campaign_jobs}
use poolbrian_sms_automation.Campaigns.Withdrawn.{
  OutOf, cancel_campaign_jobs-OutOf, insert_message_job-OutOf,
}
use poolbrian_sms_automation.Inbound.{
  Sms, same_message, record_inbound_sms, record_new, save_choice, store_message, latest_active,
  replied, reply_campaign, end_campaign, forward, forward_to,
}
use poolbrian_sms_automation.Inbound.Newest.{IsNewest, Answers, latest_active-Answers}
use poolbrian_sms_automation.Inbound.Runs.{chosen-campaigns}

-- A campaign that a message ended: completed, or cancelled with its reason where the sender opts
-- out, and marked as replied.
pub record IsEnded (opt_out : Bool) (row : Campaign) : Type 0 where
  pub closed : row.status ≡ (if opt_out then CampaignStatus.cancelled else CampaignStatus.completed)
  pub has_replied : is_some row.customer_replied_at ≡ true
  pub reasoned : (opt_out ≡ false) ⊎ (row.cancelled_reason ≡ some "sms_opt_out")

reply_campaign-IsEnded :
    (now : ℕ) (opt_out : Bool) (c : Campaign) → IsEnded opt_out (reply_campaign now opt_out c)
unfolding reply_campaign
reply_campaign-IsEnded now true c = record {
  closed = refl;
  has_replied = is_some-coalesce c.customer_replied_at now;
  reasoned = inr refl;
}
reply_campaign-IsEnded now false c = record {
  closed = refl;
  has_replied = is_some-coalesce c.customer_replied_at now;
  reasoned = inl refl;
}

-- The campaigns after the end of one.
pub record Ended (opt_out : Bool) (id : ℕ) (before after : List Campaign) : Type 0 where
  pub ended : All (λ row. (row.id ≢ id) ⊎ IsEnded opt_out row) after
  pub others :
      select_where (λ row. not (row.id == id)) after
      ≡ select_where (λ row. not (row.id == id)) before

replied-Ended :
    (now : ℕ) (opt_out : Bool) (c : Campaign) (rows : List Campaign)
    → Ended opt_out c.id rows (replied now opt_out c rows)
replied-Ended now opt_out c rows = record {
  ended =
      All-update_where_new (λ row. (row.id ≢ c.id) ⊎ IsEnded opt_out row) (λ row. row.id == c.id)
        (reply_campaign now opt_out) (λ row e. inr (reply_campaign-IsEnded now opt_out row))
        (λ row e. inl (ne_of_test row.id c.id e)) rows;
  others =
      select_where-update_where (λ row. row.id == c.id) (reply_campaign now opt_out)
        (unfold reply_campaign in λ row. refl) rows;
}

forward-campaigns :
    (now : ℕ) (m : Sms) (c : Option Campaign) (phone : Option String) (db : Db)
    → (forward now m c phone db).review_campaigns ≡ db.review_campaigns
unfolding forward insert_message_job
forward-campaigns now m c none db = refl
forward-campaigns now m c (some p) db = ground arith

forward-OutOf :
    (now id : ℕ) (m : Sms) (c : Option Campaign) (phone : Option String) (db : Db)
    → All (OutOf id) db.message_jobs
    → All (OutOf id) (forward now m c phone db).message_jobs
unfolding forward
forward-OutOf now id m c none db h = h
forward-OutOf now id m c (some p) db h = insert_message_job-OutOf now id _ db refl h

end_campaign-campaigns :
    (now : ℕ) (m : Sms) (id : ℕ) (c : Campaign) (db : Db)
    → (end_campaign now m id (some c) db).review_campaigns
      ≡ replied now m.opt_out c db.review_campaigns
unfolding end_campaign cancel_campaign_jobs
end_campaign-campaigns now m id c db = refl

end_campaign-OutOf :
    (now : ℕ) (m : Sms) (id : ℕ) (c : Campaign) (db : Db)
    → All (OutOf c.id) (end_campaign now m id (some c) db).message_jobs
unfolding end_campaign
end_campaign-OutOf now m id c db = cancel_campaign_jobs-OutOf now c.id _ _

-- What a message does with the campaign that it is found for.
record_new-Ended :
    (now : ℕ) (m : Sms) (c : Campaign) (db : Db)
    → latest_active m.from_normalized db.review_campaigns ≡ some c
    → let after = (record_new now m db).1 in
      Ended m.opt_out c.id db.review_campaigns after.review_campaigns
      × All (OutOf c.id) after.message_jobs
unfolding record_new
record_new-Ended now m c db h =
    let chosen = save_choice now m (store_message now m db) in
    let found : latest_active m.from_normalized chosen.review_campaigns ≡ some c =
      rw (chosen-campaigns now m db) h in
    rw found (
      rw
          (
            forward-campaigns now m (some c) (forward_to m m.company_phone)
                (end_campaign now m db.inbound_message_seq (some c) chosen),
            end_campaign-campaigns now m db.inbound_message_seq c chosen,
            chosen-campaigns now m db,
          )
          (replied-Ended now m.opt_out c db.review_campaigns),
      forward-OutOf now c.id m (some c) (forward_to m m.company_phone) _
          (end_campaign-OutOf now m db.inbound_message_seq c chosen),
    )

-- A new message from a phone with an active campaign ends its newest one: that campaign is then
-- completed, or cancelled with the reason `sms_opt_out` where the sender opts out, and is marked as
-- replied. Every campaign with another id is what it was, and no job of the ended campaign is
-- queued, waiting for a retry or leased.
pub record_inbound_sms-Ended :
    (now : ℕ) (m : Sms) (db : Db) (c : Campaign)
    → is_some (find_where (same_message m.provider_message_id) db.inbound_messages) ≡ false
    → latest_active m.from_normalized db.review_campaigns ≡ some c
    → let after = (record_inbound_sms now m db).1 in
      IsNewest m.from_normalized db.review_campaigns c
      × Ended m.opt_out c.id db.review_campaigns after.review_campaigns
      × All (OutOf c.id) after.message_jobs
unfolding record_inbound_sms
record_inbound_sms-Ended now m db c fresh h =
    let newest : Answers m.from_normalized db.review_campaigns (some c) =
      subst (Answers m.from_normalized db.review_campaigns) h
        (latest_active-Answers m.from_normalized db.review_campaigns) in
    let parts = record_new-Ended now m c db h in rw fresh (newest, parts.0, parts.1)
