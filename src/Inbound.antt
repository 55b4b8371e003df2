-- ===== src/Inbound.antt =====
-- `record_inbound_sms` of app/repositories/inbound_messages.py: a text message of a customer.
pub mod Again
pub mod Newest
pub mod Ended
pub mod Runs
pub mod Stop
use poolbrian_sms_automation.Prelude.{
  ℕ, ◌+◌, String, Option, none, some, Bool, true, false, not, ◌&&◌, ◌||◌, List, [], ◌∷◌, ◌++◌, ltb,
  ◌==◌, if◌then◌else◌, str_eq, is_some, coalesce, holds_text, concat_texts, get_or_text,
  update_where, find_where,
}
use poolbrian_sms_automation.Store.{Db, Channel, sms, Campaign, CampaignStatus, InboundMessage}
use poolbrian_sms_automation.Store.Json.{Fields, field, end, text}
use poolbrian_sms_automation.Jobs.Enqueue.{NewJob, insert_message_job}
use poolbrian_sms_automation.Preferences.{PreferenceChange, save_preference}
use poolbrian_sms_automation.Campaigns.Cancel.{cancel_campaign_jobs, is_active}

-- The arguments, with the result of `encrypt_secret(message_body)`.
pub record Sms : Type 0 where
  pub provider_message_id : String
  pub from_normalized : String
  pub to_normalized : Option String
  pub message_body : String
  pub body_ciphertext : String
  pub customer_id : Option ℕ
  pub opt_out : Bool
  pub opt_in : Bool
  pub company_phone : Option String
  pub customer_name : String
  pub max_attempts : ℕ

-- The campaign that the message is about, if any, and the id of the stored message.
pub data Recorded : Type 0 where
  duplicate : Recorded
  created : Option ℕ → ℕ → Recorded

abbrev preview_of : Bool → Bool → String
preview_of true opt_in = "opt_out"
preview_of false true = "opt_in"
preview_of false false = "customer_reply"

-- UNIQUE (provider, provider_message_id).
abbrev pub same_message : String → InboundMessage → Bool
same_message id m = str_eq m.provider "twilio" && str_eq m.provider_message_id id

unfoldable pub message_row : ℕ → ℕ → Sms → InboundMessage
message_row now id m = record {
  id = id;
  provider = "twilio";
  provider_message_id = m.provider_message_id;
  from_normalized = m.from_normalized;
  to_normalized = m.to_normalized;
  body_ciphertext = some m.body_ciphertext;
  body_preview = some (preview_of m.opt_out m.opt_in);
  customer_id = m.customer_id;
  campaign_id = none;
  received_at = now;
}

-- The sequence moves on whether the row is stored or not.
abbrev pub next_message : Db → Db
next_message db = record db { inbound_message_seq = db.inbound_message_seq + 1 }

abbrev pub store_message : ℕ → Sms → Db → Db
store_message now m db = record db {
  inbound_message_seq = db.inbound_message_seq + 1;
  inbound_messages = db.inbound_messages ++ message_row now db.inbound_message_seq m ∷ [];
}

abbrev pub preference_change : Sms → PreferenceChange
preference_change m = record {
  channel = sms;
  destination = m.from_normalized;
  suppressed = m.opt_out;
  reason = if m.opt_out then "customer_opt_out" else "customer_opt_in";
  source = "twilio_inbound";
  evidence = field "message_sid" (text m.provider_message_id) end;
}

unfoldable pub save_choice : ℕ → Sms → Db → Db
save_choice now m db =
    if m.opt_out || m.opt_in then save_preference now (preference_change m) db else db

abbrev pub newer_campaign : Campaign → Option Campaign → Option Campaign
newer_campaign c none = some c
newer_campaign c (some best) = if ltb c.created_at best.created_at then some best else some c

-- `phone_e164 = :phone AND status = 'active' ORDER BY created_at DESC LIMIT 1`.
unfoldable pub latest_active : String → List Campaign → Option Campaign
latest_active phone [] = none
latest_active phone (c ∷ rest) =
    let best = latest_active phone rest in
    if holds_text c.phone_e164 phone && is_active c.status then newer_campaign c best else best

unfoldable pub reply_campaign : ℕ → Bool → Campaign → Campaign
reply_campaign now opt_out c = record c {
  customer_replied_at = coalesce c.customer_replied_at (some now);
  status = if opt_out then CampaignStatus.cancelled else CampaignStatus.completed;
  cancelled_reason = if opt_out then some "sms_opt_out" else c.cancelled_reason;
  updated_at = now;
}

abbrev pub replied : ℕ → Bool → Campaign → List Campaign → List Campaign
replied now opt_out campaign campaigns =
    update_where (λ c. c.id == campaign.id) (reply_campaign now opt_out) campaigns

-- `customer_id or campaign["customer_id"]`: 0 is false too.
abbrev pub first_id : Option ℕ → ℕ → Option ℕ
first_id none id = some id
first_id (some n) id = if n == 0 then some id else some n

abbrev pub link_message : ℕ → Campaign → Option ℕ → Db → Db
link_message id campaign customer_id db = record db {
  inbound_messages =
      update_where (λ m. m.id == id)
        (λ m. record m { campaign_id = some campaign.id; customer_id = customer_id })
        db.inbound_messages;
}

abbrev pub reply_reason : Bool → String
reply_reason opt_out = if opt_out then "sms opt-out" else "customer replied"

-- What the found campaign changes.
unfoldable pub end_campaign : ℕ → Sms → ℕ → Option Campaign → Db → Db
end_campaign now m id none db = db
end_campaign now m id (some campaign) db =
    cancel_campaign_jobs now campaign.id (reply_reason m.opt_out) (
      link_message id campaign (first_id m.customer_id campaign.customer_id)
        (record db { review_campaigns = replied now m.opt_out campaign db.review_campaigns }))

abbrev pub reply_customer : Sms → Option Campaign → Option ℕ
reply_customer m none = m.customer_id
reply_customer m (some c) = first_id m.customer_id c.customer_id

abbrev pub reply_name : Sms → Option Campaign → String
reply_name m none = m.customer_name
reply_name m (some c) = get_or_text c.customer_name m.customer_name

abbrev pub forward_job : ℕ → Sms → Option Campaign → String → NewJob
forward_job now m campaign phone = record {
  idempotency_key = concat_texts ("forward-inbound:" ∷ m.provider_message_id ∷ []);
  campaign_id = none;
  inbound_event_id = none;
  customer_id = reply_customer m campaign;
  channel = sms;
  message_kind = "admin_customer_reply_sms";
  destination = phone;
  template_key = "admin_customer_reply_sms";
  template_data = field "customer_name" (text (reply_name m campaign)) (
      field "customer_phone" (text m.from_normalized)
        (field "message_body" (text m.message_body) end));
  scheduled_at = now;
  max_attempts = m.max_attempts;
}

-- `company_phone and not opt_out and not opt_in`.
abbrev pub forward_to : Sms → Option String → Option String
forward_to m none = none
forward_to m (some String.[]) = none
forward_to m (some (String.◌∷◌ c s)) = if m.opt_out || m.opt_in then none else some (String.◌∷◌ c s)

unfoldable pub forward : ℕ → Sms → Option Campaign → Option String → Db → Db
forward now m campaign none db = db
forward now m campaign (some phone) db =
    (insert_message_job now (forward_job now m campaign phone) db).1

abbrev pub campaign_id_of : Option Campaign → Option ℕ
campaign_id_of none = none
campaign_id_of (some c) = some c.id

unfoldable pub record_new : ℕ → Sms → Db → Recorded × Db
record_new now m db =
    let id = db.inbound_message_seq in
    let chosen = save_choice now m (store_message now m db) in
    let campaign = latest_active m.from_normalized chosen.review_campaigns in
    (
      created (campaign_id_of campaign) id,
      forward now m campaign (forward_to m m.company_phone) (end_campaign now m id campaign chosen),
    )

unfoldable pub record_inbound_sms : ℕ → Sms → Db → Recorded × Db
record_inbound_sms now m db =
    if is_some (find_where (same_message m.provider_message_id) db.inbound_messages)
    then (duplicate, next_message db)
    else record_new now m db
