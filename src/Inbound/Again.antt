-- ===== src/Inbound/Again.antt =====
-- A text message that comes twice, and one that opts out.
use poolbrian_sms_automation.Prelude.{
  find_where-append_self, find_where-update_where, ℕ, ◌≡◌, refl, String, Option, none, some, true,
  false, ◌||◌, arith, All, All-update_where_made, Bool-cases, inl, inr, is_some, find_where, ◌==◌,
}
use package.text.Mathlib.TextPositions.{eq_refl}
use poolbrian_sms_automation.Store.{Db, Campaign, sms}
use poolbrian_sms_automation.Jobs.Enqueue.{insert_message_job}
use poolbrian_sms_automation.Jobs.Recovery.{withdraw_job}
use poolbrian_sms_automation.Preferences.{
  is_suppressed, save_preference, store_preference, withdraw_test,
}
use poolbrian_sms_automation.Preferences.OptOut.{
  is_suppressed-save_preference, save_preference-none_pending,
}
use poolbrian_sms_automation.Campaigns.Cancel.{cancel_campaign_jobs, campaign_test}
use poolbrian_sms_automation.Inbound.{
  Sms, duplicate, same_message, record_inbound_sms, record_new, save_choice, store_message,
  next_message, preference_change, reply_reason, end_campaign, forward, forward_to, message_row,
}

-- What an opt-out makes of the tables, whatever campaign is found.
abbrev pub OptedOut : String → Db → Type 0
OptedOut phone db =
    (is_suppressed sms phone db ≡ true)
    × All (λ job. withdraw_test sms phone job ≡ false) db.message_jobs

opted-end_campaign :
    (now : ℕ) (m : Sms) (id : ℕ) (campaign : Option Campaign) (db : Db) (phone : String)
    → OptedOut phone db
    → OptedOut phone (end_campaign now m id campaign db)
unfolding end_campaign cancel_campaign_jobs is_suppressed withdraw_job
opted-end_campaign now m id none db phone h = h
opted-end_campaign now m id (some c) db phone h = (
  h.0,
  All-update_where_made (λ job. withdraw_test sms phone job ≡ false) (campaign_test c.id)
      (withdraw_job now (reply_reason m.opt_out)) (λ job. ground arith) db.message_jobs h.1,
)

saved-OptedOut :
    (now : ℕ) (m : Sms) (db : Db)
    → m.opt_out ≡ true
    → OptedOut m.from_normalized (save_choice now m db)
unfolding save_choice
saved-OptedOut now m db h =
    let chosen : (m.opt_out || m.opt_in) ≡ true = rw h in
    rw chosen (
      rw
          (
            is_suppressed-save_preference now (preference_change m) db sms m.from_normalized,
            eq_refl m.from_normalized,
          )
          h,
      save_preference-none_pending now (preference_change m) db h,
    )

not_forwarded : (m : Sms) (phone : Option String) → m.opt_out ≡ true → forward_to m phone ≡ none
not_forwarded m none h = refl
not_forwarded m (some String.[]) h = refl
not_forwarded m (some (String.◌∷◌ c s)) h = rw h refl

-- A new message that opts out leaves its sender suppressed, and no job to the sender is queued,
-- waiting for a retry, or leased.
pub record_inbound_sms-OptedOut :
    (now : ℕ) (m : Sms) (db : Db)
    → m.opt_out ≡ true
    → is_some (find_where (same_message m.provider_message_id) db.inbound_messages) ≡ false
    → OptedOut m.from_normalized (record_inbound_sms now m db).1
unfolding record_inbound_sms record_new forward
record_inbound_sms-OptedOut now m db out new =
    rw (new, not_forwarded m m.company_phone out)
      (opted-end_campaign now m db.inbound_message_seq _ _ m.from_normalized
        (saved-OptedOut now m (store_message now m db) out))

already :
    (now : ℕ) (m : Sms) (db : Db)
    → is_some (find_where (same_message m.provider_message_id) db.inbound_messages) ≡ true
    → record_inbound_sms now m db ≡ (duplicate, next_message db)
unfolding record_inbound_sms
already now m db known = rw known refl

forward-messages :
    (now : ℕ) (m : Sms) (campaign : Option Campaign) (phone : Option String) (db : Db)
    → (forward now m campaign phone db).inbound_messages ≡ db.inbound_messages
unfolding forward insert_message_job
forward-messages now m campaign none db = refl
forward-messages now m campaign (some phone) db = ground arith

chosen-messages :
    (now : ℕ) (m : Sms) (db : Db) → (save_choice now m db).inbound_messages ≡ db.inbound_messages
unfolding save_choice save_preference store_preference
chosen-messages now m db = ground arith

ended-found :
    (now : ℕ) (m : Sms) (id : ℕ) (campaign : Option Campaign) (db : Db)
    → is_some (
        find_where
          (same_message m.provider_message_id)
          (end_campaign now m id campaign db).inbound_messages)
      ≡ is_some (find_where (same_message m.provider_message_id) db.inbound_messages)
unfolding end_campaign cancel_campaign_jobs
ended-found now m id none db = refl
ended-found now m id (some c) db =
    find_where-update_where (same_message m.provider_message_id) (λ row. row.id == id) _ (λ x. refl)
      db.inbound_messages

new_known :
    (now : ℕ) (m : Sms) (db : Db)
    → is_some
        (find_where (same_message m.provider_message_id) (record_new now m db).1.inbound_messages)
      ≡ true
unfolding record_new
new_known now m db =
    rw
      (
        forward-messages now m _ _ _,
        ended-found now m db.inbound_message_seq _ _,
        chosen-messages now m (store_message now m db),
      )
      (find_where-append_self (same_message m.provider_message_id) db.inbound_messages
        (message_row now db.inbound_message_seq m)
        (unfold message_row in rw (eq_refl m.provider_message_id) refl))

message_known :
    (now : ℕ) (m : Sms) (db : Db)
    → is_some (
        find_where
          (same_message m.provider_message_id)
          (record_inbound_sms now m db).1.inbound_messages)
      ≡ true
unfolding record_inbound_sms
message_known now m db =
    elim (Bool-cases
      (is_some (find_where (same_message m.provider_message_id) db.inbound_messages))) [
        | inl e ↦ rw e e
        | inr e ↦ rw e (new_known now m db)
      ]

-- A message that comes again, by the same provider's id, is answered with `duplicate` and changes
-- nothing but the sequence of ids.
pub record_inbound_sms_again :
    (now later : ℕ) (m n : Sms) (db : Db)
    → n.provider_message_id ≡ m.provider_message_id
    → let first = (record_inbound_sms now m db).1 in
      record_inbound_sms later n first ≡ (duplicate, next_message first)
record_inbound_sms_again now later m n db same =
    already later n _ (rw same (message_known now m db))
