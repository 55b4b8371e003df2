-- ===== src/Examples/Replies.antt =====
-- Messages of customers and callbacks of the provider.
use Prim.Native.Char.{nul}
use poolbrian_sms_automation.Prelude.{
  ◌≡◌, ◌≢◌, refl, true, false, none, some, inl, inr, [], ◌∷◌, map, String, All, find_where,
  update_where, concat_texts,
}
use poolbrian_sms_automation.Store.{Db, MessageJob, sms}
use poolbrian_sms_automation.Jobs.Lease.{sending_test}
use poolbrian_sms_automation.Domain.Contact.{
  normalize_us_phone, only_digits, complete_digits, check_digits,
}
use poolbrian_sms_automation.Domain.Backoff.{provider_status_rank, rank_of}
use poolbrian_sms_automation.Jobs.Enqueue.{key_taken}
use poolbrian_sms_automation.Jobs.Provider.{
  Callback, record_provider_event, log_event, bind_job, apply_event,
}
use poolbrian_sms_automation.Preferences.{
  sent_to, save_preference, store_preference, upsert_preference,
}
use poolbrian_sms_automation.Jobs.Recovery.{withdraw_job}
use poolbrian_sms_automation.Queue.{run, perform}
use poolbrian_sms_automation.Inbound.{
  Sms, duplicate, next_message, record_inbound_sms, record_new, save_choice, forward, latest_active,
  end_campaign,
}
use poolbrian_sms_automation.Inbound.Again.{record_inbound_sms_again}
use poolbrian_sms_automation.Inbound.Newest.{IsNewest}
use poolbrian_sms_automation.Inbound.Ended.{Ended, record_inbound_sms-Ended}
use poolbrian_sms_automation.Campaigns.Withdrawn.{OutOf}
use poolbrian_sms_automation.Inbound.Stop.{stopped-not_sent}
use poolbrian_sms_automation.Webhooks.{
  App, given, is_sid, all_alnum, text_length, phone_of, text_of, points_of,
}
use poolbrian_sms_automation.Webhooks.Status.{
  StatusForm, callback_of, alert_phone, valid_status, twilio_status,
}
use poolbrian_sms_automation.Webhooks.Alerts.{twilio_status-quiet, twilio_status-alerted}
use poolbrian_sms_automation.Examples.Tables.{customer_phone, two_jobs, queued_job, campaign_row}
use poolbrian_sms_automation.Examples.Runs.{
  queue_code, two_phones, two_phones-IsSound, claim_both, leased_other,
}

abbrev stop_message : Sms
stop_message = record {
  provider_message_id = "SM9";
  from_normalized = customer_phone;
  to_normalized = none;
  message_body = "STOP";
  body_ciphertext = "x";
  customer_id = none;
  opt_out = true;
  opt_in = false;
  company_phone = some "+18135550111";
  customer_name = "Unknown customer";
  max_attempts = 5;
}

record_inbound_sms_again_example :
    let first = (record_inbound_sms 60 stop_message two_phones).1 in
    record_inbound_sms 70 stop_message first ≡ (duplicate, next_message first)
record_inbound_sms_again_example =
    record_inbound_sms_again 60 70 stop_message stop_message two_phones refl

abbrev with_campaign : Db
with_campaign = record two_phones { review_campaigns = campaign_row 1 7 ∷ [] }

record_inbound_sms-Ended_example :
    let after = (record_inbound_sms 60 stop_message with_campaign).1 in
    IsNewest customer_phone with_campaign.review_campaigns (campaign_row 1 7)
    × Ended true 1 with_campaign.review_campaigns after.review_campaigns
    × All (OutOf 1) after.message_jobs
unfolding latest_active find_where
record_inbound_sms-Ended_example =
    record_inbound_sms-Ended 60 stop_message with_campaign (campaign_row 1 7) refl refl

stopped_found :
    find_where
      (sending_test 2 "w1")
      (run claim_both (record_inbound_sms 60 stop_message two_phones).1).message_jobs
    ≡ some leased_other
unfolding run perform queue_code record_inbound_sms record_new save_choice save_preference
    store_preference upsert_preference withdraw_job forward latest_active end_campaign
stopped_found = refl

stopped-not_sent_example : sent_to sms customer_phone leased_other ≡ false
unfolding find_where
stopped-not_sent_example =
    stopped-not_sent 60 stop_message claim_both two_phones refl refl two_phones-IsSound
      (refl, (refl, tt)) 2 "w1" leased_other stopped_found

abbrev app : App
app = record {
  py = record { is_digit = λ c. true; is_space = λ c. false; strip = λ s. s; casefold = λ s. s };
  strip = λ s. s;
  upper = λ s. s;
  lower = λ s. s;
  chr = λ n. nul;
  int_of = λ s. some 1;
  encrypt_secret = λ s. s;
  message_max_attempts = 5;
  company_phone_number = none;
  alert_phone_number = some "8135550111";
}

abbrev failed_form : StatusForm
failed_form = record {
  message_sid = some "SM00000000000000000001";
  message_status = some "failed";
  error_code = some "30003";
  to_number = some "8135550100";
  job_id = some "1";
}

abbrev event : Callback
event = callback_of app failed_form

-- The first job is an alert, or it is not.
abbrev with_kind : String → Db
with_kind kind = record two_jobs {
  message_jobs = (record (queued_job 1 "a") { message_kind = kind }) ∷ [];
}

abbrev answered : String → MessageJob
answered kind =
    apply_event 60 event (bind_job 60 event (record (queued_job 1 "a") { message_kind = kind }))

answered_lem :
    (kind : String) → (record_provider_event 60 event (with_kind kind)).0 ≡ some (answered kind)
unfolding record_provider_event log_event bind_job find_where update_where phone_of
    provider_status_rank rank_of
answered_lem kind = refl

twilio_status-quiet_example :
    map MessageJob.id
      (twilio_status 60 app true failed_form
        (with_kind "admin_delivery_failure_sms")).1.message_jobs
    ≡ 1 ∷ []
twilio_status-quiet_example =
    twilio_status-quiet 60 app true failed_form (with_kind "admin_delivery_failure_sms")
      (some (answered "admin_delivery_failure_sms")) (answered_lem "admin_delivery_failure_sms")
      (inr (
        answered "admin_delivery_failure_sms",
        refl,
        (unfold apply_event in unfold bind_job in refl),
      ))

valid_failed : valid_status app failed_form ≡ true
unfolding is_sid all_alnum text_length
valid_failed = refl

phone_set : alert_phone app ≡ some (given (alert_phone app))
unfolding phone_of text_of points_of normalize_us_phone only_digits complete_digits check_digits
phone_set = refl

abbrev service_kind : String
service_kind = "service_sms"

other_kind : service_kind ≢ "admin_delivery_failure_sms"
other_kind = cc

twilio_status-alerted_example :
    key_taken
      (concat_texts ("delivery-failure-alert:" ∷ "SM00000000000000000001" ∷ []))
      (twilio_status 60 app true failed_form (with_kind "service_sms")).1.message_jobs
    ≡ true
twilio_status-alerted_example =
    twilio_status-alerted 60 app failed_form (with_kind "service_sms") (answered "service_sms")
      (given (alert_phone app)) valid_failed (answered_lem "service_sms")
      (unfold apply_event in unfold bind_job in other_kind) (inl refl) phone_set
