-- ===== src/Examples/Inbox.antt =====
-- Events that come in, and preferences that are saved.
use poolbrian_sms_automation.Prelude.{
  ◌≡◌, refl, ◌&&◌, true, false, none, List, [], ◌∷◌, arith, All, str_eq, if◌then◌else◌,
}
use poolbrian_sms_automation.Store.{sms, channel_eq}
use poolbrian_sms_automation.Store.Json.{end}
use poolbrian_sms_automation.Events.{NewEvent, EventClaim, store_inbound_event}
use poolbrian_sms_automation.Events.Intake.{store_inbound_event_again}
use poolbrian_sms_automation.Events.Attempts.{
  EventAction, store, claim, complete, recover, run_inbox, IsSound, run_inbox-IsSound,
}
use poolbrian_sms_automation.Preferences.{is_suppressed, save_preference, withdraw_test}
use poolbrian_sms_automation.Prelude.{find_where, some}
use poolbrian_sms_automation.Store.{Db}
use poolbrian_sms_automation.Preferences.{consume_unsubscribe_token}
use poolbrian_sms_automation.Preferences.Links.{consume_unsubscribe_token_lem}
use poolbrian_sms_automation.Preferences.OptOut.{
  is_suppressed-save_preference, save_preference-none_pending,
}
use poolbrian_sms_automation.Examples.Tables.{customer_phone, two_jobs, stop}

abbrev lead : NewEvent
lead = record {
  provider = "website";
  event_type = "lead.created";
  external_id = "lead-1";
  payload = end;
  payload_sha256 = "0";
  max_attempts = 3;
}

abbrev event_claim : EventClaim
event_claim = record {
  worker_id = "w1";
  limit = 5;
  lease_minutes = 10;
  provider = none;
  excluded_provider = none;
  event_type = none;
  external_id = none;
}

two_jobs-inbox : IsSound two_jobs
two_jobs-inbox = record { unique_ids = tt; below_seq = tt; bounded = tt }

abbrev inbox_script : List EventAction
inbox_script =
    store 10 lead
    ∷ claim event_claim 20 (λ id. false)
    ∷ recover 900000000
    ∷ claim event_claim 900000001 (λ id. false)
    ∷ complete 900000002 1 "w1" none none
    ∷ []

run_inbox-IsSound_example : IsSound (run_inbox inbox_script two_jobs)
run_inbox-IsSound_example =
    run_inbox-IsSound inbox_script two_jobs (omega arith, (tt, (tt, (tt, (tt, tt))))) two_jobs-inbox

store_inbound_event_again_example :
    let first = store_inbound_event 10 lead two_jobs in
    let second = store_inbound_event 20 lead first.1 in
    (second.0 ≡ (first.0.0, false)) × (second.1.inbound_events ≡ first.1.inbound_events)
store_inbound_event_again_example = store_inbound_event_again 10 20 lead lead two_jobs refl refl

is_suppressed-save_preference_example :
    is_suppressed sms "+18135550111" (save_preference 60 stop two_jobs) ≡ (
      if channel_eq sms sms && str_eq customer_phone "+18135550111"
      then true
      else is_suppressed sms "+18135550111" two_jobs)
is_suppressed-save_preference_example =
    is_suppressed-save_preference 60 stop two_jobs sms "+18135550111"

save_preference-none_pending_example :
    All
      (λ job. withdraw_test sms customer_phone job ≡ false)
      (save_preference 60 stop two_jobs).message_jobs
save_preference-none_pending_example = save_preference-none_pending 60 stop two_jobs refl

abbrev with_link : Db
with_link = record two_jobs {
  unsubscribe_tokens =
      record {
        token = "t1";
        message_job_id = 1;
        channel = sms;
        destination_normalized = customer_phone;
        used_at = none;
      }
      ∷ [];
}

link_found : (consume_unsubscribe_token 60 "t1" with_link).0 ≡ some (sms, customer_phone)
unfolding consume_unsubscribe_token find_where
link_found = refl

consume_unsubscribe_token_lem_example :
    let after = (consume_unsubscribe_token 60 "t1" with_link).1 in
    (is_suppressed sms customer_phone after ≡ true)
    × All (λ job. withdraw_test sms customer_phone job ≡ false) after.message_jobs
consume_unsubscribe_token_lem_example =
    consume_unsubscribe_token_lem 60 "t1" with_link sms customer_phone link_found
