-- ===== src/Examples/Passes.antt =====
-- A poll of completed services, and a pass over all work.
use Prim.Native.Char.{nul}
use poolbrian_sms_automation.Prelude.{ℕ, true, false, none, some, List, [], ◌∷◌}
use poolbrian_sms_automation.Store.{Db}
use poolbrian_sms_automation.Store.Json.{Fields, end, field, number}
use poolbrian_sms_automation.Queue.Sound.{IsSound}
use poolbrian_sms_automation.Workers.{network_error}
use poolbrian_sms_automation.Workers.Polling
use poolbrian_sms_automation.Workers.Contacts.{Contacts}
use poolbrian_sms_automation.Workers.Polling.{Config, Lookup, customer, Counters, jobs, polled}
use poolbrian_sms_automation.Workers.Inbox.{at_sweep}
use poolbrian_sms_automation.Workers.Passes.{Pass, process_all}
use poolbrian_sms_automation.Workers.Passes.Sound.{process_all-IsSound}
use poolbrian_sms_automation.Store.{ProviderMessageEvent, MessageAttempt}
use poolbrian_sms_automation.Retention.{apply_retention_policy}
use poolbrian_sms_automation.Retention.Scrubbed.{IsScrubbed, IsRedacted}
use poolbrian_sms_automation.Retention.Left.{IsPurged, IsTrimmed, apply_retention_policy_lem}
use poolbrian_sms_automation.Examples.Tables.{request, two_jobs}
use poolbrian_sms_automation.Examples.Runs.{two_jobs-IsSound}

abbrev config : Config
config = record {
  host = record {
    py = record { is_digit = λ c. true; is_space = λ c. false; strip = λ s. s; casefold = λ s. s };
    chr = λ n. nul;
    str_of = λ v. "Ann";
    strip = λ s. s;
    int_of_text = λ s. none;
  };
  zone = record { local = λ t. t; to_utc = λ t. t };
  review_sms_delay_hours = 2;
  review_email_hour = 10;
  review_suppression_days = 30;
  message_max_attempts = 5;
  str_of = λ n. "1";
}

-- Ten o'clock.
abbrev morning : ℕ
morning = 36000000000

abbrev ready : Db
ready = record two_jobs {
  automation_state = (record { key = "completed_service_baseline_v2"; value = "complete" }) ∷ [];
}

abbrev poll_turn : Polling.Turn
poll_turn = record { now = morning; lookup = customer end; fresh_token = "token" }

abbrev ann : Contacts
ann = record { name = "Ann"; phone = some "+18135550100"; email = none }

-- A job without ids is skipped.
abbrev listed : List Fields
listed = end ∷ []

abbrev pass : Pass
pass = record {
  config = config;
  recovered_at = morning;
  recovery_failure = at_sweep;
  drafts_raise = true;
  polled_at = morning;
  source = jobs ((field "RecordID" (number 5) (field "CustomerId" (number 7) end)) ∷ []);
  poll_turns = λ n. poll_turn;
  inbox_worker = "e1";
  lease_minutes = 10;
  inbox_at = morning;
  inbox_setup = some "missing configuration";
  events_held = λ id. false;
  event_turns = λ id. record { now = morning; forward = λ payload. none; turns = λ n. poll_turn };
  worker = record { worker_id = "w1"; int_of_text = λ s. none; lower = λ s. s };
  claimed_at = morning;
  request = request;
  jobs_held = λ id. false;
  job_turns = λ id. record {
    now = morning;
    fresh_token = "link";
    render_error = none;
    answer = network_error "timed out";
  };
}

process_all-IsSound_example : IsSound (process_all pass ready).1
process_all-IsSound_example = process_all-IsSound pass ready (record {
  unique_ids = two_jobs-IsSound.unique_ids;
  unique_keys = two_jobs-IsSound.unique_keys;
  below_seq = two_jobs-IsSound.below_seq;
  coherent = two_jobs-IsSound.coherent;
})

apply_retention_policy_lem_example :
    let after = (apply_retention_policy morning 30 60 two_jobs).1 in
    IsScrubbed morning 30 two_jobs.inbound_messages after.inbound_messages
    × IsRedacted morning 30 two_jobs.message_jobs after.message_jobs
    × IsPurged morning 60 two_jobs.inbound_events after.inbound_events
    × IsTrimmed
        (λ (e : ProviderMessageEvent). e.received_at)
        morning
        60
        two_jobs.provider_message_events
        after.provider_message_events
    × IsTrimmed
        (λ (a : MessageAttempt). a.started_at)
        morning
        60
        two_jobs.message_attempts
        after.message_attempts
apply_retention_policy_lem_example = apply_retention_policy_lem morning 30 60 two_jobs
