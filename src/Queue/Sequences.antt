-- ===== src/Queue/Sequences.antt =====
-- The actions of the queue that leave the sequence of job ids alone.
use poolbrian_sms_automation.Prelude.{ℕ, ◌≡◌, String, Option, arith}
use poolbrian_sms_automation.Store.{Db}
use poolbrian_sms_automation.Jobs.Provider.{Callback, record_provider_event, copy_outcome}
use poolbrian_sms_automation.Jobs.Lease.{
  Acceptance, Failure, mark_accepted, fail_message_job, fail_attempt, mark_delivery_unknown,
}
use poolbrian_sms_automation.Preferences.{
  PreferenceChange, save_preference, store_preference, record_permanent_bounce, bounce_change,
}
use poolbrian_sms_automation.Notices.{cancel_service_notice_campaign}

pub seq_mark_accepted :
    (now id : ℕ) (w : String) (a : Acceptance) (db : Db)
    → (mark_accepted now id w a db).1.message_job_seq ≡ db.message_job_seq
unfolding mark_accepted
seq_mark_accepted now id w a db = ground arith

pub seq_fail_message_job :
    (now id : ℕ) (w : String) (f : Failure) (db : Db)
    → (fail_message_job now id w f db).1.message_job_seq ≡ db.message_job_seq
unfolding fail_message_job fail_attempt
seq_fail_message_job now id w f db = ground arith

pub seq_mark_delivery_unknown :
    (now id : ℕ) (w error : String) (code : Option String) (db : Db)
    → (mark_delivery_unknown now id w error code db).1.message_job_seq ≡ db.message_job_seq
unfolding mark_delivery_unknown fail_attempt
seq_mark_delivery_unknown now id w error code db = ground arith

pub seq_record_provider_event :
    (now : ℕ) (e : Callback) (db : Db)
    → (record_provider_event now e db).1.message_job_seq ≡ db.message_job_seq
unfolding record_provider_event copy_outcome
seq_record_provider_event now e db = ground arith

pub seq_save_preference :
    (now : ℕ) (c : PreferenceChange) (db : Db)
    → (save_preference now c db).message_job_seq ≡ db.message_job_seq
unfolding save_preference store_preference
seq_save_preference now c db = ground arith

pub seq_record_permanent_bounce :
    (now : ℕ) (destination message_id : String) (db : Db)
    → (record_permanent_bounce now destination message_id db).message_job_seq ≡ db.message_job_seq
unfolding record_permanent_bounce
seq_record_permanent_bounce now destination message_id db =
    ground (arith, seq_save_preference now (bounce_change destination message_id) db)

pub seq_cancel_notice :
    (now id : ℕ) (db : Db)
    → (cancel_service_notice_campaign now id db).1.message_job_seq ≡ db.message_job_seq
unfolding cancel_service_notice_campaign
seq_cancel_notice now id db = ground arith
