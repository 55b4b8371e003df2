-- ===== src/Queue/Unchanged.antt =====
-- The actions of the queue that leave communication_preferences alone.
use poolbrian_sms_automation.Prelude.{ℕ, ◌≡◌, String, Option, arith}
use poolbrian_sms_automation.Store.{Db}
use poolbrian_sms_automation.Jobs.Lease.{
  mark_accepted, fail_message_job, fail_attempt, mark_delivery_unknown, Acceptance, Failure,
}
use poolbrian_sms_automation.Jobs.Provider.{
  Callback, record_provider_event, copy_outcome, log_event,
}
use poolbrian_sms_automation.Notices.{cancel_service_notice_campaign}

pub accept-preferences :
    (now id : ℕ) (w : String) (a : Acceptance) (db : Db)
    → (mark_accepted now id w a db).1.communication_preferences ≡ db.communication_preferences
unfolding mark_accepted
accept-preferences now id w a db = ground arith

pub fail-preferences :
    (now id : ℕ) (w : String) (f : Failure) (db : Db)
    → (fail_message_job now id w f db).1.communication_preferences ≡ db.communication_preferences
unfolding fail_message_job fail_attempt
fail-preferences now id w f db = ground arith

pub lose-preferences :
    (now id : ℕ) (w error : String) (code : Option String) (db : Db)
    → (mark_delivery_unknown now id w error code db).1.communication_preferences
      ≡ db.communication_preferences
unfolding mark_delivery_unknown fail_attempt
lose-preferences now id w error code db = ground arith

pub callback-preferences :
    (now : ℕ) (e : Callback) (db : Db)
    → (record_provider_event now e db).1.communication_preferences ≡ db.communication_preferences
unfolding record_provider_event copy_outcome log_event
callback-preferences now e db = ground arith

pub notice-preferences :
    (now id : ℕ) (db : Db)
    → (cancel_service_notice_campaign now id db).1.communication_preferences
      ≡ db.communication_preferences
unfolding cancel_service_notice_campaign
notice-preferences now id db = ground arith
