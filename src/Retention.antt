-- ===== src/Retention.antt =====
-- `apply_retention_policy` of app/repositories/retention.py: one transaction that scrubs the bodies
-- of messages and deletes old rows. The tables oauth_states, audit_events and inbound_sms, which no
-- modelled code reads, are left out.
pub mod Scrubbed
pub mod Left
use poolbrian_sms_automation.Prelude.{
  ℕ, ◌+◌, ◌*◌, String, none, some, Bool, true, false, not, ◌&&◌, List, ltb, if◌then◌else◌, str_eq,
  is_some, update_where, select_where, count_where,
}
use poolbrian_sms_automation.Store.{Db, MessageJob, InboundMessage, InboundEvent, EventStatus}
use poolbrian_sms_automation.Store.Json.{Fields, field, end}

-- `column < NOW() - (:days * INTERVAL '1 day')`, with the days added on the other side.
abbrev pub older_than : ℕ → ℕ → ℕ → Bool
older_than now days at = ltb (at + days * 86400000000) now

-- `template_data ? key`.
unfoldable pub has_key : String → Fields → Bool
has_key k end = false
has_key k (field j v rest) = let found = has_key k rest in if str_eq j k then true else found

-- `template_data - key`.
unfoldable pub without_key : String → Fields → Fields
without_key k end = end
without_key k (field j v rest) =
    let others = without_key k rest in if str_eq j k then others else field j v others

-- `DELETE FROM … WHERE test`.
abbrev pub delete_where {ℓ} : {A : Type ℓ} → (A → Bool) → List A → List A
delete_where test rows = select_where (λ row. not (test row)) rows

abbrev pub scrubbed_test : ℕ → ℕ → InboundMessage → Bool
scrubbed_test now days m = older_than now days m.received_at && is_some m.body_ciphertext

unfoldable pub scrub_messages : ℕ → ℕ → Db → Db
scrub_messages now days db = record db {
  inbound_messages =
      update_where (scrubbed_test now days)
        (λ m. record m { body_ciphertext = none; body_preview = some "[content expired]" })
        db.inbound_messages;
}

abbrev pub forwarded_test : ℕ → ℕ → MessageJob → Bool
forwarded_test now days job =
    older_than now days job.created_at && has_key "message_body" job.template_data

abbrev pub scrub_job : ℕ → MessageJob → MessageJob
scrub_job now job = record job {
  template_data = without_key "message_body" job.template_data;
  updated_at = now;
}

unfoldable pub scrub_forwarded : ℕ → ℕ → Db → Db
scrub_forwarded now days db = record db {
  message_jobs = update_where (forwarded_test now days) (scrub_job now) db.message_jobs;
}

-- `status IN ('completed', 'dead')`.
abbrev pub is_over : EventStatus → Bool
is_over EventStatus.completed = true
is_over EventStatus.dead = true
is_over _ = false

abbrev pub over_event : ℕ → ℕ → InboundEvent → Bool
over_event now days e = older_than now days e.received_at && is_over e.status

unfoldable pub delete_events : ℕ → ℕ → Db → Db
delete_events now days db = record db {
  inbound_events = delete_where (over_event now days) db.inbound_events;
}

unfoldable pub delete_provider_events : ℕ → ℕ → Db → Db
delete_provider_events now days db = record db {
  provider_message_events =
      delete_where (λ e. older_than now days e.received_at) db.provider_message_events;
}

unfoldable pub delete_attempts : ℕ → ℕ → Db → Db
delete_attempts now days db = record db {
  message_attempts = delete_where (λ a. older_than now days a.started_at) db.message_attempts;
}

pub record Retained : Type 0 where
  pub inbound_message_bodies_scrubbed : ℕ
  pub forwarded_message_bodies_scrubbed : ℕ
  pub inbound_events_deleted : ℕ
  pub provider_events_deleted : ℕ
  pub message_attempts_deleted : ℕ

-- The counts are those of the rows that each statement meets.
unfoldable pub apply_retention_policy : ℕ → ℕ → ℕ → Db → Retained × Db
apply_retention_policy now content_days event_days db = (
  record {
    inbound_message_bodies_scrubbed =
        count_where (scrubbed_test now content_days) db.inbound_messages;
    forwarded_message_bodies_scrubbed =
        count_where (forwarded_test now content_days) db.message_jobs;
    inbound_events_deleted = count_where (over_event now event_days) db.inbound_events;
    provider_events_deleted =
        count_where (λ e. older_than now event_days e.received_at) db.provider_message_events;
    message_attempts_deleted =
        count_where (λ a. older_than now event_days a.started_at) db.message_attempts;
  },
  delete_attempts now event_days (
      delete_provider_events now event_days (
        delete_events now event_days
          (scrub_forwarded now content_days (scrub_messages now content_days db)))),
)
