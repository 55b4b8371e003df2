-- ===== src/Events.antt =====
-- The durable inbox of webhook events: app/repositories/events.py. Each function is one
-- transaction; NOW() is an argument.
pub mod Attempts
pub mod Intake
use poolbrian_sms_automation.Prelude.{
  ℕ, ◌+◌, String, Option, none, some, Bool, true, false, not, ◌&&◌, ◌||◌, List, [], ◌∷◌, ◌++◌, map,
  take, ltb, leb, ◌==◌, if◌then◌else◌, str_eq, coalesce, holds_text, holds_before, take_text,
  update_where, select_due, contains_key, count_where, find_where,
}
use poolbrian_sms_automation.Store.{Db, InboundEvent, EventStatus}
use poolbrian_sms_automation.Store.Json.{Fields}
use poolbrian_sms_automation.Jobs.Claim.{minutes}

pub record NewEvent : Type 0 where
  pub provider : String
  pub event_type : String
  pub external_id : String
  pub payload : Fields
  pub payload_sha256 : String
  pub max_attempts : ℕ

-- `provider = :provider AND external_id = :external_id`.
abbrev pub same_event : String → String → InboundEvent → Bool
same_event provider external_id e = str_eq e.provider provider && str_eq e.external_id external_id

unfoldable pub event_row : ℕ → ℕ → NewEvent → InboundEvent
event_row now id n = record {
  id = id;
  provider = n.provider;
  event_type = n.event_type;
  external_id = n.external_id;
  payload = n.payload;
  payload_sha256 = n.payload_sha256;
  status = EventStatus.queued;
  attempt_count = 0;
  max_attempts = n.max_attempts;
  next_attempt_at = now;
  locked_at = none;
  locked_by = none;
  lease_expires_at = none;
  last_error = none;
  provider_record_id = none;
  result = none;
  received_at = now;
  completed_at = none;
  updated_at = now;
}

abbrev pub store_row : ℕ → NewEvent → Db → Option InboundEvent → (ℕ × Bool) × Db
store_row now n db (some existing) =
    ((existing.id, false), record db { inbound_event_seq = db.inbound_event_seq + 1 })
store_row now n db none = (
  (db.inbound_event_seq, true),
  record db {
    inbound_events = db.inbound_events ++ event_row now db.inbound_event_seq n ∷ [];
    inbound_event_seq = db.inbound_event_seq + 1;
  },
)

-- The id of the stored event, and whether this call stored it.
unfoldable pub store_inbound_event : ℕ → NewEvent → Db → (ℕ × Bool) × Db
unfolding event_row
store_inbound_event now n db =
    store_row now n db (find_where (same_event n.provider n.external_id) db.inbound_events)

pub record EventClaim : Type 0 where
  pub worker_id : String
  pub limit : ℕ
  pub lease_minutes : ℕ
  pub provider : Option String
  pub excluded_provider : Option String
  pub event_type : Option String
  pub external_id : Option String

-- `CAST(:value AS TEXT) IS NULL OR column = :value`.
abbrev pub none_or_is : Option String → String → Bool
none_or_is none column = true
none_or_is (some v) column = str_eq column v

abbrev pub none_or_is_not : Option String → String → Bool
none_or_is_not none column = true
none_or_is_not (some v) column = not (str_eq column v)

abbrev pub is_waiting : EventStatus → Bool
is_waiting EventStatus.queued = true
is_waiting EventStatus.retry = true
is_waiting _ = false

abbrev pub is_leased : EventStatus → Bool
is_leased EventStatus.leased = true
is_leased _ = false

unfoldable pub is_due : EventClaim → ℕ → InboundEvent → Bool
is_due r now e =
    is_waiting e.status
    && (leb e.next_attempt_at now
        && (none_or_is r.provider e.provider
            && (none_or_is_not r.excluded_provider e.provider
                && (none_or_is r.event_type e.event_type
                    && none_or_is r.external_id e.external_id))))

-- `ORDER BY next_attempt_at, id`.
unfoldable pub before : InboundEvent → InboundEvent → Bool
before a b =
    ltb a.next_attempt_at b.next_attempt_at
    || (a.next_attempt_at == b.next_attempt_at && leb a.id b.id)

-- `FOR UPDATE SKIP LOCKED`: the rows that other transactions hold are passed over.
unfoldable pub due_events : EventClaim → ℕ → (ℕ → Bool) → Db → List InboundEvent
unfolding select_due
due_events r now held db =
    select_due (is_due r now) InboundEvent.id held before r.limit db.inbound_events

unfoldable pub lease_event : EventClaim → ℕ → InboundEvent → InboundEvent
lease_event r now e = record e {
  status = EventStatus.leased;
  attempt_count = e.attempt_count + 1;
  locked_at = some now;
  locked_by = some r.worker_id;
  lease_expires_at = some (now + minutes r.lease_minutes);
  updated_at = now;
}

unfoldable pub claim_inbound_events : EventClaim → ℕ → (ℕ → Bool) → Db → List InboundEvent × Db
claim_inbound_events r now held db = (
  map (lease_event r now) (due_events r now held db),
  record db {
    inbound_events =
        update_where (λ e. contains_key InboundEvent.id e.id (due_events r now held db))
          (lease_event r now) db.inbound_events;
  },
)

-- `id = :event_id AND locked_by = :worker_id AND status = 'leased'`.
abbrev pub held_test : ℕ → String → InboundEvent → Bool
held_test id worker_id e = e.id == id && (holds_text e.locked_by worker_id && is_leased e.status)

abbrev pub update_events : (InboundEvent → Bool) → (InboundEvent → InboundEvent) → Db → Db
update_events test set db = record db { inbound_events = update_where test set db.inbound_events }

unfoldable pub complete_event : ℕ → Option String → Option Fields → InboundEvent → InboundEvent
complete_event now provider_record_id result e = record e {
  status = EventStatus.completed;
  completed_at = some now;
  updated_at = now;
  locked_at = none;
  locked_by = none;
  lease_expires_at = none;
  last_error = none;
  provider_record_id = provider_record_id;
  result = result;
}

unfoldable pub complete_inbound_event : ℕ → ℕ → String → Option String → Option Fields → Db → Db
complete_inbound_event now id worker_id provider_record_id result db =
    update_events (held_test id worker_id) (complete_event now provider_record_id result) db

-- `CASE WHEN attempt_count >= max_attempts THEN 'dead' ELSE 'retry' END`.
abbrev pub dead_or_retry : InboundEvent → EventStatus
dead_or_retry e = if leb e.max_attempts e.attempt_count then EventStatus.dead else EventStatus.retry

unfoldable pub fail_event : ℕ → String → ℕ → Option Fields → InboundEvent → InboundEvent
fail_event now error next_attempt_at result e = record e {
  status = dead_or_retry e;
  next_attempt_at = next_attempt_at;
  last_error = some (take_text 1000 error);
  result = coalesce result e.result;
  locked_at = none;
  locked_by = none;
  lease_expires_at = none;
  updated_at = now;
}

unfoldable pub fail_inbound_event : ℕ → ℕ → String → String → ℕ → Option Fields → Db → Db
fail_inbound_event now id worker_id error next_attempt_at result db =
    update_events (held_test id worker_id) (fail_event now error next_attempt_at result) db

abbrev pub stale_test : ℕ → InboundEvent → Bool
stale_test now e = is_leased e.status && holds_before e.lease_expires_at now

unfoldable pub recover_event : ℕ → InboundEvent → InboundEvent
recover_event now e = record e {
  status = dead_or_retry e;
  next_attempt_at = now;
  locked_at = none;
  locked_by = none;
  lease_expires_at = none;
  last_error = coalesce e.last_error (some "worker lease expired");
  updated_at = now;
}

unfoldable pub recover_stale_events : ℕ → Db → ℕ × Db
recover_stale_events now db = (
  count_where (stale_test now) db.inbound_events,
  update_events (stale_test now) (recover_event now) db,
)
