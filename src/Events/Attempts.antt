-- ===== src/Events/Attempts.antt =====
-- An event is worked on at most as often as it may be: what holds of every stored event, whatever
-- webhooks, workers and recoveries do.
use mathlib.Core.List.{map-append}
use poolbrian_sms_automation.Prelude.{
  ℕ, ◌+◌, ◌≤◌, ◌<◌, ◌≡◌, refl, String, Bool, true, false, Option, none, some, List, [], ◌∷◌, map,
  arith, All, All-append, All-weaken, All-of, select_due, All-Has_self, All-update_where, IsUnique,
  IsUnique-snoc, Fresh, map-update_where, is_some, contains_key, selected-IsCandidate,
}
use poolbrian_sms_automation.Store.{Db, InboundEvent, EventStatus}
use poolbrian_sms_automation.Store.Json.{Fields}
use poolbrian_sms_automation.Events.{
  NewEvent, event_row, store_row, store_inbound_event, EventClaim, is_waiting, is_leased, is_due,
  before, due_events, lease_event, claim_inbound_events, complete_event, complete_inbound_event,
  fail_event, fail_inbound_event, stale_test, held_test, recover_event, recover_stale_events,
  update_events,
}

abbrev pub is_dead : EventStatus → Bool
is_dead EventStatus.dead = true
is_dead _ = false

pub record IsBounded (e : InboundEvent) : Type 0 where
  pub allowed : 0 < e.max_attempts
  pub within : e.attempt_count ≤ e.max_attempts
  pub waiting_has_room : is_waiting e.status ≡ true → e.attempt_count < e.max_attempts
  pub waiting_free : is_waiting e.status ≡ true → is_some e.locked_by ≡ false
  pub leased_held : is_leased e.status ≡ true → is_some e.locked_by ≡ true
  pub leased_expires : is_leased e.status ≡ true → is_some e.lease_expires_at ≡ true
  pub leased_counted : is_leased e.status ≡ true → 0 < e.attempt_count
  pub dead_used_up : is_dead e.status ≡ true → e.attempt_count ≡ e.max_attempts

event_row-IsBounded :
    (now id : ℕ) (n : NewEvent) → 0 < n.max_attempts → IsBounded (event_row now id n)
unfolding event_row
event_row-IsBounded now id n h = ground arith

lease_event-IsBounded :
    (r : EventClaim) (now : ℕ) (e : InboundEvent)
    → is_waiting e.status ≡ true
    → IsBounded e
    → IsBounded (lease_event r now e)
unfolding lease_event
lease_event-IsBounded r now e w h = ground arith

complete_event-IsBounded :
    (now : ℕ) (p : Option String) (r : Option Fields) (e : InboundEvent)
    → IsBounded e
    → IsBounded (complete_event now p r e)
unfolding complete_event
complete_event-IsBounded now p r e h = ground arith

fail_event-IsBounded :
    (now : ℕ) (error : String) (at : ℕ) (r : Option Fields) (e : InboundEvent)
    → IsBounded e
    → IsBounded (fail_event now error at r e)
unfolding fail_event
fail_event-IsBounded now error at r e h = ground arith

recover_event-IsBounded :
    (now : ℕ) (e : InboundEvent) → IsBounded e → IsBounded (recover_event now e)
unfolding recover_event
recover_event-IsBounded now e h = ground arith

-- A transaction that writes to inbound_events.
pub data EventAction : Type 0 where
  store : ℕ → NewEvent → EventAction
  claim : EventClaim → ℕ → (ℕ → Bool) → EventAction
  complete : ℕ → ℕ → String → Option String → Option Fields → EventAction
  fail : ℕ → ℕ → String → String → ℕ → Option Fields → EventAction
  recover : ℕ → EventAction

unfoldable pub perform : EventAction → Db → Db
perform (store now n) db = (store_inbound_event now n db).1
perform (claim r now held) db = (claim_inbound_events r now held db).1
perform (complete now id w p r) db = complete_inbound_event now id w p r db
perform (fail now id w error at r) db = fail_inbound_event now id w error at r db
perform (recover now) db = (recover_stale_events now db).1

unfoldable pub run_inbox : List EventAction → Db → Db
run_inbox [] db = db
run_inbox (a ∷ rest) db = run_inbox rest (perform a db)

-- CHECK (max_attempts > 0).
abbrev pub Allows : EventAction → Type 0
Allows (store now n) = 0 < n.max_attempts
Allows _ = Unit

pub record IsSound (db : Db) : Type 0 where
  pub unique_ids : IsUnique (map InboundEvent.id db.inbound_events)
  pub below_seq : All (λ e. e.id < db.inbound_event_seq) db.inbound_events
  pub bounded : All IsBounded db.inbound_events

Fresh-of_below :
    (seq : ℕ) (events : List InboundEvent)
    → All (λ e. e.id < seq) events
    → Fresh seq (map InboundEvent.id events)
Fresh-of_below seq [] h = tt
Fresh-of_below seq (e ∷ rest) h = ((λ same. omega arith), Fresh-of_below seq rest h.1)

store_row-IsSound :
    (now : ℕ) (n : NewEvent) (db : Db) (row : Option InboundEvent)
    → 0 < n.max_attempts
    → IsSound db
    → IsSound (store_row now n db row).1
store_row-IsSound now n db (some e) h s = record {
  unique_ids = s.unique_ids;
  below_seq = All-weaken (λ x b. omega arith) db.inbound_events s.below_seq;
  bounded = s.bounded;
}
store_row-IsSound now n db none h s = record {
  unique_ids = rw map-append (
      IsUnique-snoc _ _ s.unique_ids
        (unfold event_row in Fresh-of_below db.inbound_event_seq db.inbound_events s.below_seq));
  below_seq =
      All-append (λ x. x.id < db.inbound_event_seq + 1) db.inbound_events _
        (All-weaken (λ x b. omega arith) db.inbound_events s.below_seq)
        (unfold event_row in omega arith, tt);
  bounded =
      All-append IsBounded db.inbound_events _ s.bounded
        (event_row-IsBounded now db.inbound_event_seq n h, tt);
}

-- An UPDATE that keeps the ids and the bounds of the rows that it meets.
updated-IsSound :
    (test : InboundEvent → Bool) (set : InboundEvent → InboundEvent) (db : Db)
    → ((e : InboundEvent) → (set e).id ≡ e.id)
    → All (λ e. test e ≡ true → IsBounded e → IsBounded (set e)) db.inbound_events
    → IsSound db
    → IsSound (update_events test set db)
updated-IsSound test set db same keep s = record {
  unique_ids = rw (map-update_where InboundEvent.id test set same db.inbound_events) s.unique_ids;
  below_seq =
      All-update_where (λ e. e.id < db.inbound_event_seq) test set db.inbound_events
        (All-of
          (λ e. test e ≡ true → e.id < db.inbound_event_seq → (set e).id < db.inbound_event_seq)
          (λ e t b. rw (same e) b) db.inbound_events)
        s.below_seq;
  bounded = All-update_where IsBounded test set db.inbound_events keep s.bounded;
}

kept_everywhere :
    (test : InboundEvent → Bool) (set : InboundEvent → InboundEvent) (db : Db)
    → ((e : InboundEvent) → IsBounded e → IsBounded (set e))
    → All (λ e. test e ≡ true → IsBounded e → IsBounded (set e)) db.inbound_events
kept_everywhere test set db keep =
    All-of (λ e. test e ≡ true → IsBounded e → IsBounded (set e)) (λ e t b. keep e b)
      db.inbound_events

waiting_of_due :
    (r : EventClaim) (now : ℕ) (e : InboundEvent)
    → is_due r now e ≡ true
    → is_waiting e.status ≡ true
unfolding is_due
waiting_of_due r now e h = ground arith

claimed-IsSound :
    (r : EventClaim) (now : ℕ) (held : ℕ → Bool) (db : Db)
    → IsSound db
    → IsSound (claim_inbound_events r now held db).1
unfolding claim_inbound_events due_events
claimed-IsSound r now held db s =
    updated-IsSound
      (λ e.
        contains_key InboundEvent.id e.id
          (select_due (is_due r now) InboundEvent.id held before r.limit db.inbound_events))
      (lease_event r now) db (unfold lease_event in λ e. refl)
      (All-weaken
        (λ e m c b.
          lease_event-IsBounded r now e
            (waiting_of_due r now e
              (selected-IsCandidate (is_due r now) InboundEvent.id held before r.limit
                db.inbound_events e s.unique_ids m c).due)
            b)
        db.inbound_events (All-Has_self db.inbound_events))
      s

perform-IsSound : (a : EventAction) (db : Db) → Allows a → IsSound db → IsSound (perform a db)
unfolding perform
perform-IsSound (store now n) db h s =
    unfold store_inbound_event in store_row-IsSound now n db _ h s
perform-IsSound (claim r now held) db h s = claimed-IsSound r now held db s
perform-IsSound (complete now id w p r) db h s =
    unfold complete_inbound_event in
    updated-IsSound (held_test id w) (complete_event now p r) db
      (unfold complete_event in λ e. refl)
      (kept_everywhere (held_test id w) _ db (complete_event-IsBounded now p r)) s
perform-IsSound (fail now id w error at r) db h s =
    unfold fail_inbound_event in
    updated-IsSound (held_test id w) (fail_event now error at r) db (unfold fail_event in λ e. refl)
      (kept_everywhere (held_test id w) _ db (fail_event-IsBounded now error at r)) s
perform-IsSound (recover now) db h s =
    unfold recover_stale_events in
    updated-IsSound (stale_test now) (recover_event now) db (unfold recover_event in λ e. refl)
      (kept_everywhere (stale_test now) _ db (recover_event-IsBounded now)) s

-- Whatever webhooks, workers and recoveries do to a sound inbox, in any order, it stays sound,
-- where an event is stored with a positive `max_attempts`: none is leased more often than that,
-- one that waits has an attempt left and is locked by nobody, a leased one has a holder and an
-- expiry, and a dead one has used all attempts.
pub run_inbox-IsSound :
    (actions : List EventAction) (db : Db)
    → All Allows actions
    → IsSound db
    → IsSound (run_inbox actions db)
unfolding run_inbox
run_inbox-IsSound [] db h s = s
run_inbox-IsSound (a ∷ rest) db h s =
    run_inbox-IsSound rest (perform a db) h.1 (perform-IsSound a db h.0 s)
