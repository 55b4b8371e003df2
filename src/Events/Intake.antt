-- ===== src/Events/Intake.antt =====
-- A webhook that is delivered again is stored once.
use text.Mathlib.TextPositions.{eq_refl}
use poolbrian_sms_automation.Prelude.{
  ℕ, ◌≡◌, refl, Bool, true, false, Option, none, some, List, [], ◌∷◌, ◌++◌, arith, Bool-cases, inl,
  inr, find_where,
}
use poolbrian_sms_automation.Store.{Db, InboundEvent}
use poolbrian_sms_automation.Events.{
  NewEvent, same_event, event_row, store_row, store_inbound_event,
}

find-append :
    (p : InboundEvent → Bool) (xs : List InboundEvent) (e : InboundEvent)
    → find_where p xs ≡ none
    → p e ≡ true
    → find_where p (xs ++ e ∷ []) ≡ some e
unfolding find_where
find-append p [] e n h = rw h
find-append p (x ∷ xs) e n h = elim (Bool-cases (p x)) [
  | inl hit ↦ absurd (ground (arith, hit))
  | inr miss ↦ rw miss (find-append p xs e (ground (arith, miss)) h)
]

row_found :
    (now id : ℕ) (n : NewEvent) → same_event n.provider n.external_id (event_row now id n) ≡ true
unfolding event_row
row_found now id n = rw (eq_refl n.provider, eq_refl n.external_id)

store_again :
    (now later : ℕ) (n m : NewEvent) (db : Db) (row : Option InboundEvent)
    → m.provider ≡ n.provider
    → m.external_id ≡ n.external_id
    → find_where (same_event n.provider n.external_id) db.inbound_events ≡ row
    → let first = store_row now n db row in
      let second = store_inbound_event later m first.1 in
      (second.0 ≡ (first.0.0, false)) × (second.1.inbound_events ≡ first.1.inbound_events)
unfolding store_inbound_event
store_again now later n m db none p x f =
    rw
      (
        p,
        x,
        find-append (same_event n.provider n.external_id) db.inbound_events
            (event_row now db.inbound_event_seq n) f (row_found now db.inbound_event_seq n),
      )
      (unfold event_row in (refl, refl))
store_again now later n m db (some e) p x f = rw (p, x, f) (refl, refl)

-- Storing an event a second time, with the same provider and external id, answers with the id of
-- the first and `false`, and leaves the stored events as they were.
pub store_inbound_event_again :
    (now later : ℕ) (n m : NewEvent) (db : Db)
    → m.provider ≡ n.provider
    → m.external_id ≡ n.external_id
    → let first = store_inbound_event now n db in
      let second = store_inbound_event later m first.1 in
      (second.0 ≡ (first.0.0, false)) × (second.1.inbound_events ≡ first.1.inbound_events)
unfolding store_inbound_event
store_inbound_event_again now later n m db p x = store_again now later n m db _ p x refl
