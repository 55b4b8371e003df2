-- ===== src/Queue/Settled.antt =====
-- A job whose message was accepted, may have been sent, or was given up is not sent again, unless
-- an operator asks for it.
use poolbrian_sms_automation.Prelude.{
  ℕ, ◌<◌, ◌≡◌, ◌≢◌, refl, sym, ◌∙◌, inl, inr, String, Bool, true, false, Option, none, some, List,
  [], ◌∷◌, arith, All, All-append, All-at, Chain-All, Bool-cases, find_where, find_where_sound,
  find_where-Has,
}
use poolbrian_sms_automation.Store.{Db, MessageJob, JobStatus}
use poolbrian_sms_automation.Jobs.Edges.{
  Edge, stay, lease, start, accept, again, give_up, refuse, lose, stop, withdraw, requeue, report,
}
use poolbrian_sms_automation.Jobs.Lease.{mark_sending, sending_test}
use poolbrian_sms_automation.Queue.{
  Action, start_sending, retry, perform, dispatched_row, dispatch, dispatches,
}
use poolbrian_sms_automation.Queue.Rows.{Growth, kept, added, perform-Progress, grant_of}
use poolbrian_sms_automation.Queue.Sound.{IsSound, perform-IsSound}

-- Neither waiting nor in flight.
abbrev pub is_settled : JobStatus → Bool
is_settled JobStatus.queued = false
is_settled JobStatus.retry = false
is_settled JobStatus.leased = false
is_settled JobStatus.sending = false
is_settled _ = true

-- Every action but an operator's retry.
abbrev pub is_automatic : Action → Bool
is_automatic (retry now id) = false
is_automatic _ = true

not-operator : (a : Action) (db : Db) → is_automatic a ≡ true → (grant_of a db).operator ≡ false
not-operator (retry now id) db h = cc
not-operator _ db h = refl

Edge-is_settled :
    (o : Bool) (s t : JobStatus)
    → o ≡ false
    → Edge o s t
    → is_settled s ≡ true
    → is_settled t ≡ true
Edge-is_settled o s t n (stay e) h = ground arith
Edge-is_settled o s t n (lease w e) h = ground arith
Edge-is_settled o s t n (start w e) h = ground arith
Edge-is_settled o s t n (accept w e) h = ground arith
Edge-is_settled o s t n (again w e) h = ground arith
Edge-is_settled o s t n (give_up w e) h = ground arith
Edge-is_settled o s t n (refuse w e) h = ground arith
Edge-is_settled o s t n (lose w e) h = ground arith
Edge-is_settled o s t n (stop w e) h = ground arith
Edge-is_settled o s t n (withdraw w e) h = ground arith
Edge-is_settled o s t n (requeue p w e) h = absurd (cc (p, n))
Edge-is_settled o s t n (report w) h = ground arith

-- The job's row, if it is in the table, is settled.
abbrev IsSettled : ℕ → MessageJob → Type 0
IsSettled id job = job.id ≡ id → is_settled job.status ≡ true

pub record Settled (id : ℕ) (db : Db) : Type 0 where
  pub known : id < db.message_job_seq
  pub settled : All (λ job. job.id ≡ id → is_settled job.status ≡ true) db.message_jobs

perform-Settled :
    (id : ℕ) (a : Action) (db : Db)
    → is_automatic a ≡ true
    → IsSound db
    → Settled id db
    → Settled id (perform a db)
perform-Settled id a db auto s h =
    let p = perform-Progress a db s.unique_ids in
    grown (perform a db) p.middle p.growth (
      Chain-All (IsSettled id)
        (λ x y r keep e.
          Edge-is_settled (grant_of a db).operator x.status y.status (not-operator a db auto) r.edge
            (keep (sym r.same_id ∙ e)))
        p.rows h.settled)
  where
    grown :
        (after : Db) (middle : List MessageJob)
        → Growth db after middle
        → All (IsSettled id) middle
        → Settled id after
    grown after middle (kept e le) m = record { known = omega (arith, h.known); settled = rw e m }
    grown after middle (added row e i q st n w k) m = record {
      known = omega (arith, h.known);
      settled = rw e (
          All-append (IsSettled id) middle (row ∷ []) m
            ((λ same. absurd (omega (arith, h.known))), tt));
    }

-- What may be sent is leased, so it is not settled.
start-other :
    (id other : ℕ) (w : String) (db : Db) (log : List (ℕ × ℕ)) (row : Option MessageJob)
    → find_where (sending_test other w) db.message_jobs ≡ row
    → Settled id db
    → All (λ sent. sent.0 ≢ id) log
    → All (λ sent. sent.0 ≢ id) (dispatched_row row log)
start-other id other w db log none f h l = l
start-other id other w db log (some job) f h l = (
  (λ e.
      let tested = find_where_sound (sending_test other w) db.message_jobs job f in
      let stored = find_where-Has (sending_test other w) db.message_jobs job f in
      let settled = All-at (IsSettled id) job db.message_jobs stored h.settled e in
      absurd (ground (arith, tested, settled))),
  l,
)

dispatch-other :
    (id : ℕ) (a : Action) (db : Db) (log : List (ℕ × ℕ))
    → Settled id db
    → All (λ sent. sent.0 ≢ id) log
    → All (λ sent. sent.0 ≢ id) (dispatch a db log)
unfolding dispatch
dispatch-other id (start_sending now other w) db log h l =
    elim (Bool-cases (mark_sending now other w db).0) [
      | inl e ↦ rw e (start-other id other w db log _ refl h l)
      | inr e ↦ rw e l
    ]
dispatch-other id a db log h l = l

dispatches-other :
    (id : ℕ) (actions : List Action) (db : Db) (log : List (ℕ × ℕ))
    → All (λ a. is_automatic a ≡ true) actions
    → IsSound db
    → Settled id db
    → All (λ sent. sent.0 ≢ id) log
    → All (λ sent. sent.0 ≢ id) (dispatches actions db log)
unfolding dispatches
dispatches-other id [] db log auto s h l = l
dispatches-other id (a ∷ rest) db log auto s h l =
    dispatches-other id rest (perform a db) (dispatch a db log) auto.1 (perform-IsSound a db s)
      (perform-Settled id a db auto.0 s h) (dispatch-other id a db log h l)

-- From sound tables, a job that is accepted, sent, delivered, failed, cancelled, dead or of unknown
-- delivery is given no leave to send in any run of actions that has no operator's retry.
pub Settled-not_dispatched :
    (id : ℕ) (actions : List Action) (db : Db)
    → All (λ a. is_automatic a ≡ true) actions
    → IsSound db
    → Settled id db
    → All (λ sent. sent.0 ≢ id) (dispatches actions db [])
Settled-not_dispatched id actions db auto s h = dispatches-other id actions db [] auto s h tt
