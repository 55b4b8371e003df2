-- ===== src/Workers/Loop.antt =====
-- One round of the loop of `process_due_messages`, and the loop.
pub mod Sound
use poolbrian_sms_automation.Prelude.{
  ℕ, ◌+◌, String, Option, none, some, Bool, true, false, not, ◌&&◌, List, [], ◌∷◌, if◌then◌else◌,
  get_or_text, contains_text,
}
use package.text.Mathlib.Text.{starts_with}
use poolbrian_sms_automation.Store.{Db, MessageJob, Channel, sms, email}
use poolbrian_sms_automation.Store.Json.{text}
use poolbrian_sms_automation.Jobs.Claim.{ClaimRequest, claim_message_jobs}
use poolbrian_sms_automation.Jobs.Lease.{mark_sending}
use poolbrian_sms_automation.Jobs.Recovery.{cancel_message_job}
use poolbrian_sms_automation.Preferences.{is_suppressed, get_or_create_unsubscribe_token}
use poolbrian_sms_automation.Workers.{Answer, Counts, no_counts, Worker, on_exception, on_answer}

-- `not message_kind.startswith("admin_") and is_suppressed(channel, destination)`; a job with no
-- destination is refused.
unfoldable pub refused : MessageJob → Db → Option String → Bool
refused job db none = true
refused job db (some String.[]) = true
refused job db (some (String.◌∷◌ c s)) =
    not (starts_with "admin_" job.message_kind) && is_suppressed job.channel (String.◌∷◌ c s) db

-- What the round of one job meets outside the tables: the time, a fresh unsubscribe token, the
-- error of rendering the message if it has one, and the provider's answer to the send.
pub record Turn : Type 0 where
  pub now : ℕ
  pub fresh_token : String
  pub render_error : Option String
  pub answer : Answer

abbrev is_email : Channel → Bool
is_email sms = false
is_email email = true

-- The review emails carry a link that opts out.
abbrev pub needs_token : MessageJob → Bool
needs_token job =
    is_email job.channel
    && contains_text ("next_day_review_email" ∷ "saturday_review_email" ∷ []) job.message_kind

unfoldable pub with_token : Turn → MessageJob → Db → Db
with_token t job db =
    if needs_token job
    then (get_or_create_unsubscribe_token t.fresh_token job.id job.channel
        (get_or_text job.destination_normalized "") db).1
    else db

-- The send itself, which only a worker that still holds the lease is given.
unfoldable pub send : Worker → Turn → MessageJob → Bool → Db → Counts × Db
send w t job false db = (no_counts, db)
send w t job true db = on_answer w t.now job t.answer db

unfoldable pub after_render : Worker → Turn → MessageJob → Option String → Db → Counts × Db
after_render w t job (some error) db = on_exception w t.now job false error db
after_render w t job none db =
    let (leave, db') = mark_sending t.now job.id w.worker_id db in send w t job leave db'

-- One round of the loop of `process_due_messages`.
unfoldable pub process_job : Worker → Turn → MessageJob → Db → Counts × Db
process_job w t job db =
    if refused job db job.destination_normalized
    then (
      record no_counts { cancelled = 1 },
      cancel_message_job t.now job.id w.worker_id "missing or suppressed destination" db,
    )
    else after_render w t job t.render_error (with_token t job db)

unfoldable pub add_counts : Counts → Counts → Counts
add_counts a b = record {
  accepted = a.accepted + b.accepted;
  failed = a.failed + b.failed;
  delivery_unknown = a.delivery_unknown + b.delivery_unknown;
  cancelled = a.cancelled + b.cancelled;
}

-- The loop over the claimed jobs, each of which meets a turn of its own.
unfoldable pub process_jobs : Worker → (ℕ → Turn) → List MessageJob → Db → Counts × Db
process_jobs w turn [] db = (no_counts, db)
process_jobs w turn (job ∷ rest) db =
    let (counts, db') = process_job w (turn job.id) job db in
    let (others, after) = process_jobs w turn rest db' in (add_counts counts others, after)

-- `none` is the error that a claim raises.
abbrev pub process_claimed :
    Worker → (ℕ → Turn) → Option (List MessageJob × Db) → Option (Counts × Db)
process_claimed w turn none = none
process_claimed w turn (some (jobs, db)) = some (process_jobs w turn jobs db)

-- `if not allowed_kinds`.
abbrev pub no_kinds : Option (List String) → Bool
no_kinds (some []) = true
no_kinds _ = false

-- `process_due_messages`, without its heartbeats; no kinds allowed is no claim at all.
unfoldable pub process_due_messages :
    Worker → (ℕ → Turn) → ℕ → ClaimRequest → (ℕ → Bool) → Db → Option (Counts × Db)
process_due_messages w turn now r held db =
    if no_kinds r.allowed_kinds
    then some (no_counts, db)
    else process_claimed w turn (claim_message_jobs r now held db)
