-- ===== src/Retention/Scrubbed.antt =====
-- What the retention policy leaves of messages and jobs.
use poolbrian_sms_automation.Prelude.{
  ℕ, ◌+◌, ◌*◌, ◌≤◌, ◌<◌, ◌≡◌, ◌⊎◌, refl, String, Option, none, some, true, false, List, map, arith,
  inl, inr, Bool-cases, str_eq, is_some, All, Has, All-weaken, All-update_where_new,
  map-update_where, update_where, update_where-keeps,
}
use poolbrian_sms_automation.Store.{MessageJob, JobStatus, InboundMessage}
use poolbrian_sms_automation.Store.Json.{Fields, field, end}
use poolbrian_sms_automation.Retention.{
  older_than, has_key, without_key, scrubbed_test, forwarded_test, scrub_job,
}

-- Older than so many days, and not older.
abbrev pub IsOld : ℕ → ℕ → ℕ → Type 0
IsOld now days at = at + days * 86400000000 < now

abbrev pub IsRecent : ℕ → ℕ → ℕ → Type 0
IsRecent now days at = now ≤ at + days * 86400000000

pub older_than-IsOld : (now days at : ℕ) → older_than now days at ≡ true → IsOld now days at
older_than-IsOld now days at h = ground arith

pub older_than-IsRecent : (now days at : ℕ) → older_than now days at ≡ false → IsRecent now days at
older_than-IsRecent now days at h = ground arith

has_key-without_key : (k : String) (fs : Fields) → has_key k (without_key k fs) ≡ false
unfolding has_key without_key
has_key-without_key k end = refl
has_key-without_key k (field j v rest) =
    let ih = has_key-without_key k rest in
    elim (Bool-cases (str_eq j k)) [ inl e ↦ rw e ih | inr e ↦ rw (e, e) ih ]

-- What a worker reads of a job, its data aside.
pub record Kept : Type 0 where
  pub id : ℕ
  pub idempotency_key : String
  pub status : JobStatus
  pub scheduled_at : ℕ
  pub attempt_count : ℕ

abbrev pub kept_of : MessageJob → Kept
kept_of job = record {
  id = job.id;
  idempotency_key = job.idempotency_key;
  status = job.status;
  scheduled_at = job.scheduled_at;
  attempt_count = job.attempt_count;
}

-- What the policy makes of the messages: no body of an old one, and the others as they were.
pub record IsScrubbed (now days : ℕ) (before after : List InboundMessage) : Type 0 where
  pub no_body : All (λ m. IsRecent now days m.received_at ⊎ (m.body_ciphertext ≡ none)) after
  pub rest : All (λ m. IsOld now days m.received_at ⊎ Has m after) before

-- Of the jobs: no forwarded text in an old one, the others as they were, and in all of them what a
-- worker reads beside the data.
pub record IsRedacted (now days : ℕ) (before after : List MessageJob) : Type 0 where
  pub no_text :
      All
        (λ job.
          IsRecent now days job.created_at ⊎ (has_key "message_body" job.template_data ≡ false))
        after
  pub rest : All (λ job. IsOld now days job.created_at ⊎ Has job after) before
  pub kept : map kept_of after ≡ map kept_of before

pub scrub-IsScrubbed :
    (now days : ℕ) (rows : List InboundMessage)
    → IsScrubbed now days rows (
        update_where
          (scrubbed_test now days)
          (λ m. record m { body_ciphertext = none; body_preview = some "[content expired]" })
          rows)
scrub-IsScrubbed now days rows = record {
  no_body =
      All-update_where_new (λ m. IsRecent now days m.received_at ⊎ (m.body_ciphertext ≡ none))
        (scrubbed_test now days) _ (λ m e. inr refl) (λ m e. untouched m e) rows;
  rest = All-weaken (λ m h. still m h) rows (update_where-keeps (scrubbed_test now days) _ rows);
}
  where
    no_text : (o : Option String) → is_some o ≡ false → o ≡ none
    no_text none e = refl
    no_text (some t) e = absurd (cc e)

    untouched :
        (m : InboundMessage)
        → scrubbed_test now days m ≡ false
        → IsRecent now days m.received_at ⊎ (m.body_ciphertext ≡ none)
    untouched m e = elim (Bool-cases (older_than now days m.received_at)) [
      | inl old ↦ inr (no_text m.body_ciphertext (rw old at e))
      | inr new ↦ inl (older_than-IsRecent now days m.received_at new)
    ]

    still :
        (m : InboundMessage)
        → (scrubbed_test now days m ≡ true)
          ⊎ Has m (
              update_where
                (scrubbed_test now days)
                (λ m. record m { body_ciphertext = none; body_preview = some "[content expired]" })
                rows)
        → IsOld now days m.received_at
          ⊎ Has m (
              update_where
                (scrubbed_test now days)
                (λ m. record m { body_ciphertext = none; body_preview = some "[content expired]" })
                rows)
    still m (inl e) = inl (older_than-IsOld now days m.received_at (ground arith))
    still m (inr h) = inr h

pub redact-IsRedacted :
    (now days : ℕ) (rows : List MessageJob)
    → IsRedacted now days rows (update_where (forwarded_test now days) (scrub_job now) rows)
redact-IsRedacted now days rows = record {
  no_text =
      All-update_where_new
        (λ job.
          IsRecent now days job.created_at ⊎ (has_key "message_body" job.template_data ≡ false))
        (forwarded_test now days) (scrub_job now)
        (λ job e. inr (has_key-without_key "message_body" job.template_data))
        (λ job e. untouched job e) rows;
  rest =
      All-weaken (λ job h. still job h) rows
        (update_where-keeps (forwarded_test now days) (scrub_job now) rows);
  kept = map-update_where kept_of (forwarded_test now days) (scrub_job now) (λ job. refl) rows;
}
  where
    untouched :
        (job : MessageJob)
        → forwarded_test now days job ≡ false
        → IsRecent now days job.created_at ⊎ (has_key "message_body" job.template_data ≡ false)
    untouched job e = elim (Bool-cases (older_than now days job.created_at)) [
      | inl old ↦ inr (rw old at e)
      | inr new ↦ inl (older_than-IsRecent now days job.created_at new)
    ]

    still :
        (job : MessageJob)
        → (forwarded_test now days job ≡ true)
          ⊎ Has job (update_where (forwarded_test now days) (scrub_job now) rows)
        → IsOld now days job.created_at
          ⊎ Has job (update_where (forwarded_test now days) (scrub_job now) rows)
    still job (inl e) = inl (older_than-IsOld now days job.created_at (ground arith))
    still job (inr h) = inr h
