-- ===== src/Jobs/Claim.antt =====
-- `claim_message_jobs` of app/repositories/jobs.py: the due jobs are leased to a worker and each
-- gets a numbered attempt. The rows that other transactions hold are an argument, `held`.
use text.Mathlib.Text.{starts_with}
use poolbrian_sms_automation.Prelude.{
  ℕ, ◌+◌, ◌*◌, max, String, Option, none, some, Bool, true, false, not, ◌&&◌, ◌||◌, List, [], ◌∷◌,
  ◌++◌, map, ltb, leb, ◌==◌, if◌then◌else◌, str_eq, contains_text, update_where, select_due,
  contains_key, find_where,
}
use poolbrian_sms_automation.Store.{
  Db, MessageJob, MessageAttempt, Preference, Campaign, Channel, channel_eq, JobStatus,
  CampaignStatus,
}

pub record ClaimRequest : Type 0 where
  pub worker_id : String
  pub limit : ℕ
  pub lease_minutes : ℕ
  pub allowed_kinds : Option (List String)
  pub idempotency_prefix : Option String

-- `:lease_minutes * INTERVAL '1 minute'`, in microseconds.
abbrev pub minutes : ℕ → ℕ
minutes n = n * 60000000

-- `status IN ('queued', 'retry')`.
abbrev pub is_waiting : JobStatus → Bool
is_waiting JobStatus.queued = true
is_waiting JobStatus.retry = true
is_waiting _ = false

-- `COALESCE((SELECT MAX(attempt_number) …), 0)`.
unfoldable pub recorded_attempt_count : ℕ → List MessageAttempt → ℕ
recorded_attempt_count job_id [] = 0
recorded_attempt_count job_id (a ∷ rest) =
    let count = recorded_attempt_count job_id rest in
    if a.message_job_id == job_id then max a.attempt_number count else count

-- The row of communication_preferences that the join meets.
abbrev pub prefers : Channel → String → Preference → Bool
prefers channel destination p =
    channel_eq p.channel channel && str_eq p.destination_normalized destination

abbrev suppressed_of : Option Preference → Bool
suppressed_of none = false
suppressed_of (some p) = p.suppressed

-- `COALESCE(preference.suppressed, FALSE)`; a NULL destination joins no preference.
unfoldable pub suppressed_for : List Preference → Channel → Option String → Bool
suppressed_for ps channel none = false
suppressed_for ps channel (some d) = suppressed_of (find_where (prefers channel d) ps)

abbrev pub is_active : CampaignStatus → Bool
is_active CampaignStatus.active = true
is_active _ = false

abbrev active_or_missing : Option Campaign → Bool
active_or_missing none = true
active_or_missing (some c) = is_active c.status

-- `campaign.id IS NULL OR campaign.status = 'active'`.
unfoldable pub campaign_open : List Campaign → Option ℕ → Bool
campaign_open cs none = true
campaign_open cs (some id) = active_or_missing (find_where (λ c. c.id == id) cs)

abbrev pub kind_allowed : Option (List String) → String → Bool
kind_allowed none kind = true
kind_allowed (some kinds) kind = contains_text kinds kind

-- `LIKE prefix || '%'`, for a prefix without the wildcards of LIKE.
abbrev pub has_prefix : Option String → String → Bool
has_prefix none key = true
has_prefix (some prefix) key = starts_with prefix key

-- The WHERE clause of `due`.
unfoldable pub is_due : ClaimRequest → ℕ → Db → MessageJob → Bool
is_due r now db job =
    is_waiting job.status
    && (leb job.scheduled_at now
        && (not (suppressed_for db.communication_preferences job.channel job.destination_normalized)
            && (campaign_open db.review_campaigns job.campaign_id
                && (kind_allowed r.allowed_kinds job.message_kind
                    && has_prefix r.idempotency_prefix job.idempotency_key))))

-- `ORDER BY job.scheduled_at, job.id`.
unfoldable pub before : MessageJob → MessageJob → Bool
before a b =
    ltb a.scheduled_at b.scheduled_at || (a.scheduled_at == b.scheduled_at && leb a.id b.id)

-- The common table expression `due`.
unfoldable pub due_jobs : ClaimRequest → ℕ → (ℕ → Bool) → Db → List MessageJob
unfolding select_due
due_jobs r now held db =
    select_due (is_due r now db) MessageJob.id held before r.limit db.message_jobs

-- The SET list of the update.
unfoldable pub lease_job : ClaimRequest → ℕ → Db → MessageJob → MessageJob
lease_job r now db job = record job {
  status = JobStatus.leased;
  attempt_count = max job.attempt_count (recorded_attempt_count job.id db.message_attempts) + 1;
  locked_at = some now;
  locked_by = some r.worker_id;
  lease_expires_at = some (now + minutes r.lease_minutes);
  updated_at = now;
}

-- UNIQUE (message_job_id, attempt_number).
unfoldable pub attempt_taken : ℕ → ℕ → List MessageAttempt → Bool
attempt_taken job_id n [] = false
attempt_taken job_id n (a ∷ rest) =
    (a.message_job_id == job_id && a.attempt_number == n) || attempt_taken job_id n rest

abbrev pub new_attempt : ClaimRequest → ℕ → MessageJob → MessageAttempt
new_attempt r now job = record {
  message_job_id = job.id;
  attempt_number = job.attempt_count;
  worker_id = r.worker_id;
  started_at = now;
  finished_at = none;
  outcome = none;
  provider_message_id = none;
  error_code = none;
  error_message = none;
}

-- The loop of INSERTs; `none` is a violation of the constraint.
unfoldable pub insert_attempts :
    ClaimRequest → ℕ → List MessageJob → List MessageAttempt → Option (List MessageAttempt)
insert_attempts r now [] attempts = some attempts
insert_attempts r now (job ∷ rest) attempts =
    let next = insert_attempts r now rest (attempts ++ new_attempt r now job ∷ []) in
    if attempt_taken job.id job.attempt_count attempts then none else next

-- The claimed jobs, in the order of their claim.
unfoldable pub claimed_jobs : ClaimRequest → ℕ → (ℕ → Bool) → Db → List MessageJob
claimed_jobs r now held db = map (lease_job r now db) (due_jobs r now held db)

abbrev pub finish_claim :
    Db → List MessageJob → Option (List MessageAttempt) → Option (List MessageJob × Db)
finish_claim db claimed none = none
finish_claim db claimed (some attempts) = some (claimed, record db { message_attempts = attempts })

-- The UPDATE of the selected rows.
abbrev pub lease_due : ClaimRequest → ℕ → (ℕ → Bool) → Db → Db
lease_due r now held db = record db {
  message_jobs =
      update_where (λ job. contains_key MessageJob.id job.id (due_jobs r now held db))
        (lease_job r now db) db.message_jobs;
}

-- `none` is an exception, which rolls the transaction back.
unfoldable pub claim_message_jobs :
    ClaimRequest → ℕ → (ℕ → Bool) → Db → Option (List MessageJob × Db)
claim_message_jobs r now held db =
    let claimed = claimed_jobs r now held db in
    finish_claim (lease_due r now held db) claimed
      (insert_attempts r now claimed db.message_attempts)
