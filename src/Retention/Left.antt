-- ===== src/Retention/Left.antt =====
-- What the retention policy leaves behind.
use poolbrian_sms_automation.Prelude.{
  ℕ, ◌≡◌, ◌≢◌, ◌⊎◌, refl, true, false, not, List, arith, inl, inr, Bool-cases, All, Has, All-weaken,
  All-Has_self, All-select_where, select_where-keeps,
}
use poolbrian_sms_automation.Store.{
  Db, InboundEvent, EventStatus, ProviderMessageEvent, MessageAttempt,
}
use poolbrian_sms_automation.Retention.{
  older_than, delete_where, scrub_messages, scrub_forwarded, over_event, delete_events,
  delete_provider_events, delete_attempts, is_over, apply_retention_policy,
}
use poolbrian_sms_automation.Retention.Scrubbed.{
  IsOld, IsRecent, older_than-IsOld, older_than-IsRecent, IsScrubbed, IsRedacted, scrub-IsScrubbed,
  redact-IsRedacted,
}

module _ {ℓ} {A : Type ℓ} (time : A → ℕ) (now days : ℕ) (rows : List A) where
  -- What a DELETE of the old rows leaves, and that it leaves all others.
  delete_where-IsRecent :
      All (λ x. IsRecent now days (time x)) (delete_where (λ x. older_than now days (time x)) rows)
  delete_where-IsRecent =
      All-weaken (λ x h. older_than-IsRecent now days (time x) (let t = h.1 in ground arith)) _
        (All-select_where _ (λ x. not (older_than now days (time x))) rows (All-Has_self rows))

  delete_where-keeps :
      All
        (λ x.
          IsOld now days (time x) ⊎ Has x (delete_where (λ x. older_than now days (time x)) rows))
        rows
  delete_where-keeps =
      All-weaken (λ x h. still x h) rows
        (select_where-keeps (λ x. not (older_than now days (time x))) rows)
    where
      still :
          (x : A)
          → (not (older_than now days (time x)) ≡ false)
            ⊎ Has x (delete_where (λ x. older_than now days (time x)) rows)
          → IsOld now days (time x) ⊎ Has x (delete_where (λ x. older_than now days (time x)) rows)
      still x (inl e) = inl (older_than-IsOld now days (time x) (ground arith))
      still x (inr m) = inr m

-- Of the inbound events: none that is old and over, and all others.
pub record IsPurged (now days : ℕ) (before after : List InboundEvent) : Type 0 where
  pub none_over :
      All
        (λ e.
          IsRecent now days e.received_at
          ⊎ ((e.status ≢ EventStatus.completed) × (e.status ≢ EventStatus.dead)))
        after
  pub rest :
      All
        (λ e.
          (IsOld now days e.received_at
            × ((e.status ≡ EventStatus.completed) ⊎ (e.status ≡ EventStatus.dead)))
          ⊎ Has e after)
        before

-- Of a table that only has a time: the rows that are not old, all of them.
pub record IsTrimmed {ℓ} {A : Type ℓ} (time : A → ℕ) (now days : ℕ) (before after : List A)
    : Type ℓ where
  pub recent : All (λ x. IsRecent now days (time x)) after
  pub rest : All (λ x. IsOld now days (time x) ⊎ Has x after) before

over_of :
    (s : EventStatus) → is_over s ≡ true → (s ≡ EventStatus.completed) ⊎ (s ≡ EventStatus.dead)
over_of EventStatus.completed h = inl refl
over_of EventStatus.dead h = inr refl
over_of s h = absurd (cc h)

not_over_of :
    (s : EventStatus) → is_over s ≡ false → (s ≢ EventStatus.completed) × (s ≢ EventStatus.dead)
not_over_of s h = ((λ e. cc (rw e at h)), (λ e. cc (rw e at h)))

purge-IsPurged :
    (now days : ℕ) (rows : List InboundEvent)
    → IsPurged now days rows (delete_where (over_event now days) rows)
purge-IsPurged now days rows = record {
  none_over =
      All-weaken (λ e h. kept e (let t = h.1 in ground arith)) _
        (All-select_where _ (λ e. not (over_event now days e)) rows (All-Has_self rows));
  rest =
      All-weaken (λ e h. still e h) rows
        (select_where-keeps (λ e. not (over_event now days e)) rows);
}
  where
    kept :
        (e : InboundEvent)
        → over_event now days e ≡ false
        → IsRecent now days e.received_at
          ⊎ ((e.status ≢ EventStatus.completed) × (e.status ≢ EventStatus.dead))
    kept e h = elim (Bool-cases (older_than now days e.received_at)) [
      | inl old ↦ inr (not_over_of e.status (rw old at h))
      | inr new ↦ inl (older_than-IsRecent now days e.received_at new)
    ]

    still :
        (e : InboundEvent)
        → (not (over_event now days e) ≡ false) ⊎ Has e (delete_where (over_event now days) rows)
        → (IsOld now days e.received_at
            × ((e.status ≡ EventStatus.completed) ⊎ (e.status ≡ EventStatus.dead)))
          ⊎ Has e (delete_where (over_event now days) rows)
    still e (inl h) =
        inl
          (older_than-IsOld now days e.received_at (ground arith), over_of e.status (ground arith))
    still e (inr m) = inr m

-- Messages and jobs are scrubbed by the first number of days, the logs deleted by the second. The
-- policy leaves no body of an old message, no forwarded text in an old job, no old inbound event
-- that is completed or dead, no old provider event and no old attempt. It keeps as it was every
-- message, job, event and attempt that is not old, and every old event that is not over, and every
-- job keeps its key, status, time and number of attempts.
pub apply_retention_policy_lem :
    (now content_days event_days : ℕ) (db : Db)
    → let after = (apply_retention_policy now content_days event_days db).1 in
      IsScrubbed now content_days db.inbound_messages after.inbound_messages
      × IsRedacted now content_days db.message_jobs after.message_jobs
      × IsPurged now event_days db.inbound_events after.inbound_events
      × IsTrimmed
          (λ (e : ProviderMessageEvent). e.received_at)
          now
          event_days
          db.provider_message_events
          after.provider_message_events
      × IsTrimmed
          (λ (a : MessageAttempt). a.started_at)
          now
          event_days
          db.message_attempts
          after.message_attempts
unfolding apply_retention_policy scrub_messages scrub_forwarded delete_events delete_provider_events
    delete_attempts
apply_retention_policy_lem now content_days event_days db = (
  scrub-IsScrubbed now content_days db.inbound_messages,
  redact-IsRedacted now content_days db.message_jobs,
  purge-IsPurged now event_days db.inbound_events,
  record {
    recent =
        delete_where-IsRecent (λ (e : ProviderMessageEvent). e.received_at) now event_days
          db.provider_message_events;
    rest =
        delete_where-keeps (λ (e : ProviderMessageEvent). e.received_at) now event_days
          db.provider_message_events;
  },
  record {
    recent =
        delete_where-IsRecent (λ (a : MessageAttempt). a.started_at) now event_days
          db.message_attempts;
    rest =
        delete_where-keeps (λ (a : MessageAttempt). a.started_at) now event_days
          db.message_attempts;
  },
)
