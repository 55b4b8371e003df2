-- ===== src/Queue/OptOut.antt =====
-- A recipient who has opted out is sent nothing, whatever the workers are doing at the time.
use text.Mathlib.TextPositions.{eq_refl}
use poolbrian_sms_automation.Prelude.{
  ℕ, ◌≡◌, refl, inl, inr, String, Bool, true, false, ◌&&◌, Option, none, some, List, [], ◌∷◌, arith,
  All, All-append, All-at, All-weaken, Chain-All, Bool-cases, if◌then◌else◌, str_eq, find_where,
  find_where_sound, find_where-Has, holds_text_iff,
}
use poolbrian_sms_automation.Store.{Db, MessageJob, Channel, channel_eq}
use poolbrian_sms_automation.Jobs.RowSteps.{RowStep}
use poolbrian_sms_automation.Jobs.Attempts.{claim_message_jobs_lem}
use poolbrian_sms_automation.Jobs.Enqueue.{insert_message_job}
use poolbrian_sms_automation.Jobs.Lease.{is_leased, sending_test, mark_sending}
use poolbrian_sms_automation.Jobs.Recovery.{
  recover_stale_message_jobs, cancel_message_job, retry_dead_or_failed_job,
  cancel_suppressed_queued_jobs,
}
use poolbrian_sms_automation.Preferences.{
  PreferenceChange, is_suppressed, sent_to, save_preference, record_permanent_bounce, bounce_change,
  bounce_latest,
}
use poolbrian_sms_automation.Preferences.OptOut.{
  same_channel, channel_eq_refl, is_suppressed-save_preference, suppressed_for_lem,
  save_preference-none_pending,
}
use poolbrian_sms_automation.Campaigns.Cancel.{cancel_campaign_jobs}
use poolbrian_sms_automation.Queue.{
  Action, claim, start_sending, accept, fail, lose, recover, cancel, retry, callback, sweep,
  enqueue, prefer, bounce, cancel_campaign, perform, run,
}
use poolbrian_sms_automation.Queue.Rows.{
  Growth, kept, added, perform-Progress, grant_of, unsuppressed,
}
use poolbrian_sms_automation.Queue.Sound.{IsSound, perform-IsSound}
use poolbrian_sms_automation.Queue.Unchanged.{
  accept-preferences, fail-preferences, lose-preferences, callback-preferences,
}
use poolbrian_sms_automation.Queue.Unchanged.{notice-preferences}
use poolbrian_sms_automation.Queue.{cancel_notice, change_campaigns, expire}
use poolbrian_sms_automation.Retention.{delete_attempts, scrub_forwarded}

module _ (c : Channel) (d : String) where
  -- Every action but one that opts the recipient in again.
  abbrev pub stays_out : Action → Bool
  stays_out (prefer now p) =
      if channel_eq p.channel c && str_eq p.destination d then p.suppressed else true
  stays_out _ = true

  out_of :
      (before after : Db)
      → after.communication_preferences ≡ before.communication_preferences
      → is_suppressed c d before ≡ true
      → is_suppressed c d after ≡ true
  unfolding is_suppressed
  out_of before after e h = rw e h

  saved_out :
      (now : ℕ) (p : PreferenceChange) (db : Db)
      → (if channel_eq p.channel c && str_eq p.destination d then p.suppressed else true) ≡ true
      → is_suppressed c d db ≡ true
      → is_suppressed c d (save_preference now p db) ≡ true
  saved_out now p db k h = rw (is_suppressed-save_preference now p db c d) (ground arith)

  bounce_latest-preferences :
      (now : ℕ) (db : Db) (row : Option MessageJob)
      → (bounce_latest now db row).communication_preferences ≡ db.communication_preferences
  bounce_latest-preferences now db none = refl
  bounce_latest-preferences now db (some job) = refl

  perform-out :
      (a : Action) (db : Db)
      → IsSound db
      → stays_out a ≡ true
      → is_suppressed c d db ≡ true
      → is_suppressed c d (perform a db) ≡ true
  unfolding perform
  perform-out (claim r now held) db s k h =
      rw (claim_message_jobs_lem r now held db s.unique_ids) (out_of db _ refl h)
  perform-out (start_sending now id w) db s k h = out_of db _ (unfold mark_sending in refl) h
  perform-out (accept now id w a) db s k h = out_of db _ (accept-preferences now id w a db) h
  perform-out (fail now id w f) db s k h = out_of db _ (fail-preferences now id w f db) h
  perform-out (lose now id w error code) db s k h =
      out_of db _ (lose-preferences now id w error code db) h
  perform-out (recover now) db s k h = out_of db _ (unfold recover_stale_message_jobs in refl) h
  perform-out (cancel now id w reason) db s k h = out_of db _ (unfold cancel_message_job in refl) h
  perform-out (retry now id) db s k h = out_of db _ (unfold retry_dead_or_failed_job in refl) h
  perform-out (callback now e) db s k h = out_of db _ (callback-preferences now e db) h
  perform-out (sweep now) db s k h = out_of db _ (unfold cancel_suppressed_queued_jobs in refl) h
  perform-out (enqueue now n) db s k h = out_of db _ (unfold insert_message_job in ground arith) h
  perform-out (prefer now p) db s k h = saved_out now p db k h
  perform-out (bounce now destination message_id) db s k h =
      unfold record_permanent_bounce in
      out_of (save_preference now (bounce_change destination message_id) db) _
        (bounce_latest-preferences now _ _)
        (saved_out now (bounce_change destination message_id) db (ground arith) h)
  perform-out (cancel_campaign now id reason) db s k h =
      out_of db _ (unfold cancel_campaign_jobs in refl) h
  perform-out (cancel_notice now id) db s k h = out_of db _ (notice-preferences now id db) h
  perform-out (change_campaigns campaigns) db s k h = out_of db _ refl h
  perform-out (expire now content_days event_days) db s k h =
      out_of db _ (unfold delete_attempts scrub_forwarded in refl) h

  -- No job to the recipient is leased.
  abbrev pub IsIdle : MessageJob → Type 0
  IsIdle job = sent_to c d job ≡ true → is_leased job.status ≡ false

  unsuppressed-out :
      (db : Db) (job : MessageJob)
      → is_suppressed c d db ≡ true
      → sent_to c d job ≡ true
      → unsuppressed db job ≡ false
  unsuppressed-out db job h t =
      let channel : job.channel ≡ c = same_channel job.channel c (ground arith) in
      let destination : job.destination_normalized ≡ some d =
        (holds_text_iff job.destination_normalized d).0 (ground arith) in
      rw (channel, destination, suppressed_for_lem c d db, h)

  may_lease-out :
      (a : Action) (db : Db) (job : MessageJob)
      → is_suppressed c d db ≡ true
      → sent_to c d job ≡ true
      → (grant_of a db).may_lease job ≡ false
  may_lease-out (claim r now held) db job h t = unsuppressed-out db job h t
  may_lease-out (retry now id) db job h t = refl
  may_lease-out _ db job h t = refl

  step-IsIdle :
      (a : Action) (db : Db)
      → is_suppressed c d db ≡ true
      → (x y : MessageJob) → RowStep (grant_of a db) x y
      → IsIdle x
      → IsIdle y
  step-IsIdle a db h x y r idle t = elim (Bool-cases (is_leased y.status)) [
    | inr free ↦ free
    | inl leased ↦
        let same : sent_to c d x ≡ true = rw (r.same_channel, r.same_destination) at t in
        elim (r.leased_anew leased) [
          | inl anew ↦ cc (may_lease-out a db x h same, anew.1)
          | inr old ↦ cc (idle same, old.0)
        ]
  ]

  perform-IsIdle :
      (a : Action) (db : Db)
      → IsSound db
      → is_suppressed c d db ≡ true
      → All IsIdle db.message_jobs
      → All IsIdle (perform a db).message_jobs
  perform-IsIdle a db s h idle =
      let p = perform-Progress a db s.unique_ids in
      grown (perform a db) p.middle p.growth (Chain-All IsIdle (step-IsIdle a db h) p.rows idle)
    where
      grown :
          (after : Db) (middle : List MessageJob)
          → Growth db after middle
          → All IsIdle middle
          → All IsIdle after.message_jobs
      grown after middle (kept e le) m = rw e m
      grown after middle (added row e i q st n w k) m =
          rw e (All-append IsIdle middle (row ∷ []) m ((λ t. rw st), tt))

  pub run-IsIdle :
      (actions : List Action) (db : Db)
      → All (λ a. stays_out a ≡ true) actions
      → IsSound db
      → is_suppressed c d db ≡ true
      → All IsIdle db.message_jobs
      → All IsIdle (run actions db).message_jobs
  unfolding run
  run-IsIdle [] db k s h idle = idle
  run-IsIdle (a ∷ rest) db k s h idle =
      run-IsIdle rest (perform a db) k.1 (perform-IsSound a db s) (perform-out a db s k.0 h)
        (perform-IsIdle a db s h idle)

  pub not_sendable :
      (id : ℕ) (w : String) (job : MessageJob)
      → IsIdle job
      → sending_test id w job ≡ true
      → sent_to c d job ≡ false
  not_sendable id w job idle t = elim (Bool-cases (sent_to c d job)) [
    | inr other ↦ other
    | inl same ↦ absurd (ground (arith, idle same))
  ]

opted_out :
    (now : ℕ) (p : PreferenceChange) (db : Db)
    → p.suppressed ≡ true
    → is_suppressed p.channel p.destination (perform (prefer now p) db) ≡ true
unfolding perform
opted_out now p db out =
    rw
      (
        is_suppressed-save_preference now p db p.channel p.destination,
        channel_eq_refl p.channel,
        eq_refl p.destination,
      )
      out

opted-IsIdle :
    (now : ℕ) (p : PreferenceChange) (db : Db)
    → p.suppressed ≡ true
    → All (IsIdle p.channel p.destination) (perform (prefer now p) db).message_jobs
unfolding perform
opted-IsIdle now p db out =
    All-weaken (λ job h t. ground arith) _ (save_preference-none_pending now p db out)

-- Once a sound queue has saved an opt-out, then after any actions that do not opt the recipient in
-- again the job that any worker would be given leave to send is not one to that recipient.
pub opted_out-not_sent :
    (now : ℕ) (p : PreferenceChange) (actions : List Action) (db : Db)
    → p.suppressed ≡ true
    → IsSound db
    → All (λ a. stays_out p.channel p.destination a ≡ true) actions
    → (id : ℕ) (w : String) (job : MessageJob)
    → find_where (sending_test id w) (run actions (perform (prefer now p) db)).message_jobs
      ≡ some job
    → sent_to p.channel p.destination job ≡ false
opted_out-not_sent now p actions db out s k id w job found =
    let idle =
      run-IsIdle p.channel p.destination actions (perform (prefer now p) db) k
        (perform-IsSound (prefer now p) db s) (opted_out now p db out)
        (opted-IsIdle now p db out) in
    not_sendable p.channel p.destination id w job
      (All-at (IsIdle p.channel p.destination) job _
        (find_where-Has (sending_test id w) _ job found) idle)
      (find_where_sound (sending_test id w) _ job found)
