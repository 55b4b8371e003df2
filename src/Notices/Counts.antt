-- ===== src/Notices/Counts.antt =====
-- The counts of `recent_service_notice_campaigns` and the jobs that they count.
use poolbrian_sms_automation.Prelude.{
  ℕ, suc, ◌+◌, ◌≡◌, refl, ap, ◌∙◌, Bool, true, false, ◌&&◌, List, [], ◌∷◌, if◌then◌else◌, arith,
  Bool-cases, inl, inr, count_where,
}
use poolbrian_sms_automation.Store.{Db, MessageJob, JobStatus, NoticeCampaign}
use poolbrian_sms_automation.Notices.{of_notice}
use poolbrian_sms_automation.Notices.Candidates.{
  pending_job, accepted_job, failed_job, cancelled_job, notice_count, summary_of,
}

-- The status between the lease and the provider's answer, which no count names.
abbrev pub sending_job : JobStatus → Bool
sending_job JobStatus.sending = true
sending_job _ = false

abbrev counted : (ℕ → Bool) → (JobStatus → Bool) → List MessageJob → ℕ
counted of_campaign test jobs = count_where (λ job. of_campaign job.id && test job.status) jobs

abbrev add_if : Bool → ℕ → ℕ
add_if b k = if b then suc k else k

-- A status is in one of the counts.
one_kind :
    (s : JobStatus) (p a f c d : ℕ)
    → add_if (pending_job s) p
        + add_if (accepted_job s) a
        + add_if (failed_job s) f
        + add_if (cancelled_job s) c
        + add_if (sending_job s) d
      ≡ suc (p + a + f + c + d)
one_kind JobStatus.queued p a f c d = omega arith
one_kind JobStatus.leased p a f c d = omega arith
one_kind JobStatus.retry p a f c d = omega arith
one_kind JobStatus.sending p a f c d = omega arith
one_kind JobStatus.accepted p a f c d = omega arith
one_kind JobStatus.sent p a f c d = omega arith
one_kind JobStatus.delivered p a f c d = omega arith
one_kind JobStatus.failed p a f c d = omega arith
one_kind JobStatus.cancelled p a f c d = omega arith
one_kind JobStatus.dead p a f c d = omega arith
one_kind JobStatus.delivery_unknown p a f c d = omega arith

counts_add :
    (of_campaign : ℕ → Bool) (jobs : List MessageJob)
    → counted of_campaign pending_job jobs
        + counted of_campaign accepted_job jobs
        + counted of_campaign failed_job jobs
        + counted of_campaign cancelled_job jobs
        + counted of_campaign sending_job jobs
      ≡ counted of_campaign (λ s. true) jobs
unfolding count_where
counts_add of_campaign [] = refl
counts_add of_campaign (job ∷ rest) =
    let ih = counts_add of_campaign rest in
    elim (Bool-cases (of_campaign job.id)) [
      | inl e ↦ rw e (
          let kind =
            one_kind job.status (counted of_campaign pending_job rest)
              (counted of_campaign accepted_job rest) (counted of_campaign failed_job rest)
              (counted of_campaign cancelled_job rest) (counted of_campaign sending_job rest) in
          kind ∙ ap suc ih)
      | inr e ↦ rw e ih
    ]

-- The counts of a campaign and the number of its jobs that are `sending` add up to the number of
-- all of its jobs.
pub summary_of_complete :
    (db : Db) (c : NoticeCampaign)
    → (summary_of db c).pending_count
        + (summary_of db c).accepted_count
        + (summary_of db c).failed_count
        + (summary_of db c).cancelled_count
        + notice_count sending_job c.id db
      ≡ notice_count (λ status. true) c.id db
unfolding notice_count
summary_of_complete db c = counts_add (of_notice c.id db.service_notice_recipients) db.message_jobs
