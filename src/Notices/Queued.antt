-- ===== src/Notices/Queued.antt =====
-- What `enqueue_service_notice_campaign` writes.
use poolbrian_sms_automation.Prelude.{
  ℕ, ◌+◌, ◌≡◌, Option, some, Bool, true, false, List, [], ◌∷◌, ◌++◌, length, if◌then◌else◌,
}
use poolbrian_sms_automation.Store.{Db, MessageJob, NoticeRecipient}
use poolbrian_sms_automation.Jobs.Enqueue.{key_taken, new_row}
use poolbrian_sms_automation.Notices.Recipients.{Recipient}
use poolbrian_sms_automation.Notices.Enqueue.{
  Notice, Queued, value_error, queued_campaign, notice_key, notice_job, notice_recipient,
  insert_notice,
}

abbrev is_empty : List ℕ → Bool
is_empty [] = true
is_empty (x ∷ xs) = false

-- The jobs and the recipients' rows, each recipient's job with the next id.
abbrev pub notice_jobs : ℕ → Notice → ℕ → ℕ → List Recipient → List MessageJob
notice_jobs now n id seq [] = []
notice_jobs now n id seq (r ∷ rest) =
    new_row now seq (notice_job n id r) ∷ notice_jobs now n id (seq + 1) rest

abbrev pub notice_links : ℕ → ℕ → List Recipient → List NoticeRecipient
notice_links id seq [] = []
notice_links id seq (r ∷ rest) = notice_recipient id r seq ∷ notice_links id (seq + 1) rest

abbrev pub IsFree : Notice → ℕ → List MessageJob → Recipient → Type 0
IsFree n id jobs r = key_taken (notice_key n id r.phone_e164) jobs ≡ false

-- The tables with the rows of the recipients.
abbrev pub notified : ℕ → Notice → ℕ → List Recipient → Db → Db
notified now n id rs db = record db {
  message_jobs = db.message_jobs ++ notice_jobs now n id db.message_job_seq rs;
  service_notice_recipients = db.service_notice_recipients ++ notice_links id db.message_job_seq rs;
  message_job_seq = db.message_job_seq + length rs;
}

tables_of : List MessageJob → List NoticeRecipient → ℕ → Db → Option Db
tables_of jobs links seq db =
    some
      (record db { message_jobs = jobs; service_notice_recipients = links; message_job_seq = seq })

abbrev pub queue_for : ℕ → Notice → Db → List ℕ → List Recipient → Queued × Db
queue_for now n db ids [] = (
  value_error (
      if is_empty ids
      then "Select at least one customer"
      else "No selected customers are currently eligible"),
  db,
)
queue_for now n db ids (r ∷ rest) = (
  queued_campaign db.notice_campaign_seq (length (r ∷ rest)),
  notified now n db.notice_campaign_seq (r ∷ rest) (insert_notice now n (length (r ∷ rest)) db),
)
