-- ===== src/Lib.antt =====
-- poolbrian-sms-automation: messages to the customers of a pool service. Completed services,
-- alerts and forms of the website give rise to rows of a queue, workers lease the rows and send
-- them by text message or email, providers report what became of them, and recipients opt out.
-- The state is a PostgreSQL database, and every function of the repositories is one transaction.
--
-- The files, and the code that each is about (paths from the root of the repository):
-- Store: the rows of the tables of migrations/versions, and `Db`, all tables. Store.Json: JSON
-- values of the JSONB columns.
-- Jobs.Claim, Jobs.Lease, Jobs.Recovery, Jobs.Provider, Jobs.Enqueue: app/repositories/jobs.py,
-- and `_insert_message_job` of app/repositories/campaigns.py. A function of the code is the
-- function
-- of the same name here, from `Db` to its result and `Db`; the WHERE clause of a statement is a
-- test on rows, its SET list a function on rows. Jobs.Coherent, Jobs.Edges, Jobs.RowSteps,
-- Jobs.Steps: what the columns of a job say together, the state machine of its status, and that
-- each statement moves
-- rows along it. Jobs.Due, Jobs.Attempts, Jobs.Served: claims. Jobs.Callbacks: callbacks that come
-- twice. Jobs.Stranded: a race of callback and worker.
-- Preferences: app/repositories/preferences.py, unsubscribe.py, and `record_permanent_bounce` of
-- bounces.py.
-- Campaigns.Cancel, Campaigns.Workflow, Campaigns.Alerts: app/repositories/campaigns.py;
-- Campaigns.Cancel and Campaigns.Confirm: app/repositories/admin.py. Campaigns.Confirm.Undo: a
-- confirmation and its undoing. Campaigns.Withdrawn: the jobs of a campaign that is over.
-- Notices, Notices.Recipients, Notices.Enqueue, Notices.Candidates:
-- app/repositories/service_notices.py.
-- Notices.Phones, Notices.Eligible: who the recipients are. Notices.Queued: what a campaign
-- inserts. Notices.Counts:
-- the counts of a campaign.
-- Inbound: app/repositories/inbound_messages.py. Inbound.Again: messages that come twice.
-- Inbound.Newest, Inbound.Ended: the campaign that a message ends. Inbound.Runs: a message as
-- actions of the queue. Inbound.Stop: what follows an opt-out.
-- Reviews: the scores of names of app/domain/reviews.py, with Reviews.Import:
-- app/repositories/google_reviews.py. Reviews.Matched: what a review changes.
-- Retention: app/repositories/retention.py. Retention.Scrubbed, Retention.Left: what the policy
-- leaves behind.
-- Webhooks, Webhooks.Status: `twilio_inbound` and `twilio_status` of app/routes/webhooks.py.
-- Webhooks.Alerts: the alerts of status callbacks.
-- Pages: the pages of a table, `_paginated_rows` of app/repositories/dashboard.py. Dashboard:
-- `dashboard_snapshot` of the same file. Pages.Whole, Pages.Bounds: that pages are complete, and
-- their numbers.
-- Outcomes: app/repositories/outcomes.py.
-- Workers: what `process_due_messages` of app/workers.py does after the provider's answer.
-- Workers.Loop: one round for one claimed job, and the loop of all. Workers.Contacts,
-- Workers.Polling: `_customer_contacts` and `poll_completed_services`. Workers.Alerts,
-- Workers.Inbox:
-- `_process_poolbrain_event`, `process_inbound_events`, `recover_stale_work` and the kinds of
-- messages.
-- Workers.Passes: `process_all`. Workers.Polling.Counted: the counters of a poll. The modules named
-- Sound, also Campaigns.Workflow.Sound: that the queue stays sound. Workers.Releases,
-- Workers.Fates: what a round leaves behind.
-- State: app/repositories/state.py and heartbeats.py.
-- Events: app/repositories/events.py.
-- Domain: app/domain/contact.py, jobs.py (Domain.Backoff), sms.py, and app/time_utils.py with
-- `review_message_schedule` of app/domain/reviews.py (Domain.Schedule).
-- Queue: runs, which are sequences of transactions of any number of workers, callbacks, opt-outs
-- and operators in any order, with notices, the deletion of old rows, and any change of the
-- campaigns by other code. A transaction runs as if alone, as row locks make it on one row;
-- the rows that others hold during a claim (SKIP LOCKED) are an argument of it.
-- Examples: concrete tables and runs.
--
-- Numbers and times: a timestamp is a number of microseconds, and NOW() is an argument of each
-- transaction, so no theorem supposes that clocks agree. Sequences behind BIGSERIAL columns are
-- numbers in `Db`. Texts are code points in Domain and strings elsewhere. Integers are not
-- bounded: the BIGINT columns are far from their limits. Every recursion is on a list or a number
-- of the input, so there is no fuel.
--
-- Parameters: the methods of Python's texts and its regular expression class (Domain.Contact), the
-- database of zones (Domain.Schedule), `int` and `lower` of texts and the provider's answer
-- (Workers), fresh tokens, `str` of an int (Campaigns.Workflow, Notices.Enqueue), the methods of
-- texts and the signature of a request (Webhooks), ILIKE, the collation and the dates of a time
-- zone (Pages.Search), and `casefold` and `split` of names (Reviews).
--
-- Not modelled: the other request handlers, templates, the HTTP clients of the providers,
-- configuration
-- and cryptography, the heartbeats of process_due_messages and logs (input and output of
-- libraries); the backfill of contacts,
-- audit events, OAuth and the other workers. The statements of the retention policy on tables that
-- are not in `Db` are left out. An exception that rolls a transaction back leaves the sequences of
-- ids as they were here, where PostgreSQL moves them on. The wildcards of LIKE in an idempotency
-- prefix are not read as such. The payload of a provider event is not stored. Foreign keys, the
-- UNIQUE constraints of review_campaigns and unsubscribe_tokens, and of message_jobs the UNIQUE
-- (campaign_id, message_kind) and the CHECK on max_attempts are not enforced; the INSERTs that are
-- modelled give each kind once to a new campaign. An error of the database is modelled where
-- the code handles it on a worker's round or a claim, and in the recovery of `process_all` between
-- its transactions, nowhere else.
pub mod Prelude
pub mod Store
pub mod Domain
pub mod Jobs
pub mod Preferences
pub mod Campaigns
pub mod Notices
pub mod Inbound
pub mod Reviews
pub mod Retention
pub mod Webhooks
pub mod Pages
pub mod Dashboard
pub mod State
pub mod Outcomes
pub mod Workers
pub mod Events
pub mod Queue
pub mod Examples
