-- ===== src/Queue/Sound.antt =====
-- The tables stay sound: ids and idempotency keys of jobs are unique, the ids are below the
-- sequence that gives the next one, and each row is coherent.
use mathlib.Core.List.{map-append}
use poolbrian_sms_automation.Prelude.{
  ℕ, ◌<◌, ◌≡◌, sym, subst, String, false, List, [], ◌∷◌, map, arith, All, All-weaken, All-append,
  IsUnique, IsUnique-snoc, Fresh, Chain, Chain-All, Chain-map, eq_iff,
}
use poolbrian_sms_automation.Store.{Db, MessageJob}
use poolbrian_sms_automation.Jobs.Edges.{Grant}
use poolbrian_sms_automation.Jobs.RowSteps.{RowStep}
use poolbrian_sms_automation.Jobs.Coherent.{IsCoherent}
use poolbrian_sms_automation.Jobs.Enqueue.{NewJob, key_taken, insert_message_job}
use poolbrian_sms_automation.Queue.Same.{SameQueue}
use poolbrian_sms_automation.Queue.{Action, enqueue, perform, run}
use poolbrian_sms_automation.Queue.Rows.{Growth, kept, added, perform-Progress}

pub record IsSound (db : Db) : Type 0 where
  pub unique_ids : IsUnique (map MessageJob.id db.message_jobs)
  pub unique_keys : IsUnique (map MessageJob.idempotency_key db.message_jobs)
  pub below_seq : All (λ job. job.id < db.message_job_seq) db.message_jobs
  pub coherent : All IsCoherent db.message_jobs

Fresh-of_key :
    (key : String) (jobs : List MessageJob)
    → key_taken key jobs ≡ false
    → Fresh key (map MessageJob.idempotency_key jobs)
unfolding key_taken
Fresh-of_key key [] h = tt
Fresh-of_key key (job ∷ rest) h =
    ((λ e. ground (arith, eq_iff job.idempotency_key key)), Fresh-of_key key rest (ground arith))

Fresh-of_below :
    (seq : ℕ) (jobs : List MessageJob)
    → All (λ job. job.id < seq) jobs
    → Fresh seq (map MessageJob.id jobs)
Fresh-of_below seq [] h = tt
Fresh-of_below seq (job ∷ rest) h = ((λ e. omega arith), Fresh-of_below seq rest h.1)

module _ {g : Grant} {before : Db} (sound : IsSound before) where
  ids_of :
      {middle : List MessageJob}
      → Chain (RowStep g) before.message_jobs middle
      → map MessageJob.id middle ≡ map MessageJob.id before.message_jobs
  ids_of c = Chain-map MessageJob.id (λ x y r. r.same_id) c

  keys_of :
      {middle : List MessageJob}
      → Chain (RowStep g) before.message_jobs middle
      → map MessageJob.idempotency_key middle ≡ map MessageJob.idempotency_key before.message_jobs
  keys_of c = Chain-map MessageJob.idempotency_key (λ x y r. r.same_key) c

  below_of :
      {middle : List MessageJob}
      → Chain (RowStep g) before.message_jobs middle
      → All (λ job. job.id < before.message_job_seq) middle
  below_of c =
      Chain-All (λ job. job.id < before.message_job_seq)
        (λ x y r h. subst (λ i. i < before.message_job_seq) (sym r.same_id) h) c sound.below_seq

  IsCoherent-of :
      {middle : List MessageJob}
      → Chain (RowStep g) before.message_jobs middle
      → All IsCoherent middle
  IsCoherent-of c = Chain-All IsCoherent (λ x y r. r.keeps) c sound.coherent

  Growth-IsSound :
      (after : Db) (middle : List MessageJob)
      → Chain (RowStep g) before.message_jobs middle
      → Growth before after middle
      → IsSound after
  Growth-IsSound after middle c (kept e le) = record {
    unique_ids = rw e (rw (ids_of c) sound.unique_ids);
    unique_keys = rw e (rw (keys_of c) sound.unique_keys);
    below_seq = rw e (All-weaken (λ job h. omega arith) middle (below_of c));
    coherent = rw e (IsCoherent-of c);
  }
  Growth-IsSound after middle c (added row e i s q n w k) = record {
    unique_ids =
        rw (e, map-append)
          (rw (ids_of c) (
            IsUnique-snoc _ row.id sound.unique_ids
              (rw i (Fresh-of_below before.message_job_seq before.message_jobs sound.below_seq))));
    unique_keys =
        rw (e, map-append)
          (rw (keys_of c) (
            IsUnique-snoc _ row.idempotency_key sound.unique_keys
              (Fresh-of_key row.idempotency_key before.message_jobs k)));
    below_seq = rw e (
        All-append (λ job. job.id < after.message_job_seq) middle (row ∷ [])
          (All-weaken (λ job h. omega arith) middle (below_of c)) (omega arith, tt));
    coherent = rw e (All-append IsCoherent middle (row ∷ []) (IsCoherent-of c) (w, tt));
  }

-- Every action keeps the tables sound.
pub perform-IsSound : (a : Action) (db : Db) → IsSound db → IsSound (perform a db)
perform-IsSound a db s =
    let p = perform-Progress a db s.unique_ids in
    Growth-IsSound s (perform a db) p.middle p.rows p.growth

-- Whatever is done to a sound queue, by whom and in which order, it stays sound.
pub run-IsSound : (actions : List Action) (db : Db) → IsSound db → IsSound (run actions db)
unfolding run
run-IsSound [] db s = s
run-IsSound (a ∷ rest) db s = run-IsSound rest (perform a db) (perform-IsSound a db s)

pub IsSound-jobs :
    (a b : Db)
    → a.message_jobs ≡ b.message_jobs
    → a.message_job_seq ≡ b.message_job_seq
    → IsSound a
    → IsSound b
IsSound-jobs a b jobs seq s = record {
  unique_ids = subst (λ js. IsUnique (map MessageJob.id js)) jobs s.unique_ids;
  unique_keys = subst (λ js. IsUnique (map MessageJob.idempotency_key js)) jobs s.unique_keys;
  below_seq = rw (sym jobs, sym seq) s.below_seq;
  coherent = subst (All IsCoherent) jobs s.coherent;
}

-- Soundness is about the queue alone.
pub IsSound-SameQueue : (a b : Db) → SameQueue a b → IsSound a → IsSound b
IsSound-SameQueue a b q s = IsSound-jobs a b q.same_jobs q.same_seq s

pub insert_message_job-IsSound :
    (now : ℕ) (n : NewJob) (db : Db) → IsSound db → IsSound (insert_message_job now n db).1
insert_message_job-IsSound now n db s = unfold perform in perform-IsSound (enqueue now n) db s
