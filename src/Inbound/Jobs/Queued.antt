-- ===== src/Inbound/Jobs/Queued.antt =====
-- The queue under retried webhooks and any sequence of the worker's operations.
use mathlib.Core.Path.{subst}
use stonesuite_notify.Base.{
  ℕ, ◌<◌, ◌≡◌, refl, ap, inl, inr, String, Bool, true, not, ◌==◌, List, [], ◌∷◌, arith, leb, any,
  All, All-append, All-update, All-select, any-append_left, any-last, eq_refl, Bool-cases, ok,
  ok-injective,
}
use stonesuite_notify.Base.Int.{ℤ, pos, negsuc}
use stonesuite_notify.Inbound.Jobs.{
  pending, failed, JobRow, Job, max_job_attempts, job_row, is_file, insert_job, insert_jobs,
  enqueue, in_progress, claim_due, complete, given_up, give_up, rescheduled, retry, fail,
}

module _ (new_id : String → String) (now : ℕ) (email_id upload_ref : String) where
  insert_job-keeps :
      (e b : String) (row : JobRow) (table : List JobRow)
      → any (is_file e b) table ≡ true
      → any (is_file e b) (insert_job row table) ≡ true
  insert_job-keeps e b row table h =
      elim (Bool-cases (any (is_file row.email_id row.attachment_id) table)) [
        | inl k ↦ rw (k, h)
        | inr k ↦ rw k (any-append_left (is_file e b) table (row ∷ []) h)
      ]

  insert_job-has :
      (row : JobRow) (table : List JobRow)
      → any (is_file row.email_id row.attachment_id) (insert_job row table) ≡ true
  insert_job-has row table =
      elim (Bool-cases (any (is_file row.email_id row.attachment_id) table)) [
        | inl k ↦ rw (k, k)
        | inr k ↦ rw k (
            any-last (is_file row.email_id row.attachment_id) table row
              (rw (eq_refl row.email_id, eq_refl row.attachment_id)))
      ]

  insert_jobs-keeps :
      (e b : String) (as' : List String) (table : List JobRow)
      → any (is_file e b) table ≡ true
      → any (is_file e b) (insert_jobs new_id now email_id upload_ref as' table) ≡ true
  unfolding insert_jobs
  insert_jobs-keeps e b [] table h = h
  insert_jobs-keeps e b (a ∷ rest) table h =
      insert_jobs-keeps e b rest (insert_job (job_row new_id now email_id upload_ref a) table)
        (insert_job-keeps e b (job_row new_id now email_id upload_ref a) table h)

  -- After the insert every file of the mail is queued.
  insert_jobs-has :
      (ids : List String) (table : List JobRow)
      → All
          (λ a.
            any (is_file email_id a) (insert_jobs new_id now email_id upload_ref ids table) ≡ true)
          ids
  unfolding insert_jobs job_row
  insert_jobs-has [] table = tt
  insert_jobs-has (a ∷ rest) table = (
    insert_jobs-keeps email_id a rest _
        (insert_job-has (job_row new_id now email_id upload_ref a) table),
    insert_jobs-has rest _,
  )

  insert_jobs-none :
      (ids : List String) (table : List JobRow)
      → All (λ a. any (is_file email_id a) table ≡ true) ids
      → insert_jobs new_id now email_id upload_ref ids table ≡ table
  unfolding insert_jobs job_row
  insert_jobs-none [] table h = refl
  insert_jobs-none (a ∷ rest) table h = rw h.0 (insert_jobs-none rest table h.1)

-- A retried webhook queues nothing twice: queueing the same files of the same mail again, at any
-- time and under any reference, leaves the queue as it is, and each of the files is in it.
pub enqueue-enqueue :
    (new_id new_id' : String → String) (now now' : ℕ) (email_id upload_ref upload_ref' : String)
    (ids : List String) (table : List JobRow)
    → (queued : List JobRow) × (enqueue true new_id now email_id upload_ref ids table ≡ ok queued)
      × All (λ a. any (is_file email_id a) queued ≡ true) ids
      × (enqueue true new_id' now' email_id upload_ref' ids queued ≡ ok queued)
unfolding enqueue
enqueue-enqueue new_id new_id' now now' email_id upload_ref upload_ref' [] table =
    (table, refl, tt, refl)
enqueue-enqueue new_id new_id' now now' email_id upload_ref upload_ref' (a ∷ rest) table =
    let has = insert_jobs-has new_id now email_id upload_ref (a ∷ rest) table in
    (
      insert_jobs new_id now email_id upload_ref (a ∷ rest) table,
      refl,
      has,
      ap ok (insert_jobs-none new_id' now' email_id upload_ref' (a ∷ rest) _ has),
    )

-- One operation of the webhook or of the worker.
pub data JobStep (table : List JobRow) : List JobRow → Type 0 where
  queued :
      {t : List JobRow} (new_id : String → String) (now : ℕ) (email_id upload_ref : String)
      (ids : List String)
      → enqueue true new_id now email_id upload_ref ids table ≡ ok t
      → JobStep table t
  claimed :
      {t : List JobRow} {jobs : List Job} (locked : String → Bool)
      (batch_size stale_after clock now : ℕ)
      → claim_due true locked batch_size stale_after clock now table ≡ ok (t, jobs)
      → JobStep table t
  completed : {t : List JobRow} (id : String) → complete true id table ≡ ok t → JobStep table t
  retried :
      {t : List JobRow} (id : String) (attempts : ℕ) (last_error : String) (clock now : ℕ)
      → retry true id attempts last_error clock now table ≡ ok t
      → JobStep table t
  gave_up :
      {t : List JobRow} (id last_error : String) (now : ℕ)
      → fail true id last_error now table ≡ ok t
      → JobStep table t

pub data JobReach : List JobRow → Type 0 where
  no_jobs : JobReach []
  then_step : {t u : List JobRow} → JobReach t → JobStep t u → JobReach u

-- A pending job has tries left, and a failed one names no record.
pub record IsSafe (r : JobRow) : Type 0 where
  pub has_tries : r.status ≡ pending → r.attempts < max_job_attempts
  pub names_nothing : r.status ≡ failed → r.upload_ref ≡ ""

job_row-IsSafe :
    (new_id : String → String) (now : ℕ) (e ref a : String) → IsSafe (job_row new_id now e ref a)
unfolding job_row
job_row-IsSafe new_id now e ref a = ground arith

insert_jobs-IsSafe :
    (new_id : String → String) (now : ℕ) (e ref : String) (ids : List String) (table : List JobRow)
    → All IsSafe table
    → All IsSafe (insert_jobs new_id now e ref ids table)
unfolding insert_jobs
insert_jobs-IsSafe new_id now e ref [] table h = h
insert_jobs-IsSafe new_id now e ref (a ∷ rest) table h =
    insert_jobs-IsSafe new_id now e ref rest (insert_job (job_row new_id now e ref a) table)
      (inserted (job_row new_id now e ref a) (job_row-IsSafe new_id now e ref a))
  where
    inserted : (row : JobRow) → IsSafe row → All IsSafe (insert_job row table)
    inserted row safe = elim (Bool-cases (any (is_file row.email_id row.attachment_id) table)) [
      | inl k ↦ rw k h
      | inr k ↦ rw k (All-append IsSafe table (row ∷ []) h (safe, tt))
    ]

enqueue-IsSafe :
    (new_id : String → String) (now : ℕ) (e ref : String) (ids : List String) (table : List JobRow)
    {t : List JobRow}
    → All IsSafe table
    → enqueue true new_id now e ref ids table ≡ ok t
    → All IsSafe t
unfolding enqueue
enqueue-IsSafe new_id now e ref [] table {t} h k = subst (All IsSafe) (ok-injective table t k) h
enqueue-IsSafe new_id now e ref (a ∷ rest) table {t} h k =
    subst (All IsSafe) (ok-injective _ t k) (insert_jobs-IsSafe new_id now e ref (a ∷ rest) table h)

in_progress-IsSafe : (now : ℕ) (r : JobRow) → IsSafe r → IsSafe (in_progress now r)
in_progress-IsSafe now r h = record { has_tries = λ e. cc; names_nothing = λ e. cc }

given_up-IsSafe : (n : ℤ) (e : String) (now : ℕ) (r : JobRow) → IsSafe (given_up n e now r)
unfolding given_up
given_up-IsSafe n e now r = record { has_tries = λ e. cc; names_nothing = λ e. refl }

give_up-IsSafe :
    (id : String) (n : ℤ) (e : String) (now : ℕ) (table : List JobRow) {t : List JobRow}
    → All IsSafe table
    → give_up true id n e now table ≡ ok t
    → All IsSafe t
unfolding give_up
give_up-IsSafe id n e now table {t} h k = subst (All IsSafe) (ok-injective _ t k) (
    All-update IsSafe (λ r. r.id == id) (given_up n e now) (λ r _ _. given_up-IsSafe n e now r)
      table h)

retry-IsSafe :
    (id : String) (attempts : ℕ) (e : String) (clock now : ℕ) (table : List JobRow)
    {t : List JobRow}
    → All IsSafe table
    → retry true id attempts e clock now table ≡ ok t
    → All IsSafe t
unfolding retry rescheduled
retry-IsSafe id attempts e clock now table {t} h k =
    elim (Bool-cases (leb max_job_attempts attempts)) [
      | inl over ↦ give_up-IsSafe id (pos attempts) e now table h (rw over at k)
      | inr more ↦ subst (All IsSafe) (ok-injective _ t (rw more at k)) (
          All-update IsSafe (λ r. r.id == id) _
            (λ r _ safe. record { has_tries = λ _. ground (arith, more); names_nothing = λ e. cc })
            table h)
    ]

JobStep-IsSafe : {t u : List JobRow} → JobStep t u → All IsSafe t → All IsSafe u
unfolding claim_due complete fail
JobStep-IsSafe {t} {u} (queued new_id now e ref ids k) h = enqueue-IsSafe new_id now e ref ids t h k
JobStep-IsSafe {t} {u} (claimed {jobs = jobs} locked batch_size stale_after clock now k) h =
    subst (All IsSafe) (ap (λ (p : List JobRow × List Job). p.0) (ok-injective _ (u, jobs) k))
      (All-update IsSafe _ (in_progress now) (λ r _ safe. in_progress-IsSafe now r safe) t h)
JobStep-IsSafe {t} {u} (completed id k) h =
    subst (All IsSafe) (ok-injective _ u k) (All-select IsSafe (λ r. not (r.id == id)) t h)
JobStep-IsSafe {t} {u} (retried id attempts e clock now k) h =
    retry-IsSafe id attempts e clock now t h k
JobStep-IsSafe {t} {u} (gave_up id e now k) h = give_up-IsSafe id (negsuc 0) e now t h k

-- Whatever the webhook and the worker do, in any order, a pending job counts fewer than 8 attempts,
-- and a job that was given up no longer holds the reference that names a record.
pub JobReach-IsSafe : {table : List JobRow} → JobReach table → All IsSafe table
JobReach-IsSafe no_jobs = tt
JobReach-IsSafe (then_step r st) = JobStep-IsSafe st (JobReach-IsSafe r)
