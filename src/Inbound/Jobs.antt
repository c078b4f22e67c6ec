-- ===== src/Inbound/Jobs.antt =====
-- inbound/jobs.go: the durable queue of received files that wait to be copied to the backend.
pub mod Delay
pub mod Queued
use stonesuite_notify.Base.{
  ℕ, zero, suc, ◌+◌, ◌*◌, String, Bool, true, false, not, ◌&&◌, ◌||◌, ◌==◌, Option, none, some,
  List, [], ◌∷◌, ◌++◌, map, if◌then◌else◌, ltb, leb, take, contains, any, select, update, order_by,
  Result, ok, err,
}
use stonesuite_notify.Base.Int.{ℤ, pos, negsuc}

pub data JobStatus : Type 0 where
  pending processing failed : JobStatus

abbrev pub max_job_attempts : ℕ
max_job_attempts = 8

abbrev pub job_backoff_base : ℕ
job_backoff_base = 15000000000

abbrev pub job_backoff_max : ℕ
job_backoff_max = 1800000000000

-- A row of inbound_attachment_jobs.
pub record JobRow : Type 0 where
  pub id : String
  pub email_id : String
  pub attachment_id : String
  pub upload_ref : String
  pub status : JobStatus
  pub attempts : ℕ
  pub next_attempt_at : ℕ
  pub last_error : String
  pub created_at : ℕ
  pub updated_at : ℕ

pub record Job : Type 0 where
  pub id : String
  pub email_id : String
  pub attachment_id : String
  pub upload_ref : String
  pub attempts : ℕ

-- The loop of `JobBackoff`, for the turns that are left.
unfoldable pub double_up : ℕ → ℕ → ℕ
double_up zero d = d
double_up (suc turns) d =
    let rest = double_up turns (d * 2) in if ltb d job_backoff_max then rest else d

turns_for : ℤ → ℕ
turns_for (pos (suc n)) = n
turns_for _ = 0

unfoldable pub job_backoff : ℤ → ℕ
unfolding turns_for double_up
job_backoff attempts =
    let d = double_up (turns_for attempts) job_backoff_base in
    if leb d job_backoff_max then d else job_backoff_max

-- `new_id` are the UUIDs that the database generates for the rows.
unfoldable pub job_row : (String → String) → ℕ → String → String → String → JobRow
job_row new_id now email_id upload_ref attachment_id = record {
  id = new_id attachment_id;
  email_id = email_id;
  attachment_id = attachment_id;
  upload_ref = upload_ref;
  status = pending;
  attempts = 0;
  next_attempt_at = now;
  last_error = "";
  created_at = now;
  updated_at = now;
}

abbrev pub is_file : String → String → JobRow → Bool
is_file email_id attachment_id r = r.email_id == email_id && r.attachment_id == attachment_id

-- One row of the INSERT … ON CONFLICT (email_id, attachment_id) DO NOTHING.
abbrev pub insert_job : JobRow → List JobRow → List JobRow
insert_job row table =
    if any (is_file row.email_id row.attachment_id) table then table else table ++ row ∷ []

unfoldable pub insert_jobs :
    (String → String) → ℕ → String → String → List String → List JobRow → List JobRow
unfolding job_row
insert_jobs new_id now email_id upload_ref [] table = table
insert_jobs new_id now email_id upload_ref (a ∷ rest) table =
    insert_jobs new_id now email_id upload_ref rest
      (insert_job (job_row new_id now email_id upload_ref a) table)

unfoldable pub enqueue :
    Bool
    → (String → String)
    → ℕ
    → String
    → String
    → List String
    → List JobRow
    → Result (List JobRow)
unfolding insert_jobs
enqueue up new_id now email_id upload_ref [] table = ok table
enqueue up new_id now email_id upload_ref (a ∷ rest) table =
    if up
    then ok (insert_jobs new_id now email_id upload_ref (a ∷ rest) table)
    else err "enqueue attachment jobs"

unfoldable pub is_pending : JobStatus → Bool
is_pending pending = true
is_pending _ = false

unfoldable pub is_processing : JobStatus → Bool
is_processing processing = true
is_processing _ = false

unfoldable pub is_due : ℕ → ℕ → ℕ → JobRow → Bool
unfolding is_pending is_processing
is_due stale_after clock now r =
    (is_pending r.status && leb r.next_attempt_at now)
    || (is_processing r.status && leb (r.updated_at + stale_after) clock)

unfoldable pub scan_job : JobRow → Job
scan_job r = record {
  id = r.id;
  email_id = r.email_id;
  attachment_id = r.attachment_id;
  upload_ref = r.upload_ref;
  attempts = r.attempts;
}

abbrev pub in_progress : ℕ → JobRow → JobRow
in_progress now r = record r { status = processing; updated_at = now }

unfoldable pub due_ids : (JobRow → Bool) → (String → Bool) → ℕ → List JobRow → List String
due_ids due locked batch_size table =
    map (λ r. r.id)
      (take batch_size
        (order_by (λ r. r.created_at) (select (λ r. due r && not (locked r.id)) table)))

unfoldable pub claim_due :
    Bool → (String → Bool) → ℕ → ℕ → ℕ → ℕ → List JobRow → Result (List JobRow × List Job)
unfolding is_due scan_job due_ids
claim_due up locked batch_size stale_after clock now table =
    let ids = due_ids (is_due stale_after clock now) locked batch_size table in
    let claimed = update (λ r. contains r.id ids) (in_progress now) table in
    if up
    then ok (claimed, map scan_job (select (λ r. contains r.id ids) claimed))
    else err "claim attachment jobs"

unfoldable pub complete : Bool → String → List JobRow → Result (List JobRow)
complete up id table =
    if up then ok (select (λ r. not (r.id == id)) table) else err "complete attachment job"

-- `CASE WHEN $3 >= 0 THEN $3 ELSE attempts END`
abbrev count_or : ℤ → ℕ → ℕ
count_or (pos n) before = n
count_or (negsuc n) before = before

unfoldable pub given_up : ℤ → String → ℕ → JobRow → JobRow
given_up attempts last_error now r = record r {
  status = failed;
  upload_ref = "";
  attempts = count_or attempts r.attempts;
  last_error = last_error;
  updated_at = now;
}

unfoldable pub give_up : Bool → String → ℤ → String → ℕ → List JobRow → Result (List JobRow)
unfolding given_up
give_up up id attempts last_error now table =
    if up
    then ok (update (λ r. r.id == id) (given_up attempts last_error now) table)
    else err "give up on attachment job"

unfoldable pub rescheduled : ℕ → String → ℕ → ℕ → JobRow → JobRow
unfolding job_backoff
rescheduled attempts last_error clock now r = record r {
  status = pending;
  attempts = attempts;
  next_attempt_at = clock + job_backoff (pos attempts);
  last_error = last_error;
  updated_at = now;
}

unfoldable pub retry : Bool → String → ℕ → String → ℕ → ℕ → List JobRow → Result (List JobRow)
unfolding give_up rescheduled
retry up id attempts last_error clock now table =
    if leb max_job_attempts attempts
    then give_up up id (pos attempts) last_error now table
    else if up
    then ok (update (λ r. r.id == id) (rescheduled attempts last_error clock now) table)
    else err "reschedule attachment job"

unfoldable pub fail : Bool → String → String → ℕ → List JobRow → Result (List JobRow)
unfolding give_up
fail up id last_error now table = give_up up id (negsuc 0) last_error now table
