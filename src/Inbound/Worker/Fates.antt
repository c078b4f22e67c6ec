-- ===== src/Inbound/Worker/Fates.antt =====
-- What becomes of each job of the queue when a worker has tried one of them.
use mathlib.Core.List.{Memᴰ}
use stonesuite_notify.Base.{ℕ, ◌+◌, ◌≤◌, ◌<◌, ◌≡◌, ◌≢◌, ◌⊎◌, String, Bool, true, false, List, All}
use stonesuite_notify.Inbound.Failure.{
  Cause, Answer, done, failed, permanent, retryable, file_too_large, attachment_gone,
}
use stonesuite_notify.Inbound.Jobs.{JobRow, Job, JobStatus}

-- No row has this id.
abbrev pub IsGone : String → List JobRow → Type 0
IsGone id = All (λ (x : JobRow). x.id ≢ id)

-- The job waits for another attempt, at the soonest at `clock`.
pub record IsPutBack (r : JobRow) (attempts clock : ℕ) (message : String) (after : List JobRow)
    : Type 0 where
  pub row : JobRow
  pub is_there : Memᴰ row after
  pub same_id : row.id ≡ r.id
  pub same_file : row.attachment_id ≡ r.attachment_id
  pub same_mail : row.email_id ≡ r.email_id
  pub same_ref : row.upload_ref ≡ r.upload_ref
  pub waits : row.status ≡ JobStatus.pending
  pub counted : row.attempts ≡ attempts
  pub reason : row.last_error ≡ message
  pub later : clock ≤ row.next_attempt_at

-- The job is kept with the reason for which it failed, and without its reference.
pub record IsGivenUp (r : JobRow) (attempts : ℕ) (message : String) (after : List JobRow)
    : Type 0 where
  pub row : JobRow
  pub is_there : Memᴰ row after
  pub same_id : row.id ≡ r.id
  pub same_file : row.attachment_id ≡ r.attachment_id
  pub same_mail : row.email_id ≡ r.email_id
  pub no_ref : row.upload_ref ≡ ""
  pub is_failed : row.status ≡ JobStatus.failed
  pub counted : row.attempts ≡ attempts
  pub reason : row.last_error ≡ message

-- What becomes of the row of the job that was tried, by how the attempt went.
abbrev pub FailedFate : ℕ → Job → Cause → String → JobRow → List JobRow → Type 0
FailedFate clock job attachment_gone message r after = IsGone r.id after
FailedFate clock job file_too_large message r after = IsGone r.id after
FailedFate clock job permanent message r after = IsGivenUp r r.attempts message after
FailedFate clock job retryable message r after =
    ((job.attempts + 1 < 8) × IsPutBack r (job.attempts + 1) clock message after)
    ⊎ ((8 ≤ job.attempts + 1) × IsGivenUp r (job.attempts + 1) message after)

abbrev pub RowFate : ℕ → Job → Answer (Unit {0}) → JobRow → List JobRow → Type 0
RowFate clock job (done u) r after = IsGone r.id after
RowFate clock job (failed f) r after = FailedFate clock job f.cause f.message r after

-- A row of another job stays as it is; the row of this one becomes `Own`, if the outcome could be
-- recorded, and otherwise nothing changes.
pub record Fate (up : Bool) (id : String) (r : JobRow) (Own : List JobRow → Type 0)
    (table after : List JobRow) : Type 0 where
  pub other : r.id ≢ id → Memᴰ r after
  pub own : up ≡ true → r.id ≡ id → Own after
  pub unrecorded : up ≡ false → after ≡ table
