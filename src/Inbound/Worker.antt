-- ===== src/Inbound/Worker.antt =====
-- workers/inbound_attachments.go: the worker that copies the received files to the backend.
pub mod Fates
pub mod Settles
pub mod Ends
use stonesuite_notify.Base.{
  ℕ, ◌+◌, ◌*◌, String, Bool, true, false, ◌==◌, Option, none, some, List, [], ◌∷◌, if◌then◌else◌,
  Result, ok, err,
}
use stonesuite_notify.Base.Int.{ℤ, pos, ltℤ}
use stonesuite_notify.Inbound.Failure.{
  Cause, Failure, Answer, done, failed, permanent, retryable, file_too_large, attachment_gone,
}
use stonesuite_notify.Inbound.Mail.{ReceivedAttachment}
use stonesuite_notify.Inbound.Jobs.{JobRow, Job, claim_due, complete, retry, fail}

abbrev pub batch_size : ℕ
batch_size = 1

-- 5 minutes
abbrev pub stale_after : ℕ
stale_after = 300 * 1000000000

-- inbound.MaxFileBytes
abbrev pub max_file_bytes : ℕ
max_file_bytes = 20 * 1024 * 1024

-- The answers of the three services; the file's bytes are of a type of their own.
pub record Services (File : Type 0) : Type 0 where
  pub list : String → Answer (List ReceivedAttachment)
  pub download : String → ℕ → Answer File
  pub upload : String → String → String → File → Answer (Unit {0})

-- What an attempt meets: whether the database answers when the outcome is recorded, the service's
-- clock and the database's.
pub record Times : Type 0 where
  pub up : Bool
  pub clock : ℕ
  pub now : ℕ

unfoldable pub find_file : String → List ReceivedAttachment → Option ReceivedAttachment
find_file id [] = none
find_file id (f ∷ files) = let rest = find_file id files in if f.id == id then some f else rest

abbrev pub gone : Failure
gone = record {
  cause = attachment_gone;
  message = "received attachment is no longer listed by the provider";
}

abbrev pub too_large : Failure
too_large = record {
  cause = file_too_large;
  message = "received attachment is larger than the limit";
}

-- A failed write is logged only: the job stays as it was claimed.
abbrev pub settle : Result (List JobRow) → List JobRow → List JobRow
settle (ok table) before = table
settle (err e) before = before

module _ {File : Type 0} (s : Services File) where
  abbrev uploaded : Job → ReceivedAttachment → Answer File → Answer (Unit {0})
  uploaded job f (failed e) = failed e
  uploaded job f (done data') = s.upload job.upload_ref job.attachment_id f.content_type data'

  abbrev pub copied : Job → Option ReceivedAttachment → Answer (Unit {0})
  copied job none = failed gone
  copied job (some f) =
      if ltℤ (pos max_file_bytes) f.size
      then failed too_large
      else uploaded job f (s.download f.download_url max_file_bytes)

  abbrev pub listed : Job → Answer (List ReceivedAttachment) → Answer (Unit {0})
  listed job (failed e) = failed e
  listed job (done files) = copied job (find_file job.attachment_id files)

  unfoldable pub copy_file : Job → Answer (Unit {0})
  unfolding find_file
  copy_file job = listed job (s.list job.email_id)

unfoldable pub settle_failed : Times → Job → Cause → String → List JobRow → List JobRow
settle_failed t job attachment_gone message table = settle (complete t.up job.id table) table
settle_failed t job file_too_large message table = settle (complete t.up job.id table) table
settle_failed t job retryable message table =
    settle (retry t.up job.id (job.attempts + 1) message t.clock t.now table) table
settle_failed t job permanent message table = settle (fail t.up job.id message t.now table) table

unfoldable pub settled : Times → Job → Answer (Unit {0}) → List JobRow → List JobRow
unfolding settle_failed
settled t job (done u) table = settle (complete t.up job.id table) table
settled t job (failed f) table = settle_failed t job f.cause f.message table

module _ {File : Type 0} (s : Services File) where
  unfoldable pub handle : Times → Job → List JobRow → List JobRow
  unfolding copy_file settled
  handle t job table = settled t job (copy_file s job) table

  -- The jobs of a poll, each with the clocks that its attempt meets.
  unfoldable pub handle_all : (Job → Times) → List Job → List JobRow → List JobRow
  unfolding handle
  handle_all times [] table = table
  handle_all times (job ∷ jobs) table = handle_all times jobs (handle (times job) job table)

  -- `claim_up` says whether the database answers when jobs are claimed.
  abbrev pub polled : (Job → Times) → Result (List JobRow × List Job) → List JobRow → List JobRow
  polled times (err e) table = table
  polled times (ok claimed) table = handle_all times claimed.1 claimed.0

  unfoldable pub poll_once :
      Bool → (String → Bool) → ℕ → ℕ → (Job → Times) → List JobRow → List JobRow
  unfolding handle_all
  poll_once claim_up locked clock now times table =
      polled times (claim_due claim_up locked batch_size stale_after clock now table) table
