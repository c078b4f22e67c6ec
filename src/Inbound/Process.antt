-- ===== src/Inbound/Process.antt =====
-- inbound/inbound.go: what is done with an email.received event. The modelled state is the queue of
-- files, and the calls that were made to Resend and to the backend.
pub mod Paths
pub mod Replay
use stonesuite_notify.Base.{
  ℕ, String, Bool, true, false, not, ◌&&◌, ◌||◌, ◌==◌, Option, none, some, List, [], ◌∷◌, ◌++◌,
  if◌then◌else◌, Result, ok, err,
}
use stonesuite_notify.Inbound.Failure.{Failure, Answer, done, failed, wrap, permanent, retryable}
use stonesuite_notify.Inbound.Mail.{
  EventData, Received, ReceivedAttachment, Mail, recipients, build_mail, addressed_to_domain,
}
use stonesuite_notify.Inbound.Jobs.{JobRow, enqueue}

pub record ForwardResult : Type 0 where
  pub upload_ref : String
  pub pending : List String

pub data Outcome : Type 0 where
  ignored forwarded : Outcome

-- A call to Resend or to the backend.
pub data Call : Type 0 where
  fetch : String → Call
  list_attachments : String → Call
  forward : Mail → Call

pub record World : Type 0 where
  pub calls : List Call
  pub jobs : List JobRow

-- `lister` is none for a nil Lister, and `has_jobs` is false for nil Jobs. The functions are what
-- Resend and the backend answer. `fold` and `parse_address` are the standard library's.
pub record Processor : Type 0 where
  pub domain : String
  pub fetcher : String → Answer Received
  pub forwarder : Mail → Answer ForwardResult
  pub lister : Option (String → Answer (List ReceivedAttachment))
  pub has_jobs : Bool
  pub fold : ℕ → ℕ
  pub parse_address : String → Option String

-- What the queue's insert meets: whether the database answers, its UUIDs, and its clock.
pub record Db : Type 0 where
  pub up : Bool
  pub new_id : String → String
  pub now : ℕ

abbrev pub called : Call → World → World
called c w = record w { calls = w.calls ++ c ∷ [] }

abbrev pub nonempty {ℓ} : {A : Type ℓ} → List A → Bool
nonempty [] = false
nonempty (x ∷ xs) = true

abbrev queued : World → Result (List JobRow) → World × Answer Outcome
queued w (ok jobs) = (record w { jobs = jobs }, done forwarded)
queued w (err e) =
    (w, failed (wrap "queue received attachments" (record { cause = retryable; message = e })))

-- Whether the files that the backend wants are queued.
abbrev pub wants_files : Processor → ForwardResult → Bool
wants_files p res = p.has_jobs && not (res.upload_ref == "") && nonempty res.pending

module _ (p : Processor) (db : Db) (ev : EventData) where
  unfoldable pub queue_files : Answer ForwardResult → World → World × Answer Outcome
  queue_files (failed f) w = (w, failed (wrap "forward received email" f))
  queue_files (done res) w =
      if wants_files p res
      then queued w (enqueue db.up db.new_id db.now ev.email_id res.upload_ref res.pending w.jobs)
      else (w, done forwarded)

  unfoldable pub send_on :
      Received → Answer (List ReceivedAttachment) → World → World × Answer Outcome
  unfolding queue_files
  send_on received (failed f) w = (w, failed (wrap "list received attachments" f))
  send_on received (done files) w =
      let mail = build_mail p.fold ev received files in
      queue_files (p.forwarder mail) (called (forward mail) w)

  abbrev pub list_files :
      Received → Option (String → Answer (List ReceivedAttachment)) → World → World × Answer Outcome
  list_files received none w = send_on received (done []) w
  list_files received (some list) w =
      if nonempty ev.attachments && p.has_jobs
      then send_on received (list ev.email_id) (called (list_attachments ev.email_id) w)
      else send_on received (done []) w

  unfoldable pub with_received : Answer Received → World → World × Answer Outcome
  unfolding send_on
  with_received (failed f) w = (w, failed (wrap "fetch received email" f))
  with_received (done received) w = list_files received p.lister w

  -- Whether a mail is ours.
  abbrev pub is_ours : Bool
  is_ours =
      not (ev.email_id == "") && addressed_to_domain p.fold p.parse_address (recipients ev) p.domain

  unfoldable pub process : World → World × Answer Outcome
  unfolding with_received
  process w =
      if ev.email_id == ""
        || not (addressed_to_domain p.fold p.parse_address (recipients ev) p.domain)
      then (w, done ignored)
      else with_received (p.fetcher ev.email_id) (called (fetch ev.email_id) w)
