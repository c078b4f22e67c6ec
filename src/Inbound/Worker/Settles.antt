-- ===== src/Inbound/Worker/Settles.antt =====
-- The worker's polls as operations of the queue, and what the copy of a file needs.
use mathlib.Core.Path.{subst}
use mathlib.Core.Bool.{false≢true}
use stonesuite_notify.Base.{
  ℕ, ◌+◌, ◌≡◌, ◌≢◌, refl, sym, ap, ◌∙◌, All, ◌==◌, eq_iff, none, ◌++◌, [], inl, inr, ◌↔◌, String,
  Bool, true, false, some, List, [], ◌∷◌, Result, ok, err, Bool-cases, Option-cases, Result-cases,
  leb,
}
use stonesuite_notify.Base.Int.{pos, ltℤ}
use stonesuite_notify.Inbound.Failure.{
  Cause, Answer, done, failed, permanent, retryable, file_too_large, attachment_gone, Answer-cases,
}
use stonesuite_notify.Inbound.Mail.{ReceivedAttachment}
use stonesuite_notify.Inbound.Jobs.{
  JobRow, Job, claim_due, complete, retry, fail, give_up, max_job_attempts,
}
use stonesuite_notify.Inbound.Jobs.Queued.{
  JobStep, claimed, completed, retried, gave_up, JobReach, then_step,
}
use stonesuite_notify.Inbound.Worker.{
  Services, Times, find_file, max_file_bytes, settle, copied, copy_file, settle_failed, settled,
  handle, handle_all, poll_once, polled, listed, batch_size, stale_after,
}

complete_down : (id : String) (t : List JobRow) → settle (complete false id t) t ≡ t
unfolding complete
complete_down id t = refl

retry_down :
    (id : String) (n : ℕ) (e : String) (clock now : ℕ) (t : List JobRow)
    → settle (retry false id n e clock now t) t ≡ t
unfolding retry give_up
retry_down id n e clock now t = elim (Bool-cases (leb max_job_attempts n)) [
  | inl over ↦ rw over refl
  | inr more ↦ rw more refl
]

fail_down : (id e : String) (now : ℕ) (t : List JobRow) → settle (fail false id e now t) t ≡ t
unfolding fail give_up
fail_down id e now t = refl

-- A write that happened is the step, and one that failed changes nothing.
settle-JobReach :
    (f : Bool → Result (List JobRow)) (up : Bool) (t : List JobRow)
    → settle (f false) t ≡ t
    → ((u : List JobRow) → f true ≡ ok u → JobStep t u)
    → JobReach t
    → JobReach (settle (f up) t)
settle-JobReach f false t down step r = subst JobReach (sym down) r
settle-JobReach f true t down step r = elim (Result-cases (f true)) [
  | inl (u, e) ↦ rw e (then_step r (step u e))
  | inr (x, e) ↦ rw e r
]

settle_failed-JobReach :
    (t : Times) (job : Job) (c : Cause) (m : String) (table : List JobRow)
    → JobReach table
    → JobReach (settle_failed t job c m table)
unfolding settle_failed
settle_failed-JobReach t job attachment_gone m table r =
    settle-JobReach (λ up. complete up job.id table) t.up table (complete_down job.id table)
      (λ u k. completed job.id k) r
settle_failed-JobReach t job file_too_large m table r =
    settle-JobReach (λ up. complete up job.id table) t.up table (complete_down job.id table)
      (λ u k. completed job.id k) r
settle_failed-JobReach t job retryable m table r =
    settle-JobReach (λ up. retry up job.id (job.attempts + 1) m t.clock t.now table) t.up table
      (retry_down job.id (job.attempts + 1) m t.clock t.now table)
      (λ u k. retried job.id (job.attempts + 1) m t.clock t.now k) r
settle_failed-JobReach t job permanent m table r =
    settle-JobReach (λ up. fail up job.id m t.now table) t.up table (fail_down job.id m t.now table)
      (λ u k. gave_up job.id m t.now k) r

settled-JobReach :
    (t : Times) (job : Job) (a : Answer (Unit {0})) (table : List JobRow)
    → JobReach table
    → JobReach (settled t job a table)
unfolding settled
settled-JobReach t job (done u) table r =
    settle-JobReach (λ up. complete up job.id table) t.up table (complete_down job.id table)
      (λ v k. completed job.id k) r
settled-JobReach t job (failed f) table r = settle_failed-JobReach t job f.cause f.message table r

module _ {File : Type 0} (s : Services File) where
  handle_all-JobReach :
      (times : Job → Times) (jobs : List Job) (table : List JobRow)
      → JobReach table
      → JobReach (handle_all s times jobs table)
  unfolding handle_all
  handle_all-JobReach times [] table r = r
  handle_all-JobReach times (job ∷ jobs) table r =
      handle_all-JobReach times jobs (handle s (times job) job table) (
        let one : JobReach (settled (times job) job (copy_file s job) table) =
          settled-JobReach (times job) job (copy_file s job) table r in
        unfold handle in one)

  polled-JobReach :
      (claim_up : Bool) (locked : String → Bool) (clock now : ℕ) (times : Job → Times)
      (table : List JobRow) (c : Result (List JobRow × List Job))
      → claim_due claim_up locked batch_size stale_after clock now table ≡ c
      → JobReach table
      → JobReach (polled s times c table)
  unfolding claim_due
  polled-JobReach up locked clock now times table (err e) k r = r
  polled-JobReach false locked clock now times table (ok (u, jobs)) k r = cc
  polled-JobReach true locked clock now times table (ok (u, jobs)) k r =
      handle_all-JobReach times jobs u
        (then_step r (claimed locked batch_size stale_after clock now k))

  -- A poll of the worker is a sequence of the queue's operations, whatever Resend and the backend
  -- answer, whichever writes fail, and whenever it happens: what a queue can become by it, a queue
  -- can become by claiming, completing, retrying and giving up jobs.
  pub poll_once-JobReach :
      (claim_up : Bool) (locked : String → Bool) (clock now : ℕ) (times : Job → Times)
      (table : List JobRow)
      → JobReach table
      → JobReach (poll_once s claim_up locked clock now times table)
  unfolding poll_once
  poll_once-JobReach claim_up locked clock now times table r =
      polled-JobReach claim_up locked clock now times table _ refl r

  -- The file is the first of the list whose id is this one.
  pub record IsFirst (id : String) (files : List ReceivedAttachment) (file : ReceivedAttachment)
      : Type 0 where
    pub before : List ReceivedAttachment
    pub behind : List ReceivedAttachment
    pub splits : files ≡ before ++ file ∷ behind
    pub has_id : file.id ≡ id
    pub none_before : All (λ (f : ReceivedAttachment). f.id ≢ id) before

  find_file-IsFirst :
      (id : String) (files : List ReceivedAttachment) {file : ReceivedAttachment}
      → find_file id files ≡ some file
      → IsFirst id files file
  unfolding find_file
  find_file-IsFirst id [] h = cc
  find_file-IsFirst id (f ∷ files) {file} h = elim (Bool-cases (f.id == id)) [
    | inl e ↦
        let same : f ≡ file = some-injective (rw e at h) in
        record {
          before = [];
          behind = files;
          splits = ap (λ x. x ∷ files) same;
          has_id = sym (ap (λ (x : ReceivedAttachment). x.id) same) ∙ (eq_iff f.id id).0 e;
          none_before = tt;
        }
    | inr e ↦
        let i = find_file-IsFirst id files (rw e at h) in
        record {
          before = f ∷ i.before;
          behind = i.behind;
          splits = ap (λ l. f ∷ l) i.splits;
          has_id = i.has_id;
          none_before = (λ k. false≢true (sym e ∙ (eq_iff f.id id).1 k), i.none_before);
        }
  ]
    where
      some-injective : {x y : ReceivedAttachment} → some x ≡ some y → x ≡ y
      some-injective {x} e = ap (λ o. elim o [ none ↦ x | some z ↦ z ]) e

  find_file-first :
      (id : String) (before : List ReceivedAttachment) (file : ReceivedAttachment)
      (behind : List ReceivedAttachment)
      → file.id ≡ id
      → All (λ (f : ReceivedAttachment). f.id ≢ id) before
      → find_file id (before ++ file ∷ behind) ≡ some file
  unfolding find_file
  find_file-first id [] file behind e n = rw ((eq_iff file.id id).1 e) refl
  find_file-first id (f ∷ before) file behind e n = elim (Bool-cases (f.id == id)) [
    | inl k ↦ absurd (n.0 ((eq_iff f.id id).0 k))
    | inr k ↦ rw k (find_file-first id before file behind e n.1)
  ]

  IsFirst-find_file :
      (id : String) (files : List ReceivedAttachment) (file : ReceivedAttachment)
      → IsFirst id files file
      → find_file id files ≡ some file
  IsFirst-find_file id files file i =
      ap (find_file id) i.splits ∙ find_file-first id i.before file i.behind i.has_id i.none_before

  -- What a copied file took: the provider listed it, of a size that is allowed, gave its bytes, and
  -- the backend took them under the job's reference.
  pub record IsCopied (job : Job) : Type 0 where
    pub files : List ReceivedAttachment
    pub file : ReceivedAttachment
    pub content : File
    pub lists : s.list job.email_id ≡ done files
    pub finds : IsFirst job.attachment_id files file
    pub is_small : ltℤ (pos max_file_bytes) file.size ≡ false
    pub downloads : s.download file.download_url max_file_bytes ≡ done content
    pub uploads : s.upload job.upload_ref job.attachment_id file.content_type content ≡ done tt

  copied-IsCopied :
      (job : Job) (files : List ReceivedAttachment)
      → s.list job.email_id ≡ done files
      → copied s job (find_file job.attachment_id files) ≡ done tt
      → IsCopied job
  copied-IsCopied job files lists h = elim (Option-cases (find_file job.attachment_id files)) [
    | inl e ↦ cc (rw e at h)
    | inr (f, e) ↦ elim (Bool-cases (ltℤ (pos max_file_bytes) f.size)) [
      | inl k ↦ cc (rw (e, k) at h)
      | inr k ↦ elim (Answer-cases (s.download f.download_url max_file_bytes)) [
        | inr (x, d) ↦ cc (rw (e, k, d) at h)
        | inl (content, d) ↦ record {
          files = files;
          file = f;
          content = content;
          lists = lists;
          finds = find_file-IsFirst job.attachment_id files e;
          is_small = k;
          downloads = d;
          uploads = rw (e, k, d) at h;
        }
      ]
    ]
  ]

  -- The copy of a job's file succeeds exactly when the provider lists a file with the id of the job,
  -- and the first one of that id is small enough, can be downloaded, and is taken by the backend
  -- under the job's reference.
  pub copy_file_iff : (job : Job) → (copy_file s job ≡ done tt) ↔ IsCopied job
  copy_file_iff job = (to, from)
    where
      to : copy_file s job ≡ done tt → IsCopied job
      to h =
          let same : listed s job (s.list job.email_id) ≡ done tt = unfold copy_file in h in
          elim (Answer-cases (s.list job.email_id)) [
            | inl (files, e) ↦ copied-IsCopied job files e (rw e at same)
            | inr (f, e) ↦ cc (rw e at same)
          ]

      from : IsCopied job → copy_file s job ≡ done tt
      from i =
          unfold copy_file in
          rw
            (
              i.lists,
              IsFirst-find_file job.attachment_id i.files i.file i.finds,
              i.is_small,
              i.downloads,
            )
            i.uploads
