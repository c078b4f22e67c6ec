-- ===== src/Inbound/Process/Paths.antt =====
-- Every way that an event's processing can end.
use mathlib.Core.List.{Memᴰ}
use mathlib.Core.Bool.{false≢true}
use stonesuite_notify.Base.{
  ℕ, ◌≡◌, ◌≢◌, sym, ◌∙◌, eq_iff, any-mem, All-impl, refl, inl, inr, String, Bool, true, false, not,
  ◌&&◌, ◌||◌, ◌==◌, Option, none, some, List, [], ◌∷◌, ◌++◌, err, Bool-cases, any, All, arith,
}
use stonesuite_notify.Inbound.Failure.{Failure, Answer, done, failed, retryable, Answer-cases}
use stonesuite_notify.Inbound.Mail.{
  EventData, Received, ReceivedAttachment, Mail, recipients, build_mail, addressed_to_domain,
}
use stonesuite_notify.Inbound.Mail.Domain.{IsAddressed, addressed_to_domain_iff}
use stonesuite_notify.Inbound.Jobs.{JobRow, enqueue, is_file}
use stonesuite_notify.Inbound.Jobs.Queued.{enqueue-enqueue}
use stonesuite_notify.Inbound.Process.{
  ForwardResult, Outcome, ignored, forwarded, Call, fetch, list_attachments, forward, World,
  Processor, Db, called, nonempty, wants_files, queue_files, send_on, list_files, with_received,
  is_ours, process,
}

-- Why processing failed.
pub data Fault (p : Processor) (db : Db) (ev : EventData) (f : Failure) : Type 0 where
  fetching : (g : Failure) → p.fetcher ev.email_id ≡ failed g → f.cause ≡ g.cause → Fault p db ev f
  listing :
      (list : String → Answer (List ReceivedAttachment)) (g : Failure)
      → p.lister ≡ some list
      → list ev.email_id ≡ failed g
      → f.cause ≡ g.cause
      → Fault p db ev f
  forwarding :
      (mail : Mail) (g : Failure)
      → p.forwarder mail ≡ failed g
      → f.cause ≡ g.cause
      → Fault p db ev f
  queueing : db.up ≡ false → f.cause ≡ retryable → Fault p db ev f

-- A job of the queue is for this file.
abbrev pub IsQueued : String → List JobRow → String → Type 0
IsQueued email_id jobs a =
    (r : JobRow) × Memᴰ r jobs × (r.email_id ≡ email_id) × (r.attachment_id ≡ a)

-- The backend accepted a mail that was handed over, and the files that are pending under the
-- reference it gave are in the queue, if there is a queue.
pub record Accepted (p : Processor) (ev : EventData) (w : World) : Type 0 where
  pub received : Received
  pub files : List ReceivedAttachment
  pub mail : Mail
  pub answer : ForwardResult
  pub fetched : p.fetcher ev.email_id ≡ done received
  pub built : mail ≡ build_mail p.fold ev received files
  pub before : List Call
  pub answers : p.forwarder mail ≡ done answer
  pub handed_over : w.calls ≡ before ++ forward mail ∷ []
  pub files_queued :
      p.has_jobs ≡ true → answer.upload_ref ≢ "" → All (IsQueued ev.email_id w.jobs) answer.pending

-- The mail has an id, and one of its recipients is at the domain for replies.
abbrev pub IsOurs : Processor → EventData → Type 0
IsOurs p ev = (ev.email_id ≢ "") × IsAddressed p.fold p.parse_address p.domain (recipients ev)

pub enqueue_down :
    (new_id : String → String) (now : ℕ) (email_id ref : String) (ids : List String)
    (table : List JobRow)
    → nonempty ids ≡ true
    → enqueue false new_id now email_id ref ids table ≡ err "enqueue attachment jobs"
unfolding enqueue
enqueue_down new_id now email_id ref [] table h = cc
enqueue_down new_id now email_id ref (a ∷ ids) table h = refl

pub last_holds : (a b c : Bool) → (a && b && c) ≡ true → c ≡ true
last_holds a b c h = ground (arith, h)

-- Files that are not queued although there is a queue and a reference are none.
not_wanted :
    (p : Processor) (res : ForwardResult) (email_id : String) (jobs : List JobRow)
    → wants_files p res ≡ false
    → p.has_jobs ≡ true
    → res.upload_ref ≢ ""
    → All (IsQueued email_id jobs) res.pending
not_wanted p res email_id jobs idle has ref = none_of res.pending (
    nonempty_false (nonempty res.pending) (res.upload_ref == "") p.has_jobs idle has
      (λ e. ref ((eq_iff res.upload_ref "").0 e)))
  where
    nonempty_false :
        (n blank q : Bool) → (q && not blank && n) ≡ false → q ≡ true → blank ≢ true → n ≡ false
    nonempty_false n true q k h b = absurd (b refl)
    nonempty_false n false q k h b = ground (arith, k, h)

    none_of : (ids : List String) → nonempty ids ≡ false → All (IsQueued email_id jobs) ids
    none_of [] h = tt
    none_of (a ∷ ids) h = cc

-- A file of which the queue has a row is queued.
found-IsQueued :
    (email_id : String) (jobs : List JobRow) (a : String)
    → any (is_file email_id a) jobs ≡ true
    → IsQueued email_id jobs a
found-IsQueued email_id jobs a h =
    let (r, m, same) = any-mem (is_file email_id a) jobs h in
    (
      r,
      m,
      (eq_iff r.email_id email_id).0 (ground (arith, same)),
      (eq_iff r.attachment_id a).0 (ground (arith, same)),
    )

pub or_not : (a b : Bool) → (a || not b) ≡ not (not a && b)
or_not true b = refl
or_not false b = refl

module _ (p : Processor) (db : Db) (ev : EventData) where
  -- What each end of the processing promises, from the world before.
  abbrev pub Ends : World → World × Answer Outcome → Type 0
  Ends w (w', done ignored) = (IsOurs p ev → ⊥) × (w' ≡ w)
  Ends w (w', done forwarded) = (IsOurs p ev) × Accepted p ev w'
  Ends w (w', failed f) = (IsOurs p ev) × (w'.jobs ≡ w.jobs) × Fault p db ev f

  accept :
      (received : Received) (files : List ReceivedAttachment) (mail : Mail) (res : ForwardResult)
      (w0 w : World) (cs : List Call)
      → IsOurs p ev
      → p.fetcher ev.email_id ≡ done received
      → mail ≡ build_mail p.fold ev received files
      → p.forwarder mail ≡ done res
      → w.calls ≡ cs ++ forward mail ∷ []
      → w.jobs ≡ w0.jobs
      → Ends w0 (queue_files p db ev (done res) w)
  unfolding queue_files
  accept received files mail res w0 w cs ours got made e k same =
      elim (Bool-cases (wants_files p res)) [
        | inr idle ↦ rw idle (
          ours,
          record {
            received = received;
            files = files;
            mail = mail;
            answer = res;
            before = cs;
            fetched = got;
            built = made;
            answers = e;
            handed_over = k;
            files_queued = not_wanted p res ev.email_id w.jobs idle;
          },
        )
        | inl wants ↦ elim (Bool-cases db.up) [
          | inl up ↦
              let (t, done_now, has, again) =
                enqueue-enqueue db.new_id db.new_id db.now db.now ev.email_id res.upload_ref
                  res.upload_ref res.pending w.jobs in
              rw (wants, up, done_now)
                (
                  ours,
                  record {
                    received = received;
                    files = files;
                    mail = mail;
                    answer = res;
                    before = cs;
                    fetched = got;
                    built = made;
                    answers = e;
                    handed_over = k;
                    files_queued = λ _ _.
                        All-impl _ (IsQueued ev.email_id t) (found-IsQueued ev.email_id t)
                          res.pending has;
                  },
                )
          | inr down ↦
              rw
                (
                  wants,
                  down,
                  enqueue_down db.new_id db.now ev.email_id res.upload_ref res.pending w.jobs (
                      last_holds p.has_jobs (not (res.upload_ref == "")) (nonempty res.pending)
                        wants),
                )
                (ours, same, queueing refl refl)
        ]
      ]

  send_on-Ends :
      (received : Received) (files : List ReceivedAttachment) (w0 w : World)
      → IsOurs p ev
      → p.fetcher ev.email_id ≡ done received
      → w.jobs ≡ w0.jobs
      → Ends w0 (send_on p db ev received (done files) w)
  unfolding send_on
  send_on-Ends received files w0 w ours got same =
      let mail = build_mail p.fold ev received files in
      elim (Answer-cases (p.forwarder mail)) [
        | inl (res, e) ↦ rw e (
            accept received files mail res w0 (called (forward mail) w) w.calls ours got refl e refl
              same)
        | inr (f, e) ↦ rw e (ours, same, forwarding mail f e refl)
      ]

  list_files-Ends :
      (received : Received) (lister : Option (String → Answer (List ReceivedAttachment)))
      (w0 w : World)
      → p.lister ≡ lister
      → IsOurs p ev
      → p.fetcher ev.email_id ≡ done received
      → w.jobs ≡ w0.jobs
      → Ends w0 (list_files p db ev received lister w)
  list_files-Ends received none w0 w given ours got same =
      send_on-Ends received [] w0 w ours got same
  list_files-Ends received (some list) w0 w given ours got same =
      elim (Bool-cases (nonempty ev.attachments && p.has_jobs)) [
        | inr skip ↦ rw skip (send_on-Ends received [] w0 w ours got same)
        | inl asks ↦ elim (Answer-cases (list ev.email_id)) [
          | inl (files, k) ↦
              rw (asks, k)
                (send_on-Ends received files w0 (called (list_attachments ev.email_id) w) ours got
                  same)
          | inr (f, k) ↦ rw (asks, k) (listed f k)
        ]
      ]
    where
      listed :
          (f : Failure)
          → list ev.email_id ≡ failed f
          → Ends w0 (send_on p db ev received (failed f) (called (list_attachments ev.email_id) w))
      listed f k = unfold send_on in (ours, same, listing list f given k refl)

  with_received-Ends :
      (w0 w : World)
      → IsOurs p ev
      → w.jobs ≡ w0.jobs
      → Ends w0 (with_received p db ev (p.fetcher ev.email_id) w)
  unfolding with_received
  with_received-Ends w0 w ours same = elim (Answer-cases (p.fetcher ev.email_id)) [
    | inr (f, e) ↦ rw e (ours, same, fetching f e refl)
    | inl (received, e) ↦ rw e (list_files-Ends received p.lister w0 w refl ours e same)
  ]

  addressed : Bool
  addressed = addressed_to_domain p.fold p.parse_address (recipients ev) p.domain

  is_ours-IsOurs : is_ours p db ev ≡ true → IsOurs p ev
  unfolding addressed
  is_ours-IsOurs h =
      let (named, at_domain) = both (ev.email_id == "") addressed h in
      (
        λ e. false≢true (sym named ∙ (eq_iff ev.email_id "").1 e),
        (addressed_to_domain_iff p.fold p.parse_address p.domain (recipients ev)).0 at_domain,
      )
    where
      both : (a b : Bool) → (not a && b) ≡ true → (a ≡ false) × (b ≡ true)
      both a b k = (ground (arith, k), ground (arith, k))

  IsOurs-is_ours : IsOurs p ev → is_ours p db ev ≡ true
  IsOurs-is_ours (named, i) =
      let at_domain =
        (addressed_to_domain_iff p.fold p.parse_address p.domain (recipients ev)).1 i in
      elim (Bool-cases (ev.email_id == "")) [
        | inl e ↦ absurd (named ((eq_iff ev.email_id "").0 e))
        | inr e ↦ rw (e, at_domain) refl
      ]

  -- Processing an event ends in one of three ways. A mail that is not ours, since it has no
  -- id or none of its recipients is at the domain for replies, is ignored, and nothing is called
  -- and nothing queued. A mail is forwarded when the mail built from what the fetcher gave
  -- was handed over last, and the backend accepted it; and then, if there is a queue and the backend
  -- gave a reference for uploads, every file that it names as pending has a job in the queue. In a
  -- failure the queue is as before, and the failure is that of fetching the mail, of listing its
  -- files or of the backend, retryable as that one is, or it is the retryable one of queueing the
  -- files while the database is down.
  pub process-Ends : (w : World) → Ends w (process p db ev w)
  unfolding process
  process-Ends w =
      let flip =
        or_not (ev.email_id == "")
          (addressed_to_domain p.fold p.parse_address (recipients ev) p.domain) in
      elim (Bool-cases (is_ours p db ev)) [
        | inl ours ↦
            rw (flip, ours)
              (with_received-Ends w (called (fetch ev.email_id) w) (is_ours-IsOurs ours) refl)
        | inr other ↦ rw (flip, other) (λ o. false≢true (sym other ∙ IsOurs-is_ours o), refl)
      ]
