-- ===== src/Inbound/Process/Replay.antt =====
-- The same event again: Resend retries a webhook, and may deliver one twice.
use stonesuite_notify.Base.{
  ◌≡◌, refl, inl, inr, String, true, not, ◌&&◌, ◌==◌, Option, none, some, List, [], Bool-cases,
}
use stonesuite_notify.Inbound.Failure.{Answer, done, Answer-cases}
use stonesuite_notify.Inbound.Mail.{
  EventData, Received, ReceivedAttachment, recipients, build_mail, addressed_to_domain,
}
use stonesuite_notify.Inbound.Jobs.Queued.{enqueue-enqueue}
use stonesuite_notify.Inbound.Process.{
  ForwardResult, Outcome, forwarded, fetch, list_attachments, forward, World, Processor, Db, called,
  nonempty, wants_files, queue_files, send_on, list_files, with_received, is_ours, process,
}
use stonesuite_notify.Inbound.Process.Paths.{enqueue_down, last_holds, or_not}

module _ (p : Processor) (db db' : Db) (ev : EventData) where
  -- The second run succeeds, and leaves the queue that the first one left.
  abbrev SameAgain : World × Answer Outcome → World → World × Answer Outcome → Type 0
  SameAgain first w' second =
      first.1 ≡ done forwarded
      → w'.jobs ≡ first.0.jobs
      → (second.1 ≡ done forwarded) × (second.0.jobs ≡ w'.jobs)

  queue_files_again :
      (res : ForwardResult) (w w' : World)
      → db'.up ≡ true
      → SameAgain (queue_files p db ev (done res) w) w' (queue_files p db' ev (done res) w')
  unfolding queue_files
  queue_files_again res w w' up' = elim (Bool-cases (wants_files p res)) [
    | inr idle ↦ rw idle (λ _ _. (refl, refl))
    | inl wants ↦ elim (Bool-cases db.up) [
      | inl up ↦
          let (t, done_now, has, again) =
            enqueue-enqueue db.new_id db'.new_id db.now db'.now ev.email_id res.upload_ref
              res.upload_ref res.pending w.jobs in
          rw (wants, up, up', done_now) (λ _ same. rw (same, again) (refl, refl))
      | inr down ↦
          rw
            (
              wants,
              down,
              enqueue_down db.new_id db.now ev.email_id res.upload_ref res.pending w.jobs
                  (last_holds p.has_jobs (not (res.upload_ref == "")) (nonempty res.pending) wants),
            )
            (λ f _. cc)
    ]
  ]

  send_on_again :
      (received : Received) (files : List ReceivedAttachment) (w w' : World)
      → db'.up ≡ true
      → SameAgain
          (send_on p db ev received (done files) w)
          w'
          (send_on p db' ev received (done files) w')
  unfolding send_on
  send_on_again received files w w' up' =
      let mail = build_mail p.fold ev received files in
      elim (Answer-cases (p.forwarder mail)) [
        | inl (res, e) ↦
            rw e (queue_files_again res (called (forward mail) w) (called (forward mail) w') up')
        | inr (f, e) ↦ rw e (λ k _. cc)
      ]

  list_files_again :
      (received : Received) (lister : Option (String → Answer (List ReceivedAttachment)))
      (w w' : World)
      → db'.up ≡ true
      → SameAgain (list_files p db ev received lister w) w' (list_files p db' ev received lister w')
  unfolding send_on
  list_files_again received none w w' up' = send_on_again received [] w w' up'
  list_files_again received (some list) w w' up' =
      let asked = called (list_attachments ev.email_id) in
      elim (Bool-cases (nonempty ev.attachments && p.has_jobs)) [
        | inr skip ↦ rw skip (send_on_again received [] w w' up')
        | inl asks ↦ elim (Answer-cases (list ev.email_id)) [
          | inl (files, k) ↦ rw (asks, k) (send_on_again received files (asked w) (asked w') up')
          | inr (f, k) ↦ rw (asks, k) (λ e _. cc)
        ]
      ]

  -- An event that was forwarded once may be processed again, with the same answers of Resend and of
  -- the backend, while the database answers: it is forwarded again, and the queue stays as it is.
  pub process-process :
      (w w' : World)
      → db'.up ≡ true
      → (process p db ev w).1 ≡ done forwarded
      → w'.jobs ≡ (process p db ev w).0.jobs
      → ((process p db' ev w').1 ≡ done forwarded) × ((process p db' ev w').0.jobs ≡ w'.jobs)
  unfolding process with_received
  process-process w w' up' =
      let asked = called (fetch ev.email_id) in
      let flip =
        or_not (ev.email_id == "")
          (addressed_to_domain p.fold p.parse_address (recipients ev) p.domain) in
      elim (Bool-cases (is_ours p db ev)) [
        | inr other ↦ rw (flip, other) (λ k _. cc)
        | inl ours ↦ elim (Answer-cases (p.fetcher ev.email_id)) [
          | inr (f, e) ↦ rw (flip, ours, e) (λ k _. cc)
          | inl (received, e) ↦
              rw (flip, ours, e) (list_files_again received p.lister (asked w) (asked w') up')
        ]
      ]
