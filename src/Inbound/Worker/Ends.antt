-- ===== src/Inbound/Worker/Ends.antt =====
-- The copying of every queued file comes to an end.
pub mod Runs
use mathlib.Core.List.{Memᴰ}
use mathlib.Core.Path.{subst}
use stonesuite_notify.Base.{
  ℕ, zero, suc, ◌+◌, ◌-◌, ◌*◌, ◌≤◌, ◌<◌, ◌≡◌, refl, sym, ap, ◌∙◌, inl, inr, ◌⊎◌, String, Bool, true,
  false, not, ◌&&◌, ◌==◌, eq_iff, eq_refl, Option, none, some, List, [], ◌∷◌, map, take, Result, ok,
  err, Bool-cases, All, All-of_mem, All-impl, All-of, leb, any, select, update, order_by, insert_by,
  contains, total, total-update-lt, total-update-eq, total-select-lt, returning_one, IsKeyed,
  IsKeyed-unique, All-mem, All-select_with, All-order_by, arith, length, any_of_mem, any-mem,
  any-update, IsKeyed-update, IsKeyed-delete, ◌||◌, total-le,
}
use stonesuite_notify.Base.Int.{ℤ, pos, negsuc}
use stonesuite_notify.Inbound.Failure.{
  Cause, Failure, Answer, done, failed, permanent, retryable, file_too_large, attachment_gone,
}
use stonesuite_notify.Inbound.Jobs.{
  JobStatus, pending, processing, failed as failed_job, JobRow, Job, claim_due, complete, retry,
  fail, give_up, max_job_attempts, is_due, is_pending, is_processing, due_ids, in_progress,
  scan_job, given_up, rescheduled,
}
use stonesuite_notify.Inbound.Worker.{
  Services, Times, settle, settle_failed, settled, copy_file, handle, handle_all, polled, poll_once,
  batch_size, stale_after,
}

-- The attempts that a job has left: none once it was given up.
unfoldable pub tries_left : JobRow → ℕ
tries_left r = elim r.status [ failed_job ↦ 0 | _ ↦ suc (7 - r.attempts) ]

insert_by-cons :
    (key : JobRow → ℕ) (x : JobRow) (ys : List JobRow)
    → (y : JobRow) × (zs : List JobRow) × (insert_by key x ys ≡ y ∷ zs)
insert_by-cons key x [] = (x, [], refl)
insert_by-cons key x (y ∷ ys) = elim (Bool-cases (leb (key x) (key y))) [
  | inl e ↦ (x, y ∷ ys, rw e refl)
  | inr e ↦ (y, insert_by key x ys, rw e refl)
]

order_by-cons :
    (key : JobRow → ℕ) (p : JobRow → Bool) (xs : List JobRow)
    → any p xs ≡ true
    → (y : JobRow) × (zs : List JobRow) × (order_by key (select p xs) ≡ y ∷ zs)
order_by-cons key p [] h = cc
order_by-cons key p (x ∷ xs) h = elim (Bool-cases (p x)) [
  | inl e ↦ rw e (insert_by-cons key x (order_by key (select p xs)))
  | inr e ↦ rw e (order_by-cons key p xs (rw e at h))
]

-- The job that is claimed first: one of the table's that may be claimed.
first_due :
    (p : JobRow → Bool) (table : List JobRow)
    → any p table ≡ true
    → (x : JobRow) × Memᴰ x table
      × (p x ≡ true)
      × (map (λ r. r.id) (take 1 (order_by (λ r. r.created_at) (select p table))) ≡ x.id ∷ [])
first_due p table h =
    let (y, zs, e) = order_by-cons (λ r. r.created_at) p table h in
    let every =
      All-order_by (λ r. Memᴰ r table × (p r ≡ true)) (λ r. r.created_at) (select p table)
        (All-select_with (λ r. Memᴰ r table) (λ r. Memᴰ r table × (p r ≡ true)) p (λ r k m. (m, k))
          table (All-of_mem (λ r. Memᴰ r table) table (λ r m. m))) in
    let here : All (λ r. Memᴰ r table × (p r ≡ true)) (y ∷ zs) = rw e at every in
    (y, here.0.0, here.0.1, rw e refl)

-- When one row is all that an UPDATE meets, what it met is that row, updated.
update-one :
    (p : JobRow → Bool) (f : JobRow → JobRow) (x : JobRow) (xs : List JobRow)
    → All (λ y. p y ≡ true → y ≡ x) xs
    → All (λ y. p y ≡ true → y ≡ f x) (update p f xs)
update-one p f x [] h = tt
update-one p f x (y ∷ ys) h = elim (Bool-cases (p y)) [
  | inl e ↦ rw e ((λ k. ap f (h.0 e)), update-one p f x ys h.1)
  | inr e ↦ rw e ((λ k. cc), update-one p f x ys h.1)
]

-- The table of an attempt: the job's row is in it, and is in progress.
record IsClaimed (job : Job) (table : List JobRow) : Type 0 where
  present : any (λ r. r.id == job.id) table ≡ true
  counts :
      All (λ r. r.id == job.id ≡ true → (r.status ≡ processing) × (r.attempts ≡ job.attempts)) table

module _ (t : Times) (job : Job) (table : List JobRow) (up : t.up ≡ true) where
  completed-lt :
      IsClaimed job table
      → total tries_left (settle (complete t.up job.id table) table) < total tries_left table
  unfolding complete tries_left
  completed-lt c = rw up (
      total-select-lt tries_left (λ r. r.id == job.id) table
        (All-impl _ _ (λ r h e. rw (h e).0 (omega arith)) table c.counts) c.present)

  given_up-lt :
      IsClaimed job table
      → (n : ℤ) (m : String)
      → total tries_left (settle (give_up t.up job.id n m t.now table) table)
        < total tries_left table
  unfolding give_up given_up tries_left
  given_up-lt c n m = rw up (
      total-update-lt tries_left (λ r. r.id == job.id) (given_up n m t.now) table
        (All-impl _ _ (λ r h e. rw (h e).0 (omega arith)) table c.counts) c.present)

  retried-lt :
      IsClaimed job table
      → (m : String)
      → total tries_left (settle (retry t.up job.id (job.attempts + 1) m t.clock t.now table) table)
        < total tries_left table
  unfolding retry rescheduled tries_left
  retried-lt c m = elim (Bool-cases (leb max_job_attempts (job.attempts + 1))) [
    | inl over ↦ rw over (given_up-lt c (pos (job.attempts + 1)) m)
    | inr more ↦
        rw (more, up)
          (total-update-lt tries_left (λ r. r.id == job.id) _ table
            (All-impl _ _ (λ r h e. rw ((h e).0, (h e).1) (ground (arith, more))) table c.counts)
            c.present)
  ]

  settled-lt :
      IsClaimed job table
      → (a : Answer (Unit {0})) → total tries_left (settled t job a table) < total tries_left table
  unfolding settled settle_failed fail
  settled-lt c (done u) = completed-lt c
  settled-lt c (failed f) = by_cause f.cause f.message
    where
      by_cause :
          (k : Cause) (m : String)
          → total tries_left (settle_failed t job k m table) < total tries_left table
      by_cause attachment_gone m = unfold settle_failed in completed-lt c
      by_cause file_too_large m = unfold settle_failed in completed-lt c
      by_cause retryable m = unfold settle_failed in retried-lt c m
      by_cause permanent m = unfold settle_failed fail in given_up-lt c (negsuc 0) m

is_due-in_progress :
    (st : JobStatus) (stale clock now : ℕ) (x : JobRow)
    → x.status ≡ st
    → is_due stale clock now x ≡ true
    → tries_left (in_progress now x) ≡ tries_left x
unfolding is_due is_pending is_processing tries_left
is_due-in_progress pending stale clock now x e h = rw e refl
is_due-in_progress processing stale clock now x e h = rw e refl
is_due-in_progress failed_job stale clock now x e h = cc (rw e at h)

unfoldable pub may_claim : (String → Bool) → ℕ → ℕ → JobRow → Bool
may_claim locked clock now r = is_due stale_after clock now r && not (locked r.id)

module _ (locked : String → Bool) (clock now : ℕ) (table : List JobRow) where
  record Claims : Type 0 where
    row : JobRow
    member : Memᴰ row table
    may : may_claim locked clock now row ≡ true
    claims :
        claim_due true locked batch_size stale_after clock now table
        ≡ ok (
          update (λ r. contains r.id (row.id ∷ [])) (in_progress now) table,
          scan_job (in_progress now row) ∷ [],
        )

  Claims-of :
      IsKeyed (λ (r : JobRow). r.id) table → any (may_claim locked clock now) table ≡ true → Claims
  unfolding may_claim claim_due due_ids
  Claims-of keyed h =
      let (x, member, may, ids) = first_due (may_claim locked clock now) table h in
      let one =
        returning_one (λ (r : JobRow). r.id) (in_progress now) x table (λ y. refl) member keyed in
      record { row = x; member = member; may = may; claims = rw (ids, one) refl }

-- The facts about the one row that a claim sets in progress.
module _ (now : ℕ) (x : JobRow) (table : List JobRow) (member : Memᴰ x table)
    (keyed : IsKeyed (λ (r : JobRow). r.id) table) where
  abbrev claimed_table : List JobRow
  claimed_table = update (λ r. contains r.id (x.id ∷ [])) (in_progress now) table

  only_row : All (λ y. contains y.id (x.id ∷ []) ≡ true → y ≡ x) table
  only_row =
      All-impl _ _ (λ y same e. same (sym ((eq_iff x.id y.id).0 (ground (arith, e))))) table
        (IsKeyed-unique (λ r. r.id) x table member keyed)

  claimed_table-total :
      (stale clock : ℕ)
      → is_due stale clock now x ≡ true
      → total tries_left claimed_table ≡ total tries_left table
  claimed_table-total stale clock due = total-update-eq tries_left _ (in_progress now) table (
      All-impl _ _
        (λ y same e. rw (same e) (is_due-in_progress x.status stale clock now x refl due)) table
        only_row)

  claimed_table-IsClaimed : IsClaimed (scan_job (in_progress now x)) claimed_table
  unfolding scan_job
  claimed_table-IsClaimed = record {
    present =
        any-update (λ r. r.id == x.id) _ (in_progress now) (λ y. refl) table
        ∙ any_of_mem (λ r. r.id == x.id) x table member (eq_refl x.id);
    counts =
        All-impl _ _
          (λ y same e.
            let hit : y ≡ in_progress now x =
              same (rw ((eq_iff y.id x.id).0 e) (ground (arith, eq_refl x.id))) in
            rw hit (refl, refl))
          claimed_table (update-one _ (in_progress now) x table only_row);
  }

first_of_and : (a b : Bool) → (a && b) ≡ true → a ≡ true
first_of_and a b h = ground (arith, h)

module _ {File : Type 0} (s : Services File) where
  -- A poll that finds a job that it may claim, in a queue of unique ids and while the database
  -- answers, leaves fewer attempts to be made than there were.
  pub poll_once-lt :
      (locked : String → Bool) (clock now : ℕ) (times : Job → Times) (table : List JobRow)
      → IsKeyed (λ (r : JobRow). r.id) table
      → ((job : Job) → (times job).up ≡ true)
      → any (may_claim locked clock now) table ≡ true
      → total tries_left (poll_once s true locked clock now times table) < total tries_left table
  unfolding poll_once may_claim handle_all handle
  poll_once-lt locked clock now times table keyed up h =
      let c = Claims-of locked clock now table keyed h in
      let job = scan_job (in_progress now c.row) in
      let due = first_of_and (is_due stale_after clock now c.row) (not (locked c.row.id)) c.may in
      let same = claimed_table-total now c.row table c.member keyed stale_after clock due in
      rw c.claims (
        subst
          (λ n.
            total tries_left (
              settled (times job) job (copy_file s job)
                (claimed_table now c.row table c.member keyed))
            < n)
          same
          (settled-lt (times job) job _ (up job)
            (claimed_table-IsClaimed now c.row table c.member keyed) (copy_file s job)))
