-- ===== src/Inbound/Worker/Ends/Runs.antt =====
-- Any number of polls of the worker.
use stonesuite_notify.Base.{
  contains, select, map, ℕ, ◌+◌, ◌*◌, ◌≤◌, ◌≡◌, refl, inl, inr, String, Bool, true, false, ◌==◌,
  if◌then◌else◌, update, List, [], ◌∷◌, ok, err, Bool-cases, All-of, any, total, total-le, IsKeyed,
  IsKeyed-update, IsKeyed-delete, arith, length, leb,
}
use stonesuite_notify.Base.Int.{ℤ, pos, negsuc}
use stonesuite_notify.Inbound.Failure.{
  Cause, Answer, done, failed, permanent, retryable, file_too_large, attachment_gone,
}
use stonesuite_notify.Inbound.Jobs.{
  JobRow, Job, claim_due, complete, retry, fail, give_up, given_up, rescheduled, max_job_attempts,
  in_progress, due_ids, is_due, scan_job,
}
use stonesuite_notify.Inbound.Worker.{
  Services, Times, settle, settle_failed, settled, copy_file, handle, handle_all, poll_once,
  stale_after, batch_size,
}
use stonesuite_notify.Inbound.Worker.Ends.{tries_left, may_claim, poll_once-lt}

abbrev pub id_of : JobRow → String
id_of r = r.id

IsKeyed-give_up :
    (up : Bool) (id : String) (n : ℤ) (m : String) (now : ℕ) (table : List JobRow)
    → IsKeyed id_of table
    → IsKeyed id_of (settle (give_up up id n m now table) table)
unfolding give_up given_up
IsKeyed-give_up true id n m now table k = IsKeyed-update id_of _ _ (λ r. refl) table k
IsKeyed-give_up false id n m now table k = k

IsKeyed-retry :
    (up : Bool) (id : String) (n : ℕ) (m : String) (clock now : ℕ) (table : List JobRow)
    → IsKeyed id_of table
    → IsKeyed id_of (settle (retry up id n m clock now table) table)
unfolding retry rescheduled
IsKeyed-retry up id n m clock now table k = elim (Bool-cases (leb max_job_attempts n)) [
  | inl over ↦ rw over (IsKeyed-give_up up id (pos n) m now table k)
  | inr more ↦ rw more (reschedule up)
]
  where
    reschedule :
        (up' : Bool)
        → IsKeyed id_of (
            settle
              (if up'
                then ok (update (λ r. r.id == id) (rescheduled n m clock now) table)
                else err "reschedule attachment job")
              table)
    reschedule true = IsKeyed-update id_of _ _ (λ r. unfold rescheduled in refl) table k
    reschedule false = k

IsKeyed-complete :
    (up : Bool) (id : String) (table : List JobRow)
    → IsKeyed id_of table
    → IsKeyed id_of (settle (complete up id table) table)
unfolding complete
IsKeyed-complete true id table k = IsKeyed-delete id_of _ table k
IsKeyed-complete false id table k = k

IsKeyed-settled :
    (t : Times) (job : Job) (a : Answer (Unit {0})) (table : List JobRow)
    → IsKeyed id_of table
    → IsKeyed id_of (settled t job a table)
unfolding settled
IsKeyed-settled t job (done u) table k = IsKeyed-complete t.up job.id table k
IsKeyed-settled t job (failed f) table k = by_cause f.cause
  where
    by_cause : (c : Cause) → IsKeyed id_of (settle_failed t job c f.message table)
    by_cause attachment_gone = unfold settle_failed in IsKeyed-complete t.up job.id table k
    by_cause file_too_large = unfold settle_failed in IsKeyed-complete t.up job.id table k
    by_cause retryable =
        unfold settle_failed in
        IsKeyed-retry t.up job.id (job.attempts + 1) f.message t.clock t.now table k
    by_cause permanent =
        unfold settle_failed fail in IsKeyed-give_up t.up job.id (negsuc 0) f.message t.now table k

module _ {File : Type 0} (s : Services File) where
  handle_all-IsKeyed :
      (times : Job → Times) (jobs : List Job) (table : List JobRow)
      → IsKeyed id_of table
      → IsKeyed id_of (handle_all s times jobs table)
  unfolding handle_all handle
  handle_all-IsKeyed times [] table k = k
  handle_all-IsKeyed times (job ∷ jobs) table k =
      handle_all-IsKeyed times jobs _ (IsKeyed-settled (times job) job (copy_file s job) table k)

  poll_once-IsKeyed :
      (up : Bool) (locked : String → Bool) (clock now : ℕ) (times : Job → Times)
      (table : List JobRow)
      → IsKeyed id_of table
      → IsKeyed id_of (poll_once s up locked clock now times table)
  unfolding poll_once claim_due
  poll_once-IsKeyed false locked clock now times table k = k
  poll_once-IsKeyed true locked clock now times table k =
      let ids = due_ids (is_due stale_after clock now) locked batch_size table in
      let p = λ (r : JobRow). contains r.id ids in
      let t = update p (in_progress now) table in
      handle_all-IsKeyed times (map scan_job (select p t)) t
        (IsKeyed-update id_of p (in_progress now) (λ r. refl) table k)

-- What a poll meets.
pub record Moment : Type 0 where
  pub locked : String → Bool
  pub clock : ℕ
  pub now : ℕ
  pub times : Job → Times

module _ {File : Type 0} (s : Services File) where
  abbrev pub poll_at : Moment → List JobRow → List JobRow
  poll_at m table = poll_once s true m.locked m.clock m.now m.times table

  -- Each of the polls finds a job that it may claim, and the database takes its outcome.
  abbrev pub IsBusy : List Moment → List JobRow → Type 0
  IsBusy [] table = Unit
  IsBusy (m ∷ ms) table =
      (any (may_claim m.locked m.clock m.now) table ≡ true)
      × ((job : Job) → (m.times job).up ≡ true)
      × IsBusy ms (poll_at m table)

  IsBusy-le :
      (ms : List Moment) (table : List JobRow)
      → IsKeyed id_of table
      → IsBusy ms table
      → length ms ≤ total tries_left table
  IsBusy-le [] table k b = omega arith
  IsBusy-le (m ∷ ms) table k (found, up, rest) =
      let fewer = poll_once-lt s m.locked m.clock m.now m.times table k up found in
      let more =
        IsBusy-le ms (poll_at m table)
          (poll_once-IsKeyed s true m.locked m.clock m.now m.times table k) rest in
      omega (arith, fewer, more)

  tries_left-le : (r : JobRow) → tries_left r ≤ 8
  unfolding tries_left
  tries_left-le r = ground arith

  -- Copying ends: while no new file is queued, ids are unique and the database answers, there are
  -- at most 8 polls for each job of the queue that find a job to claim, whatever Resend and the
  -- backend answer, and whenever the polls happen.
  pub IsBusy-length-le :
      (ms : List Moment) (table : List JobRow)
      → IsKeyed id_of table
      → IsBusy ms table
      → length ms ≤ 8 * length table
  IsBusy-length-le ms table k b = omega (
    arith,
    IsBusy-le ms table k b,
    total-le tries_left 8 table (All-of (λ r. tries_left r ≤ 8) tries_left-le table),
  )
