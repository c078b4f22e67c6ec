-- ===== src/Tests/Logs.antt =====
-- Tests of the received files' queue, of the delivery log and of the audit trail.
use stonesuite_notify.Base.{
  ◌+◌, ◌≡◌, refl, String, true, false, length, List, [], ◌∷◌, All, any, ok, err, none, some, Result,
}
use stonesuite_notify.Base.Int.{pos}
use stonesuite_notify.Deliveries.{
  DeliveryRow, Channel, Status, new_row, scan_delivery, list_by_status, has_status_since,
  list_limit,
}
use stonesuite_notify.Audit.{
  Entry, EntryRow, record_entry, Filter, scan_entry, list, conditions_of, normalize,
}
use stonesuite_notify.Audit.Recorder.{
  Recorder, Run, started, called, ended, new_recorder, record_async, write_ends, WaitReturns,
}
use stonesuite_notify.Audit.Recorder.Flushed.{IsFlushed, Run-IsFlushed}
use stonesuite_notify.Inbound.Jobs.{JobRow, is_file, enqueue, fail}
use stonesuite_notify.Inbound.Jobs.Queued.{
  enqueue-enqueue, JobStep, queued, gave_up, no_jobs, then_step, IsSafe, JobReach-IsSafe,
}

abbrev job_id : String → String
job_id a = a

enqueue-enqueue_example :
    (waiting : List JobRow) × (enqueue true job_id 1 "m1" "r1" ("a" ∷ "b" ∷ []) [] ≡ ok waiting)
    × All (λ a. any (is_file "m1" a) waiting ≡ true) ("a" ∷ "b" ∷ [])
    × (enqueue true job_id 9 "m1" "r2" ("a" ∷ "b" ∷ []) waiting ≡ ok waiting)
enqueue-enqueue_example = enqueue-enqueue job_id job_id 1 9 "m1" "r1" "r2" ("a" ∷ "b" ∷ []) []

abbrev jobs_of : Result (List JobRow) → List JobRow
jobs_of (ok t) = t
jobs_of (err _) = []

abbrev one_job : List JobRow
one_job = jobs_of (enqueue true job_id 1 "m1" "r1" ("a" ∷ []) [])

abbrev given_up_job : List JobRow
given_up_job = jobs_of (fail true "a" "gone" 5 one_job)

job_queued : JobStep [] one_job
unfolding enqueue
job_queued = queued job_id 1 "m1" "r1" ("a" ∷ []) refl

job_given_up : JobStep one_job given_up_job
unfolding fail
job_given_up = gave_up "a" "gone" 5 refl

JobReach-IsSafe_example : All IsSafe given_up_job
JobReach-IsSafe_example = JobReach-IsSafe (then_step (then_step no_jobs job_queued) job_given_up)

abbrev sent_row : DeliveryRow
sent_row = new_row "d1" 5 "n1" "t1" "u1" Channel.in_app Status.sent

sent_listed :
    list_by_status true "t1" "sent" 3 (pos 0) (sent_row ∷ []) ≡ ok (scan_delivery sent_row ∷ [])
unfolding list_by_status has_status_since new_row list_limit
sent_listed = refl

abbrev read_entry : EntryRow
read_entry = record {
  id = "e1";
  tenant_id = "t1";
  actor_user_id = some "u1";
  actor_type = "user";
  action = "notification.read";
  resource = "notification";
  resource_id = "n1";
  metadata = none;
  ip_address = "";
  user_agent = "";
  created_at = 5;
}

abbrev reads_only : Filter
reads_only = record {
  action = "notification.read";
  actor_user_id = "";
  resource = "";
  resource_id = "";
  from = none;
  until = none;
  limit = pos 0;
  offset = pos 0;
}

one_read :
    list true true "t1" reads_only (read_entry ∷ record read_entry { tenant_id = "t2" } ∷ [])
    ≡ ok (scan_entry read_entry ∷ [], 1)
unfolding list conditions_of normalize
one_read = refl

abbrev entry_named : String → Entry
entry_named name = record {
  id = "";
  tenant_id = "t1";
  actor_user_id = "u1";
  actor_type = "";
  action = name;
  resource = "";
  resource_id = "";
  metadata = none;
  ip_address = "";
  user_agent = "";
  created_at = 0;
}

abbrev both_called : Recorder
both_called = record_async (entry_named "b") (record_async (entry_named "a") (new_recorder []))

-- The second write ends first, and fails; the first one then succeeds.
abbrev one_left : Recorder
one_left = write_ends (entry_named "a" ∷ []) (entry_named "b") [] false "" 0 both_called

abbrev none_left : Recorder
none_left = write_ends [] (entry_named "a") [] true "e1" 7 one_left

abbrev both_in_flight : both_called.in_flight ≡ entry_named "a" ∷ entry_named "b" ∷ []
unfolding record_async
both_in_flight = refl

abbrev first_in_flight : one_left.in_flight ≡ entry_named "a" ∷ []
unfolding write_ends record_entry
first_in_flight = refl

abbrev all_ended : WaitReturns none_left
unfolding write_ends record_entry
all_ended = refl

abbrev a_run : Run [] none_left
a_run =
    ended [] (entry_named "a") [] true "e1" 7
      (ended (entry_named "a" ∷ []) (entry_named "b") [] false "" 0
        (called (entry_named "b") (called (entry_named "a") started)) both_in_flight)
      first_in_flight

Run-IsFlushed_example :
    All (IsFlushed none_left) none_left.handed
    × (length none_left.table + length none_left.logged
        ≡ length {A = EntryRow} [] + length none_left.handed)
Run-IsFlushed_example = Run-IsFlushed [] none_left a_run all_ended
