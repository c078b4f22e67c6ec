-- ===== src/Tests/Copy.antt =====
-- The copying of received files at concrete inputs.
use stonesuite_notify.Base.{
  ◌*◌, ◌≤◌, ◌<◌, ◌≡◌, ◌↔◌, refl, String, Bool, true, false, List, [], ◌∷◌, any, total, length,
}
use stonesuite_notify.Base.Int.{pos}
use stonesuite_notify.Inbound.Failure.{done, failed, retryable}
use stonesuite_notify.Inbound.Mail.{ReceivedAttachment}
use stonesuite_notify.Inbound.Jobs.{JobRow, Job, job_row, is_due, is_pending, is_processing}
use stonesuite_notify.Inbound.Worker.{Services, Times, copy_file, find_file, poll_once}
use stonesuite_notify.Inbound.Worker.Settles.{copy_file_iff, IsCopied}
use stonesuite_notify.Inbound.Worker.Ends.{poll_once-lt, tries_left, may_claim}
use stonesuite_notify.Inbound.Worker.Ends.Runs.{Moment, IsBusy-length-le}

abbrev one_file : ReceivedAttachment
one_file = record {
  id = "f1";
  filename = "a.pdf";
  size = pos 3;
  content_type = "application/pdf";
  content_disposition = "attachment";
  content_id = "";
  download_url = "https://inbound-cdn.resend.com/f1";
  expires_at = "";
}

abbrev all_well : Services String
all_well = record {
  list = λ id. done (one_file ∷ []);
  download = λ url max. done "pdf";
  upload = λ ref id type file. done tt;
}

-- The backend does not answer.
abbrev backend_down : Services String
backend_down = record all_well {
  upload = λ ref id type file.
      failed (record { cause = retryable; message = "backend inbound attachment" });
}

abbrev waiting : List JobRow
waiting = job_row (λ a. a) 0 "m1" "ref" "f1" ∷ []

abbrev none_locked : String → Bool
none_locked id = false

abbrev soon : Job → Times
soon job = record { up = true; clock = 20; now = 20 }

abbrev the_job : Job
the_job = record {
  id = "f1";
  email_id = "m1";
  attachment_id = "f1";
  upload_ref = "ref";
  attempts = 0;
}

abbrev the_row : JobRow
the_row = job_row (λ a. a) 0 "m1" "ref" "f1"

copy_file_iff_example : (copy_file all_well the_job ≡ done tt) ↔ IsCopied all_well the_job
copy_file_iff_example = copy_file_iff all_well the_job

is_copied : copy_file all_well the_job ≡ done tt
unfolding copy_file find_file
is_copied = refl

abbrev finds_one : any (may_claim none_locked 10 10) waiting ≡ true
unfolding may_claim is_due is_pending is_processing job_row
finds_one = refl

poll_once-lt_example :
    total tries_left (poll_once backend_down true none_locked 10 10 soon waiting)
    < total tries_left waiting
poll_once-lt_example =
    poll_once-lt backend_down none_locked 10 10 soon waiting (tt, tt) (λ job. refl) finds_one

abbrev at_ten : Moment
at_ten = record { locked = none_locked; clock = 10; now = 10; times = soon }

IsBusy-length-le_example : length (at_ten ∷ []) ≤ 8 * length waiting
IsBusy-length-le_example =
    IsBusy-length-le backend_down (at_ten ∷ []) waiting (tt, tt) (finds_one, (λ job. refl), tt)
