-- ===== src/Tests/Mail.antt =====
-- Received mail at concrete inputs.
use stonesuite_notify.Base.{
  ℕ, ◌≤◌, ◌≡◌, ◌↔◌, refl, String, true, false, Option, none, some, List, [], ◌∷◌, length, ok, arith,
}
use stonesuite_notify.Base.Int.{pos}
use stonesuite_notify.Base.Text.{trim_space}
use stonesuite_notify.Base.Utf8.{encode, rune_start}
use stonesuite_notify.Base.Utf8.Prefix.{fit}
use stonesuite_notify.Inbound.Failure.{done, failed, retryable}
use stonesuite_notify.Inbound.Mail.{
  EventData, Received, ReceivedAttachment, equal_fold, addressed_to_domain, after_last_at,
  recipients,
}
use stonesuite_notify.Inbound.Mail.Body.{truncate_bytes, back_up}
use stonesuite_notify.Inbound.Mail.Body.Whole.{truncate_bytes-encode}
use stonesuite_notify.Inbound.Mail.Domain.{IsAddressed, addressed_to_domain_iff}
use stonesuite_notify.Inbound.Jobs.{enqueue}
use stonesuite_notify.Inbound.Process.{
  forwarded, World, Processor, Db, process, with_received, send_on, queue_files,
}
use stonesuite_notify.Inbound.Process.Paths.{Ends, process-Ends}
use stonesuite_notify.Inbound.Process.Replay.{process-process}
use stonesuite_notify.Inbound.Http.{
  Net, response, download, download_url_error, read_limited, read_full,
}
use stonesuite_notify.Inbound.Http.Download.{
  IsResendLink, IsReadFrom, get_of, download-IsResendLink,
}
use stonesuite_notify.Inbound.Http.Signed.{signed_text-injective}

-- "é" takes two bytes, of which the cut to 2 would keep one.
truncate_bytes-encode_example :
    (truncate_bytes (encode "aéb") 2 ≡ encode (fit 2 "aéb"))
    × (length (truncate_bytes (encode "aéb") 2) ≤ 2)
truncate_bytes-encode_example = truncate_bytes-encode "aéb" 2

cut_before : truncate_bytes (encode "aéb") 2 ≡ 0x61 ∷ []
unfolding truncate_bytes back_up encode rune_start
cut_before = refl

abbrev keep : ℕ → ℕ
keep c = c

abbrev as_is : String → Option String
as_is s = some s

addressed_to_domain_iff_example :
    (addressed_to_domain keep as_is ("x@other.io" ∷ "re+7@r.io" ∷ []) "r.io" ≡ true)
    ↔ IsAddressed keep as_is "r.io" ("x@other.io" ∷ "re+7@r.io" ∷ [])
addressed_to_domain_iff_example =
    addressed_to_domain_iff keep as_is "r.io" ("x@other.io" ∷ "re+7@r.io" ∷ [])

is_addressed : addressed_to_domain keep as_is ("x@other.io" ∷ "re+7@r.io" ∷ []) "r.io" ≡ true
unfolding addressed_to_domain equal_fold after_last_at trim_space
is_addressed = refl

abbrev reply : EventData
reply = record {
  email_id = "m1";
  from = "ann@c.io";
  to = "re+7@r.io" ∷ [];
  cc = [];
  bcc = [];
  message_id = "<1@c.io>";
  subject = "Re: order";
  attachments = record { id = "f1"; filename = "a.pdf" } ∷ [];
}

abbrev fetched_reply : Received
fetched_reply = record {
  id = "m1";
  from = "ann@c.io";
  to = "re+7@r.io" ∷ [];
  cc = [];
  subject = "Re: order";
  text_body = 0x68 ∷ 0x69 ∷ [];
  html_body = [];
  message_id = "<1@c.io>";
  headers = [];
}

abbrev a_file : ReceivedAttachment
a_file = record {
  id = "f1";
  filename = "a.pdf";
  size = pos 3;
  content_type = "application/pdf";
  content_disposition = "attachment";
  content_id = "";
  download_url = "https://inbound-cdn.resend.com/f1";
  expires_at = "";
}

abbrev office : Processor
office = record {
  domain = "r.io";
  fetcher = λ id. done fetched_reply;
  forwarder = λ mail. done (record { upload_ref = "ref"; pending = "f1" ∷ [] });
  lister = some (λ id. done (a_file ∷ []));
  has_jobs = true;
  fold = keep;
  parse_address = as_is;
}

abbrev db_down : Db
db_down = record { up = false; new_id = λ a. a; now = 5 }

abbrev db_up : Db
db_up = record { up = true; new_id = λ a. a; now = 9 }

abbrev quiet : World
quiet = record { calls = []; jobs = [] }

process-Ends_example : Ends office db_down reply quiet (process office db_down reply quiet)
process-Ends_example = process-Ends office db_down reply quiet

-- While the database is down the webhook is to be sent again.
down_is_retried :
    (process office db_down reply quiet).1
    ≡ failed (record {
      cause = retryable;
      message = "queue received attachments: enqueue attachment jobs";
    })
unfolding process with_received send_on queue_files enqueue addressed_to_domain equal_fold
    after_last_at recipients trim_space
down_is_retried = refl

once_forwarded : (process office db_up reply quiet).1 ≡ done forwarded
unfolding process with_received send_on queue_files enqueue addressed_to_domain equal_fold
    after_last_at recipients trim_space
once_forwarded = refl

process-process_example :
    ((process office db_up reply (process office db_up reply quiet).0).1 ≡ done forwarded)
    × ((process office db_up reply (process office db_up reply quiet).0).0.jobs
        ≡ (process office db_up reply quiet).0.jobs)
process-process_example =
    process-process office db_up db_up reply quiet (process office db_up reply quiet).0 refl
      once_forwarded refl

-- A network whose every answer is one small file.
abbrev small_file : Net
small_file = record {
  send = λ q.
      response (record { status = 200; content_length = pos 2; sent = 1 ∷ 2 ∷ []; breaks = none });
  request_error = λ m u. none;
  parse_url = λ u. ok (record { scheme = "https"; hostname = "cdn.resend.com"; path = "/f1" });
  join_path = λ b ps. ok b;
  path_escape = λ s. s;
  to_lower = λ s. s;
  quote = λ s. s;
  decimal = λ n. "";
  text_of = λ b. "";
  mac_hex = λ k b. "";
  unmarshal_received = λ b. (fetched_reply, none);
  unmarshal_files = λ b. ([], none);
  unmarshal_result = λ b. (record { upload_ref = ""; pending = [] }, none);
  marshal_mail = λ m. ok [];
}

is_downloaded : download small_file "https://cdn.resend.com/f1" 10 ≡ done (1 ∷ 2 ∷ [])
unfolding download download_url_error read_limited read_full
is_downloaded = refl

download-IsResendLink_example :
    IsResendLink small_file "https://cdn.resend.com/f1"
    × (length {A = ℕ} (1 ∷ 2 ∷ []) ≤ 10)
    × IsReadFrom (1 ∷ 2 ∷ []) (small_file.send (get_of "https://cdn.resend.com/f1"))
download-IsResendLink_example =
    download-IsResendLink small_file "https://cdn.resend.com/f1" 10 is_downloaded

signed_text-injective_example :
    (encode "PUT" ≡ encode "PUT")
    × (encode "/a" ≡ encode "/a")
    × (encode "17" ≡ encode "17")
    × (◌≡◌ {A = List ℕ} (1 ∷ []) (1 ∷ []))
unfolding encode
signed_text-injective_example =
    signed_text-injective "PUT" "PUT" "/a" "/a" "17" "17" (1 ∷ []) (1 ∷ []) (ground arith)
      (ground arith) (ground arith) (ground arith) (ground arith) (ground arith) refl
