-- ===== src/Tests/Create.antt =====
-- Create requests and the configuration at concrete inputs.
use stonesuite_notify.Base.{
  ℕ, ◌≤◌, ◌≡◌, ◌≢◌, refl, String, true, ◌==◌, Option, none, some, [], ◌∷◌, map, length, Result, ok,
  if◌then◌else◌,
}
use stonesuite_notify.Base.Text.{trim_space}
use stonesuite_notify.Config.{
  Config, BackendUrl, load, read_env, check_required, check_backend, split_csv, trim_slashes,
}
use stonesuite_notify.Config.Required.{IsUsable, load-IsUsable}
use stonesuite_notify.Notifications.{validate}
use stonesuite_notify.Notifications.Attachments.{AttachmentInput, EmailOptions, no_options}
use stonesuite_notify.Preferences.{Preferences, all_enabled}
use stonesuite_notify.Controllers.{Request}
use stonesuite_notify.Controllers.Create.{
  CreateRequest, Std, Accepted, accept, check_request, email_options, check_limit, has_line_break,
  check_reply_to, build_attachment, decode_files, attachment_of, plan, plan_one, create_input,
  max_email_attachment_bytes,
}
use stonesuite_notify.Controllers.Create.Checks.{
  IsSafe, email_options-IsSafe, bytes_of, build_attachment-le,
}
use stonesuite_notify.Controllers.Create.Plan.{Plans, accept-ok}
use stonesuite_notify.Controllers.Create.Loop.{Turn, create_route}
use stonesuite_notify.Controllers.Create.Loop.Ends.{EndsIn, create_route-EndsIn}
use stonesuite_notify.Tests.Data.{plain, empty_world}

abbrev library : Std
library = record {
  parse_address = λ s. some s;
  decode64 = λ s. some (1 ∷ 2 ∷ []);
  decimal = λ n. "";
}

abbrev an_event : CreateRequest
an_event = record {
  tenant_id = "t1";
  recipients =
      record { user_id = "u1"; email = "" } ∷ record { user_id = ""; email = "c@x.io" } ∷ [];
  actor_user_id = "u9";
  event_type = "order.sent";
  resource = "order";
  resource_id = "o1";
  title = "Sent";
  body = "";
  link = "";
  status_link = "";
  status_resource = "";
  channels = "email" ∷ [];
  email_body_html = "";
  attachments =
      record { file_name = "a.pdf"; content_type = "application/pdf"; content_base64 = "AQI=" }
      ∷ [];
  email_reply_to = " re@r.io ";
  email_from_name = "";
  email_in_reply_to = "";
  email_references = "";
}

abbrev options : EmailOptions
options = record no_options { reply_to = "re@r.io" }

abbrev has_options : email_options library an_event ≡ ok options
unfolding email_options check_limit has_line_break check_reply_to trim_space
has_options = refl

email_options-IsSafe_example : IsSafe library options
email_options-IsSafe_example = email_options-IsSafe library an_event has_options

abbrev the_attachment : AttachmentInput
the_attachment = record {
  file_name = "a.pdf";
  content_type = "application/pdf";
  content = 1 ∷ 2 ∷ [];
  more_files = [];
  email_body_html = "";
  email_options = options;
}

abbrev is_built : build_attachment library an_event options ≡ ok (some the_attachment)
unfolding build_attachment decode_files attachment_of
is_built = refl

build_attachment-le_example :
    (bytes_of the_attachment ≤ max_email_attachment_bytes)
    × (length (the_attachment.more_files) ≤ 4)
build_attachment-le_example = build_attachment-le library an_event options is_built

abbrev everything : String → Result Preferences
everything user = ok all_enabled

abbrev accepted_event : Accepted
accepted_event = record {
  attachment = some the_attachment;
  planned = map (plan_one library everything an_event) an_event.recipients;
}

abbrev is_accepted : accept library everything an_event ≡ ok accepted_event
unfolding accept check_request email_options check_limit has_line_break check_reply_to trim_space
    build_attachment decode_files attachment_of plan validate create_input
is_accepted = refl

accept-ok_example :
    (an_event.recipients ≢ [])
    × Plans everything an_event an_event.recipients accepted_event.planned
accept-ok_example = accept-ok library everything an_event is_accepted

abbrev settings : String → String
settings name =
    if name == "DATABASE_URL"
    then "postgres://db"
    else if name == "JWT_SECRET"
    then "s"
    else if name == "INTERNAL_SERVICE_SECRET"
    then "i"
    else if name == "SMTP_HOST"
    then "mail"
    else if name == "EMAIL_FROM"
    then "n@x.io"
    else ""

abbrev no_url : String → Option BackendUrl
no_url s = none

abbrev unchanged : String → String
unchanged s = s

abbrev running : Config
running = read_env unchanged unchanged no_url settings

abbrev is_loaded : load unchanged unchanged no_url settings ≡ ok running
unfolding load read_env check_required check_backend split_csv trim_slashes trim_space
is_loaded = refl

load-IsUsable_example : IsUsable unchanged unchanged no_url running
load-IsUsable_example = load-IsUsable unchanged unchanged no_url settings is_loaded

abbrev a_request : Request
a_request = record {
  query = λ name. "";
  path_id = "n1";
  forwarded_for = "1.2.3.4, 10.0.0.1";
  user_agent = "curl";
  remote_addr = "10.0.0.1:80";
}

abbrev turn : ℕ → Turn
turn i = record {
  create_ok = true;
  id = "n1";
  now = 5;
  attachment_refused = none;
  queue_ok = λ c. true;
  queue_id = λ c. "d1";
}

create_route-EndsIn_example :
    EndsIn plain running everything turn an_event a_request
      (accept library everything an_event)
      empty_world
      (create_route plain running library a_request everything turn (some an_event) empty_world)
create_route-EndsIn_example =
    create_route-EndsIn plain running library a_request everything turn an_event empty_world
