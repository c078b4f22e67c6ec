-- ===== src/Controllers/Create.antt =====
-- controllers/notifications.go, Create: a business event becomes notifications and deliveries.
pub mod Checks
pub mod Plan
pub mod Loop
use Prim.Native.Char.{Char, code}
use stonesuite_notify.Base.{
  ℕ, zero, suc, ◌+◌, ◌*◌, String, Bool, true, false, not, ◌&&◌, ◌||◌, ◌==◌, Option, none, some,
  List, [], ◌∷◌, ◌++◌, length, contains, all, leb, ltb, nat_eq, if◌then◌else◌, Result, ok, err,
  ◌>>=◌,
}
use stonesuite_notify.Base.Text.{◌+++◌, trim_space, rune_count}
use stonesuite_notify.Notifications.{CreateInput, validate}
use stonesuite_notify.Notifications.Attachments.{
  AttachmentInput, AttachmentFile, EmailOptions, no_options,
}
use stonesuite_notify.Preferences.{Preferences, all_enabled}
use stonesuite_notify.Controllers.{Reply, refused}

pub record RecipientTarget : Type 0 where
  pub user_id : String
  pub email : String

-- An entry of the request's attachments: the content is base64.
pub record WireFile : Type 0 where
  pub file_name : String
  pub content_type : String
  pub content_base64 : String

pub record CreateRequest : Type 0 where
  pub tenant_id : String
  pub recipients : List RecipientTarget
  pub actor_user_id : String
  pub event_type : String
  pub resource : String
  pub resource_id : String
  pub title : String
  pub body : String
  pub link : String
  pub status_link : String
  pub status_resource : String
  pub channels : List String
  pub email_body_html : String
  pub attachments : List WireFile
  pub email_reply_to : String
  pub email_from_name : String
  pub email_in_reply_to : String
  pub email_references : String

abbrev pub max_status_link_chars : ℕ
max_status_link_chars = 300

abbrev pub max_status_resource_chars : ℕ
max_status_resource_chars = 64

abbrev pub max_email_attachments : ℕ
max_email_attachments = 5

abbrev pub max_email_attachment_bytes : ℕ
max_email_attachment_bytes = 25 * 1024 * 1024

abbrev pub max_email_reply_to_chars : ℕ
max_email_reply_to_chars = 254

abbrev pub max_email_from_name_chars : ℕ
max_email_from_name_chars = 100

abbrev pub max_email_message_id_chars : ℕ
max_email_message_id_chars = 998

abbrev pub max_email_references_chars : ℕ
max_email_references_chars = 4000

-- strings.ContainsAny(s, "\r\n")
unfoldable pub has_line_break : String → Bool
has_line_break String.[] = false
has_line_break (String.◌∷◌ c s) = nat_eq (code c) 13 || nat_eq (code c) 10 || has_line_break s

-- One turn of the loop over the limits.
unfoldable pub check_limit : String → String → ℕ → Result (Unit {0})
unfolding has_line_break
check_limit name value max =
    if has_line_break value
    then err (name +++ " must not contain line breaks.")
    else if ltb max (rune_count value)
    then err (name +++ " is too long.")
    else ok tt

-- What the standard library does: mail.ParseAddress, base64, and `%d`.
pub record Std : Type 0 where
  pub parse_address : String → Option String
  pub decode64 : String → Option (List ℕ)
  pub decimal : ℕ → String

module _ (std : Std) where
  abbrev pub well_formed : Option String → EmailOptions → Result EmailOptions
  well_formed none opts = err "emailReplyTo must be a valid email address."
  well_formed (some a) opts = ok opts

  unfoldable pub check_reply_to : EmailOptions → Result EmailOptions
  check_reply_to opts =
      if opts.reply_to == "" then ok opts else well_formed (std.parse_address opts.reply_to) opts

  unfoldable pub email_options : CreateRequest → Result EmailOptions
  unfolding check_limit check_reply_to
  email_options r = do
    let opts : EmailOptions = record {
      reply_to = trim_space r.email_reply_to;
      from_name = trim_space r.email_from_name;
      in_reply_to = trim_space r.email_in_reply_to;
      references = trim_space r.email_references;
    }
    a ← check_limit "emailReplyTo" opts.reply_to max_email_reply_to_chars
    b ← check_limit "emailFromName" opts.from_name max_email_from_name_chars
    c ← check_limit "emailInReplyTo" opts.in_reply_to max_email_message_id_chars
    d ← check_limit "emailReferences" opts.references max_email_references_chars
    check_reply_to opts

  -- The files from number `i` on; the ones before them have `total` bytes.
  abbrev pub with_content :
      ℕ
      → ℕ
      → WireFile
      → Result (List AttachmentFile)
      → Option (List ℕ)
      → Result (List AttachmentFile)
  with_content i total a rest none =
      err ("attachments[" +++ std.decimal i +++ "].contentBase64 is not valid base64.")
  with_content i total a rest (some content) =
      if ltb max_email_attachment_bytes (total + length content)
      then err "attachments must total at most 25 MB."
      else (rest >>= λ files. ok (
          record { file_name = a.file_name; content_type = a.content_type; content = content }
          ∷ files))

  abbrev pub size_of : Option (List ℕ) → ℕ
  size_of none = 0
  size_of (some content) = length content

  unfoldable pub decode_files : ℕ → ℕ → List WireFile → Result (List AttachmentFile)
  decode_files i total [] = ok []
  decode_files i total (a ∷ rest) =
      let content = std.decode64 a.content_base64 in
      let later = decode_files (suc i) (total + size_of content) rest in
      with_content i total a later content

  -- The first file stands in the attachment itself.
  unfoldable pub attachment_of : String → EmailOptions → List AttachmentFile → AttachmentInput
  attachment_of html opts [] = record {
    file_name = "";
    content_type = "";
    content = [];
    more_files = [];
    email_body_html = html;
    email_options = opts;
  }
  attachment_of html opts (f ∷ rest) = record {
    file_name = f.file_name;
    content_type = f.content_type;
    content = f.content;
    more_files = rest;
    email_body_html = html;
    email_options = opts;
  }

  abbrev pub is_zero : EmailOptions → Bool
  is_zero o = o.reply_to == "" && o.from_name == "" && o.in_reply_to == "" && o.references == ""

  abbrev pub no_files : List WireFile → Bool
  no_files [] = true
  no_files (a ∷ rest) = false

  unfoldable pub build_attachment : CreateRequest → EmailOptions → Result (Option AttachmentInput)
  unfolding decode_files attachment_of
  build_attachment r opts =
      let files = decode_files 0 0 r.attachments in
      if no_files r.attachments && r.email_body_html == "" && is_zero opts
      then ok none
      else if ltb max_email_attachments (length r.attachments)
      then err "attachments must have at most 5 files."
      else (files >>= λ decoded. ok (some (attachment_of r.email_body_html opts decoded)))

unfoldable pub create_input : CreateRequest → RecipientTarget → CreateInput
create_input r to = record {
  tenant_id = r.tenant_id;
  recipient_user_id = to.user_id;
  recipient_email = to.email;
  actor_user_id = r.actor_user_id;
  event_type = r.event_type;
  resource = r.resource;
  resource_id = r.resource_id;
  title = r.title;
  body = r.body;
  link = r.link;
  status_link = r.status_link;
  status_resource = r.status_resource;
  visible_in_app = false;
}

pub record Planned : Type 0 where
  pub input : CreateInput
  pub prefs : Preferences

abbrev pub email_only : Preferences
email_only = record { email_enabled = true; in_app_enabled = false; push_enabled = false }

abbrev or_all : Result Preferences → Preferences
or_all (ok prefs) = prefs
or_all (err e) = all_enabled

-- `resolve` is what the preference store answers for a user of the request's tenant.
module _ (std : Std) (resolve : String → Result Preferences) where
  unfoldable pub prefs_of : RecipientTarget → Preferences
  prefs_of to = if to.user_id == "" then email_only else or_all (resolve to.user_id)

  unfoldable pub plan_one : CreateRequest → RecipientTarget → Planned
  unfolding create_input prefs_of
  plan_one r to = record {
    input = record (create_input r to) { visible_in_app = (prefs_of to).in_app_enabled };
    prefs = prefs_of to;
  }

  abbrev invalid_or : Option String → Result (List Planned) → Result (List Planned)
  invalid_or none rest = rest
  invalid_or (some field) rest = err (field +++ " is required")

  unfoldable pub plan : CreateRequest → List RecipientTarget → Result (List Planned)
  unfolding plan_one
  plan r [] = ok []
  plan r (to ∷ rest) =
      let later = plan r rest in
      invalid_or (validate (create_input r to)) (later >>= λ planned. ok (plan_one r to ∷ planned))

unfoldable pub contains_channel : List String → String → Bool
contains_channel channels target = contains target channels

unfoldable pub all_external : List RecipientTarget → Bool
all_external [] = false
all_external (to ∷ rest) = all (λ t. t.user_id == "") (to ∷ rest)

-- What is checked of a request in front of everything else.
unfoldable pub check_request : CreateRequest → Result (Unit {0})
check_request r =
    if r.tenant_id == ""
    then err "tenantId is required."
    else if nat_eq (length r.recipients) 0
    then err "recipients is required."
    else if ltb max_status_link_chars (rune_count r.status_link)
    then err "statusLink must be at most 300 characters."
    else if ltb max_status_resource_chars (rune_count r.status_resource)
    then err "statusResource must be at most 64 characters."
    else ok tt

pub record Accepted : Type 0 where
  pub attachment : Option AttachmentInput
  pub planned : List Planned

-- Everything up to the first write that can refuse a request with 400.
unfoldable pub accept : Std → (String → Result Preferences) → CreateRequest → Result Accepted
unfolding check_request email_options build_attachment plan
accept std resolve r = do
  checked ← check_request r
  opts ← email_options std r
  attachment ← build_attachment std r opts
  planned ← plan std resolve r r.recipients
  ok (record { attachment = attachment; planned = planned })
