-- ===== src/Notifications/Attachments.antt =====
-- notifications/store.go, SaveAttachment and GetAttachment: the files and the custom HTML of a
-- notification's email. Bytes are numbers; nil and an empty slice are the same list.
pub mod Saved
use stonesuite_notify.Base.{
  ℕ, zero, suc, String, Bool, true, false, not, ◌&&◌, ◌==◌, Option, none, some, List, [], ◌∷◌, ◌++◌,
  map, if◌then◌else◌, upsert, find, select, any, order_by, Result, ok, err, ◌>>=◌,
}
use stonesuite_notify.Base.Json.{Json, Fields, member, omit_empty, text_field}
use stonesuite_notify.Notifications.{NotificationRow}

pub record AttachmentFile : Type 0 where
  pub file_name : String
  pub content_type : String
  pub content : List ℕ

pub record EmailOptions : Type 0 where
  pub reply_to : String
  pub from_name : String
  pub in_reply_to : String
  pub references : String

pub record AttachmentInput : Type 0 where
  pub file_name : String
  pub content_type : String
  pub content : List ℕ
  pub more_files : List AttachmentFile
  pub email_body_html : String
  pub email_options : EmailOptions

abbrev pub no_options : EmailOptions
no_options = record { reply_to = ""; from_name = ""; in_reply_to = ""; references = "" }

-- A row of notification_attachments, and one of notification_attachment_files.
pub record AttachmentRow : Type 0 where
  pub notification_id : String
  pub file_name : String
  pub content_type : String
  pub content : List ℕ
  pub email_body_html : String
  pub email_options : Json

pub record FileRow : Type 0 where
  pub notification_id : String
  pub position : ℕ
  pub file_name : String
  pub content_type : String
  pub content : List ℕ

pub record Files : Type 0 where
  pub attachments : List AttachmentRow
  pub files : List FileRow

unfoldable pub encode_options : EmailOptions → Json
encode_options o = Json.obj (
    omit_empty "replyTo" o.reply_to (
      omit_empty "fromName" o.from_name
        (omit_empty "inReplyTo" o.in_reply_to (omit_empty "references" o.references Fields.end))))

unfoldable pub decode_options : Json → Result EmailOptions
unfolding text_field
decode_options (Json.obj fs) = do
  reply_to ← text_field (member "replyTo" fs)
  from_name ← text_field (member "fromName" fs)
  in_reply_to ← text_field (member "inReplyTo" fs)
  references ← text_field (member "references" fs)
  ok (record {
    reply_to = reply_to;
    from_name = from_name;
    in_reply_to = in_reply_to;
    references = references;
  })
decode_options Json.null = ok no_options
decode_options _ = err "cannot unmarshal"

abbrev pub is_attachment_of : String → AttachmentRow → Bool
is_attachment_of notification_id r = r.notification_id == notification_id

abbrev pub is_file_of : String → FileRow → Bool
is_file_of notification_id r = r.notification_id == notification_id

unfoldable pub attachment_row : String → AttachmentInput → AttachmentRow
unfolding encode_options
attachment_row notification_id a = record {
  notification_id = notification_id;
  file_name = a.file_name;
  content_type = a.content_type;
  content = a.content;
  email_body_html = a.email_body_html;
  email_options = encode_options a.email_options;
}

unfoldable pub replaced_attachment : AttachmentInput → AttachmentRow → AttachmentRow
unfolding encode_options
replaced_attachment a r = record r {
  file_name = a.file_name;
  content_type = a.content_type;
  content = a.content;
  email_body_html = a.email_body_html;
  email_options = encode_options a.email_options;
}

-- The inserts of the loop over the further files, from position `i` on.
unfoldable pub file_rows : String → ℕ → List AttachmentFile → List FileRow
file_rows notification_id i [] = []
file_rows notification_id i (f ∷ fs) =
    record {
      notification_id = notification_id;
      position = i;
      file_name = f.file_name;
      content_type = f.content_type;
      content = f.content;
    }
    ∷ file_rows notification_id (suc i) fs

-- The first statement of the transaction that the database refuses, if any; the text is the
-- error's.
unfoldable pub save_attachment : Option String → String → AttachmentInput → Files → Result Files
unfolding attachment_row replaced_attachment file_rows
save_attachment (some refused) notification_id a db = err refused
save_attachment none notification_id a db = ok (record {
  attachments =
      upsert (is_attachment_of notification_id) (replaced_attachment a)
        (attachment_row notification_id a) db.attachments;
  files =
      select (λ r. not (is_file_of notification_id r)) db.files
      ++ file_rows notification_id 0 a.more_files;
})

unfoldable pub scan_file : FileRow → AttachmentFile
scan_file r = record { file_name = r.file_name; content_type = r.content_type; content = r.content }

abbrev pub scan_attachment : AttachmentRow → List FileRow → EmailOptions → AttachmentInput
scan_attachment r files options = record {
  file_name = r.file_name;
  content_type = r.content_type;
  content = r.content;
  more_files = map scan_file (order_by (λ f. f.position) files);
  email_body_html = r.email_body_html;
  email_options = options;
}

unfoldable pub load_attachment :
    String → Files → Option AttachmentRow → Result (Option AttachmentInput)
unfolding scan_file
load_attachment notification_id db none = ok none
load_attachment notification_id db (some r) = do
  options ← decode_options r.email_options
  ok (some (scan_attachment r (select (is_file_of notification_id) db.files) options))

-- The join with notifications: the notification exists and is the tenant's.
unfoldable pub get_attachment :
    Bool → String → String → List NotificationRow → Files → Result (Option AttachmentInput)
get_attachment up tenant_id notification_id notifications db =
    if up
    then load_attachment notification_id db (
        if any (λ n. n.id == notification_id && n.tenant_id == tenant_id) notifications
        then find (is_attachment_of notification_id) db.attachments
        else none)
    else err "get notification attachment"
