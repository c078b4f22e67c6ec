-- ===== src/Inbound/Mail.antt =====
-- inbound/inbound.go: the received mail, and the mail that is forwarded to the backend. A mail's
-- bodies are the bytes of Go's strings, since they are cut by bytes.
pub mod Body
pub mod Domain
use Prim.Native.Char.{Char, code}
use stonesuite_notify.Base.{
  ℕ, zero, ◌*◌, String, Bool, true, false, not, ◌&&◌, ◌==◌, nat_eq, Option, none, some, List, [],
  ◌∷◌, ◌++◌, map, length, if◌then◌else◌,
}
use stonesuite_notify.Base.Int.{ℤ}
use stonesuite_notify.Base.Text.{trim_space}
use stonesuite_notify.Inbound.Mail.Body.{truncate_bytes}

abbrev pub max_body_bytes : ℕ
max_body_bytes = 256 * 1024

pub record Attachment : Type 0 where
  pub id : String
  pub filename : String

-- The payload of an email.received event. An `Event` is this with a type that is read elsewhere.
pub record EventData : Type 0 where
  pub email_id : String
  pub from : String
  pub to : List String
  pub cc : List String
  pub bcc : List String
  pub message_id : String
  pub subject : String
  pub attachments : List Attachment

unfoldable pub recipients : EventData → List String
recipients ev = ev.to ++ ev.cc ++ ev.bcc

-- A header's value in the decoded answer: a text, or another JSON value.
pub data HeaderValue : Type 0 where
  text : String → HeaderValue
  other : HeaderValue

-- `headers` are in the order in which Go's loop over the map meets them.
pub record Received : Type 0 where
  pub id : String
  pub from : String
  pub to : List String
  pub cc : List String
  pub subject : String
  pub text_body : List ℕ
  pub html_body : List ℕ
  pub message_id : String
  pub headers : List (String × HeaderValue)

pub record ReceivedAttachment : Type 0 where
  pub id : String
  pub filename : String
  pub size : ℤ
  pub content_type : String
  pub content_disposition : String
  pub content_id : String
  pub download_url : String
  pub expires_at : String

pub record MailAttachment : Type 0 where
  pub id : String
  pub filename : String
  pub content_type : String
  pub size : ℤ
  pub inline : Bool

pub record Mail : Type 0 where
  pub email_id : String
  pub from : String
  pub to : List String
  pub cc : List String
  pub bcc : List String
  pub subject : String
  pub message_id : String
  pub in_reply_to : String
  pub references : String
  pub text_body : List ℕ
  pub html_body : List ℕ
  pub attachment_count : ℕ
  pub attachments : List MailAttachment

unfoldable pub first_non_empty : List String → String
first_non_empty [] = ""
first_non_empty (v ∷ values) =
    let rest = first_non_empty values in if not (trim_space v == "") then v else rest

unfoldable pub first_non_empty_slice : List (List String) → List String
first_non_empty_slice [] = []
first_non_empty_slice ([] ∷ values) = first_non_empty_slice values
first_non_empty_slice ((x ∷ xs) ∷ values) = x ∷ xs

-- `parsed.Address[strings.LastIndex(parsed.Address, "@")+1:]`, if there is an "@".
unfoldable pub after_last_at : String → Option String
after_last_at String.[] = none
after_last_at (String.◌∷◌ c s) = elim (after_last_at s) [
  | some rest ↦ some rest
  | none ↦ if nat_eq (code c) 64 then some s else none
]

-- `fold` takes a character to the one that stands for all that differ from it only in case.
module _ (fold : ℕ → ℕ) where
  -- strings.EqualFold
  unfoldable pub equal_fold : String → String → Bool
  equal_fold String.[] String.[] = true
  equal_fold String.[] (String.◌∷◌ d t) = false
  equal_fold (String.◌∷◌ c s) String.[] = false
  equal_fold (String.◌∷◌ c s) (String.◌∷◌ d t) =
      nat_eq (fold (code c)) (fold (code d)) && equal_fold s t

  -- The loop of `Header`.
  unfoldable pub header : String → List (String × HeaderValue) → String
  unfolding equal_fold
  header name [] = ""
  header name ((k, text s) ∷ rest) =
      let later = header name rest in if equal_fold k name then trim_space s else later
  header name ((k, other) ∷ rest) = header name rest

  unfoldable pub is_inline : ReceivedAttachment → Bool
  unfolding equal_fold
  is_inline a = equal_fold a.content_disposition "inline"

  unfoldable pub mail_attachment : ReceivedAttachment → MailAttachment
  unfolding is_inline
  mail_attachment f = record {
    id = f.id;
    filename = f.filename;
    content_type = f.content_type;
    size = f.size;
    inline = is_inline f;
  }

  unfoldable pub build_mail : EventData → Received → List ReceivedAttachment → Mail
  unfolding first_non_empty first_non_empty_slice header mail_attachment truncate_bytes
  build_mail ev received files = record {
    email_id = ev.email_id;
    from = first_non_empty (received.from ∷ ev.from ∷ []);
    to = first_non_empty_slice (received.to ∷ ev.to ∷ []);
    cc = first_non_empty_slice (received.cc ∷ ev.cc ∷ []);
    bcc = ev.bcc;
    subject = first_non_empty (received.subject ∷ ev.subject ∷ []);
    message_id = first_non_empty (received.message_id ∷ ev.message_id ∷ []);
    in_reply_to = header "in-reply-to" received.headers;
    references = header "references" received.headers;
    text_body = truncate_bytes received.text_body max_body_bytes;
    html_body = truncate_bytes received.html_body max_body_bytes;
    attachment_count = length ev.attachments;
    attachments = map mail_attachment files;
  }

  abbrev is_domain : String → Option String → Bool
  is_domain domain none = false
  is_domain domain (some d) = equal_fold d domain

  abbrev pub on_domain : String → Option String → Bool
  on_domain domain none = false
  on_domain domain (some address) = is_domain domain (after_last_at address)

  -- `parse_address` is mail.ParseAddress: the address of an entry that can be parsed.
  unfoldable pub addressed_to_domain : (String → Option String) → List String → String → Bool
  unfolding equal_fold after_last_at
  addressed_to_domain parse_address [] domain = false
  addressed_to_domain parse_address (raw ∷ addrs) domain =
      let rest = addressed_to_domain parse_address addrs domain in
      if on_domain domain (parse_address (trim_space raw)) then true else rest
