-- ===== src/Controllers/Webhook.antt =====
-- controllers/emailevents.go: the provider's webhook, and the backend's read of email statuses.
pub mod Gated
use stonesuite_notify.Base.{
  ℕ, ◌*◌, String, Bool, true, false, not, ◌&&◌, ◌||◌, ◌==◌, Option, none, some, List, [], ◌∷◌, ltb,
  length, if◌then◌else◌, Result, ok, err, nat_eq, all, split,
}
use Prim.Native.Char.{Char, code}
use stonesuite_notify.Base.Text.{between, ◌+++◌, trim_space, rune_count, take_runes}
use stonesuite_notify.EmailEvents.{status_for_event, derive_state}
use stonesuite_notify.EmailEvents.Store
use stonesuite_notify.EmailEvents.Store.{
  StatusRow, status_for_notifications, Event, Database, Statement, FreshIds, ApplyResult, apply,
}
use stonesuite_notify.EmailEvents.Svix.{
  Verdict, accepted, bad_secret, invalid_signature, verify_signature, trim_prefix,
}
use stonesuite_notify.Inbound.Failure.{Failure, Answer, done, failed, is_retryable}
use stonesuite_notify.Inbound.Mail.{EventData}
use stonesuite_notify.Inbound.Process
use stonesuite_notify.Inbound.Process.{Processor, Db, Outcome, process}
use stonesuite_notify.Controllers.{Reply, refused, answered}

abbrev pub max_webhook_body_bytes : ℕ
max_webhook_body_bytes = 1024 * 1024

abbrev pub max_event_detail_runes : ℕ
max_event_detail_runes = 500

pub record Bounce : Type 0 where
  pub type : String
  pub sub_type : String
  pub message : String

-- The decoded payload; `created_at` 0 is Go's zero time.
pub record ResendWebhook : Type 0 where
  pub type : String
  pub created_at : ℕ
  pub email_id : String
  pub bounce : Option Bounce
  pub suppressed : Option String
  pub failed : Option String

abbrev with_sub : String → String → String
with_sub kind sub = if sub == "" then kind else kind +++ "/" +++ sub

abbrev bounce_text : Bounce → String
bounce_text b = trim_prefix ": " (
    trim_space
      (with_sub (trim_space b.type) (trim_space b.sub_type) +++ ": " +++ trim_space b.message))

abbrev other_text : Option String → Option String → String
other_text (some s) failure = trim_space s
other_text none (some s) = trim_space s
other_text none none = ""

abbrev pub raw_detail : Option Bounce → Option String → Option String → String
raw_detail (some b) suppressed failure = bounce_text b
raw_detail none suppressed failure = other_text suppressed failure

unfoldable pub shortened : String → String
shortened d =
    if ltb max_event_detail_runes (rune_count d) then take_runes max_event_detail_runes d else d

unfoldable pub detail : ResendWebhook → String
unfolding shortened
detail w = shortened (raw_detail w.bounce w.suppressed w.failed)

-- A webhook as it is received; `body` is what the connection gives, whole or broken off.
pub record WebhookCall : Type 0 where
  pub svix_id : String
  pub svix_timestamp : String
  pub svix_signature : String
  pub body : List ℕ
  pub breaks : Bool

-- The handler, and what it meets: the parameters of the signature check, the decoding of JSON, the
-- statements that the database refuses, the ids and times that it generates, and the clock.
pub record Handler : Type 0 where
  pub secret : String
  pub mac : List ℕ → List ℕ → List ℕ
  pub decode64 : String → Option (List ℕ)
  pub unmarshal_webhook : List ℕ → Option ResendWebhook
  pub unmarshal_received : List ℕ → Option EventData
  pub refused_statements : Statement → Bool
  pub ids : FreshIds
  pub now : ℕ
  pub clock : ℕ
  pub inbound : Option Processor
  pub db : Db

pub record World : Type 0 where
  pub events : Database
  pub mail : Process.World

abbrev pub bad_body : String
bad_body = "Invalid request body."

abbrev pub not_configured : String
not_configured = "Webhook receiving is not configured."

module _ (h : Handler) where
  abbrev pub handled : World → Process.World × Answer Outcome → World × Reply (Unit {0})
  handled w (mail, done outcome) = (record w { mail = mail }, answered 200 tt)
  handled w (mail, failed f) =
      if is_retryable f
      then (record w { mail = mail }, refused 502 "Failed to process the inbound email.")
      else (record w { mail = mail }, answered 200 tt)

  abbrev pub received : Processor → Option EventData → World → World × Reply (Unit {0})
  received p none w = (w, refused 400 bad_body)
  received p (some ev) w = handled w (process p h.db ev w.mail)

  abbrev pub receive : Option Processor → List ℕ → World → World × Reply (Unit {0})
  receive none body w = (w, answered 200 tt)
  receive (some p) body w = received p (h.unmarshal_received body) w

  unfoldable pub receive_inbound : List ℕ → World → World × Reply (Unit {0})
  unfolding process is_retryable
  receive_inbound body w = receive h.inbound body w

  abbrev applied : World → Result ApplyResult × Database → World × Reply (Unit {0})
  applied w (ok res, db) = (record w { events = db }, answered 200 tt)
  applied w (err e, db) = (record w { events = db }, refused 500 "Failed to record event.")

  unfoldable pub event_of : WebhookCall → ResendWebhook → Event
  unfolding detail
  event_of c evt = record {
    svix_id = c.svix_id;
    provider_email_id = evt.email_id;
    type = evt.type;
    occurred_at = if nat_eq evt.created_at 0 then h.clock else evt.created_at;
    detail = detail evt;
  }

  abbrev is_relevant : ResendWebhook → Option String → Bool
  is_relevant evt none = false
  is_relevant evt (some status) = not (evt.email_id == "")

  abbrev pub decoded : WebhookCall → Option ResendWebhook → World → World × Reply (Unit {0})
  decoded c none w = (w, refused 400 bad_body)
  decoded c (some evt) w =
      if evt.type == "email.received"
      then receive_inbound c.body w
      else if is_relevant evt (status_for_event evt.type)
      then applied w (apply h.refused_statements h.ids h.now h.clock (event_of c evt) w.events)
      else (w, answered 200 tt)

  abbrev pub judged : WebhookCall → Verdict → World → World × Reply (Unit {0})
  judged c bad_secret w = (w, refused 503 not_configured)
  judged c invalid_signature w = (w, refused 400 "Invalid signature.")
  judged c accepted w = decoded c (h.unmarshal_webhook c.body) w

  abbrev pub verdict_of : WebhookCall → Verdict
  verdict_of c =
      verify_signature h.mac h.decode64 h.secret c.svix_id c.svix_timestamp c.svix_signature c.body
        h.clock

  unfoldable pub resend_route : WebhookCall → World → World × Reply (Unit {0})
  unfolding receive_inbound event_of
  resend_route c w =
      if h.secret == ""
      then (w, refused 503 not_configured)
      else if c.breaks || ltb max_webhook_body_bytes (length c.body)
      then (w, refused 400 bad_body)
      else judged c (verdict_of c) w

-- EmailStatus: the request's body is none when it cannot be decoded or is too large.
abbrev pub max_status_request_ids : ℕ
max_status_request_ids = 200

pub record EmailStatusRequest : Type 0 where
  pub tenant_id : String
  pub notification_ids : List String

pub record EmailStatusEntry : Type 0 where
  pub state : String
  pub recipient : String
  pub detail : String
  pub updated_at : ℕ

unfoldable pub is_hex : String → Bool
is_hex String.[] = true
is_hex (String.◌∷◌ c s) =
    (between 48 57 (code c) || between 65 70 (code c) || between 97 102 (code c)) && is_hex s

abbrev hex_of_length : ℕ → String → Bool
hex_of_length n s = nat_eq (rune_count s) n && is_hex s

abbrev hex_groups : List String → Bool
hex_groups (a ∷ b ∷ c ∷ d ∷ e ∷ []) =
    hex_of_length 8 a
    && hex_of_length 4 b
    && hex_of_length 4 c
    && hex_of_length 4 d
    && hex_of_length 12 e
hex_groups _ = false

-- `uuidPattern`: five groups of hexadecimal digits, with "-" between them.
unfoldable pub is_uuid : String → Bool
unfolding is_hex
is_uuid s = hex_groups (split 45 s)

abbrev pub Statuses : Type 0
Statuses = List (String × EmailStatusEntry)

-- `statuses[id] = entry`
abbrev put_status : String → EmailStatusEntry → Statuses → Statuses
put_status id entry [] = (id, entry) ∷ []
put_status id entry ((j, old) ∷ rest) =
    if j == id then (id, entry) ∷ rest else (j, old) ∷ put_status id entry rest

unfoldable pub collect : List StatusRow → Statuses → Statuses
unfolding derive_state
collect [] statuses = statuses
collect (row ∷ rows) statuses = collect rows (
    put_status row.notification_id
      (record {
        state = derive_state row.queue_status row.provider_status;
        recipient = row.recipient;
        detail = row.detail;
        updated_at = row.updated_at;
      })
      statuses)

abbrev pub collected : Result (List StatusRow) → Reply Statuses
collected (err e) = refused 500 "Failed to load email status."
collected (ok rows) = answered 200 (collect rows [])

unfoldable pub email_status : Bool → Option EmailStatusRequest → Database → Reply Statuses
unfolding is_uuid collect
email_status up none db = refused 400 bad_body
email_status up (some req) db =
    if req.tenant_id == ""
    then refused 400 "tenantId is required."
    else if nat_eq (length req.notification_ids) 0
    then refused 400 "notificationIds is required."
    else if ltb max_status_request_ids (length req.notification_ids)
    then refused 400 "notificationIds has too many entries."
    else if not (all is_uuid req.notification_ids)
    then refused 400 "notificationIds must be UUIDs."
    else collected (status_for_notifications up req.tenant_id req.notification_ids db)
