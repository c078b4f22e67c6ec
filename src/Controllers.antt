-- ===== src/Controllers.antt =====
-- controllers: the HTTP handlers. Here: what they share, in controllers/audit.go and
-- controllers/notifications.go.
pub mod Page
pub mod Feed
pub mod Logs
pub mod Settings
pub mod Create
pub mod Webhook
pub mod Routes
use Prim.Native.Char.{Char, code}
use stonesuite_notify.Base.{
  ℕ, ◌+◌, String, Bool, true, false, not, ◌==◌, Option, none, some, List, [], ◌∷◌, ◌++◌, take,
  length, leb, nat_eq, if◌then◌else◌, Result, ok, err,
}
use stonesuite_notify.Base.Text.{trim_space}
use stonesuite_notify.Base.Utf8.{encode}
use stonesuite_notify.Audit.{Entry}
use stonesuite_notify.Notifications.{NotificationRow}
use stonesuite_notify.Notifications.Attachments.{Files}
use stonesuite_notify.Deliveries.{DeliveryRow}
use stonesuite_notify.Preferences.{Tables}
use stonesuite_notify.Pushsubs.{Subscription}

-- An answer: `fail` with a status and a message, or `writeJSON` with a status and data.
pub data Reply (A : Type 0) : Type 0 where
  refused : ℕ → String → Reply A
  answered : ℕ → A → Reply A

-- What the handlers read of a request. `query` gives the first value of a parameter, or "".
pub record Request : Type 0 where
  pub query : String → String
  pub path_id : String
  pub forwarded_for : String
  pub user_agent : String
  pub remote_addr : String

-- `truncate`: at most `max` bytes of a text.
unfoldable pub truncate : String → ℕ → List ℕ
truncate s max = let b = encode s in if leb (length b) max then b else take max b

-- The part in front of the first ",".
unfoldable pub before_comma : String → String
before_comma String.[] = ""
before_comma (String.◌∷◌ c s) =
    let rest = before_comma s in if nat_eq (code c) 44 then "" else String.◌∷◌ c rest

-- The state that the handlers change; `audited` is what was handed to the recorder.
pub record World : Type 0 where
  pub notifications : List NotificationRow
  pub files : Files
  pub deliveries : List DeliveryRow
  pub preferences : Tables
  pub subscriptions : List Subscription
  pub audited : List Entry

-- The host that net.SplitHostPort finds, and the text that some bytes are.
pub record Net : Type 0 where
  pub split_host : String → Option String
  pub text_of : List ℕ → String

abbrev host_or : String → Option String → String
host_or addr none = addr
host_or addr (some host) = host

unfoldable pub client_ip : Net → Request → List ℕ
unfolding truncate before_comma
client_ip net r =
    let first = trim_space (before_comma r.forwarded_for) in
    let socket = host_or r.remote_addr (net.split_host r.remote_addr) in
    if r.forwarded_for == ""
    then truncate socket 64
    else if first == ""
    then truncate socket 64
    else truncate first 64

unfoldable pub audit_entry : Net → Request → Entry → Entry
unfolding client_ip truncate
audit_entry net r e = record e {
  ip_address = net.text_of (client_ip net r);
  user_agent = net.text_of (truncate r.user_agent 300);
}

-- `h.Audit.Record`
unfoldable pub record_audit : Net → Request → Entry → World → World
unfolding audit_entry
record_audit net r e w = record w { audited = w.audited ++ audit_entry net r e ∷ [] }

-- An entry of which nothing is set.
abbrev pub no_entry : Entry
no_entry = record {
  id = "";
  tenant_id = "";
  actor_user_id = "";
  actor_type = "";
  action = "";
  resource = "";
  resource_id = "";
  metadata = none;
  ip_address = "";
  user_agent = "";
  created_at = 0;
}

abbrev pub auth_required : String
auth_required = "Authentication required."
