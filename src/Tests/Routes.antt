-- ===== src/Tests/Routes.antt =====
-- Routes, pages and webhooks at concrete inputs.
use stonesuite_notify.Base.{
  ℕ, ◌-◌, ◌*◌, ◌<◌, ◌≡◌, ◌≢◌, ◌↔◌, refl, String, true, false, ◌==◌, Option, none, some, [], ◌∷◌,
  length, if◌then◌else◌, All, arith,
}
use stonesuite_notify.Base.Decimal.{parse_int64, parse_nat, parse_digits}
use stonesuite_notify.Base.Json.{Fields}
use stonesuite_notify.Middleware
use stonesuite_notify.Middleware.{
  UserContext, served, Parsed, not_parsed, parsed, protected, can, user_of,
}
use stonesuite_notify.Notifications.{default_page_size, max_page_size}
use stonesuite_notify.EmailEvents.Svix.{accepted, verify_signature}
use stonesuite_notify.Inbound.Failure.{Failure, failed, permanent}
use stonesuite_notify.Inbound.Mail.{EventData}
use stonesuite_notify.Inbound.Process.{Processor, Db}
use stonesuite_notify.Controllers.{Reply, Request, World}
use stonesuite_notify.Controllers.Page.{parse_page_params, new_pagination}
use stonesuite_notify.Controllers.Feed.{history}
use stonesuite_notify.Controllers.Feed.History.{feed_of, page_from, history-page, history-wrapped}
use stonesuite_notify.Controllers.Logs.{admin_deliveries, admin_by_status, admin_audit_log}
use stonesuite_notify.Controllers.Logs.Tenants.{
  Answers, IsOwn, InStatus, OwnEntries, admin_reads-IsOwn,
}
use stonesuite_notify.Controllers.Routes.{
  Write, to_subscribe, Server, permission_of, serve, user_write,
}
use stonesuite_notify.Controllers.Routes.Audited.{IsAudited, user_write-IsAudited}
use stonesuite_notify.Controllers.Webhook
use stonesuite_notify.Controllers.Webhook.{Handler, WebhookCall, verdict_of, resend_route}
use stonesuite_notify.Controllers.Webhook.Gated.{IsRefusal, resend_route-IsRefusal}
use stonesuite_notify.Tests.Data.{claims_with, by_key, plain, empty_world}

abbrev claims : Fields
claims = claims_with "push:*"

abbrev subscriber : UserContext
subscriber = user_of "u1" "u1@example.com" "t1" claims

abbrev a_request : Request
a_request = record {
  query = λ name. if name == "page" then "2" else if name == "pageSize" then "10" else "";
  path_id = "n1";
  forwarded_for = "";
  user_agent = "curl";
  remote_addr = "10.0.0.1:80";
}

abbrev far_request : Request
far_request = record a_request {
  query = λ name.
      if name == "page" then "461168601842738792" else if name == "pageSize" then "20" else "";
}

abbrev second_page : parse_page_params a_request.query default_page_size max_page_size ≡ (2, 10)
unfolding parse_page_params parse_int64 parse_nat parse_digits
second_page = refl

history-page_example :
    (history true true (some subscriber) a_request empty_world
      ≡ page_from subscriber a_request empty_world 2 10 second_page ((2 - 1) * 10))
    × (((new_pagination 2 10 (length (feed_of subscriber false empty_world))).has_more ≡ true)
        ↔ (2 * 10 < length (feed_of subscriber false empty_world)))
history-page_example = history-page subscriber a_request empty_world 2 10 second_page (omega arith)

abbrev far_page :
    parse_page_params far_request.query default_page_size max_page_size ≡ (461168601842738792, 20)
unfolding parse_page_params parse_int64 parse_nat parse_digits
far_page = refl

history-wrapped_example :
    history true true (some subscriber) far_request empty_world
    ≡ page_from subscriber far_request empty_world 461168601842738792 20 far_page 0
history-wrapped_example =
    history-wrapped subscriber far_request empty_world 461168601842738792 20 far_page (omega arith)
      (omega arith)

abbrev no_time : String → Option ℕ
no_time s = none

admin_reads-IsOwn_example :
    Answers
      (All (IsOwn subscriber))
      (admin_deliveries plain true a_request (some subscriber) empty_world).1
    × Answers
        (InStatus plain subscriber a_request empty_world no_time 5)
        (admin_by_status plain no_time 5 true a_request (some subscriber) empty_world).1
    × Answers
        (OwnEntries no_time subscriber a_request [])
        (admin_audit_log no_time true true a_request (some subscriber) [])
admin_reads-IsOwn_example =
    admin_reads-IsOwn plain no_time 5 true true subscriber a_request empty_world []

abbrev server : Server
server = record {
  net = plain;
  up = true;
  now = 5;
  new_id = "s1";
  jwt_parse = λ key token. by_key claims (key true) token;
  jwt_secret = "s";
}

abbrev with_good : Middleware.Request
with_good = record { authorization = "Bearer good"; auth_token = none; internal_secret = "" }

abbrev subscribing : Write
subscribing = to_subscribe (some (record { endpoint = "https://push"; p256dh = "k"; auth = "a" }))

abbrev subscribed : World × Reply (Unit {0})
subscribed = serve server a_request subscribing (some subscriber) empty_world

abbrev is_subscribed :
    user_write server a_request subscribing with_good empty_world ≡ served subscribed
unfolding user_write protected permission_of serve
is_subscribed = refl

user_write-IsAudited_example :
    (u : UserContext) × (u.tenant_id ≢ "")
    × (can u (permission_of subscribing) ≡ true)
    × IsAudited u empty_world subscribed
user_write-IsAudited_example =
    user_write-IsAudited server a_request subscribing with_good empty_world subscribed is_subscribed

abbrev a_mail : EventData
a_mail = record {
  email_id = "m1";
  from = "ann@c.io";
  to = "re+7@r.io" ∷ [];
  cc = [];
  bcc = [];
  message_id = "<1@c.io>";
  subject = "Re: order";
  attachments = [];
}

abbrev gone : Failure
gone = record { cause = permanent; message = "gone" }

abbrev office : Processor
office = record {
  domain = "";
  fetcher = λ id. failed gone;
  forwarder = λ mail. failed gone;
  lister = none;
  has_jobs = true;
  fold = λ c. c;
  parse_address = λ s. some s;
}

abbrev db : Db
db = record { up = true; new_id = λ a. a; now = 9 }

abbrev handler : Handler
handler = record {
  secret = "whsec_AAAA";
  mac = λ key text. [];
  decode64 = λ s. some (1 ∷ []);
  unmarshal_webhook = λ b. none;
  unmarshal_received = λ b. some a_mail;
  refused_statements = λ s. false;
  ids = record { event_id = "e1"; alert_id = "a1"; alert_delivery_id = "d1" };
  now = 5;
  clock = 5;
  inbound = some office;
  db = db;
}

abbrev unsigned : WebhookCall
unsigned = record {
  svix_id = "msg_1";
  svix_timestamp = "0";
  svix_signature = "";
  body = 123 ∷ 125 ∷ [];
  breaks = false;
}

abbrev untouched : Webhook.World
untouched = record {
  events = record { deliveries = []; notifications = []; email_events = [] };
  mail = record { calls = []; jobs = [] };
}

not_accepted : verdict_of handler unsigned ≢ accepted
unfolding verify_signature
not_accepted = λ e. cc e

resend_route-IsRefusal_example : IsRefusal untouched (resend_route handler unsigned untouched)
resend_route-IsRefusal_example = resend_route-IsRefusal handler unsigned untouched not_accepted
