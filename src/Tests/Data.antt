-- ===== src/Tests/Data.antt =====
-- What several tests share: a token's claims, a JWT library, and a world in which nothing is stored.
use stonesuite_notify.Base.{
  String, true, false, ◌==◌, ◌&&◌, some, none, [], Result, ok, err, if◌then◌else◌,
}
use stonesuite_notify.Base.Json.{Json, Items, Fields}
use stonesuite_notify.Middleware.{Parsed, not_parsed, parsed}
use stonesuite_notify.Controllers.{World, Net}

-- The claims of the user u1, who has one permission.
abbrev pub claims_with : String → Fields
claims_with permission = Fields.field "id" (Json.string "u1") (
    Fields.field "email" (Json.string "u1@example.com") (
      Fields.field "tenant_id" (Json.string "t1") (
        Fields.field "permissions" (Json.arr (Items.cons (Json.string permission) Items.nil))
          Fields.end)))

-- A library that takes the token "good" if it may use the secret "s" for HMAC.
abbrev pub by_key : Fields → Result String → String → Parsed
by_key claims (ok secret) token =
    if secret == "s" && token == "good" then parsed true (some claims) else not_parsed false
by_key claims (err _) token = not_parsed false

abbrev pub plain : Net
plain = record { split_host = λ s. none; text_of = λ b. "" }

abbrev pub empty_world : World
empty_world = record {
  notifications = [];
  files = record { attachments = []; files = [] };
  deliveries = [];
  preferences = record { defaults = []; overrides = [] };
  subscriptions = [];
  audited = [];
}
