-- ===== src/Tests/Gate.antt =====
-- Tests of the middleware: a library that accepts one token, and a user with one wildcard.
use mathlib.Core.List.{Memᴰ}
use stonesuite_notify.Base.{
  ◌≡◌, ◌≢◌, ◌⊎◌, ◌↔◌, refl, String, Bool, true, [], contains, none, some, Result,
}
use stonesuite_notify.Base.Json.{Fields}
use stonesuite_notify.Middleware.Perm
use stonesuite_notify.Middleware.{
  UserContext, Request, served, Handler, Parsed, parsed, can, key_for, user_of_claims,
  extract_token, protected, self_service_permissions, user_of,
}
use stonesuite_notify.Middleware.Grants.{Covers, can_iff}
use stonesuite_notify.Middleware.Gate.{protected-served}
use stonesuite_notify.Tests.Data.{claims_with, by_key}

abbrev claims : Fields
claims = claims_with "audit:*"

abbrev parse : (Bool → Result String) → String → Parsed
parse key token = by_key claims (key true) token

abbrev with_good : Request
with_good = record { authorization = "Bearer good"; auth_token = none; internal_secret = "" }

abbrev with_nothing : Request
with_nothing = record { authorization = ""; auth_token = none; internal_secret = "" }

abbrev auditor : UserContext
auditor = user_of "u1" "u1@example.com" "t1" claims

abbrev answer_id : Handler String
answer_id none r = served ""
answer_id (some u) r = served u.id

good_token : extract_token with_good ≡ some "good"
unfolding extract_token
good_token = refl

good_parses : parse (key_for "s") "good" ≡ parsed true (some claims)
unfolding key_for
good_parses = refl

good_user : user_of_claims claims ≡ some auditor
unfolding user_of_claims
good_user = refl

is_served : protected parse "s" Perm.audit_read answer_id none with_good ≡ served "u1"
unfolding protected
is_served = refl

protected-served_example :
    (token : String) × (cs : Fields) × (user : UserContext) × (extract_token with_good ≡ some token)
    × (parse (key_for "s") token ≡ parsed true (some cs))
    × (user_of_claims cs ≡ some user)
    × (user.tenant_id ≢ "")
    × (can user Perm.audit_read ≡ true)
    × (answer_id (some user) with_good ≡ served "u1")
protected-served_example =
    protected-served parse "s" Perm.audit_read answer_id none with_good "u1" is_served

no_token : extract_token with_nothing ≡ none
unfolding extract_token
no_token = refl

can_iff_example : (can auditor Perm.audit_read ≡ true) ↔ (
    ((auditor.permissions ≡ []) × (contains Perm.audit_read self_service_permissions ≡ true))
    ⊎ ((granted : String) × Memᴰ granted auditor.permissions × Covers granted Perm.audit_read))
can_iff_example = can_iff auditor Perm.audit_read

abbrev plain_user : UserContext
plain_user = record {
  id = "u2";
  email = "u2@example.com";
  tenant_id = "t1";
  user_id = "u2";
  active_role_id = "";
  permissions = [];
  accessible_resources = [];
}
