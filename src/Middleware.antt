-- ===== src/Middleware.antt =====
-- middleware/auth.go and middleware/permissions.go: who a request is from, and what it may do.
pub mod Perm
pub mod Grants
pub mod Gate
use Prim.Native.Char.{Char, code}
use stonesuite_notify.Base.{
  ℕ, String, Bool, true, false, not, ◌&&◌, ◌||◌, ◌==◌, Option, none, some, List, [], ◌∷◌,
  if◌then◌else◌, any, contains, nat_eq, split, fields, cut_suffix, Result, ok, err,
}
use stonesuite_notify.Base.Text.{◌+++◌}
use stonesuite_notify.Base.Json.{Json, Items, Fields, member}
use stonesuite_notify.Middleware.Perm
use text.Mathlib.Text.{starts_with}

pub record UserContext : Type 0 where
  pub id : String
  pub email : String
  pub tenant_id : String
  pub user_id : String
  pub active_role_id : String
  pub permissions : List String
  pub accessible_resources : List String

abbrev pub self_service_permissions : List String
self_service_permissions =
    Perm.notification_read ∷ Perm.notification_update ∷ Perm.preference_read
    ∷ Perm.preference_update ∷ Perm.push_manage ∷ []

abbrev pub has_prefix : String → Option String → Bool
has_prefix permission none = false
has_prefix permission (some prefix) = starts_with permission prefix

-- One turn of the loop of `Can`.
unfoldable pub grants : String → String → Bool
grants permission granted =
    granted == "*" || granted == permission || has_prefix permission (cut_suffix granted "*")

unfoldable pub can_of : String → List String → Bool
unfolding grants
can_of permission [] = contains permission self_service_permissions
can_of permission (g ∷ gs) = any (grants permission) (g ∷ gs)

unfoldable pub can : UserContext → String → Bool
unfolding can_of
can u permission = can_of permission u.permissions

-- The strings of a JSON array that are not empty.
unfoldable pub string_items : Items → List String
string_items Items.nil = []
string_items (Items.cons (Json.string s) rest) =
    if s == "" then string_items rest else s ∷ string_items rest
string_items (Items.cons _ rest) = string_items rest

abbrev pub is_delimiter : Char → Bool
is_delimiter ch = nat_eq (code ch) 32 || nat_eq (code ch) 44

-- A claim that the token lacks is none.
unfoldable pub parse_string_list_claim : Option Json → List String
unfolding string_items
parse_string_list_claim (some (Json.arr v)) = string_items v
parse_string_list_claim (some (Json.string v)) = fields is_delimiter v
parse_string_list_claim _ = []

-- What the middleware reads of a request; a header that is not sent is the empty text.
pub record Request : Type 0 where
  pub authorization : String
  pub auth_token : Option String
  pub internal_secret : String

-- The answer of a wrapped handler: a denial of the middleware, or what the handler answers.
pub data Response (A : Type 0) : Type 0 where
  denied : ℕ → String → Response A
  served : A → Response A

-- A handler's argument beside the request is the user that the request's context holds.
abbrev pub Handler : Type 0 → Type 0
Handler A = Option UserContext → Request → Response A

cookie_token : Option String → Option String
cookie_token none = none
cookie_token (some v) = if v == "" then none else some v

bearer : List String → Option String
bearer (scheme ∷ token ∷ []) = if scheme == "Bearer" then some token else none
bearer _ = none

unfoldable pub extract_token : Request → Option String
unfolding cookie_token bearer
extract_token r =
    if r.authorization == "" then cookie_token r.auth_token else bearer (split 32 r.authorization)

-- What jwt.Parse answers: an error, which may be that the token has expired, or a token with its
-- claims, if they are a JSON object.
pub data Parsed : Type 0 where
  not_parsed : Bool → Parsed
  parsed : Bool → Option Fields → Parsed

-- The claims["k"].(string) of Go: the value, if it is a text.
unfoldable pub as_string : Option Json → Option String
as_string (some (Json.string s)) = some s
as_string _ = none

abbrev or_zero : Option String → String
or_zero none = ""
or_zero (some s) = s

unfoldable pub user_of : String → String → String → Fields → UserContext
unfolding as_string parse_string_list_claim
user_of id email tenant_id claims = record {
  id = id;
  email = email;
  tenant_id = tenant_id;
  user_id = id;
  active_role_id = or_zero (as_string (member "active_role_id" claims));
  permissions = parse_string_list_claim (member "permissions" claims);
  accessible_resources = parse_string_list_claim (member "accessible_resources" claims);
}

unfoldable pub identify : Option String → Option String → String → Fields → Option UserContext
unfolding user_of
identify (some id) (some email) tenant_id claims =
    if tenant_id == "" then none else some (user_of id email tenant_id claims)
identify _ _ tenant_id claims = none

unfoldable pub user_of_claims : Fields → Option UserContext
unfolding identify as_string
user_of_claims claims =
    identify (as_string (member "id" claims)) (as_string (member "email" claims))
      (or_zero (as_string (member "tenant_id" claims))) claims

-- The function that tells jwt.Parse the key: only for HMAC methods.
unfoldable pub key_for : String → Bool → Result String
key_for secret is_hmac = if is_hmac then ok secret else err "unexpected signing method"

module _ {A : Type 0} where
  unfoldable pub admit : Handler A → Request → Option UserContext → Response A
  admit next r none = denied 401 "Authentication failed. Invalid token claims."
  admit next r (some user) = next (some user) r

  unfoldable pub authenticate : Handler A → Request → Parsed → Response A
  unfolding admit user_of_claims
  authenticate next r (not_parsed expired) = denied 401 (
      if expired
      then "Authentication session expired. Please sign in again."
      else "Authentication failed. Invalid or malformed token.")
  authenticate next r (parsed false claims) =
      denied 401 "Authentication failed. Invalid or malformed token."
  authenticate next r (parsed true none) =
      denied 401 "Authentication failed. Failed to parse claims."
  authenticate next r (parsed true (some claims)) = admit next r (user_of_claims claims)

  unfoldable pub with_token : (String → Parsed) → Handler A → Request → Option String → Response A
  unfolding authenticate
  with_token parse next r none = denied 401 "Access denied. No authorization token provided."
  with_token parse next r (some token) = authenticate next r (parse token)

  -- `jwt_parse` is the library's jwt.Parse.
  unfoldable pub require_auth :
      ((Bool → Result String) → String → Parsed) → String → Handler A → Handler A
  unfolding with_token extract_token key_for
  require_auth jwt_parse secret next ctx r =
      with_token (jwt_parse (key_for secret)) next r (extract_token r)

  unfoldable pub require_permission : String → Handler A → Handler A
  unfolding can
  require_permission permission next none r = denied 401 "Access denied. No authenticated session."
  require_permission permission next (some user) r =
      if can user permission
      then next (some user) r
      else denied 403 ("Access denied. Missing required permission: " +++ permission +++ ".")

  unfoldable pub protected :
      ((Bool → Result String) → String → Parsed) → String → String → Handler A → Handler A
  unfolding require_auth require_permission
  protected jwt_parse secret permission next =
      require_auth jwt_parse secret (require_permission permission next)

  unfoldable pub require_internal_secret : String → Handler A → Handler A
  require_internal_secret secret next ctx r =
      if r.internal_secret == secret
      then next ctx r
      else denied 401 "Access denied. Invalid internal service credentials."
