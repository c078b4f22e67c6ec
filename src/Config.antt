-- ===== src/Config.antt =====
-- config/config.go: the settings, from the environment's variables.
pub mod Required
use Prim.Native.Char.{Char, code}
use stonesuite_notify.Base.{
  ℕ, String, Bool, true, false, not, ◌&&◌, ◌||◌, ◌==◌, Option, none, some, List, [], ◌∷◌, map,
  select, split, nat_eq, if◌then◌else◌, Result, ok, err,
}
use stonesuite_notify.Base.Text.{◌+++◌, trim_space}

pub record Config : Type 0 where
  pub port : String
  pub cors_origins : List String
  pub database_url : String
  pub jwt_secret : String
  pub internal_service_secret : String
  pub resend_api_key : String
  pub email_from : String
  pub email_reply_to : String
  pub resend_webhook_secret : String
  pub reply_email_domain : String
  pub backend_url : String
  pub smtp_host : String
  pub smtp_port : String
  pub smtp_username : String
  pub smtp_password : String
  pub vapid_public_key : String
  pub vapid_private_key : String
  pub vapid_subject : String

-- The scheme and the host that url.Parse finds.
pub record BackendUrl : Type 0 where
  pub scheme : String
  pub host : String

abbrev pub get_env : (String → String) → String → String → String
get_env env key fallback = if env key == "" then fallback else env key

unfoldable pub split_csv : String → List String
split_csv v = select (λ t. not (t == "")) (map trim_space (split 44 v))

abbrev trim_slash : Char → String → String
trim_slash c String.[] = if nat_eq (code c) 47 then String.[] else String.◌∷◌ c String.[]
trim_slash c (String.◌∷◌ d s) = String.◌∷◌ c (String.◌∷◌ d s)

-- strings.TrimRight of "/"
unfoldable pub trim_slashes : String → String
trim_slashes String.[] = String.[]
trim_slashes (String.◌∷◌ c s) = trim_slash c (trim_slashes s)

unfoldable pub email_configured : Config → Bool
email_configured c = not (c.resend_api_key == "") || not (c.smtp_host == "")

unfoldable pub email_sendable : Config → Bool
unfolding email_configured
email_sendable c = email_configured c && not (c.email_from == "")

unfoldable pub push_configured : Config → Bool
push_configured c = not (c.vapid_public_key == "") && not (c.vapid_private_key == "")

unfoldable pub resend_webhook_configured : Config → Bool
resend_webhook_configured c = not (c.resend_webhook_secret == "")

unfoldable pub inbound_configured : Config → Bool
inbound_configured c =
    not (c.reply_email_domain == "") && not (c.backend_url == "") && not (c.resend_api_key == "")

-- `to_lower` is strings.ToLower, `quote` is %q, and `parse_url` is url.Parse.
module _ (to_lower quote : String → String) (parse_url : String → Option BackendUrl) where
  unfoldable pub read_env : (String → String) → Config
  unfolding split_csv trim_slashes
  read_env env = record {
    port = get_env env "PORT" "8090";
    cors_origins = split_csv (env "CORS_ORIGIN");
    database_url = env "DATABASE_URL";
    jwt_secret = env "JWT_SECRET";
    internal_service_secret = env "INTERNAL_SERVICE_SECRET";
    resend_api_key = env "RESEND_API_KEY";
    email_from = env "EMAIL_FROM";
    email_reply_to = env "EMAIL_REPLY_TO";
    resend_webhook_secret = env "RESEND_WEBHOOK_SECRET";
    reply_email_domain = to_lower (trim_space (env "REPLY_EMAIL_DOMAIN"));
    backend_url = trim_slashes (trim_space (env "BACKEND_URL"));
    smtp_host = env "SMTP_HOST";
    smtp_port = get_env env "SMTP_PORT" "587";
    smtp_username = env "SMTP_USERNAME";
    smtp_password = env "SMTP_PASSWORD";
    vapid_public_key = env "VAPID_PUBLIC_KEY";
    vapid_private_key = env "VAPID_PRIVATE_KEY";
    vapid_subject = env "VAPID_SUBJECT";
  }

  abbrev pub is_http : Option BackendUrl → Bool
  is_http none = false
  is_http (some u) =
      not (not (u.scheme == "http") && not (u.scheme == "https")) && not (u.host == "")

  unfoldable pub check_backend : Config → Result Config
  check_backend c =
      if c.backend_url == ""
      then ok c
      else if is_http (parse_url c.backend_url)
      then ok c
      else err ("BACKEND_URL must be an absolute http(s) URL, got " +++ quote c.backend_url)

  unfoldable pub check_required : Config → Result Config
  unfolding check_backend
  check_required c =
      if c.database_url == ""
      then err "DATABASE_URL is required"
      else if c.jwt_secret == ""
      then err "JWT_SECRET is required"
      else if c.internal_service_secret == ""
      then err "INTERNAL_SERVICE_SECRET is required"
      else check_backend c

  unfoldable pub load : (String → String) → Result Config
  unfolding read_env check_required
  load env = check_required (read_env env)
