-- ===== src/Preferences.antt =====
-- preferences/types.go and preferences/store.go: which channels a user receives, from the user's
-- own overrides on top of the tenant's defaults.
pub mod Resolve
use stonesuite_notify.Base.{
  ℕ, String, Bool, true, false, ◌&&◌, ◌==◌, Option, none, some, List, [], ◌∷◌, ◌++◌, if◌then◌else◌,
  upsert, find, Result, ok, err, ◌>>=◌,
}

pub record Preferences : Type 0 where
  pub email_enabled : Bool
  pub in_app_enabled : Bool
  pub push_enabled : Bool

pub record OverrideInput : Type 0 where
  pub email_enabled : Option Bool
  pub in_app_enabled : Option Bool
  pub push_enabled : Option Bool

pub record TenantDefaultsInput : Type 0 where
  pub email_enabled : Bool
  pub in_app_enabled : Bool
  pub push_enabled : Bool

-- A row of tenant_notification_defaults, keyed by the tenant.
pub record DefaultsRow : Type 0 where
  pub tenant_id : String
  pub email_enabled : Bool
  pub in_app_enabled : Bool
  pub push_enabled : Bool
  pub updated_at : ℕ

-- A row of user_notification_preferences, keyed by tenant and user.
pub record OverrideRow : Type 0 where
  pub tenant_id : String
  pub user_id : String
  pub email_enabled : Option Bool
  pub in_app_enabled : Option Bool
  pub push_enabled : Option Bool
  pub updated_at : ℕ

pub record Tables : Type 0 where
  pub defaults : List DefaultsRow
  pub overrides : List OverrideRow

abbrev pub all_enabled : Preferences
all_enabled = record { email_enabled = true; in_app_enabled = true; push_enabled = true }

abbrev pub inherit_all : OverrideInput
inherit_all = record { email_enabled = none; in_app_enabled = none; push_enabled = none }

abbrev pub is_tenant : String → DefaultsRow → Bool
is_tenant tenant_id r = r.tenant_id == tenant_id

abbrev pub is_user : String → String → OverrideRow → Bool
is_user tenant_id user_id r = r.tenant_id == tenant_id && r.user_id == user_id

-- Scanning no row (pgx.ErrNoRows) leaves the value that the variable was given.
unfoldable pub scan_defaults : Option DefaultsRow → Preferences
scan_defaults none = all_enabled
scan_defaults (some r) = record {
  email_enabled = r.email_enabled;
  in_app_enabled = r.in_app_enabled;
  push_enabled = r.push_enabled;
}

unfoldable pub scan_override : Option OverrideRow → OverrideInput
scan_override none = inherit_all
scan_override (some r) = record {
  email_enabled = r.email_enabled;
  in_app_enabled = r.in_app_enabled;
  push_enabled = r.push_enabled;
}

unfoldable pub get_tenant_defaults : Bool → String → Tables → Result Preferences
unfolding scan_defaults
get_tenant_defaults up tenant_id db =
    if up
    then ok (scan_defaults (find (is_tenant tenant_id) db.defaults))
    else err "get tenant notification defaults"

unfoldable pub get_user_override : Bool → String → String → Tables → Result OverrideInput
unfolding scan_override
get_user_override up tenant_id user_id db =
    if up
    then ok (scan_override (find (is_user tenant_id user_id) db.overrides))
    else err "get user preference override"

-- COALESCE(a, b), and the assignment under `if override.X != nil`.
abbrev pub coalesce {ℓ} : {A : Type ℓ} → Option A → A → A
coalesce none b = b
coalesce (some a) b = a

abbrev pub coalesce_null {ℓ} : {A : Type ℓ} → Option A → Option A → Option A
coalesce_null none b = b
coalesce_null (some a) b = some a

unfoldable pub merge : Preferences → OverrideInput → Preferences
merge prefs override = record {
  email_enabled = coalesce override.email_enabled prefs.email_enabled;
  in_app_enabled = coalesce override.in_app_enabled prefs.in_app_enabled;
  push_enabled = coalesce override.push_enabled prefs.push_enabled;
}

-- The flags say whether each of the two queries succeeds.
unfoldable pub resolve : Bool → Bool → String → String → Tables → Result Preferences
unfolding get_tenant_defaults get_user_override merge
resolve up up' tenant_id user_id db = do
  prefs ← get_tenant_defaults up tenant_id db
  override ← get_user_override up' tenant_id user_id db
  ok (merge prefs override)

unfoldable pub patched_row : OverrideInput → ℕ → OverrideRow → OverrideRow
patched_row input now r = record r {
  email_enabled = coalesce_null input.email_enabled r.email_enabled;
  in_app_enabled = coalesce_null input.in_app_enabled r.in_app_enabled;
  push_enabled = coalesce_null input.push_enabled r.push_enabled;
  updated_at = now;
}

unfoldable pub override_row : String → String → OverrideInput → ℕ → OverrideRow
override_row tenant_id user_id input now = record {
  tenant_id = tenant_id;
  user_id = user_id;
  email_enabled = input.email_enabled;
  in_app_enabled = input.in_app_enabled;
  push_enabled = input.push_enabled;
  updated_at = now;
}

unfoldable pub set_user_override :
    Bool → String → String → OverrideInput → ℕ → Tables → Result Tables
unfolding patched_row override_row
set_user_override up tenant_id user_id input now db =
    if up
    then ok (record db {
      overrides =
          upsert (is_user tenant_id user_id) (patched_row input now)
            (override_row tenant_id user_id input now) db.overrides;
    })
    else err "set user notification preference override"

unfoldable pub replaced_row : TenantDefaultsInput → ℕ → DefaultsRow → DefaultsRow
replaced_row input now r = record r {
  email_enabled = input.email_enabled;
  in_app_enabled = input.in_app_enabled;
  push_enabled = input.push_enabled;
  updated_at = now;
}

unfoldable pub defaults_row : String → TenantDefaultsInput → ℕ → DefaultsRow
defaults_row tenant_id input now = record {
  tenant_id = tenant_id;
  email_enabled = input.email_enabled;
  in_app_enabled = input.in_app_enabled;
  push_enabled = input.push_enabled;
  updated_at = now;
}

unfoldable pub set_tenant_defaults :
    Bool → String → TenantDefaultsInput → ℕ → Tables → Result Tables
unfolding replaced_row defaults_row
set_tenant_defaults up tenant_id input now db =
    if up
    then ok (record db {
      defaults =
          upsert (is_tenant tenant_id) (replaced_row input now) (defaults_row tenant_id input now)
            db.defaults;
    })
    else err "set tenant notification defaults"
