-- ===== src/Controllers/Settings.antt =====
-- controllers/preferences.go and controllers/push.go: a user's channels and browsers, and the
-- tenant's defaults. A request's body is none when it cannot be decoded.
use stonesuite_notify.Base.{
  ℕ, String, Bool, ◌||◌, ◌==◌, Option, none, some, List, if◌then◌else◌, Result, ok, err,
}
use stonesuite_notify.Base.Json.{Json, Fields}
use stonesuite_notify.Audit.{Entry}
use stonesuite_notify.Middleware.{UserContext}
use stonesuite_notify.Preferences.{
  Preferences, OverrideInput, TenantDefaultsInput, Tables, resolve, get_user_override,
  set_user_override, get_tenant_defaults, set_tenant_defaults,
}
use stonesuite_notify.Pushsubs
use stonesuite_notify.Pushsubs.{Subscription, SaveInput}
use stonesuite_notify.Controllers.{
  Reply, refused, answered, Request, World, Net, record_audit, auth_required,
}
use stonesuite_notify.Controllers.Logs.{service_actor, user_actor}

abbrev effective_and :
    Result Preferences → Result OverrideInput → Reply (Preferences × OverrideInput)
effective_and (err e) overrides = refused 500 "Failed to load preferences."
effective_and (ok effective) (err e) = refused 500 "Failed to load preferences."
effective_and (ok effective) (ok overrides) = answered 200 (effective, overrides)

-- The flags: both queries of `Resolve`, and the query of the overrides.
unfoldable pub get_preferences :
    Bool → Bool → Bool → Option UserContext → World → Reply (Preferences × OverrideInput)
get_preferences up up' up'' none w = refused 401 auth_required
get_preferences up up' up'' (some u) w =
    effective_and (resolve up up' u.tenant_id u.user_id w.preferences)
      (get_user_override up'' u.tenant_id u.user_id w.preferences)

abbrev changed_field : String → Option Bool → Fields → Fields
changed_field key none rest = rest
changed_field key (some b) rest = Fields.field key (Json.boolean b) rest

abbrev metadata_of : Fields → Option Json
metadata_of Fields.end = none
metadata_of (Fields.field key v rest) = some (Json.obj (Fields.field key v rest))

-- The keys are in the order in which json.Marshal writes a map.
unfoldable pub changed_preference_fields : OverrideInput → Fields
changed_preference_fields in_ = changed_field "emailEnabled" in_.email_enabled (
    changed_field "inAppEnabled" in_.in_app_enabled
      (changed_field "pushEnabled" in_.push_enabled Fields.end))

module _ (net : Net) (now : ℕ) (r : Request) (up : Bool) where
  abbrev pub stored : Entry → String → World → Result Tables → World × Reply (Unit {0})
  stored e message w (err x) = (w, refused 500 message)
  stored e message w (ok db) =
      (record_audit net r e (record w { preferences = db }), answered 200 tt)

  unfoldable pub preference_entry : UserContext → OverrideInput → Entry
  unfolding changed_preference_fields
  preference_entry u in_ = record (user_actor u) {
    action = "preference.updated";
    resource = "preference";
    resource_id = u.user_id;
    metadata = metadata_of (changed_preference_fields in_);
  }

  unfoldable pub update_preferences :
      Option UserContext → Option OverrideInput → World → World × Reply (Unit {0})
  unfolding preference_entry record_audit
  update_preferences none body w = (w, refused 401 auth_required)
  update_preferences (some u) none w = (w, refused 400 "Invalid request body.")
  update_preferences (some u) (some in_) w =
      stored (preference_entry u in_) "Failed to update preferences." w
        (set_user_override up u.tenant_id u.user_id in_ now w.preferences)

  unfoldable pub defaults_entry : String → TenantDefaultsInput → Entry → Entry
  defaults_entry tenant_id in_ actor = record actor {
    action = "tenant_defaults.updated";
    resource = "tenant_defaults";
    resource_id = tenant_id;
    metadata = some (
        Json.obj (
          Fields.field "emailEnabled" (Json.boolean in_.email_enabled) (
            Fields.field "inAppEnabled" (Json.boolean in_.in_app_enabled)
              (Fields.field "pushEnabled" (Json.boolean in_.push_enabled) Fields.end))));
  }

  -- The function `setTenantDefaults` that both routes share.
  unfoldable pub write_defaults :
      String → TenantDefaultsInput → Entry → World → World × Reply (Unit {0})
  unfolding defaults_entry record_audit
  write_defaults tenant_id in_ actor w =
      stored (defaults_entry tenant_id in_ actor) "Failed to update tenant defaults." w
        (set_tenant_defaults up tenant_id in_ now w.preferences)

  -- The body names the tenant.
  unfoldable pub set_defaults_route :
      Option (String × TenantDefaultsInput) → World → World × Reply (Unit {0})
  unfolding write_defaults
  set_defaults_route none w = (w, refused 400 "Invalid request body.")
  set_defaults_route (some (tenant_id, in_)) w =
      if tenant_id == ""
      then (w, refused 400 "tenantId is required.")
      else write_defaults tenant_id in_ (service_actor tenant_id) w

  unfoldable pub admin_set_defaults :
      Option UserContext → Option TenantDefaultsInput → World → World × Reply (Unit {0})
  unfolding write_defaults
  admin_set_defaults none body w = (w, refused 401 auth_required)
  admin_set_defaults (some u) none w = (w, refused 400 "Invalid request body.")
  admin_set_defaults (some u) (some in_) w = write_defaults u.tenant_id in_ (user_actor u) w

abbrev defaults_answer : Result Preferences → Reply Preferences
defaults_answer (ok defaults) = answered 200 defaults
defaults_answer (err e) = refused 500 "Failed to load tenant defaults."

unfoldable pub admin_get_defaults : Bool → Option UserContext → World → Reply Preferences
admin_get_defaults up none w = refused 401 auth_required
admin_get_defaults up (some u) w =
    defaults_answer (get_tenant_defaults up u.tenant_id w.preferences)

-- `VAPIDKey`
unfoldable pub vapid_key : String → Reply String
vapid_key public_key = answered 200 public_key

module _ (net : Net) (r : Request) (up : Bool) where
  unfoldable pub push_entry : UserContext → String → Entry
  push_entry u action = record (user_actor u) { action = action; resource = "push_subscription" }

  abbrev pub resubscribed :
      Entry → String → World → Result (List Subscription) → World × Reply (Unit {0})
  resubscribed e message w (err x) = (w, refused 500 message)
  resubscribed e message w (ok subs) =
      (record_audit net r e (record w { subscriptions = subs }), answered 200 tt)

  -- `id` and `now` are what the database generates for a new row.
  unfoldable pub subscribe :
      String → ℕ → Option UserContext → Option SaveInput → World → World × Reply (Unit {0})
  unfolding push_entry record_audit
  subscribe id now none body w = (w, refused 401 auth_required)
  subscribe id now (some u) none w = (w, refused 400 "Invalid request body.")
  subscribe id now (some u) (some in_) w =
      if in_.endpoint == "" || in_.p256dh == "" || in_.auth == ""
      then (w, refused 400 "endpoint and keys.p256dh and keys.auth are required.")
      else resubscribed (push_entry u "push.subscribed") "Failed to save push subscription." w
          (Pushsubs.save up id now u.tenant_id u.user_id in_ w.subscriptions)

  -- The body is the endpoint.
  unfoldable pub unsubscribe : Option UserContext → Option String → World → World × Reply (Unit {0})
  unfolding push_entry record_audit
  unsubscribe none body w = (w, refused 401 auth_required)
  unsubscribe (some u) none w = (w, refused 400 "Invalid request body.")
  unsubscribe (some u) (some endpoint) w =
      if endpoint == ""
      then (w, refused 400 "endpoint is required.")
      else resubscribed (push_entry u "push.unsubscribed") "Failed to remove push subscription." w
          (Pushsubs.delete up u.tenant_id u.user_id endpoint w.subscriptions)
