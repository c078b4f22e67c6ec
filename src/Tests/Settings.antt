-- ===== src/Tests/Settings.antt =====
-- Tests of preferences and push subscriptions.
use stonesuite_notify.Base.{
  ◌≡◌, ◌≢◌, refl, true, false, List, [], ◌∷◌, All, ok, err, none, some, Result,
}
use stonesuite_notify.Preferences.{
  Preferences, OverrideInput, TenantDefaultsInput, OverrideRow, Tables, inherit_all, resolve,
  set_user_override, set_tenant_defaults, get_user_override, scan_override,
}
use stonesuite_notify.Preferences.Resolve.{IsPatched, resolve-set_user_override}
use stonesuite_notify.Pushsubs.{Subscription, SaveInput, save, list_for_user}
use stonesuite_notify.Pushsubs.Endpoints.{save-moves}

abbrev quiet : OverrideRow
quiet = record {
  tenant_id = "t1";
  user_id = "u1";
  email_enabled = some false;
  in_app_enabled = none;
  push_enabled = none;
  updated_at = 0;
}

abbrev tables : Tables
tables = record { defaults = []; overrides = quiet ∷ [] }

abbrev no_push : OverrideInput
no_push = record inherit_all { push_enabled = some false }

abbrev tables_of : Tables → Result Tables → Tables
tables_of db (ok db') = db'
tables_of db (err _) = db

abbrev patched : Tables
patched = tables_of tables (set_user_override true "t1" "u1" no_push 5 tables)

resolves :
    resolve true true "t1" "u1" patched
    ≡ ok (record { email_enabled = false; in_app_enabled = true; push_enabled = false })
unfolding resolve set_user_override
resolves = refl

resolve-set_user_override_example :
    (db' : Tables) × (before : Preferences) × (after : Preferences) × (set_user_override true "t1"
        "u1" no_push 5 tables
      ≡ ok db')
    × (resolve true true "t1" "u1" tables ≡ ok before)
    × (resolve true true "t1" "u1" db' ≡ ok after)
    × IsPatched before no_push after
resolve-set_user_override_example = resolve-set_user_override "t1" "u1" no_push 5 tables

is_patched : set_user_override true "t1" "u1" no_push 5 tables ≡ ok patched
unfolding set_user_override
is_patched = refl

abbrev no_email : TenantDefaultsInput
no_email = record { email_enabled = false; in_app_enabled = true; push_enabled = true }

abbrev without_email : Tables
without_email = tables_of tables (set_tenant_defaults true "t1" no_email 5 tables)

is_without_email : set_tenant_defaults true "t1" no_email 5 tables ≡ ok without_email
unfolding set_tenant_defaults
is_without_email = refl

own_override : get_user_override true "t1" "u1" tables ≡ ok (scan_override (some quiet))
unfolding get_user_override
own_override = refl

abbrev phone : Subscription
phone = record {
  id = "s1";
  tenant_id = "t1";
  user_id = "u1";
  endpoint = "https://push/1";
  p256dh = "k";
  auth = "a";
  created_at = 0;
}

abbrev again : SaveInput
again = record { endpoint = "https://push/1"; p256dh = "k2"; auth = "a2" }

abbrev subs_of : Result (List Subscription) → List Subscription
subs_of (ok subs) = subs
subs_of (err _) = []

abbrev taken : List Subscription
taken = subs_of (save true "s2" 5 "t1" "u2" again (phone ∷ []))

is_taken : save true "s2" 5 "t1" "u2" again (phone ∷ []) ≡ ok taken
unfolding save
is_taken = refl

nothing_left : list_for_user true "t1" "u1" taken ≡ ok []
unfolding save list_for_user
nothing_left = refl

save-moves_example : All (λ (s : Subscription). s.endpoint ≢ "https://push/1") []
save-moves_example =
    save-moves "s2" 5 "t1" "u2" "t1" "u1" again (phone ∷ []) taken [] refl is_taken nothing_left
