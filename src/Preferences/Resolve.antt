-- ===== src/Preferences/Resolve.antt =====
-- What `Resolve` answers after the preferences are set.
use stonesuite_notify.Base.{
  ℕ, ◌≡◌, refl, sym, ap, ◌∙◌, inl, inr, String, Bool, true, false, ◌&&◌, ◌==◌, Option, none, some,
  List, arith, find, find-upsert, find-upsert_other, set_or_new, upsert, if◌then◌else◌, Bool-cases,
  eq_iff, eq_refl, ok, ok-injective, Result,
}
use mathlib.Core.Path.{subst}
use stonesuite_notify.Preferences.{
  Preferences, OverrideInput, TenantDefaultsInput, DefaultsRow, OverrideRow, Tables, is_tenant,
  is_user, scan_defaults, scan_override, merge, coalesce, coalesce_null, resolve, patched_row,
  override_row, set_user_override, replaced_row, defaults_row, set_tenant_defaults,
  get_user_override, get_tenant_defaults,
}

coalesce-coalesce_null :
    (a b : Option Bool) (c : Bool) → coalesce (coalesce_null a b) c ≡ coalesce a (coalesce b c)
coalesce-coalesce_null none b c = refl
coalesce-coalesce_null (some x) b c = refl

-- A patch on top of an override resolves as the patch on top of what the override resolves to.
merge-patched :
    (prefs : Preferences) (input : OverrideInput) (now : ℕ) (t u : String) (o : Option OverrideRow)
    → merge prefs
        (scan_override (some (set_or_new (patched_row input now) (override_row t u input now) o)))
      ≡ merge (merge prefs (scan_override o)) input
unfolding merge scan_override patched_row override_row
merge-patched prefs input now t u none = refl
merge-patched prefs input now t u (some r) = rw (
  coalesce-coalesce_null input.email_enabled r.email_enabled prefs.email_enabled,
  coalesce-coalesce_null input.in_app_enabled r.in_app_enabled prefs.in_app_enabled,
  coalesce-coalesce_null input.push_enabled r.push_enabled prefs.push_enabled,
)

-- What the tables say of a user.
effective : String → String → Tables → Preferences
effective t u db =
    merge (scan_defaults (find (is_tenant t) db.defaults))
      (scan_override (find (is_user t u) db.overrides))

resolve-effective : (t u : String) (db : Tables) → resolve true true t u db ≡ ok (effective t u db)
unfolding resolve effective
resolve-effective t u db = refl

is_user_self : (t u : String) → (t == t && u == u) ≡ true
is_user_self t u = rw (eq_refl t, eq_refl u)

-- A channel after a patch: as the patch says, or as before where the patch leaves it out.
abbrev pub IsField : Option Bool → Bool → Bool → Type 0
IsField none before after = after ≡ before
IsField (some x) before after = after ≡ x

pub record IsPatched (before : Preferences) (input : OverrideInput) (after : Preferences)
    : Type 0 where
  pub email : IsField input.email_enabled before.email_enabled after.email_enabled
  pub in_app : IsField input.in_app_enabled before.in_app_enabled after.in_app_enabled
  pub push : IsField input.push_enabled before.push_enabled after.push_enabled

coalesce-IsField : (x : Option Bool) (before : Bool) → IsField x before (coalesce x before)
coalesce-IsField none before = refl
coalesce-IsField (some x) before = refl

merge-IsPatched :
    (prefs : Preferences) (input : OverrideInput) → IsPatched prefs input (merge prefs input)
unfolding merge
merge-IsPatched prefs input = record {
  email = coalesce-IsField input.email_enabled prefs.email_enabled;
  in_app = coalesce-IsField input.in_app_enabled prefs.in_app_enabled;
  push = coalesce-IsField input.push_enabled prefs.push_enabled;
}

-- After a user saves a patch of their preferences, `Resolve` answers for each channel what the
-- patch says of it, and for a channel that the patch leaves out what it answered before.
pub resolve-set_user_override :
    (t u : String) (input : OverrideInput) (now : ℕ) (db : Tables)
    → (db' : Tables) × (before : Preferences) × (after : Preferences) × (set_user_override true t u
          input now db
        ≡ ok db')
      × (resolve true true t u db ≡ ok before)
      × (resolve true true t u db' ≡ ok after)
      × IsPatched before input after
unfolding set_user_override effective patched_row override_row
resolve-set_user_override t u input now db = (
  _,
  effective t u db,
  merge (effective t u db) input,
  refl,
  resolve-effective t u db,
  resolve-effective t u _
      ∙ ap (λ o. ok (merge (scan_defaults (find (is_tenant t) db.defaults)) (scan_override o)))
          (find-upsert (is_user t u) (patched_row input now) (override_row t u input now)
            (λ x. refl) db.overrides (is_user_self t u))
      ∙ ap ok (
          merge-patched (scan_defaults (find (is_tenant t) db.defaults)) input now t u
            (find (is_user t u) db.overrides)),
  merge-IsPatched (effective t u db) input,
)

-- Nobody else's preferences change when a user saves theirs.
pub resolve-set_user_override_other :
    (t u t' u' : String) (input : OverrideInput) (now : ℕ) (db db' : Tables)
    → (t == t' && u == u') ≡ false
    → set_user_override true t u input now db ≡ ok db'
    → resolve true true t' u' db' ≡ resolve true true t' u' db
unfolding set_user_override effective patched_row override_row resolve
resolve-set_user_override_other t u t' u' input now db db' apart h =
    rw (sym (ok-injective _ db' h)) (
      ap (λ o. ok (merge (scan_defaults (find (is_tenant t') db.defaults)) (scan_override o)))
        (find-upsert_other (is_user t u) (patched_row input now) (override_row t u input now)
          (is_user t' u') (λ x. refl) (λ x hit. other x.tenant_id x.user_id hit) apart
          db.overrides))
  where
    other : (a b : String) → (a == t && b == u) ≡ true → (a == t' && b == u') ≡ false
    other a b hit = ground (arith, eq_iff a t, eq_iff b u)

abbrev pub defaults_of_input : TenantDefaultsInput → Preferences
defaults_of_input input = record {
  email_enabled = input.email_enabled;
  in_app_enabled = input.in_app_enabled;
  push_enabled = input.push_enabled;
}

-- After a tenant's defaults are set, every user of the tenant gets them except where the user's own
-- override says otherwise, and the users of other tenants get what they got before.
pub resolve-set_tenant_defaults :
    (t t' u : String) (input : TenantDefaultsInput) (now : ℕ) (db db' : Tables)
    (own : OverrideInput)
    → set_tenant_defaults true t input now db ≡ ok db'
    → get_user_override true t' u db ≡ ok own
    → resolve true true t' u db'
      ≡ (if t == t' then ok (merge (defaults_of_input input) own) else resolve true true t' u db)
unfolding set_tenant_defaults effective replaced_row defaults_row get_user_override scan_defaults
    resolve get_tenant_defaults
resolve-set_tenant_defaults t t' u input now db db' own h k =
    rw (sym (ok-injective _ db' h), sym (ok-injective _ own k))
      (elim (Bool-cases (t == t')) [
        | inl same ↦ rw same (
            ap after (
              subst
                (λ s.
                  find (is_tenant s) table
                  ≡ some (
                      set_or_new (replaced_row input now) (defaults_row t input now)
                        (find (is_tenant t) db.defaults)))
                ((eq_iff t t').0 same)
                (find-upsert (is_tenant t) (replaced_row input now) (defaults_row t input now)
                  (λ x. refl) db.defaults (eq_refl t)))
            ∙ replaced (find (is_tenant t) db.defaults))
        | inr other ↦ rw other (
            ap after (
              find-upsert_other (is_tenant t) (replaced_row input now) (defaults_row t input now)
                (is_tenant t') (λ x. refl) (λ x hit. apart x.tenant_id other hit) other
                db.defaults))
      ])
  where
    table : List DefaultsRow
    table = upsert (is_tenant t) (replaced_row input now) (defaults_row t input now) db.defaults

    after : Option DefaultsRow → Result Preferences
    after o = ok (merge (scan_defaults o) (scan_override (find (is_user t' u) db.overrides)))

    replaced :
        (o : Option DefaultsRow)
        → after (some (set_or_new (replaced_row input now) (defaults_row t input now) o))
          ≡ ok (merge (defaults_of_input input) (scan_override (find (is_user t' u) db.overrides)))
    replaced none = refl
    replaced (some r) = refl

    apart : (a : String) → (t == t') ≡ false → (a == t) ≡ true → (a == t') ≡ false
    apart a other hit = subst (λ s. (s == t') ≡ false) (sym ((eq_iff a t).0 hit)) other
