-- ===== src/Config/Required.antt =====
-- What a service that started was given.
use stonesuite_notify.Base.{
  ◌≡◌, refl, inl, inr, ◌⊎◌, String, true, false, ◌==◌, eq_iff, Option, none, some, ok, ok-injective,
  Bool-cases,
}
use mathlib.Core.Path.{subst}
use stonesuite_notify.Config.{
  Config, BackendUrl, check_backend, check_required, load, read_env, is_http,
}

module _ (to_lower quote : String → String) (parse_url : String → Option BackendUrl) where
  -- A configuration that the service runs with.
  pub record IsUsable (c : Config) : Type 0 where
    pub has_database : (c.database_url == "") ≡ false
    pub has_jwt_secret : (c.jwt_secret == "") ≡ false
    pub has_internal_secret : (c.internal_service_secret == "") ≡ false
    pub has_backend :
        (c.backend_url ≡ "")
        ⊎ ((u : BackendUrl) × (parse_url c.backend_url ≡ some u)
            × ((u.scheme ≡ "http") ⊎ (u.scheme ≡ "https"))
            × ((u.host == "") ≡ false))

  is_http-of :
      (o : Option BackendUrl)
      → is_http to_lower quote parse_url o ≡ true
      → (u : BackendUrl) × (o ≡ some u)
        × ((u.scheme ≡ "http") ⊎ (u.scheme ≡ "https"))
        × ((u.host == "") ≡ false)
  is_http-of none h = cc
  is_http-of (some u) h = elim (Bool-cases (u.host == "")) [
    | inl e ↦ elim (Bool-cases (u.scheme == "http")) [
      | inl a ↦ cc (rw (a, e) at h)
      | inr a ↦ elim (Bool-cases (u.scheme == "https")) [
        | inl b ↦ cc (rw (a, b, e) at h)
        | inr b ↦ cc (rw (a, b) at h)
      ]
    ]
    | inr e ↦ elim (Bool-cases (u.scheme == "http")) [
      | inl a ↦ (u, refl, inl ((eq_iff u.scheme "http").0 a), e)
      | inr a ↦ elim (Bool-cases (u.scheme == "https")) [
        | inl b ↦ (u, refl, inr ((eq_iff u.scheme "https").0 b), e)
        | inr b ↦ cc (rw (a, b) at h)
      ]
    ]
  ]

  check_required-IsUsable :
      (c c' : Config) → check_required to_lower quote parse_url c ≡ ok c' → IsUsable c'
  unfolding check_required check_backend
  check_required-IsUsable c c' h = elim (Bool-cases (c.database_url == "")) [
    | inl a ↦ cc (rw a at h)
    | inr a ↦ elim (Bool-cases (c.jwt_secret == "")) [
      | inl b ↦ cc (rw (a, b) at h)
      | inr b ↦ elim (Bool-cases (c.internal_service_secret == "")) [
        | inl d ↦ cc (rw (a, b, d) at h)
        | inr d ↦ elim (Bool-cases (c.backend_url == "")) [
          | inl e ↦ subst IsUsable (ok-injective c c' (rw (a, b, d, e) at h)) (record {
            has_database = a;
            has_jwt_secret = b;
            has_internal_secret = d;
            has_backend = inl ((eq_iff c.backend_url "").0 e);
          })
          | inr e ↦ elim (Bool-cases (is_http to_lower quote parse_url (parse_url c.backend_url))) [
            | inr k ↦ cc (rw (a, b, d, e, k) at h)
            | inl k ↦ subst IsUsable (ok-injective c c' (rw (a, b, d, e, k) at h)) (record {
              has_database = a;
              has_jwt_secret = b;
              has_internal_secret = d;
              has_backend = inr (is_http-of (parse_url c.backend_url) k);
            })
          ]
        ]
      ]
    ]
  ]

  -- A service that started has a database, a secret for its users' tokens and one for the other
  -- services, and either no backend or one that is an absolute http or https URL.
  pub load-IsUsable :
      (env : String → String) {c : Config} → load to_lower quote parse_url env ≡ ok c → IsUsable c
  unfolding load
  load-IsUsable env {c} h = check_required-IsUsable (read_env to_lower quote parse_url env) c h
