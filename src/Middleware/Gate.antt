-- ===== src/Middleware/Gate.antt =====
-- What a request must bring to reach a handler.
use stonesuite_notify.Base.{
  ◌≡◌, ◌≢◌, ◌⊎◌, refl, ap, ◌∙◌, inl, inr, String, Bool, true, false, ◌==◌, Option, none, some,
  arith, eq_iff, Bool-cases, Option-cases, if◌then◌else◌, Result, All, HasNo, fields-HasNo,
}
use stonesuite_notify.Base.Text.{◌+++◌}
use stonesuite_notify.Base.Json.{Json, Fields, member}
use stonesuite_notify.Middleware.{
  UserContext, Request, denied, served, Handler, Parsed, not_parsed, parsed, can, key_for,
  user_of_claims, identify, user_of, extract_token, admit, authenticate, with_token, require_auth,
  require_permission, protected, as_string, parse_string_list_claim, is_delimiter,
}

identify-tenant :
    (id email : Option String) (tenant_id : String) (claims : Fields) {user : UserContext}
    → identify id email tenant_id claims ≡ some user
    → user.tenant_id ≢ ""
unfolding identify user_of
identify-tenant none email tenant_id claims h = cc
identify-tenant (some id) none tenant_id claims h = cc
identify-tenant (some id) (some email) tenant_id claims {user} h =
    elim (Bool-cases (tenant_id == "")) [
      | inl e ↦ cc (rw e at h)
      | inr e ↦ λ blank. ground (arith, (eq_iff tenant_id "").1 (of_user (rw e at h) ∙ blank))
    ]
  where
    of_user : some (user_of id email tenant_id claims) ≡ some user → tenant_id ≡ user.tenant_id
    of_user k = ap (λ o. elim o [ none ↦ tenant_id | some x ↦ x.tenant_id ]) k

user_of_claims-tenant :
    (claims : Fields) {user : UserContext} → user_of_claims claims ≡ some user → user.tenant_id ≢ ""
unfolding user_of_claims
user_of_claims-tenant claims h =
    identify-tenant (as_string (member "id" claims)) (as_string (member "email" claims)) _ claims h

module _ {A : Type 0} where
  require_permission-served :
      (permission : String) (next : Handler A) (user : UserContext) (r : Request) {a : A}
      → require_permission permission next (some user) r ≡ served a
      → (can user permission ≡ true) × (next (some user) r ≡ served a)
  unfolding require_permission
  require_permission-served permission next user r h = elim (Bool-cases (can user permission)) [
    | inl e ↦ (e, rw e at h)
    | inr e ↦ cc (rw e at h)
  ]

  authenticate-served :
      (next : Handler A) (r : Request) (p : Parsed) {a : A}
      → authenticate next r p ≡ served a
      → (claims : Fields) × (user : UserContext) × (p ≡ parsed true (some claims))
        × (user_of_claims claims ≡ some user)
        × (next (some user) r ≡ served a)
  unfolding authenticate admit
  authenticate-served next r (not_parsed expired) h = cc
  authenticate-served next r (parsed false claims) h = cc
  authenticate-served next r (parsed true none) h = cc
  authenticate-served next r (parsed true (some claims)) h =
      elim (Option-cases (user_of_claims claims)) [
        | inl e ↦ cc (rw e at h)
        | inr (user, e) ↦ (claims, user, refl, e, rw e at h)
      ]

module _ {A : Type 0} (jwt_parse : (Bool → Result String) → String → Parsed) where
  -- A handler behind `Protected` is reached only by a request whose token the JWT library accepts
  -- under the service's key, for a user of the token's claims who has a tenant and holds the
  -- permission, and it is called with that user.
  pub protected-served :
      (secret permission : String) (next : Handler A) (ctx : Option UserContext) (r : Request)
      (a : A)
      → protected jwt_parse secret permission next ctx r ≡ served a
      → (token : String) × (claims : Fields) × (user : UserContext) × (extract_token r ≡ some token)
        × (jwt_parse (key_for secret) token ≡ parsed true (some claims))
        × (user_of_claims claims ≡ some user)
        × (user.tenant_id ≢ "")
        × (can user permission ≡ true)
        × (next (some user) r ≡ served a)
  unfolding protected require_auth with_token
  protected-served secret permission next ctx r a h = elim (Option-cases (extract_token r)) [
    | inl e ↦ cc (rw e at h)
    | inr (token, e) ↦
        let (claims, user, parses, known, runs) =
          authenticate-served (require_permission permission next) r
            (jwt_parse (key_for secret) token) (rw e at h) in
        let (allowed, answers) = require_permission-served permission next user r runs in
        (
          token,
          claims,
          user,
          e,
          parses,
          known,
          user_of_claims-tenant claims known,
          allowed,
          answers,
        )
  ]

  -- Conversely, a request whose token the library accepts, for a user with the permission, reaches
  -- the handler; with an accepted token but without the permission the answer is 403.
  pub protected-reaches :
      (secret permission : String) (next : Handler A) (ctx : Option UserContext) (r : Request)
      (token : String) (claims : Fields) (user : UserContext)
      → extract_token r ≡ some token
      → jwt_parse (key_for secret) token ≡ parsed true (some claims)
      → user_of_claims claims ≡ some user
      → protected jwt_parse secret permission next ctx r ≡ (
          if can user permission
          then next (some user) r
          else denied 403 ("Access denied. Missing required permission: " +++ permission +++ "."))
  unfolding protected require_auth with_token authenticate admit require_permission
  protected-reaches secret permission next ctx r token claims user e k l = rw (e, k, l)

  -- A request without a token, with one that the library refuses, or whose claims name no user is
  -- answered 401, and the handler is not called.
  pub protected-denies :
      (secret permission : String) (next : Handler A) (ctx : Option UserContext) (r : Request)
      → ((extract_token r ≡ none)
          ⊎ ((token : String) × (expired : Bool) × (extract_token r ≡ some token)
              × (jwt_parse (key_for secret) token ≡ not_parsed expired)))
        ⊎ ((token : String) × (claims : Fields) × (extract_token r ≡ some token)
            × (jwt_parse (key_for secret) token ≡ parsed true (some claims))
            × (user_of_claims claims ≡ none))
      → (message : String) × (protected jwt_parse secret permission next ctx r ≡ denied 401 message)
  unfolding protected require_auth with_token authenticate admit
  protected-denies secret permission next ctx r (inl (inl e)) =
      ("Access denied. No authorization token provided.", rw e refl)
  protected-denies secret permission next ctx r (inl (inr (token, expired, e, k))) = (
    if expired
        then "Authentication session expired. Please sign in again."
        else "Authentication failed. Invalid or malformed token.",
    rw (e, k) refl,
  )
  protected-denies secret permission next ctx r (inr (token, claims, e, k, l)) =
      ("Authentication failed. Invalid token claims.", rw (e, k, l) refl)

-- Every permission that a token's text claim is read to hold is free of spaces and commas.
pub parse_string_list_claim-HasNo :
    (v : String) → All (HasNo is_delimiter) (parse_string_list_claim (some (Json.string v)))
unfolding parse_string_list_claim
parse_string_list_claim-HasNo v = fields-HasNo is_delimiter v
