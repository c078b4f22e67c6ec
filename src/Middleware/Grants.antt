-- ===== src/Middleware/Grants.antt =====
-- What `Can` grants.
use stonesuite_notify.Base.{
  ◌≡◌, ◌↔◌, ◌⊎◌, refl, sym, inl, inr, String, true, false, ◌==◌, Option, none, some, List, [], ◌∷◌,
  arith, All, any-mem, any_of_mem, contains, cut_suffix, cut_suffix-append, append-cut_suffix,
  eq_iff, Bool-cases,
}
use stonesuite_notify.Base.Text.{◌+++◌}
use mathlib.Core.List.{Memᴰ}
use text.Mathlib.TextLemmas.{nil-append}
use text.Mathlib.Text.{starts_with}
use text.Mathlib.TextEquality.{starts_with_iff}
use stonesuite_notify.Middleware.Perm
use stonesuite_notify.Middleware.{
  UserContext, self_service_permissions, has_prefix, grants, can_of, can,
}

-- A granted text covers a permission if it is the permission, or ends in a star and is, up to the
-- star, a beginning of the permission.
pub Covers : String → String → Type 0
Covers granted permission =
    (granted ≡ permission)
    ⊎ ((prefix : String) × (rest : String) × (granted ≡ prefix +++ "*")
        × (permission ≡ prefix +++ rest))

grants_iff :
    (granted permission : String) → (grants permission granted ≡ true) ↔ Covers granted permission
unfolding grants Covers
grants_iff granted permission = (there, back)
  where
    by_prefix :
        (o : Option String)
        → cut_suffix granted "*" ≡ o
        → has_prefix permission o ≡ true
        → Covers granted permission
    by_prefix none e h = cc
    by_prefix (some prefix) e h =
        let (rest, same) = (starts_with_iff permission prefix).0 h in
        inr (prefix, rest, cut_suffix-append granted "*" e, sym same)

    there : grants permission granted ≡ true → Covers granted permission
    there h = elim (Bool-cases (granted == "*")) [
      | inl e ↦ inr ("", permission, (eq_iff granted "*").0 e, sym (nil-append permission))
      | inr e ↦ elim (Bool-cases (granted == permission)) [
        | inl k ↦ inl ((eq_iff granted permission).0 k)
        | inr k ↦ by_prefix (cut_suffix granted "*") refl (rw (e, k) at h)
      ]
    ]

    back : Covers granted permission → grants permission granted ≡ true
    back (inl same) = ground (arith, (eq_iff granted permission).1 same)
    back (inr (prefix, rest, e, k)) =
        let cut : cut_suffix granted "*" ≡ some prefix = rw e (append-cut_suffix prefix "*") in
        let begins : starts_with permission prefix ≡ true =
          (starts_with_iff permission prefix).1 (rest, sym k) in
        ground (arith, cut, begins)

-- `Can` grants a permission exactly if the token has no permissions and the permission is one of
-- the self-service ones, or if one of the token's permissions covers it.
pub can_iff :
    (u : UserContext) (permission : String)
    → (can u permission ≡ true) ↔ (
        ((u.permissions ≡ []) × (contains permission self_service_permissions ≡ true))
        ⊎ ((granted : String) × Memᴰ granted u.permissions × Covers granted permission))
unfolding can
can_iff u permission = cases u.permissions
  where
    cases :
        (ps : List String)
        → (can_of permission ps ≡ true) ↔ (
            ((ps ≡ []) × (contains permission self_service_permissions ≡ true))
            ⊎ ((granted : String) × Memᴰ granted ps × Covers granted permission))
    cases [] = ((λ h. inl (refl, h)), λ w. elim w [ inl (_, h) ↦ h | inr (g, m, _) ↦ elim m [ ] ])
    cases (p ∷ ps) = (
      (λ h.
          let (g, m, k) = any-mem (grants permission) (p ∷ ps) h in
          inr (g, m, (grants_iff g permission).0 k)),
      λ w. elim w [
        | inl (e, _) ↦ cc
        | inr (g, m, c) ↦
            any_of_mem (grants permission) g (p ∷ ps) m ((grants_iff g permission).1 c)
      ],
    )

-- The permissions that act on a whole tenant.
abbrev pub elevated_permissions : List String
elevated_permissions = Perm.notification_admin ∷ Perm.preference_admin ∷ Perm.audit_read ∷ []

-- A token without permissions is granted no permission that acts on a whole tenant.
pub can-elevated :
    (u : UserContext) → u.permissions ≡ [] → All (λ p. can u p ≡ false) elevated_permissions
unfolding can
can-elevated u h = (rw h refl, (rw h refl, (rw h refl, tt)))
