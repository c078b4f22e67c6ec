-- ===== src/Controllers/Create/Plan.antt =====
-- What an accepted create request plans: all of its recipients or none.
use mathlib.Core.List.{Memᴰ}
use mathlib.Core.Bool.{false≢true}
use stonesuite_notify.Base.{
  ◌≡◌, ◌≢◌, refl, sym, ap, ◌∙◌, inl, inr, ◌⊎◌, String, true, false, ◌&&◌, ◌==◌, eq_iff, none, List,
  [], ◌∷◌, length, nat_eq, Result, ok, err, ok-injective, >>=-ok, Bool-cases, Option-cases,
}
use mathlib.Core.Path.{subst}
use stonesuite_notify.Notifications.{validate}
use stonesuite_notify.Preferences.{Preferences}
use stonesuite_notify.Controllers.Create.{
  RecipientTarget, CreateRequest, Std, Planned, Accepted, create_input, plan_one, plan, accept,
  check_request, email_options, build_attachment, prefs_of,
}

-- The preferences that count for a recipient: email only for one who is no user, those that the
-- store finds for a user, and every channel if the store fails.
pub record PrefsFor (resolve : String → Result Preferences) (user : String) (prefs : Preferences)
    : Type 0 where
  pub external :
      user ≡ ""
      → (prefs.email_enabled ≡ true) × (prefs.in_app_enabled ≡ false) × (prefs.push_enabled ≡ false)
  pub found : user ≢ "" → (p : Preferences) → resolve user ≡ ok p → prefs ≡ p
  pub not_found :
      user ≢ ""
      → (e : String) → resolve user ≡ err e
      → (prefs.email_enabled ≡ true) × (prefs.in_app_enabled ≡ true) × (prefs.push_enabled ≡ true)

-- What is planned is for this recipient, says what the request says, and is shown in the app
-- exactly if the preferences allow it.
pub record IsPlannedFor (resolve : String → Result Preferences) (r : CreateRequest)
    (to : RecipientTarget) (p : Planned) : Type 0 where
  pub recipient : p.input.recipient_user_id ≡ to.user_id
  pub address : p.input.recipient_email ≡ to.email
  pub tenant : p.input.tenant_id ≡ r.tenant_id
  pub actor : p.input.actor_user_id ≡ r.actor_user_id
  pub event : p.input.event_type ≡ r.event_type
  pub resource : p.input.resource ≡ r.resource
  pub resource_id : p.input.resource_id ≡ r.resource_id
  pub title : p.input.title ≡ r.title
  pub body : p.input.body ≡ r.body
  pub link : p.input.link ≡ r.link
  pub status_link : p.input.status_link ≡ r.status_link
  pub status_resource : p.input.status_resource ≡ r.status_resource
  pub shown : p.input.visible_in_app ≡ p.prefs.in_app_enabled
  pub prefs : PrefsFor resolve to.user_id p.prefs

-- Nothing that is required is missing.
pub record IsComplete (r : CreateRequest) (to : RecipientTarget) : Type 0 where
  pub tenant : r.tenant_id ≢ ""
  pub recipient : (to.user_id ≢ "") ⊎ (to.email ≢ "")
  pub event : r.event_type ≢ ""
  pub resource : r.resource ≢ ""
  pub resource_id : r.resource_id ≢ ""
  pub title : r.title ≢ ""

-- The plans of some recipients, one for each and in their order.
abbrev pub Plans :
    (String → Result Preferences) → CreateRequest → List RecipientTarget → List Planned → Type 0
Plans resolve r [] [] = Unit
Plans resolve r [] (p ∷ ps) = ⊥
Plans resolve r (to ∷ tos) [] = ⊥
Plans resolve r (to ∷ tos) (p ∷ ps) =
    (IsComplete r to × IsPlannedFor resolve r to p) × Plans resolve r tos ps

pub Plans-mem :
    (resolve : String → Result Preferences) (r : CreateRequest) (tos : List RecipientTarget)
    (ps : List Planned) (p : Planned)
    → Plans resolve r tos ps
    → Memᴰ p ps
    → (to : RecipientTarget) × Memᴰ to tos × IsPlannedFor resolve r to p
Plans-mem resolve r [] [] p h m = elim m [ ]
Plans-mem resolve r [] (q ∷ ps) p h m = absurd h
Plans-mem resolve r (to ∷ tos) [] p h m = elim m [ ]
Plans-mem resolve r (to ∷ tos) (q ∷ ps) p h (Memᴰ.head e) =
    (to, Memᴰ.head refl, subst (IsPlannedFor resolve r to) (sym e) h.0.1)
Plans-mem resolve r (to ∷ tos) (q ∷ ps) p h (Memᴰ.tail m) =
    let (x, k, i) = Plans-mem resolve r tos ps p h.1 m in (x, Memᴰ.tail k, i)

nonempty_of : (s : String) → (s == "") ≡ false → s ≢ ""
nonempty_of s h e = false≢true (sym h ∙ (eq_iff s "").1 e)

empty_not : (s : String) → s ≢ "" → (s == "") ≡ false
empty_not s n = elim (Bool-cases (s == "")) [ inl e ↦ absurd (n ((eq_iff s "").0 e)) | inr e ↦ e ]

some_nonempty : (a b : String) → (a == "" && b == "") ≡ false → (a ≢ "") ⊎ (b ≢ "")
some_nonempty a b h = elim (Bool-cases (a == "")) [
  | inr e ↦ inl (nonempty_of a e)
  | inl e ↦ inr (nonempty_of b (rw e at h))
]

module _ (std : Std) (resolve : String → Result Preferences) (r : CreateRequest) where
  validate-IsComplete :
      (to : RecipientTarget) → validate (create_input r to) ≡ none → IsComplete r to
  unfolding validate create_input
  validate-IsComplete to h = elim (Bool-cases (r.tenant_id == "")) [
    | inl e ↦ cc (rw e at h)
    | inr a ↦ elim (Bool-cases (to.user_id == "" && to.email == "")) [
      | inl e ↦ cc (rw (a, e) at h)
      | inr b ↦ elim (Bool-cases (r.event_type == "")) [
        | inl e ↦ cc (rw (a, b, e) at h)
        | inr c ↦ elim (Bool-cases (r.resource == "")) [
          | inl e ↦ cc (rw (a, b, c, e) at h)
          | inr d ↦ elim (Bool-cases (r.resource_id == "")) [
            | inl e ↦ cc (rw (a, b, c, d, e) at h)
            | inr i ↦ elim (Bool-cases (r.title == "")) [
              | inl e ↦ cc (rw (a, b, c, d, i, e) at h)
              | inr t ↦ record {
                tenant = nonempty_of r.tenant_id a;
                recipient = some_nonempty to.user_id to.email b;
                event = nonempty_of r.event_type c;
                resource = nonempty_of r.resource d;
                resource_id = nonempty_of r.resource_id i;
                title = nonempty_of r.title t;
              }
            ]
          ]
        ]
      ]
    ]
  ]

  prefs_of-PrefsFor : (to : RecipientTarget) → PrefsFor resolve to.user_id (prefs_of std resolve to)
  unfolding prefs_of
  prefs_of-PrefsFor to = record {
    external = λ e. rw ((eq_iff to.user_id "").1 e) (refl, refl, refl);
    found = λ n p e. rw (empty_not to.user_id n, e) refl;
    not_found = λ n x e. rw (empty_not to.user_id n, e) (refl, refl, refl);
  }

  plan_one-IsPlannedFor :
      (to : RecipientTarget) → IsPlannedFor resolve r to (plan_one std resolve r to)
  unfolding plan_one create_input
  plan_one-IsPlannedFor to = record {
    recipient = refl;
    address = refl;
    tenant = refl;
    actor = refl;
    event = refl;
    resource = refl;
    resource_id = refl;
    title = refl;
    body = refl;
    link = refl;
    status_link = refl;
    status_resource = refl;
    shown = refl;
    prefs = prefs_of-PrefsFor to;
  }

  plan-Plans :
      (tos : List RecipientTarget) {ps : List Planned}
      → plan std resolve r tos ≡ ok ps
      → Plans resolve r tos ps
  unfolding plan
  plan-Plans [] {ps} h = subst (Plans resolve r []) (ok-injective [] ps h) tt
  plan-Plans (to ∷ rest) {ps} h = elim (Option-cases (validate (create_input r to))) [
    | inr (field, e) ↦ cc (rw e at h)
    | inl e ↦
        let (later, p, last) =
          >>=-ok (plan std resolve r rest) (λ l. ok (plan_one std resolve r to ∷ l)) (rw e at h) in
        subst (Plans resolve r (to ∷ rest)) (ok-injective _ ps last)
          ((validate-IsComplete to e, plan_one-IsPlannedFor to), plan-Plans rest p)
  ]

  check_request-recipients :
      {u : Unit {0}} → check_request r ≡ ok u → nat_eq (length r.recipients) 0 ≡ false
  unfolding check_request
  check_request-recipients h = elim (Bool-cases (r.tenant_id == "")) [
    | inl e ↦ cc (rw e at h)
    | inr a ↦ elim (Bool-cases (nat_eq (length r.recipients) 0)) [
      | inl e ↦ cc (rw (a, e) at h)
      | inr e ↦ e
    ]
  ]

  -- An accepted request names at least one recipient, and nothing that is required is missing for
  -- any of them. What is planned is one notification for each, in their order: for that recipient,
  -- with the request's tenant, actor and texts, and shown in the app exactly if the recipient's
  -- preferences allow it. These are what the preference store answers for a user, every channel if
  -- it fails, and email only for a recipient who is no user.
  pub accept-ok :
      {a : Accepted}
      → accept std resolve r ≡ ok a
      → (r.recipients ≢ []) × Plans resolve r r.recipients a.planned
  unfolding accept
  accept-ok {a} h =
      let (u, checked, h1) = >>=-ok (check_request r) _ h in
      let (opts, o, h2) = >>=-ok (email_options std r) _ h1 in
      let (attachment, b, h3) = >>=-ok (build_attachment std r opts) _ h2 in
      let (ps, p, last) = >>=-ok (plan std resolve r r.recipients) _ h3 in
      let whole : record { attachment = attachment; planned = ps } ≡ a = ok-injective _ a last in
      (
        λ e. false≢true (
            sym (check_request-recipients checked)
            ∙ ap (λ (l : List RecipientTarget). nat_eq (length l) 0) e),
        subst (λ (x : Accepted). Plans resolve r r.recipients x.planned) whole
            (plan-Plans r.recipients p),
      )
