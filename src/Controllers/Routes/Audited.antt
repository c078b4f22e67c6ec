-- ===== src/Controllers/Routes/Audited.antt =====
-- Every change that a user makes is in the audit trail, under the user's name and tenant.
use stonesuite_notify.Base.{
  ℕ, ◌≡◌, ◌≢◌, refl, ap, inl, inr, String, Bool, true, ◌||◌, ◌==◌, none, some, List, [], ◌∷◌, ◌++◌,
  Result, ok, err, Bool-cases, Result-cases,
}
use mathlib.Core.Path.{subst}
use stonesuite_notify.Audit.{Entry}
use stonesuite_notify.Middleware
use stonesuite_notify.Middleware.{UserContext, Response, served, denied, can}
use stonesuite_notify.Middleware.Gate.{protected-served}
use stonesuite_notify.Notifications.{mark_read, mark_all_read, err_not_found}
use stonesuite_notify.Preferences.{Tables}
use stonesuite_notify.Pushsubs.{Subscription}
use stonesuite_notify.Controllers.{
  Reply, refused, answered, Request, World, Net, record_audit, audit_entry,
}
use stonesuite_notify.Controllers.Feed.{mark_read_route, mark_all_read_route, read_entry, marked}
use stonesuite_notify.Controllers.Settings.{
  update_preferences, admin_set_defaults, write_defaults, subscribe, unsubscribe, stored,
  resubscribed, preference_entry, defaults_entry, push_entry,
}
use stonesuite_notify.Controllers.Logs.{user_actor}
use stonesuite_notify.Controllers.Routes.{
  Write, to_mark_read, to_mark_all_read, to_update_preferences, to_set_defaults, to_subscribe,
  to_unsubscribe, Server, permission_of, serve, user_write,
}

-- A refusal changes nothing, and a success adds one entry of the user to the trail.
abbrev pub IsAudited : UserContext → World → World × Reply (Unit {0}) → Type 0
IsAudited u w (w', refused status message) = w' ≡ w
IsAudited u w (w', answered status done) =
    (status ≡ 200)
    × (e : Entry) × (w'.audited ≡ w.audited ++ e ∷ [])
    × (e.tenant_id ≡ u.tenant_id)
    × (e.actor_user_id ≡ u.user_id)

module _ (net : Net) (now : ℕ) (r : Request) (up : Bool) (u : UserContext) (w : World) where
  mark_read_route-IsAudited : IsAudited u w (mark_read_route net now r up (some u) w)
  unfolding mark_read_route record_audit audit_entry read_entry
  mark_read_route-IsAudited = elim (Bool-cases (r.path_id == "")) [
    | inl e ↦ rw e refl
    | inr e ↦
        elim (Result-cases (mark_read up u.tenant_id u.user_id r.path_id now w.notifications)) [
          | inl (t, k) ↦ rw (e, k) (refl, _, refl, refl, refl)
          | inr (x, k) ↦ rw (e, k) (failed x)
        ]
  ]
    where
      failed : (x : String) → IsAudited u w (marked net now r u w (err x))
      failed x = elim (Bool-cases (x == err_not_found)) [
        | inl same ↦ rw same refl
        | inr other ↦ rw other refl
      ]

  mark_all_read_route-IsAudited : IsAudited u w (mark_all_read_route net now r up (some u) w)
  unfolding mark_all_read_route record_audit audit_entry read_entry
  mark_all_read_route-IsAudited =
      elim (Result-cases (
        mark_all_read up u.tenant_id u.user_id (some u.accessible_resources) now w.notifications)) [
          | inl (t, k) ↦ rw k (refl, _, refl, refl, refl)
          | inr (x, k) ↦ rw k refl
        ]

  stored-IsAudited :
      (e : Entry) (message : String) (result : Result Tables)
      → e.tenant_id ≡ u.tenant_id
      → e.actor_user_id ≡ u.user_id
      → IsAudited u w (stored net now r up e message w result)
  unfolding record_audit audit_entry
  stored-IsAudited e message (err x) h k = refl
  stored-IsAudited e message (ok db) h k = (refl, audit_entry net r e, refl, h, k)

  resubscribed-IsAudited :
      (e : Entry) (message : String) (result : Result (List Subscription))
      → e.tenant_id ≡ u.tenant_id
      → e.actor_user_id ≡ u.user_id
      → IsAudited u w (resubscribed net r up e message w result)
  unfolding record_audit audit_entry
  resubscribed-IsAudited e message (err x) h k = refl
  resubscribed-IsAudited e message (ok subs) h k = (refl, audit_entry net r e, refl, h, k)

module _ (s : Server) (r : Request) (u : UserContext) (w : World) where
  serve-IsAudited : (write : Write) → IsAudited u w (serve s r write (some u) w)
  unfolding serve update_preferences preference_entry admin_set_defaults write_defaults
      defaults_entry subscribe unsubscribe push_entry
  serve-IsAudited to_mark_read = mark_read_route-IsAudited s.net s.now r s.up u w
  serve-IsAudited to_mark_all_read = mark_all_read_route-IsAudited s.net s.now r s.up u w
  serve-IsAudited (to_update_preferences none) = refl
  serve-IsAudited (to_update_preferences (some in_)) =
      stored-IsAudited s.net s.now r s.up u w (preference_entry s.net s.now r s.up u in_) _ _ refl
        refl
  serve-IsAudited (to_set_defaults none) = refl
  serve-IsAudited (to_set_defaults (some in_)) =
      stored-IsAudited s.net s.now r s.up u w
        (defaults_entry s.net s.now r s.up u.tenant_id in_ (user_actor u)) _ _ refl refl
  serve-IsAudited (to_subscribe none) = refl
  serve-IsAudited (to_subscribe (some in_)) =
      elim (Bool-cases (in_.endpoint == "" || in_.p256dh == "" || in_.auth == "")) [
        | inl e ↦ rw e refl
        | inr e ↦ rw e (
            resubscribed-IsAudited s.net s.now r s.up u w
              (push_entry s.net r s.up u "push.subscribed") _ _ refl refl)
      ]
  serve-IsAudited (to_unsubscribe none) = refl
  serve-IsAudited (to_unsubscribe (some endpoint)) = elim (Bool-cases (endpoint == "")) [
    | inl e ↦ rw e refl
    | inr e ↦ rw e (
        resubscribed-IsAudited s.net s.now r s.up u w
          (push_entry s.net r s.up u "push.unsubscribed") _ _ refl refl)
  ]

-- A request of a user that changes the notifications, the preferences or the subscriptions gets to
-- its handler only for a user with a tenant who holds the permission of the route. Then either it
-- is refused and nothing changes, or it is answered with 200, and the audit trail has exactly one
-- entry more, which names that user and that user's tenant.
pub user_write-IsAudited :
    (s : Server) (r : Request) (write : Write) (token : Middleware.Request) (w : World)
    (end : World × Reply (Unit {0}))
    → user_write s r write token w ≡ served end
    → (u : UserContext) × (u.tenant_id ≢ "")
      × (can u (permission_of write) ≡ true)
      × IsAudited u w end
unfolding user_write
user_write-IsAudited s r write token w end h =
    let (text, claims, u, extracts, parses, known, tenant, allowed, answers) =
      protected-served s.jwt_parse s.jwt_secret (permission_of write)
        (λ u' token'. served (serve s r write u' w)) none token end h in
    let same : serve s r write (some u) w ≡ end =
      ap (λ x. elim x [ served e ↦ e | denied n m ↦ end ]) answers in
    (u, tenant, allowed, subst (IsAudited u w) same (serve-IsAudited s r u w write))
