-- ===== src/Controllers/Routes.antt =====
-- main.go: the routes by which a signed-in user changes something, behind the permission that each
-- needs.
pub mod Audited
use stonesuite_notify.Base.{ℕ, String, Bool, Option, none, some, Result}
use stonesuite_notify.Middleware
use stonesuite_notify.Middleware.{UserContext, Parsed, Response, served, protected}
use stonesuite_notify.Middleware.Perm
use stonesuite_notify.Preferences.{OverrideInput, TenantDefaultsInput}
use stonesuite_notify.Pushsubs.{SaveInput}
use stonesuite_notify.Controllers.{Reply, Request, World, Net}
use stonesuite_notify.Controllers.Feed.{mark_read_route, mark_all_read_route}
use stonesuite_notify.Controllers.Settings.{
  update_preferences, admin_set_defaults, subscribe, unsubscribe,
}

-- The routes, with the decoded bodies of those that have one.
pub data Write : Type 0 where
  to_mark_read to_mark_all_read : Write
  to_update_preferences : Option OverrideInput → Write
  to_set_defaults : Option TenantDefaultsInput → Write
  to_subscribe : Option SaveInput → Write
  to_unsubscribe : Option String → Write

unfoldable pub permission_of : Write → String
permission_of to_mark_read = Perm.notification_update
permission_of to_mark_all_read = Perm.notification_update
permission_of (to_update_preferences body) = Perm.preference_update
permission_of (to_set_defaults body) = Perm.preference_admin
permission_of (to_subscribe body) = Perm.push_manage
permission_of (to_unsubscribe body) = Perm.push_manage

-- What a request meets: whether the database answers, its clock and its next UUID.
pub record Server : Type 0 where
  pub net : Net
  pub up : Bool
  pub now : ℕ
  pub new_id : String
  pub jwt_parse : (Bool → Result String) → String → Parsed
  pub jwt_secret : String

module _ (s : Server) (r : Request) where
  unfoldable pub serve : Write → Option UserContext → World → World × Reply (Unit {0})
  serve to_mark_read u w = mark_read_route s.net s.now r s.up u w
  serve to_mark_all_read u w = mark_all_read_route s.net s.now r s.up u w
  serve (to_update_preferences body) u w = update_preferences s.net s.now r s.up u body w
  serve (to_set_defaults body) u w = admin_set_defaults s.net s.now r s.up u body w
  serve (to_subscribe body) u w = subscribe s.net r s.up s.new_id s.now u body w
  serve (to_unsubscribe body) u w = unsubscribe s.net r s.up u body w

  -- A request that the middleware lets pass changes the world; one that it denies does not.
  unfoldable pub user_write :
      Write → Middleware.Request → World → Response (World × Reply (Unit {0}))
  unfolding serve permission_of
  user_write write token w =
      protected s.jwt_parse s.jwt_secret (permission_of write)
        (λ u token'. served (serve write u w)) none token
