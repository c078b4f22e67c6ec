-- ===== src/Pushsubs.antt =====
-- pushsubs/store.go: the browsers that receive a user's push notifications, one row for each
-- endpoint.
pub mod Endpoints
use stonesuite_notify.Base.{
  ℕ, String, Bool, true, false, not, ◌&&◌, ◌==◌, List, [], ◌∷◌, if◌then◌else◌, upsert, select,
  Result, ok, err,
}

pub record Subscription : Type 0 where
  pub id : String
  pub tenant_id : String
  pub user_id : String
  pub endpoint : String
  pub p256dh : String
  pub auth : String
  pub created_at : ℕ

pub record SaveInput : Type 0 where
  pub endpoint : String
  pub p256dh : String
  pub auth : String

abbrev pub endpoint_of : Subscription → String
endpoint_of s = s.endpoint

abbrev pub has_endpoint : String → Subscription → Bool
has_endpoint e s = s.endpoint == e

abbrev pub is_owned : String → String → Subscription → Bool
is_owned tenant_id user_id s = s.tenant_id == tenant_id && s.user_id == user_id

unfoldable pub taken_over : String → String → SaveInput → Subscription → Subscription
taken_over tenant_id user_id input s = record s {
  tenant_id = tenant_id;
  user_id = user_id;
  p256dh = input.p256dh;
  auth = input.auth;
}

-- `id` is the UUID that the database generates.
unfoldable pub new_subscription : String → ℕ → String → String → SaveInput → Subscription
new_subscription id now tenant_id user_id input = record {
  id = id;
  tenant_id = tenant_id;
  user_id = user_id;
  endpoint = input.endpoint;
  p256dh = input.p256dh;
  auth = input.auth;
  created_at = now;
}

unfoldable pub save :
    Bool → String → ℕ → String → String → SaveInput → List Subscription → Result (List Subscription)
unfolding taken_over new_subscription
save up id now tenant_id user_id input table =
    if up
    then ok (
        upsert (has_endpoint input.endpoint) (taken_over tenant_id user_id input)
          (new_subscription id now tenant_id user_id input) table)
    else err "save push subscription"

-- DELETE FROM push_subscriptions WHERE …
unfoldable pub delete :
    Bool → String → String → String → List Subscription → Result (List Subscription)
delete up tenant_id user_id endpoint table =
    if up
    then ok (select (λ s. not (is_owned tenant_id user_id s && has_endpoint endpoint s)) table)
    else err "delete push subscription"

unfoldable pub list_for_user :
    Bool → String → String → List Subscription → Result (List Subscription)
list_for_user up tenant_id user_id table =
    if up then ok (select (is_owned tenant_id user_id) table) else err "list push subscriptions"
