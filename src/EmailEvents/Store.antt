-- ===== src/EmailEvents/Store.antt =====
-- emailevents/store.go: `Apply` records one verified provider event in a transaction, and
-- `StatusForNotifications` reads the statuses back.
pub mod Steps
pub mod Apply
use stonesuite_notify.Base.{
  ℕ, String, Bool, true, false, not, ◌&&◌, ◌||◌, ◌==◌, Option, none, some, List, [], ◌∷◌, ◌++◌, map,
  nat_eq, if◌then◌else◌, select, update, any, find, contains, or_empty, null_if_empty, column_is,
  Result, ok, err,
}
use stonesuite_notify.Deliveries
use stonesuite_notify.Deliveries.{DeliveryRow, set_row, new_row, status_text}
use stonesuite_notify.Notifications.{NotificationRow}
use stonesuite_notify.EmailEvents.{
  status_for_event, advance, is_problem, alert_event_type, alert_title, alert_body,
}

-- `occurred_at` 0 stands for Go's zero time.
pub record Event : Type 0 where
  pub svix_id : String
  pub provider_email_id : String
  pub type : String
  pub occurred_at : ℕ
  pub detail : String

pub record ApplyResult : Type 0 where
  pub matched : Bool
  pub duplicate : Bool
  pub changed : Bool
  pub alerted : Bool
  pub status : String

-- A row of email_events.
pub record EmailEventRow : Type 0 where
  pub id : String
  pub svix_id : String
  pub delivery_id : String
  pub tenant_id : String
  pub provider_email_id : String
  pub event_type : String
  pub occurred_at : ℕ
  pub detail : Option String
  pub created_at : ℕ

pub record Database : Type 0 where
  pub deliveries : List DeliveryRow
  pub notifications : List NotificationRow
  pub email_events : List EmailEventRow

-- The statements of the transaction, in the order of the code; an environment says which of them
-- the database refuses.
pub data Statement : Type 0 where
  begin find_delivery insert_event update_status load_original insert_alert insert_alert_log
        commit :
      Statement

-- The UUIDs that the database generates for the rows inserted.
pub record FreshIds : Type 0 where
  pub event_id : String
  pub alert_id : String
  pub alert_delivery_id : String

abbrev pub nothing_applied : ApplyResult
nothing_applied = record {
  matched = false;
  duplicate = false;
  changed = false;
  alerted = false;
  status = "";
}

abbrev pub duplicate_event : ApplyResult
duplicate_event = record {
  matched = true;
  duplicate = true;
  changed = false;
  alerted = false;
  status = "";
}

-- A step of the transaction goes on with a value, or leaves `Apply` with its answer; leaving rolls
-- the transaction back.
pub data Tx (A : Type 0) : Type 0 where
  go : A → Tx A
  leave : Result ApplyResult → Tx A

infixl 5 ◌>>=◌ ◌>>◌
abbrev pub ◌>>=◌ : {A B : Type 0} → Tx A → (A → Tx B) → Tx B
go a >>= f = f a
leave r >>= f = leave r

abbrev pub ◌>>◌ : {B : Type 0} → Tx (Unit {0}) → Tx B → Tx B
m >> k = m >>= λ _. k

abbrev pub exec : Bool → String → Tx (Unit {0})
exec refused what = if refused then leave (err what) else go tt

-- The row that SELECT … FOR UPDATE finds; without one, `Apply` answers with an empty result.
abbrev pub matched_delivery : Option DeliveryRow → Tx DeliveryRow
matched_delivery none = leave (ok nothing_applied)
matched_delivery (some d) = go d

module _ (refused : Statement → Bool) (ids : FreshIds) (now : ℕ) where
  unfoldable pub event_row : Event → ℕ → DeliveryRow → EmailEventRow
  event_row ev occurred_at d = record {
    id = ids.event_id;
    svix_id = ev.svix_id;
    delivery_id = d.id;
    tenant_id = d.tenant_id;
    provider_email_id = ev.provider_email_id;
    event_type = ev.type;
    occurred_at = occurred_at;
    detail = null_if_empty ev.detail;
    created_at = now;
  }

  -- INSERT INTO email_events … ON CONFLICT (svix_id) DO NOTHING: no row affected is a duplicate.
  unfoldable pub record_event : Event → ℕ → DeliveryRow → Database → Tx Database
  unfolding event_row
  record_event ev occurred_at d db = do
    exec (refused insert_event) "record email event"
    (if contains ev.svix_id (map (λ e. e.svix_id) db.email_events)
        then leave (ok duplicate_event)
        else go (record db { email_events = db.email_events ++ event_row ev occurred_at d ∷ [] }))

  unfoldable pub alert_row : NotificationRow → String → String → String → NotificationRow
  alert_row n tenant_id actor status = record {
    id = ids.alert_id;
    tenant_id = tenant_id;
    recipient_user_id = some actor;
    recipient_email = "";
    actor_user_id = none;
    event_type = alert_event_type;
    resource = if n.status_resource == "" then n.resource else n.status_resource;
    resource_id = n.resource_id;
    title = alert_title status n.recipient_email;
    body = alert_body status;
    link = n.status_link;
    status_link = "";
    status_resource = "";
    visible_in_app = true;
    read_at = none;
    created_at = now;
  }

  -- The inserts of `raiseAlert` for the actor of the original notification, if it has one.
  unfoldable pub alert_actor :
      NotificationRow → String → String → Database → Option String → Tx (Bool × Database)
  unfolding alert_row new_row
  alert_actor n tenant_id status db none = go (false, db)
  alert_actor n tenant_id status db (some actor) = if actor == "" then go (false, db) else do
    exec (refused insert_alert) "insert delivery alert"
    exec (refused insert_alert_log) "insert delivery alert log"
    go (
      true,
      record db {
        notifications = db.notifications ++ alert_row n tenant_id actor status ∷ [];
        deliveries =
            db.deliveries
            ++ new_row ids.alert_delivery_id now ids.alert_id tenant_id actor
                Deliveries.Channel.in_app Deliveries.Status.sent
              ∷ [];
      },
    )

  unfoldable pub alert_for :
      String → String → Database → Option NotificationRow → Tx (Bool × Database)
  unfolding alert_actor
  alert_for tenant_id status db none = go (false, db)
  alert_for tenant_id status db (some n) = alert_actor n tenant_id status db n.actor_user_id

  unfoldable pub raise_alert : String → String → String → Database → Tx (Bool × Database)
  unfolding alert_for
  raise_alert tenant_id notification_id status db = do
    exec (refused load_original) "load original notification"
    alert_for tenant_id status db
        (find (λ n. n.id == notification_id && n.tenant_id == tenant_id) db.notifications)

  unfoldable pub provider_row : Event → ℕ → String → DeliveryRow → DeliveryRow
  provider_row ev occurred_at next r = record r {
    provider_status = some next;
    provider_status_at = some occurred_at;
    provider_detail = null_if_empty ev.detail;
    updated_at = now;
  }

  -- The branch of `Apply` for a status that moved forward.
  unfoldable pub change_status : Event → ℕ → DeliveryRow → String → Database → Tx (Bool × Database)
  unfolding provider_row raise_alert
  change_status ev occurred_at d next db = do
    exec (refused update_status) "update provider status"
    let db' = record db {
      deliveries = set_row d.id (provider_row ev occurred_at next) db.deliveries;
    }
    (if is_problem next
        then raise_alert d.tenant_id d.notification_id next db'
        else go (false, db'))

  unfoldable pub apply_tx : String → Event → ℕ → Database → Tx (ApplyResult × Database)
  unfolding record_event change_status
  apply_tx incoming ev occurred_at db = do
    exec (refused begin) "begin email event tx"
    exec (refused find_delivery) "find delivery for provider email"
    d ←
        matched_delivery
          (find (λ r. column_is r.provider_email_id ev.provider_email_id) db.deliveries)
    db' ← record_event ev occurred_at d db
    let moved = advance (or_empty d.provider_status) incoming
    outcome ← if moved.1 then change_status ev occurred_at d moved.0 db' else go (false, db')
    exec (refused commit) "commit email event"
    go (
      record {
        matched = true;
        duplicate = false;
        changed = moved.1;
        alerted = outcome.0;
        status = moved.0;
      },
      outcome.1,
    )

  -- Commit keeps what the transaction wrote; every other way out rolls it back.
  unfoldable pub finish : Tx (ApplyResult × Database) → Database → Result ApplyResult × Database
  finish (go (res, db')) db = (ok res, db')
  finish (leave r) db = (r, db)

  -- `clock` is the service's time.Now().
  unfoldable pub apply_known : ℕ → Event → Database → Option String → Result ApplyResult × Database
  unfolding apply_tx finish
  apply_known clock ev db none = (ok nothing_applied, db)
  apply_known clock ev db (some incoming) =
      finish (apply_tx incoming ev (if nat_eq ev.occurred_at 0 then clock else ev.occurred_at) db)
        db

  unfoldable pub apply : ℕ → Event → Database → Result ApplyResult × Database
  unfolding apply_known
  apply clock ev db = apply_known clock ev db (status_for_event ev.type)

pub record StatusRow : Type 0 where
  pub notification_id : String
  pub recipient : String
  pub queue_status : String
  pub provider_status : String
  pub detail : String
  pub updated_at : ℕ

abbrev coalesce {ℓ} : {A : Type ℓ} → Option A → A → A
coalesce none b = b
coalesce (some a) b = a

unfoldable pub status_row : DeliveryRow → NotificationRow → StatusRow
unfolding status_text
status_row d n = record {
  notification_id = d.notification_id;
  recipient = n.recipient_email;
  queue_status = status_text d.status;
  provider_status = coalesce d.provider_status "";
  detail = coalesce d.provider_detail (coalesce d.last_error "");
  updated_at = coalesce d.provider_status_at d.updated_at;
}

-- The joined notification of a delivery, by (id, tenant_id); ids are unique.
joined : DeliveryRow → Option NotificationRow → List StatusRow
joined d none = []
joined d (some n) = status_row d n ∷ []

is_email : Deliveries.Channel → Bool
is_email Deliveries.Channel.email = true
is_email _ = false

join_all : List NotificationRow → List DeliveryRow → List StatusRow
join_all ns [] = []
join_all ns (d ∷ ds) =
    joined d (find (λ n. n.id == d.notification_id && n.tenant_id == d.tenant_id) ns)
    ++ join_all ns ds

unfoldable pub status_for_notifications :
    Bool → String → List String → Database → Result (List StatusRow)
unfolding join_all joined is_email status_row
status_for_notifications up tenant_id notification_ids db =
    if up
    then ok (
        join_all db.notifications (
          select
            (λ d.
              d.tenant_id == tenant_id
              && is_email d.channel
              && contains d.notification_id notification_ids)
            db.deliveries))
    else err "query email status"
