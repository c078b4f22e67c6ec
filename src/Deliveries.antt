-- ===== src/Deliveries.antt =====
-- deliveries/types.go and the operations of deliveries/store.go on notification_deliveries.
-- A status or channel column holds one of the constants of types.go, the only values that the
-- code writes; times are nanoseconds. `up` tells whether the database executes the statement;
-- `now` is its NOW() and `clock` the service's time.Now().
pub mod Backoff
pub mod Claim
pub mod Picked
pub mod Lifecycle
pub mod Listed
use stonesuite_notify.Base.{
  ℕ, zero, suc, ◌+◌, ◌-◌, ◌*◌, ◌^◌, String, Bool, true, false, not, ◌&&◌, ◌||◌, ◌==◌, Option, none,
  some, List, [], ◌∷◌, ◌++◌, map, leb, ltb, if◌then◌else◌, select, update, order_by, sort_by, ltb,
  take, contains, or_empty, null_if_empty, Result, ok, err,
}
use stonesuite_notify.Base.Int.{ℤ, pos, negsuc, ltℤ, to_int64, add_duration}
use stonesuite_notify.Base.Json.{Json}

pub data Channel : Type 0 where
  email push in_app : Channel

abbrev pub channel_text : Channel → String
channel_text email = "email"
channel_text in_app = "in_app"
channel_text push = "push"

pub data Status : Type 0 where
  pending processing sent retrying failed skipped : Status

-- The texts of the Status constants.
unfoldable pub status_text : Status → String
status_text pending = "pending"
status_text processing = "processing"
status_text sent = "sent"
status_text retrying = "retrying"
status_text failed = "failed"
status_text skipped = "skipped"

abbrev pub max_attempts_allowed : ℕ
max_attempts_allowed = 5

-- A row of notification_deliveries; a nullable column is an `Option`.
pub record DeliveryRow : Type 0 where
  pub id : String
  pub notification_id : String
  pub tenant_id : String
  pub recipient_user_id : Option String
  pub channel : Channel
  pub status : Status
  pub attempts : ℕ
  pub max_attempts : ℕ
  pub next_attempt_at : ℕ
  pub last_error : Option String
  pub provider_response : Option Json
  pub provider_email_id : Option String
  pub provider_status : Option String
  pub provider_status_at : Option ℕ
  pub provider_detail : Option String
  pub created_at : ℕ
  pub updated_at : ℕ

pub record Delivery : Type 0 where
  pub id : String
  pub notification_id : String
  pub tenant_id : String
  pub recipient_user_id : String
  pub channel : Channel
  pub status : Status
  pub attempts : ℕ
  pub max_attempts : ℕ
  pub next_attempt_at : ℕ
  pub last_error : String
  pub provider_response : Option Json
  pub provider_status : String
  pub provider_status_at : Option ℕ
  pub created_at : ℕ
  pub updated_at : ℕ

unfoldable pub scan_delivery : DeliveryRow → Delivery
scan_delivery r = record {
  id = r.id;
  notification_id = r.notification_id;
  tenant_id = r.tenant_id;
  recipient_user_id = or_empty r.recipient_user_id;
  channel = r.channel;
  status = r.status;
  attempts = r.attempts;
  max_attempts = r.max_attempts;
  next_attempt_at = r.next_attempt_at;
  last_error = or_empty r.last_error;
  provider_response = r.provider_response;
  provider_status = or_empty r.provider_status;
  provider_status_at = r.provider_status_at;
  created_at = r.created_at;
  updated_at = r.updated_at;
}

-- The row that `Enqueue` inserts: `id` is the generated UUID, and the columns that the statement
-- does not name have the defaults of database/migrations/schema.sql.
unfoldable pub new_row : String → ℕ → String → String → String → Channel → Status → DeliveryRow
new_row id now notification_id tenant_id recipient_user_id channel status = record {
  id = id;
  notification_id = notification_id;
  tenant_id = tenant_id;
  recipient_user_id = null_if_empty recipient_user_id;
  channel = channel;
  status = status;
  attempts = 0;
  max_attempts = 5;
  next_attempt_at = now;
  last_error = none;
  provider_response = none;
  provider_email_id = none;
  provider_status = none;
  provider_status_at = none;
  provider_detail = none;
  created_at = now;
  updated_at = now;
}

unfoldable pub enqueue :
    Bool
    → String
    → ℕ
    → String
    → String
    → String
    → Channel
    → Status
    → List DeliveryRow
    → Result (List DeliveryRow × Delivery)
unfolding new_row scan_delivery
enqueue up id now notification_id tenant_id recipient_user_id channel status table =
    let row = new_row id now notification_id tenant_id recipient_user_id channel status in
    if up then ok (table ++ row ∷ [], scan_delivery row) else err "enqueue delivery"

-- Whether a row is in a status.
unfoldable pub in_status : Status → DeliveryRow → Bool
unfolding status_text
in_status s r = status_text r.status == status_text s

-- The condition of `ClaimPending`.
unfoldable pub is_pending_due : ℕ → DeliveryRow → Bool
unfolding in_status
is_pending_due now r = in_status pending r && leb r.next_attempt_at now

-- The condition of `ClaimDue`: retrying and due, or processing for the threshold or longer by the
-- service's clock.
unfoldable pub is_retry_due : ℕ → ℕ → ℕ → DeliveryRow → Bool
unfolding in_status
is_retry_due stale_after clock now r =
    (in_status retrying r && leb r.next_attempt_at now)
    || (in_status processing r && leb (r.updated_at + stale_after) clock)

-- The ids that the inner SELECT … ORDER BY created_at LIMIT … FOR UPDATE SKIP LOCKED picks;
-- `locked` are the rows that another transaction holds at that moment.
unfoldable pub due_ids : (DeliveryRow → Bool) → (String → Bool) → ℕ → List DeliveryRow → List String
due_ids due locked batch_size table =
    map (λ r. r.id)
      (take batch_size
        (order_by (λ r. r.created_at) (select (λ r. due r && not (locked r.id)) table)))

abbrev pub start_processing : ℕ → DeliveryRow → DeliveryRow
start_processing now r = record r { status = processing; updated_at = now }

-- The claim statement: the new table, and the rows that it returns.
unfoldable pub claim :
    (DeliveryRow → Bool)
    → (String → Bool)
    → ℕ
    → ℕ
    → List DeliveryRow
    → List DeliveryRow × List Delivery
unfolding due_ids scan_delivery
claim due locked batch_size now table =
    let ids = due_ids due locked batch_size table in
    let claimed = update (λ r. contains r.id ids) (start_processing now) table in
    (claimed, map scan_delivery (select (λ r. contains r.id ids) claimed))

unfoldable pub claim_pending :
    Bool → (String → Bool) → ℕ → ℕ → List DeliveryRow → Result (List DeliveryRow × List Delivery)
unfolding claim is_pending_due
claim_pending up locked batch_size now table =
    if up
    then ok (claim (is_pending_due now) locked batch_size now table)
    else err "claim deliveries"

unfoldable pub claim_due :
    Bool
    → (String → Bool)
    → ℕ
    → ℕ
    → ℕ
    → ℕ
    → List DeliveryRow
    → Result (List DeliveryRow × List Delivery)
unfolding claim is_retry_due
claim_due up locked batch_size stale_after clock now table =
    if up
    then ok (claim (is_retry_due stale_after clock now) locked batch_size now table)
    else err "claim deliveries"

abbrev pub minute : ℕ
minute = 60000000000

-- time.Duration(math.Pow(2, float64(attempts-1))): at 0 attempts the power is 0.5, cut to 0.
unfoldable pub pow_duration : ℕ → ℕ
pow_duration zero = 0
pow_duration (suc n) = 2 ^ n

-- The product wraps as an int64 does.
unfoldable pub backoff : ℕ → ℤ
unfolding pow_duration to_int64
backoff attempts =
    let d = to_int64 (minute * pow_duration attempts) in
    if ltℤ (pos (30 * minute)) d then pos (30 * minute) else d

-- UPDATE … WHERE id = $1
abbrev pub set_row : String → (DeliveryRow → DeliveryRow) → List DeliveryRow → List DeliveryRow
set_row id f = update (λ r. r.id == id) f

unfoldable pub sent_row : Option Json → String → ℕ → DeliveryRow → DeliveryRow
sent_row provider_response provider_email_id now r = record r {
  status = sent;
  provider_response = provider_response;
  provider_email_id = null_if_empty provider_email_id;
  updated_at = now;
}

unfoldable pub mark_sent :
    Bool → String → Option Json → String → ℕ → List DeliveryRow → Result (List DeliveryRow)
unfolding sent_row
mark_sent up id provider_response provider_email_id now table =
    if up
    then ok (set_row id (sent_row provider_response provider_email_id now) table)
    else err "mark delivery sent"

unfoldable pub skipped_row : Option Json → ℕ → DeliveryRow → DeliveryRow
skipped_row provider_response now r = record r {
  status = skipped;
  provider_response = provider_response;
  updated_at = now;
}

unfoldable pub mark_skipped :
    Bool → String → Option Json → ℕ → List DeliveryRow → Result (List DeliveryRow)
unfolding skipped_row
mark_skipped up id provider_response now table =
    if up
    then ok (set_row id (skipped_row provider_response now) table)
    else err "mark delivery skipped"

unfoldable pub retried_row : ℕ → String → Option Json → ℕ → ℕ → DeliveryRow → DeliveryRow
unfolding backoff
retried_row attempts last_error provider_response clock now r = record r {
  status = if leb max_attempts_allowed attempts then failed else retrying;
  attempts = attempts;
  next_attempt_at = add_duration clock (backoff attempts);
  last_error = some last_error;
  provider_response = provider_response;
  updated_at = now;
}

unfoldable pub mark_retrying :
    Bool → String → ℕ → String → Option Json → ℕ → ℕ → List DeliveryRow → Result (List DeliveryRow)
unfolding retried_row
mark_retrying up id attempts last_error provider_response clock now table =
    if up
    then ok (set_row id (retried_row attempts last_error provider_response clock now) table)
    else err "mark delivery retrying"

-- `MaxListByStatusLimit`
abbrev pub max_list_by_status_limit : ℕ
max_list_by_status_limit = 200

unfoldable pub list_limit : ℤ → ℕ
list_limit (pos n) =
    if leb n 0 || ltb max_list_by_status_limit n then max_list_by_status_limit else n
list_limit (negsuc n) = max_list_by_status_limit

abbrev pub later_update : DeliveryRow → DeliveryRow → Bool
later_update a b = ltb b.updated_at a.updated_at

-- The status is a text of the caller's.
unfoldable pub has_status_since : String → String → ℕ → DeliveryRow → Bool
unfolding status_text
has_status_since tenant_id status since r =
    r.tenant_id == tenant_id && status_text r.status == status && leb since r.updated_at

unfoldable pub list_by_status :
    Bool → String → String → ℕ → ℤ → List DeliveryRow → Result (List Delivery)
unfolding has_status_since list_limit scan_delivery
list_by_status up tenant_id status since limit table =
    if up
    then ok (
        map scan_delivery (
          take (list_limit limit)
            (sort_by later_update (select (has_status_since tenant_id status since) table))))
    else err "list deliveries by status"

unfoldable pub list_for_notification :
    Bool → String → String → List DeliveryRow → Result (List Delivery)
unfolding scan_delivery
list_for_notification up tenant_id notification_id table =
    if up
    then ok (
        map scan_delivery (
          order_by (λ r. r.created_at)
            (select (λ r. r.tenant_id == tenant_id && r.notification_id == notification_id) table)))
    else err "list deliveries for notification"
