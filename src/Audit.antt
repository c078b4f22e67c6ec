-- ===== src/Audit.antt =====
-- audit/types.go and audit/store.go: the tenant's trail of who did what.
pub mod Recorder
pub mod Trail
use stonesuite_notify.Base.{
  ℕ, String, Bool, true, false, ◌&&◌, ◌||◌, ◌==◌, Option, none, some, List, [], ◌∷◌, ◌++◌, map,
  if◌then◌else◌, leb, ltb, all, length, take, drop, select, sort_by, or_empty, null_if_empty,
  column_is, Result, ok, err,
}
use stonesuite_notify.Base.Int.{ℤ, pos, negsuc}
use stonesuite_notify.Base.Json.{Json}

pub record Entry : Type 0 where
  pub id : String
  pub tenant_id : String
  pub actor_user_id : String
  pub actor_type : String
  pub action : String
  pub resource : String
  pub resource_id : String
  pub metadata : Option Json
  pub ip_address : String
  pub user_agent : String
  pub created_at : ℕ

-- A row of notification_audit_logs.
pub record EntryRow : Type 0 where
  pub id : String
  pub tenant_id : String
  pub actor_user_id : Option String
  pub actor_type : String
  pub action : String
  pub resource : String
  pub resource_id : String
  pub metadata : Option Json
  pub ip_address : String
  pub user_agent : String
  pub created_at : ℕ

pub record Filter : Type 0 where
  pub action : String
  pub actor_user_id : String
  pub resource : String
  pub resource_id : String
  pub from : Option ℕ
  pub until : Option ℕ
  pub limit : ℤ
  pub offset : ℤ

abbrev pub default_limit : ℕ
default_limit = 50

abbrev pub max_limit : ℕ
max_limit = 200

unfoldable pub clamp_limit : ℤ → ℕ
clamp_limit (pos n) = if leb n 0 || ltb max_limit n then default_limit else n
clamp_limit (negsuc n) = default_limit

unfoldable pub clamp_offset : ℤ → ℕ
clamp_offset (pos n) = n
clamp_offset (negsuc n) = 0

-- The limit and the offset of the filter, clamped.
unfoldable pub normalize : Filter → ℕ × ℕ
unfolding clamp_limit clamp_offset
normalize f = (clamp_limit f.limit, clamp_offset f.offset)

unfoldable pub scan_entry : EntryRow → Entry
scan_entry r = record {
  id = r.id;
  tenant_id = r.tenant_id;
  actor_user_id = or_empty r.actor_user_id;
  actor_type = r.actor_type;
  action = r.action;
  resource = r.resource;
  resource_id = r.resource_id;
  metadata = r.metadata;
  ip_address = r.ip_address;
  user_agent = r.user_agent;
  created_at = r.created_at;
}

-- The row that `Record` inserts; the database gives it its id and its time.
unfoldable pub entry_row : String → ℕ → Entry → EntryRow
entry_row id now e = record {
  id = id;
  tenant_id = e.tenant_id;
  actor_user_id = null_if_empty e.actor_user_id;
  actor_type = if e.actor_type == "" then "user" else e.actor_type;
  action = e.action;
  resource = e.resource;
  resource_id = e.resource_id;
  metadata = e.metadata;
  ip_address = e.ip_address;
  user_agent = e.user_agent;
  created_at = now;
}

unfoldable pub record_entry : Bool → String → ℕ → Entry → List EntryRow → Result (List EntryRow)
unfolding entry_row
record_entry up id now e table =
    if up then ok (table ++ entry_row id now e ∷ []) else err "record audit entry"

abbrev pub Condition : Type 0
Condition = EntryRow → Bool

-- `if f.X != "" { addCondition(…) }`
abbrev pub add_text : String → Condition → List Condition → List Condition
add_text v c conditions = if v == "" then conditions else conditions ++ c ∷ []

abbrev pub add_time : Option ℕ → (ℕ → Condition) → List Condition → List Condition
add_time none c conditions = conditions
add_time (some t) c conditions = conditions ++ c t ∷ []

-- The conditions of the query, in the order in which they are added; SQL joins them by AND.
unfoldable pub conditions_of : String → Filter → List Condition
conditions_of tenant_id f =
    add_time f.until (λ t r. leb r.created_at t)
      (add_time f.from (λ t r. leb t r.created_at)
        (add_text f.resource_id (λ r. r.resource_id == f.resource_id)
          (add_text f.resource (λ r. r.resource == f.resource)
            (add_text f.actor_user_id (λ r. column_is r.actor_user_id f.actor_user_id)
              (add_text f.action (λ r. r.action == f.action)
                ((λ r. r.tenant_id == tenant_id) ∷ []))))))

abbrev pub meets : List Condition → Condition
meets conditions r = all (λ c. c r) conditions

abbrev pub newer : EntryRow → EntryRow → Bool
newer a b = ltb b.created_at a.created_at

-- The flags say whether the count and the query succeed.
unfoldable pub list : Bool → Bool → String → Filter → List EntryRow → Result (List Entry × ℕ)
unfolding normalize conditions_of scan_entry
list up up' tenant_id f table =
    let (limit, offset) = normalize f in
    let matching = select (meets (conditions_of tenant_id f)) table in
    if up
    then (if up'
        then ok
            (map scan_entry (take limit (drop offset (sort_by newer matching))), length matching)
        else err "list audit entries")
    else err "count audit entries"
