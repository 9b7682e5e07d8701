-- ===== src/Audit/Outbox.antt =====
-- The transactional outbox of src/postara/repositories.py: `AuditOutboxRepository`,
-- `AuditRepository` and `dispatch_audit_outbox`, over the tables `app.audit_outbox` and
-- `audit.events` of src/postara/models.py.
pub mod Record
pub mod Delivery
pub mod Purge
use postara.Errors.{value_error, key_error, type_error, database_error}
use postara.Exec.{Outcome, returned, raised, Exec, pure, ◌>>=◌, ◌>>◌}
use postara.Prelude.{
  ℕ, zero, String, Bool, true, false, not, Option, none, some, List, [], is_some, take, filter, ◌+◌,
  ◌∷◌, ◌++◌, if◌then◌else◌, ◌==◌, nat_eq, string_eq,
}
use postara.Audit.{
  Value, Fields, null, boolean, number, text, instant, array, object, other, nil, end, field,
  lookup, Python, AuditEvent, sanitize_extra, sanitize_fields, to_record,
}
use postara.Dict
use postara.Dict.{Dict, values}

pub record AuditOutboxOrm : Type 0 where
  pub id : ℕ
  pub event : Fields
  pub created_at : ℕ
  pub delivered_at : Option ℕ
  pub delivery_attempts : ℕ
  pub last_error : Option Value

-- A column holds what the dictionary holds: nothing coerces it before the database does.
pub record AuditEventOrm : Type 0 where
  pub timestamp : ℕ
  pub actor_type : Value
  pub actor_id : Value
  pub client_ip : Value
  pub user_agent : Value
  pub action : Value
  pub target_account_id : Value
  pub status : Value
  pub extra : Value
  pub request_id : Value

pub record Databases : Type 0 where
  pub outbox : Dict ℕ AuditOutboxOrm
  pub events : List AuditEventOrm

-- `dict[str, Any] | AuditEvent`
pub data EventLike : Type 0 where
  event_object : AuditEvent → EventLike
  dictionary : Fields → EventLike

unfoldable pub audit_record : Python → ℕ → EventLike → Fields
audit_record p now (event_object e) = to_record p now e
audit_record p now (dictionary fs) = sanitize_fields p fs

-- `_parse_datetime(event.get("timestamp"))`
unfoldable pub parse_datetime : Python → Option Value → Outcome (Option ℕ)
parse_datetime p none = returned none
parse_datetime p (some null) = returned none
parse_datetime p (some (instant t)) = returned (some t)
parse_datetime p (some (text s)) = elim (p.fromisoformat s) [
  | none ↦ raised value_error
  | some t ↦ returned (some t)
]
parse_datetime p (some _) = raised type_error

-- `event[key]`
unfoldable pub item : String → Fields → Outcome Value
item key fs = elim (lookup key fs) [ none ↦ raised key_error | some v ↦ returned v ]

-- `event.get(key)` as a column.
abbrev pub get_value : String → Fields → Value
get_value key fs = elim (lookup key fs) [ none ↦ null | some v ↦ v ]

-- `value or {}`
unfoldable pub or_empty : Value → Value
or_empty null = object end
or_empty (boolean false) = object end
or_empty (number zero) = object end
or_empty (text s) = if s == "" then object end else text s
or_empty (array nil) = object end
or_empty (other false name held) = object end
or_empty v = v

infixl 12 ◌and_then◌
abbrev pub ◌and_then◌ {ℓ κ} : {A : Type ℓ} {B : Type κ} → Outcome A → (A → Outcome B) → Outcome B
returned a and_then f = f a
raised e and_then f = raised e

abbrev pub or_now : ℕ → Option ℕ → ℕ
or_now now none = now
or_now now (some t) = t

-- The row that `AuditRepository.append` adds, or the exception before it.
unfoldable pub event_row : Python → ℕ → Fields → Outcome AuditEventOrm
unfolding item parse_datetime or_empty
event_row p now fs = parse_datetime p (lookup "timestamp" fs) and_then λ timestamp.
    item "actor_type" fs and_then λ actor_type. item "client_ip" fs and_then λ client_ip.
    item "user_agent" fs and_then λ user_agent. item "action" fs and_then λ action.
    item "status" fs and_then λ status. item "request_id" fs and_then λ request_id.
    returned (record {
      timestamp = or_now now timestamp;
      actor_type = actor_type;
      actor_id = get_value "actor_id" fs;
      client_ip = client_ip;
      user_agent = user_agent;
      action = action;
      target_account_id = get_value "target_account_id" fs;
      status = status;
      extra = sanitize_extra p (or_empty (get_value "extra" fs));
      request_id = request_id;
    })

-- `AuditRepository.append`
unfoldable pub append_row : Python → ℕ → EventLike → Outcome AuditEventOrm
append_row p now e = event_row p now (audit_record p now e)

-- `AuditOutboxRepository.enqueue`; `id` is the key that the database gives.
unfoldable pub enqueue : Python → ℕ → ℕ → EventLike → Dict ℕ AuditOutboxOrm → Dict ℕ AuditOutboxOrm
enqueue p id now e outbox = Dict.put outbox id (record {
  id = id;
  event = audit_record p now e;
  created_at = now;
  delivered_at = none;
  delivery_attempts = 0;
  last_error = none;
})

-- The rows come in the order of their ids.
unfoldable pub list_pending : ℕ → Dict ℕ AuditOutboxOrm → List AuditOutboxOrm
list_pending limit outbox =
    take limit (filter (λ row. not (is_some row.delivered_at)) (values outbox))

-- `update … where id == outbox_id`
abbrev pub update_row :
    ℕ
    → (AuditOutboxOrm → AuditOutboxOrm)
    → Option AuditOutboxOrm
    → Dict ℕ AuditOutboxOrm
    → Dict ℕ AuditOutboxOrm
update_row id change none outbox = outbox
update_row id change (some row) outbox = Dict.put outbox id (change row)

abbrev pub set_delivered : ℕ → AuditOutboxOrm → AuditOutboxOrm
set_delivered now row = record row { delivered_at = some now; last_error = none }

unfoldable pub mark_delivered : ℕ → ℕ → Dict ℕ AuditOutboxOrm → Dict ℕ AuditOutboxOrm
mark_delivered now id outbox = update_row id (set_delivered now) (Dict.get outbox id) outbox

-- `sanitize_extra({"error": error})["error"]`
abbrev pub error_value : Python → String → Option Value
error_value p error = lookup "error" (sanitize_fields p (field "error" (text error) end))

abbrev pub set_failed : Python → String → AuditOutboxOrm → AuditOutboxOrm
set_failed p error row = record row {
  delivery_attempts = row.delivery_attempts + 1;
  last_error = error_value p error;
}

unfoldable pub mark_failed : Python → String → ℕ → Dict ℕ AuditOutboxOrm → Dict ℕ AuditOutboxOrm
mark_failed p error id outbox = update_row id (set_failed p error) (Dict.get outbox id) outbox

-- What befalls the delivery of one row: the clock, the text of an exception, and which of its
-- three transactions the databases let through.
pub record Conditions : Type 0 where
  pub now : ℕ
  pub error : String
  pub audit_up : Bool
  pub mark_up : Bool
  pub fail_up : Bool

-- The handler of `except Exception`.
unfoldable pub handle_failure : Python → Conditions → ℕ → Exec Databases Bool
handle_failure p c id d =
    if c.fail_up
    then (returned false, record d { outbox = mark_failed p c.error id d.outbox })
    else (raised database_error, d)

abbrev pub deliver_row : Python → Conditions → ℕ → Outcome AuditEventOrm → Exec Databases Bool
deliver_row p c id (raised e) d = handle_failure p c id d
deliver_row p c id (returned row) d =
    if c.audit_up
    then (let logged : Databases = record d { events = d.events ++ row ∷ [] } in
        if c.mark_up
        then (returned true, record logged { outbox = mark_delivered c.now id logged.outbox })
        else handle_failure p c id logged)
    else handle_failure p c id d

-- The body of the loop: true when the row was delivered.
unfoldable pub dispatch_item : Python → Conditions → AuditOutboxOrm → Exec Databases Bool
dispatch_item p c row = deliver_row p c row.id (append_row p c.now (dictionary row.event))

unfoldable pub dispatch_items :
    Python → (ℕ → Conditions) → List AuditOutboxOrm → ℕ → Exec Databases ℕ
dispatch_items p conditions [] delivered = pure delivered
dispatch_items p conditions (row ∷ rows) delivered = do
  done ← dispatch_item p (conditions row.id) row
  dispatch_items p conditions rows (if done then delivered + 1 else delivered)

unfoldable pub dispatch_audit_outbox : Python → (ℕ → Conditions) → ℕ → Exec Databases ℕ
dispatch_audit_outbox p conditions limit d =
    dispatch_items p conditions (list_pending limit d.outbox) 0 d
