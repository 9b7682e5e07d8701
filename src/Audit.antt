-- ===== src/Audit.antt =====
-- src/postara/audit.py: audit events and their redaction. A value of the dynamic language is a
-- `Value`; the dictionary of an event is one of its cases, and its keys are texts. A value of a type
-- that `sanitize_extra` does not look into (a tuple, a set, a fraction, a number below zero) is an
-- `other`: its truth value, its type and text, and the values it holds.
pub mod Redaction
pub mod Outbox
use postara.Prelude.{
  ℕ, String, Bool, Option, none, some, List, [], any, ◌≡◌, ◌∷◌, ◌++◌, if◌then◌else◌, ◌==◌,
  string_eq,
}
use postara.Text.{Unicode, lower, contains}

mutual
  pub data Value : Type 0 where
    null : Value
    boolean : Bool → Value
    number : ℕ → Value
    text : String → Value
    instant : ℕ → Value
    array : Items → Value
    object : Fields → Value
    other : Bool → String → Items → Value

  pub data Items : Type 0 where
    nil : Items
    cons : Value → Items → Items

  pub data Fields : Type 0 where
    end : Fields
    field : String → Value → Fields → Fields

-- What the interpreter supplies: the Unicode tables, and `datetime` from and to ISO text.
pub record Python : Type 0 where
  pub unicode : Unicode
  pub isoformat : ℕ → String
  pub fromisoformat : String → Option ℕ
  pub from_iso : (t : ℕ) → fromisoformat (isoformat t) ≡ some t

abbrev pub sensitive_prefixes : List String
sensitive_prefixes =
    "password" ∷ "token" ∷ "key" ∷ "secret" ∷ "credential" ∷ "body" ∷ "content" ∷ "html" ∷ "subject"
    ∷ "from" ∷ "to" ∷ "recipient" ∷ "sender" ∷ "snippet" ∷ "attachment" ∷ "filename" ∷ []

unfoldable pub is_sensitive : Python → String → Bool
unfolding contains lower
is_sensitive p key = any (contains (lower p.unicode key)) sensitive_prefixes

abbrev pub redacted : Value
redacted = text "[REDACTED]"

unfoldable mutual
  pub sanitize_extra : Python → Value → Value
  sanitize_extra p null = null
  sanitize_extra p (boolean b) = boolean b
  sanitize_extra p (number n) = number n
  sanitize_extra p (text s) = text s
  sanitize_extra p (instant t) = text (p.isoformat t)
  sanitize_extra p (array xs) = array (sanitize_items p xs)
  sanitize_extra p (object fs) = object (sanitize_fields p fs)
  sanitize_extra p (other truth name held) = other truth name held

  pub sanitize_items : Python → Items → Items
  sanitize_items p nil = nil
  sanitize_items p (cons x xs) = cons (sanitize_extra p x) (sanitize_items p xs)

  pub sanitize_fields : Python → Fields → Fields
  sanitize_fields p end = end
  sanitize_fields p (field key item fs) =
      field key (if is_sensitive p key then redacted else sanitize_extra p item)
        (sanitize_fields p fs)

-- `extra` is always a dictionary, and `None` stands for the empty one.
pub record AuditEvent : Type 0 where
  pub action : String
  pub actor_type : String
  pub actor_id : Option String
  pub status : String
  pub request_id : String
  pub client_ip : String
  pub user_agent : String
  pub target_account_id : Option ℕ
  pub extra : Option Fields
  pub timestamp : Option ℕ

abbrev pub or_end : Option Fields → Fields
or_end none = end
or_end (some fs) = fs

unfoldable pub sanitized : Python → ℕ → AuditEvent → AuditEvent
sanitized p now e = record e {
  timestamp = elim e.timestamp [ none ↦ some now | some t ↦ some t ];
  extra = some (sanitize_fields p (or_end e.extra));
}

abbrev pub text_or_null : Option String → Value
text_or_null none = null
text_or_null (some s) = text s

abbrev pub number_or_null : Option ℕ → Value
number_or_null none = null
number_or_null (some n) = number n

abbrev pub iso_or_null : Python → Option ℕ → Value
iso_or_null p none = null
iso_or_null p (some t) = text (p.isoformat t)

unfoldable pub record_fields : Python → AuditEvent → Fields
record_fields p e = field "timestamp" (iso_or_null p e.timestamp) (
    field "action" (text e.action) (
      field "actor_type" (text e.actor_type) (
        field "actor_id" (text_or_null e.actor_id) (
          field "client_ip" (text e.client_ip) (
            field "user_agent" (text e.user_agent) (
              field "request_id" (text e.request_id) (
                field "target_account_id" (number_or_null e.target_account_id) (
                  field "status" (text e.status)
                    (field "extra" (object (or_end e.extra)) end)))))))))

-- `now` is what `sanitized` reads for an event that has no time.
unfoldable pub to_record : Python → ℕ → AuditEvent → Fields
unfolding sanitized
to_record p now e = record_fields p (sanitized p now e)

-- `event.get(key)`; of two equal keys the later would win, and `to_record` writes none twice.
unfoldable pub lookup : String → Fields → Option Value
lookup key end = none
lookup key (field k v fs) = if k == key then some v else lookup key fs

-- The in-memory outbox.
pub record AuditOutboxItem : Type 0 where
  pub event : AuditEvent
  pub created_at : ℕ
  pub delivered_at : Option ℕ
  pub delivery_attempts : ℕ
  pub last_error : Option String

unfoldable pub enqueue : Python → ℕ → ℕ → AuditEvent → List AuditOutboxItem → List AuditOutboxItem
enqueue p now later e pending =
    pending
    ++ record {
      event = sanitized p now e;
      created_at = later;
      delivered_at = none;
      delivery_attempts = 0;
      last_error = none;
    }
      ∷ []
