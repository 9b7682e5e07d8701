-- ===== src/Audit/Outbox/Record.antt =====
-- What becomes of an audit event between `_audit_event` of src/postara/accounts.py and the table
-- `audit.events`: src/postara/repositories.py stores it as a dictionary and redacts that again.
use postara.Exec.{returned}
use postara.Prelude.{
  ℕ, String, refl, inl, inr, true, false, Option, none, some, Option-cases, ◌≡◌, ◌∙◌,
}
use postara.Audit.{
  Fields, text, object, Python, AuditEvent, redacted, text_or_null, number_or_null, or_end, lookup,
  record_fields, sanitize_extra, sanitize_fields, to_record, is_sensitive,
}
use postara.Audit.Redaction.{sanitize_extra-fixed}
use postara.Audit.Outbox.{AuditEventOrm, dictionary, event_row, append_row, audit_record, or_now}

-- The row that an event should give: all it says, with `extra` redacted.
abbrev pub faithful_row : Python → ℕ → AuditEvent → AuditEventOrm
faithful_row p now e = record {
  timestamp = or_now now e.timestamp;
  actor_type = text e.actor_type;
  actor_id = text_or_null e.actor_id;
  client_ip = text e.client_ip;
  user_agent = text e.user_agent;
  action = text e.action;
  target_account_id = number_or_null e.target_account_id;
  status = text e.status;
  extra = object (sanitize_fields p (or_end e.extra));
  request_id = text e.request_id;
}

abbrev pub delivered_row : Python → ℕ → AuditEvent → AuditEventOrm
delivered_row p now e = record (faithful_row p now e) { actor_type = redacted; actor_id = redacted }

-- The keys of an event's record that `_is_sensitive` takes for secrets: those with "to" in them.
record_keys :
    (p : Python)
    → (is_sensitive p "actor_type" ≡ true)
      × (is_sensitive p "actor_id" ≡ true)
      × (is_sensitive p "action" ≡ false)
unfolding is_sensitive
record_keys p = (refl, refl, refl)

sanitize-text_or_null :
    (p : Python) (o : Option String) → sanitize_extra p (text_or_null o) ≡ text_or_null o
unfolding sanitize_extra
sanitize-text_or_null p none = refl
sanitize-text_or_null p (some s) = refl

sanitize-number_or_null :
    (p : Python) (o : Option ℕ) → sanitize_extra p (number_or_null o) ≡ number_or_null o
unfolding sanitize_extra
sanitize-number_or_null p none = refl
sanitize-number_or_null p (some n) = refl

sanitize_object_twice :
    (p : Python) (fs : Fields)
    → object (sanitize_fields p (sanitize_fields p fs)) ≡ object (sanitize_fields p fs)
unfolding sanitize_extra
sanitize_object_twice p fs = (sanitize_extra-fixed p (object fs)).1

sanitize_object_thrice :
    (p : Python) (fs : Fields)
    → object (sanitize_fields p (sanitize_fields p (sanitize_fields p fs)))
      ≡ object (sanitize_fields p fs)
sanitize_object_thrice p fs =
    sanitize_object_twice p (sanitize_fields p fs) ∙ sanitize_object_twice p fs

record_row :
    (p : Python) (later : ℕ) (e : AuditEvent) (t : ℕ)
    → append_row p later (
        dictionary (
          record_fields p
            (record e { timestamp = some t; extra = some (sanitize_fields p (or_end e.extra)) })))
      ≡ returned (record (delivered_row p t e) { timestamp = t })
unfolding append_row audit_record sanitize_extra is_sensitive event_row lookup record_fields
record_row p later e t =
    rw
      (
        p.from_iso t,
        sanitize-number_or_null p e.target_account_id,
        sanitize_object_thrice p (or_end e.extra),
      )
      refl

-- The row that `dispatch_audit_outbox` adds to `audit.events` for an event that
-- `AuditOutboxRepository.enqueue` stored has the event's time, address, agent, action, target,
-- status, request and redacted `extra`; but it never has the actor: `actor_type` and
-- `actor_id` both hold the mark "[REDACTED]", since "to" is in "actor".
pub append_row-to_record :
    (p : Python) (now later : ℕ) (e : AuditEvent)
    → append_row p later (dictionary (to_record p now e)) ≡ returned (delivered_row p now e)
unfolding to_record
append_row-to_record p now later e = elim (Option-cases e.timestamp) [
  | inl h ↦ rw h (record_row p later e now)
  | inr (t, h) ↦ rw h (record_row p later e t)
]
