-- ===== src/Tests/Events.antt =====
-- Audit events, src/postara/audit.py and src/postara/repositories.py, and encrypted credentials,
-- src/postara/crypto.py, on examples.
use postara.Exec.{returned}
use postara.Prelude.{ℕ, refl, true, false, none, some, [], arith, ◌≡◌, ◌↔◌, ◌∷◌}
use mathlib.Core.Option
use postara.Tests.{python, library}
use postara.Audit.{
  Fields, text, instant, object, array, cons, nil, end, field, AuditEvent, sanitize_extra,
  sanitize_fields, to_record, lookup,
}
use postara.Audit.Redaction.{
  IsClean, sanitize_extra-IsClean, sanitize_extra-fixed, lookup-sanitize_fields, sanitize_under,
}
use postara.Audit.Outbox.{
  AuditOutboxOrm, Databases, Conditions, dictionary, append_row, dispatch_audit_outbox,
}
use postara.Audit.Outbox.Record.{delivered_row, append_row-to_record}
use postara.Audit.Outbox.Delivery.{NoLoss, dispatch_audit_outbox-NoLoss}
use postara.Crypto.{CredentialCipher, EncryptedCredential, encrypt, decrypt, decrypt-encrypt}
use postara.Dict
use postara.Dict.{Dict}

abbrev extra : Fields
extra =
    field "mailbox" (object (field "password" (text "hunter2") end))
      (field "seen" (array (cons (instant 3) nil)) end)

sanitize_extra-IsClean_example : IsClean python (sanitize_extra python (object extra))
sanitize_extra-IsClean_example = sanitize_extra-IsClean python (object extra)

sanitize_extra-fixed_example :
    ((sanitize_extra python (object extra) ≡ object extra) ↔ IsClean python (object extra))
    × (sanitize_extra python (sanitize_extra python (object extra))
        ≡ sanitize_extra python (object extra))
sanitize_extra-fixed_example = sanitize_extra-fixed python (object extra)

lookup-sanitize_fields_example :
    lookup "seen" (sanitize_fields python extra)
    ≡ Option.map (sanitize_under python "seen") (lookup "seen" extra)
lookup-sanitize_fields_example = lookup-sanitize_fields python "seen" extra

abbrev event : AuditEvent
event = record {
  action = "mailbox.created";
  actor_type = "user";
  actor_id = some "7";
  status = "success";
  request_id = "r1";
  client_ip = "10.0.0.1";
  user_agent = "agent";
  target_account_id = some 3;
  extra = some extra;
  timestamp = none;
}

append_row-to_record_example :
    append_row python 9 (dictionary (to_record python 5 event))
    ≡ returned (delivered_row python 5 event)
append_row-to_record_example = append_row-to_record python 5 9 event

abbrev pending : AuditOutboxOrm
pending = record {
  id = 1;
  event = to_record python 5 event;
  created_at = 5;
  delivered_at = none;
  delivery_attempts = 0;
  last_error = none;
}

abbrev databases : Databases
databases = record { outbox = (1, pending) ∷ []; events = [] }

-- The row reaches the log, and the mark does not reach the outbox.
abbrev half_down : ℕ → Conditions
half_down id = record { now = 9; error = "lost"; audit_up = true; mark_up = false; fail_up = true }

databases-NoLoss : NoLoss python databases
unfolding Dict.get
databases-NoLoss i row held marked = ground arith

dispatch_audit_outbox-NoLoss_example :
    NoLoss python (dispatch_audit_outbox python half_down 100 databases).1
unfolding Dict.get
dispatch_audit_outbox-NoLoss_example =
    dispatch_audit_outbox-NoLoss python half_down 100 databases ((refl, tt), (refl, tt))
      databases-NoLoss

abbrev old_cipher : CredentialCipher
old_cipher = record { keys = (1, "first") ∷ []; active_version = 1 }

abbrev new_cipher : CredentialCipher
new_cipher = record { keys = (1, "first") ∷ (2, "second") ∷ []; active_version = 2 }

abbrev sealed : EncryptedCredential
sealed = record { ciphertext = "firstsecret"; key_version = 1 }

decrypt-encrypt_example :
    (decrypt library {S = Unit {0}} new_cipher "firstsecret" 1 tt).0 ≡ returned "secret"
unfolding encrypt Dict.get
decrypt-encrypt_example = decrypt-encrypt library old_cipher new_cipher 0 "secret" sealed refl refl
