-- ===== src/Api/Bodies.antt =====
-- The bodies of the responses of src/postara/api.py, with the `to_dto` methods of src/postara/users.py
-- and src/postara/accounts.py.
use postara.Prelude.{ℕ, String, Option, none, some, List, [], ◌∷◌}
use postara.Text.{◌<>◌}
use postara.Audit.{
  Value, Fields, Items, Python, null, boolean, number, text, array, object, nil, cons, field, end,
}
use postara.Users.{UserRecord, ApiKeyRecord}
use postara.Accounts.{AccountRecord}
use postara.Providers.{Folder, Message, MessageSummary, Attachment}

abbrev pub or_null : Option String → Value
or_null none = null
or_null (some s) = text s

abbrev pub number_or_null : Option ℕ → Value
number_or_null none = null
number_or_null (some n) = number n

abbrev pub all_texts : List String → Items
all_texts [] = nil
all_texts (s ∷ rest) = cons (text s) (all_texts rest)

-- `[f(x) for x in xs]`
abbrev pub each : {A : Type 0} → (A → Value) → List A → Items
each f [] = nil
each f (x ∷ xs) = cons (f x) (each f xs)

module _ (p : Python) where
  abbrev pub time_or_null : Option ℕ → Value
  time_or_null none = null
  time_or_null (some t) = text (p.isoformat t)

  unfoldable pub user_dto : UserRecord → Value
  user_dto u = object (
      field "id" (number u.id) (
        field "email" (text u.email) (
          field "name" (text u.name) (
            field "role" (text u.role) (
              field "created_at" (text (p.isoformat u.created_at)) (
                field "last_login_at" (time_or_null u.last_login_at)
                  (field "disabled_at" (time_or_null u.disabled_at) end)))))))

  abbrev pub key_status : Option ℕ → String
  key_status none = "active"
  key_status (some _) = "disabled"

  unfoldable pub key_dto : ApiKeyRecord → Value
  key_dto k = object (
      field "id" (number k.id) (
        field "user_id" (number k.user_id) (
          field "mailbox_id" (number_or_null k.mailbox_id) (
            field "scopes" (array (all_texts k.scopes)) (
              field "name" (text k.name) (
                field "prefix" (text k.prefix) (
                  field "status" (text (key_status k.revoked_at)) (
                    field "created_at" (text (p.isoformat k.created_at)) (
                      field "last_used_at" (time_or_null k.last_used_at) (
                        field "disabled_at" (time_or_null k.revoked_at)
                          (field "revoked_at" (time_or_null k.revoked_at) end)))))))))))

  -- The fields of `AccountRecord.to_dto`, in front of others.
  unfoldable pub account_fields : AccountRecord → Fields → Fields
  account_fields a rest = field "id" (number a.id) (
      field "user_id" (number_or_null a.user_id) (
        field "name" (text a.name) (
          field "email" (text a.email) (
            field "provider" (text a.provider) (
              field "auth_type" (text a.auth_type) (
                field "imap_host" (text a.imap_host) (
                  field "imap_port" (number a.imap_port) (
                    field "api_key_prefix" (text a.api_key_prefix) (
                      field "created_at" (text (p.isoformat a.created_at)) (
                        field "last_used_at" (time_or_null a.last_used_at) (
                          field "health"
                            (object (
                              field "status" (text a.health_status) (
                                field "checked_at" (time_or_null a.health_checked_at)
                                  (field "detail" (or_null a.health_detail) end))))
                            rest)))))))))))

  abbrev pub account_dto : AccountRecord → Value
  account_dto a = object (account_fields a end)

  unfoldable pub mailbox_discovery_body : (String → String) → AccountRecord → Value
  mailbox_discovery_body quote a =
      object (account_fields a (field "api_path" (text ("/mailboxes/" <> quote a.name)) end))

  unfoldable pub message_summary_body : MessageSummary → Value
  message_summary_body m = object (
      field "uid" (text m.uid) (
        field "subject" (or_null m.subject) (
          field "from_address" (or_null m.from_address) (
            field "date" (time_or_null m.date) (
              field "seen" (boolean m.seen)
                (field "has_attachments" (boolean m.has_attachments) end))))))

  abbrev pub attachment_body : Attachment → Value
  attachment_body a = object (
      field "filename" (or_null a.filename)
        (field "content_type" (or_null a.content_type) (field "size" (number_or_null a.size) end)))

  unfoldable pub message_body : Message → Value
  message_body m = object (
      field "uid" (text m.uid) (
        field "subject" (or_null m.subject) (
          field "from_address" (or_null m.from_address) (
            field "date" (time_or_null m.date) (
              field "text" (or_null m.text) (
                field "html" (or_null m.html) (
                  field "seen" (boolean m.seen)
                    (field "attachments" (array (each attachment_body m.attachments)) end))))))))

  abbrev pub folder_body : Folder → Value
  folder_body f = object (
      field "semantic_name" (text f.semantic_name) (
        field "native_name" (text f.native_name)
          (field "delimiter" (text f.delimiter) (field "flags" (array (all_texts f.flags)) end))))
