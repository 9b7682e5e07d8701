-- ===== src/Api/Messages.antt =====
-- The folders and messages of a mailbox: the routes under /mailboxes/{mailbox_name} of
-- src/postara/api.py.
use postara.Errors.{
  account_not_found, reconnect_required_credentials_missing,
  reconnect_required_oauth_refresh_failed, unsupported_provider_feature, message_not_found,
  not_implemented, Error,
}
use postara.Exec.{Outcome, raised, pure, raise, lift, ◌>>=◌, ◌>>◌}
use postara.Prelude.{
  ℕ, String, Bool, Option, none, some, List, [], ltb, length, ◌∷◌, if◌then◌else◌, nat_eq, string_eq,
}
use postara.Audit.{Value, null, boolean, number, array, text, field, end}
use postara.Accounts.{AccountRecord}
use postara.Accounts.Service
use postara.Providers.{MessageQuery, MessageSummary, Message}
use postara.Providers.Decimal.{show}
use postara.Providers.Gmail.{unsupported, validate_query}
use postara.Providers.Registry
use postara.Providers.Registry.{Adapter, gmail_adapter, icloud_adapter, outlook_adapter}
use postara.Api.{
  App, Request, Moment, Response, error_response, error_with, ok, audit_context, named_context,
  is_provider_error, on_mailboxes, on_mail, guarded, try_except,
}
use postara.Api.Access.{Route, bearer, require_mailbox_access}
use postara.Api.Mailboxes.{account_missing}
use postara.Api.Bodies.{all_texts, each, folder_body, message_summary_body, message_body}

abbrev pub last_uid : List MessageSummary → Option String
last_uid [] = none
last_uid (m ∷ []) = some m.uid
last_uid (_ ∷ m ∷ rest) = last_uid (m ∷ rest)

unfoldable pub next_cursor : List MessageSummary → ℕ → Option String
next_cursor messages limit = if ltb (length messages) limit then none else last_uid messages

abbrev pub cursor_value : Option String → Value
cursor_value none = null
cursor_value (some cursor) = text cursor

abbrev pub reconnect_required : Request → Response
reconnect_required request =
    error_response request 409 "mailbox_reconnect_required"
      "Mailbox must be reconnected before provider requests can continue."

abbrev pub message_missing : Request → Response
message_missing request = error_response request 404 "message_not_found" "Message not found."

abbrev pub provider_failed : Request → Response
provider_failed request =
    error_response request 502 "provider_error" "Mailbox provider request failed."

abbrev pub unsupported_feature : MessageQuery → Request → Response
unsupported_feature q request =
    error_with request 400 "unsupported_provider_feature"
      "The provider does not support one or more requested filters."
      (field "fields" (array (all_texts (unsupported q))) end)

-- `validate_query` by the class of the adapter.
unfoldable pub validate_for : MessageQuery → Adapter → Outcome (Unit {0})
validate_for q gmail_adapter = validate_query q
validate_for q icloud_adapter = raised not_implemented
validate_for q outlook_adapter = raised not_implemented

abbrev pub caller_type : Request → String
caller_type request = elim (bearer request.authorization) [ none ↦ "api_key" | some _ ↦ "user" ]

-- `str(account.user_id)`
abbrev pub owner_text : AccountRecord → String
owner_text account = elim account.user_id [ none ↦ "None" | some id ↦ show id ]

module _ (app : App) (a : Moment) where
  -- The handlers that the four routes share.
  abbrev pub after_message : Request → Error → Route app a Response
  after_message request account_not_found = pure (account_missing request)
  after_message request reconnect_required_credentials_missing = pure (reconnect_required request)
  after_message request reconnect_required_oauth_refresh_failed = pure (reconnect_required request)
  after_message request message_not_found = pure (message_missing request)
  after_message request e = if is_provider_error e then pure (provider_failed request) else raise e

  -- `list_mailbox_folders` has no handler of `MessageNotFoundError`, which is a `ProviderError`.
  abbrev pub after_folders : Request → Error → Route app a Response
  after_folders request message_not_found = pure (provider_failed request)
  after_folders request e = after_message request e

  abbrev pub after_list : MessageQuery → Request → Error → Route app a Response
  after_list q request unsupported_provider_feature = pure (unsupported_feature q request)
  after_list q request e = after_message request e

  unfoldable pub list_mailbox_folders : String → Request → Route app a Response
  list_mailbox_folders mailbox_name request =
      try_except
        (guarded (require_mailbox_access app a request mailbox_name "read") λ account. do
          credential ←
              on_mailboxes
                (Service.get_credential_for_runtime app.accounts (a.account 0) account.id)
          folders ← on_mail (app.runtime.list_folders account credential)
          pure (
              ok 200 (
                field "mailbox_id" (number account.id) (
                  field "mailbox_name" (text account.name) (
                    field "folders" (array (each (folder_body app.accounts.python) folders))
                      end)))))
        (after_folders request)

  unfoldable pub list_mailbox_messages :
      String → String → MessageQuery → Request → Route app a Response
  list_mailbox_messages mailbox_name folder q request =
      try_except
        (guarded (require_mailbox_access app a request mailbox_name "read") λ account. do
          credential ←
              on_mailboxes
                (Service.get_credential_for_runtime app.accounts (a.account 0) account.id)
          adapter ← lift (Registry.get app.registry account.provider)
          lift (validate_for q adapter)
          messages ← on_mail (app.runtime.list_messages account credential folder q)
          pure (
              ok 200 (
                field "mailbox_id" (number account.id) (
                  field "mailbox_name" (text account.name) (
                    field "folder" (text folder) (
                      field "messages"
                        (array (each (message_summary_body app.accounts.python) messages))
                        (field "next_cursor" (cursor_value (next_cursor messages q.limit))
                          end)))))))
        (after_list q request)

  abbrev pub message_response : Request → AccountRecord → Option Message → Response
  message_response request account none = message_missing request
  message_response request account (some message) = ok 200 (
      field "mailbox_id" (number account.id) (
        field "mailbox_name" (text account.name)
          (field "message" (message_body app.accounts.python message) end)))

  unfoldable pub fetch_mailbox_message : String → String → String → Request → Route app a Response
  fetch_mailbox_message mailbox_name uid folder request =
      try_except
        (guarded (require_mailbox_access app a request mailbox_name "read") λ account. do
          credential ←
              on_mailboxes
                (Service.get_credential_for_runtime app.accounts (a.account 0) account.id)
          message ← on_mail (app.runtime.fetch_message account credential folder uid)
          pure (message_response request account message))
        (after_message request)

  unfoldable pub mark_mailbox_message_seen :
      String → String → Bool → String → Request → Route app a Response
  mark_mailbox_message_seen mailbox_name uid seen folder request =
      try_except
        (guarded (require_mailbox_access app a request mailbox_name "mark_seen") λ account. do
          credential ←
              on_mailboxes
                (Service.get_credential_for_runtime app.accounts (a.account 0) account.id)
          on_mail (app.runtime.mark_seen account credential folder uid seen)
          on_mailboxes (
              Service.record_message_seen app.accounts
                (named_context (audit_context request (caller_type request) (owner_text account)))
                (a.account 1) account.id uid seen)
          pure (
              ok 200 (
                field "mailbox_id" (number account.id) (
                  field "mailbox_name" (text account.name)
                    (field "uid" (text uid) (field "seen" (boolean seen) end))))))
        (after_message request)
