-- ===== src/Api/Mailboxes.antt =====
-- Routes under /mailboxes of src/postara/api.py that list, make, show, change and delete mailboxes.
pub mod Foreign
use postara.Errors.{account_not_found, duplicate_email, duplicate_mailbox_name, value_error, Error}
use postara.Exec.{pure, raise, gets, lift, raise_if, ◌>>=◌, ◌>>◌}
use postara.Prelude.{
  ℕ, String, not, none, some, List, filter, if◌then◌else◌, ◌==◌, nat_eq, string_eq,
}
use postara.Audit.{Fields, array, object, text, nil, cons, field, end}
use postara.Users.{UserRecord, ApiKeyRecord}
use postara.Accounts.{AccountRecord}
use postara.Accounts.Repository.{list_for_user, get_for_user}
use postara.Accounts.Service
use postara.Accounts.Service.{AuditContext}
use postara.Providers.Registry.{
  ProviderCapabilities, defaults_for, capabilities_for, supports_auth_type,
}
use postara.Api.{
  App, Request, Moment, Response, error_response, error_with, ok, no_content, audit_context,
  named_context, is_value_error, is_provider_error, on_mailboxes, on_mail, guarded, try_except,
}
use postara.Api.Access.{Route, bearer, require_user_session, require_user_api_key}
use postara.Api.Bodies.{each, account_dto, mailbox_discovery_body}
use postara.Providers.Decimal.{show}

pub record AccountCreateRequest : Type 0 where
  pub name : String
  pub email : String
  pub provider : String
  pub password : String

abbrev pub email_exists : Request → Response
email_exists request =
    error_with request 409 "email_already_exists" "Email already exists."
      (field "field" (text "email") end)

abbrev pub name_exists : Request → Response
name_exists request =
    error_with request 409 "mailbox_name_already_exists" "Mailbox API name already exists."
      (field "field" (text "name") end)

abbrev pub invalid_provider : String → Request → Response
invalid_provider provider request =
    error_with request 400 "invalid_provider" "Invalid provider."
      (field "provider" (text provider) end)

abbrev pub credentials_invalid : Request → Response
credentials_invalid request =
    error_response request 422 "credentials_invalid" "Mailbox credentials could not be verified."

abbrev pub account_missing : Request → Response
account_missing request = error_response request 404 "account_not_found" "Account not found."

abbrev pub user_context : Request → UserRecord → AuditContext
user_context request user = audit_context request "user" (show user.id)

-- `[account for account in accounts if account.id == api_key.mailbox_id]`, for a key of one mailbox.
abbrev pub visible : ApiKeyRecord → List AccountRecord → List AccountRecord
visible key accounts = elim key.mailbox_id [
  | none ↦ accounts
  | some id ↦ filter (λ (account : AccountRecord). account.id == id) accounts
]

module _ (app : App) (a : Moment) where
  abbrev pub mailbox_body : ℕ → AccountRecord → Response
  mailbox_body status_code account =
      ok status_code (field "mailbox" (account_dto app.accounts.python account) end)

  unfoldable pub list_mailboxes : Request → Route app a Response
  list_mailboxes request = elim (bearer request.authorization) [
    | some _ ↦ guarded (require_user_session app a request) λ user. do
      accounts ← on_mailboxes (gets (list_for_user user.id))
      pure
          (ok 200 (field "mailboxes" (array (each (account_dto app.accounts.python) accounts)) end))
    | none ↦ guarded (require_user_api_key app a request) λ key. do
      accounts ← on_mailboxes (gets (list_for_user key.user_id))
      pure (
          ok 200 (
            field "mailboxes"
              (array (
                each (mailbox_discovery_body app.accounts.python app.quote) (visible key accounts)))
              end))
  ]

  -- `raise ValueError(payload.provider)` unless app passwords are supported.
  abbrev pub require_app_password : ProviderCapabilities → Route app a (Unit {0})
  require_app_password capabilities =
      raise_if (not (supports_auth_type "app_password" capabilities)) value_error

  abbrev pub after_create : String → Request → Error → Route app a Response
  after_create provider request duplicate_email = pure (email_exists request)
  after_create provider request duplicate_mailbox_name = pure (name_exists request)
  after_create provider request e =
      if is_value_error e
      then pure (invalid_provider provider request)
      else if is_provider_error e
      then pure (credentials_invalid request)
      else raise e

  unfoldable pub add_mailbox :
      AccountCreateRequest → Request → UserRecord → Route app a AccountRecord
  add_mailbox payload request user = do
    defaults ← lift (defaults_for app.registry payload.provider)
    capabilities ← lift (capabilities_for app.registry payload.provider)
    require_app_password capabilities
    on_mail (
        app.runtime.validate_credentials payload.email payload.password defaults.imap_host
          defaults.imap_port)
    on_mailboxes (
        Service.create_for_user app.accounts (named_context (user_context request user))
          (a.account 0) user.id payload.name payload.email payload.provider payload.password)

  unfoldable pub create_mailbox : AccountCreateRequest → Request → Route app a Response
  create_mailbox payload request = guarded (require_user_session app a request) λ user.
      if app.settings.deployment_mode == "hosted"
      then pure (
          error_response request 400 "unsupported_auth_flow"
            "Hosted deployments require mailbox verification for app passwords.")
      else try_except
          (do account ← add_mailbox payload request user; pure (mailbox_body 201 account))
          (after_create payload.provider request)

  abbrev pub or_missing : Request → Error → Route app a Response
  or_missing request account_not_found = pure (account_missing request)
  or_missing request e = raise e

  unfoldable pub get_mailbox : ℕ → Request → Route app a Response
  get_mailbox mailbox_id request = guarded (require_user_session app a request) λ user.
      try_except
        (do
          account ← on_mailboxes (get_for_user user.id mailbox_id)
          pure (mailbox_body 200 account))
        (or_missing request)

  abbrev pub after_credentials : Request → Error → Route app a Response
  after_credentials request account_not_found = pure (account_missing request)
  after_credentials request e =
      if is_provider_error e then pure (credentials_invalid request) else raise e

  unfoldable pub update_mailbox_credentials : ℕ → String → Request → Route app a Response
  update_mailbox_credentials mailbox_id password request =
      guarded (require_user_session app a request) λ user.
        try_except
          (do
            account ← on_mailboxes (get_for_user user.id mailbox_id)
            on_mail (
                app.runtime.validate_credentials account.email password account.imap_host
                  account.imap_port)
            changed ← on_mailboxes (
                Service.update_credentials_for_user app.accounts
                  (named_context (user_context request user)) (a.account 0) user.id mailbox_id
                  password)
            pure (mailbox_body 200 changed))
          (after_credentials request)

  abbrev pub name_invalid : Fields
  name_invalid =
      field "fields"
        (array (
          cons
            (object (
              field "field" (text "name")
                (field "message" (text "Use only letters, numbers, and hyphens.") end)))
            nil))
        end

  abbrev pub after_rename : Request → Error → Route app a Response
  after_rename request duplicate_mailbox_name = pure (name_exists request)
  after_rename request account_not_found = pure (account_missing request)
  after_rename request e =
      if is_value_error e
      then pure
          (error_with request 422 "validation_failed" "Request validation failed." name_invalid)
      else raise e

  unfoldable pub update_mailbox_name : ℕ → String → Request → Route app a Response
  update_mailbox_name mailbox_id name request = guarded (require_user_session app a request) λ user.
      try_except
        (do
          account ← on_mailboxes (
              Service.update_name_for_user app.accounts (named_context (user_context request user))
                (a.account 0) user.id mailbox_id name)
          pure (mailbox_body 200 account))
        (after_rename request)

  unfoldable pub delete_mailbox : ℕ → Request → Route app a Response
  delete_mailbox mailbox_id request = guarded (require_user_session app a request) λ user.
      try_except
        (do
          on_mailboxes (
              Service.delete_for_user app.accounts (named_context (user_context request user))
                (a.account 0) user.id mailbox_id)
          pure no_content)
        (or_missing request)
