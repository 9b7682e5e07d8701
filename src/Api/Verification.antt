-- ===== src/Api/Verification.antt =====
-- The verification of an app password: /mailboxes/verify-start and /mailboxes/verify-complete of
-- src/postara/api.py, which a hosted deployment has in place of `create_mailbox`.
pub mod Untraced
use postara.Errors.{
  duplicate_email, duplicate_mailbox_name, verification_not_found, verification_expired,
  verification_failed, outbound_email_error, Error,
}
use postara.Exec.{pure, raise, gets, lift, modify, raise_if, ◌>>=◌, ◌>>◌}
use postara.Prelude.{
  String, Bool, false, not, List, [], any, ◌+◌, ◌∷◌, ◌++◌, if◌then◌else◌, ◌==◌, nat_eq, string_eq,
}
use postara.Text.{lower, ◌<>◌}
use postara.Security.{generate_verification_code}
use postara.Audit.{text, field, end}
use postara.Users.{UserRecord}
use postara.Accounts.{AccountRecord, PendingVerification}
use postara.Accounts.Repository.{list_for_user}
use postara.Accounts.Service
use postara.Providers.Registry.{defaults_for, capabilities_for}
use postara.Api.{
  App, Request, Moment, Response, OutboundEmail, error_response, error_with, ok, kwargs_context,
  is_value_error, is_provider_error, on_mailboxes, on_mail, guarded, try_except,
}
use postara.Api.Access.{Route, require_user_session}
use postara.Api.Mailboxes.{
  AccountCreateRequest, email_exists, name_exists, invalid_provider, credentials_invalid,
  user_context, mailbox_body, require_app_password,
}

abbrev pub self_host_only : Request → Response
self_host_only request =
    error_response request 400 "unsupported_auth_flow"
      "Self-host deployments can create app-password mailboxes directly."

-- The test that the first mailbox has the e-mail of the user.
unfoldable pub is_first_elsewhere : App → UserRecord → String → List AccountRecord → Bool
is_first_elsewhere app user email [] =
    not (lower app.users.unicode email == lower app.users.unicode user.email)
is_first_elsewhere app user email (_ ∷ _) = false

unfoldable pub verification_email : String → String → OutboundEmail
verification_email email code = record {
  to = email;
  subject = "Postara mailbox verification code";
  text = "Your Postara mailbox verification code is " <> (code <> ". It expires in 15 minutes.");
}

module _ (app : App) (a : Moment) where
  -- `InMemoryOutboundEmailClient.send`
  unfoldable pub send : OutboundEmail → Route app a (Unit {0})
  send email = modify λ w. record w { sent = w.sent ++ (email ∷ []) }

  abbrev pub after_start : String → Request → Error → Route app a Response
  after_start provider request duplicate_email = pure (email_exists request)
  after_start provider request duplicate_mailbox_name = pure (name_exists request)
  after_start provider request outbound_email_error = pure (
      error_response request 502 "verification_email_failed"
        "Mailbox verification email could not be sent.")
  after_start provider request e =
      if is_value_error e
      then pure (invalid_provider provider request)
      else if is_provider_error e
      then pure (credentials_invalid request)
      else raise e

  -- Past the tests of the request; the deadline is fifteen minutes from `a.account 0`.
  unfoldable pub begin_verification :
      AccountCreateRequest → Request → UserRecord → Route app a PendingVerification
  begin_verification payload request user = do
    capabilities ← lift (capabilities_for app.registry payload.provider)
    require_app_password app a capabilities
    defaults ← lift (defaults_for app.registry payload.provider)
    on_mail (
        app.runtime.validate_credentials payload.email payload.password defaults.imap_host
          defaults.imap_port)
    let code = generate_verification_code a.code_draws
    send (verification_email payload.email code)
    on_mailboxes (
        Service.start_app_password_verification app.accounts
          (kwargs_context (user_context request user)) (a.account 1) user.id payload.name
          payload.email payload.provider payload.password code ((a.account 0).now + 900))

  abbrev pub started_body : PendingVerification → Response
  started_body verification = ok 201 (
      field "verification_id" (text verification.id)
        (field "expires_at" (text (app.accounts.python.isoformat verification.expires_at)) end))

  -- Past the test of the first mailbox.
  unfoldable pub start_checked :
      AccountCreateRequest → Request → UserRecord → List AccountRecord → Route app a Response
  start_checked payload request user existing = do
    raise_if
        (any
          (λ (account : AccountRecord).
            lower app.users.unicode account.email == lower app.users.unicode payload.email)
          existing)
        duplicate_email
    verification ← begin_verification payload request user
    pure (started_body verification)

  abbrev pub start_first :
      AccountCreateRequest → Request → UserRecord → List AccountRecord → Route app a Response
  start_first payload request user existing =
      if is_first_elsewhere app user payload.email existing
      then pure (
          error_with request 400 "mailbox_email_mismatch"
            "The first mailbox must match the signup email in hosted mode."
            (field "field" (text "email") end))
      else start_checked payload request user existing

  unfoldable pub start_mailbox_verification :
      AccountCreateRequest → Bool → Request → Route app a Response
  start_mailbox_verification payload accepted_owner_terms request =
      guarded (require_user_session app a request) λ user.
        if not (app.settings.deployment_mode == "hosted")
        then pure (self_host_only request)
        else if not accepted_owner_terms
        then pure (
            error_response request 400 "owner_terms_required"
              "Mailbox owner terms must be accepted before app-password verification.")
        else try_except
            (do
              existing ← on_mailboxes (gets (list_for_user user.id))
              start_first payload request user existing)
            (after_start payload.provider request)

  -- `DuplicateMailboxNameError` is not taken here.
  abbrev pub after_complete : Request → Error → Route app a Response
  after_complete request duplicate_email = pure (email_exists request)
  after_complete request verification_expired =
      pure (error_response request 400 "verification_expired" "Mailbox verification has expired.")
  after_complete request verification_failed =
      pure
        (error_response request 400 "verification_failed" "Mailbox verification code is invalid.")
  after_complete request verification_not_found =
      pure
        (error_response request 404 "verification_not_found" "Mailbox verification was not found.")
  after_complete request e = raise e

  unfoldable pub finish_verification : String → String → Request → UserRecord → Route app a Response
  finish_verification verification_id code request user = do
    account ← on_mailboxes (
        Service.complete_app_password_verification app.accounts
          (kwargs_context (user_context request user)) (a.account 0) user.id verification_id code)
    pure (mailbox_body app a 201 account)

  unfoldable pub complete_mailbox_verification : String → String → Request → Route app a Response
  complete_mailbox_verification verification_id code request =
      guarded (require_user_session app a request) λ user.
        if not (app.settings.deployment_mode == "hosted")
        then pure (self_host_only request)
        else try_except (finish_verification verification_id code request user)
            (after_complete request)
