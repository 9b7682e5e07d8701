-- ===== src/Api/Access.antt =====
-- Who may do what: `require_api_key`, `require_user_session`, `require_user_api_key` and
-- `require_mailbox_access` of src/postara/api.py.
pub mod Sound
use postara.Errors.{
  account_not_found, session_not_found, api_key_not_found, token_format, rate_limit_exceeded, Error,
}
use postara.Exec.{Outcome, returned, raised, Exec, pure, raise, raise_if, ◌>>=◌, ◌>>◌}
use postara.Prelude.{
  String, Bool, false, not, Option, none, some, any, if◌then◌else◌, ◌==◌, nat_eq, string_eq,
}
use postara.Text.{strip}
use postara.Security.{behind, parse_api_key, ApiKeyParts}
use postara.RateLimit.{check_api_key}
use postara.Audit.{Fields, text, field, end}
use postara.Users.{UserRecord, ApiKeyRecord}
use postara.Users.Repository.{authenticate_session, authenticate_api_key}
use postara.Accounts.{AccountRecord}
use postara.Accounts.Repository.{get_for_user_by_name}
use postara.Api.{
  App, World, Request, Moment, Response, Guarded, refused, admitted, error_response, error_with,
  rate_limit_response, on_people, on_mailboxes, on_limiter, rescue, try_except,
}

abbrev pub auth_failed : Request → String → Response
auth_failed request code = error_response request 401 code "Authentication failed."

-- `not x_api_key`, or the key.
abbrev pub given_text : Option String → Option String
given_text none = none
given_text (some s) = if s == "" then none else some s

abbrev parsed_or_malformed : Request → String → Outcome ApiKeyParts → Guarded (String × ApiKeyParts)
parsed_or_malformed request raw_key (returned parts) = admitted (raw_key, parts)
parsed_or_malformed request raw_key (raised _) = refused (auth_failed request "auth_malformed")

-- The key, with the parts that its caller parses once more.
unfoldable pub require_api_key : Request → Guarded (String × ApiKeyParts)
require_api_key request = elim (given_text request.x_api_key) [
  | none ↦ refused (auth_failed request "auth_missing")
  | some raw_key ↦ parsed_or_malformed request raw_key (parse_api_key raw_key)
]

-- `authorization and authorization.startswith("Bearer ")`, with what stands behind.
unfoldable pub bearer : Option String → Option String
bearer none = none
bearer (some authorization) = behind "Bearer " authorization

unfoldable pub forbidden_scope : Request → String → Response
forbidden_scope request scope =
    error_with request 403 "scope_forbidden" "API key scope does not allow this operation."
      (field "scope" (text scope) end)

abbrev pub refuse_session : {S B : Type 0} → Request → Error → Exec S (Guarded B)
refuse_session request session_not_found = pure (refused (auth_failed request "auth_invalid"))
refuse_session request token_format = pure (refused (auth_failed request "auth_invalid"))
refuse_session request e = raise e

abbrev pub refuse_key : {S B : Type 0} → Request → Error → Exec S (Guarded B)
refuse_key request rate_limit_exceeded = pure (refused (rate_limit_response request))
refuse_key request api_key_not_found = pure (refused (auth_failed request "auth_invalid"))
refuse_key request token_format = pure (refused (auth_failed request "auth_invalid"))
refuse_key request e = raise e

abbrev pub has_scope : String → ApiKeyRecord → Bool
has_scope scope key = any (λ s. s == scope) key.scopes

-- `api_key.mailbox_id is not None and api_key.mailbox_id != account.id`
abbrev pub is_elsewhere : ApiKeyRecord → AccountRecord → Bool
is_elsewhere key account = elim key.mailbox_id [ none ↦ false | some id ↦ not (id == account.id) ]

module _ (app : App) (a : Moment) where
  abbrev pub Route : Type 0 → Type 0
  Route B = Exec (World app.store.State app.runtime.State) B

  unfoldable pub session_user : String → Route UserRecord
  session_user given =
      on_people (authenticate_session app.users (a.user 0).now (strip app.users.unicode given))

  unfoldable pub require_user_session : Request → Route (Guarded UserRecord)
  require_user_session request = elim (bearer request.authorization) [
    | none ↦ pure (refused (auth_failed request "auth_missing"))
    | some given ↦
        try_except (do user ← session_user given; pure (admitted user)) (refuse_session request)
  ]

  unfoldable pub checked_key : String → ApiKeyParts → Route ApiKeyRecord
  checked_key raw_key parts = do
    on_limiter (check_api_key parts.prefix a.monotonic a.monotonic_after)
    on_people (authenticate_api_key app.users (a.user 0).now raw_key)

  unfoldable pub require_user_api_key : Request → Route (Guarded ApiKeyRecord)
  require_user_api_key request = elim (require_api_key request) [
    | refused response ↦ pure (refused response)
    | admitted (raw_key, parts) ↦
        try_except (do key ← checked_key raw_key parts; pure (admitted key)) (refuse_key request)
  ]

  -- Past the session, and past the API key.
  abbrev pub of_session : String → Guarded UserRecord → Route (Guarded AccountRecord)
  of_session mailbox_name (refused response) = pure (refused response)
  of_session mailbox_name (admitted user) = do
    account ← on_mailboxes (get_for_user_by_name user.id mailbox_name)
    pure (admitted account)

  unfoldable pub of_key :
      Request → String → String → Guarded ApiKeyRecord → Route (Guarded AccountRecord)
  of_key request mailbox_name scope (refused response) = pure (refused response)
  of_key request mailbox_name scope (admitted key) =
      if not (has_scope scope key) then pure (refused (forbidden_scope request scope)) else (do
        account ← on_mailboxes (get_for_user_by_name key.user_id mailbox_name)
        raise_if (is_elsewhere key account) account_not_found
        pure (admitted account))

  unfoldable pub require_mailbox_access : Request → String → String → Route (Guarded AccountRecord)
  require_mailbox_access request mailbox_name scope = elim (bearer request.authorization) [
    | some _ ↦ do user ← require_user_session request; of_session mailbox_name user
    | none ↦ do key ← require_user_api_key request; of_key request mailbox_name scope key
  ]
