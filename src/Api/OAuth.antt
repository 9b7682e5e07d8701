-- ===== src/Api/OAuth.antt =====
-- Mailboxes by OAuth: the routes under /mailboxes/oauth of src/postara/api.py.
pub mod Callback
use postara.Errors.{duplicate_email, duplicate_mailbox_name, value_error, oauth_state_error, Error}
use postara.Exec.{Outcome, returned, raised, pure, raise, gets, lift, ◌>>=◌, ◌>>◌}
use postara.Prelude.{
  ℕ, String, Bool, false, not, Option, none, some, List, [], find, ◌+◌, ◌&&◌, ◌||◌, ◌∷◌,
  if◌then◌else◌, ◌==◌, nat_eq, string_eq, option_eq,
}
use postara.Text.{◌<>◌}
use postara.Audit.{Value, text, field, end}
use postara.Accounts.{AccountRecord, OAuthGrant}
use postara.Accounts.Repository.{list_for_user}
use postara.Accounts.Service
use postara.Dict
use postara.Dict.{Dict}
use postara.OAuth
use postara.OAuth.{OAuthState, OAuthStateCodec}
use postara.OAuth.Google
use postara.OAuth.Google.{
  Http, GoogleOAuthClient, OAuthTokenResult, Exchanged, exchanged, refused, broken,
}
use postara.Providers.Decimal.{show}
use postara.Providers.Registry.{
  ProviderCapabilities, OAuthProviderConfig, capabilities_for, supports_auth_type,
}
use postara.Api.{
  App, Request, Moment, Response, error_with, ok, audit_context, kwargs_context, is_value_error,
  on_mailboxes, guarded, try_except, or_text,
}
use postara.Api.Access.{Route, require_user_session}
use postara.Api.Mailboxes.{invalid_provider, name_exists}

-- What the two routes have besides the application: the codec, the clients that the caller of
-- `create_app` gives, the settings for Google, the HTTP library, and the address that
-- `request.url_for` gives.
pub record OAuthSetting : Type 0 where
  pub codec : OAuthStateCodec
  pub oauth_clients : Dict String GoogleOAuthClient
  pub google_oauth_client_id : String
  pub google_oauth_client_secret : String
  pub http : Http
  pub google_oauth_scopes : List String
  pub google_oauth_redirect_uri : String
  pub callback_url : String → String

unfoldable pub redirect_uri : OAuthSetting → String → String
redirect_uri o provider =
    if (provider == "gmail") && not (o.google_oauth_redirect_uri == "")
    then o.google_oauth_redirect_uri
    else o.callback_url provider

abbrev pub google_client : OAuthSetting → String → OAuthProviderConfig → Option GoogleOAuthClient
google_client o provider config =
    if (provider == "gmail")
      && (not (o.google_oauth_client_id == "") && not (o.google_oauth_client_secret == ""))
    then some (record {
      config = config;
      client_id = o.google_oauth_client_id;
      client_secret = o.google_oauth_client_secret;
      http = o.http;
    })
    else none

unfoldable pub oauth_client_for :
    OAuthSetting → String → OAuthProviderConfig → Option GoogleOAuthClient
oauth_client_for o provider config = elim (Dict.get o.oauth_clients provider) [
  | some injected ↦ some injected
  | none ↦ google_client o provider config
]

-- `RedirectResponse`, with its address as the content.
abbrev pub redirect : String → Response
redirect url = record { status_code = 307; content = text url; x_request_id = none }

abbrev pub redirect_error : String → Response
redirect_error code = redirect ("/app?mailbox_oauth=error&code=" <> code)

-- The configuration, where OAuth is supported.
abbrev pub oauth_of : ProviderCapabilities → Option OAuthProviderConfig
oauth_of capabilities =
    if supports_auth_type "oauth2" capabilities then capabilities.oauth else none

abbrev pub not_supported : String → Request → Response
not_supported provider request =
    error_with request 400 "oauth_not_supported" "Provider does not support OAuth."
      (field "provider" (text provider) end)

abbrev pub not_configured : String → Request → Response
not_configured provider request =
    error_with request 503 "oauth_not_configured" "OAuth provider is not configured."
      (field "provider" (text provider) end)

-- Another kind of mailbox has the name.
unfoldable pub is_name_taken : String → String → List AccountRecord → Bool
is_name_taken name provider existing =
    elim (find (λ (account : AccountRecord). account.name == name) existing) [
      | none ↦ false
      | some account ↦ not (account.auth_type == "oauth2") || not (account.provider == provider)
    ]

abbrev pub scopes_or : List String → List String → List String
scopes_or [] default = default
scopes_or (s ∷ rest) default = s ∷ rest

-- `" ".join(scopes)`
unfoldable pub join_spaces : List String → String
join_spaces [] = ""
join_spaces (s ∷ []) = s
join_spaces (s ∷ t ∷ rest) = s <> (" " <> join_spaces (t ∷ rest))

-- `exc.provider_error == "invalid_grant"`
abbrev pub is_invalid_grant : Value → Bool
is_invalid_grant (text s) = s == "invalid_grant"
is_invalid_grant _ = false

abbrev pub exchange_code_of : Value → String
exchange_code_of reason =
    if is_invalid_grant reason then "oauth_token_invalid_grant" else "oauth_exchange_failed"

-- The handlers of the callback but for `OAuthExchangeError`.
unfoldable pub callback_error : Error → String
callback_error oauth_state_error = "oauth_state_invalid"
callback_error duplicate_email = "email_already_exists"
callback_error duplicate_mailbox_name = "mailbox_name_already_exists"
callback_error e = if is_value_error e then "invalid_provider" else "oauth_exchange_failed"

module _ (app : App) (o : OAuthSetting) (a : Moment) where
  abbrev pub url_body : String → Response
  url_body url = ok 200 (field "authorization_url" (text url) end)

  -- Past the tests of the provider; the state is good for ten minutes from `a.account 0`.
  unfoldable pub start_with :
      String → String → Request → OAuthProviderConfig → GoogleOAuthClient → ℕ → Route app a Response
  start_with provider name request config client user_id = do
    existing ← on_mailboxes (gets (list_for_user user_id))
    if is_name_taken name provider existing then pure (name_exists request) else (do
      state ← lift (
          OAuth.sign o.codec (a.account 0).url_token user_id provider name
            ((a.account 0).now + 600))
      pure (
          url_body (
            Google.authorization_url client state (redirect_uri o provider)
              (join_spaces (scopes_or o.google_oauth_scopes config.default_scopes)))))

  abbrev pub start_for :
      String → String → Request → ℕ → Outcome ProviderCapabilities → Route app a Response
  start_for provider name request user_id (raised value_error) =
      pure (invalid_provider provider request)
  start_for provider name request user_id (raised e) = raise e
  start_for provider name request user_id (returned capabilities) = elim (oauth_of capabilities) [
    | none ↦ pure (not_supported provider request)
    | some config ↦ elim (oauth_client_for o provider config) [
      | none ↦ pure (not_configured provider request)
      | some client ↦ start_with provider name request config client user_id
    ]
  ]

  unfoldable pub start_oauth_mailbox : String → String → Request → Route app a Response
  start_oauth_mailbox provider name request =
      guarded (require_user_session app a request)
        λ user. start_for provider name request user.id (capabilities_for app.registry provider)

  unfoldable pub grant_of : String → OAuthState → OAuthTokenResult → OAuthGrant
  grant_of provider state tokens = record {
    name = state.name;
    email = tokens.email;
    provider = provider;
    refresh_token = tokens.refresh_token;
    access_token = some tokens.access_token;
    expires_at = tokens.expires_at;
    scopes = tokens.scopes;
    subject = tokens.subject;
    oauth_email = tokens.email;
  }

  abbrev pub success : AccountRecord → Response
  success account = redirect ("/app?mailbox_oauth=success&mailbox_id=" <> show account.id)

  -- Past the state: what the provider says of the code, and the mailbox.
  unfoldable pub connect :
      String → Request → OAuthState → Exchanged OAuthTokenResult → Route app a Response
  connect provider request state (refused e) = pure (redirect_error (exchange_code_of e))
  connect provider request state broken = pure (redirect_error "oauth_exchange_failed")
  connect provider request state (exchanged tokens) = do
    account ← on_mailboxes (
        Service.create_with_oauth app.accounts
          (kwargs_context (audit_context request "user" (show state.user_id))) (a.account 1)
          state.user_id (grant_of provider state tokens))
    pure (success account)

  abbrev pub callback_for :
      String → String → String → Request → ProviderCapabilities → Route app a Response
  callback_for provider code raw_state request capabilities = elim (oauth_of capabilities) [
    | none ↦ pure (redirect_error "oauth_not_supported")
    | some config ↦ do
      state ← lift (OAuth.verify o.codec (a.account 0).now raw_state provider)
      elim (oauth_client_for o provider config) [
        | none ↦ pure (redirect_error "oauth_not_configured")
        | some client ↦
            connect provider request state
              (Google.exchange_code client (a.account 0).now code (redirect_uri o provider))
      ]
  ]

  abbrev pub after_callback : Error → Route app a Response
  after_callback e = pure (redirect_error (callback_error e))

  unfoldable pub oauth_callback :
      String → Option String → Option String → Request → Route app a Response
  oauth_callback provider code state request =
      if (or_text code "" == "") || (or_text state "" == "")
      then pure (redirect_error "oauth_callback_invalid")
      else try_except
          (do
            capabilities ← lift (capabilities_for app.registry provider)
            callback_for provider (or_text code "") (or_text state "") request capabilities)
          after_callback
