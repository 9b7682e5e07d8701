-- ===== src/Api.antt =====
-- src/postara/api.py: the application that `create_app` makes of the services, its requests and
-- responses. Each route is a function of what one request carries and reads from outside; an
-- exception that comes out of a route is answered by the server with status 500.
pub mod Bodies
pub mod Access
pub mod Auth
pub mod Owner
pub mod Mailboxes
pub mod Verification
pub mod Keys
pub mod Messages
pub mod OAuth
use postara.Errors.{
  duplicate_email, duplicate_mailbox_name, verification_expired, verification_failed,
  duplicate_user_email, invalid_user_credentials, token_format, value_error,
  unsupported_provider_feature, message_not_found, authentication_error, provider_error,
  oauth_state_error, Error,
}
use postara.Exec.{Outcome, returned, raised, Exec, pure, ◌>>=◌}
use postara.Prelude.{
  ℕ, zero, suc, String, Bool, true, false, not, Option, none, some, List, ◌%◌, ◌≡◌, ◌&&◌,
  if◌then◌else◌, ◌==◌, string_eq,
}
use postara.Text.{pick, ◌<>◌}
use postara.Audit.{Value, Fields, Python, object, text, field, end}
use postara.RateLimit.{InMemoryRateLimiter}
use postara.AuthProtection.{AuthProtectionConfig, Network}
use postara.AuthProtection.Peer.{resolve_client_ip}
use postara.AuthProtection.Store.{AttemptStore}
use postara.AuthProtection.Limiter.{Reads}
use postara.Users
use postara.Users.Tables.{UserTables}
use postara.Users.Repository.{RepositoryUserService}
use postara.Accounts
use postara.Accounts.{AccountRecord, Credential}
use postara.Accounts.Tables.{Tables}
use postara.Accounts.Service.{RepositoryAccountService, AuditContext}
use postara.Providers.{Folder, Message, MessageSummary, MessageQuery}
use postara.Providers.Registry.{ProviderRegistry}
use postara.Dict
use postara.Dict.{Dict}

-- What the routes read of `Settings`; the absent text of a key is the empty one.
pub record Settings : Type 0 where
  pub deployment_mode : String
  pub turnstile_secret_key : String
  pub auth_protection_enabled : Bool
  pub auth_emergency_bypass : Bool
  pub auth_failure_limit : ℕ
  pub auth_challenge_threshold : ℕ
  pub auth_window_seconds : ℕ
  pub auth_lock_seconds : ℕ
  pub trusted_proxy_cidrs : List String

pub record OutboundEmail : Type 0 where
  pub to : String
  pub subject : String
  pub text : String

-- `MailboxRuntime` of src/postara/mailbox.py: its calls of the mail servers.
pub record MailboxRuntime : Type 1 where
  pub State : Type 0
  pub validate_credentials : String → String → String → ℕ → Exec State (Unit {0})
  pub list_folders : AccountRecord → Credential → Exec State (List Folder)
  pub list_messages :
      AccountRecord → Credential → String → MessageQuery → Exec State (List MessageSummary)
  pub fetch_message : AccountRecord → Credential → String → String → Exec State (Option Message)
  pub mark_seen : AccountRecord → Credential → String → String → Bool → Exec State (Unit {0})

-- What `create_app` puts together. `siteverify` is the answer of Turnstile to the secret, the token
-- and the address, `none` where asking it fails; `quote` is `urllib.parse.quote(…, safe='')`.
pub record App : Type 1 where
  pub settings : Settings
  pub users : RepositoryUserService
  pub accounts : RepositoryAccountService
  pub store : AttemptStore
  pub network : Network
  pub runtime : MailboxRuntime
  pub registry : ProviderRegistry
  pub siteverify : String → String → String → Option Bool
  pub quote : String → String

pub record World (A M : Type 0) : Type 0 where
  pub people : UserTables
  pub mailboxes : Tables
  pub limiter : InMemoryRateLimiter
  pub attempts : A
  pub mail : M
  pub sent : List OutboundEmail

-- What the server passes on of a request, each header once and in lower case, with the draws for
-- its id.
pub record Incoming : Type 0 where
  pub client_host : Option String
  pub headers : Dict String String
  pub id_draws : ℕ → ℕ

-- A request behind `request_id_middleware`.
pub record Request : Type 0 where
  pub request_id : String
  pub client_ip : String
  pub client_host : Option String
  pub user_agent : Option String
  pub authorization : Option String
  pub x_api_key : Option String

-- What one request reads of the clock and draws, by the order of its calls of a service.
pub record Moment : Type 0 where
  pub user : ℕ → Users.Ambient
  pub account : ℕ → Accounts.Ambient
  pub check_email : Reads
  pub check_ip : Reads
  pub failure_email : Reads
  pub failure_ip : Reads
  pub monotonic : ℕ
  pub monotonic_after : ℕ
  pub code_draws : ℕ → ℕ

pub record Response : Type 0 where
  pub status_code : ℕ
  pub content : Value
  pub x_request_id : Option String

-- `ErrorResponse.to_body()`; no route gives a `documentation_url`.
unfoldable pub to_body : String → String → String → Fields → Value
to_body code message request_id details = object (
    field "error"
      (object (
        field "code" (text code) (
          field "message" (text message)
            (field "request_id" (text request_id) (field "details" (object details) end)))))
      end)

unfoldable pub error_with : Request → ℕ → String → String → Fields → Response
error_with request status_code code message details = record {
  status_code = status_code;
  content = to_body code message request.request_id details;
  x_request_id = some request.request_id;
}

abbrev pub error_response : Request → ℕ → String → String → Response
error_response request status_code code message = error_with request status_code code message end

abbrev pub rate_limit_response : Request → Response
rate_limit_response request = error_response request 429 "rate_limited" "Rate limit exceeded."

-- A dictionary that a route returns, and `Response(status_code=204)`.
abbrev pub ok : ℕ → Fields → Response
ok status_code fields = record {
  status_code = status_code;
  content = object fields;
  x_request_id = none;
}

abbrev pub no_content : Response
no_content = record { status_code = 204; content = text ""; x_request_id = none }

-- `value or default` on a text that may be absent.
abbrev pub or_text : Option String → String → String
or_text none default = default
or_text (some s) default = if s == "" then default else s

abbrev pub host_of : Option String → String
host_of none = "0.0.0.0"
host_of (some host) = host

unfoldable pub random_text : ℕ → (ℕ → ℕ) → String
random_text zero draws = ""
random_text (suc n) draws =
    pick "abcdefghijklmnopqrstuvwxyzABCDEFGHIJKLMNOPQRSTUVWXYZ0123456789" (draws n % 62)
      (random_text n draws)

-- `_request_id`
unfoldable pub fresh_request_id : (ℕ → ℕ) → String
fresh_request_id draws = "req_" <> random_text 16 draws

-- `request_id_middleware`, before and after the route.
unfoldable pub receive : App → Incoming → Request
receive app incoming = record {
  request_id =
      or_text (Dict.get incoming.headers "x-request-id") (fresh_request_id incoming.id_draws);
  client_ip =
      resolve_client_ip app.network (host_of incoming.client_host) incoming.headers
        app.settings.trusted_proxy_cidrs;
  client_host = incoming.client_host;
  user_agent = Dict.get incoming.headers "user-agent";
  authorization = Dict.get incoming.headers "authorization";
  x_api_key = Dict.get incoming.headers "x-api-key";
}

unfoldable pub reply : Request → Response → Response
reply request response = record response { x_request_id = some request.request_id }

-- `_client_ip`
unfoldable pub client_ip_of : Request → String
client_ip_of request = or_text (some request.client_ip) (host_of request.client_host)

abbrev pub or_unknown : Option String → String
or_unknown none = "unknown"
or_unknown (some s) = s

unfoldable pub audit_context : Request → String → String → AuditContext
audit_context request actor_type actor_id = record {
  actor_type = some actor_type;
  actor_id = some actor_id;
  client_ip = some (client_ip_of request);
  user_agent = some (or_unknown request.user_agent);
  request_id = some request.request_id;
}

-- `_service_call` by the signature of the method of `_LazyAccountService`: an `audit_context` among
-- its parameters gets the context, a method that takes `**kwargs` alone does not.
abbrev pub named_context : AuditContext → Option AuditContext
named_context context = some context

abbrev pub kwargs_context : AuditContext → Option AuditContext
kwargs_context context = none

unfoldable pub auth_config : Settings → AuthProtectionConfig
auth_config s = record {
  enabled = s.auth_protection_enabled && not s.auth_emergency_bypass;
  challenge_enabled = (s.deployment_mode == "hosted") && not (s.turnstile_secret_key == "");
  failure_limit = s.auth_failure_limit;
  challenge_threshold = s.auth_challenge_threshold;
  window_seconds = s.auth_window_seconds;
  lock_seconds = s.auth_lock_seconds;
}

module _ {A M : Type 0} where
  abbrev pub on_people : {B : Type 0} → Exec UserTables B → Exec (World A M) B
  on_people m w = let (r, s) = m w.people in (r, record w { people = s })

  abbrev pub on_mailboxes : {B : Type 0} → Exec Tables B → Exec (World A M) B
  on_mailboxes m w = let (r, s) = m w.mailboxes in (r, record w { mailboxes = s })

  abbrev pub on_limiter : {B : Type 0} → Exec InMemoryRateLimiter B → Exec (World A M) B
  on_limiter m w = let (r, s) = m w.limiter in (r, record w { limiter = s })

  abbrev pub on_attempts : {B : Type 0} → Exec A B → Exec (World A M) B
  on_attempts m w = let (r, s) = m w.attempts in (r, record w { attempts = s })

  abbrev pub on_mail : {B : Type 0} → Exec M B → Exec (World A M) B
  on_mail m w = let (r, s) = m w.mail in (r, record w { mail = s })

-- What a dependency gives: a value, or the response that `AuthError` carries, which no handler of a
-- route takes.
pub data Guarded (B : Type 0) : Type 0 where
  refused : Response → Guarded B
  admitted : B → Guarded B

module _ {S : Type 0} where
  abbrev pub pass : {B : Type 0} → (B → Exec S Response) → Guarded B → Exec S Response
  pass f (refused response) = pure response
  pass f (admitted b) = f b

  abbrev pub guarded : {B : Type 0} → Exec S (Guarded B) → (B → Exec S Response) → Exec S Response
  guarded m f = m >>= pass f

  abbrev pub rescue : {B : Type 0} → (Error → Exec S B) → Outcome B → Exec S B
  rescue handler (returned b) = pure b
  rescue handler (raised e) = handler e

  -- `try: … except …:`, where the handler raises again what it does not take.
  abbrev pub try_except : {B : Type 0} → Exec S B → (Error → Exec S B) → Exec S B
  try_except m handler s = let (r, s') = m s in rescue handler r s'

-- The exceptions that are `ValueError`s.
abbrev pub is_value_error : Error → Bool
is_value_error value_error = true
is_value_error token_format = true
is_value_error duplicate_email = true
is_value_error duplicate_mailbox_name = true
is_value_error verification_expired = true
is_value_error verification_failed = true
is_value_error duplicate_user_email = true
is_value_error invalid_user_credentials = true
is_value_error oauth_state_error = true
is_value_error _ = false

-- Those that are `ProviderError`s.
abbrev pub is_provider_error : Error → Bool
is_provider_error provider_error = true
is_provider_error authentication_error = true
is_provider_error message_not_found = true
is_provider_error unsupported_provider_feature = true
is_provider_error _ = false

-- A `try` whose handlers never give `b` gives it if its body does.
pub try-returned :
    {S B : Type 0} (m : Exec S B) (handler : Error → Exec S B) (s : S) (b : B)
    → ((e : Error) (s' : S) → (handler e s').0 ≡ returned b → ⊥)
    → (try_except m handler s).0 ≡ returned b
    → (m s).0 ≡ returned b
try-returned {S} {B} m handler s b never = go (m s).0 (m s).1
  where
    go : (r : Outcome B) (s' : S) → (rescue handler r s').0 ≡ returned b → r ≡ returned b
    go (returned x) s' h = h
    go (raised e) s' h = let absurd : ⊥ = never e s' h in elim absurd [ ]
