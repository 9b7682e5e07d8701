-- ===== src/Api/Auth.antt =====
-- Registration, log-in and one's own account: the routes under /auth and /me of src/postara/api.py.
pub mod Failures
pub mod Challenge
use postara.Errors.{
  duplicate_user_email, invalid_user_credentials, auth_rate_limited, auth_challenge_required,
  auth_challenge_failed, Error,
}
use postara.Exec.{pure, raise, ◌>>=◌, ◌>>◌}
use postara.Prelude.{
  String, Bool, false, not, Option, none, some, ◌&&◌, if◌then◌else◌, ◌==◌, string_eq,
}
use postara.Text.{strip}
use postara.Security.{behind}
use postara.Audit.{text, field, end}
use postara.AuthProtection.Limiter
use postara.AuthProtection.Limiter.{no_token}
use postara.Users.{UserRecord}
use postara.Users.Repository
use postara.Api.{
  App, Request, Moment, Response, error_response, rate_limit_response, ok, no_content, client_ip_of,
  auth_config, on_people, on_attempts, guarded, try_except,
}
use postara.Api.Access.{Route, require_user_session, auth_failed}
use postara.Api.Bodies.{user_dto}

pub record UserRegisterRequest : Type 0 where
  pub email : String
  pub password : String
  pub name : String
  pub turnstile_token : Option String

pub record UserLoginRequest : Type 0 where
  pub email : String
  pub password : String
  pub turnstile_token : Option String

abbrev pub text_of : Option String → String
text_of none = ""
text_of (some s) = s

abbrev pub is_some_true : Option Bool → Bool
is_some_true none = false
is_some_true (some b) = b

-- `s.removeprefix("Bearer ").strip()`
abbrev without_bearer : App → String → String
without_bearer app authorization = elim (behind "Bearer " authorization) [
  | none ↦ strip app.users.unicode authorization
  | some rest ↦ strip app.users.unicode rest
]

-- `authorization.removeprefix("Bearer ").strip() if authorization else None`
unfoldable pub session_token_of : App → Option String → Option String
session_token_of app none = none
session_token_of app (some authorization) =
    if authorization == "" then none else some (without_bearer app authorization)

unfoldable pub verify_turnstile : App → Option String → Request → Bool
verify_turnstile app token request =
    not (app.settings.turnstile_secret_key == "")
    && not (no_token token)
    && is_some_true
        (app.siteverify app.settings.turnstile_secret_key (text_of token) (client_ip_of request))

abbrev pub challenge_required : Request → Response
challenge_required request =
    error_response request 403 "auth_challenge_required" "Additional verification is required."

abbrev pub challenge_failed : Request → Response
challenge_failed request =
    error_response request 403 "auth_challenge_failed" "Additional verification failed."

module _ (app : App) (a : Moment) where
  -- The handler of `check_auth_attempt`: a token that Turnstile takes ends the matter.
  abbrev pub after_check : Option String → Request → Error → Route app a (Unit {0})
  after_check token request auth_challenge_failed =
      if verify_turnstile app token request then pure tt else raise auth_challenge_failed
  after_check token request e = raise e

  unfoldable pub check_auth_attempt :
      String → String → String → Option String → Request → Route app a (Unit {0})
  check_auth_attempt action email client_ip token request =
      try_except
        (on_attempts (
          Limiter.check app.store (auth_config app.settings) app.network action email client_ip
            token a.check_email a.check_ip))
        (after_check token request)

  -- `none` where the failure is no more than counted.
  abbrev pub limited : Request → Error → Route app a (Option Response)
  limited request auth_rate_limited = pure (some (rate_limit_response request))
  limited request e = raise e

  unfoldable pub record_auth_failure :
      String → String → String → Request → Route app a (Option Response)
  record_auth_failure action email client_ip request =
      try_except
        (do
          on_attempts (
              Limiter.record_failure app.store (auth_config app.settings) app.network action email
                client_ip a.failure_email a.failure_ip)
          pure none)
        (limited request)

  unfoldable pub clear_auth_failures : String → String → String → Route app a (Unit {0})
  clear_auth_failures action email client_ip =
      on_attempts
        (Limiter.clear app.store (auth_config app.settings) app.network action email client_ip)

  abbrev pub or_response : Response → Option Response → Route app a Response
  or_response default none = pure default
  or_response default (some response) = pure response

  abbrev pub after_failure : String → String → Request → Response → Route app a Response
  after_failure action email request default = do
    response ← record_auth_failure action email (client_ip_of request) request
    or_response default response

  abbrev pub after_register : String → Request → Error → Route app a Response
  after_register email request duplicate_user_email = after_failure "register" email request (
      error_response request 400 "registration_unavailable"
        "Registration is unavailable for this request.")
  after_register email request auth_challenge_required = pure (challenge_required request)
  after_register email request auth_challenge_failed = pure (challenge_failed request)
  after_register email request auth_rate_limited = pure (rate_limit_response request)
  after_register email request e = raise e

  abbrev pub session_body : UserRecord × String → Response
  session_body (user, session_token) = ok 200 (
      field "user" (user_dto app.accounts.python user)
        (field "session_token" (text session_token) end))

  unfoldable pub register_user : UserRegisterRequest → Request → Route app a Response
  register_user payload request =
      try_except
        (do
          check_auth_attempt "register" payload.email (client_ip_of request) payload.turnstile_token
              request
          made ←
              on_people (
                Repository.register app.users (a.user 0) payload.email payload.password
                  payload.name)
          clear_auth_failures "register" payload.email (client_ip_of request)
          pure (record (session_body made) { status_code = 201 }))
        (after_register payload.email request)

  abbrev pub after_login : String → Request → Error → Route app a Response
  after_login email request invalid_user_credentials =
      after_failure "login" email request (auth_failed request "invalid_credentials")
  after_login email request auth_challenge_required = pure (challenge_required request)
  after_login email request auth_challenge_failed = pure (challenge_failed request)
  after_login email request auth_rate_limited = pure (rate_limit_response request)
  after_login email request e = raise e

  unfoldable pub login_user : UserLoginRequest → Request → Route app a Response
  login_user payload request =
      try_except
        (do
          check_auth_attempt "login" payload.email (client_ip_of request) payload.turnstile_token
              request
          made ← on_people (Repository.login app.users (a.user 0) payload.email payload.password)
          clear_auth_failures "login" payload.email (client_ip_of request)
          pure (session_body made))
        (after_login payload.email request)

  abbrev pub revoke_given : Option String → Route app a (Unit {0})
  revoke_given none = pure tt
  revoke_given (some token) = on_people (Repository.revoke_session (a.user 1).now token)

  unfoldable pub logout_user : Request → Route app a Response
  logout_user request =
      guarded (require_user_session app a request)
        λ user. do revoke_given (session_token_of app request.authorization); pure no_content

  abbrev pub user_body : UserRecord → Response
  user_body user = ok 200 (field "user" (user_dto app.accounts.python user) end)

  unfoldable pub me : Request → Route app a Response
  me request = guarded (require_user_session app a request) λ user. pure (user_body user)

  unfoldable pub update_me : String → Request → Route app a Response
  update_me name request = guarded (require_user_session app a request) λ user. do
    updated ← on_people (Repository.update_profile user.id name)
    pure (user_body updated)

  abbrev pub wrong_password : Request → Error → Route app a Response
  wrong_password request invalid_user_credentials = pure (auth_failed request "auth_invalid")
  wrong_password request e = raise e

  unfoldable pub change_own_password : String → String → Request → Route app a Response
  change_own_password current_password new_password request =
      guarded (require_user_session app a request) λ user.
        try_except
          (do
            on_people (
                Repository.change_password app.users (a.user 1) user.id current_password
                  new_password (session_token_of app request.authorization))
            pure no_content)
          (wrong_password request)
