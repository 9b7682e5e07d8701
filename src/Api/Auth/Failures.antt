-- ===== src/Api/Auth/Failures.antt =====
-- A wrong password at `login_user` of src/postara/api.py.
use postara.Errors.{invalid_user_credentials, auth_rate_limited}
use postara.Exec.{Outcome, returned, raised, Exec, transaction_undone}
use postara.Prelude.{String, refl, inl, inr, arith, TextPair, ◌≡◌, ◌⊎◌}
use postara.AuthProtection.Limiter.{
  record_failure, record_keys, record_bucket_failure, active_bucket,
}
use postara.AuthProtection.Store.{AttemptStore}
use postara.AuthProtection.{AuthProtectionConfig, Network, Keys, bucket_keys}
use postara.Users.Repository
use postara.Users.Tables.{UserTables}
use postara.Api.{
  App, World, Request, Moment, Response, rate_limit_response, client_ip_of, auth_config,
}
use postara.Api.Access.{auth_failed}
use postara.Api.Auth.{UserLoginRequest, check_auth_attempt, record_auth_failure, login_user}
use postara.AuthProtection.Limiter.{Reads}

-- Counting a failure ends well or in `AuthRateLimited`.
IsCounted : Outcome (Unit {0}) → Type 0
IsCounted r = (r ≡ returned tt) ⊎ (r ≡ raised auth_rate_limited)

module _ (store : AttemptStore) (c : AuthProtectionConfig) where
  record_bucket_failure-IsCounted :
      (k : TextPair) (t : Reads) (s : store.State)
      → IsCounted (record_bucket_failure store c k t s).0
  unfolding IsCounted record_bucket_failure active_bucket
  record_bucket_failure-IsCounted k t s = ground arith

  record_keys-IsCounted :
      (keys : Keys) (t u : Reads) (s : store.State) → IsCounted (record_keys store c keys t u s).0
  unfolding IsCounted record_keys
  record_keys-IsCounted (email, ip) t u s = elim (record_bucket_failure-IsCounted email t s) [
    | inl fine ↦ rw (record_keys, fine) (record_bucket_failure-IsCounted ip u _)
    | inr locked ↦ rw (record_keys, locked) (inr refl)
  ]

  record_failure-IsCounted :
      (network : Network) (action email client_ip : String) (t u : Reads) (s : store.State)
      → IsCounted (record_failure store c network action email client_ip t u s).0
  unfolding IsCounted record_failure
  record_failure-IsCounted network action email client_ip t u s =
      ground (arith, record_keys-IsCounted (bucket_keys network action email client_ip) t u s)

-- The failure that the route counts.
abbrev pub counted : (app : App) → Moment → String → Request → Exec app.store.State (Unit {0})
counted app a email request =
    record_failure app.store (auth_config app.settings) app.network "login" email
      (client_ip_of request) a.failure_email a.failure_ip

-- What the route answers after a failure that was counted so.
abbrev pub failure_response : Request → Outcome (Unit {0}) → Response
failure_response request (returned _) = auth_failed request "invalid_credentials"
failure_response request (raised _) = rate_limit_response request

login-undone :
    (app : App) (a : Moment) (email password : String) (t : UserTables)
    → (Repository.login app.users (a.user 0) email password t).0 ≡ raised invalid_user_credentials
    → Repository.login app.users (a.user 0) email password t ≡ (raised invalid_user_credentials, t)
unfolding Repository.login
login-undone app a email password t h = search transaction_undone

-- Past the check of the attempt, a log-in whose e-mail and password do not fit changes nothing but the
-- buckets of failed log-ins, which are as `record_failure` of the limiter leaves them for the e-mail
-- and the address; the answer is 401 where that returns, and 429 where it raises.
pub login_user_failure :
    (app : App) (a : Moment) (payload : UserLoginRequest) (request : Request)
    (w w' : World app.store.State app.runtime.State)
    → check_auth_attempt app a "login" payload.email
        (client_ip_of request)
        payload.turnstile_token
        request
        w
      ≡ (returned tt, w')
    → (Repository.login app.users (a.user 0) payload.email payload.password w'.people).0
      ≡ raised invalid_user_credentials
    → login_user app a payload request w ≡ (
      returned (failure_response request (counted app a payload.email request w'.attempts).0),
      record w' { attempts = (counted app a payload.email request w'.attempts).1 },
    )
unfolding login_user record_auth_failure IsCounted
login_user_failure app a payload request w w' allowed wrong =
    let undone = login-undone app a payload.email payload.password w'.people wrong in
    elim (record_failure-IsCounted app.store (auth_config app.settings) app.network "login"
      payload.email (client_ip_of request) a.failure_email a.failure_ip w'.attempts) [
        | inl fine ↦ rw (login_user, allowed, undone, record_auth_failure, fine) refl
        | inr locked ↦ rw (login_user, allowed, undone, record_auth_failure, locked) refl
      ]
