-- ===== src/Api/Auth/Challenge.antt =====
-- A locked address at `check_auth_attempt` of src/postara/api.py.
use postara.Errors.{auth_rate_limited}
use postara.Exec.{returned, raised, pure}
use postara.Prelude.{
  String, refl, ap, Bool, true, false, Option, none, some, arith, ◌≤◌, ◌≡◌, ◌∙◌, if◌then◌else◌,
}
use postara.AuthProtection.Store.{AttemptStore}
use postara.AuthProtection.{AuthProtectionConfig, Network, AuthAttemptBucket, Keys, bucket_keys}
use postara.AuthProtection.Limiter
use postara.AuthProtection.Limiter.{Reads, check_keys, is_locked, needs_challenge, no_token}
use postara.AuthProtection.Limiter.Lock.{active_view}
use postara.AuthProtection.Limiter.Check.{check_keys-challenge_first, check_keys-locked}
use postara.Api.{App, World, Request, Moment, auth_config}
use postara.Api.Auth.{verify_turnstile, check_auth_attempt}

verify_turnstile-token :
    (app : App) (token : String) (request : Request)
    → verify_turnstile app (some token) request ≡ true
    → no_token (some token) ≡ false
unfolding verify_turnstile
verify_turnstile-token app token request h = ground (arith, h)

check_enabled :
    (store : AttemptStore) (c : AuthProtectionConfig) (network : Network)
    (action email client_ip : String) (token : Option String) (t u : Reads) (s : store.State)
    → c.enabled ≡ true
    → Limiter.check store c network action email client_ip token t u s
      ≡ check_keys store c (bucket_keys network action email client_ip) token t u s
unfolding Limiter.check
check_enabled store c network action email client_ip token t u s on =
    ap
      (λ (enabled : Bool).
        (if enabled
            then check_keys store c (bucket_keys network action email client_ip) token t u
            else pure tt)
          s)
      on

module _ (app : App) (a : Moment) where
  abbrev keys_for : String → String → String → Keys
  keys_for action email client_ip = bucket_keys app.network action email client_ip

  -- With the protection on, a token that Turnstile takes, and a time of the address's check that is
  -- not before the one its bucket is looked up at: an address that is locked is refused an e-mail
  -- for which nothing is counted, and is let through in the same state, with the same token, for an
  -- e-mail whose own bucket is active, asks for a challenge and is not locked.
  pub check_auth_attempt_bypass :
      (action asked fresh client_ip token : String) (request : Request) (b l : AuthAttemptBucket)
      (w : World app.store.State app.runtime.State)
      → (auth_config app.settings).enabled ≡ true
      → app.store.get w.attempts (keys_for action fresh client_ip).1 ≡ some l
      → a.check_ip.active ≤ a.check_ip.now
      → is_locked l a.check_ip.now ≡ true
      → app.store.get w.attempts (keys_for action fresh client_ip).0 ≡ none
      → active_view
          (auth_config app.settings)
          a.check_email.active
          (app.store.get w.attempts (keys_for action asked client_ip).0)
        ≡ some b
      → is_locked b a.check_email.now ≡ false
      → needs_challenge (auth_config app.settings) b ≡ true
      → verify_turnstile app (some token) request ≡ true
      → ((check_auth_attempt app a action fresh client_ip (some token) request w).0
          ≡ raised auth_rate_limited)
        × ((check_auth_attempt app a action asked client_ip (some token) request w).0 ≡ returned tt)
  unfolding check_auth_attempt
  check_auth_attempt_bypass action asked fresh client_ip token request b l w on held order locked
        none_counted active free asks taken =
      let enabled = λ (email : String).
        check_enabled app.store (auth_config app.settings) app.network action email client_ip
          (some token) a.check_email a.check_ip w.attempts on in
      let refused =
        ap (λ x. x.0) (enabled fresh)
        ∙ check_keys-locked app.store (auth_config app.settings) (keys_for action fresh client_ip)
            (some token) a.check_email a.check_ip w.attempts l none_counted held order locked in
      let challenged =
        ap (λ x. x.0) (enabled asked)
        ∙ check_keys-challenge_first app.store (auth_config app.settings)
            (keys_for action asked client_ip) (some token) a.check_email a.check_ip w.attempts b
            active free asks (verify_turnstile-token app token request taken) in
      (rw (check_auth_attempt, refused) refl, rw (check_auth_attempt, challenged, taken) refl)
