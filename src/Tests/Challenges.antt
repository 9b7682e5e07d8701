-- ===== src/Tests/Challenges.antt =====
-- A locked address and an e-mail that needs a challenge, at src/postara/api.py.
use postara.Errors.{auth_rate_limited}
use postara.Exec.{returned, raised}
use postara.Prelude.{refl, none, some, [], arith, text_pair_beq, ◌≡◌, ◌∷◌}
use postara.AuthProtection.{AuthAttemptBucket, bucket_keys, normalize_email_key, normalize_ip_key}
use postara.AuthProtection.Limiter.{is_over, needs_challenge}
use postara.Text.{strip, lower}
use postara.Api.{App, World, auth_config}
use postara.Api.Auth.{verify_turnstile, check_auth_attempt}
use postara.Api.Auth.Challenge.{check_auth_attempt_bypass}
use postara.Tests.Site.{app, settings, moment, world, with_session}
use postara.Dict

-- With a key for Turnstile.
abbrev guarded_app : App
guarded_app = record app { settings = record settings { turnstile_secret_key = "k" } }

abbrev failed_three_times : AuthAttemptBucket
failed_three_times = record {
  bucket_type = "login:email";
  bucket_key = "ann@x.y";
  failure_count = 3;
  window_started_at = 100;
  locked_until = none;
  challenge_required_at = some 150;
  last_failure_at = some 150;
}

abbrev locked : AuthAttemptBucket
locked = record {
  bucket_type = "login:ip";
  bucket_key = "1.2.3.4";
  failure_count = 6;
  window_started_at = 100;
  locked_until = some 450;
  challenge_required_at = some 120;
  last_failure_at = some 150;
}

abbrev attacked : World guarded_app.store.State guarded_app.runtime.State
attacked = record world {
  attempts =
      (record { left = "login:email"; right = "ann@x.y" }, failed_three_times)
      ∷ (record { left = "login:ip"; right = "1.2.3.4" }, locked)
      ∷ [];
}

check_auth_attempt_bypass_example :
    ((check_auth_attempt guarded_app moment "login" "bob@x.y" "1.2.3.4"
        (some "t")
        with_session
        attacked).0
      ≡ raised auth_rate_limited)
    × ((check_auth_attempt guarded_app moment "login" "ann@x.y" "1.2.3.4"
          (some "t")
          with_session
          attacked).0
        ≡ returned tt)
unfolding Dict.get is_over needs_challenge text_pair_beq bucket_keys normalize_email_key
    normalize_ip_key strip lower auth_config verify_turnstile
check_auth_attempt_bypass_example =
    check_auth_attempt_bypass guarded_app moment "login" "ann@x.y" "bob@x.y" "1.2.3.4" "t"
      with_session failed_three_times locked attacked refl refl (omega arith) refl refl refl refl
      refl refl
