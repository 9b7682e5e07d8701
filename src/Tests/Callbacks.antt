-- ===== src/Tests/Callbacks.antt =====
-- The OAuth callback of src/postara/api.py on an example.
use postara.Exec.{returned}
use postara.Prelude.{ℕ, String, refl, none, some, [], arith, ◌≡◌}
use postara.OAuth.{split_dot}
use postara.OAuth.State.{IsSigned}
use postara.Api.OAuth.{OAuthSetting, oauth_callback, redirect_error}
use postara.Api.OAuth.Callback.{oauth_callback_forged}
use postara.Tests.States.{codec}
use postara.Tests.Site.{app, moment, world, with_session}

-- A setting with no client of a provider.
abbrev setting : OAuthSetting
setting = record {
  codec = codec;
  oauth_clients = [];
  google_oauth_client_id = "";
  google_oauth_client_secret = "";
  http = record {
    post = λ url form. none;
    get = λ url token. none;
    split = λ s. [];
    str = λ v. "";
    urlencode = λ params. "";
  };
  google_oauth_scopes = [];
  google_oauth_redirect_uri = "";
  callback_url = λ provider. "/mailboxes/oauth/callback";
}

no_parts : split_dot "forged" ≡ none
unfolding split_dot
no_parts = refl

not-IsSigned :
    (version : ℕ) (signature : String) → ¬ IsSigned codec "forged" version signature signature
not-IsSigned version signature signed = ground (arith, no_parts, signed.parts)

oauth_callback_forged_example :
    (reason : String) × (oauth_callback app setting moment "gmail"
        (some "code")
        (some "forged")
        (with_session)
        world
      ≡ (returned (redirect_error reason), world))
oauth_callback_forged_example =
    oauth_callback_forged app setting moment "gmail" (some "code") "forged" (with_session) world
      not-IsSigned
