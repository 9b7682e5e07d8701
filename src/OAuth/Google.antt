-- ===== src/OAuth/Google.antt =====
-- `GoogleOAuthClient` of src/postara/oauth.py over any HTTP library.
use postara.Prelude.{
  ℕ, String, Bool, true, false, not, Option, none, some, List, [], ◌+◌, ◌||◌, ◌∷◌, if◌then◌else◌,
  ◌==◌, nat_eq, string_eq,
}
use postara.Text.{◌<>◌}
use postara.Audit.{
  Value, Fields, null, boolean, number, text, array, object, other, nil, end, lookup,
}
use postara.Accounts.Service.{OAuthTokens}
use postara.Providers.Registry.{OAuthProviderConfig}

-- What the client reads of an answer; `json` is `none` where it is no JSON object.
pub record HttpResponse : Type 0 where
  pub is_error : Bool
  pub json : Option Fields

-- The HTTP library, `none` where the request fails: a form posted to an address, and an address
-- asked for with a bearer token. `split` is `str.split()`, `str` is `str(value)` for no text, and
-- `urlencode` that of urllib.
pub record Http : Type 0 where
  pub post : String → List (String × String) → Option HttpResponse
  pub get : String → String → Option HttpResponse
  pub split : String → List String
  pub str : Value → String
  pub urlencode : List (String × String) → String

pub record GoogleOAuthClient : Type 0 where
  pub config : OAuthProviderConfig
  pub client_id : String
  pub client_secret : String
  pub http : Http

-- `OAuthTokenResult`
pub record OAuthTokenResult : Type 0 where
  pub refresh_token : String
  pub access_token : String
  pub expires_at : Option ℕ
  pub scopes : List String
  pub subject : Option String
  pub email : String

-- `OAuthExchangeError` with its `provider_error`, or another exception.
pub data Exchanged (A : Type 0) : Type 0 where
  exchanged : A → Exchanged A
  refused : Value → Exchanged A
  broken : Exchanged A

abbrev pub and_then : {A B : Type 0} → Exchanged A → (A → Exchanged B) → Exchanged B
and_then (exchanged a) f = f a
and_then (refused e) f = refused e
and_then broken f = broken

-- `d.get(key)`
abbrev pub entry_or_null : String → Option Fields → Value
entry_or_null key none = null
entry_or_null key (some fields) = elim (lookup key fields) [ none ↦ null | some value ↦ value ]

-- `not value`
unfoldable pub is_falsy : Value → Bool
is_falsy null = true
is_falsy (boolean b) = not b
is_falsy (number n) = n == 0
is_falsy (text s) = s == ""
is_falsy (array nil) = true
is_falsy (object end) = true
is_falsy (other truth name held) = not truth
is_falsy _ = false

-- `_raise_oauth_exchange_error`
abbrev pub refused_by : {A : Type 0} → HttpResponse → Exchanged A
refused_by response = refused (entry_or_null "error" response.json)

-- The object in an answer that is no error.
abbrev pub body_of : Option HttpResponse → Exchanged Fields
body_of none = broken
body_of (some response) =
    if response.is_error
    then refused_by response
    else elim response.json [ none ↦ broken | some fields ↦ exchanged fields ]

-- A token that is there has to be a text: another value breaks what follows.
abbrev pub text_or_broken : Value → Exchanged String
text_or_broken (text s) = exchanged s
text_or_broken _ = broken

abbrev pub text_or_none : Value → Option String
text_or_none (text s) = some s
text_or_none _ = none

-- `isinstance(expires_in, int)`
abbrev pub expiry_after : ℕ → Value → Option ℕ
expiry_after now (number n) = some (now + n)
expiry_after now (boolean b) = some (now + (if b then 1 else 0))
expiry_after now _ = none

abbrev pub or_scopes : List String → List String → List String
or_scopes [] default = default
or_scopes (s ∷ rest) default = s ∷ rest

module _ (c : GoogleOAuthClient) where
  unfoldable pub authorization_url : String → String → String → String
  authorization_url state redirect_uri scope =
      c.config.authorization_url
      <> ("?"
          <> c.http.urlencode (
              ("client_id", c.client_id)
              ∷ ("redirect_uri", redirect_uri)
              ∷ ("response_type", "code")
              ∷ ("scope", scope)
              ∷ ("state", state)
              ∷ ("access_type", "offline")
              ∷ ("prompt", "consent")
              ∷ ("include_granted_scopes", "true")
              ∷ []))

  -- `tuple(str(token_data.get("scope") or "").split()) or …`
  abbrev pub scope_text : Value → String
  scope_text (text s) = s
  scope_text value = if is_falsy value then "" else c.http.str value

  abbrev pub scopes_of : Fields → List String → List String
  scopes_of token_data default =
      or_scopes (c.http.split (scope_text (entry_or_null "scope" (some token_data)))) default

  abbrev pub userinfo_of : String → Exchanged Fields
  userinfo_of access_token = elim c.config.userinfo_url [
    | none ↦ exchanged end
    | some url ↦ if url == "" then exchanged end else body_of (c.http.get url access_token)
  ]

  abbrev pub result_of : ℕ → Fields → String → String → Fields → Exchanged OAuthTokenResult
  result_of now token_data access_token refresh_token userinfo =
      if is_falsy (entry_or_null "email" (some userinfo))
      then refused (text "missing_email")
      else and_then (text_or_broken (entry_or_null "email" (some userinfo))) λ email.
        exchanged (record {
          refresh_token = refresh_token;
          access_token = access_token;
          expires_at = expiry_after now (entry_or_null "expires_in" (some token_data));
          scopes = scopes_of token_data c.config.default_scopes;
          subject = text_or_none (entry_or_null "sub" (some userinfo));
          email = email;
        })

  unfoldable pub exchange_code : ℕ → String → String → Exchanged OAuthTokenResult
  exchange_code now code redirect_uri =
      and_then
        (body_of (
          c.http.post c.config.token_url (
            ("client_id", c.client_id)
            ∷ ("client_secret", c.client_secret)
            ∷ ("code", code)
            ∷ ("grant_type", "authorization_code")
            ∷ ("redirect_uri", redirect_uri)
            ∷ [])))
        λ token_data.
          if is_falsy (entry_or_null "access_token" (some token_data))
            || is_falsy (entry_or_null "refresh_token" (some token_data))
          then refused (text "missing_token")
          else and_then (text_or_broken (entry_or_null "access_token" (some token_data)))
              λ access_token.
                and_then (text_or_broken (entry_or_null "refresh_token" (some token_data)))
                  λ refresh_token.
                    and_then (userinfo_of access_token)
                      (result_of now token_data access_token refresh_token)

  -- A request that fails is an `OAuthExchangeError` here.
  abbrev pub answered : Option HttpResponse → Exchanged Fields
  answered none = refused null
  answered (some response) = body_of (some response)

  unfoldable pub refresh_access_token : ℕ → String → List String → Exchanged OAuthTokens
  refresh_access_token now refresh_token scopes =
      and_then
        (answered (
          c.http.post c.config.token_url (
            ("client_id", c.client_id)
            ∷ ("client_secret", c.client_secret)
            ∷ ("refresh_token", refresh_token)
            ∷ ("grant_type", "refresh_token")
            ∷ [])))
        λ token_data.
          if is_falsy (entry_or_null "access_token" (some token_data))
          then refused (text "missing_token")
          else and_then (text_or_broken (entry_or_null "access_token" (some token_data)))
              λ access_token. exchanged (record {
                access_token = access_token;
                expires_at = expiry_after now (entry_or_null "expires_in" (some token_data));
                scopes = scopes_of token_data scopes;
              })
