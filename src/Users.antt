-- ===== src/Users.antt =====
-- src/postara/users.py: accounts of people, their sessions and their API keys, as `UserService` keeps
-- them in dictionaries. Times are UTC instants in seconds.
pub mod Sessions
pub mod Passwords
pub mod Keys
pub mod Tables
pub mod Repository
use postara.Errors.{
  duplicate_user_email, invalid_user_credentials, session_not_found, api_key_not_found, value_error,
}
use postara.Exec.{
  Outcome, returned, raised, Exec, pure, gets, lift, or_raise, modify, raise_if, ◌>>=◌, ◌>>◌,
}
use postara.Prelude.{
  ℕ, String, Bool, true, false, not, Option, none, some, List, [], leb, is_some, filter, any, find,
  ◌+◌, ◌*◌, ◌&&◌, ◌||◌, ◌∷◌, if◌then◌else◌, ◌==◌, nat_eq, string_eq, option_eq,
}
use postara.Text.{Unicode, lower, strip}
use postara.Security.{
  Library, Draws, ApiKeyParts, hash_password, verify_password, generate_session_token,
  hash_session_token, parse_session_token, verify_session_token_hash, generate_api_key,
  parse_api_key, hash_api_key, verify_api_key_hash,
}
use postara.Dict
use postara.Dict.{Dict, values, find_entry}

pub record SessionRecord : Type 0 where
  pub user_id : ℕ
  pub digest : String
  pub expires_at : ℕ
  pub revoked_at : Option ℕ

pub record UserRecord : Type 0 where
  pub id : ℕ
  pub email : String
  pub name : String
  pub password_hash : String
  pub role : String
  pub created_at : ℕ
  pub last_login_at : Option ℕ
  pub disabled_at : Option ℕ

pub record ApiKeyRecord : Type 0 where
  pub id : ℕ
  pub user_id : ℕ
  pub mailbox_id : Option ℕ
  pub scopes : List String
  pub name : String
  pub prefix : String
  pub key_hash : String
  pub hash_version : ℕ
  pub created_at : ℕ
  pub last_used_at : Option ℕ
  pub revoked_at : Option ℕ

pub record UserService : Type 0 where
  pub next_user_id : ℕ
  pub next_api_key_id : ℕ
  pub users : Dict ℕ UserRecord
  pub sessions : Dict String SessionRecord
  pub api_keys : Dict ℕ ApiKeyRecord

-- What lies outside of a call: two readings of the clock, in seconds, the salt of a password hash,
-- and the draws for a token.
pub record Ambient : Type 0 where
  pub now : ℕ
  pub later : ℕ
  pub salt : ℕ
  pub draws : Draws

-- What lies outside of the service: the libraries, the Unicode tables, the key of the API key
-- hashes.
pub record Setting : Type 0 where
  pub lib : Library
  pub unicode : Unicode
  pub token_hash_key : String

abbrev pub thirty_days : ℕ
thirty_days = 30 * 86400

unfoldable pub normalize_user_email : Unicode → String → String
normalize_user_email u email = lower u (strip u email)

abbrev pub no_users : Dict ℕ UserRecord → Bool
no_users [] = true
no_users (_ ∷ _) = false

-- `not current_session_token`
abbrev pub given_prefix : Option String → Option String
given_prefix none = none
given_prefix (some token) =
    if token == ""
    then none
    else elim (parse_session_token token) [ raised _ ↦ none | returned parts ↦ some parts.0 ]

abbrev pub put_user : UserRecord → UserService → UserService
put_user user s = record s { users = Dict.put s.users user.id user }

abbrev pub put_key : ApiKeyRecord → UserService → UserService
put_key key s = record s { api_keys = Dict.put s.api_keys key.id key }

-- One pass of the loop of `_revoke_other_sessions`.
unfoldable pub revoked_unless : ℕ → Option String → ℕ → String → SessionRecord → SessionRecord
revoked_unless user_id current now prefix session =
    if (session.user_id == user_id)
      && not (some prefix == current)
      && not (is_some session.revoked_at)
    then record session { revoked_at = some now }
    else session

unfoldable pub revoke_all :
    ℕ → Option String → ℕ → Dict String SessionRecord → Dict String SessionRecord
revoke_all user_id current now [] = []
revoke_all user_id current now ((prefix, session) ∷ rest) =
    (prefix, revoked_unless user_id current now prefix session)
    ∷ revoke_all user_id current now rest

unfoldable pub revoke_other_sessions : ℕ → Option String → ℕ → Exec UserService (Unit {0})
revoke_other_sessions user_id current_session_token now = modify λ s. record s {
  sessions = revoke_all user_id (given_prefix current_session_token) now s.sessions;
}

-- `scopes or ["read"]`
abbrev pub or_read : Option (List String) → List String
or_read none = "read" ∷ []
or_read (some []) = "read" ∷ []
or_read (some (x ∷ xs)) = x ∷ xs

module _ (g : Setting) where
  unfoldable pub create_session : Ambient → ℕ → Exec UserService String
  create_session a user_id = do
    let token = generate_session_token a.draws
    parts ← lift (hash_session_token g.lib token)
    modify (λ s. record s {
      sessions = Dict.put s.sessions parts.0 (record {
        user_id = user_id;
        digest = parts.1;
        expires_at = a.later + thirty_days;
        revoked_at = none;
      });
    })
    pure token

  unfoldable pub new_user : Ambient → String → String → String → UserService → UserRecord
  new_user a email password name s = record {
    id = s.next_user_id;
    email = email;
    name = name;
    password_hash = hash_password g.lib a.salt password;
    role = if no_users s.users then "owner" else "member";
    created_at = a.now;
    last_login_at = none;
    disabled_at = none;
  }

  unfoldable pub register :
      Ambient → String → String → String → Exec UserService (UserRecord × String)
  register a email password name = do
    let normalized_email = normalize_user_email g.unicode email
    taken ← gets (λ s. any (λ (u : UserRecord). u.email == normalized_email) (values s.users))
    raise_if taken duplicate_user_email
    user ← gets (new_user a normalized_email password name)
    modify (λ s. put_user user (record s { next_user_id = s.next_user_id + 1 }))
    token ← create_session a user.id
    pure (user, token)

  -- The password of an unknown user is checked against a dummy hash, for the time that it takes.
  unfoldable pub login : Ambient → String → String → Exec UserService (UserRecord × String)
  login a email password = do
    let normalized_email = normalize_user_email g.unicode email
    found ← gets (λ s. find (λ (u : UserRecord). u.email == normalized_email) (values s.users))
    user ← or_raise found invalid_user_credentials
    raise_if (is_some user.disabled_at || not (verify_password g.lib password user.password_hash))
        invalid_user_credentials
    let seen = record user { last_login_at = some a.now }
    modify (put_user seen)
    token ← create_session a user.id
    pure (seen, token)

  unfoldable pub authenticate_session : ℕ → String → Exec UserService UserRecord
  authenticate_session now raw_token = do
    parts ← lift (parse_session_token raw_token)
    found ← gets (λ s. Dict.get s.sessions parts.0)
    session ← or_raise found session_not_found
    raise_if
        (is_some session.revoked_at
          || leb session.expires_at now
          || not (verify_session_token_hash g.lib raw_token session.digest))
        session_not_found
    owner ← gets (λ s. Dict.get s.users session.user_id)
    user ← or_raise owner session_not_found
    raise_if (is_some user.disabled_at) session_not_found
    pure user

  unfoldable pub change_password :
      Ambient → ℕ → String → String → Option String → Exec UserService (Unit {0})
  change_password a user_id current_password new_password current_session_token = do
    found ← gets (λ s. Dict.get s.users user_id)
    user ← or_raise found invalid_user_credentials
    raise_if (not (verify_password g.lib current_password user.password_hash))
        invalid_user_credentials
    modify (λ s. record s {
      users =
          Dict.put s.users user_id
            (record user { password_hash = hash_password g.lib a.salt new_password });
    })
    revoke_other_sessions user_id current_session_token a.now

  unfoldable pub reset_password : Ambient → ℕ → String → Exec UserService (Unit {0})
  reset_password a user_id new_password = do
    found ← gets (λ s. Dict.get s.users user_id)
    user ← or_raise found session_not_found
    modify (λ s. record s {
      users =
          Dict.put s.users user_id
            (record user { password_hash = hash_password g.lib a.salt new_password });
    })
    revoke_other_sessions user_id none a.now

  unfoldable pub create_api_key :
      Ambient
      → ℕ
      → String
      → Option ℕ
      → Option (List String)
      → Exec UserService (ApiKeyRecord × String)
  create_api_key a user_id name mailbox_id scopes = do
    raw_key ← lift (generate_api_key "live" a.draws)
    parts ← lift (parse_api_key raw_key)
    key_hash ← lift (hash_api_key g.lib raw_key g.token_hash_key)
    id ← gets (λ s. s.next_api_key_id)
    let key : ApiKeyRecord = record {
      id = id;
      user_id = user_id;
      mailbox_id = mailbox_id;
      scopes = or_read scopes;
      name = name;
      prefix = parts.prefix;
      key_hash = key_hash;
      hash_version = 1;
      created_at = a.now;
      last_used_at = none;
      revoked_at = none;
    }
    modify (λ s. put_key key (record s { next_api_key_id = s.next_api_key_id + 1 }))
    pure (key, raw_key)

  abbrev pub key_matches : String → String → ApiKeyRecord → Bool
  key_matches prefix raw_key key =
      (key.prefix == prefix)
      && not (is_some key.revoked_at)
      && verify_api_key_hash g.lib raw_key key.key_hash g.token_hash_key

  unfoldable pub authenticate_api_key : ℕ → String → Exec UserService ApiKeyRecord
  authenticate_api_key now raw_key = do
    parts ← lift (parse_api_key raw_key)
    found ← gets (λ s. find_entry (key_matches parts.prefix raw_key) s.api_keys)
    entry ← or_raise found api_key_not_found
    let used = record (entry.1) { last_used_at = some now }
    modify (λ s. record s { api_keys = Dict.put s.api_keys entry.0 used })
    pure used

unfoldable pub revoke_session : ℕ → String → Exec UserService (Unit {0})
revoke_session now raw_token = do
  parts ← lift (parse_session_token raw_token)
  found ← gets (λ s. Dict.get s.sessions parts.0)
  elim found [
    | none ↦ pure tt
    | some session ↦ modify λ s. record s {
      sessions = Dict.put s.sessions parts.0 (record session { revoked_at = some now });
    }
  ]

unfoldable pub update_profile : ℕ → String → Exec UserService UserRecord
update_profile user_id name = do
  found ← gets (λ s. Dict.get s.users user_id)
  user ← or_raise found session_not_found
  let renamed = record user { name = name }
  modify (λ s. record s { users = Dict.put s.users user_id renamed })
  pure renamed

-- `"disabled"` and `"active"` are the two statuses; any other is a `ValueError`.
unfoldable pub status_time : String → ℕ → Outcome (Option ℕ)
status_time status now =
    if status == "disabled"
    then returned (some now)
    else if status == "active"
    then returned none
    else raised value_error

unfoldable pub update_user_status : ℕ → ℕ → String → Exec UserService UserRecord
update_user_status now user_id status = do
  found ← gets (λ s. Dict.get s.users user_id)
  user ← or_raise found session_not_found
  disabled_at ← lift (status_time status now)
  let changed = record user { disabled_at = disabled_at }
  modify (λ s. record s { users = Dict.put s.users user_id changed })
  pure changed

-- The key, if it is the user's.
abbrev pub own_key : ℕ → Option ApiKeyRecord → Option ApiKeyRecord
own_key user_id none = none
own_key user_id (some key) = if key.user_id == user_id then some key else none

unfoldable pub list_api_keys : ℕ → UserService → List ApiKeyRecord
list_api_keys user_id s =
    filter (λ (key : ApiKeyRecord). key.user_id == user_id) (values s.api_keys)

unfoldable pub delete_api_key : ℕ → ℕ → Exec UserService (Unit {0})
delete_api_key user_id api_key_id = do
  found ← gets (λ s. own_key user_id (Dict.get s.api_keys api_key_id))
  key ← or_raise found api_key_not_found
  modify (λ s. record s { api_keys = Dict.remove s.api_keys api_key_id })

abbrev pub revoke_api_key : ℕ → ℕ → Exec UserService (Unit {0})
revoke_api_key = delete_api_key

unfoldable pub update_api_key_status : ℕ → ℕ → ℕ → String → Exec UserService ApiKeyRecord
update_api_key_status now user_id api_key_id status = do
  found ← gets (λ s. own_key user_id (Dict.get s.api_keys api_key_id))
  key ← or_raise found api_key_not_found
  revoked_at ← lift (status_time status now)
  let changed = record key { revoked_at = revoked_at }
  modify (λ s. record s { api_keys = Dict.put s.api_keys api_key_id changed })
  pure changed
