-- ===== src/Users/Repository.antt =====
-- `RepositoryUserService` of src/postara/users.py: each method is one transaction on the tables.
pub mod Invariant
use postara.Errors.{
  duplicate_user_email, invalid_user_credentials, session_not_found, api_key_not_found, key_error,
  integrity_error,
}
use postara.Exec.{Exec, pure, gets, lift, or_raise, transaction, modify, raise_if, ◌>>=◌, ◌>>◌}
use postara.Prelude.{
  ℕ, String, Bool, false, not, Option, none, some, List, [], leb, is_some, filter, find, ◌+◌, ◌&&◌,
  ◌||◌, ◌∷◌, if◌then◌else◌, ◌==◌, nat_eq, string_eq, option_eq,
}
use postara.Text.{Unicode}
use postara.Security.{
  Library, hash_password, verify_password, generate_session_token, hash_session_token,
  parse_session_token, verify_session_token_hash, generate_api_key, parse_api_key, hash_api_key,
  verify_api_key_hash,
}
use postara.Users.{
  UserRecord, ApiKeyRecord, Ambient, thirty_days, normalize_user_email, no_users, given_prefix,
  or_read, status_time, own_key,
}
use postara.Users.Tables.{
  UserSessionOrm, UserTables, put_user, put_session, put_key, insert_user, insert_session,
  insert_key, session_by_prefix,
}
use postara.Dict
use postara.Dict.{Dict, values}

-- `RepositoryUserService.__init__`, with the libraries.
pub record RepositoryUserService : Type 0 where
  pub lib : Library
  pub unicode : Unicode
  pub token_hash_keys : Dict ℕ String
  pub active_token_hash_version : ℕ

-- One pass of the loop of `_revoke_other_sessions`, with the tests of its `select`.
unfoldable pub revoked_unless : ℕ → Option String → ℕ → UserSessionOrm → UserSessionOrm
revoked_unless user_id current now row =
    if (row.user_id == user_id)
      && not (is_some row.revoked_at)
      && not (some row.token_prefix == current)
    then record row { revoked_at = some now }
    else row

unfoldable pub revoke_rows : ℕ → Option String → ℕ → Dict ℕ UserSessionOrm → Dict ℕ UserSessionOrm
revoke_rows user_id current now [] = []
revoke_rows user_id current now ((id, row) ∷ rest) =
    (id, revoked_unless user_id current now row) ∷ revoke_rows user_id current now rest

unfoldable pub revoke_other_sessions : ℕ → Option String → ℕ → Exec UserTables (Unit {0})
revoke_other_sessions user_id current_session_token now = modify λ t. record t {
  sessions = revoke_rows user_id (given_prefix current_session_token) now t.sessions;
}

module _ (g : RepositoryUserService) where
  unfoldable pub create_session : Ambient → ℕ → Exec UserTables String
  create_session a user_id = do
    let token = generate_session_token a.draws
    parts ← lift (hash_session_token g.lib token)
    id ← gets (λ t. t.next_session_id)
    let row : UserSessionOrm = record {
      id = id;
      user_id = user_id;
      token_prefix = parts.0;
      token_hash = parts.1;
      created_at = a.later;
      expires_at = a.later + thirty_days;
      last_used_at = none;
      revoked_at = none;
    }
    insert_session integrity_error row
    pure token

  unfoldable pub register :
      Ambient → String → String → String → Exec UserTables (UserRecord × String)
  register a email password name = transaction (do
    let normalized_email = normalize_user_email g.unicode email
    first ← gets (λ t. no_users t.users)
    id ← gets (λ t. t.next_user_id)
    let user : UserRecord = record {
      id = id;
      email = normalized_email;
      name = name;
      password_hash = hash_password g.lib a.salt password;
      role = if first then "owner" else "member";
      created_at = a.now;
      last_login_at = none;
      disabled_at = none;
    }
    insert_user duplicate_user_email user
    token ← create_session a id
    pure (user, token))

  unfoldable pub login : Ambient → String → String → Exec UserTables (UserRecord × String)
  login a email password = transaction (do
    let normalized_email = normalize_user_email g.unicode email
    found ← gets (λ t. find (λ (u : UserRecord). u.email == normalized_email) (values t.users))
    user ← or_raise found invalid_user_credentials
    raise_if (is_some user.disabled_at || not (verify_password g.lib password user.password_hash))
        invalid_user_credentials
    modify (put_user (record user { last_login_at = some a.now }))
    token ← create_session a user.id
    pure (record user { last_login_at = some a.now }, token))

  unfoldable pub authenticate_session : ℕ → String → Exec UserTables UserRecord
  authenticate_session now raw_token = do
    parts ← lift (parse_session_token raw_token)
    transaction (do
      found ← gets (session_by_prefix parts.0)
      row ← or_raise found session_not_found
      raise_if
          (is_some row.revoked_at
            || leb row.expires_at now
            || not (verify_session_token_hash g.lib raw_token row.token_hash))
          session_not_found
      owner ← gets (λ t. Dict.get t.users row.user_id)
      user ← or_raise owner session_not_found
      raise_if (is_some user.disabled_at) session_not_found
      modify (put_session (record row { last_used_at = some now }))
      pure user)

  unfoldable pub change_password :
      Ambient → ℕ → String → String → Option String → Exec UserTables (Unit {0})
  change_password a user_id current_password new_password current_session_token = transaction (do
    found ← gets (λ t. Dict.get t.users user_id)
    user ← or_raise found invalid_user_credentials
    raise_if (not (verify_password g.lib current_password user.password_hash))
        invalid_user_credentials
    modify (put_user (record user { password_hash = hash_password g.lib a.salt new_password }))
    revoke_other_sessions user_id current_session_token a.now)

  unfoldable pub reset_password : Ambient → ℕ → String → Exec UserTables (Unit {0})
  reset_password a user_id new_password = transaction (do
    found ← gets (λ t. Dict.get t.users user_id)
    user ← or_raise found session_not_found
    modify (put_user (record user { password_hash = hash_password g.lib a.salt new_password }))
    revoke_other_sessions user_id none a.now)

  abbrev pub active_token_hash_key : Exec UserTables String
  active_token_hash_key =
      or_raise (Dict.get g.token_hash_keys g.active_token_hash_version) key_error

  unfoldable pub create_api_key :
      Ambient
      → ℕ
      → String
      → Option ℕ
      → Option (List String)
      → Exec UserTables (ApiKeyRecord × String)
  create_api_key a user_id name mailbox_id scopes = do
    raw_key ← lift (generate_api_key "live" a.draws)
    parts ← lift (parse_api_key raw_key)
    transaction (do
      active ← active_token_hash_key
      key_hash ← lift (hash_api_key g.lib raw_key active)
      id ← gets (λ t. t.next_api_key_id)
      let key : ApiKeyRecord = record {
        id = id;
        user_id = user_id;
        mailbox_id = mailbox_id;
        scopes = or_read scopes;
        name = name;
        prefix = parts.prefix;
        key_hash = key_hash;
        hash_version = g.active_token_hash_version;
        created_at = a.now;
        last_used_at = none;
        revoked_at = none;
      }
      insert_key integrity_error key
      pure (key, raw_key))

  -- `token_hash_key is not None and verify_api_key_hash(…)`
  abbrev pub key_fits : String → ApiKeyRecord → Bool
  key_fits raw_key key = elim (Dict.get g.token_hash_keys key.hash_version) [
    | none ↦ false
    | some hash_key ↦ verify_api_key_hash g.lib raw_key key.key_hash hash_key
  ]

  unfoldable pub authenticate_api_key : ℕ → String → Exec UserTables ApiKeyRecord
  authenticate_api_key now raw_key = do
    parts ← lift (parse_api_key raw_key)
    transaction (do
      found ← gets (λ t. find (λ (k : ApiKeyRecord). k.prefix == parts.prefix) (values t.api_keys))
      key ← or_raise found api_key_not_found
      raise_if (is_some key.revoked_at) api_key_not_found
      raise_if (not (key_fits raw_key key)) api_key_not_found
      modify (put_key (record key { last_used_at = some now }))
      pure (record key { last_used_at = some now }))

unfoldable pub revoke_session : ℕ → String → Exec UserTables (Unit {0})
revoke_session now raw_token = do
  parts ← lift (parse_session_token raw_token)
  transaction (do
    found ← gets (session_by_prefix parts.0)
    elim found [
      | none ↦ pure tt
      | some row ↦ modify (put_session (record row { revoked_at = some now }))
    ])

unfoldable pub update_profile : ℕ → String → Exec UserTables UserRecord
update_profile user_id name = transaction (do
  found ← gets (λ t. Dict.get t.users user_id)
  user ← or_raise found session_not_found
  modify (put_user (record user { name = name }))
  pure (record user { name = name }))

abbrev pub list_users : UserTables → List UserRecord
list_users t = values t.users

unfoldable pub update_user_status : ℕ → ℕ → String → Exec UserTables UserRecord
update_user_status now user_id status = transaction (do
  found ← gets (λ t. Dict.get t.users user_id)
  user ← or_raise found session_not_found
  disabled_at ← lift (status_time status now)
  modify (put_user (record user { disabled_at = disabled_at }))
  pure (record user { disabled_at = disabled_at }))

abbrev pub list_api_keys : ℕ → UserTables → List ApiKeyRecord
list_api_keys user_id t =
    filter (λ (key : ApiKeyRecord). key.user_id == user_id) (values t.api_keys)

unfoldable pub delete_api_key : ℕ → ℕ → Exec UserTables (Unit {0})
delete_api_key user_id api_key_id = transaction (do
  found ← gets (λ t. own_key user_id (Dict.get t.api_keys api_key_id))
  key ← or_raise found api_key_not_found
  modify (λ t. record t { api_keys = Dict.remove t.api_keys api_key_id }))

abbrev pub revoke_api_key : ℕ → ℕ → Exec UserTables (Unit {0})
revoke_api_key = delete_api_key

unfoldable pub update_api_key_status : ℕ → ℕ → ℕ → String → Exec UserTables ApiKeyRecord
update_api_key_status now user_id api_key_id status = transaction (do
  found ← gets (λ t. own_key user_id (Dict.get t.api_keys api_key_id))
  key ← or_raise found api_key_not_found
  revoked_at ← lift (status_time status now)
  modify (put_key (record key { revoked_at = revoked_at }))
  pure (record key { revoked_at = revoked_at }))
