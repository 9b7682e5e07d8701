-- ===== src/Accounts/Memory.antt =====
-- `AccountService` of src/postara/accounts.py, over dictionaries.
pub mod Verification
pub mod Unique
pub mod Rename
use postara.Errors.{
  account_not_found, duplicate_email, duplicate_mailbox_name, verification_not_found,
  verification_expired, verification_failed, reconnect_required_credentials_missing, value_error,
}
use postara.Exec.{
  Outcome, returned, raised, Exec, pure, raise, gets, lift, or_raise, modify, raise_if, ◌>>=◌, ◌>>◌,
}
use postara.Prelude.{
  ℕ, String, Bool, false, not, Option, none, some, List, leb, filter, any, find, ◌+◌, ◌&&◌, ◌||◌,
  if◌then◌else◌, ◌==◌, nat_eq, string_eq, option_eq,
}
use postara.Security.{
  Library, generate_api_key, parse_api_key, hash_api_key, verify_api_key_hash,
  hash_verification_code, verify_verification_code_hash,
}
use postara.Text.{◌<>◌}
use postara.Crypto.{CredentialCipher, EncryptedCredential, encrypt, decrypt}
use postara.Accounts.{
  AccountRecord, PendingVerification, Ambient, Credential, app_password, oauth2, OAuthGrant,
  validate_mailbox_name, is_users, has_email, has_name, own_account, or_no_scopes, canonical_email,
  set_password, set_grant, blank_account, count_attempt, open_verification, set_health,
}
use postara.Dict
use postara.Dict.{Dict, values, find_entry}

pub record AccountService : Type 0 where
  pub next_id : ℕ
  pub accounts : Dict ℕ AccountRecord
  pub pending_verifications : Dict String PendingVerification

-- The parts of the service that its methods do not change.
pub record Setting : Type 0 where
  pub lib : Library
  pub cipher : CredentialCipher
  pub token_hash_key : String

abbrev pub put_account : ℕ → AccountRecord → AccountService → AccountService
put_account id account s = record s { accounts = Dict.put s.accounts id account }

abbrev pub put_pending : PendingVerification → AccountService → AccountService
put_pending v s = record s { pending_verifications = Dict.put s.pending_verifications v.id v }

abbrev pub add_account : AccountRecord → AccountService → AccountService
add_account account s = put_account account.id account (record s { next_id = s.next_id + 1 })

unfoldable pub get : ℕ → Exec AccountService AccountRecord
get account_id s = or_raise (Dict.get s.accounts account_id) account_not_found s

unfoldable pub get_for_user : ℕ → ℕ → Exec AccountService AccountRecord
get_for_user user_id account_id s =
    or_raise (own_account user_id (Dict.get s.accounts account_id)) account_not_found s

unfoldable pub get_for_user_by_name : ℕ → String → Exec AccountService AccountRecord
get_for_user_by_name user_id name s =
    or_raise (find (has_name (some user_id) name) (values s.accounts)) account_not_found s

unfoldable pub list_for_user : ℕ → AccountService → List AccountRecord
list_for_user user_id s = filter (is_users (some user_id)) (values s.accounts)

-- The two uniqueness tests that open several methods.
abbrev pub require_unique : Option ℕ → String → String → Exec AccountService (Unit {0})
require_unique user_id email name = do
  email_taken ← gets (λ s. any (has_email user_id email) (values s.accounts))
  raise_if email_taken duplicate_email
  name_taken ← gets (λ s. any (has_name user_id name) (values s.accounts))
  raise_if name_taken duplicate_mailbox_name

module _ (g : Setting) where
  -- A new API key, its prefix and its hash.
  abbrev pub new_api_key : Ambient → Exec AccountService (String × String × String)
  new_api_key a = do
    api_key ← lift (generate_api_key "live" a.draws)
    parts ← lift (parse_api_key api_key)
    hash ← lift (hash_api_key g.lib api_key g.token_hash_key)
    pure (api_key, parts.prefix, hash)

  unfoldable pub create :
      Ambient
      → String
      → String
      → String
      → String
      → Option ℕ
      → Exec AccountService (AccountRecord × String)
  create a name email provider password user_id = do
    validate_mailbox_name name
    require_unique user_id email name
    raise_if (not (provider == "gmail")) value_error
    encrypted ← encrypt g.lib g.cipher a.seed password
    key ← new_api_key a
    id ← gets (λ s. s.next_id)
    let account = set_password encrypted (
        blank_account id user_id name email provider "app_password" "imap.gmail.com" 993 key.1 key.2
          1 a.now)
    modify (add_account account)
    pure (account, key.0)

  unfoldable pub create_with_app_password :
      Ambient → ℕ → String → String → String → String → Exec AccountService AccountRecord
  create_with_app_password a user_id name email provider password = do
    made ← create a name email provider password (some user_id)
    pure made.0

  abbrev pub create_for_user :
      Ambient → ℕ → String → String → String → String → Exec AccountService AccountRecord
  create_for_user = create_with_app_password

  -- `expires_at or now + timedelta(minutes=15)`
  abbrev pub or_quarter : ℕ → Option ℕ → ℕ
  or_quarter now none = now + 900
  or_quarter now (some t) = t

  unfoldable pub start_app_password_verification :
      Ambient
      → ℕ
      → String
      → String
      → String
      → String
      → String
      → Option ℕ
      → Exec AccountService PendingVerification
  start_app_password_verification a user_id name email provider password code expires_at = do
    validate_mailbox_name name
    require_unique (some user_id) email name
    encrypted ← encrypt g.lib g.cipher a.seed password
    hashed ← lift (hash_verification_code g.lib code g.token_hash_key 1)
    let verification : PendingVerification = record {
      id = "mbv_" <> a.url_token;
      user_id = user_id;
      mailbox_id = none;
      provider = provider;
      auth_type = "app_password";
      name = name;
      email = email;
      encrypted_password = encrypted.ciphertext;
      key_version = encrypted.key_version;
      code_hash = hashed.1;
      code_hash_version = hashed.0;
      attempts = 0;
      status = "verifying";
      expires_at = or_quarter a.now expires_at;
      created_at = a.now;
      verified_at = none;
    }
    modify (put_pending verification)
    pure verification

  unfoldable pub complete_app_password_verification :
      Ambient → ℕ → String → String → Exec AccountService AccountRecord
  complete_app_password_verification a user_id verification_id code = do
    found ← gets (λ s. open_verification user_id (Dict.get s.pending_verifications verification_id))
    v ← or_raise found verification_not_found
    if leb v.expires_at a.now
        then (do
          modify (λ s. record s {
            pending_verifications =
                Dict.put s.pending_verifications verification_id (record v { status = "expired" });
          })
          raise verification_expired)
        else if not (verify_verification_code_hash g.lib code v.code_hash g.token_hash_key)
        then (do
          modify (λ s. record s {
            pending_verifications =
                Dict.put s.pending_verifications verification_id (count_attempt v);
          })
          raise verification_failed)
        else (do
          password ← decrypt g.lib g.cipher v.encrypted_password v.key_version
          account ← create_with_app_password a user_id v.name v.email v.provider password
          modify (λ s. record s {
            pending_verifications = Dict.put s.pending_verifications verification_id (record v {
              mailbox_id = some account.id;
              status = "verified";
              verified_at = some a.now;
            });
          })
          pure account)

  abbrev pub encrypt_optional :
      Ambient → Option String → Exec AccountService (Option EncryptedCredential)
  encrypt_optional a none = pure none
  encrypt_optional a (some plain) = do e ← encrypt g.lib g.cipher a.access_seed plain; pure (some e)

  -- The grant goes into the account of that name, if there is one of the same kind.
  abbrev pub regrant : Ambient → OAuthGrant → ℕ → AccountRecord → Exec AccountService AccountRecord
  regrant a o id existing = do
    raise_if (not (existing.auth_type == "oauth2") || not (existing.provider == o.provider))
        duplicate_mailbox_name
    refresh ← encrypt g.lib g.cipher a.seed o.refresh_token
    access ← encrypt_optional a o.access_token
    let account = set_grant o refresh access existing
    modify (put_account id account)
    pure account

  abbrev pub grant_new : Ambient → ℕ → OAuthGrant → Exec AccountService AccountRecord
  grant_new a user_id o = do
    raise_if (not (o.provider == "gmail")) value_error
    key ← new_api_key a
    refresh ← encrypt g.lib g.cipher a.seed o.refresh_token
    access ← encrypt_optional a o.access_token
    id ← gets (λ s. s.next_id)
    let account = set_grant o refresh access (
        blank_account id (some user_id) o.name (canonical_email o) o.provider "oauth2"
          "imap.gmail.com" 993 key.1 key.2 1 a.now)
    modify (add_account account)
    pure account

  -- The first account with the e-mail has another name.
  abbrev pub other_name : String → Option AccountRecord → Bool
  other_name name none = false
  other_name name (some account) = not (account.name == name)

  unfoldable pub create_with_oauth : Ambient → ℕ → OAuthGrant → Exec AccountService AccountRecord
  create_with_oauth a user_id o = do
    validate_mailbox_name o.name
    existing_email ←
        gets (λ s. find (has_email (some user_id) (canonical_email o)) (values s.accounts))
    raise_if (other_name o.name existing_email) duplicate_email
    existing ← gets (λ s. find_entry (has_name (some user_id) o.name) s.accounts)
    elim existing [ some (id, account) ↦ regrant a o id account | none ↦ grant_new a user_id o ]

  abbrev pub key_matches : String → String → AccountRecord → Bool
  key_matches prefix raw_key account =
      (account.api_key_prefix == prefix)
      && verify_api_key_hash g.lib raw_key account.api_key_hash g.token_hash_key

  unfoldable pub authenticate_key : ℕ → String → Exec AccountService AccountRecord
  authenticate_key now raw_key = do
    parts ← lift (parse_api_key raw_key)
    found ← gets (λ s. find_entry (key_matches parts.prefix raw_key) s.accounts)
    entry ← or_raise found account_not_found
    let used = record (entry.1) { last_used_at = some now }
    modify (put_account entry.0 used)
    pure used

  unfoldable pub require_key_for_account : ℕ → ℕ → String → Exec AccountService AccountRecord
  require_key_for_account now account_id raw_key = do
    account ← authenticate_key now raw_key
    raise_if (not (account.id == account_id)) account_not_found
    pure account

  abbrev pub require_optional_key : ℕ → ℕ → Option String → Exec AccountService (Unit {0})
  require_optional_key now account_id none = pure tt
  require_optional_key now account_id (some raw_key) = do
    account ← require_key_for_account now account_id raw_key
    pure tt

  -- The account object is read before the key is checked, and written after.
  unfoldable pub rotate_key :
      Ambient → ℕ → Option String → Exec AccountService (AccountRecord × String)
  rotate_key a account_id raw_key = do
    known ← get account_id
    require_optional_key a.now account_id raw_key
    account ← get account_id
    key ← new_api_key a
    let rotated = record account {
      api_key_prefix = key.1;
      api_key_hash = key.2;
      api_key_hash_version = 1;
    }
    modify (put_account account_id rotated)
    pure (rotated, key.0)

  unfoldable pub update_credentials :
      Ambient → ℕ → String → String → Exec AccountService AccountRecord
  update_credentials a account_id raw_key password = do
    account ← require_key_for_account a.now account_id raw_key
    encrypted ← encrypt g.lib g.cipher a.seed password
    modify (put_account account_id (set_password encrypted account))
    pure (set_password encrypted account)

  unfoldable pub update_credentials_for_user :
      Ambient → ℕ → ℕ → String → Exec AccountService AccountRecord
  update_credentials_for_user a user_id account_id password = do
    account ← get_for_user user_id account_id
    encrypted ← encrypt g.lib g.cipher a.seed password
    modify (put_account account_id (set_password encrypted account))
    pure (set_password encrypted account)

  -- The password of an account that has one, in clear.
  abbrev pub decrypt_password : Option String → Option ℕ → Exec AccountService String
  decrypt_password (some ciphertext) (some version) = decrypt g.lib g.cipher ciphertext version
  decrypt_password _ _ = raise account_not_found

  unfoldable pub get_password_for_imap : ℕ → Exec AccountService String
  get_password_for_imap account_id = do
    account ← get account_id
    decrypt_password account.encrypted_password account.key_version

  abbrev pub resolve_oauth :
      AccountRecord → Option String → Option ℕ → Exec AccountService Credential
  resolve_oauth account (some access) (some version) = do
    token ← decrypt g.lib g.cipher access version
    pure (oauth2 token (or_no_scopes account.oauth_scopes) account.oauth_token_expires_at)
  resolve_oauth account _ _ = raise reconnect_required_credentials_missing

  unfoldable pub resolve_runtime_credential : AccountRecord → Exec AccountService Credential
  resolve_runtime_credential account =
      if account.auth_type == "app_password"
      then (do
        password ← decrypt_password account.encrypted_password account.key_version
        pure (app_password password))
      else if account.auth_type == "oauth2"
      then resolve_oauth account account.oauth_access_token account.key_version
      else raise account_not_found

  -- The health that the end of `_resolve_runtime_credential` leaves; only a missing credential is
  -- taken by the handler, and raised again.
  abbrev pub record_health :
      ℕ
      → ℕ
      → AccountRecord
      → Outcome Credential
      → AccountService
      → Outcome Credential × AccountService
  record_health now id account (returned credential) s =
      (returned credential, put_account id (set_health "ok" none now account) s)
  record_health now id account (raised reconnect_required_credentials_missing) s = (
    raised reconnect_required_credentials_missing,
    put_account id (set_health "reconnect_required" (some "credentials_missing") now account) s,
  )
  record_health now id account (raised e) s = (raised e, s)

  unfoldable pub get_credential_for_runtime : ℕ → ℕ → Exec AccountService Credential
  get_credential_for_runtime now account_id = do
    account ← get account_id
    λ s.
        let (r, s') = resolve_runtime_credential account s in
        record_health now account_id account r s'

unfoldable pub update_name_for_user : ℕ → ℕ → String → Exec AccountService AccountRecord
update_name_for_user user_id account_id name = do
  validate_mailbox_name name
  account ← get_for_user user_id account_id
  taken ← gets (λ s.
      any
        (λ (item : AccountRecord). not (item.id == account_id) && has_name (some user_id) name item)
        (values s.accounts))
  raise_if taken duplicate_mailbox_name
  modify (put_account account_id (record account { name = name }))
  pure (record account { name = name })

unfoldable pub delete : ℕ → Exec AccountService (Unit {0})
delete account_id = do
  account ← get account_id
  modify (λ s. record s { accounts = Dict.remove s.accounts account_id })

unfoldable pub delete_for_user : ℕ → ℕ → Exec AccountService (Unit {0})
delete_for_user user_id account_id = do account ← get_for_user user_id account_id; delete account_id
