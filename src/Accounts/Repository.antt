-- ===== src/Accounts/Repository.antt =====
-- `AccountRepository` of src/postara/repositories.py. Its methods run inside a transaction of the
-- caller; `_as_utc` does nothing here, where all instants are in UTC.
pub mod Quiet
use postara.Errors.{
  account_not_found, duplicate_email, duplicate_mailbox_name, verification_not_found,
  verification_expired, verification_failed, value_error, key_error, integrity_error,
}
use postara.Exec.{
  Outcome, returned, raised, Exec, pure, raise, gets, lift, or_raise, modify, raise_if, ◌>>=◌, ◌>>◌,
}
use postara.Prelude.{
  ℕ, String, Bool, false, not, Option, none, some, List, [], leb, filter, any, find, ◌&&◌, ◌||◌,
  ◌∷◌, if◌then◌else◌, ◌==◌, nat_eq, string_eq, option_eq,
}
use postara.Security.{
  Library, generate_api_key, parse_api_key, hash_api_key, verify_api_key_hash,
  hash_verification_code, verify_verification_code_hash,
}
use postara.Text.{◌<>◌}
use postara.Crypto.{CredentialCipher, EncryptedCredential, encrypt, decrypt}
use postara.Accounts.{
  AccountRecord, PendingVerification, Ambient, OAuthGrant, validate_mailbox_name, is_users,
  has_email, has_name, own_account, canonical_email, set_password, set_grant, blank_account,
  count_attempt, open_verification,
}
use postara.Accounts.Tables.{Tables, flush_account, insert_account, flush_pending}
use postara.Dict
use postara.Dict.{Dict, values}

-- What `AccountRepository.__init__` keeps, beside the session.
pub record Repository : Type 0 where
  pub lib : Library
  pub cipher : CredentialCipher
  pub token_hash_keys : Dict ℕ String
  pub active_token_hash_version : ℕ

-- The choice of the hash keys in `__init__`.
unfoldable pub choose_keys : Option String → Option (Dict ℕ String) → ℕ → Outcome (Dict ℕ String)
choose_keys none none version = raised value_error
choose_keys (some key) none version = returned ((version, key) ∷ [])
choose_keys _ (some keys) version = elim (Dict.get keys version) [
  | none ↦ raised value_error
  | some _ ↦ returned keys
]

unfoldable pub get_by_id : ℕ → Exec Tables AccountRecord
get_by_id account_id t = or_raise (Dict.get t.accounts account_id) account_not_found t

unfoldable pub get_for_user : ℕ → ℕ → Exec Tables AccountRecord
get_for_user user_id account_id t =
    or_raise (own_account user_id (Dict.get t.accounts account_id)) account_not_found t

unfoldable pub get_for_user_by_name : ℕ → String → Exec Tables AccountRecord
get_for_user_by_name user_id name t =
    or_raise (find (has_name (some user_id) name) (values t.accounts)) account_not_found t

unfoldable pub list_for_user : ℕ → Tables → List AccountRecord
list_for_user user_id t = filter (is_users (some user_id)) (values t.accounts)

unfoldable pub require_unique_account_fields : Option ℕ → String → String → Exec Tables (Unit {0})
require_unique_account_fields user_id email name = do
  email_taken ← gets (λ t. any (has_email user_id email) (values t.accounts))
  raise_if email_taken duplicate_email
  name_taken ← gets (λ t. any (has_name user_id name) (values t.accounts))
  raise_if name_taken duplicate_mailbox_name

unfoldable pub assign_user : ℕ → ℕ → Exec Tables AccountRecord
assign_user account_id user_id = do
  account ← get_by_id account_id
  flush_account integrity_error (record account { user_id = some user_id })
  pure (record account { user_id = some user_id })

module _ (r : Repository) where
  -- `self._token_hash_keys[self._active_token_hash_version]`
  abbrev pub active_token_hash_key : Exec Tables String
  active_token_hash_key =
      or_raise (Dict.get r.token_hash_keys r.active_token_hash_version) key_error

  abbrev pub new_api_key : Ambient → Exec Tables (String × String × String)
  new_api_key a = do
    api_key ← lift (generate_api_key "live" a.draws)
    parts ← lift (parse_api_key api_key)
    active ← active_token_hash_key
    hash ← lift (hash_api_key r.lib api_key active)
    pure (api_key, parts.prefix, hash)

  unfoldable pub create :
      Ambient → String → String → String → String → Option ℕ → Exec Tables (AccountRecord × String)
  create a name email provider password user_id = do
    validate_mailbox_name name
    raise_if (not (provider == "gmail")) value_error
    require_unique_account_fields user_id email name
    encrypted ← encrypt r.lib r.cipher a.seed password
    key ← new_api_key a
    id ← gets (λ t. t.next_account_id)
    let account = set_password encrypted (
        blank_account id user_id name email provider "app_password" "imap.gmail.com" 993 key.1 key.2
          r.active_token_hash_version a.now)
    insert_account duplicate_email account
    pure (account, key.0)

  abbrev pub encrypt_optional : Ambient → Option String → Exec Tables (Option EncryptedCredential)
  encrypt_optional a none = pure none
  encrypt_optional a (some plain) = do e ← encrypt r.lib r.cipher a.access_seed plain; pure (some e)

  abbrev pub gmail_host : String → String
  gmail_host provider = if provider == "gmail" then "imap.gmail.com" else ""

  abbrev pub gmail_port : String → ℕ
  gmail_port provider = if provider == "gmail" then 993 else 0

  abbrev pub regrant :
      OAuthGrant
      → EncryptedCredential
      → Option EncryptedCredential
      → AccountRecord
      → Exec Tables AccountRecord
  regrant o refresh access existing = do
    raise_if (not (existing.auth_type == "oauth2") || not (existing.provider == o.provider))
        duplicate_mailbox_name
    flush_account duplicate_email (set_grant o refresh access existing)
    pure (set_grant o refresh access existing)

  abbrev pub grant_new :
      Ambient
      → ℕ
      → OAuthGrant
      → EncryptedCredential
      → Option EncryptedCredential
      → Exec Tables AccountRecord
  grant_new a user_id o refresh access = do
    require_unique_account_fields (some user_id) (canonical_email o) o.name
    key ← new_api_key a
    id ← gets (λ t. t.next_account_id)
    let account = set_grant o refresh access (
        blank_account id (some user_id) o.name (canonical_email o) o.provider "oauth2"
          (gmail_host o.provider) (gmail_port o.provider) key.1 key.2 r.active_token_hash_version
          a.now)
    insert_account duplicate_email account
    pure account

  unfoldable pub create_with_oauth : Ambient → ℕ → OAuthGrant → Exec Tables AccountRecord
  create_with_oauth a user_id o = do
    validate_mailbox_name o.name
    refresh ← encrypt r.lib r.cipher a.seed o.refresh_token
    access ← encrypt_optional a o.access_token
    existing ← gets (λ t. find (has_name (some user_id) o.name) (values t.accounts))
    elim existing [
      | some account ↦ regrant o refresh access account
      | none ↦ grant_new a user_id o refresh access
    ]

  unfoldable pub create_pending_app_password_verification :
      Ambient → ℕ → String → String → String → String → String → ℕ → Exec Tables PendingVerification
  create_pending_app_password_verification a user_id name email provider password code expires_at =
      do
        validate_mailbox_name name
        require_unique_account_fields (some user_id) email name
        encrypted ← encrypt r.lib r.cipher a.seed password
        active ← active_token_hash_key
        hashed ← lift (hash_verification_code r.lib code active r.active_token_hash_version)
        let verification : PendingVerification = record {
          id = "mbv_" <> a.url_token;
          user_id = user_id;
          mailbox_id = none;
          provider = provider;
          auth_type = "app_password";
          name = name;
          email = email;
          encrypted_password = encrypted.ciphertext;
          key_version = encrypted.key_version;
          code_hash = hashed.1;
          code_hash_version = hashed.0;
          attempts = 0;
          status = "verifying";
          expires_at = expires_at;
          created_at = a.now;
          verified_at = none;
        }
        flush_pending verification
        pure verification

  -- `code_key is not None and verify_verification_code_hash(…)`
  abbrev pub code_fits : String → PendingVerification → Bool
  code_fits code v = elim (Dict.get r.token_hash_keys v.code_hash_version) [
    | none ↦ false
    | some key ↦ verify_verification_code_hash r.lib code v.code_hash key
  ]

  unfoldable pub complete_pending_app_password_verification :
      Ambient → ℕ → String → String → Exec Tables AccountRecord
  complete_pending_app_password_verification a user_id verification_id code = do
    found ← gets (λ t. open_verification user_id (Dict.get t.pending verification_id))
    v ← or_raise found verification_not_found
    if leb v.expires_at a.now
        then (do flush_pending (record v { status = "expired" }); raise verification_expired)
        else if not (code_fits code v)
        then (do flush_pending (count_attempt v); raise verification_failed)
        else (do
          password ← decrypt r.lib r.cipher v.encrypted_password v.key_version
          made ← create a v.name v.email v.provider password (some user_id)
          flush_pending (record v {
            mailbox_id = some (made.0).id;
            status = "verified";
            verified_at = some a.now;
          })
          pure made.0)

  -- `token_hash_key is not None and verify_api_key_hash(…)`
  abbrev pub key_fits : String → AccountRecord → Bool
  key_fits raw_key account = elim (Dict.get r.token_hash_keys account.api_key_hash_version) [
    | none ↦ false
    | some key ↦ verify_api_key_hash r.lib raw_key account.api_key_hash key
  ]

  unfoldable pub get_by_api_key : ℕ → String → Exec Tables AccountRecord
  get_by_api_key now raw_key = do
    parts ← lift (parse_api_key raw_key)
    found ←
        gets
          (λ t. find (λ (x : AccountRecord). x.api_key_prefix == parts.prefix) (values t.accounts))
    account ← or_raise found account_not_found
    raise_if (not (key_fits raw_key account)) account_not_found
    flush_account integrity_error (record account { last_used_at = some now })
    pure (record account { last_used_at = some now })

  unfoldable pub require_key_for_account : ℕ → ℕ → String → Exec Tables AccountRecord
  require_key_for_account now account_id raw_key = do
    account ← get_by_api_key now raw_key
    raise_if (not (account.id == account_id)) account_not_found
    pure account

  abbrev pub require_optional_key : ℕ → ℕ → Option String → Exec Tables (Unit {0})
  require_optional_key now account_id none = pure tt
  require_optional_key now account_id (some raw_key) = do
    account ← require_key_for_account now account_id raw_key
    pure tt

  unfoldable pub rotate_api_key : Ambient → ℕ → Option String → Exec Tables (AccountRecord × String)
  rotate_api_key a account_id raw_key = do
    known ← get_by_id account_id
    require_optional_key a.now account_id raw_key
    account ← get_by_id account_id
    key ← new_api_key a
    let rotated = record account {
      api_key_prefix = key.1;
      api_key_hash = key.2;
      api_key_hash_version = r.active_token_hash_version;
    }
    flush_account integrity_error rotated
    pure (rotated, key.0)

  unfoldable pub update_credentials : Ambient → ℕ → String → String → Exec Tables AccountRecord
  update_credentials a account_id raw_key password = do
    account ← require_key_for_account a.now account_id raw_key
    encrypted ← encrypt r.lib r.cipher a.seed password
    flush_account integrity_error (set_password encrypted account)
    pure (set_password encrypted account)

  unfoldable pub update_credentials_for_user : Ambient → ℕ → ℕ → String → Exec Tables AccountRecord
  update_credentials_for_user a user_id account_id password = do
    account ← get_for_user user_id account_id
    encrypted ← encrypt r.lib r.cipher a.seed password
    flush_account integrity_error (set_password encrypted account)
    pure (set_password encrypted account)

  unfoldable pub update_oauth_tokens :
      Ambient → ℕ → String → String → Option ℕ → List String → Exec Tables AccountRecord
  update_oauth_tokens a account_id refresh_token access_token expires_at scopes = do
    account ← get_by_id account_id
    refresh ← encrypt r.lib r.cipher a.seed refresh_token
    access ← encrypt r.lib r.cipher a.access_seed access_token
    let updated = record account {
      oauth_refresh_token = some refresh.ciphertext;
      oauth_access_token = some access.ciphertext;
      key_version = some access.key_version;
      oauth_token_expires_at = expires_at;
      oauth_scopes = some scopes;
    }
    flush_account integrity_error updated
    pure updated

unfoldable pub update_name_for_user : ℕ → ℕ → String → Exec Tables AccountRecord
update_name_for_user user_id account_id name = do
  validate_mailbox_name name
  account ← get_for_user user_id account_id
  taken ← gets (λ t.
      any
        (λ (item : AccountRecord). not (item.id == account_id) && has_name (some user_id) name item)
        (values t.accounts))
  raise_if taken duplicate_mailbox_name
  flush_account integrity_error (record account { name = name })
  pure (record account { name = name })

unfoldable pub delete : ℕ → Exec Tables (Unit {0})
delete account_id = do
  account ← get_by_id account_id
  modify (λ t. record t { accounts = Dict.remove t.accounts account_id })

unfoldable pub delete_for_user : ℕ → ℕ → Exec Tables (Unit {0})
delete_for_user user_id account_id = do
  account ← get_for_user user_id account_id
  modify (λ t. record t { accounts = Dict.remove t.accounts account_id })
