-- ===== src/Accounts.antt =====
-- src/postara/accounts.py and the account tables of src/postara/models.py: mailboxes, their
-- credentials, and the verification of an app password. Times are UTC instants in seconds.
pub mod Memory
pub mod Tables
pub mod Repository
pub mod Service
use postara.Errors.{value_error}
use postara.Exec.{Exec, raise_if}
use Prim.Native.Char.{Char, code}
use postara.Prelude.{
  ℕ, String, Bool, true, not, Option, none, some, List, [], leb, ◌+◌, ◌&&◌, ◌||◌, if◌then◌else◌,
  ◌==◌, nat_eq, string_eq, option_eq,
}
use postara.Security.{Library, Draws}
use postara.Crypto.{CredentialCipher, EncryptedCredential}

-- `AccountRecord`, and the columns that the code reads of `AccountORM`.
pub record AccountRecord : Type 0 where
  pub id : ℕ
  pub user_id : Option ℕ
  pub name : String
  pub email : String
  pub provider : String
  pub auth_type : String
  pub encrypted_password : Option String
  pub key_version : Option ℕ
  pub imap_host : String
  pub imap_port : ℕ
  pub api_key_prefix : String
  pub api_key_hash : String
  pub api_key_hash_version : ℕ
  pub created_at : ℕ
  pub last_used_at : Option ℕ
  pub oauth_refresh_token : Option String
  pub oauth_access_token : Option String
  pub oauth_token_expires_at : Option ℕ
  pub oauth_scopes : Option (List String)
  pub oauth_subject : Option String
  pub oauth_email : Option String
  pub health_status : String
  pub health_checked_at : Option ℕ
  pub health_detail : Option String

pub record PendingVerification : Type 0 where
  pub id : String
  pub user_id : ℕ
  pub mailbox_id : Option ℕ
  pub provider : String
  pub auth_type : String
  pub name : String
  pub email : String
  pub encrypted_password : String
  pub key_version : ℕ
  pub code_hash : String
  pub code_hash_version : ℕ
  pub attempts : ℕ
  pub status : String
  pub expires_at : ℕ
  pub created_at : ℕ
  pub verified_at : Option ℕ

-- What lies outside of a call: the clock, the draws for an API key, the seeds of two encryptions,
-- and the text of `secrets.token_urlsafe(24)`.
pub record Ambient : Type 0 where
  pub now : ℕ
  pub draws : Draws
  pub seed : ℕ
  pub access_seed : ℕ
  pub url_token : String

-- `AppPasswordCredential` and `OAuth2Credential` of src/postara/credentials.py.
pub data Credential : Type 0 where
  app_password : String → Credential
  oauth2 : String → List String → Option ℕ → Credential

is_name_char : Char → Bool
is_name_char c =
    (leb b'A' (code c) && leb (code c) b'Z')
    || (leb b'a' (code c) && leb (code c) b'z')
    || (leb b'0' (code c) && leb (code c) b'9')
    || code c == b'-'

are_name_chars : String → Bool
unfolding is_name_char
are_name_chars String.[] = true
are_name_chars (String.◌∷◌ c s) = is_name_char c && are_name_chars s

-- `MAILBOX_NAME_PATTERN.fullmatch(name)`
unfoldable pub is_mailbox_name : String → Bool
unfolding are_name_chars
is_mailbox_name name = not (name == "") && are_name_chars name

abbrev pub validate_mailbox_name : {S : Type 0} → String → Exec S (Unit {0})
validate_mailbox_name name = raise_if (not (is_mailbox_name name)) value_error

abbrev pub is_users : Option ℕ → AccountRecord → Bool
is_users user_id account = account.user_id == user_id

abbrev pub has_email : Option ℕ → String → AccountRecord → Bool
has_email user_id email account = (account.email == email) && is_users user_id account

abbrev pub has_name : Option ℕ → String → AccountRecord → Bool
has_name user_id name account = (account.name == name) && is_users user_id account

-- The account if it is the user's.
abbrev pub own_account : ℕ → Option AccountRecord → Option AccountRecord
own_account user_id none = none
own_account user_id (some account) = if is_users (some user_id) account then some account else none

-- `existing.oauth_scopes or ()`
abbrev pub or_no_scopes : Option (List String) → List String
or_no_scopes none = []
or_no_scopes (some scopes) = scopes

-- The arguments of `create_with_oauth`.
pub record OAuthGrant : Type 0 where
  pub name : String
  pub email : String
  pub provider : String
  pub refresh_token : String
  pub access_token : Option String
  pub expires_at : Option ℕ
  pub scopes : List String
  pub subject : Option String
  pub oauth_email : String

-- `oauth_email or email`
abbrev pub canonical_email : OAuthGrant → String
canonical_email o = if o.oauth_email == "" then o.email else o.oauth_email

abbrev pub set_password : EncryptedCredential → AccountRecord → AccountRecord
set_password e account = record account {
  encrypted_password = some e.ciphertext;
  key_version = some e.key_version;
}

-- `encrypted_access.ciphertext if encrypted_access else None`
abbrev pub ciphertext_of : Option EncryptedCredential → Option String
ciphertext_of none = none
ciphertext_of (some e) = some e.ciphertext

-- The fields that a new consent writes to an account that is there.
abbrev pub set_grant :
    OAuthGrant → EncryptedCredential → Option EncryptedCredential → AccountRecord → AccountRecord
set_grant o refresh access account = record account {
  email = canonical_email o;
  encrypted_password = none;
  key_version = some refresh.key_version;
  oauth_refresh_token = some refresh.ciphertext;
  oauth_access_token = ciphertext_of access;
  oauth_token_expires_at = o.expires_at;
  oauth_scopes = some o.scopes;
  oauth_subject = o.subject;
  oauth_email = some (canonical_email o);
}

-- An account with no credential yet.
abbrev pub blank_account :
    ℕ
    → Option ℕ
    → String
    → String
    → String
    → String
    → String
    → ℕ
    → String
    → String
    → ℕ
    → ℕ
    → AccountRecord
blank_account id user_id name email provider auth_type host port prefix hash version now = record {
  id = id;
  user_id = user_id;
  name = name;
  email = email;
  provider = provider;
  auth_type = auth_type;
  encrypted_password = none;
  key_version = none;
  imap_host = host;
  imap_port = port;
  api_key_prefix = prefix;
  api_key_hash = hash;
  api_key_hash_version = version;
  created_at = now;
  last_used_at = none;
  oauth_refresh_token = none;
  oauth_access_token = none;
  oauth_token_expires_at = none;
  oauth_scopes = none;
  oauth_subject = none;
  oauth_email = none;
  health_status = "unknown";
  health_checked_at = none;
  health_detail = none;
}

-- `expires_at <= now`, then the state is "expired"; a wrong code counts, and the fifth fails.
abbrev pub count_attempt : PendingVerification → PendingVerification
count_attempt v =
    if leb 5 (v.attempts + 1)
    then record v { attempts = v.attempts + 1; status = "failed" }
    else record v { attempts = v.attempts + 1 }

-- `verification is None or verification.user_id != user_id or verification.status != "verifying"`
abbrev pub open_verification : ℕ → Option PendingVerification → Option PendingVerification
open_verification user_id none = none
open_verification user_id (some v) =
    if (v.user_id == user_id) && v.status == "verifying" then some v else none

abbrev pub set_health : String → Option String → ℕ → AccountRecord → AccountRecord
set_health status detail now account = record account {
  health_status = status;
  health_detail = detail;
  health_checked_at = some now;
}
