-- ===== src/Accounts/Service.antt =====
-- `RepositoryAccountService` of src/postara/accounts.py: each method is a transaction on the tables,
-- with the audit event that goes into the outbox. `record_message_seen` is the audit event alone.
-- All that one call reads of the clock is `a.now`.
pub mod Guesses
pub mod Audited
use postara.Errors.{
  account_not_found, reconnect_required_credentials_missing,
  reconnect_required_oauth_refresh_failed, credential_cipher,
}
use postara.Exec.{Outcome, returned, raised, Exec, pure, raise, transaction, modify, ◌>>=◌, ◌>>◌}
use postara.Prelude.{
  ℕ, String, Bool, false, Option, none, some, List, ltb, leb, ◌+◌, ◌&&◌, if◌then◌else◌, ◌==◌,
  nat_eq, string_eq, option_eq,
}
use postara.Crypto.{decrypt}
use postara.Audit.{Fields, text, boolean, end, field, Python, AuditEvent}
use postara.Audit.Outbox.{event_object, enqueue}
use postara.Accounts.{
  AccountRecord, PendingVerification, Ambient, Credential, app_password, oauth2, OAuthGrant,
  or_no_scopes, set_health,
}
use postara.Accounts.Tables.{Tables}
use postara.Accounts.Repository
use postara.Accounts.Repository.{Repository, get_by_id}
use postara.Dict
use postara.Dict.{Dict}

-- The keys that `_audit_event` reads of the context; `none` is a key that is not there.
pub record AuditContext : Type 0 where
  pub actor_type : Option String
  pub actor_id : Option String
  pub client_ip : Option String
  pub user_agent : Option String
  pub request_id : Option String

-- What the provider answers to a refresh token.
pub record OAuthTokens : Type 0 where
  pub access_token : String
  pub expires_at : Option ℕ
  pub scopes : List String

-- The service, with the refreshers of src/postara/oauth.py: `none` is `OAuthExchangeError`.
pub record RepositoryAccountService : Type 0 where
  pub repo : Repository
  pub python : Python
  pub oauth_refreshers : Dict String (String → List String → Option OAuthTokens)

abbrev pub no_context : AuditContext
no_context = record {
  actor_type = none;
  actor_id = none;
  client_ip = none;
  user_agent = none;
  request_id = none;
}

-- `context or {}`
abbrev pub or_no_context : Option AuditContext → AuditContext
or_no_context none = no_context
or_no_context (some context) = context

-- `context.get(key, default)`
abbrev pub or_default : String → Option String → String
or_default default none = default
or_default default (some s) = s

unfoldable pub audit_event : Option AuditContext → String → Option ℕ → Fields → AuditEvent
audit_event given action target_account_id extra =
    let context = or_no_context given in
    record {
      action = action;
      actor_type = or_default "anonymous" context.actor_type;
      actor_id = context.actor_id;
      status = "success";
      request_id = or_default "system" context.request_id;
      client_ip = or_default "0.0.0.0" context.client_ip;
      user_agent = or_default "unknown" context.user_agent;
      target_account_id = target_account_id;
      extra = some extra;
      timestamp = none;
    }

-- `expires_at <= current_time + timedelta(minutes=5)`
unfoldable pub oauth_token_needs_refresh : Option ℕ → ℕ → Bool
oauth_token_needs_refresh none now = false
oauth_token_needs_refresh (some expires_at) now = leb expires_at (now + 300)

-- `unchanged and fresh` of `_record_mailbox_health`; the interval is ten minutes.
unfoldable pub is_recorded : String → Option String → ℕ → AccountRecord → Bool
is_recorded status detail now account =
    (account.health_status == status)
    && (account.health_detail == detail)
    && elim account.health_checked_at [ none ↦ false | some t ↦ ltb now (t + 600) ]

abbrev pub write_health : ℕ → String → Option String → ℕ → Option AccountRecord → Tables → Tables
write_health account_id status detail now none t = t
write_health account_id status detail now (some account) t =
    if is_recorded status detail now account then t else record t {
      accounts = Dict.put t.accounts account_id (set_health status detail now account);
    }

unfoldable pub record_mailbox_health : ℕ → String → Option String → ℕ → Exec Tables (Unit {0})
record_mailbox_health account_id status detail now =
    modify λ t. write_health account_id status detail now (Dict.get t.accounts account_id) t

-- `extra={"email": …, "provider": …, "auth_type": …}`
abbrev pub mailbox_extra : String → String → String → Fields
mailbox_extra email provider auth_type =
    field "email" (text email)
      (field "provider" (text provider) (field "auth_type" (text auth_type) end))

-- `not raw_key`
abbrev pub rotate_action : Option String → String
rotate_action none = "apikey.rotate.forced"
rotate_action (some raw_key) = if raw_key == "" then "apikey.rotate.forced" else "apikey.rotate"

-- What the provider answered, or the exception that takes the place of `OAuthExchangeError`.
abbrev pub exchanged : Option OAuthTokens → Exec Tables OAuthTokens
exchanged none = raise reconnect_required_oauth_refresh_failed
exchanged (some tokens) = pure tokens

module _ (g : RepositoryAccountService) where
  unfoldable pub enqueue_event : Ambient → AuditEvent → Exec Tables (Unit {0})
  enqueue_event a event = modify λ t. record t {
    outbox = enqueue g.python t.next_outbox_id a.now (event_object event) t.outbox;
    next_outbox_id = t.next_outbox_id + 1;
  }

  -- `_refresh_oauth_access_token`, past its first test.
  abbrev pub refresh_with :
      Ambient
      → AccountRecord
      → Option (String → List String → Option OAuthTokens)
      → Option String
      → Option ℕ
      → Exec Tables AccountRecord
  refresh_with a account (some refresher) (some sealed) (some version) = do
    refresh_token ← decrypt g.repo.lib g.repo.cipher sealed version
    tokens ← exchanged (refresher refresh_token (or_no_scopes account.oauth_scopes))
    Repository.update_oauth_tokens g.repo a account.id refresh_token tokens.access_token
        tokens.expires_at tokens.scopes
  refresh_with a account _ _ _ = raise reconnect_required_oauth_refresh_failed

  unfoldable pub refresh_oauth_access_token : Ambient → AccountRecord → Exec Tables AccountRecord
  refresh_oauth_access_token a account =
      refresh_with a account (Dict.get g.oauth_refreshers account.provider)
        account.oauth_refresh_token account.key_version

  abbrev pub refreshed_if_due : Ambient → AccountRecord → Exec Tables AccountRecord
  refreshed_if_due a account =
      if oauth_token_needs_refresh account.oauth_token_expires_at a.now
      then (do
        updated ← refresh_oauth_access_token a account
        enqueue_event a (
            audit_event none "mailbox.oauth_token_refreshed" (some updated.id)
              (field "provider" (text updated.provider) (field "auth_type" (text "oauth2") end)))
        pure updated)
      else pure account

  -- `self._cipher.decrypt(…)` of two columns; an absent version is no key of the cipher.
  abbrev pub decrypt_columns : Option String → Option ℕ → Exec Tables String
  decrypt_columns (some sealed) (some version) = decrypt g.repo.lib g.repo.cipher sealed version
  decrypt_columns _ _ = raise credential_cipher

  abbrev pub resolve_app_password : Option String → Option ℕ → Exec Tables Credential
  resolve_app_password (some sealed) (some version) = do
    password ← decrypt g.repo.lib g.repo.cipher sealed version
    pure (app_password password)
  resolve_app_password _ _ = raise account_not_found

  abbrev pub resolve_oauth :
      Ambient → AccountRecord → Option String → Option ℕ → Exec Tables Credential
  resolve_oauth a account (some _) (some _) = do
    current ← refreshed_if_due a account
    token ← decrypt_columns current.oauth_access_token current.key_version
    pure (oauth2 token (or_no_scopes current.oauth_scopes) current.oauth_token_expires_at)
  resolve_oauth a account _ _ = raise reconnect_required_credentials_missing

  unfoldable pub resolve_runtime_credential : Ambient → ℕ → Exec Tables Credential
  resolve_runtime_credential a account_id = transaction (do
    account ← get_by_id account_id
    if account.auth_type == "app_password"
        then resolve_app_password account.encrypted_password account.key_version
        else if account.auth_type == "oauth2"
        then resolve_oauth a account account.oauth_access_token account.key_version
        else raise account_not_found)

  -- The handler of `get_credential_for_runtime`, and its end.
  abbrev pub after_resolve : Ambient → ℕ → Outcome Credential → Exec Tables Credential
  after_resolve a account_id (returned credential) = do
    record_mailbox_health account_id "ok" none a.now
    pure credential
  after_resolve a account_id (raised reconnect_required_credentials_missing) = do
    record_mailbox_health account_id "reconnect_required" (some "credentials_missing") a.now
    raise reconnect_required_credentials_missing
  after_resolve a account_id (raised reconnect_required_oauth_refresh_failed) = do
    record_mailbox_health account_id "reconnect_required" (some "oauth_refresh_failed") a.now
    raise reconnect_required_oauth_refresh_failed
  after_resolve a account_id (raised e) = raise e

  unfoldable pub get_credential_for_runtime : Ambient → ℕ → Exec Tables Credential
  get_credential_for_runtime a account_id t =
      let (r, t') = resolve_runtime_credential a account_id t in after_resolve a account_id r t'

  unfoldable pub get_password_for_imap : ℕ → Exec Tables String
  get_password_for_imap account_id = do
    account ← get_by_id account_id
    decrypt_columns account.encrypted_password account.key_version

  unfoldable pub require_key_for_account : ℕ → ℕ → String → Exec Tables AccountRecord
  require_key_for_account now account_id raw_key =
      transaction (Repository.require_key_for_account g.repo now account_id raw_key)

  module _ (context : Option AuditContext) (a : Ambient) where
    unfoldable pub create : String → String → String → String → Exec Tables (AccountRecord × String)
    create name email provider password = transaction (do
      made ← Repository.create g.repo a name email provider password none
      enqueue_event a (
          audit_event context "account.create" (some (made.0).id)
            (field "email" (text (made.0).email) end))
      pure made)

    unfoldable pub create_for_user :
        ℕ → String → String → String → String → Exec Tables AccountRecord
    create_for_user user_id name email provider password = transaction (do
      made ← Repository.create g.repo a name email provider password (some user_id)
      enqueue_event a (
          audit_event context "account.create" (some (made.0).id)
            (field "email" (text (made.0).email) end))
      pure made.0)

    unfoldable pub start_app_password_verification :
        ℕ → String → String → String → String → String → ℕ → Exec Tables PendingVerification
    start_app_password_verification user_id name email provider password code expires_at =
        transaction (do
          verification ←
              Repository.create_pending_app_password_verification g.repo a user_id name email
                provider password code expires_at
          enqueue_event a (
              audit_event context "mailbox.app_password_verify_sent" none
                (mailbox_extra email provider "app_password"))
          pure verification)

    unfoldable pub complete_app_password_verification :
        ℕ → String → String → Exec Tables AccountRecord
    complete_app_password_verification user_id verification_id code = transaction (do
      account ←
          Repository.complete_pending_app_password_verification g.repo a user_id verification_id
            code
      enqueue_event a (
          audit_event context "mailbox.app_password_verify_completed" (some account.id)
            (mailbox_extra account.email account.provider "app_password"))
      pure account)

    unfoldable pub create_with_oauth : ℕ → OAuthGrant → Exec Tables AccountRecord
    create_with_oauth user_id o = transaction (do
      account ← Repository.create_with_oauth g.repo a user_id o
      enqueue_event a (
          audit_event context "mailbox.oauth_completed" (some account.id)
            (mailbox_extra account.email o.provider "oauth2"))
      pure account)

    unfoldable pub update_name_for_user : ℕ → ℕ → String → Exec Tables AccountRecord
    update_name_for_user user_id account_id name = transaction (do
      account ← Repository.update_name_for_user user_id account_id name
      enqueue_event a (
          audit_event context "mailbox.name_updated" (some account.id)
            (field "name" (text account.name) end))
      pure account)

    unfoldable pub rotate_key : ℕ → Option String → Exec Tables (AccountRecord × String)
    rotate_key account_id raw_key = transaction (do
      rotated ← Repository.rotate_api_key g.repo a account_id raw_key
      enqueue_event a (audit_event context (rotate_action raw_key) (some (rotated.0).id) end)
      pure rotated)

    unfoldable pub update_credentials : ℕ → String → String → Exec Tables AccountRecord
    update_credentials account_id raw_key password = transaction (do
      account ← Repository.update_credentials g.repo a account_id raw_key password
      enqueue_event a (audit_event context "credentials.update" (some account.id) end)
      pure account)

    unfoldable pub update_credentials_for_user : ℕ → ℕ → String → Exec Tables AccountRecord
    update_credentials_for_user user_id account_id password = transaction (do
      account ← Repository.update_credentials_for_user g.repo a user_id account_id password
      enqueue_event a (audit_event context "credentials.update" (some account.id) end)
      pure account)

    unfoldable pub delete : ℕ → Exec Tables (Unit {0})
    delete account_id = transaction (do
      Repository.delete account_id
      enqueue_event a (audit_event context "account.delete" (some account_id) end))

    unfoldable pub delete_for_user : ℕ → ℕ → Exec Tables (Unit {0})
    delete_for_user user_id account_id = transaction (do
      Repository.delete_for_user user_id account_id
      enqueue_event a (audit_event context "account.delete" (some account_id) end))

    unfoldable pub record_message_seen : ℕ → String → Bool → Exec Tables (Unit {0})
    record_message_seen account_id uid seen = transaction (
        enqueue_event a (
          audit_event context "message.mark_seen" (some account_id)
            (field "uid" (text uid) (field "seen" (boolean seen) end))))
