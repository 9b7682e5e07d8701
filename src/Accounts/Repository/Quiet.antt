-- ===== src/Accounts/Repository/Quiet.antt =====
-- The methods of `AccountRepository` of src/postara/repositories.py and the audit outbox.
use postara.Errors.{
  duplicate_email, verification_not_found, verification_expired, verification_failed, value_error,
  Error,
}
use postara.Exec.{
  Outcome, returned, raised, Exec, pure, raise, gets, lift, or_raise, modify, raise_if, continue,
  ◌>>=◌, ◌>>◌,
}
use postara.Prelude.{
  ℕ, String, refl, Bool, true, false, not, Option, none, some, arith, leb, ◌+◌, ◌≡◌, ◌∙◌,
  if◌then◌else◌, ◌==◌, nat_eq, string_eq, option_eq,
}
use postara.Crypto.{encrypt, decrypt}
use postara.Audit.Outbox.{AuditOutboxOrm}
use postara.Accounts.{
  AccountRecord, PendingVerification, Ambient, open_verification, count_attempt, is_mailbox_name,
  set_password, blank_account,
}
use postara.Accounts.Tables.{Tables, flush_account, insert_account, flush_pending}
use postara.Accounts.Repository
use postara.Accounts.Repository.{
  Repository, get_by_id, get_for_user, require_unique_account_fields, create,
  complete_pending_app_password_verification, get_by_api_key, require_key_for_account,
  rotate_api_key, update_credentials, update_credentials_for_user, update_name_for_user, delete,
  delete_for_user, new_api_key, require_optional_key, active_token_hash_key,
}
use postara.Dict
use postara.Dict.{Dict}

-- The outbox and its next number.
abbrev pub log_of : Tables → Dict ℕ AuditOutboxOrm × ℕ
log_of t = (t.outbox, t.next_outbox_id)

pub record IsQuiet {A : Type 0} (m : Exec Tables A) : Type 0 where
  pub quiet : (t : Tables) → log_of (m t).1 ≡ log_of t

log_of-continue :
    {A B : Type 0} (r : Outcome A) (f : A → Exec Tables B)
    → ((x : A) → IsQuiet (f x))
    → (t : Tables) → log_of (continue r f t).1 ≡ log_of t
log_of-continue (returned x) f each t = (each x).quiet t
log_of-continue (raised e) f each t = refl

gets-IsQuiet : {A : Type 0} (f : Tables → A) → IsQuiet (gets f)
gets-IsQuiet f = record { quiet = λ t. refl }

pub pure-IsQuiet : {A : Type 0} (x : A) → IsQuiet (pure x)
pure-IsQuiet x = record { quiet = λ t. refl }

raise-IsQuiet : {A : Type 0} (e : Error) → IsQuiet (raise {A = A} e)
raise-IsQuiet e = record { quiet = λ t. refl }

lift-IsQuiet : {A : Type 0} (r : Outcome A) → IsQuiet (lift r)
lift-IsQuiet r = record { quiet = λ t. refl }

modify-IsQuiet :
    (f : Tables → Tables) → ((t : Tables) → log_of (f t) ≡ log_of t) → IsQuiet (modify f)
modify-IsQuiet f h = record { quiet = h }

pub bind-IsQuiet :
    {A B : Type 0} (m : Exec Tables A) (f : A → Exec Tables B)
    → IsQuiet m
    → ((x : A) → IsQuiet (f x))
    → IsQuiet (m >>= f)
bind-IsQuiet m f start each = record {
  quiet = λ t. log_of-continue (m t).0 f each (m t).1 ∙ start.quiet t;
}

or_raise-IsQuiet : {A : Type 0} (o : Option A) (e : Error) → IsQuiet (or_raise o e)
or_raise-IsQuiet none e = record { quiet = λ t. refl }
or_raise-IsQuiet (some x) e = record { quiet = λ t. refl }

raise_if-IsQuiet : (test : Bool) (e : Error) → IsQuiet (raise_if test e)
raise_if-IsQuiet true e = record { quiet = λ t. refl }
raise_if-IsQuiet false e = record { quiet = λ t. refl }

if-IsQuiet :
    {A : Type 0} (test : Bool) (m n : Exec Tables A)
    → IsQuiet m
    → IsQuiet n
    → IsQuiet (if test then m else n)
if-IsQuiet true m n p q = p
if-IsQuiet false m n p q = q

flush_account-IsQuiet : (e : Error) (row : AccountRecord) → IsQuiet (flush_account e row)
unfolding flush_account
flush_account-IsQuiet e row = record { quiet = λ t. ground arith }

insert_account-IsQuiet : (e : Error) (row : AccountRecord) → IsQuiet (insert_account e row)
unfolding insert_account
insert_account-IsQuiet e row =
    bind-IsQuiet _ _ (flush_account-IsQuiet e row)
      λ _. modify-IsQuiet (λ t. record t { next_account_id = t.next_account_id + 1 }) λ t. refl

flush_pending-IsQuiet : (row : PendingVerification) → IsQuiet (flush_pending row)
unfolding flush_pending
flush_pending-IsQuiet row = record { quiet = λ t. ground arith }

require_unique-IsQuiet :
    (user_id : Option ℕ) (email name : String)
    → IsQuiet (require_unique_account_fields user_id email name)
unfolding require_unique_account_fields
require_unique-IsQuiet user_id email name = record { quiet = λ t. ground arith }

pub delete-IsQuiet : (id : ℕ) → IsQuiet (delete id)
unfolding delete get_by_id
delete-IsQuiet id = record { quiet = λ t. ground arith }

pub delete_for_user-IsQuiet : (user_id id : ℕ) → IsQuiet (delete_for_user user_id id)
unfolding delete_for_user get_for_user
delete_for_user-IsQuiet user_id id = record { quiet = λ t. ground arith }

pub update_name_for_user-IsQuiet :
    (user_id id : ℕ) (name : String) → IsQuiet (update_name_for_user user_id id name)
unfolding update_name_for_user get_for_user flush_account
update_name_for_user-IsQuiet user_id id name = record { quiet = λ t. ground arith }

flush_and_raise-IsQuiet :
    {A : Type 0} (row : PendingVerification) (e : Error)
    → IsQuiet (flush_pending row >> raise {A = A} e)
flush_and_raise-IsQuiet row e = bind-IsQuiet _ _ (flush_pending-IsQuiet row) λ _. raise-IsQuiet e

module _ (r : Repository) where
  pub update_credentials_for_user-IsQuiet :
      (a : Ambient) (user_id id : ℕ) (password : String)
      → IsQuiet (update_credentials_for_user r a user_id id password)
  unfolding update_credentials_for_user get_for_user flush_account encrypt
  update_credentials_for_user-IsQuiet a user_id id password = record { quiet = λ t. ground arith }

  encrypt-IsQuiet : (seed : ℕ) (plain : String) → IsQuiet (encrypt r.lib r.cipher seed plain)
  unfolding encrypt
  encrypt-IsQuiet seed plain = record { quiet = λ t. ground arith }

  decrypt-IsQuiet :
      (sealed : String) (version : ℕ) → IsQuiet (decrypt r.lib r.cipher sealed version)
  unfolding decrypt
  decrypt-IsQuiet sealed version = record { quiet = λ t. ground arith }

  new_api_key-IsQuiet : (a : Ambient) → IsQuiet (new_api_key r a)
  new_api_key-IsQuiet a = record { quiet = λ t. ground arith }

  pub create-IsQuiet :
      (a : Ambient) (name email provider password : String) (user_id : Option ℕ)
      → IsQuiet (create r a name email provider password user_id)
  unfolding create
  create-IsQuiet a name email provider password user_id =
      bind-IsQuiet _ _ (raise_if-IsQuiet (not (is_mailbox_name name)) value_error) λ _.
        bind-IsQuiet _ _ (raise_if-IsQuiet (not (provider == "gmail")) value_error) λ _.
          bind-IsQuiet _ _ (require_unique-IsQuiet user_id email name) λ _.
            bind-IsQuiet _ _ (encrypt-IsQuiet a.seed password) λ sealed.
              bind-IsQuiet _ _ (new_api_key-IsQuiet a) λ key.
                bind-IsQuiet _ _ (gets-IsQuiet λ (t : Tables). t.next_account_id) λ id.
                  let account = set_password sealed (
                    blank_account id user_id name email provider "app_password" "imap.gmail.com" 993
                      key.1 key.2 r.active_token_hash_version a.now) in
                  bind-IsQuiet _ _ (insert_account-IsQuiet duplicate_email account)
                    λ _. pure-IsQuiet (account, key.0)

  pub complete-IsQuiet :
      (a : Ambient) (user_id : ℕ) (id code : String)
      → IsQuiet (complete_pending_app_password_verification r a user_id id code)
  unfolding complete_pending_app_password_verification
  complete-IsQuiet a user_id id code =
      bind-IsQuiet _ _
        (gets-IsQuiet λ (t : Tables). open_verification user_id (Dict.get t.pending id))
        λ found. bind-IsQuiet _ _ (or_raise-IsQuiet found verification_not_found) λ v.
          if-IsQuiet (leb v.expires_at a.now) _ _
            (flush_and_raise-IsQuiet (record v { status = "expired" }) verification_expired)
            (if-IsQuiet (not (Repository.code_fits r code v)) _ _
              (flush_and_raise-IsQuiet (count_attempt v) verification_failed)
              (bind-IsQuiet _ _ (decrypt-IsQuiet v.encrypted_password v.key_version) λ password.
                bind-IsQuiet _ _
                  (create-IsQuiet a v.name v.email v.provider password (some user_id))
                  λ made.
                    bind-IsQuiet _ _
                      (flush_pending-IsQuiet (record v {
                        mailbox_id = some (made.0).id;
                        status = "verified";
                        verified_at = some a.now;
                      }))
                      λ _. pure-IsQuiet made.0))
