-- ===== src/Tests/Mailboxes.antt =====
-- Mailbox verifications, src/postara/accounts.py and src/postara/repositories.py, on examples.
use postara.Errors.{verification_not_found, verification_failed}
use postara.Exec.{raised}
use postara.Prelude.{
  ℕ, String, refl, sym, inl, inr, none, some, [], arith, nat_eq, Bool-cases, ◌≡◌, ◌∙◌, ◌∷◌, ◌==◌,
}
use postara.Tests.{python, library, draws}
use postara.Security.{verify_verification_code_hash, hash_verification_code, decode_key_material}
use postara.Crypto.{CredentialCipher}
use postara.Prelude.{nat_eq}
use postara.Accounts.{AccountRecord, PendingVerification, Ambient, blank_account}
use postara.Accounts.Tables.{Tables}
use postara.Accounts.Service.{RepositoryAccountService}
use postara.Accounts.Service.Guesses
use postara.Accounts.Service.Guesses.{guess_all-unlimited}
use postara.Accounts.Service
use postara.Accounts.Service.Audited.{IsAudited, mailbox_changes-IsAudited}
use postara.Accounts.Memory
use postara.Accounts.Memory.{AccountService, complete_app_password_verification}
use postara.Accounts.Memory.Verification
use postara.Accounts.Memory.Verification.{guess_all-closes}
use postara.Accounts.Memory.Unique.{IsUnique, create-IsUnique}
use postara.Accounts.Memory.Rename.{IsById, update_name_for_user-IsUnique}
use postara.Dict
use postara.Dict.{Dict}

abbrev hash_key : String
hash_key = "kkkkkkkkkkkkkkkkkkkkkkkkkkkkkkkk"

abbrev cipher : CredentialCipher
cipher = record { keys = (1, "first") ∷ []; active_version = 1 }

abbrev ambient : Ambient
ambient = record { now = 100; draws = draws; seed = 0; access_seed = 1; url_token = "t" }

-- The code is 123456.
abbrev pending : PendingVerification
pending = record {
  id = "mbv_t";
  user_id = 7;
  mailbox_id = none;
  provider = "gmail";
  auth_type = "app_password";
  name = "work";
  email = "a@gmail.com";
  encrypted_password = "firstsecret";
  key_version = 1;
  code_hash = "kkkkkkkkkkkkkkkkkkkkkkkkkkkkkkkk123456";
  code_hash_version = 1;
  attempts = 0;
  status = "verifying";
  expires_at = 1000;
  created_at = 50;
  verified_at = none;
}

abbrev tables : Tables
tables = record {
  accounts = [];
  next_account_id = 1;
  pending = ("mbv_t", pending) ∷ [];
  outbox = [];
  next_outbox_id = 1;
}

abbrev repository_service : RepositoryAccountService
repository_service = record {
  repo = record {
    lib = library;
    cipher = cipher;
    token_hash_keys = (1, hash_key) ∷ [];
    active_token_hash_version = 1;
  };
  python = python;
  oauth_refreshers = [];
}

abbrev service : AccountService
service = record { next_id = 1; accounts = []; pending_verifications = ("mbv_t", pending) ∷ [] }

abbrev setting : Memory.Setting
setting = record { lib = library; cipher = cipher; token_hash_key = hash_key }

abbrev wrong : Guesses.Guess
wrong = record { ambient = ambient; code = "000000" }

abbrev wrong_again : Verification.Guess
wrong_again = record { ambient = ambient; code = "000000" }

guess_all-unlimited_example :
    Guesses.guess_all repository_service none 7 "mbv_t"
      (wrong ∷ wrong ∷ wrong ∷ wrong ∷ wrong ∷ wrong ∷ [])
      tables
    ≡ (
      raised verification_failed
          ∷ raised verification_failed
          ∷ raised verification_failed
          ∷ raised verification_failed
          ∷ raised verification_failed
          ∷ raised verification_failed
          ∷ [],
      tables,
    )
unfolding Dict.get verify_verification_code_hash hash_verification_code decode_key_material
guess_all-unlimited_example =
    guess_all-unlimited repository_service none 7 "mbv_t" pending
      (wrong ∷ wrong ∷ wrong ∷ wrong ∷ wrong ∷ wrong ∷ []) tables refl
      (
        (refl, refl),
        ((refl, refl), ((refl, refl), ((refl, refl), ((refl, refl), ((refl, refl), tt))))),
      )

guess_all-closes_example :
    (complete_app_password_verification setting ambient 7 "mbv_t" "123456" (
      Verification.guess_all setting 7 "mbv_t"
        (wrong_again ∷ wrong_again ∷ wrong_again ∷ wrong_again ∷ wrong_again ∷ [])
        service)).0
    ≡ raised verification_not_found
unfolding Dict.get verify_verification_code_hash hash_verification_code decode_key_material
guess_all-closes_example =
    guess_all-closes setting 7 "mbv_t" 0 pending
      (wrong_again ∷ wrong_again ∷ wrong_again ∷ wrong_again ∷ wrong_again ∷ []) service
      (refl, refl, refl, refl) (omega arith) refl
      ((refl, refl), ((refl, refl), ((refl, refl), ((refl, refl), ((refl, refl), tt))))) ambient
      "123456"

no_accounts-IsUnique : IsUnique []
unfolding Dict.get
no_accounts-IsUnique i j x y held other clash = ground (arith, held)

create-IsUnique_example :
    IsUnique
      (Memory.create setting ambient "work" "a@gmail.com" "gmail" "pw" (some 7) service).1.accounts
create-IsUnique_example =
    create-IsUnique setting ambient "work" "a@gmail.com" "gmail" "pw" (some 7) service
      no_accounts-IsUnique

abbrev home : AccountRecord
home =
    blank_account 1 (some 7) "home" "b@gmail.com" "gmail" "app_password" "imap.gmail.com" 993 "p"
      "h" 1 5

abbrev with_home : AccountService
with_home = record { next_id = 2; accounts = (1, home) ∷ []; pending_verifications = [] }

only_home :
    (i : ℕ) (x : AccountRecord) → Dict.get with_home.accounts i ≡ some x → (1 ≡ i) × (home ≡ x)
unfolding Dict.get
only_home i x held = elim (Bool-cases (1 == i)) [
  | inl e ↦ let same : some home ≡ some x = rw e at held in ((nat_eq.beq_iff 1 i).0 e, cc same)
  | inr e ↦ let absent : none ≡ some x = rw e at held in ground (arith, absent)
]

with_home-IsUnique : IsUnique with_home.accounts
with_home-IsUnique i j x y held other clash = sym (only_home i x held).0 ∙ (only_home j y other).0

with_home-IsById : IsById with_home.accounts
with_home-IsById i x held = let h = only_home i x held in rw (← h.1) h.0

update_name_for_user-IsUnique_example :
    IsUnique (Memory.update_name_for_user 7 1 "away" with_home).1.accounts
update_name_for_user-IsUnique_example =
    update_name_for_user-IsUnique 7 1 "away" with_home with_home-IsUnique with_home-IsById

mailbox_changes-IsAudited_example :
    IsAudited repository_service none ambient "account.create"
      (Service.create_for_user repository_service none ambient 7 "home" "b@gmail.com" "gmail" "pw")
      tables
    × IsAudited repository_service none ambient "mailbox.app_password_verify_completed"
        (Service.complete_app_password_verification repository_service none ambient 7 "mbv_t"
          "123456")
        tables
    × IsAudited repository_service none ambient "mailbox.name_updated"
        (Service.update_name_for_user repository_service none ambient 7 1 "home")
        tables
    × IsAudited repository_service none ambient "credentials.update"
        (Service.update_credentials_for_user repository_service none ambient 7 1 "pw")
        tables
    × IsAudited repository_service none ambient "account.delete"
        (Service.delete_for_user repository_service none ambient 7 1)
        tables
mailbox_changes-IsAudited_example =
    mailbox_changes-IsAudited repository_service none ambient 7 1 "home" "b@gmail.com" "gmail" "pw"
      "mbv_t" "123456" tables
