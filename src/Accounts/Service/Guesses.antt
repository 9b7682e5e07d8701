-- ===== src/Accounts/Service/Guesses.antt =====
-- Guessing the code of a mailbox verification through `RepositoryAccountService` of
-- src/postara/accounts.py.
use postara.Prelude.{ℕ, String, refl, false, Option, some, List, [], map, leb, All, ◌≡◌, ◌∷◌}
use postara.Errors.{verification_failed}
use postara.Exec.{Outcome, returned, raised}
use postara.Prelude.{string_eq}
use postara.Accounts.{PendingVerification, Ambient, open_verification}
use postara.Accounts.Tables.{Tables, flush_pending}
use postara.Accounts.Repository
use postara.Accounts.Service.{
  RepositoryAccountService, AuditContext, complete_app_password_verification,
}
use postara.Dict
use postara.Dict.{Dict}

-- A guess: what surrounds the call, and the code.
pub record Guess : Type 0 where
  pub ambient : Ambient
  pub code : String

-- Of the answer, if it is an account or which exception.
abbrev pub forget {ℓ} : {A : Type ℓ} → Outcome A → Outcome (Unit {0})
forget (returned a) = returned tt
forget (raised e) = raised e

module _ (g : RepositoryAccountService) (context : Option AuditContext) (user_id : ℕ)
    (id : String) where
  -- The answers to a sequence of guesses, and the tables after them.
  unfoldable pub guess_all : List Guess → Tables → List (Outcome (Unit {0})) × Tables
  guess_all [] t = ([], t)
  guess_all (x ∷ xs) t =
      let (r, t') = complete_app_password_verification g context x.ambient user_id id x.code t in
      let (rs, t'') = guess_all xs t' in (forget r ∷ rs, t'')

  -- Before the deadline, with a code that does not fit.
  abbrev pub IsWrong : PendingVerification → Guess → Type 0
  IsWrong v x =
      (leb v.expires_at x.ambient.now ≡ false) × (Repository.code_fits g.repo x.code v ≡ false)

  wrong_guess :
      (v : PendingVerification) (x : Guess) (t : Tables)
      → open_verification user_id (Dict.get t.pending id) ≡ some v
      → IsWrong v x
      → complete_app_password_verification g context x.ambient user_id id x.code t
        ≡ (raised verification_failed, t)
  unfolding complete_app_password_verification Repository.complete_pending_app_password_verification
      flush_pending
  wrong_guess v x t held wrong = rw (held, wrong.0, wrong.1) refl

  -- However many wrong codes one tries, each is answered with `MailboxVerificationFailedError` and
  -- all tables are afterwards as they were before: no attempt is ever counted.
  pub guess_all-unlimited :
      (v : PendingVerification) (xs : List Guess) (t : Tables)
      → open_verification user_id (Dict.get t.pending id) ≡ some v
      → All (IsWrong v) xs
      → guess_all xs t ≡ (map (λ x. raised verification_failed) xs, t)
  unfolding guess_all
  guess_all-unlimited v [] t held wrong = refl
  guess_all-unlimited v (x ∷ xs) t held wrong =
      rw (wrong_guess v x t held wrong.0, guess_all-unlimited v xs t held wrong.1) refl
