-- ===== src/Accounts/Memory/Verification.antt =====
-- Guessing the code of a mailbox verification in `AccountService` of src/postara/accounts.py.
use postara.Prelude.{
  ℕ, String, refl, false, some, List, [], arith, leb, nat_eq, string_eq, length, All, ◌+◌, ◌<◌, ◌≡◌,
  ◌∷◌, ◌==◌,
}
use postara.Errors.{verification_not_found, verification_failed}
use postara.Exec.{raised}
use postara.Prelude.{nat_eq, string_eq}
use postara.Accounts.{PendingVerification, Ambient, open_verification, count_attempt}
use postara.Accounts.Memory.{AccountService, Setting, complete_app_password_verification}
use postara.Security.{verify_verification_code_hash}
use postara.Dict
use postara.Dict.{Dict, get-put_self}

-- A guess: what surrounds the call, and the code.
pub record Guess : Type 0 where
  pub ambient : Ambient
  pub code : String

module _ (g : Setting) (user_id : ℕ) (id : String) where
  -- Before the deadline, with a code that does not fit.
  abbrev pub IsWrong : PendingVerification → Guess → Type 0
  IsWrong v x =
      (leb v.expires_at x.ambient.now ≡ false)
      × (verify_verification_code_hash g.lib x.code v.code_hash g.token_hash_key ≡ false)

  -- The service after a sequence of guesses.
  unfoldable pub guess_all : List Guess → AccountService → AccountService
  guess_all [] s = s
  guess_all (x ∷ xs) s =
      guess_all xs (complete_app_password_verification g x.ambient user_id id x.code s).1

  wrong_guess :
      (v : PendingVerification) (x : Guess) (s : AccountService)
      → open_verification user_id (Dict.get s.pending_verifications id) ≡ some v
      → IsWrong v x
      → complete_app_password_verification g x.ambient user_id id x.code s ≡ (
        raised verification_failed,
        record s { pending_verifications = Dict.put s.pending_verifications id (count_attempt v) },
      )
  unfolding complete_app_password_verification
  wrong_guess v x s held wrong = rw (held, wrong.0, wrong.1) refl

  -- The verification is there, the user's and open, with `n` wrong guesses.
  abbrev pub IsOpen : ℕ → PendingVerification → AccountService → Type 0
  IsOpen n v s =
      (Dict.get s.pending_verifications id ≡ some v)
      × (v.user_id ≡ user_id)
      × (v.status ≡ "verifying")
      × (v.attempts ≡ n)

  open_held :
      (n : ℕ) (v : PendingVerification) (s : AccountService)
      → IsOpen n v s
      → open_verification user_id (Dict.get s.pending_verifications id) ≡ some v
  open_held n v s h = rw h.0 (
      ground
        (arith, h.1, h.2, nat_eq.beq_iff v.user_id user_id, string_eq.beq_iff v.status "verifying"))

  IsWrong-next :
      (v w : PendingVerification) (xs : List Guess)
      → w.expires_at ≡ v.expires_at
      → w.code_hash ≡ v.code_hash
      → All (IsWrong v) xs
      → All (IsWrong w) xs
  IsWrong-next v w [] e c h = tt
  IsWrong-next v w (x ∷ xs) e c h = (rw (e, c) h.0, IsWrong-next v w xs e c h.1)

  closes :
      (v : PendingVerification) (s : AccountService)
      → (v.status == "verifying") ≡ false
      → Dict.get s.pending_verifications id ≡ some v
      → (a : Ambient) (code : String)
      → (complete_app_password_verification g a user_id id code s).0 ≡ raised verification_not_found
  unfolding complete_app_password_verification
  closes v s shut held a code = rw held (ground (arith, shut))

  fifth_shut :
      (n : ℕ) (v : PendingVerification)
      → v.attempts ≡ n
      → n ≡ 4
      → ((count_attempt v).status == "verifying") ≡ false
  fifth_shut n v counted four = rw (counted, four) refl

  early :
      (n : ℕ) (v : PendingVerification)
      → v.attempts ≡ n
      → n + 1 < 5
      → count_attempt v ≡ record v { attempts = v.attempts + 1 }
  early n v counted few = ground (arith, counted, few)

  -- After the wrong guesses that make five with those before them, the verification is closed:
  -- no code, the right one included, completes it at any time.
  pub guess_all-closes :
      (n : ℕ) (v : PendingVerification) (xs : List Guess) (s : AccountService)
      → IsOpen n v s
      → n < 5
      → n + length xs ≡ 5
      → All (IsWrong v) xs
      → (a : Ambient) (code : String)
      → (complete_app_password_verification g a user_id id code (guess_all xs s)).0
        ≡ raised verification_not_found
  unfolding guess_all
  guess_all-closes n v [] s h below five wrong a code =
      let absurd : ⊥ = omega (arith, below, five) in elim absurd [ ]
  guess_all-closes n v (x ∷ []) s h below five wrong a code =
      rw (guess_all, wrong_guess v x s (open_held n v s h) wrong.0)
        (closes (count_attempt v) _ (fifth_shut n v h.3 (omega (arith, five)))
          (get-put_self s.pending_verifications id (count_attempt v)) a code)
  guess_all-closes n v (x ∷ y ∷ xs) s h below five wrong a code =
      let few : n + 1 < 5 = omega (arith, five) in
      let w : count_attempt v ≡ record v { attempts = v.attempts + 1 } = early n v h.3 few in
      rw (guess_all, wrong_guess v x s (open_held n v s h) wrong.0)
        (guess_all-closes (n + 1) (count_attempt v) (y ∷ xs) _
          (
            get-put_self s.pending_verifications id (count_attempt v),
            rw w h.1,
            rw w h.2,
            rw (w, h.3) refl,
          )
          few (omega (arith, five))
          (IsWrong-next v (count_attempt v) (y ∷ xs) (rw w refl) (rw w refl) wrong.1) a code)
