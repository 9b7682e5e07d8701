-- ===== src/Mailbox/Failures.antt =====
-- The errors that `MailboxRuntime` of src/postara/mailbox.py translates.
use postara.Errors.{
  authentication_error, provider_error, imap_error, os_error, execution_timeout, Error,
}
use postara.Exec.{Outcome, returned, raised, Exec, raise, lift, ◌>>◌}
use postara.Prelude.{ℕ, String, refl, ap, subst, Bool, true, false, arith, ◌≡◌, ◌∙◌}
use postara.Accounts.{AccountRecord, Credential}
use postara.Api.{rescue}
use postara.Mailbox.{
  closing, authenticate, Timing, in_time, goes_on, cancelled, MailLibrary, of_library,
  or_connection_error, raised_as, timed, run, job_of, with_mailbox, validate_credentials,
}

-- An error that `MailboxRuntime` translates: `IMAP4.error`, `MailboxLoginError`, `OSError` and
-- `ImapExecutionTimeout`.
unfoldable pub is_raw : Error → Bool
is_raw imap_error = true
is_raw os_error = true
is_raw execution_timeout = true
is_raw _ = false

abbrev is_of_library : Error → Bool
is_of_library imap_error = true
is_of_library os_error = true
is_of_library _ = false

of_library-translates : (e : Error) → is_of_library (of_library e) ≡ false
unfolding of_library
of_library-translates e = ground arith

or_connection_error-translates :
    (e : Error) → is_of_library e ≡ false → is_raw (or_connection_error e) ≡ false
unfolding is_raw
or_connection_error-translates e h = ground (arith, h)

module _ {S : Type 0} {A : Type 0} where
  raised_as_inv :
      (f : Error → Error) (m : Exec S A) (s : S) (e : Error)
      → (raised_as f m s).0 ≡ raised e
      → (e0 : Error) × ((m s).0 ≡ raised e0) × (f e0 ≡ e)
  raised_as_inv f m s e = go (m s).0 (m s).1
    where
      go :
          (r : Outcome A) (s' : S)
          → (rescue (λ e'. raise (f e')) r s').0 ≡ raised e
          → (e0 : Error) × (r ≡ raised e0) × (f e0 ≡ e)
      go (returned x) s' h = ground (arith, h)
      go (raised e0) s' h = (e0, refl, ground (arith, h))

  timed_inv :
      (t : Timing) (m : Exec S A) (s : S) (e : Error)
      → ((e0 : Error) → (m s).0 ≡ raised e0 → is_of_library e0 ≡ false)
      → (timed t m s).0 ≡ raised e
      → is_of_library e ≡ false
  timed_inv in_time m s e h is = h e is
  timed_inv goes_on m s e h is = ground (arith, is)
  timed_inv cancelled m s e h is = ground (arith, is)

  raised_as-of_library :
      (m : Exec S A) (s : S) (e : Error)
      → (raised_as of_library m s).0 ≡ raised e
      → is_of_library e ≡ false
  raised_as-of_library m s e h =
      let (e0, _, is) = raised_as_inv of_library m s e h in
      subst (λ x. is_of_library x ≡ false) is (of_library-translates e0)

  -- Both translations, one around the executor and one inside.
  translated :
      (t : Timing) (m : Exec S A) (s : S) (e : Error)
      → (raised_as or_connection_error (timed t (raised_as of_library m)) s).0 ≡ raised e
      → is_raw e ≡ false
  translated t m s e h =
      let (e0, inner, is) =
        raised_as_inv or_connection_error (timed t (raised_as of_library m)) s e h in
      subst (λ x. is_raw x ≡ false) is
        (or_connection_error-translates e0
          (timed_inv t (raised_as of_library m) s e0 (raised_as-of_library m s) inner))

-- Whether the outcome is such an error.
unfoldable pub is_raw_outcome : {A : Type 0} → Outcome A → Bool
is_raw_outcome (returned x) = false
is_raw_outcome (raised e) = is_raw e

not_raw :
    {A : Type 0} (r : Outcome A)
    → ((e : Error) → r ≡ raised e → is_raw e ≡ false)
    → is_raw_outcome r ≡ false
unfolding is_raw_outcome
not_raw (returned x) h = refl
not_raw (raised e) h = h e refl

-- The error that the caller of the runtime sees.
unfoldable pub told : Error → Error
told imap_error = authentication_error
told os_error = provider_error
told execution_timeout = provider_error
told e = e

unfoldable pub renamed : {A : Type 0} → (Error → Error) → Outcome A → Outcome A
renamed f (returned x) = returned x
renamed f (raised e) = raised (f e)

told-steps : (e : Error) → or_connection_error (of_library e) ≡ told e
unfolding told of_library
told-steps e = ground arith

renamed-twice :
    {A : Type 0} (r : Outcome A)
    → renamed or_connection_error (renamed of_library r) ≡ renamed told r
unfolding renamed
renamed-twice (returned x) = refl
renamed-twice (raised e) = ap raised (told-steps e)

module _ {S : Type 0} {A : Type 0} where
  raised_as-renamed :
      (f : Error → Error) (m : Exec S A) (s : S) → raised_as f m s ≡ (renamed f (m s).0, (m s).1)
  unfolding renamed
  raised_as-renamed f m s = go (m s).0 (m s).1
    where
      go : (r : Outcome A) (s' : S) → rescue (λ e'. raise (f e')) r s' ≡ (renamed f r, s')
      go (returned x) s' = refl
      go (raised e) s' = refl

  -- Both translations are one renaming of what the job does without them.
  told_as :
      (t : Timing) (m : Exec S A) (s : S)
      → raised_as or_connection_error (timed t (raised_as of_library m)) s
        ≡ (renamed told (timed t m s).0, (timed t m s).1)
  unfolding renamed told
  told_as in_time m s =
      raised_as-renamed or_connection_error (raised_as of_library m) s
      ∙ (ap (λ x. (renamed or_connection_error x.0, x.1)) (raised_as-renamed of_library m s)
          ∙ ap (λ r. (r, (m s).1)) (renamed-twice (m s).0))
  told_as goes_on m s = ap (λ x. (raised provider_error, x.1)) (raised_as-renamed of_library m s)
  told_as cancelled m s = refl

-- The steps of a job, with nothing caught.
abbrev pub untranslated :
    (m : MailLibrary) {A : Type 0}
    → AccountRecord
    → Credential
    → Exec m.box.State A
    → Exec m.box.State A
untranslated m account credential callback = do
  m.connect account.imap_host account.imap_port
  authenticate m account.email credential
  closing m.logout callback

abbrev pub validation :
    (m : MailLibrary) → String → String → String → ℕ → Exec m.box.State (Unit {0})
validation m email password imap_host imap_port = do
  m.connect imap_host imap_port
  m.login email password
  closing m.logout (lift (returned tt))

-- A call of the runtime for an account does what its job does within the executor (connect,
-- authenticate, call, log out), but for the error that it raises: `IMAP4.error` and
-- `MailboxLoginError` come out as `AuthenticationError`, `OSError` and a time-out of the executor as
-- `ProviderConnectionError`, at whichever step they are raised, and any other error, those of
-- imap_tools among them, as it is. So does the validation of credentials, without a call. None of the
-- four that are renamed comes out of either.
pub with_mailbox_translated :
    (m : MailLibrary) {A : Type 0} (account : AccountRecord) (credential : Credential)
    (callback : Exec m.box.State A) (email password imap_host : String) (imap_port : ℕ)
    (s : m.box.State)
    → (with_mailbox m account credential callback s ≡ (
      renamed told (run m account.id (untranslated m account credential callback) s).0,
      (run m account.id (untranslated m account credential callback) s).1,
    ))
      × (validate_credentials m email password imap_host imap_port s ≡ (
        renamed told (run m 0 (validation m email password imap_host imap_port) s).0,
        (run m 0 (validation m email password imap_host imap_port) s).1,
      ))
      × (is_raw_outcome (with_mailbox m account credential callback s).0 ≡ false)
      × (is_raw_outcome (validate_credentials m email password imap_host imap_port s).0 ≡ false)
unfolding with_mailbox validate_credentials run job_of
with_mailbox_translated m account credential callback email password imap_host imap_port s = (
  told_as (m.timing account.id s) (untranslated m account credential callback) s,
  told_as (m.timing 0 s) (validation m email password imap_host imap_port) s,
  not_raw (with_mailbox m account credential callback s).0
      (λ e h. translated (m.timing account.id s) _ s e h),
  not_raw (validate_credentials m email password imap_host imap_port s).0
      (λ e h. translated (m.timing 0 s) _ s e h),
)
