-- ===== src/Users/Sessions.antt =====
-- The life of a session in `UserService` of src/postara/users.py.
use postara.Errors.{invalid_user_credentials, session_not_found}
use postara.Exec.{Outcome, returned, raised, returned_inj}
use postara.Prelude.{
  ℕ, String, refl, sym, ap, inl, inr, Bool, true, false, not, Option, none, some, arith, ltb,
  Bool-cases, Option-cases, is_some, find, beq_self, ◌+◌, ◌≡◌, ◌∙◌, ◌⊎◌, ◌||◌, if◌then◌else◌, ◌==◌,
  nat_eq, string_eq, option_eq,
}
use postara.Security.{
  base62, generate_session_token, hash_session_token, parse_session_token,
  verify_session_token_hash, verify_password,
}
use postara.Security.Tokens.{parse_session_token-generate_session_token}
use postara.Users.{
  SessionRecord, UserRecord, UserService, Ambient, Setting, thirty_days, put_user, create_session,
  login, authenticate_session, revoke_session, normalize_user_email,
}
use postara.Dict
use postara.Dict.{Dict, values, get-put, get-put_self}

module _ (g : Setting) where
  abbrev session_prefix : Ambient → String
  session_prefix a = base62 8 a.draws.for_prefix

  abbrev issued : Ambient → ℕ → SessionRecord
  issued a user_id = record {
    user_id = user_id;
    digest = g.lib.sha256 (generate_session_token a.draws);
    expires_at = a.later + thirty_days;
    revoked_at = none;
  }

  hash_generated :
      (a : Ambient)
      → hash_session_token g.lib (generate_session_token a.draws)
        ≡ returned (session_prefix a, g.lib.sha256 (generate_session_token a.draws))
  unfolding hash_session_token
  hash_generated a =
      rw (parse_session_token-generate_session_token a.draws, hash_session_token) refl

  verify_generated :
      (a : Ambient)
      → verify_session_token_hash g.lib
          (generate_session_token a.draws)
          (g.lib.sha256 (generate_session_token a.draws))
        ≡ true
  unfolding verify_session_token_hash
  verify_generated a =
      rw (hash_generated a, verify_session_token_hash)
        (beq_self (g.lib.sha256 (generate_session_token a.draws)))

  create_session_lem :
      (a : Ambient) (user_id : ℕ) (s : UserService)
      → create_session g a user_id s ≡ (
        returned (generate_session_token a.draws),
        record s { sessions = Dict.put s.sessions (session_prefix a) (issued a user_id) },
      )
  unfolding create_session
  create_session_lem a user_id s = rw (hash_generated a) refl

  -- What a session that was just issued answers.
  issued_answer :
      (a : Ambient) (t : ℕ) (user : UserRecord) (s : UserService)
      → Dict.get s.users user.id ≡ some user
      → user.disabled_at ≡ none
      → (authenticate_session g t
          (generate_session_token a.draws)
          (create_session g a user.id s).1).0
        ≡ (if ltb t (a.later + thirty_days) then returned user else raised session_not_found)
  unfolding authenticate_session
  issued_answer a t user s held enabled =
      let prefix = session_prefix a in
      let session = issued a user.id in
      rw
        (
          create_session_lem a user.id s,
          authenticate_session,
          parse_session_token-generate_session_token a.draws,
          get-put_self s.sessions prefix session,
          verify_generated a,
        )
        (ground arith)

  abbrev found_user : String → UserService → Option UserRecord
  found_user email s =
      find (λ (u : UserRecord). u.email == normalize_user_email g.unicode email) (values s.users)

  abbrev refuses : String → UserRecord → Bool
  refuses password user =
      is_some user.disabled_at || not (verify_password g.lib password user.password_hash)

  abbrev seen_at : ℕ → UserRecord → UserRecord
  seen_at now user = record user { last_login_at = some now }

  abbrev logged_in :
      Ambient → UserRecord → UserService → Outcome (UserRecord × String) × UserService
  logged_in a user s = (
    returned (seen_at a.now user, generate_session_token a.draws),
    (create_session g a user.id (put_user (seen_at a.now user) s)).1,
  )

  -- The three ways that a login goes.
  login_cases :
      (a : Ambient) (email password : String) (s : UserService)
      → (login g a email password s ≡ (raised invalid_user_credentials, s))
        ⊎ ((user : UserRecord) × (found_user email s ≡ some user)
            × (refuses password user ≡ false)
            × (login g a email password s ≡ logged_in a user s))
  unfolding login
  login_cases a email password s = elim (Option-cases (found_user email s)) [
    | inl e ↦ inl (rw (login, e) refl)
    | inr (user, e) ↦ elim (Bool-cases (refuses password user)) [
      | inl bad ↦ inl (rw (login, e, bad) refl)
      | inr good ↦ inr (
        user,
        e,
        good,
        rw (login, e, good, create_session_lem a user.id (put_user (seen_at a.now user) s)) refl,
      )
    ]
  ]

  -- A token that `login` gives is good for the user who logged in, until thirty days after the
  -- session was made and not a second longer.
  pub authenticate_session-login :
      (a : Ambient) (email password token : String) (user : UserRecord) (t : ℕ) (s : UserService)
      → (login g a email password s).0 ≡ returned (user, token)
      → (authenticate_session g t token (login g a email password s).1).0
        ≡ (if ltb t (a.later + thirty_days) then returned user else raised session_not_found)
  authenticate_session-login a email password token user t s h =
      elim (login_cases a email password s) [
        | inl e ↦ ground (arith, h, e)
        | inr (u, found, good, e) ↦
            let r = returned_inj (ap (λ x. x.0) (sym e) ∙ h) in
            let same : seen_at a.now u ≡ user = ap (λ x. x.0) r in
            let issued_token : generate_session_token a.draws ≡ token = ap (λ x. x.1) r in
            rw (e, ← same, ← issued_token)
              (issued_answer a t (seen_at a.now u) (put_user (seen_at a.now u) s)
                (get-put_self s.users u.id (seen_at a.now u)) (ground (arith, good)))
      ]

  -- After `revoke_session` the token is refused at all times.
  pub authenticate_session-revoke_session :
      (now t : ℕ) (raw_token : String) (parts : String × String) (s : UserService)
      → parse_session_token raw_token ≡ returned parts
      → (authenticate_session g t raw_token (revoke_session now raw_token s).1).0
        ≡ raised session_not_found
  unfolding authenticate_session revoke_session
  authenticate_session-revoke_session now t raw_token parts s parsed =
      elim (Option-cases (Dict.get s.sessions parts.0)) [
        | inl e ↦ ground (arith, parsed, e)
        | inr (session, e) ↦
            let gone = record session { revoked_at = some now } in
            ground (arith, parsed, e, get-put_self s.sessions parts.0 gone)
      ]
