-- ===== src/Users/Passwords.antt =====
-- What a change of password does to the sessions in `UserService` of src/postara/users.py.
use postara.Errors.{session_not_found}
use postara.Exec.{returned, raised}
use mathlib.Core.Option
use postara.Prelude.{
  ℕ, String, refl, inl, inr, true, false, not, Option, none, some, [], arith, leb, nat_eq,
  string_eq, Bool-cases, Option-cases, is_some, ◌≡◌, ◌||◌, ◌∷◌, if◌then◌else◌, ◌==◌, option_eq,
}
use postara.Security.{
  parse_session_token, verify_session_token_hash, verify_password, hash_password,
}
use postara.Users.{
  SessionRecord, UserRecord, UserService, Ambient, Setting, given_prefix, revoked_unless,
  revoke_all, revoke_other_sessions, change_password, reset_password, authenticate_session,
}
use postara.Dict
use postara.Dict.{Dict, get-put, get-put_self}

get-revoke_all :
    (user_id : ℕ) (current : Option String) (now : ℕ) (d : Dict String SessionRecord) (k : String)
    → Dict.get (revoke_all user_id current now d) k
      ≡ Option.map (revoked_unless user_id current now k) (Dict.get d k)
unfolding revoke_all Dict.get
get-revoke_all user_id current now [] k = refl
get-revoke_all user_id current now ((j, x) ∷ d) k = elim (Bool-cases (j == k)) [
  | inl same ↦ rw same (rw ((string_eq.beq_iff j k).0 same) refl)
  | inr other ↦ rw other (get-revoke_all user_id current now d k)
]

-- The session of a user is revoked afterwards, unless it is the current one.
revoked-own :
    (user_id : ℕ) (current : Option String) (now : ℕ) (k : String) (x : SessionRecord)
    → x.user_id ≡ user_id
    → (some k == current) ≡ false
    → is_some (revoked_unless user_id current now k x).revoked_at ≡ true
unfolding revoked_unless
revoked-own user_id current now k x own other = ground (arith, nat_eq.beq_iff x.user_id user_id)

kept-current :
    (user_id : ℕ) (current : Option String) (now : ℕ) (k : String) (x : SessionRecord)
    → (some k == current) ≡ true
    → revoked_unless user_id current now k x ≡ x
unfolding revoked_unless
kept-current user_id current now k x same = ground (arith, same)

module _ (g : Setting) where
  -- Once `reset_password` has returned, no token of a session that the user had then is accepted
  -- again, at any time.
  pub authenticate_session-reset_password :
      (a : Ambient) (user_id t : ℕ) (password raw_token : String) (parts : String × String)
      (x : SessionRecord) (s : UserService)
      → (reset_password g a user_id password s).0 ≡ returned tt
      → parse_session_token raw_token ≡ returned parts
      → Dict.get s.sessions parts.0 ≡ some x
      → x.user_id ≡ user_id
      → (authenticate_session g t raw_token (reset_password g a user_id password s).1).0
        ≡ raised session_not_found
  unfolding authenticate_session reset_password revoke_other_sessions
  authenticate_session-reset_password a user_id t password raw_token parts x s done parsed held
        own =
      elim (Option-cases (Dict.get s.users user_id)) [
        | inl e ↦ ground (arith, done, e)
        | inr (user, e) ↦ ground (
          arith,
          parsed,
          e,
          held,
          get-revoke_all user_id none a.now s.sessions parts.0,
          revoked-own user_id none a.now parts.0 x own refl,
        )
      ]

  -- `change_password` returns only if the current password is right. The session that asks keeps
  -- its token, for as long as it was good before; each other session of the user is refused from
  -- then on.
  pub authenticate_session-change_password :
      (a : Ambient) (user_id t : ℕ) (old new raw_token : String) (current : Option String)
      (parts : String × String) (x : SessionRecord) (user : UserRecord) (s : UserService)
      → Dict.get s.users user_id ≡ some user
      → (change_password g a user_id old new current s).0 ≡ returned tt
      → parse_session_token raw_token ≡ returned parts
      → Dict.get s.sessions parts.0 ≡ some x
      → x.user_id ≡ user_id
      → (verify_password g.lib old user.password_hash ≡ true)
        × ((authenticate_session g t raw_token (change_password g a user_id old new current s).1).0
            ≡ (if some parts.0 == given_prefix current
                then (if is_some x.revoked_at
                      || leb x.expires_at t
                      || not (verify_session_token_hash g.lib raw_token x.digest)
                      || is_some user.disabled_at
                    then raised session_not_found
                    else returned (record user { password_hash = hash_password g.lib a.salt new }))
                else raised session_not_found))
  unfolding authenticate_session change_password revoke_other_sessions
  authenticate_session-change_password a user_id t old new raw_token current parts x user s h done
        parsed held own =
      let after = record user { password_hash = hash_password g.lib a.salt new } in
      (
        ground (arith, h, done),
        elim (Bool-cases (some parts.0 == given_prefix current)) [
          | inl same ↦ rw same (
              ground (
                arith,
                h,
                done,
                parsed,
                held,
                own,
                get-revoke_all user_id (given_prefix current) a.now s.sessions parts.0,
                kept-current user_id (given_prefix current) a.now parts.0 x same,
                get-put_self s.users user_id after,
              ))
          | inr other ↦ rw other (
              ground (
                arith,
                h,
                done,
                parsed,
                held,
                get-revoke_all user_id (given_prefix current) a.now s.sessions parts.0,
                revoked-own user_id (given_prefix current) a.now parts.0 x own other,
              ))
        ],
      )
