-- ===== src/Users/Repository/Invariant/People.antt =====
-- The unique columns under the methods of `RepositoryUserService` of src/postara/users.py on users and
-- their sessions.
use postara.Exec.{Outcome-cases}
use postara.Prelude.{
  ℕ, String, refl, inl, inr, none, some, arith, Bool-cases, Option-cases, any, find, if◌then◌else◌,
  ◌==◌, nat_eq, string_eq, option_eq,
}
use postara.Security.{
  hash_password, hash_session_token, parse_session_token, generate_session_token,
}
use postara.Users.{UserRecord, Ambient, normalize_user_email, no_users, status_time}
use postara.Users.Tables.{
  UserSessionOrm, UserTables, put_user, put_session, insert_user, insert_session, session_by_prefix,
}
use postara.Users.Repository.{
  RepositoryUserService, create_session, register, login, authenticate_session, revoke_session,
  update_profile, update_user_status,
}
use postara.Dict
use postara.Dict.{values}
use postara.Dict.Rows.{found-held}
use postara.Users.Repository.Invariant.{
  IsValid, user_number, user_column, put_user-IsValid, put_session-IsValid, new_user-IsValid,
  new_session-IsValid, one_of-IsValid,
}

module _ (g : RepositoryUserService) where
  pub create_session-IsValid :
      (a : Ambient) (user_id : ℕ) (t : UserTables)
      → IsValid t
      → IsValid (create_session g a user_id t).1
  unfolding create_session insert_session
  create_session-IsValid a user_id t h =
      elim (Outcome-cases (hash_session_token g.lib (generate_session_token a.draws))) [
        | inl (x, e) ↦ rw (create_session, e) h
        | inr (parts, e) ↦
            elim (Bool-cases
              (any (λ (x : UserSessionOrm). x.token_prefix == parts.0) (values t.sessions))) [
                | inl taken ↦ rw (create_session, e, insert_session, taken) h
                | inr free ↦
                    rw (create_session, e, insert_session, free)
                      (new_session-IsValid t _ refl free h)
              ]
      ]

  pub register-IsValid :
      (a : Ambient) (email password name : String) (t : UserTables)
      → IsValid t
      → IsValid (register g a email password name t).1
  unfolding register insert_user
  register-IsValid a email password name t h =
      elim (Bool-cases (
        any (λ (u : UserRecord). u.email == normalize_user_email g.unicode email)
          (values t.users))) [
            | inl taken ↦ rw (register, insert_user, taken) h
            | inr free ↦
                let added =
                  new_user-IsValid t
                    (record {
                      id = t.next_user_id;
                      email = normalize_user_email g.unicode email;
                      name = name;
                      password_hash = hash_password g.lib a.salt password;
                      role = if no_users t.users then "owner" else "member";
                      created_at = a.now;
                      last_login_at = none;
                      disabled_at = none;
                    })
                    refl free h in
                let opened = create_session-IsValid a t.next_user_id _ added in
                one_of-IsValid t _ _ (ground (arith, free)) h opened
          ]

  pub login-IsValid :
      (a : Ambient) (email password : String) (t : UserTables)
      → IsValid t
      → IsValid (login g a email password t).1
  unfolding login
  login-IsValid a email password t h =
      elim (Option-cases (
        find (λ (u : UserRecord). u.email == normalize_user_email g.unicode email)
          (values t.users))) [
            | inl missing ↦ rw (login, missing) h
            | inr (user, found) ↦
                let seen : UserRecord = record user { last_login_at = some a.now } in
                let held =
                  found-held user_number user_column _ t.users t.next_user_id user h.users found in
                let opened =
                  create_session-IsValid a user.id (put_user seen t)
                    (put_user-IsValid t user.id user seen held refl refl h) in
                one_of-IsValid t (create_session g a user.id (put_user seen t)).1 _
                  (ground (arith, found)) h opened
          ]

  pub authenticate_session-IsValid :
      (now : ℕ) (raw_token : String) (t : UserTables)
      → IsValid t
      → IsValid (authenticate_session g now raw_token t).1
  unfolding authenticate_session session_by_prefix
  authenticate_session-IsValid now raw_token t h =
      elim (Outcome-cases (parse_session_token raw_token)) [
        | inl (x, e) ↦ rw (authenticate_session, e) h
        | inr (parts, e) ↦ elim (Option-cases (session_by_prefix parts.0 t)) [
          | inl missing ↦ rw (authenticate_session, e, missing) h
          | inr (row, found) ↦
              let seen : UserSessionOrm = record row { last_used_at = some now } in
              one_of-IsValid t (put_session seen t) _ (ground (arith, e, found)) h
                (put_session-IsValid t _ row seen found refl refl h)
        ]
      ]

pub revoke_session-IsValid :
    (now : ℕ) (raw_token : String) (t : UserTables)
    → IsValid t
    → IsValid (revoke_session now raw_token t).1
unfolding revoke_session session_by_prefix
revoke_session-IsValid now raw_token t h = elim (Outcome-cases (parse_session_token raw_token)) [
  | inl (x, e) ↦ rw (revoke_session, e) h
  | inr (parts, e) ↦ elim (Option-cases (session_by_prefix parts.0 t)) [
    | inl missing ↦ rw (revoke_session, e, missing) h
    | inr (row, found) ↦
        rw (revoke_session, e, found)
          (put_session-IsValid t _ row (record row { revoked_at = some now }) found refl refl h)
  ]
]

pub update_profile-IsValid :
    (user_id : ℕ) (name : String) (t : UserTables)
    → IsValid t
    → IsValid (update_profile user_id name t).1
unfolding update_profile
update_profile-IsValid user_id name t h = elim (Option-cases (Dict.get t.users user_id)) [
  | inl missing ↦ rw (update_profile, missing) h
  | inr (user, held) ↦
      rw (update_profile, held)
        (put_user-IsValid t user_id user (record user { name = name }) held refl refl h)
]

pub update_user_status-IsValid :
    (now user_id : ℕ) (status : String) (t : UserTables)
    → IsValid t
    → IsValid (update_user_status now user_id status t).1
unfolding update_user_status
update_user_status-IsValid now user_id status t h = elim (Option-cases (Dict.get t.users user_id)) [
  | inl missing ↦ rw (update_user_status, missing) h
  | inr (user, held) ↦ elim (Outcome-cases (status_time status now)) [
    | inl (x, e) ↦ rw (update_user_status, held, e) h
    | inr (at, e) ↦
        rw (update_user_status, held, e)
          (put_user-IsValid t user_id user (record user { disabled_at = at }) held refl refl h)
  ]
]
