-- ===== src/Users/Repository/Invariant/Revoked.antt =====
-- The unique columns under the methods of `RepositoryUserService` of src/postara/users.py that
-- revoke sessions.
use postara.Prelude.{
  ℕ, String, refl, sym, inl, inr, Option, none, some, [], arith, Bool-cases, Option-cases, ◌≡◌, ◌∙◌,
  ◌∷◌, ◌==◌, nat_eq, string_eq, option_eq,
}
use postara.Security.{hash_password}
use postara.Users.{UserRecord, Ambient, given_prefix}
use postara.Users.Tables.{UserSessionOrm, UserTables, put_user}
use postara.Users.Repository.{
  RepositoryUserService, revoked_unless, revoke_rows, revoke_other_sessions, change_password,
  reset_password,
}
use postara.Dict
use mathlib.Core.Option
use postara.Dict.{Dict, IsKeyed}
use postara.Dict.Rows.{IsTable}
use postara.Users.Repository.Invariant.{
  IsValid, session_number, session_column, put_user-IsValid, one_of-IsValid,
}

get-revoke_rows :
    (user_id : ℕ) (current : Option String) (now : ℕ) (d : Dict ℕ UserSessionOrm) (i : ℕ)
    → Dict.get (revoke_rows user_id current now d) i
      ≡ Option.map (revoked_unless user_id current now) (Dict.get d i)
unfolding revoke_rows Dict.get
get-revoke_rows user_id current now [] i = refl
get-revoke_rows user_id current now ((j, row) ∷ d) i = elim (Bool-cases (j == i)) [
  | inl e ↦ rw e refl
  | inr e ↦ rw e (get-revoke_rows user_id current now d i)
]

-- What stands in the table afterwards is a row of before, with its number and its prefix.
revoke_rows-held :
    (user_id : ℕ) (current : Option String) (now : ℕ) (d : Dict ℕ UserSessionOrm) (i : ℕ)
    (x : UserSessionOrm)
    → Dict.get (revoke_rows user_id current now d) i ≡ some x
    → (y : UserSessionOrm) × (Dict.get d i ≡ some y)
      × (x.id ≡ y.id)
      × (x.token_prefix ≡ y.token_prefix)
unfolding revoked_unless
revoke_rows-held user_id current now d i x h = elim (Option-cases (Dict.get d i)) [
  | inl missing ↦ ground (arith, missing, get-revoke_rows user_id current now d i, h)
  | inr (y, held) ↦
      let is : some (revoked_unless user_id current now y) ≡ some x =
        rw (get-revoke_rows user_id current now d i, held) at h in
      let same : revoked_unless user_id current now y ≡ x = cc is in
      (y, held, ground (arith, same), ground (arith, same))
]

revoke_rows-IsKeyed :
    (user_id : ℕ) (current : Option String) (now : ℕ) (d : Dict ℕ UserSessionOrm)
    → IsKeyed d
    → IsKeyed (revoke_rows user_id current now d)
unfolding revoke_rows
revoke_rows-IsKeyed user_id current now [] h = tt
revoke_rows-IsKeyed user_id current now ((j, row) ∷ d) h = (
  rw (get-revoke_rows user_id current now d j, h.0) refl,
  revoke_rows-IsKeyed user_id current now d h.1,
)

revoke_rows-IsTable :
    (user_id : ℕ) (current : Option String) (now : ℕ) (d : Dict ℕ UserSessionOrm) (n : ℕ)
    → IsTable session_number session_column d n
    → IsTable session_number session_column (revoke_rows user_id current now d) n
revoke_rows-IsTable user_id current now d n t = record {
  keyed = revoke_rows-IsKeyed user_id current now d t.keyed;
  numbered = λ i x h. let (y, held, same, _) = was i x h in same ∙ t.numbered i y held;
  distinct = λ i j x z hi hj same.
      let (y, held, _, e) = was i x hi in
      let (y', held', _, e') = was j z hj in t.distinct i j y y' held held' (sym e ∙ (same ∙ e'));
  bounded = λ i x h. let (y, held, _, _) = was i x h in t.bounded i y held;
}
  where
    was :
        (i : ℕ) (x : UserSessionOrm)
        → Dict.get (revoke_rows user_id current now d) i ≡ some x
        → (y : UserSessionOrm) × (Dict.get d i ≡ some y)
          × (x.id ≡ y.id)
          × (x.token_prefix ≡ y.token_prefix)
    was = revoke_rows-held user_id current now d

revoke_other_sessions-IsValid :
    (user_id : ℕ) (current : Option String) (now : ℕ) (t : UserTables)
    → IsValid t
    → IsValid (revoke_other_sessions user_id current now t).1
unfolding revoke_other_sessions
revoke_other_sessions-IsValid user_id current now t h = record {
  users = h.users;
  sessions =
      revoke_rows-IsTable user_id (given_prefix current) now t.sessions t.next_session_id
        h.sessions;
  api_keys = h.api_keys;
}

module _ (g : RepositoryUserService) where
  pub change_password-IsValid :
      (a : Ambient) (user_id : ℕ) (current_password new_password : String)
      (current_session_token : Option String) (t : UserTables)
      → IsValid t
      → IsValid
          (change_password g a user_id current_password new_password current_session_token t).1
  unfolding change_password revoke_other_sessions
  change_password-IsValid a user_id current_password new_password current t h =
      elim (Option-cases (Dict.get t.users user_id)) [
        | inl missing ↦ rw (change_password, missing) h
        | inr (user, held) ↦
            let changed : UserRecord = record user {
              password_hash = hash_password g.lib a.salt new_password;
            } in
            one_of-IsValid t (revoke_other_sessions user_id current a.now (put_user changed t)).1 _
              (ground (arith, held)) h
              (revoke_other_sessions-IsValid user_id current a.now (put_user changed t)
                (put_user-IsValid t user_id user changed held refl refl h))
      ]

  pub reset_password-IsValid :
      (a : Ambient) (user_id : ℕ) (new_password : String) (t : UserTables)
      → IsValid t
      → IsValid (reset_password g a user_id new_password t).1
  unfolding reset_password revoke_other_sessions
  reset_password-IsValid a user_id new_password t h =
      elim (Option-cases (Dict.get t.users user_id)) [
        | inl missing ↦ rw (reset_password, missing) h
        | inr (user, held) ↦
            let changed : UserRecord = record user {
              password_hash = hash_password g.lib a.salt new_password;
            } in
            rw (reset_password, held, revoke_other_sessions)
              (revoke_other_sessions-IsValid user_id none a.now (put_user changed t)
                (put_user-IsValid t user_id user changed held refl refl h))
      ]
