-- ===== src/Users/Repository/Invariant/Calls.antt =====
-- Sequences of calls of `RepositoryUserService` of src/postara/users.py.
use postara.Prelude.{ℕ, String, Option, List, [], ◌∷◌}
use postara.Users.{Ambient}
use postara.Users.Tables.{UserTables}
use postara.Users.Repository.{
  RepositoryUserService, register, login, authenticate_session, change_password, reset_password,
  create_api_key, authenticate_api_key, revoke_session, update_profile, update_user_status,
  delete_api_key, update_api_key_status,
}
use postara.Users.Repository.Invariant.{IsValid}
use postara.Users.Repository.Invariant.People.{
  register-IsValid, login-IsValid, authenticate_session-IsValid, revoke_session-IsValid,
  update_profile-IsValid, update_user_status-IsValid,
}
use postara.Users.Repository.Invariant.Keys.{
  create_api_key-IsValid, authenticate_api_key-IsValid, delete_api_key-IsValid,
  update_api_key_status-IsValid,
}
use postara.Users.Repository.Invariant.Revoked.{change_password-IsValid, reset_password-IsValid}

-- A method of the service that writes, with its arguments.
pub data Call : Type 0 where
  register_call : Ambient → (email password name : String) → Call
  login_call : Ambient → (email password : String) → Call
  session_call : ℕ → (raw_token : String) → Call
  revoke_call : ℕ → (raw_token : String) → Call
  profile_call : (user_id : ℕ) → (name : String) → Call
  status_call : ℕ → (user_id : ℕ) → (status : String) → Call
  change_call : Ambient → (user_id : ℕ) → (current new : String) → Option String → Call
  reset_call : Ambient → (user_id : ℕ) → (new : String) → Call
  new_key_call : Ambient → (user_id : ℕ) → String → Option ℕ → Option (List String) → Call
  key_call : ℕ → (raw_key : String) → Call
  delete_key_call : (user_id api_key_id : ℕ) → Call
  key_status_call : ℕ → (user_id api_key_id : ℕ) → (status : String) → Call

module _ (g : RepositoryUserService) where
  -- The tables after a call, whether it returned or raised.
  unfoldable pub after : Call → UserTables → UserTables
  after (register_call a email password name) t = (register g a email password name t).1
  after (login_call a email password) t = (login g a email password t).1
  after (session_call now raw_token) t = (authenticate_session g now raw_token t).1
  after (revoke_call now raw_token) t = (revoke_session now raw_token t).1
  after (profile_call user_id name) t = (update_profile user_id name t).1
  after (status_call now user_id status) t = (update_user_status now user_id status t).1
  after (change_call a user_id current new token) t =
      (change_password g a user_id current new token t).1
  after (reset_call a user_id new) t = (reset_password g a user_id new t).1
  after (new_key_call a user_id name mailbox_id scopes) t =
      (create_api_key g a user_id name mailbox_id scopes t).1
  after (key_call now raw_key) t = (authenticate_api_key g now raw_key t).1
  after (delete_key_call user_id api_key_id) t = (delete_api_key user_id api_key_id t).1
  after (key_status_call now user_id api_key_id status) t =
      (update_api_key_status now user_id api_key_id status t).1

  unfoldable pub after_all : List Call → UserTables → UserTables
  after_all [] t = t
  after_all (c ∷ rest) t = after_all rest (after c t)

  after-IsValid : (c : Call) (t : UserTables) → IsValid t → IsValid (after c t)
  unfolding after
  after-IsValid (register_call a email password name) = register-IsValid g a email password name
  after-IsValid (login_call a email password) = login-IsValid g a email password
  after-IsValid (session_call now raw_token) = authenticate_session-IsValid g now raw_token
  after-IsValid (revoke_call now raw_token) = revoke_session-IsValid now raw_token
  after-IsValid (profile_call user_id name) = update_profile-IsValid user_id name
  after-IsValid (status_call now user_id status) = update_user_status-IsValid now user_id status
  after-IsValid (change_call a user_id current new token) =
      change_password-IsValid g a user_id current new token
  after-IsValid (reset_call a user_id new) = reset_password-IsValid g a user_id new
  after-IsValid (new_key_call a user_id name mailbox_id scopes) =
      create_api_key-IsValid g a user_id name mailbox_id scopes
  after-IsValid (key_call now raw_key) = authenticate_api_key-IsValid g now raw_key
  after-IsValid (delete_key_call user_id api_key_id) = delete_api_key-IsValid user_id api_key_id
  after-IsValid (key_status_call now user_id api_key_id status) =
      update_api_key_status-IsValid now user_id api_key_id status

  -- If no two users have one e-mail and no two sessions and no two API keys one prefix, each row
  -- under its number and below the next one, then that holds after any sequence of calls of the
  -- service too, whichever of them raise.
  pub after_all-IsValid :
      (calls : List Call) (t : UserTables) → IsValid t → IsValid (after_all calls t)
  unfolding after_all
  after_all-IsValid [] t h = h
  after_all-IsValid (c ∷ rest) t h = after_all-IsValid rest (after c t) (after-IsValid c t h)
