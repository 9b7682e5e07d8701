-- ===== src/Api/Owner.antt =====
-- The routes under /owner of src/postara/api.py: for all but the owner they are not there.
pub mod Hidden
use postara.Errors.{session_not_found, Error}
use postara.Exec.{pure, raise, gets, ◌>>=◌, ◌>>◌}
use postara.Prelude.{ℕ, String, not, if◌then◌else◌, ◌==◌, string_eq}
use postara.Audit.{array, field, end}
use postara.Users.Repository
use postara.Users.Repository.{list_users}
use postara.Dict.{values}
use postara.Api.{
  App, Request, Moment, Response, error_response, ok, no_content, on_people, on_mailboxes, guarded,
  try_except,
}
use postara.Api.Access.{Route, require_user_session}
use postara.Api.Auth.{user_body}
use postara.Api.Bodies.{each, user_dto, account_dto}

abbrev pub owner_not_found : Request → Response
owner_not_found request = error_response request 404 "not_found" "Not found."

module _ (app : App) (a : Moment) where
  -- The test that each of the routes begins with.
  abbrev pub for_owner : Request → Route app a Response → Route app a Response
  for_owner request route =
      guarded (require_user_session app a request)
        λ user. if not (user.role == "owner") then pure (owner_not_found request) else route

  abbrev pub no_target : Request → Error → Route app a Response
  no_target request session_not_found = pure (owner_not_found request)
  no_target request e = raise e

  -- The bodies of the routes, behind that test.
  abbrev pub users_listed : Route app a Response
  users_listed = do
    users ← on_people (gets list_users)
    pure (ok 200 (field "users" (array (each (user_dto app.accounts.python) users)) end))

  abbrev pub status_updated : ℕ → String → Request → Route app a Response
  status_updated user_id status request =
      try_except
        (do
          target ← on_people (Repository.update_user_status (a.user 1).now user_id status)
          pure (user_body app a target))
        (no_target request)

  abbrev pub password_reset : ℕ → String → Request → Route app a Response
  password_reset user_id new_password request =
      try_except
        (do
          on_people (Repository.reset_password app.users (a.user 1) user_id new_password)
          pure no_content)
        (no_target request)

  abbrev pub mailboxes_listed : Route app a Response
  mailboxes_listed = do
    accounts ← on_mailboxes (gets (λ t. values t.accounts))
    pure (ok 200 (field "mailboxes" (array (each (account_dto app.accounts.python) accounts)) end))

  unfoldable pub owner_list_users : Request → Route app a Response
  owner_list_users request = for_owner request users_listed

  unfoldable pub owner_update_user_status : ℕ → String → Request → Route app a Response
  owner_update_user_status user_id status request =
      for_owner request (status_updated user_id status request)

  unfoldable pub owner_reset_user_password : ℕ → String → Request → Route app a Response
  owner_reset_user_password user_id new_password request =
      for_owner request (password_reset user_id new_password request)

  unfoldable pub owner_list_mailboxes : Request → Route app a Response
  owner_list_mailboxes request = for_owner request mailboxes_listed
