-- ===== src/Api/Keys.antt =====
-- The routes under /api-keys of src/postara/api.py.
use postara.Errors.{api_key_not_found, Error}
use postara.Exec.{pure, raise, gets, ◌>>=◌, ◌>>◌}
use postara.Prelude.{ℕ, String, Option, none, some, List}
use postara.Audit.{array, text, field, end}
use postara.Users.{ApiKeyRecord}
use postara.Users.Repository
use postara.Accounts.Repository.{get_for_user}
use postara.Api.{
  App, Request, Moment, Response, error_response, ok, no_content, on_people, on_mailboxes, guarded,
  try_except,
}
use postara.Api.Access.{Route, require_user_session}
use postara.Api.Mailboxes.{or_missing}
use postara.Api.Bodies.{each, key_dto}

pub record ApiKeyCreateRequest : Type 0 where
  pub name : String
  pub mailbox_id : Option ℕ
  pub scopes : List String

module _ (app : App) (a : Moment) where
  unfoldable pub list_api_keys : Request → Route app a Response
  list_api_keys request = guarded (require_user_session app a request) λ user. do
    keys ← on_people (gets (Repository.list_api_keys user.id))
    pure (ok 200 (field "api_keys" (array (each (key_dto app.accounts.python) keys)) end))

  -- A key may be for a mailbox of the user only.
  abbrev pub require_own_mailbox : ℕ → Option ℕ → Route app a (Unit {0})
  require_own_mailbox user_id none = pure tt
  require_own_mailbox user_id (some mailbox_id) = do
    account ← on_mailboxes (get_for_user user_id mailbox_id)
    pure tt

  abbrev pub new_key_body : ApiKeyRecord × String → Response
  new_key_body (key, raw_key) = ok 201 (
      field "api_key_record" (key_dto app.accounts.python key) (field "api_key" (text raw_key) end))

  unfoldable pub create_api_key : ApiKeyCreateRequest → Request → Route app a Response
  create_api_key payload request = guarded (require_user_session app a request) λ user.
      try_except
        (do
          require_own_mailbox user.id payload.mailbox_id
          made ← on_people (
              Repository.create_api_key app.users (a.user 1) user.id payload.name payload.mailbox_id
                (some payload.scopes))
          pure (new_key_body made))
        (or_missing app a request)

  abbrev pub no_key : Request → Error → Route app a Response
  no_key request api_key_not_found =
      pure (error_response request 404 "api_key_not_found" "API key not found.")
  no_key request e = raise e

  unfoldable pub update_api_key_status : ℕ → String → Request → Route app a Response
  update_api_key_status api_key_id status request =
      guarded (require_user_session app a request) λ user.
        try_except
          (do
            key ←
                on_people
                  (Repository.update_api_key_status (a.user 1).now user.id api_key_id status)
            pure (ok 200 (field "api_key" (key_dto app.accounts.python key) end)))
          (no_key request)

  unfoldable pub revoke_api_key : ℕ → Request → Route app a Response
  revoke_api_key api_key_id request = guarded (require_user_session app a request) λ user.
      try_except (do on_people (Repository.revoke_api_key user.id api_key_id); pure no_content)
        (no_key request)
