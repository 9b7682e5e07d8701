-- ===== src/Api/Mailboxes/Foreign.antt =====
-- The routes of src/postara/api.py on one mailbox, for a mailbox that is not the user's.
use postara.Exec.{returned}
use postara.Prelude.{ℕ, String, refl, true, none, some, List, ◌≡◌, nat_eq, string_eq, option_eq}
use postara.Users.{UserRecord}
use postara.Accounts.{own_account, is_mailbox_name}
use postara.Accounts.Repository
use postara.Accounts.Repository.{get_for_user}
use postara.Accounts.Service
use postara.Dict
use postara.Api.{App, World, Request, Moment, admitted}
use postara.Api.Access.{require_user_session}
use postara.Api.Keys.{create_api_key}
use postara.Api.Mailboxes.{
  account_missing, get_mailbox, update_mailbox_credentials, update_mailbox_name, delete_mailbox,
}

-- A mailbox that is not there and one of another user are the same to the routes that show it, name
-- it anew, give it a password, delete it or make an API key for it: they answer 404, nothing changes
-- behind the check of the session, and no mail server is asked.
pub foreign_mailbox_missing :
    (app : App) (a : Moment) (request : Request) (user : UserRecord) (mailbox_id : ℕ)
    (name password : String) (scopes : List String) (w w' : World app.store.State app.runtime.State)
    → require_user_session app a request w ≡ (returned (admitted user), w')
    → own_account user.id (Dict.get w'.mailboxes.accounts mailbox_id) ≡ none
    → is_mailbox_name name ≡ true
    → (get_mailbox app a mailbox_id request w ≡ (returned (account_missing request), w'))
      × (update_mailbox_credentials app a mailbox_id password request w
          ≡ (returned (account_missing request), w'))
      × (update_mailbox_name app a mailbox_id name request w
          ≡ (returned (account_missing request), w'))
      × (delete_mailbox app a mailbox_id request w ≡ (returned (account_missing request), w'))
      × (create_api_key app a
            (record { name = name; mailbox_id = some mailbox_id; scopes = scopes })
            request
            w
          ≡ (returned (account_missing request), w'))
unfolding create_api_key get_mailbox update_mailbox_credentials update_mailbox_name delete_mailbox
    get_for_user Service.update_name_for_user Service.delete_for_user
    Repository.update_name_for_user Repository.delete_for_user
foreign_mailbox_missing app a request user mailbox_id name password scopes w w' session foreign
      valid =
    (
      rw (get_mailbox, session, get_for_user, foreign) refl,
      rw (update_mailbox_credentials, session, get_for_user, foreign) refl,
      rw
          (
            update_mailbox_name, session, Service.update_name_for_user,
            Repository.update_name_for_user, valid, get_for_user, foreign,
          )
          refl,
      rw
          (
            delete_mailbox, session, Service.delete_for_user, Repository.delete_for_user,
            get_for_user, foreign,
          )
          refl,
      rw (create_api_key, session, get_for_user, foreign) refl,
    )
