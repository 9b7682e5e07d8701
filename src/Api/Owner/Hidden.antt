-- ===== src/Api/Owner/Hidden.antt =====
-- Who reaches the routes under /owner of src/postara/api.py.
use postara.Errors.{Error}
use postara.Exec.{Outcome, returned, raised, Outcome-cases}
use postara.Prelude.{
  ℕ, String, refl, subst, inl, inr, some, arith, string_eq, Bool-cases, Option-cases, ◌≤◌, ◌≡◌, ◌⊎◌,
  ◌==◌,
}
use postara.Text.{strip}
use postara.Users.{UserRecord}
use postara.Users.Tables.{UserTables}
use postara.Users.Repository.{authenticate_session}
use postara.Api.{error_with, App, World, Request, Moment, Response, Guarded, refused, admitted}
use postara.Api.Access.{Route, bearer, refuse_session, session_user, require_user_session}
use postara.Api.Access.Sound.{session_sound}
use postara.Api.Owner.{
  owner_not_found, users_listed, status_updated, password_reset, mailboxes_listed, for_owner,
  owner_list_users, owner_update_user_status, owner_reset_user_password, owner_list_mailboxes,
}

all_four : {A B C D E : Type 0} → A ⊎ B → A ⊎ C → A ⊎ D → A ⊎ E → A ⊎ (B × C × D × E)
all_four (inl x) c d e = inl x
all_four (inr b) (inl x) d e = inl x
all_four (inr b) (inr c) (inl x) e = inl x
all_four (inr b) (inr c) (inr d) (inl x) = inl x
all_four (inr b) (inr c) (inr d) (inr e) = inr (b, c, d, e)

module _ (app : App) (a : Moment) where
  -- The request shows a session that is accepted, of a user whose role is that of the owner.
  pub record IsOwner (request : Request) (t : UserTables) : Type 0 where
    pub given : String
    pub user : UserRecord
    pub presented : bearer request.authorization ≡ some given
    pub accepted :
        (authenticate_session app.users (a.user 0).now (strip app.users.unicode given) t).0
        ≡ returned user
    pub is_owner : user.role ≡ "owner"

  -- An answer that says no, or an exception; the state is as the check of the session leaves it.
  abbrev pub IsTurnedAway :
      Request → Route app a Response → World app.store.State app.runtime.State → Type 0
  IsTurnedAway request route w =
      (((response : Response) × ((route w).0 ≡ returned response) × (400 ≤ response.status_code))
        ⊎ ((e : Error) × ((route w).0 ≡ raised e)))
      × ((route w).1 ≡ (require_user_session app a request w).1)

  -- A session that is not accepted is answered 401.
  IsRefusal : Outcome (Guarded UserRecord) → Type 0
  IsRefusal (returned (refused response)) = 400 ≤ response.status_code
  IsRefusal _ = Unit

  refuse_session-IsRefusal :
      (request : Request) (e : Error) (w : World app.store.State app.runtime.State)
      → IsRefusal (refuse_session request e w).0
  unfolding IsRefusal error_with
  refuse_session-IsRefusal request e w = ground arith

  require_user_session-IsRefusal :
      (request : Request) (w : World app.store.State app.runtime.State)
      → IsRefusal (require_user_session app a request w).0
  unfolding require_user_session IsRefusal error_with
  require_user_session-IsRefusal request w = elim (Option-cases (bearer request.authorization)) [
    | inl missing ↦ rw (require_user_session, missing) (omega arith)
    | inr (given, shown) ↦ elim (Outcome-cases (session_user app a given w).0) [
      | inl (e, bad) ↦ rw (require_user_session, shown, bad) (refuse_session-IsRefusal request e _)
      | inr (user, good) ↦ rw (require_user_session, shown, good) tt
    ]
  ]

  session_admitted :
      (request : Request) (user : UserRecord) (w : World app.store.State app.runtime.State)
      → (require_user_session app a request w).0 ≡ returned (admitted user)
      → user.role ≡ "owner"
      → IsOwner request w.people
  unfolding require_user_session
  session_admitted request user w taken owner = elim (Option-cases (bearer request.authorization)) [
    | inl missing ↦ ground (arith, taken, missing)
    | inr (given, shown) ↦ record {
      given = given;
      user = user;
      presented = shown;
      accepted = session_sound app a request given user w shown taken;
      is_owner = owner;
    }
  ]

  for_owner_sound :
      (request : Request) (route : Route app a Response)
      (w : World app.store.State app.runtime.State)
      → IsOwner request w.people ⊎ IsTurnedAway request (for_owner app a request route) w
  unfolding IsRefusal error_with
  for_owner_sound request route w = elim (Outcome-cases (require_user_session app a request w).0) [
    | inl (e, bad) ↦ inr (inr (e, rw bad refl), rw bad refl)
    | inr (refused response, turned) ↦
        let refusal : 400 ≤ response.status_code =
          subst IsRefusal turned (require_user_session-IsRefusal request w) in
        inr (inl (response, rw turned refl, refusal), rw turned refl)
    | inr (admitted user, taken) ↦ elim (Bool-cases (user.role == "owner")) [
      | inr other ↦ inr (
        inl (owner_not_found request, rw (taken, other) refl, omega arith),
        rw (taken, other) refl,
      )
      | inl owner ↦
          inl
            (session_admitted request user w taken ((string_eq.beq_iff user.role "owner").0 owner))
    ]
  ]

  -- Each of the routes that list users and mailboxes, disable a user or set a password does its
  -- work only for the owner: either the request shows a session that is accepted, of a user whose
  -- role is "owner", or it is answered with a status from 400 on or an exception, and nothing
  -- changes behind the check of the session.
  pub routes_sound :
      (request : Request) (user_id : ℕ) (status new_password : String)
      (w : World app.store.State app.runtime.State)
      → IsOwner request w.people
        ⊎ (IsTurnedAway request (owner_list_users app a request) w
            × IsTurnedAway request (owner_list_mailboxes app a request) w
            × IsTurnedAway request (owner_update_user_status app a user_id status request) w
            × IsTurnedAway request (owner_reset_user_password app a user_id new_password request) w)
  unfolding owner_list_users owner_list_mailboxes owner_update_user_status owner_reset_user_password
  routes_sound request user_id status new_password w =
      all_four (for_owner_sound request (users_listed app a) w)
        (for_owner_sound request (mailboxes_listed app a) w)
        (for_owner_sound request (status_updated app a user_id status request) w)
        (for_owner_sound request (password_reset app a user_id new_password request) w)
