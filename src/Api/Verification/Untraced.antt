-- ===== src/Api/Verification/Untraced.antt =====
-- What the routes that verify an app password, in src/postara/api.py, leave behind of a request.
use postara.Errors.{Error}
use postara.Exec.{Outcome, returned, raised, Exec, Outcome-cases}
use postara.Prelude.{
  String, refl, sym, inl, inr, Bool, Option, arith, Bool-cases, Option-cases, ◌≡◌, ◌∙◌, ◌==◌,
  string_eq,
}
use postara.Users.{UserRecord}
use postara.Accounts.Repository.{list_for_user}
use postara.Api.{App, World, Request, Moment, Response, guarded, rescue, try_except}
use postara.Api.Access.{Route, bearer, session_user, require_user_session, refuse_session}
use postara.Api.Mailboxes.{AccountCreateRequest}
use postara.Api.Verification.{
  is_first_elsewhere, begin_verification, start_checked, finish_verification, after_start,
  start_mailbox_verification, after_complete, complete_mailbox_verification,
}

-- The same request with another id, from another address and with another user agent.
abbrev pub from_elsewhere : String → String → Option String → Option String → Request → Request
from_elsewhere request_id client_ip client_host user_agent request = record request {
  request_id = request_id;
  client_ip = client_ip;
  client_host = client_host;
  user_agent = user_agent;
}

module _ {S : Type 0} where
  -- Two handlers that change nothing make no difference to the state.
  try_except-same :
      {B : Type 0} (m : Exec S B) (h h' : Error → Exec S B) (s : S)
      → ((e : Error) (s : S) → (h e s).1 ≡ s)
      → ((e : Error) (s : S) → (h' e s).1 ≡ s)
      → (try_except m h s).1 ≡ (try_except m h' s).1
  try_except-same {B} m h h' s still still' = go (m s).0 (m s).1
    where
      go : (r : Outcome B) (t : S) → (rescue h r t).1 ≡ (rescue h' r t).1
      go (returned b) t = refl
      go (raised e) t = still e t ∙ sym (still' e t)

module _ (app : App) (a : Moment) where
  abbrev Worlds : Type 0
  Worlds = World app.store.State app.runtime.State

  -- Where the session is refused, the state is that of the check.
  refused-still :
      (request : Request) (e : Error) (f : UserRecord → Route app a Response) (w : Worlds)
      → (guarded (refuse_session request e) f w).1 ≡ w
  refused-still request e f w = ground arith

  after_complete-still :
      (request : Request) (e : Error) (w : Worlds) → (after_complete app a request e w).1 ≡ w
  after_complete-still request e w = ground arith

  after_start-still :
      (provider : String) (request : Request) (e : Error) (w : Worlds)
      → (after_start app a provider request e w).1 ≡ w
  after_start-still provider request e w = ground arith

  module _ (id ip : String) (host agent : Option String) (request : Request) where
    abbrev other : Request
    other = from_elsewhere id ip host agent request

    guarded-same :
        (f g : UserRecord → Route app a Response) (w : Worlds)
        → ((user : UserRecord) (s : Worlds) → (f user s).1 ≡ (g user s).1)
        → (guarded (require_user_session app a request) f w).1
          ≡ (guarded (require_user_session app a other) g w).1
    unfolding require_user_session
    guarded-same f g w same = elim (Option-cases (bearer request.authorization)) [
      | inl missing ↦ rw (require_user_session, missing) refl
      | inr (given, shown) ↦ elim (Outcome-cases (session_user app a given w).0) [
        | inl (e, raises) ↦
            rw (require_user_session, shown, raises)
              (refused-still request e f (session_user app a given w).1
                ∙ sym (refused-still other e g (session_user app a given w).1))
        | inr (user, returns) ↦
            rw (require_user_session, shown, returns) (same user (session_user app a given w).1)
      ]
    ]

    -- Whatever the id, the address and the user agent of a request, the two steps of a verification
    -- leave everything as they do for any other of them: the tables, the rows of the audit outbox
    -- among them, are the same.
    pub verification_untraced :
        (payload : AccountCreateRequest) (terms : Bool) (verification_id code : String) (w : Worlds)
        → ((start_mailbox_verification app a payload terms request w).1
            ≡ (start_mailbox_verification app a payload terms other w).1)
          × ((complete_mailbox_verification app a verification_id code request w).1
              ≡ (complete_mailbox_verification app a verification_id code other w).1)
    unfolding start_mailbox_verification start_checked begin_verification
        complete_mailbox_verification finish_verification
    verification_untraced payload terms verification_id code w = (
      guarded-same _ _ w (λ user s. elim (Bool-cases (app.settings.deployment_mode == "hosted")) [
        | inr self ↦ rw self refl
        | inl hosted ↦ elim (Bool-cases terms) [
          | inr unaccepted ↦ rw (hosted, unaccepted) refl
          | inl accepted ↦
              elim (Bool-cases
                (is_first_elsewhere app user payload.email (list_for_user user.id s.mailboxes))) [
                  | inl first ↦ rw (hosted, accepted, first) refl
                  | inr later ↦
                      rw (hosted, accepted, later)
                        (try_except-same
                          (start_checked app a payload request user
                            (list_for_user user.id s.mailboxes))
                          (after_start app a payload.provider request)
                          (after_start app a payload.provider other) s
                          (after_start-still payload.provider request)
                          (after_start-still payload.provider other))
                ]
        ]
      ]),
      guarded-same _ _ w (λ user s. elim (Bool-cases (app.settings.deployment_mode == "hosted")) [
        | inr self ↦ rw self refl
        | inl hosted ↦ rw hosted (
            try_except-same (finish_verification app a verification_id code request user)
              (after_complete app a request) (after_complete app a other) s
              (after_complete-still request) (after_complete-still other))
      ]),
    )
