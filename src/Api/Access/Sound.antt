-- ===== src/Api/Access/Sound.antt =====
-- What `require_mailbox_access` of src/postara/api.py lets through.
use postara.Errors.{account_not_found, Error}
use postara.Exec.{
  returned, pure, raise_if, returned_inj, raised_not, Outcome-cases, bind_inv, ◌>>=◌, ◌>>◌,
}
use postara.Prelude.{
  ℕ, String, refl, ap, subst, inl, inr, Bool, true, false, none, some, arith, string_eq, option_eq,
  Bool-cases, Option-cases, find-true, ◌≡◌, ◌∙◌, ◌⊎◌, nat_eq,
}
use postara.Text.{strip}
use postara.Security.{parse_api_key}
use postara.RateLimit.{check_api_key}
use postara.Users.{UserRecord, ApiKeyRecord}
use postara.Users.Tables.{UserTables}
use postara.Users.Repository.{authenticate_session, authenticate_api_key}
use postara.Accounts.{AccountRecord, has_name}
use postara.Accounts.Tables.{Tables}
use postara.Accounts.Repository.{get_for_user_by_name}
use postara.Dict.{values}
use postara.Api.{
  App, World, Request, Moment, Response, Guarded, refused, admitted, on_limiter, on_people,
  on_mailboxes, try-returned,
}
use postara.Api.Access.{
  given_text, require_api_key, refuse_session, refuse_key, bearer, has_scope, is_elsewhere,
  session_user, require_user_session, checked_key, require_user_api_key, of_session, of_key,
  require_mailbox_access,
}

get_for_user_by_name-named :
    (user_id : ℕ) (name : String) (t : Tables) (account : AccountRecord)
    → (get_for_user_by_name user_id name t).0 ≡ returned account
    → (account.name ≡ name) × (account.user_id ≡ some user_id)
unfolding get_for_user_by_name
get_for_user_by_name-named user_id name t account h = ground (
  arith,
  h,
  find-true (has_name (some user_id) name) (values t.accounts) account,
  string_eq.beq_iff account.name name,
  option_eq.beq_iff account.user_id (some user_id),
)

admitted_inj : {B : Type 0} {x y : B} → admitted x ≡ admitted y → x ≡ y
admitted_inj {B} {x} h = ap value h
  where
    value : Guarded B → B
    value (admitted z) = z
    value (refused _) = x

refused_not : {B : Type 0} {r : Response} {x : B} → refused r ≡ admitted x → ⊥
refused_not {B} h = subst IsRefused h tt
  where
    IsRefused : Guarded B → Type 0
    IsRefused (refused _) = Unit
    IsRefused (admitted _) = ⊥

session_never :
    {S B : Type 0} (request : Request) (b : B) (e : Error) (s : S)
    → (refuse_session request e s).0 ≡ returned (admitted b)
    → ⊥
session_never request b e s h = ground (arith, h)

key_never :
    {S B : Type 0} (request : Request) (b : B) (e : Error) (s : S)
    → (refuse_key request e s).0 ≡ returned (admitted b)
    → ⊥
key_never request b e s h = ground (arith, h)

passed :
    {S B : Type 0} (test : Bool) (x y : B) (s : S)
    → ((raise_if test account_not_found >> pure (admitted x)) s).0 ≡ returned (admitted y)
    → (test ≡ false) × (x ≡ y)
passed true x y s h =
    let absurd : ⊥ = raised_not account_not_found (admitted y) h in elim absurd [ ]
passed false x y s h = (refl, admitted_inj (returned_inj h))

module _ (app : App) (a : Moment) where
  -- The session of a request, and what it allows.
  pub record IsSession (request : Request) (user_id : ℕ) (t : UserTables) : Type 0 where
    pub given : String
    pub user : UserRecord
    pub presented : bearer request.authorization ≡ some given
    pub accepted :
        (authenticate_session app.users (a.user 0).now (strip app.users.unicode given) t).0
        ≡ returned user
    pub is_user : user.id ≡ user_id

  -- The API key of a request that shows no session.
  pub record IsKey (request : Request) (scope : String) (user_id : ℕ) (account : AccountRecord)
      (t : UserTables) : Type 0 where
    pub raw_key : String
    pub key : ApiKeyRecord
    pub presented : given_text request.x_api_key ≡ some raw_key
    pub no_session : bearer request.authorization ≡ none
    pub accepted : (authenticate_api_key app.users (a.user 0).now raw_key t).0 ≡ returned key
    pub is_user : key.user_id ≡ user_id
    pub in_scope : has_scope scope key ≡ true
    pub for_mailbox : is_elsewhere key account ≡ false

  pub session_sound :
      (request : Request) (given : String) (user : UserRecord)
      (w : World app.store.State app.runtime.State)
      → bearer request.authorization ≡ some given
      → (require_user_session app a request w).0 ≡ returned (admitted user)
      → (authenticate_session app.users (a.user 0).now (strip app.users.unicode given) w.people).0
        ≡ returned user
  unfolding require_user_session session_user
  session_sound request given user w shown h =
      let tried =
        try-returned (do found ← session_user app a given; pure (admitted found))
          (refuse_session request) w (admitted user) (session_never request user)
          (rw (require_user_session, shown) at h) in
      let (found, accepted, same) =
        bind_inv (session_user app a given) (λ found. pure (admitted found)) w (admitted user)
          tried in
      subst
        (λ x.
          (authenticate_session app.users (a.user 0).now (strip app.users.unicode given) w.people).0
          ≡ returned x)
        (admitted_inj (returned_inj same)) accepted

  key_sound :
      (request : Request) (key : ApiKeyRecord) (w : World app.store.State app.runtime.State)
      → (require_user_api_key app a request w).0 ≡ returned (admitted key)
      → (raw_key : String) × (given_text request.x_api_key ≡ some raw_key)
        × ((authenticate_api_key app.users (a.user 0).now raw_key w.people).0 ≡ returned key)
  unfolding require_user_api_key require_api_key checked_key
  key_sound request key w h = elim (Option-cases (given_text request.x_api_key)) [
    | inl missing ↦ ground (arith, h, missing)
    | inr (raw_key, given) ↦ elim (Outcome-cases (parse_api_key raw_key)) [
      | inl (e, bad) ↦ ground (arith, h, given, bad)
      | inr (parts, good) ↦
          let tried =
            try-returned (do found ← checked_key app a raw_key parts; pure (admitted found))
              (refuse_key request) w (admitted key) (key_never request key)
              (rw (require_user_api_key, require_api_key, given, good) at h) in
          let (found, checked, same) =
            bind_inv (checked_key app a raw_key parts) (λ found. pure (admitted found)) w
              (admitted key) tried in
          let (_, _, accepted) =
            bind_inv (on_limiter (check_api_key parts.prefix a.monotonic a.monotonic_after))
              (λ _. on_people (authenticate_api_key app.users (a.user 0).now raw_key)) w found
              checked in
          (
            raw_key,
            given,
            subst
                (λ x.
                  (authenticate_api_key app.users (a.user 0).now raw_key w.people).0 ≡ returned x)
                (admitted_inj (returned_inj same)) accepted,
          )
    ]
  ]

  unfoldable pub IsAllowed : Request → String → String → AccountRecord → UserTables → Type 0
  IsAllowed request mailbox_name scope account t =
      (account.name ≡ mailbox_name)
      × ((user_id : ℕ) × (account.user_id ≡ some user_id)
          × (IsSession request user_id t ⊎ IsKey request scope user_id account t))

  by_session :
      (request : Request) (mailbox_name scope given : String) (user : Guarded UserRecord)
      (account : AccountRecord) (w w' : World app.store.State app.runtime.State)
      → bearer request.authorization ≡ some given
      → (require_user_session app a request w).0 ≡ returned user
      → (of_session app a mailbox_name user w').0 ≡ returned (admitted account)
      → IsAllowed request mailbox_name scope account w.people
  unfolding IsAllowed
  by_session request name scope given (refused r) account w w' shown session found =
      let absurd : ⊥ = refused_not (returned_inj found) in elim absurd [ ]
  by_session request name scope given (admitted user) account w w' shown session found =
      let (x, got, same) =
        bind_inv (on_mailboxes (get_for_user_by_name user.id name)) (λ x. pure (admitted x)) w'
          (admitted account) found in
      let named =
        get_for_user_by_name-named user.id name w'.mailboxes account
          (got ∙ ap returned (admitted_inj (returned_inj same))) in
      (
        named.0,
        (
          user.id,
          named.1,
          inl (record {
            given = given;
            user = user;
            presented = shown;
            accepted = session_sound request given user w shown session;
            is_user = refl;
          }),
        ),
      )

  by_key :
      (request : Request) (mailbox_name scope : String) (key : Guarded ApiKeyRecord)
      (account : AccountRecord) (w w' : World app.store.State app.runtime.State)
      → bearer request.authorization ≡ none
      → (require_user_api_key app a request w).0 ≡ returned key
      → (of_key app a request mailbox_name scope key w').0 ≡ returned (admitted account)
      → IsAllowed request mailbox_name scope account w.people
  unfolding IsAllowed of_key
  by_key request name scope (refused r) account w w' unshown accepted found =
      let absurd : ⊥ = refused_not (returned_inj found) in elim absurd [ ]
  by_key request name scope (admitted key) account w w' unshown accepted found =
      elim (Bool-cases (has_scope scope key)) [
        | inr out ↦ let absurd : ⊥ = refused_not (returned_inj (rw out at found)) in elim absurd [ ]
        | inl in_scope ↦
            let (x, got, rest) =
              bind_inv (on_mailboxes (get_for_user_by_name key.user_id name))
                (λ x. raise_if (is_elsewhere key x) account_not_found >> pure (admitted x)) w'
                (admitted account) (rw in_scope at found) in
            let (here, same) = passed (is_elsewhere key x) x account _ rest in
            let named =
              get_for_user_by_name-named key.user_id name w'.mailboxes account
                (got ∙ ap returned same) in
            let (raw_key, presented, valid) = key_sound request key w accepted in
            (
              named.0,
              (
                key.user_id,
                named.1,
                inr (record {
                  raw_key = raw_key;
                  key = key;
                  presented = presented;
                  no_session = unshown;
                  accepted = valid;
                  is_user = refl;
                  in_scope = in_scope;
                  for_mailbox = subst (λ y. is_elsewhere key y ≡ false) same here;
                }),
              ),
            )
      ]

  -- If `require_mailbox_access` lets a request through to an account, the account has the name of
  -- the path and is a user's, and either the request's session is accepted as that user's, or, with
  -- no session shown, its API key is accepted as that user's, has the scope and is for no other
  -- mailbox.
  pub require_mailbox_access_sound :
      (request : Request) (mailbox_name scope : String) (account : AccountRecord)
      (w : World app.store.State app.runtime.State)
      → (require_mailbox_access app a request mailbox_name scope w).0 ≡ returned (admitted account)
      → IsAllowed request mailbox_name scope account w.people
  unfolding require_mailbox_access
  require_mailbox_access_sound request mailbox_name scope account w h =
      elim (Option-cases (bearer request.authorization)) [
        | inr (given, shown) ↦
            let (user, session, found) =
              bind_inv (require_user_session app a request) (of_session app a mailbox_name) w
                (admitted account) (rw (require_mailbox_access, shown) at h) in
            by_session request mailbox_name scope given user account w _ shown session found
        | inl unshown ↦
            let (key, accepted, found) =
              bind_inv (require_user_api_key app a request)
                (of_key app a request mailbox_name scope) w (admitted account)
                (rw (require_mailbox_access, unshown) at h) in
            by_key request mailbox_name scope key account w _ unshown accepted found
      ]
