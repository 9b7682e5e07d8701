-- ===== src/Tests/Web.antt =====
-- Requests of src/postara/api.py on examples.
use postara.Exec.{returned}
use postara.Prelude.{
  refl, true, none, some, [], text_pair_beq, ◌≡◌, ◌⊎◌, ◌∷◌, nat_eq, string_eq, option_eq,
}
use postara.Security.{
  parse_api_key, match_token, behind, match_parts, take_base62, is_base62, decode_key_material,
  hash_api_key, verify_api_key_hash, hash_session_token, parse_session_token,
  verify_session_token_hash, verify_password,
}
use postara.RateLimit.{check_api_key, add_or_raise, prune, bucket_events, store_events}
use postara.AuthProtection.Peer.{
  forwarded, is_trusted_proxy, resolve_client_ip, resolve_client_ip-forwarded,
}
use postara.AuthProtection.Limiter
use postara.AuthProtection.Limiter.{check_keys, check_bucket, active_bucket}
use postara.Users.{normalize_user_email}
use postara.Text.{strip, lower}
use postara.Users.Tables.{session_by_prefix}
use postara.Users.Repository
use postara.Accounts.{is_mailbox_name}
use postara.Accounts.Repository.{get_for_user_by_name}
use postara.Api.{auth_config}
use postara.Api.Access.{
  require_mailbox_access, bearer, require_user_api_key, require_api_key, checked_key, of_key,
  require_user_session, session_user,
}
use postara.Api.Owner.{
  owner_list_users, owner_list_mailboxes, owner_update_user_status, owner_reset_user_password,
}
use postara.Api.Owner.Hidden.{IsOwner, IsTurnedAway, routes_sound}
use postara.Api.Mailboxes.{
  account_missing, get_mailbox, update_mailbox_credentials, update_mailbox_name, delete_mailbox,
}
use postara.Api.Mailboxes.Foreign.{foreign_mailbox_missing}
use postara.Api.Keys.{create_api_key}
use postara.Api.Verification.{start_mailbox_verification, complete_mailbox_verification}
use postara.Api.Verification.Untraced.{from_elsewhere, verification_untraced}
use postara.Api.Auth.{login_user, check_auth_attempt}
use postara.Api.Auth.Failures.{counted, failure_response, login_user_failure}
use postara.Api.Access.Sound.{IsAllowed, require_mailbox_access_sound}
use postara.Dict
use postara.Dict.{Dict}
use postara.Tests.Site.{
  network, app, moment, ann, people, inbox, world, with_key, with_session, seen_world,
}

require_mailbox_access_sound_example : IsAllowed app moment with_key "work" "read" inbox people
unfolding require_mailbox_access bearer require_user_api_key require_api_key parse_api_key
    match_token behind match_parts take_base62 is_base62 checked_key check_api_key add_or_raise
    prune bucket_events Dict.get Repository.authenticate_api_key get_for_user_by_name of_key
    text_pair_beq store_events Dict.put decode_key_material hash_api_key verify_api_key_hash
require_mailbox_access_sound_example =
    require_mailbox_access_sound app moment with_key "work" "read" inbox world refl

resolve_client_ip-forwarded_example :
    resolve_client_ip network "5.6.7.8" (forwarded [] "9.9.9.9" " 1.2.3.4") ("5.6.7.8" ∷ [])
    ≡ "9.9.9.9"
unfolding Dict.get is_trusted_proxy strip
resolve_client_ip-forwarded_example =
    resolve_client_ip-forwarded network "5.6.7.8" "9.9.9.9" " 1.2.3.4" [] ("5.6.7.8" ∷ []) refl refl

routes_sound_example :
    IsOwner app moment with_session people
    ⊎ (IsTurnedAway app moment with_session (owner_list_users app moment with_session) world
        × IsTurnedAway app moment with_session (owner_list_mailboxes app moment with_session) world
        × IsTurnedAway app moment with_session
            (owner_update_user_status app moment 2 "disabled" with_session)
            world
        × IsTurnedAway app moment with_session
            (owner_reset_user_password app moment 2 "new" with_session)
            world)
routes_sound_example = routes_sound app moment with_session 2 "disabled" "new" world

foreign_mailbox_missing_example :
    (get_mailbox app moment 5 with_session world
      ≡ (returned (account_missing with_session), seen_world))
    × (update_mailbox_credentials app moment 5 "pw" with_session world
        ≡ (returned (account_missing with_session), seen_world))
    × (update_mailbox_name app moment 5 "home" with_session world
        ≡ (returned (account_missing with_session), seen_world))
    × (delete_mailbox app moment 5 with_session world
        ≡ (returned (account_missing with_session), seen_world))
    × (create_api_key app moment
          (record { name = "home"; mailbox_id = some 5; scopes = "read" ∷ [] })
          with_session
          world
        ≡ (returned (account_missing with_session), seen_world))
unfolding require_user_session bearer behind session_user Repository.authenticate_session
    parse_session_token match_parts take_base62 is_base62 session_by_prefix
    verify_session_token_hash hash_session_token strip Dict.get Dict.put is_mailbox_name
foreign_mailbox_missing_example =
    foreign_mailbox_missing app moment with_session ann 5 "home" "pw" ("read" ∷ []) world seen_world
      refl refl refl

verification_untraced_example :
    ((start_mailbox_verification app moment
        (record { name = "work"; email = "ann@x.y"; provider = "gmail"; password = "pw" })
        true
        with_session
        world).1
      ≡ (start_mailbox_verification app moment
          (record { name = "work"; email = "ann@x.y"; provider = "gmail"; password = "pw" })
          true
          (from_elsewhere "req_2" "9.9.9.9" none (some "curl") with_session)
          world).1)
    × ((complete_mailbox_verification app moment "mbv_t" "123456" with_session world).1
        ≡ (complete_mailbox_verification app moment "mbv_t" "123456"
            (from_elsewhere "req_2" "9.9.9.9" none (some "curl") with_session)
            world).1)
verification_untraced_example =
    verification_untraced app moment "req_2" "9.9.9.9" none (some "curl") with_session
      (record { name = "work"; email = "ann@x.y"; provider = "gmail"; password = "pw" }) true
      "mbv_t" "123456" world

login_user_failure_example :
    login_user app moment
      (record { email = "ann@x.y"; password = "wrong"; turnstile_token = none })
      with_key
      world
    ≡ (
      returned (failure_response with_key (counted app moment "ann@x.y" with_key []).0),
      record world { attempts = (counted app moment "ann@x.y" with_key []).1 },
    )
unfolding check_auth_attempt Limiter.check auth_config check_keys check_bucket active_bucket
    Dict.get Repository.login normalize_user_email lower strip verify_password
login_user_failure_example =
    login_user_failure app moment
      (record { email = "ann@x.y"; password = "wrong"; turnstile_token = none }) with_key world
      world refl refl
