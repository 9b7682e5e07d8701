-- ===== src/Tests/People.antt =====
-- Tokens and sessions, src/postara/security.py and src/postara/users.py, on examples.
use postara.Errors.{session_not_found}
use postara.Exec.{returned, raised}
use postara.Prelude.{
  ℕ, String, refl, true, false, none, some, [], arith, nat_eq, is_some, ◌≡◌, ◌≢◌, ◌∷◌,
}
use postara.Text.{◌<>◌, pick, lower, strip}
use postara.Tests.{ascii, library, draws}
use postara.Security.{
  ApiKeyParts, verify_api_key_hash, hash_api_key, decode_key_material, match_token, base62,
  generate_api_key, parse_api_key, redact_token_for_display, generate_session_token,
  parse_session_token, verify_password, verify_session_token_hash, hash_password, choice62, behind,
  match_parts, take_base62, is_base62, hash_session_token,
}
use postara.Security.Tokens.{
  parse_api_key-generate_api_key, parse_session_token-generate_session_token,
}
use postara.Users.{
  ApiKeyRecord, authenticate_api_key, update_api_key_status, status_time, SessionRecord, UserRecord,
  UserService, Ambient, Setting, login, authenticate_session, revoke_session, reset_password,
  change_password, create_session, revoke_other_sessions, normalize_user_email,
}
use postara.Users.Sessions.{authenticate_session-login, authenticate_session-revoke_session}
use postara.Users.Passwords.{
  authenticate_session-reset_password, authenticate_session-change_password,
}
use postara.Users.Keys.{IsById, authenticate_api_key_sound, authenticate_api_key_disabled}
use postara.Prelude.{nat_eq}
use postara.Dict
use postara.Dict.{Dict}

abbrev secret_part : String
secret_part = "bbbbbbbbbbbbbbbbbbbbbbbbbbbbbbbb"

parse_api_key-generate_api_key_example :
    (parse_api_key ("pst_live_aaaaaaaa." <> secret_part)
      ≡ returned (record { kind = "live"; prefix = "aaaaaaaa"; secret = secret_part }))
    × (redact_token_for_display ("pst_live_aaaaaaaa." <> secret_part)
        ≡ returned "pst_live_aaaaaaaa...")
unfolding generate_api_key base62 choice62 pick
parse_api_key-generate_api_key_example =
    parse_api_key-generate_api_key "live" draws ("pst_live_aaaaaaaa." <> secret_part) refl

parse_session_token-generate_session_token_example :
    parse_session_token (generate_session_token draws)
    ≡ returned (base62 8 draws.for_prefix, base62 48 draws.for_secret)
parse_session_token-generate_session_token_example =
    parse_session_token-generate_session_token draws

abbrev setting : Setting
setting = record { lib = library; unicode = ascii; token_hash_key = "key" }

abbrev ambient : Ambient
ambient = record { now = 100; later = 101; salt = 0; draws = draws }

abbrev ann : UserRecord
ann = record {
  id = 1;
  email = "ann@x.y";
  name = "Ann";
  password_hash = "pass";
  role = "owner";
  created_at = 1;
  last_login_at = none;
  disabled_at = none;
}

abbrev token : String
token = "pst_session_aaaaaaaa.bbbbbbbbbbbbbbbbbbbbbbbbbbbbbbbbbbbbbbbbbbbbbbbb"

abbrev parts : String × String
parts = ("aaaaaaaa", "bbbbbbbbbbbbbbbbbbbbbbbbbbbbbbbbbbbbbbbbbbbbbbbb")

abbrev session : SessionRecord
session = record { user_id = 1; digest = "sha:" <> token; expires_at = 5000; revoked_at = none }

abbrev service : UserService
service = record {
  next_user_id = 2;
  next_api_key_id = 1;
  users = (1, ann) ∷ [];
  sessions = ("aaaaaaaa", session) ∷ [];
  api_keys = [];
}

parse_session_token-token : parse_session_token token ≡ returned parts
unfolding parse_session_token behind match_parts take_base62 is_base62
parse_session_token-token = refl

authenticate_session-login_example :
    (authenticate_session setting 200 token (login setting ambient "ann@x.y" "pass" service).1).0
    ≡ returned (record ann { last_login_at = some 100 })
unfolding login normalize_user_email lower strip verify_password create_session
    generate_session_token base62 choice62 pick hash_session_token parse_session_token behind
    match_parts take_base62 is_base62
authenticate_session-login_example =
    authenticate_session-login setting ambient "ann@x.y" "pass" token
      (record ann { last_login_at = some 100 }) 200 service refl

authenticate_session-revoke_session_example :
    (authenticate_session setting 200 token (revoke_session 150 token service).1).0
    ≡ raised session_not_found
authenticate_session-revoke_session_example =
    authenticate_session-revoke_session setting 150 200 token parts service
      parse_session_token-token

authenticate_session-reset_password_example :
    (authenticate_session setting 200 token (reset_password setting ambient 1 "new" service).1).0
    ≡ raised session_not_found
unfolding reset_password revoke_other_sessions Dict.get
authenticate_session-reset_password_example =
    authenticate_session-reset_password setting ambient 1 200 "new" token parts session service refl
      parse_session_token-token refl refl

-- The session that asks, that of `token`, stays.
authenticate_session-change_password_example :
    (verify_password library "pass" "pass" ≡ true)
    × ((authenticate_session setting 200 token
          (change_password setting ambient 1 "pass" "new" (some token) service).1).0
        ≡ returned (record ann { password_hash = "new" }))
unfolding change_password revoke_other_sessions Dict.get verify_password hash_password
    parse_session_token verify_session_token_hash hash_session_token behind match_parts take_base62
    is_base62
authenticate_session-change_password_example =
    authenticate_session-change_password setting ambient 1 200 "pass" "new" token (some token) parts
      session ann service refl refl parse_session_token-token refl refl

abbrev key_setting : Setting
key_setting = record {
  lib = library;
  unicode = ascii;
  token_hash_key = "kkkkkkkkkkkkkkkkkkkkkkkkkkkkkkkk";
}

abbrev raw_key : String
raw_key = "pst_live_aaaaaaaa.bbbbbbbbbbbbbbbbbbbbbbbbbbbbbbbb"

abbrev good_key : ApiKeyRecord
good_key = record {
  id = 1;
  user_id = 1;
  mailbox_id = none;
  scopes = "read" ∷ [];
  name = "good";
  prefix = "aaaaaaaa";
  key_hash = "kkkkkkkkkkkkkkkkkkkkkkkkkkkkkkkk" <> raw_key;
  hash_version = 1;
  created_at = 1;
  last_used_at = none;
  revoked_at = none;
}

abbrev other_key : ApiKeyRecord
other_key = record good_key { id = 2; prefix = "cccccccc"; key_hash = "" }

abbrev used_key : ApiKeyRecord
used_key = record good_key { last_used_at = some 200 }

abbrev key_service : UserService
key_service = record service { api_keys = (1, good_key) ∷ (2, other_key) ∷ [] }

key_service-IsById : IsById key_service.api_keys
unfolding Dict.get
key_service-IsById i key h = ground (arith, h, nat_eq.beq_iff 1 i, nat_eq.beq_iff 2 i)

authenticate_api_key_sound_example :
    (id : ℕ) × (key : ApiKeyRecord) × (found : ApiKeyParts) × (parse_api_key raw_key
      ≡ returned found)
    × (Dict.get key_service.api_keys id ≡ some key)
    × (used_key ≡ record key { last_used_at = some 200 })
    × (key.prefix ≡ found.prefix)
    × (is_some key.revoked_at ≡ false)
    × (verify_api_key_hash library raw_key key.key_hash "kkkkkkkkkkkkkkkkkkkkkkkkkkkkkkkk" ≡ true)
unfolding authenticate_api_key parse_api_key match_token match_parts behind take_base62 is_base62
    verify_api_key_hash hash_api_key decode_key_material Dict.get Dict.find_entry
authenticate_api_key_sound_example =
    authenticate_api_key_sound key_setting 200 raw_key used_key key_service (refl, (refl, tt)) refl

-- The second key is disabled; what is accepted is the first.
authenticate_api_key_disabled_example : used_key.id ≢ 2
unfolding authenticate_api_key update_api_key_status status_time parse_api_key match_token
    match_parts behind take_base62 is_base62 verify_api_key_hash hash_api_key decode_key_material
    Dict.get Dict.put Dict.find_entry
authenticate_api_key_disabled_example =
    authenticate_api_key_disabled key_setting 150 200 1 2 raw_key
      (record other_key { revoked_at = some 150 }) used_key key_service (refl, (refl, tt))
      key_service-IsById refl refl
