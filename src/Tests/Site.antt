-- ===== src/Tests/Site.antt =====
-- A small site for the tests of src/postara/api.py: two users' mailboxes, a session and a key.
use postara.Exec.{returned}
use postara.Text.{◌<>◌}
use postara.Prelude.{String, true, false, none, some, [], ◌∷◌, ◌==◌, nat_eq, string_eq, option_eq}
use postara.RateLimit.{InMemoryRateLimiter}
use postara.AuthProtection.{Network, ipv4}
use postara.AuthProtection.Store.Memory.{memory_store}
use postara.AuthProtection.Limiter.{Reads}
use postara.Users.{UserRecord, ApiKeyRecord}
use postara.Users.Tables.{UserSessionOrm, UserTables}
use postara.Users.Repository.{RepositoryUserService}
use postara.Accounts.{AccountRecord, blank_account}
use postara.Accounts.Tables.{Tables}
use postara.Accounts.Service.{RepositoryAccountService}
use postara.Providers.Registry.{default_registry}
use postara.Api.{Settings, MailboxRuntime, App, World, Request, Moment}
use postara.Tests.{ascii, python, library, draws}

abbrev pub hash_key : String
hash_key = "kkkkkkkkkkkkkkkkkkkkkkkkkkkkkkkk"

abbrev pub settings : Settings
settings = record {
  deployment_mode = "hosted";
  turnstile_secret_key = "";
  auth_protection_enabled = true;
  auth_emergency_bypass = false;
  auth_failure_limit = 5;
  auth_challenge_threshold = 3;
  auth_window_seconds = 300;
  auth_lock_seconds = 300;
  trusted_proxy_cidrs = [];
}

abbrev pub users : RepositoryUserService
users = record {
  lib = library;
  unicode = ascii;
  token_hash_keys = (1, hash_key) ∷ [];
  active_token_hash_version = 1;
}

abbrev pub accounts : RepositoryAccountService
accounts = record {
  repo = record {
    lib = library;
    cipher = record { keys = (1, "first") ∷ []; active_version = 1 };
    token_hash_keys = (1, hash_key) ∷ [];
    active_token_hash_version = 1;
  };
  python = python;
  oauth_refreshers = [];
}

-- Each address is its own network.
abbrev pub network : Network
network = record {
  unicode = ascii;
  ip_address = ipv4;
  in_network = λ address cidr. address == cidr;
}

-- Mail servers that take every password and have no mail.
abbrev pub runtime : MailboxRuntime
runtime = record {
  State = Unit;
  validate_credentials = λ email password host port s. (returned tt, s);
  list_folders = λ account credential s. (returned [], s);
  list_messages = λ account credential folder query s. (returned [], s);
  fetch_message = λ account credential folder uid s. (returned none, s);
  mark_seen = λ account credential folder uid seen s. (returned tt, s);
}

abbrev pub app : App
app = record {
  settings = settings;
  users = users;
  accounts = accounts;
  store = memory_store;
  network = network;
  runtime = runtime;
  registry = default_registry;
  siteverify = λ secret token ip. some true;
  quote = λ s. s;
}

abbrev pub reads : Reads
reads = record { now = 200; active = 200 }

abbrev pub moment : Moment
moment = record {
  user = λ n. record { now = 200; later = 200; salt = 0; draws = draws };
  account = λ n. record { now = 200; draws = draws; seed = 0; access_seed = 1; url_token = "t" };
  check_email = reads;
  check_ip = reads;
  failure_email = reads;
  failure_ip = reads;
  monotonic = 0;
  monotonic_after = 0;
  code_draws = λ i. 0;
}

abbrev pub ann : UserRecord
ann = record {
  id = 1;
  email = "ann@x.y";
  name = "Ann";
  password_hash = "pass";
  role = "member";
  created_at = 1;
  last_login_at = none;
  disabled_at = none;
}

abbrev pub token : String
token = "pst_session_aaaaaaaa.bbbbbbbbbbbbbbbbbbbbbbbbbbbbbbbbbbbbbbbbbbbbbbbb"

abbrev pub session : UserSessionOrm
session = record {
  id = 1;
  user_id = 1;
  token_prefix = "aaaaaaaa";
  token_hash = "sha:" <> token;
  created_at = 1;
  expires_at = 1000;
  last_used_at = none;
  revoked_at = none;
}

abbrev pub raw_key : String
raw_key = "pst_live_aaaaaaaa.bbbbbbbbbbbbbbbbbbbbbbbbbbbbbbbb"

abbrev pub key : ApiKeyRecord
key = record {
  id = 1;
  user_id = 1;
  mailbox_id = some 4;
  scopes = "read" ∷ [];
  name = "key";
  prefix = "aaaaaaaa";
  key_hash = hash_key <> raw_key;
  hash_version = 1;
  created_at = 1;
  last_used_at = none;
  revoked_at = none;
}

abbrev pub people : UserTables
people = record {
  users = (1, ann) ∷ [];
  next_user_id = 2;
  sessions = (1, session) ∷ [];
  next_session_id = 2;
  api_keys = (1, key) ∷ [];
  next_api_key_id = 2;
}

abbrev pub inbox : AccountRecord
inbox =
    blank_account 4 (some 1) "work" "a@gmail.com" "gmail" "app_password" "imap.gmail.com" 993 "p"
      "h" 1 1

abbrev pub other_inbox : AccountRecord
other_inbox = record inbox { id = 5; user_id = some 2 }

abbrev pub mailboxes : Tables
mailboxes = record {
  accounts = (4, inbox) ∷ (5, other_inbox) ∷ [];
  next_account_id = 6;
  pending = [];
  outbox = [];
  next_outbox_id = 1;
}

abbrev pub limiter : InMemoryRateLimiter
limiter = record {
  api_key_rule = record { limit = 60; window_seconds = 60 };
  auth_failure_rule = record { limit = 5; window_seconds = 300 };
  events = [];
}

abbrev pub world : World app.store.State app.runtime.State
world = record {
  people = people;
  mailboxes = mailboxes;
  limiter = limiter;
  attempts = [];
  mail = tt;
  sent = [];
}

abbrev pub with_key : Request
with_key = record {
  request_id = "req_1";
  client_ip = "1.2.3.4";
  client_host = some "1.2.3.4";
  user_agent = none;
  authorization = none;
  x_api_key = some raw_key;
}

abbrev pub with_session : Request
with_session = record with_key { authorization = some ("Bearer " <> token); x_api_key = none }

-- The session's user, after the check has noted its use.
abbrev pub seen_world : World app.store.State app.runtime.State
seen_world = record world {
  people = record people { sessions = (1, record session { last_used_at = some 200 }) ∷ [] };
}
