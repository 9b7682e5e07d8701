-- ===== src/Tests/UserTables.antt =====
-- The tables of users, sessions and API keys under `RepositoryUserService`, src/postara/users.py, on
-- examples.
use postara.Prelude.{ℕ, String, none, List, [], arith, ◌∷◌}
use postara.Tests.{ascii, library, draws}
use postara.Users.{Ambient}
use postara.Users.Tables.{UserTables}
use postara.Users.Repository.{RepositoryUserService}
use postara.Users.Repository.Invariant.{IsValid}
use postara.Users.Repository.Invariant.Calls.{
  Call, register_call, login_call, status_call, new_key_call, after_all, after_all-IsValid,
}
use postara.Dict
use postara.Dict.Rows.{IsTable}

abbrev service : RepositoryUserService
service = record {
  lib = library;
  unicode = ascii;
  token_hash_keys = (1, "kkkkkkkkkkkkkkkkkkkkkkkkkkkkkkkk") ∷ [];
  active_token_hash_version = 1;
}

abbrev ambient : Ambient
ambient = record { now = 100; later = 101; salt = 0; draws = draws }

abbrev no_tables : UserTables
no_tables = record {
  users = [];
  next_user_id = 1;
  sessions = [];
  next_session_id = 1;
  api_keys = [];
  next_api_key_id = 1;
}

empty-IsTable : {V : Type 0} (number : V → ℕ) (column : V → String) → IsTable number column [] 1
unfolding Dict.get
empty-IsTable number column = record {
  keyed = tt;
  numbered = λ i x h. ground (arith, h);
  distinct = λ i j x y h. ground (arith, h);
  bounded = λ i x h. ground (arith, h);
}

no_tables-IsValid : IsValid no_tables
no_tables-IsValid = record {
  users = empty-IsTable _ _;
  sessions = empty-IsTable _ _;
  api_keys = empty-IsTable _ _;
}

-- The second registration meets the first one's e-mail, and the log-in its prefix.
abbrev calls : List Call
calls =
    register_call ambient "ann@x.y" "pass" "Ann"
    ∷ register_call ambient "ann@x.y" "word" "Anne"
    ∷ login_call ambient "ann@x.y" "pass"
    ∷ new_key_call ambient 1 "key" none none
    ∷ status_call 200 1 "disabled"
    ∷ []

after_all-IsValid_example : IsValid (after_all service calls no_tables)
after_all-IsValid_example = after_all-IsValid service calls no_tables no_tables-IsValid
