-- ===== src/Users/Repository/Invariant.antt =====
-- The unique columns of the tables of src/postara/models.py that `RepositoryUserService` writes, and
-- its kinds of write.
pub mod People
pub mod Keys
pub mod Revoked
pub mod Calls
use postara.Prelude.{
  ℕ, String, sym, subst, inl, inr, Bool, false, some, any, find, ◌+◌, ◌≡◌, ◌⊎◌, ◌==◌, nat_eq,
  string_eq, option_eq,
}
use postara.Users.{UserRecord, ApiKeyRecord}
use postara.Users.Tables.{UserSessionOrm, UserTables, put_user, put_session, put_key}
use postara.Dict
use postara.Dict.{Dict, values, IsKeyed}
use postara.Dict.Rows.{IsTable, insert-IsTable, update-IsTable, found-held, read-held}

abbrev pub user_number : UserRecord → ℕ
user_number u = u.id

abbrev pub user_column : UserRecord → String
user_column u = u.email

abbrev pub session_number : UserSessionOrm → ℕ
session_number x = x.id

abbrev pub session_column : UserSessionOrm → String
session_column x = x.token_prefix

abbrev pub key_number : ApiKeyRecord → ℕ
key_number k = k.id

abbrev pub key_column : ApiKeyRecord → String
key_column k = k.prefix

-- No two users have one e-mail, no two sessions and no two API keys one prefix; each row stands
-- under its number, below the next one.
pub record IsValid (t : UserTables) : Type 0 where
  pub users : IsTable (λ (u : UserRecord). u.id) (λ u. u.email) t.users t.next_user_id
  pub sessions :
      IsTable (λ (x : UserSessionOrm). x.id) (λ x. x.token_prefix) t.sessions t.next_session_id
  pub api_keys : IsTable (λ (k : ApiKeyRecord). k.id) (λ k. k.prefix) t.api_keys t.next_api_key_id

pub put_user-IsValid :
    (t : UserTables) (k : ℕ) (old y : UserRecord)
    → Dict.get t.users k ≡ some old
    → y.id ≡ old.id
    → y.email ≡ old.email
    → IsValid t
    → IsValid (put_user y t)
put_user-IsValid t k old y held number column h = record {
  users =
      update-IsTable user_number user_column t.users t.next_user_id old y
        (read-held user_number user_column t.users t.next_user_id k old h.users held) number column
        h.users;
  sessions = h.sessions;
  api_keys = h.api_keys;
}

pub put_session-IsValid :
    (t : UserTables) (p : UserSessionOrm → Bool) (old y : UserSessionOrm)
    → find p (values t.sessions) ≡ some old
    → y.id ≡ old.id
    → y.token_prefix ≡ old.token_prefix
    → IsValid t
    → IsValid (put_session y t)
put_session-IsValid t p old y found number column h = record {
  users = h.users;
  sessions =
      update-IsTable session_number session_column t.sessions t.next_session_id old y
        (found-held session_number session_column p t.sessions t.next_session_id old h.sessions
          found)
        number column h.sessions;
  api_keys = h.api_keys;
}

pub put_key-IsValid :
    (t : UserTables) (old y : ApiKeyRecord)
    → Dict.get t.api_keys old.id ≡ some old
    → y.id ≡ old.id
    → y.prefix ≡ old.prefix
    → IsValid t
    → IsValid (put_key y t)
put_key-IsValid t old y held number column h = record {
  users = h.users;
  sessions = h.sessions;
  api_keys =
      update-IsTable key_number key_column t.api_keys t.next_api_key_id old y held number column
        h.api_keys;
}

-- New rows, past the tests of their columns.
pub new_user-IsValid :
    (t : UserTables) (y : UserRecord)
    → y.id ≡ t.next_user_id
    → any (λ (u : UserRecord). u.email == y.email) (values t.users) ≡ false
    → IsValid t
    → IsValid (put_user y (record t { next_user_id = t.next_user_id + 1 }))
new_user-IsValid t y own free h = record {
  users = insert-IsTable user_number user_column t.users t.next_user_id y own free h.users;
  sessions = h.sessions;
  api_keys = h.api_keys;
}

pub new_session-IsValid :
    (t : UserTables) (y : UserSessionOrm)
    → y.id ≡ t.next_session_id
    → any (λ (x : UserSessionOrm). x.token_prefix == y.token_prefix) (values t.sessions) ≡ false
    → IsValid t
    → IsValid (put_session y (record t { next_session_id = t.next_session_id + 1 }))
new_session-IsValid t y own free h = record {
  users = h.users;
  sessions =
      insert-IsTable session_number session_column t.sessions t.next_session_id y own free
        h.sessions;
  api_keys = h.api_keys;
}

pub new_key-IsValid :
    (t : UserTables) (y : ApiKeyRecord)
    → y.id ≡ t.next_api_key_id
    → any (λ (k : ApiKeyRecord). k.prefix == y.prefix) (values t.api_keys) ≡ false
    → IsValid t
    → IsValid (put_key y (record t { next_api_key_id = t.next_api_key_id + 1 }))
new_key-IsValid t y own free h = record {
  users = h.users;
  sessions = h.sessions;
  api_keys =
      insert-IsTable key_number key_column t.api_keys t.next_api_key_id y own free h.api_keys;
}

-- A method that writes one thing or nothing.
pub one_of-IsValid :
    (before written after : UserTables)
    → (after ≡ before) ⊎ (after ≡ written)
    → IsValid before
    → IsValid written
    → IsValid after
one_of-IsValid before written after (inl e) h h' = subst IsValid (sym e) h
one_of-IsValid before written after (inr e) h h' = subst IsValid (sym e) h'
