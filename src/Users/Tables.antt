-- ===== src/Users/Tables.antt =====
-- The tables of users, their sessions and their API keys in src/postara/models.py, with their unique
-- columns. The database numbers new rows.
use postara.Errors.{Error}
use postara.Exec.{Exec, gets, modify, raise_if, ◌>>=◌, ◌>>◌}
use postara.Prelude.{ℕ, String, Option, any, find, ◌+◌, ◌==◌, nat_eq, string_eq}
use postara.Users.{UserRecord, ApiKeyRecord}
use postara.Dict
use postara.Dict.{Dict, values}

pub record UserSessionOrm : Type 0 where
  pub id : ℕ
  pub user_id : ℕ
  pub token_prefix : String
  pub token_hash : String
  pub created_at : ℕ
  pub expires_at : ℕ
  pub last_used_at : Option ℕ
  pub revoked_at : Option ℕ

-- `UserORM` has the columns of `UserRecord`, and `ApiKeyORM` those of `ApiKeyRecord`.
pub record UserTables : Type 0 where
  pub users : Dict ℕ UserRecord
  pub next_user_id : ℕ
  pub sessions : Dict ℕ UserSessionOrm
  pub next_session_id : ℕ
  pub api_keys : Dict ℕ ApiKeyRecord
  pub next_api_key_id : ℕ

abbrev pub put_user : UserRecord → UserTables → UserTables
put_user user t = record t { users = Dict.put t.users user.id user }

abbrev pub put_session : UserSessionOrm → UserTables → UserTables
put_session row t = record t { sessions = Dict.put t.sessions row.id row }

abbrev pub put_key : ApiKeyRecord → UserTables → UserTables
put_key key t = record t { api_keys = Dict.put t.api_keys key.id key }

-- `session.flush()` with a new row: the row goes in under the next number, or the unique column
-- that it repeats comes out as the exception.
unfoldable pub insert_user : Error → UserRecord → Exec UserTables (Unit {0})
insert_user broken user = do
  taken ← gets (λ t. any (λ (u : UserRecord). u.email == user.email) (values t.users))
  raise_if taken broken
  modify (λ t. put_user user (record t { next_user_id = t.next_user_id + 1 }))

unfoldable pub insert_session : Error → UserSessionOrm → Exec UserTables (Unit {0})
insert_session broken row = do
  taken ←
      gets
        (λ t. any (λ (x : UserSessionOrm). x.token_prefix == row.token_prefix) (values t.sessions))
  raise_if taken broken
  modify (λ t. put_session row (record t { next_session_id = t.next_session_id + 1 }))

unfoldable pub insert_key : Error → ApiKeyRecord → Exec UserTables (Unit {0})
insert_key broken key = do
  taken ← gets (λ t. any (λ (k : ApiKeyRecord). k.prefix == key.prefix) (values t.api_keys))
  raise_if taken broken
  modify (λ t. put_key key (record t { next_api_key_id = t.next_api_key_id + 1 }))

-- `select(UserSessionORM).where(token_prefix == prefix).limit(1)`
unfoldable pub session_by_prefix : String → UserTables → Option UserSessionOrm
session_by_prefix prefix t =
    find (λ (row : UserSessionOrm). row.token_prefix == prefix) (values t.sessions)
