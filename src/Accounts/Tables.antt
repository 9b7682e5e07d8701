-- ===== src/Accounts/Tables.antt =====
-- The tables of the application's database that src/postara/repositories.py works on, with the
-- unique constraints of `app.accounts` in src/postara/models.py. The database numbers new rows.
use postara.Errors.{Error}
use postara.Exec.{Exec, gets, modify, raise_if, ◌>>=◌, ◌>>◌}
use postara.Prelude.{
  ℕ, String, Bool, false, not, Option, some, any, ◌+◌, ◌&&◌, ◌||◌, ◌==◌, nat_eq, string_eq,
  option_eq,
}
use postara.Accounts.{AccountRecord, PendingVerification}
use postara.Audit.Outbox.{AuditOutboxOrm}
use postara.Dict
use postara.Dict.{Dict, values}

pub record Tables : Type 0 where
  pub accounts : Dict ℕ AccountRecord
  pub next_account_id : ℕ
  pub pending : Dict String PendingVerification
  pub outbox : Dict ℕ AuditOutboxOrm
  pub next_outbox_id : ℕ

-- Two owners are equal to a unique constraint: an absent owner equals none.
abbrev pub same_owner : Option ℕ → Option ℕ → Bool
same_owner (some a) (some b) = a == b
same_owner _ _ = false

-- `uq_app_accounts_user_id_email`, `uq_app_accounts_user_id_name` and the unique index on
-- `api_key_prefix`, between a row and another one.
unfoldable pub conflicts : AccountRecord → AccountRecord → Bool
conflicts row other =
    not (other.id == row.id)
    && ((same_owner other.user_id row.user_id
          && (other.email == row.email || other.name == row.name))
        || other.api_key_prefix == row.api_key_prefix)

-- `session.flush()` with a new or changed account: the row goes in, or the constraint that it
-- breaks comes out as the exception.
unfoldable pub flush_account : Error → AccountRecord → Exec Tables (Unit {0})
flush_account broken row = do
  conflict ← gets (λ t. any (conflicts row) (values t.accounts))
  raise_if conflict broken
  modify (λ t. record t { accounts = Dict.put t.accounts row.id row })

-- The same with a new row, for which the number is used up.
unfoldable pub insert_account : Error → AccountRecord → Exec Tables (Unit {0})
insert_account broken row = do
  flush_account broken row
  modify (λ t. record t { next_account_id = t.next_account_id + 1 })

unfoldable pub flush_pending : PendingVerification → Exec Tables (Unit {0})
flush_pending row = modify λ t. record t { pending = Dict.put t.pending row.id row }
