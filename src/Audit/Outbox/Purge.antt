-- ===== src/Audit/Outbox/Purge.antt =====
-- `AuditRepository.purge_before` of src/postara/repositories.py.
use postara.Prelude.{ℕ, Bool, not, List, [], arith, ltb, length, filter, ◌+◌, ◌≡◌, ◌∷◌}
use postara.Audit.Outbox.{AuditEventOrm, Databases}

unfoldable pub is_before : ℕ → AuditEventOrm → Bool
is_before cutoff row = ltb row.timestamp cutoff

-- The count of the rows that are deleted, and what is left.
unfoldable pub purge_before : ℕ → Databases → ℕ × Databases
purge_before cutoff d = (
  length (filter (is_before cutoff) d.events),
  record d { events = filter (λ row. not (is_before cutoff row)) d.events },
)

length-filter-not :
    (p : AuditEventOrm → Bool) (rows : List AuditEventOrm)
    → length (filter p rows) + length (filter (λ row. not (p row)) rows) ≡ length rows
length-filter-not p [] = omega arith
length-filter-not p (row ∷ rows) = ground (arith, length-filter-not p rows)

-- The count that `purge_before` gives is that of the rows that are gone.
pub purge_before-length :
    (cutoff : ℕ) (d : Databases)
    → (purge_before cutoff d).0 + length (purge_before cutoff d).1.events ≡ length d.events
unfolding purge_before
purge_before-length cutoff d = length-filter-not (is_before cutoff) d.events
