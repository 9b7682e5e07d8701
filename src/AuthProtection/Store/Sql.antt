-- ===== src/AuthProtection/Store/Sql.antt =====
-- `SqlAuthAttemptStore` of src/postara/auth_protection.py over the table
-- `app.auth_attempt_buckets` of src/postara/models.py, whose rows come in the order of their ids.
-- Each method is one transaction; the database numbers new rows by `next_id`.
use postara.Prelude.{
  ℕ, String, refl, sym, subst, inl, inr, Bool, not, Option, none, some, List, [], arith, TextPair,
  text_pair_eq, Bool-cases, length, filter, ◌+◌, ◌≡◌, ◌∙◌, ◌≢◌, ◌∷◌, if◌then◌else◌, ◌==◌,
}
use postara.AuthProtection.{AuthAttemptBucket}
use postara.AuthProtection.Store.{AttemptStore, bucket_id, is_expired, unexpired}

pub record AuthAttemptBucketOrm : Type 0 where
  pub id : ℕ
  pub bucket_type : String
  pub bucket_key : String
  pub failure_count : ℕ
  pub window_started_at : ℕ
  pub locked_until : Option ℕ
  pub challenge_required_at : Option ℕ
  pub last_failure_at : Option ℕ
  pub created_at : ℕ
  pub updated_at : ℕ

pub record BucketTable : Type 0 where
  pub rows : List AuthAttemptBucketOrm
  pub next_id : ℕ

unfoldable pub bucket_from_row : AuthAttemptBucketOrm → AuthAttemptBucket
bucket_from_row row = record {
  bucket_type = row.bucket_type;
  bucket_key = row.bucket_key;
  failure_count = row.failure_count;
  window_started_at = row.window_started_at;
  locked_until = row.locked_until;
  challenge_required_at = row.challenge_required_at;
  last_failure_at = row.last_failure_at;
}

-- The id and the two times are the database's.
unfoldable pub row_from_bucket : ℕ → ℕ → AuthAttemptBucket → AuthAttemptBucketOrm
row_from_bucket id now bucket = record {
  id = id;
  bucket_type = bucket.bucket_type;
  bucket_key = bucket.bucket_key;
  failure_count = bucket.failure_count;
  window_started_at = bucket.window_started_at;
  locked_until = bucket.locked_until;
  challenge_required_at = bucket.challenge_required_at;
  last_failure_at = bucket.last_failure_at;
  created_at = now;
  updated_at = now;
}

abbrev pub row_key : AuthAttemptBucketOrm → TextPair
row_key row = record { left = row.bucket_type; right = row.bucket_key }

-- `select … where bucket_type … where bucket_key … limit 1`
pub select_row : List AuthAttemptBucketOrm → TextPair → Option AuthAttemptBucketOrm
select_row [] k = none
select_row (row ∷ rows) k = if row_key row == k then some row else select_row rows k

unfoldable pub get : BucketTable → TextPair → Option AuthAttemptBucket
unfolding select_row bucket_from_row
get s k = elim (select_row s.rows k) [ none ↦ none | some row ↦ some (bucket_from_row row) ]

write_bucket : ℕ → AuthAttemptBucket → AuthAttemptBucketOrm → AuthAttemptBucketOrm
write_bucket now bucket row = record row {
  failure_count = bucket.failure_count;
  window_started_at = bucket.window_started_at;
  locked_until = bucket.locked_until;
  challenge_required_at = bucket.challenge_required_at;
  last_failure_at = bucket.last_failure_at;
  updated_at = now;
}

-- The first row of the key is written; with no such row a new one is added.
upsert_rows : ℕ → ℕ → AuthAttemptBucket → List AuthAttemptBucketOrm → List AuthAttemptBucketOrm
unfolding row_from_bucket write_bucket
upsert_rows id now b [] = row_from_bucket id now b ∷ []
upsert_rows id now b (row ∷ rows) =
    if row_key row == bucket_id b
    then write_bucket now b row ∷ rows
    else row ∷ upsert_rows id now b rows

unfoldable pub upsert : ℕ → AuthAttemptBucket → BucketTable → BucketTable
unfolding upsert_rows select_row
upsert now bucket s = record {
  rows = upsert_rows s.next_id now bucket s.rows;
  next_id = elim (select_row s.rows (bucket_id bucket)) [
    | none ↦ s.next_id + 1
    | some _ ↦ s.next_id
  ];
}

-- `delete … where`: the rows that stay.
unfoldable pub clear : TextPair → BucketTable → BucketTable
clear k s = record s { rows = filter (λ row. not (row_key row == k)) s.rows }

row_expired : ℕ → AuthAttemptBucketOrm → Bool
unfolding bucket_from_row
row_expired cutoff row = is_expired cutoff (bucket_from_row row)

-- With the number of rows deleted.
unfoldable pub purge_expired : ℕ → BucketTable → ℕ × BucketTable
unfolding row_expired
purge_expired cutoff s = (
  length (filter (row_expired cutoff) s.rows),
  record s { rows = filter (λ row. not (row_expired cutoff row)) s.rows },
)

-- The constraint `uq_app_auth_attempt_buckets_type_key`.
abbrev pub IsUnique : List AuthAttemptBucketOrm → Type 0
IsUnique [] = Unit {0}
IsUnique (row ∷ rows) = (select_row rows (row_key row) ≡ none) × IsUnique rows

find_bucket : List AuthAttemptBucketOrm → TextPair → Option AuthAttemptBucket
unfolding select_row bucket_from_row
find_bucket rows k = elim (select_row rows k) [
  | none ↦ none
  | some row ↦ some (bucket_from_row row)
]

find_bucket-upsert_rows :
    (id now : ℕ) (b : AuthAttemptBucket) (rows : List AuthAttemptBucketOrm) (k : TextPair)
    → find_bucket (upsert_rows id now b rows) k
      ≡ (if bucket_id b == k then some b else find_bucket rows k)
unfolding find_bucket upsert_rows
find_bucket-upsert_rows id now b [] k = ground arith
find_bucket-upsert_rows id now b (row ∷ rows) k = ground (
  arith,
  find_bucket-upsert_rows id now b rows k,
  text_pair_eq.beq_iff (row_key row) (bucket_id b),
  text_pair_eq.beq_iff (row_key row) k,
  text_pair_eq.beq_iff (bucket_id b) k,
)

select_row-none :
    (rows : List AuthAttemptBucketOrm) (k : TextPair) (p : AuthAttemptBucketOrm → Bool)
    → select_row rows k ≡ none
    → select_row (filter p rows) k ≡ none
unfolding select_row
select_row-none [] k p h = refl
select_row-none (row ∷ rows) k p h = ground (arith, select_row-none rows k p)

filter-IsUnique :
    (p : AuthAttemptBucketOrm → Bool) (rows : List AuthAttemptBucketOrm)
    → IsUnique rows
    → IsUnique (filter p rows)
filter-IsUnique p [] u = tt
filter-IsUnique p (row ∷ rows) u =
    ground (arith, filter-IsUnique p rows u.1, select_row-none rows (row_key row) p u.0)

select_row-upsert_rows :
    (id now : ℕ) (b : AuthAttemptBucket) (rows : List AuthAttemptBucketOrm) (k : TextPair)
    → bucket_id b ≢ k
    → select_row (upsert_rows id now b rows) k ≡ select_row rows k
unfolding select_row upsert_rows
select_row-upsert_rows id now b [] k h = ground (arith, text_pair_eq.beq_iff (bucket_id b) k)
select_row-upsert_rows id now b (row ∷ rows) k h = ground (
  arith,
  select_row-upsert_rows id now b rows k h,
  text_pair_eq.beq_iff (row_key row) (bucket_id b),
  text_pair_eq.beq_iff (row_key row) k,
)

upsert_rows-IsUnique :
    (id now : ℕ) (b : AuthAttemptBucket) (rows : List AuthAttemptBucketOrm)
    → IsUnique rows
    → IsUnique (upsert_rows id now b rows)
unfolding upsert_rows
upsert_rows-IsUnique id now b [] u = (unfold select_row in refl, tt)
upsert_rows-IsUnique id now b (row ∷ rows) u = elim (Bool-cases (row_key row == bucket_id b)) [
  | inl same ↦ rw same u
  | inr other ↦ rw other (
    select_row-upsert_rows id now b rows (row_key row)
          (λ e. cc (other, (text_pair_eq.beq_iff (row_key row) (bucket_id b)).1 (sym e)))
        ∙ u.0,
    upsert_rows-IsUnique id now b rows u.1,
  )
]

find_bucket-clear :
    (j : TextPair) (rows : List AuthAttemptBucketOrm) (k : TextPair)
    → find_bucket (filter (λ row. not (row_key row == j)) rows) k
      ≡ (if j == k then none else find_bucket rows k)
unfolding find_bucket
find_bucket-clear j [] k = ground arith
find_bucket-clear j (row ∷ rows) k = ground (
  arith,
  find_bucket-clear j rows k,
  text_pair_eq.beq_iff (row_key row) j,
  text_pair_eq.beq_iff (row_key row) k,
  text_pair_eq.beq_iff j k,
)

find_bucket-purged :
    (cutoff : ℕ) (rows : List AuthAttemptBucketOrm) (k : TextPair)
    → IsUnique rows
    → find_bucket (filter (λ row. not (row_expired cutoff row)) rows) k
      ≡ unexpired cutoff (find_bucket rows k)
unfolding find_bucket row_expired
find_bucket-purged cutoff [] k u = refl
find_bucket-purged cutoff (row ∷ rows) k u = elim (Bool-cases (row_key row == k)) [
  | inl same ↦
      let e : row_key row ≡ k = (text_pair_eq.beq_iff (row_key row) k).0 same in
      ground (
        arith,
        same,
        select_row-none rows k (λ r. not (row_expired cutoff r))
            (subst (λ i. select_row rows i ≡ none) e u.0),
      )
  | inr other ↦ ground (arith, other, find_bucket-purged cutoff rows k u.1)
]

pub get-upsert :
    (now : ℕ) (b : AuthAttemptBucket) (s : BucketTable) (k : TextPair)
    → get (upsert now b s) k ≡ (if bucket_id b == k then some b else get s k)
unfolding get upsert find_bucket
get-upsert now b s k = find_bucket-upsert_rows s.next_id now b s.rows k

pub get-clear :
    (j : TextPair) (s : BucketTable) (k : TextPair)
    → get (clear j s) k ≡ (if j == k then none else get s k)
unfolding get clear find_bucket
get-clear j s k = find_bucket-clear j s.rows k

pub get-purge_expired :
    (cutoff : ℕ) (s : BucketTable) (k : TextPair)
    → IsUnique s.rows
    → get (purge_expired cutoff s).1 k ≡ unexpired cutoff (get s k)
unfolding get purge_expired find_bucket
get-purge_expired cutoff s k u = find_bucket-purged cutoff s.rows k u

pub upsert-IsUnique :
    (now : ℕ) (b : AuthAttemptBucket) (s : BucketTable)
    → IsUnique s.rows
    → IsUnique (upsert now b s).rows
unfolding upsert
upsert-IsUnique now b s u = upsert_rows-IsUnique s.next_id now b s.rows u

pub clear-IsUnique : (k : TextPair) (s : BucketTable) → IsUnique s.rows → IsUnique (clear k s).rows
unfolding clear
clear-IsUnique k s u = filter-IsUnique (λ row. not (row_key row == k)) s.rows u

pub purge_expired-IsUnique :
    (t : ℕ) (s : BucketTable) → IsUnique s.rows → IsUnique (purge_expired t s).1.rows
unfolding purge_expired
purge_expired-IsUnique t s u = filter-IsUnique (λ row. not (row_expired t row)) s.rows u

abbrev pub sql_store : AttemptStore
sql_store = record {
  State = BucketTable;
  IsStore = λ s. IsUnique s.rows;
  get = get;
  upsert = upsert;
  clear = clear;
  purge_expired = purge_expired;
  upsert-IsStore = upsert-IsUnique;
  clear-IsStore = clear-IsUnique;
  purge_expired-IsStore = purge_expired-IsUnique;
  get-upsert = get-upsert;
  get-clear = get-clear;
  get-purge_expired = get-purge_expired;
}
