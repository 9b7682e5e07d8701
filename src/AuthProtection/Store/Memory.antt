-- ===== src/AuthProtection/Store/Memory.antt =====
-- `InMemoryAuthAttemptStore` of src/postara/auth_protection.py.
use postara.Prelude.{
  ℕ, refl, subst, inl, inr, Bool, false, none, some, List, [], arith, TextPair, text_pair_eq,
  Bool-cases, length, any, ◌≡◌, ◌∙◌, ◌∷◌, if◌then◌else◌, ◌==◌,
}
use postara.AuthProtection.{AuthAttemptBucket}
use postara.AuthProtection.Store.{AttemptStore, bucket_id, is_expired, unexpired}
use postara.Dict
use postara.Dict.{Dict, IsKeyed, get-put, get-remove, put-IsKeyed, remove-IsKeyed}

abbrev pub Buckets : Type 0
Buckets = Dict TextPair AuthAttemptBucket

unfoldable pub upsert : ℕ → AuthAttemptBucket → Buckets → Buckets
upsert now bucket s = Dict.put s (bucket_id bucket) bucket

unfoldable pub clear : TextPair → Buckets → Buckets
clear k s = Dict.remove s k

expired_keys : ℕ → Buckets → List TextPair
expired_keys cutoff [] = []
expired_keys cutoff ((k, b) ∷ s) =
    let rest = expired_keys cutoff s in if is_expired cutoff b then k ∷ rest else rest

pop_all : List TextPair → Buckets → Buckets
pop_all [] s = s
pop_all (k ∷ ks) s = pop_all ks (Dict.remove s k)

unfoldable pub purge_expired : ℕ → Buckets → ℕ × Buckets
unfolding expired_keys pop_all
purge_expired cutoff s = let expired = expired_keys cutoff s in (length expired, pop_all expired s)

abbrev is_in : TextPair → List TextPair → Bool
is_in k = any λ j. j == k

get-pop_all :
    (ks : List TextPair) (s : Buckets) (k : TextPair)
    → Dict.get (pop_all ks s) k ≡ (if is_in k ks then none else Dict.get s k)
unfolding pop_all
get-pop_all [] s k = refl
get-pop_all (j ∷ ks) s k = ground (arith, get-pop_all ks (Dict.remove s j) k, get-remove s j k)

expired_keys-none :
    (cutoff : ℕ) (s : Buckets) (k : TextPair)
    → Dict.get s k ≡ none
    → is_in k (expired_keys cutoff s) ≡ false
unfolding expired_keys Dict.get
expired_keys-none cutoff [] k h = refl
expired_keys-none cutoff ((j, b) ∷ s) k h = ground (arith, expired_keys-none cutoff s k)

get-purged :
    (cutoff : ℕ) (s : Buckets) (k : TextPair)
    → IsKeyed s
    → (if is_in k (expired_keys cutoff s) then none else Dict.get s k)
      ≡ unexpired cutoff (Dict.get s k)
unfolding expired_keys Dict.get
get-purged cutoff [] k n = refl
get-purged cutoff ((j, b) ∷ s) k n = elim (Bool-cases (j == k)) [
  | inl same ↦
      let e : j ≡ k = (text_pair_eq.beq_iff j k).0 same in
      let m : is_in k (expired_keys cutoff s) ≡ false =
        expired_keys-none cutoff s k (subst (λ i. Dict.get s i ≡ none) e n.0) in
      ground (arith, same, m)
  | inr other ↦ ground (arith, other, get-purged cutoff s k n.1)
]

pub get-purge_expired :
    (cutoff : ℕ) (s : Buckets) (k : TextPair)
    → IsKeyed s
    → Dict.get (purge_expired cutoff s).1 k ≡ unexpired cutoff (Dict.get s k)
unfolding purge_expired
get-purge_expired cutoff s k n = get-pop_all (expired_keys cutoff s) s k ∙ get-purged cutoff s k n

pop_all-IsKeyed : (ks : List TextPair) (s : Buckets) → IsKeyed s → IsKeyed (pop_all ks s)
unfolding pop_all
pop_all-IsKeyed [] s n = n
pop_all-IsKeyed (k ∷ ks) s n = pop_all-IsKeyed ks (Dict.remove s k) (remove-IsKeyed s k n)

pub upsert-IsKeyed :
    (now : ℕ) (b : AuthAttemptBucket) (s : Buckets) → IsKeyed s → IsKeyed (upsert now b s)
unfolding upsert
upsert-IsKeyed now b s n = put-IsKeyed s (bucket_id b) b n

pub clear-IsKeyed : (k : TextPair) (s : Buckets) → IsKeyed s → IsKeyed (clear k s)
unfolding clear
clear-IsKeyed k s n = remove-IsKeyed s k n

pub purge_expired-IsKeyed : (t : ℕ) (s : Buckets) → IsKeyed s → IsKeyed (purge_expired t s).1
unfolding purge_expired
purge_expired-IsKeyed t s n = pop_all-IsKeyed (expired_keys t s) s n

pub get-upsert :
    (now : ℕ) (b : AuthAttemptBucket) (s : Buckets) (k : TextPair)
    → Dict.get (upsert now b s) k ≡ (if bucket_id b == k then some b else Dict.get s k)
unfolding upsert
get-upsert now b s k = get-put s (bucket_id b) k b

pub get-clear :
    (j : TextPair) (s : Buckets) (k : TextPair)
    → Dict.get (clear j s) k ≡ (if j == k then none else Dict.get s k)
unfolding clear
get-clear j s k = get-remove s j k

abbrev pub memory_store : AttemptStore
memory_store = record {
  State = Buckets;
  IsStore = IsKeyed;
  get = Dict.get;
  upsert = upsert;
  clear = clear;
  purge_expired = purge_expired;
  upsert-IsStore = upsert-IsKeyed;
  clear-IsStore = clear-IsKeyed;
  purge_expired-IsStore = purge_expired-IsKeyed;
  get-upsert = get-upsert;
  get-clear = get-clear;
  get-purge_expired = get-purge_expired;
}
