-- ===== src/Dict.antt =====
-- Python's `dict`, in insertion order, over any key with a decided equality; also a table of the
-- database by its primary key. `put` writes in place or appends, as `d[k] = v` does.
pub mod Rows
use postara.Prelude.{
  refl, subst, inl, inr, Bool, true, false, Option, none, some, List, [], map, arith, Eq,
  Bool-cases, any, find, All, All-map, beq_self, ◌≡◌, ◌∷◌, if◌then◌else◌, ◌==◌,
}

abbrev pub Dict {ℓ κ} : Type ℓ → Type κ → Type (ℓ ⊔ κ)
Dict K V = List (K × V)

module _ {ℓ κ} {K : Type ℓ} {V : Type κ} where
  -- `d.values()`
  abbrev pub values : Dict K V → List V
  values = map λ e. e.1

  -- The first entry, with its key, whose value passes the test.
  unfoldable pub find_entry : (V → Bool) → Dict K V → Option (K × V)
  find_entry p [] = none
  find_entry p ((k, v) ∷ d) = if p v then some (k, v) else find_entry p d

  pub find_entry-true :
      (p : V → Bool) (d : Dict K V) (k : K) (v : V) → find_entry p d ≡ some (k, v) → p v ≡ true
  unfolding find_entry
  find_entry-true p [] k v h = ground arith
  find_entry-true p ((j, w) ∷ d) k v h = ground (arith, find_entry-true p d k v)

module _ {ℓ κ} {K : Type ℓ} {V : Type κ} ⦃e : Eq K⦄ where
  -- `d.get(k)`
  unfoldable pub get : Dict K V → K → Option V
  get [] k = none
  get ((j, v) ∷ d) k = if j == k then some v else get d k

  -- `d[k] = v`
  unfoldable pub put : Dict K V → K → V → Dict K V
  put [] k v = (k, v) ∷ []
  put ((j, w) ∷ d) k v = if j == k then (j, v) ∷ d else (j, w) ∷ put d k v

  -- `d.pop(k, None)`, `del d[k]`
  unfoldable pub remove : Dict K V → K → Dict K V
  remove [] k = []
  remove ((j, v) ∷ d) k = let rest = remove d k in if j == k then rest else (j, v) ∷ rest

  pub get-put :
      (d : Dict K V) (k j : K) (v : V) → get (put d k v) j ≡ (if k == j then some v else get d j)
  unfolding get put
  get-put [] k j v = refl
  get-put ((i, w) ∷ d) k j v =
      ground (arith, get-put d k j v, e.beq_iff i k, e.beq_iff i j, e.beq_iff k j)

  pub get-remove :
      (d : Dict K V) (k j : K) → get (remove d k) j ≡ (if k == j then none else get d j)
  unfolding get remove
  get-remove [] k j = ground arith
  get-remove ((i, w) ∷ d) k j =
      ground (arith, get-remove d k j, e.beq_iff i k, e.beq_iff i j, e.beq_iff k j)

  -- A test that no value passes fails on each value that a key leads to.
  pub get-any :
      (p : V → Bool) (d : Dict K V) (k : K) (v : V)
      → any p (values d) ≡ false
      → get d k ≡ some v
      → p v ≡ false
  unfolding get
  get-any p [] k v h g = ground arith
  get-any p ((j, w) ∷ d) k v h g = ground (arith, get-any p d k v)

  pub get-put_self : (d : Dict K V) (k : K) (v : V) → get (put d k v) k ≡ some v
  get-put_self d k v = ground (arith, get-put d k k v, beq_self k)

  -- No key stands twice, as in every dictionary.
  abbrev pub IsKeyed : Dict K V → Type κ
  IsKeyed [] = Unit
  IsKeyed ((k, v) ∷ d) = (get d k ≡ none) × IsKeyed d

  pub put-IsKeyed : (d : Dict K V) (k : K) (v : V) → IsKeyed d → IsKeyed (put d k v)
  unfolding get put
  put-IsKeyed [] k v h = (refl, tt)
  put-IsKeyed ((j, w) ∷ d) k v h =
      ground (arith, put-IsKeyed d k v h.1, get-put d k j v, e.beq_iff j k, e.beq_iff k j)

  pub remove-IsKeyed : (d : Dict K V) (k : K) → IsKeyed d → IsKeyed (remove d k)
  unfolding remove
  remove-IsKeyed [] k h = tt
  remove-IsKeyed ((j, w) ∷ d) k h = ground (arith, remove-IsKeyed d k h.1, get-remove d k j)

  pub get-find_entry :
      (p : V → Bool) (d : Dict K V) (k : K) (v : V)
      → IsKeyed d
      → find_entry p d ≡ some (k, v)
      → get d k ≡ some v
  unfolding find_entry get
  get-find_entry p [] k v n h = ground arith
  get-find_entry p ((j, w) ∷ d) k v n h =
      ground (arith, get-find_entry p d k v n.1, e.beq_iff j k, beq_self j)

  pub get-cons :
      (j : K) (w : V) (d : Dict K V) (x : K × V)
      → get d j ≡ none
      → get d x.0 ≡ some x.1
      → get ((j, w) ∷ d) x.0 ≡ some x.1
  unfolding get
  get-cons j w d (k, v) fresh h = elim (Bool-cases (j == k)) [
    | inl same ↦
        let f : get d k ≡ none = subst (λ i. get d i ≡ none) ((e.beq_iff j k).0 same) fresh in cc
    | inr other ↦ rw other h
  ]

  -- Each entry is what its key leads to.
  pub get-entries : (d : Dict K V) → IsKeyed d → All (λ x. get d x.0 ≡ some x.1) d
  get-entries [] n = tt
  get-entries ((j, w) ∷ d) n = (
    unfold get in rw (beq_self j) refl,
    All-map d (λ x h. get-cons j w d x n.0 h) (get-entries d n.1),
  )

module _ {ℓ κ} {K : Type ℓ} {V : Type κ} ⦃e : Eq K⦄ where
  -- The value that a search finds stands under some key.
  pub get-find :
      (p : V → Bool) (d : Dict K V) (v : V)
      → IsKeyed d
      → find p (values d) ≡ some v
      → (k : K) × (get d k ≡ some v)
  get-find p [] v n h = ground arith
  get-find p ((j, w) ∷ d) v n h = elim (Bool-cases (p w)) [
    | inl e ↦ let here : some w ≡ some v = rw e at h in (j, unfold get in rw (beq_self j) here)
    | inr e ↦
        let rest : find p (values d) ≡ some v = rw e at h in
        let (k, held) = get-find p d v n.1 rest in (k, get-cons j w d (k, v) n.0 held)
  ]

pub ruleset dict_laws = (get-put, get-remove, beq_self)
