-- ===== src/Dict/Rows.antt =====
-- A dictionary as a table of the database: each row under its number, one column without
-- repetitions, and all numbers below the next one.
use postara.Prelude.{
  ℕ, String, refl, sym, ap, subst, inl, inr, Bool, false, some, arith, nat_eq, string_eq,
  Bool-cases, any, find, ◌+◌, ◌<◌, ◌≡◌, ◌∙◌, ◌⊎◌, ◌==◌,
}
use postara.Dict
use postara.Dict.{
  Dict, values, get-put, get-remove, get-any, get-find, IsKeyed, put-IsKeyed, remove-IsKeyed,
}

module _ {V : Type 0} (number : V → ℕ) (column : V → String) where
  pub record IsTable (d : Dict ℕ V) (next : ℕ) : Type 0 where
    pub keyed : IsKeyed d
    pub numbered : (i : ℕ) (x : V) → Dict.get d i ≡ some x → number x ≡ i
    pub distinct :
        (i j : ℕ) (x y : V)
        → Dict.get d i ≡ some x
        → Dict.get d j ≡ some y
        → column x ≡ column y
        → i ≡ j
    pub bounded : (i : ℕ) (x : V) → Dict.get d i ≡ some x → i < next

  -- What stands in a table after a write.
  put_cases :
      (d : Dict ℕ V) (k i : ℕ) (x y : V)
      → Dict.get (Dict.put d k y) i ≡ some x
      → ((k ≡ i) × (y ≡ x)) ⊎ (((k == i) ≡ false) × (Dict.get d i ≡ some x))
  put_cases d k i x y h = elim (Bool-cases (k == i)) [
    | inl e ↦
        let here : some y ≡ some x = rw (get-put d k i y, e) at h in
        inl ((nat_eq.beq_iff k i).0 e, cc here)
    | inr e ↦ inr (e, rw (get-put d k i y, e) at h)
  ]

  -- A row that repeats the column of no other row goes in under its number.
  write-IsTable :
      (d : Dict ℕ V) (k n m : ℕ) (y : V)
      → number y ≡ k
      → k < m
      → ((i : ℕ) → i < n → i < m)
      → ((i : ℕ) (x : V) → (k == i) ≡ false → Dict.get d i ≡ some x → column x ≡ column y → ⊥)
      → IsTable d n
      → IsTable (Dict.put d k y) m
  write-IsTable d k n m y own below grows apart t = record {
    keyed = put-IsKeyed d k y t.keyed;
    numbered = λ i x h. elim (put_cases d k i x y h) [
      | inl (e, f) ↦ sym (ap number f) ∙ (own ∙ e)
      | inr (_, was) ↦ t.numbered i x was
    ];
    distinct = λ i j x z hi hj same. elim (put_cases d k i x y hi) [
      | inl (e, f) ↦ elim (put_cases d k j z y hj) [
        | inl (e', _) ↦ sym e ∙ e'
        | inr (other, was) ↦
            let absurd : ⊥ = apart j z other was (sym same ∙ sym (ap column f)) in elim absurd [ ]
      ]
      | inr (other, was) ↦ elim (put_cases d k j z y hj) [
        | inl (_, f) ↦
            let absurd : ⊥ = apart i x other was (same ∙ sym (ap column f)) in elim absurd [ ]
        | inr (_, was') ↦ t.distinct i j x z was was' same
      ]
    ];
    bounded = λ i x h. elim (put_cases d k i x y h) [
      | inl (e, _) ↦ subst (λ k. k < m) e below
      | inr (_, was) ↦ grows i (t.bounded i x was)
    ];
  }

  -- `session.flush()` with a new row, past the test of the column.
  pub insert-IsTable :
      (d : Dict ℕ V) (n : ℕ) (y : V)
      → number y ≡ n
      → any (λ x. column x == column y) (values d) ≡ false
      → IsTable d n
      → IsTable (Dict.put d (number y) y) (n + 1)
  insert-IsTable d n y own free t =
      write-IsTable d (number y) n (n + 1) y refl (omega arith) (λ i h. omega arith)
        (λ i x other was same.
          let tested = get-any (λ z. column z == column y) d i x free was in
          ground (arith, tested, (string_eq.beq_iff (column x) (column y)).1 same))
        t

  -- A row that is there is changed, and keeps its number and its column.
  pub update-IsTable :
      (d : Dict ℕ V) (n : ℕ) (old y : V)
      → Dict.get d (number old) ≡ some old
      → number y ≡ number old
      → column y ≡ column old
      → IsTable d n
      → IsTable (Dict.put d (number y) y) n
  update-IsTable d n old y held same_number same_column t =
      write-IsTable d (number y) n n y refl
        (subst (λ k. k < n) (sym same_number) (t.bounded (number old) old held)) (λ i h. h)
        (λ i x other was same.
          let e : i ≡ number old = t.distinct i (number old) x old was held (same ∙ same_column) in
          ground (arith, other, e, same_number))
        t

  pub remove-IsTable : (d : Dict ℕ V) (k n : ℕ) → IsTable d n → IsTable (Dict.remove d k) n
  remove-IsTable d k n t = record {
    keyed = remove-IsKeyed d k t.keyed;
    numbered = λ i x h. t.numbered i x (kept i x h);
    distinct = λ i j x y hi hj. t.distinct i j x y (kept i x hi) (kept j y hj);
    bounded = λ i x h. t.bounded i x (kept i x h);
  }
    where
      kept : (i : ℕ) (x : V) → Dict.get (Dict.remove d k) i ≡ some x → Dict.get d i ≡ some x
      kept i x h = ground (arith, get-remove d k i, h)

  -- The row that a `select` finds stands under its own number.
  pub found-held :
      (p : V → Bool) (d : Dict ℕ V) (n : ℕ) (x : V)
      → IsTable d n
      → find p (values d) ≡ some x
      → Dict.get d (number x) ≡ some x
  found-held p d n x t h =
      let (k, held) = get-find p d x t.keyed h in
      subst (λ i. Dict.get d i ≡ some x) (sym (t.numbered k x held)) held

  -- So does one that is read by a number.
  pub read-held :
      (d : Dict ℕ V) (n k : ℕ) (x : V)
      → IsTable d n
      → Dict.get d k ≡ some x
      → Dict.get d (number x) ≡ some x
  read-held d n k x t h = subst (λ i. Dict.get d i ≡ some x) (sym (t.numbered k x h)) h
