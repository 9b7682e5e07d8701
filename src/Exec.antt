-- ===== src/Exec.antt =====
-- Methods that mutate an object and may raise. What was written before an exception stays written,
-- so the state comes back beside the exception too. `transaction` is the code's
-- `async with session.begin():`, which commits on a normal end and rolls back on an exception.
use postara.Prelude.{
  ◌≡◌, ◌⊎◌, inl, inr, refl, ap, subst, sym, Bool, true, false, Option, none, some,
}
use postara.Errors.{Error}

pub data Outcome {ℓ} (A : Type ℓ) : Type ℓ where
  returned : A → Outcome A
  raised : Error → Outcome A

abbrev pub Exec {ℓ} : Type ℓ → Type ℓ → Type ℓ
Exec S A = S → Outcome A × S

module _ {ℓ} {S A : Type ℓ} where
  abbrev pub pure : A → Exec S A
  pure a s = (returned a, s)

  abbrev pub raise : Error → Exec S A
  raise e s = (raised e, s)

  abbrev pub gets : (S → A) → Exec S A
  gets f s = (returned (f s), s)

  abbrev pub lift : Outcome A → Exec S A
  lift r s = (r, s)

  -- `if x is None: raise e`
  abbrev pub or_raise : Option A → Error → Exec S A
  or_raise none e s = (raised e, s)
  or_raise (some a) e s = (returned a, s)

  abbrev pub end_transaction : S → Outcome A → S → Outcome A × S
  end_transaction before (returned a) after = (returned a, after)
  end_transaction before (raised e) after = (raised e, before)

  abbrev pub transaction : Exec S A → Exec S A
  transaction m s = let (r, s') = m s in end_transaction s r s'

pub returned_inj {ℓ} : {A : Type ℓ} {a b : A} → returned a ≡ returned b → a ≡ b
returned_inj {A} {a} h = ap value h
  where
    value : Outcome A → A
    value (returned x) = x
    value (raised _) = a

pub raised_not {ℓ} : {A : Type ℓ} (e : Error) (b : A) → raised e ≡ returned b → ⊥
raised_not {A} e b h = subst IsRaised h tt
  where
    IsRaised : Outcome A → Type 0
    IsRaised (raised _) = Unit
    IsRaised (returned _) = ⊥

pub Outcome-cases {ℓ} :
    {A : Type ℓ} (r : Outcome A) → ((e : Error) × (r ≡ raised e)) ⊎ ((a : A) × (r ≡ returned a))
Outcome-cases (raised e) = inl (e, refl)
Outcome-cases (returned a) = inr (a, refl)

module _ {S : Type 0} where
  abbrev pub modify : (S → S) → Exec S (Unit {0})
  modify f s = (returned tt, f s)

  -- `if test: raise e`
  abbrev pub raise_if : Bool → Error → Exec S (Unit {0})
  raise_if true e s = (raised e, s)
  raise_if false e s = (returned tt, s)

module _ {ℓ} {S A B : Type ℓ} where
  abbrev pub continue : Outcome A → (A → Exec S B) → Exec S B
  continue (returned a) f s = f a s
  continue (raised e) f s = (raised e, s)

  infixl 10 ◌>>=◌ ◌>>◌
  abbrev pub ◌>>=◌ : Exec S A → (A → Exec S B) → Exec S B
  ◌>>=◌ m f s = let (r, s') = m s in continue r f s'

  abbrev pub ◌>>◌ : Exec S A → Exec S B → Exec S B
  m >> n = m >>= λ _. n

-- What stands before a step that returns has returned.
pub bind_inv {ℓ} :
    {S A B : Type ℓ} (m : Exec S A) (f : A → Exec S B) (s : S) (b : B)
    → ((m >>= f) s).0 ≡ returned b
    → (x : A) × ((m s).0 ≡ returned x) × ((f x (m s).1).0 ≡ returned b)
bind_inv {S} {A} {B} m f s b = go (m s).0 (m s).1
  where
    go :
        (r : Outcome A) (s' : S)
        → (continue r f s').0 ≡ returned b
        → (x : A) × (r ≡ returned x) × ((f x s').0 ≡ returned b)
    go (returned x) s' h = (x, refl, h)
    go (raised e) s' h = let absurd : ⊥ = raised_not e b h in elim absurd [ ]

-- A transaction that raises leaves the state as it was.
pub transaction_undone {ℓ} :
    {S A : Type ℓ} (m : Exec S A) (s : S) (e : Error)
    → (transaction m s).0 ≡ raised e
    → transaction m s ≡ (raised e, s)
transaction_undone {S} {A} m s e = go (m s).0 (m s).1
  where
    go :
        (r : Outcome A) (s' : S)
        → (end_transaction s r s').0 ≡ raised e
        → end_transaction s r s' ≡ (raised e, s)
    go (returned a) s' h = let absurd : ⊥ = raised_not e a (sym h) in elim absurd [ ]
    go (raised _) s' h = ap (λ r. (r, s)) h
