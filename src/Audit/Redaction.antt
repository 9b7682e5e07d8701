-- ===== src/Audit/Redaction.antt =====
-- What `sanitize_extra` of src/postara/audit.py leaves in a value.
use postara.Prelude.{
  String, refl, sym, ap, subst, inl, inr, Bool, true, false, string_eq, Bool-cases, ◌≡◌, ◌↔◌,
  if◌then◌else◌, ◌==◌,
}
use mathlib.Core.Path.{ap₂}
use mathlib.Core.Option
use postara.Prelude.{string_eq}
use postara.Audit.{
  Value, Items, Fields, null, boolean, number, text, instant, array, object, other, nil, cons, end,
  field, lookup, Python, redacted, is_sensitive, sanitize_extra, sanitize_items, sanitize_fields,
}

-- At every depth of dictionaries and lists, a field with a sensitive key holds the mark and nothing
-- else, and no item is an instant. What an `other` value holds is not looked at.
abbrev mutual
  pub IsClean : Python → Value → Type 0
  IsClean p (instant t) = ⊥
  IsClean p (array xs) = AreClean p xs
  IsClean p (object fs) = FieldsClean p fs
  IsClean p (other truth name held) = Unit {0}
  IsClean p _ = Unit {0}

  pub AreClean : Python → Items → Type 0
  AreClean p nil = Unit {0}
  AreClean p (cons x xs) = IsClean p x × AreClean p xs

  pub FieldsClean : Python → Fields → Type 0
  FieldsClean p end = Unit {0}
  FieldsClean p (field key item fs) =
      (is_sensitive p key ≡ true → item ≡ redacted) × IsClean p item × FieldsClean p fs

clean_field :
    (p : Python) (key : String) (item : Value) (b : Bool) (fs : Fields)
    → is_sensitive p key ≡ b
    → IsClean p (sanitize_extra p item)
    → FieldsClean p fs
    → FieldsClean p (field key (if b then redacted else sanitize_extra p item) fs)
clean_field p key item true fs e c r = (λ _. refl, tt, r)
clean_field p key item false fs e c r = (λ h. cc (h, e), c, r)

mutual
  unfolding sanitize_extra

  IsClean-value : (p : Python) (v : Value) → IsClean p (sanitize_extra p v)
  IsClean-value p null = tt
  IsClean-value p (boolean b) = tt
  IsClean-value p (number n) = tt
  IsClean-value p (text s) = tt
  IsClean-value p (instant t) = tt
  IsClean-value p (array xs) = AreClean-items p xs
  IsClean-value p (object fs) = FieldsClean-fields p fs
  IsClean-value p (other truth name held) = tt

  AreClean-items : (p : Python) (xs : Items) → AreClean p (sanitize_items p xs)
  AreClean-items p nil = tt
  AreClean-items p (cons x xs) = (IsClean-value p x, AreClean-items p xs)

  FieldsClean-fields : (p : Python) (fs : Fields) → FieldsClean p (sanitize_fields p fs)
  FieldsClean-fields p end = tt
  FieldsClean-fields p (field key item fs) =
      clean_field p key item (is_sensitive p key) (sanitize_fields p fs) refl (IsClean-value p item)
        (FieldsClean-fields p fs)

fixed_item :
    (p : Python) (key : String) (item : Value) (b : Bool)
    → (b ≡ true → item ≡ redacted)
    → sanitize_extra p item ≡ item
    → (if b then redacted else sanitize_extra p item) ≡ item
fixed_item p key item true c e = sym (c refl)
fixed_item p key item false c e = e

mutual
  unfolding sanitize_extra

  fixed_value : (p : Python) (v : Value) → IsClean p v → sanitize_extra p v ≡ v
  fixed_value p null c = refl
  fixed_value p (boolean b) c = refl
  fixed_value p (number n) c = refl
  fixed_value p (text s) c = refl
  fixed_value p (instant t) c = elim c [ ]
  fixed_value p (array xs) c = ap array (fixed_items p xs c)
  fixed_value p (object fs) c = ap object (fixed_fields p fs c)
  fixed_value p (other truth name held) c = refl

  fixed_items : (p : Python) (xs : Items) → AreClean p xs → sanitize_items p xs ≡ xs
  fixed_items p nil c = refl
  fixed_items p (cons x xs) c = ap₂ cons (fixed_value p x c.0) (fixed_items p xs c.1)

  fixed_fields : (p : Python) (fs : Fields) → FieldsClean p fs → sanitize_fields p fs ≡ fs
  fixed_fields p end c = refl
  fixed_fields p (field key item fs) c =
      ap₂ (field key)
        (fixed_item p key item (is_sensitive p key) (λ e. c.0 e) (fixed_value p item c.1))
        (fixed_fields p fs c.2)

-- Whatever the value, at any depth of dictionaries and lists no field under a sensitive key keeps its
-- content, and no entry or item is a `datetime`; of what a tuple or another object holds nothing is
-- said.
pub sanitize_extra-IsClean : (p : Python) (v : Value) → IsClean p (sanitize_extra p v)
sanitize_extra-IsClean p v = IsClean-value p v

-- Redaction changes exactly the values that are not clean at some depth of dictionaries and lists: any
-- other value, a tuple with whatever it holds among them, is returned as it is, so that a second pass
-- changes nothing.
pub sanitize_extra-fixed :
    (p : Python) (v : Value)
    → ((sanitize_extra p v ≡ v) ↔ IsClean p v)
      × (sanitize_extra p (sanitize_extra p v) ≡ sanitize_extra p v)
sanitize_extra-fixed p v = (
  (λ e. subst (IsClean p) e (IsClean-value p v), fixed_value p v),
  fixed_value p (sanitize_extra p v) (IsClean-value p v),
)

abbrev pub sanitize_under : Python → String → Value → Value
sanitize_under p key item = if is_sensitive p key then redacted else sanitize_extra p item

-- The keys of a dictionary stay, and each value is redacted or sanitised by its own key.
pub lookup-sanitize_fields :
    (p : Python) (key : String) (fs : Fields)
    → lookup key (sanitize_fields p fs) ≡ Option.map (sanitize_under p key) (lookup key fs)
unfolding sanitize_extra lookup
lookup-sanitize_fields p key end = refl
lookup-sanitize_fields p key (field k item fs) = elim (Bool-cases (k == key)) [
  | inl same ↦ rw same (rw ((string_eq.beq_iff k key).0 same) refl)
  | inr differs ↦ rw differs (lookup-sanitize_fields p key fs)
]
