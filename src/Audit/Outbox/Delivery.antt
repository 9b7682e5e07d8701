-- ===== src/Audit/Outbox/Delivery.antt =====
-- `dispatch_audit_outbox` of src/postara/repositories.py over two databases that may fail at each
-- of its transactions.
use postara.Exec.{Outcome, returned, raised, Exec, continue}
use postara.Prelude.{
  ℕ, String, refl, sym, subst, inl, inr, Bool, true, false, Option, none, some, List, [], arith,
  nat_eq, Bool-cases, Option-cases, is_some, All, All-take, All-filter, ◌+◌, ◌≡◌, ◌∙◌, ◌⊎◌, ◌∷◌,
  ◌++◌, if◌then◌else◌, ◌==◌,
}
use postara.Audit.{Python}
use postara.Audit.Outbox.{
  AuditOutboxOrm, AuditEventOrm, Databases, dictionary, append_row, list_pending, mark_delivered,
  mark_failed, set_delivered, set_failed, update_row, Conditions, handle_failure, deliver_row,
  dispatch_item, dispatch_items, dispatch_audit_outbox,
}
use mathlib.Core.Option
use postara.Dict
use postara.Dict.{Dict, values, IsKeyed, get-put, get-entries}

abbrev pub In : {A : Type 0} → A → List A → Type 0
In x [] = ⊥
In x (y ∷ ys) = (x ≡ y) ⊎ In x ys

In-append : {A : Type 0} (x y : A) (xs : List A) → In x xs → In x (xs ++ y ∷ [])
In-append x y [] h = elim h [ ]
In-append x y (z ∷ xs) (inl e) = inl e
In-append x y (z ∷ xs) (inr h) = inr (In-append x y xs h)

In-last : {A : Type 0} (y : A) (xs : List A) → In y (xs ++ y ∷ [])
In-last y [] = inl refl
In-last y (z ∷ xs) = inr (In-last y xs)

-- The audit log holds a row made from the outbox row's event.
abbrev pub IsLogged : Python → List AuditEventOrm → AuditOutboxOrm → Type 0
IsLogged p events row =
    (t : ℕ) × (r : AuditEventOrm) × (append_row p t (dictionary row.event) ≡ returned r)
    × In r events

-- No row counts as delivered whose event is not in the log.
abbrev pub NoLoss : Python → Databases → Type 0
NoLoss p d =
    (i : ℕ) (row : AuditOutboxOrm)
    → Dict.get d.outbox i ≡ some row
    → is_some row.delivered_at ≡ true
    → IsLogged p d.events row

-- The outbox still has, under its id, a row that was read from it.
abbrev pub IsHeld : Dict ℕ AuditOutboxOrm → AuditOutboxOrm → Type 0
IsHeld outbox row = (r : AuditOutboxOrm) × (Dict.get outbox row.id ≡ some r) × (r.event ≡ row.event)

get-update_row :
    (id : ℕ) (change : AuditOutboxOrm → AuditOutboxOrm) (found : Option AuditOutboxOrm)
    (outbox : Dict ℕ AuditOutboxOrm) (j : ℕ)
    → Dict.get outbox id ≡ found
    → Dict.get (update_row id change found outbox) j
      ≡ (if id == j then Option.map change found else Dict.get outbox j)
get-update_row id change none outbox j h = ground (arith, nat_eq.beq_iff id j)
get-update_row id change (some row) outbox j h = get-put outbox id j (change row)

module _ (p : Python) where
  NoLoss-grow :
      (d : Databases) (r : AuditEventOrm)
      → NoLoss p d
      → NoLoss p (record d { events = d.events ++ r ∷ [] })
  NoLoss-grow d r h i row held done =
      let (t, q, made, there) = h i row held done in (t, q, made, In-append q r d.events there)

  -- A row of the changed outbox is the changed row, or was there before.
  updated_cases :
      (id : ℕ) (change : AuditOutboxOrm → AuditOutboxOrm) (outbox : Dict ℕ AuditOutboxOrm) (i : ℕ)
      (row : AuditOutboxOrm)
      → Dict.get (update_row id change (Dict.get outbox id) outbox) i ≡ some row
      → ((old : AuditOutboxOrm) × (id ≡ i) × (Dict.get outbox id ≡ some old) × (row ≡ change old))
        ⊎ (Dict.get outbox i ≡ some row)
  updated_cases id change outbox i row h = elim (Bool-cases (id == i)) [
    | inr other ↦
        inr (ground (arith, other, get-update_row id change (Dict.get outbox id) outbox i refl))
    | inl same ↦ elim (Option-cases (Dict.get outbox id)) [
      | inl e ↦
          inr (ground (arith, same, e, get-update_row id change (Dict.get outbox id) outbox i refl))
      | inr (old, e) ↦ inl (
        old,
        (nat_eq.beq_iff id i).0 same,
        e,
        ground (arith, same, e, get-update_row id change (Dict.get outbox id) outbox i refl),
      )
    ]
  ]

  NoLoss-mark_failed :
      (error : String) (id : ℕ) (d : Databases)
      → NoLoss p d
      → NoLoss p (record d { outbox = mark_failed p error id d.outbox })
  unfolding mark_failed
  NoLoss-mark_failed error id d h i row held done =
      elim (updated_cases id (set_failed p error) d.outbox i row held) [
        | inl (old, e, was, new) ↦
            subst (IsLogged p d.events) (sym new) (
              h id old was (subst (λ (x : AuditOutboxOrm). is_some x.delivered_at ≡ true) new done))
        | inr was ↦ h i row was done
      ]

  NoLoss-mark_delivered :
      (now id t : ℕ) (d : Databases) (r : AuditEventOrm) (row : AuditOutboxOrm)
      → Dict.get d.outbox id ≡ some row
      → append_row p t (dictionary row.event) ≡ returned r
      → In r d.events
      → NoLoss p d
      → NoLoss p (record d { outbox = mark_delivered now id d.outbox })
  unfolding mark_delivered
  NoLoss-mark_delivered now id t d r row was made there h i x held done =
      elim (updated_cases id (set_delivered now) d.outbox i x held) [
        | inl (old, e, before, new) ↦
            let e : row ≡ old = cc (was, before) in
            subst (IsLogged p d.events) (sym new)
              (subst (λ y. IsLogged p d.events (set_delivered now y)) e (t, r, made, there))
        | inr before ↦ h i x before done
      ]

  update_row-IsHeld :
      (id : ℕ) (change : AuditOutboxOrm → AuditOutboxOrm) (outbox : Dict ℕ AuditOutboxOrm)
      (row : AuditOutboxOrm)
      → ((x : AuditOutboxOrm) → (change x).event ≡ x.event)
      → IsHeld outbox row
      → IsHeld (update_row id change (Dict.get outbox id) outbox) row
  update_row-IsHeld id change outbox row keeps (r, held, same) = elim (Bool-cases (id == row.id)) [
    | inl hit ↦
        let e : id ≡ row.id = (nat_eq.beq_iff id row.id).0 hit in
        (
          change r,
          get-update_row id change (Dict.get outbox id) outbox row.id refl ∙ rw (hit, e, held) refl,
          keeps r ∙ same,
        )
    | inr miss ↦
        (r, get-update_row id change (Dict.get outbox id) outbox row.id refl ∙ rw miss held, same)
  ]

  -- What holds before each round of the loop holds after it, whichever way the round goes.
  abbrev Fine : List AuditOutboxOrm → Databases → Type 0
  Fine rows d = NoLoss p d × All (IsHeld d.outbox) rows

  IsHeld-update :
      (id : ℕ) (change : AuditOutboxOrm → AuditOutboxOrm) (outbox : Dict ℕ AuditOutboxOrm)
      (rows : List AuditOutboxOrm)
      → ((x : AuditOutboxOrm) → (change x).event ≡ x.event)
      → All (IsHeld outbox) rows
      → All (IsHeld (update_row id change (Dict.get outbox id) outbox)) rows
  IsHeld-update id change outbox [] keeps h = tt
  IsHeld-update id change outbox (row ∷ rows) keeps h = (
    update_row-IsHeld id change outbox row keeps h.0,
    IsHeld-update id change outbox rows keeps h.1,
  )

  if-Fine :
      (rows : List AuditOutboxOrm) (b : Bool) (m n : Outcome Bool × Databases)
      → Fine rows m.1
      → Fine rows n.1
      → Fine rows (if b then m else n).1
  if-Fine rows true m n f g = f
  if-Fine rows false m n f g = g

  handle_failure-Fine :
      (c : Conditions) (id : ℕ) (rows : List AuditOutboxOrm) (d : Databases)
      → Fine rows d
      → Fine rows (handle_failure p c id d).1
  unfolding handle_failure
  handle_failure-Fine c id rows d h = elim (Bool-cases c.fail_up) [
    | inl up ↦ rw up (
      NoLoss-mark_failed c.error id d h.0,
      unfold mark_failed in IsHeld-update id (set_failed p c.error) d.outbox rows (λ x. refl) h.1,
    )
    | inr down ↦ rw down h
  ]

  deliver_row-Fine :
      (c : Conditions) (row : AuditOutboxOrm) (result : Outcome AuditEventOrm)
      (rows : List AuditOutboxOrm) (d : Databases)
      → append_row p c.now (dictionary row.event) ≡ result
      → IsHeld d.outbox row
      → Fine rows d
      → Fine rows (deliver_row p c row.id result d).1
  deliver_row-Fine c row (raised e) rows d made held h = handle_failure-Fine c row.id rows d h
  deliver_row-Fine c row (returned r) rows d made (x, found, same) h =
      let logged : Databases = record d { events = d.events ++ r ∷ [] } in
      let grown = NoLoss-grow d r h.0 in
      if-Fine rows c.audit_up
        (if c.mark_up
          then (returned true, record logged { outbox = mark_delivered c.now row.id logged.outbox })
          else handle_failure p c row.id logged)
        (handle_failure p c row.id d)
        (if-Fine rows c.mark_up
          (returned true, record logged { outbox = mark_delivered c.now row.id logged.outbox })
          (handle_failure p c row.id logged)
          (
            NoLoss-mark_delivered c.now row.id c.now logged r x found (rw same made)
                (In-last r d.events) grown,
            unfold mark_delivered in
                IsHeld-update row.id (set_delivered c.now) d.outbox rows (λ y. refl) h.1,
          )
          (handle_failure-Fine c row.id rows logged (grown, h.1)))
        (handle_failure-Fine c row.id rows d h)

  continue-NoLoss :
      (done : Outcome Bool) (f : Bool → Exec Databases ℕ) (after : Databases)
      → NoLoss p after
      → ((b : Bool) → NoLoss p (f b after).1)
      → NoLoss p (continue done f after).1
  continue-NoLoss (returned b) f after h each = each b
  continue-NoLoss (raised e) f after h each = h

  dispatch_items-NoLoss :
      (conditions : ℕ → Conditions) (rows : List AuditOutboxOrm) (n : ℕ) (d : Databases)
      → Fine rows d
      → NoLoss p (dispatch_items p conditions rows n d).1
  unfolding dispatch_items dispatch_item
  dispatch_items-NoLoss conditions [] n d h = h.0
  dispatch_items-NoLoss conditions (row ∷ rows) n d h =
      let c = conditions row.id in
      let result = append_row p c.now (dictionary row.event) in
      let after = (deliver_row p c row.id result d).1 in
      let fine : Fine rows after = deliver_row-Fine c row result rows d refl h.1.0 (h.0, h.1.1) in
      continue-NoLoss (deliver_row p c row.id result d).0
        (λ b. dispatch_items p conditions rows (if b then n + 1 else n)) after fine.0
        (λ b. dispatch_items-NoLoss conditions rows (if b then n + 1 else n) after fine)

-- The outbox as a table: its keys are the ids of its rows, each once.
abbrev pub IsTable : Dict ℕ AuditOutboxOrm → Type 0
IsTable outbox = IsKeyed outbox × All (λ x. x.0 ≡ x.1.id) outbox

rows-IsHeld :
    (outbox entries : Dict ℕ AuditOutboxOrm)
    → All (λ x. Dict.get outbox x.0 ≡ some x.1) entries
    → All (λ x. x.0 ≡ x.1.id) entries
    → All (IsHeld outbox) (values entries)
rows-IsHeld outbox [] h k = tt
rows-IsHeld outbox ((i, row) ∷ entries) h k = (
  (row, subst (λ j. Dict.get outbox j ≡ some row) k.0 h.0, refl),
  rows-IsHeld outbox entries h.1 k.1,
)

list_pending-IsHeld :
    (limit : ℕ) (outbox : Dict ℕ AuditOutboxOrm)
    → IsTable outbox
    → All (IsHeld outbox) (list_pending limit outbox)
unfolding list_pending
list_pending-IsHeld limit outbox t = All-take (IsHeld outbox) limit _ (
    All-filter (IsHeld outbox) _ (values outbox)
      (rows-IsHeld outbox outbox (get-entries outbox t.0) t.1))

-- Whichever of the transactions of a dispatch fail, and wherever it stops, no outbox row is marked
-- as delivered unless the audit log holds a row made from its event; this holds after the
-- dispatch if it held before.
pub dispatch_audit_outbox-NoLoss :
    (p : Python) (conditions : ℕ → Conditions) (limit : ℕ) (d : Databases)
    → IsTable d.outbox
    → NoLoss p d
    → NoLoss p (dispatch_audit_outbox p conditions limit d).1
unfolding dispatch_audit_outbox
dispatch_audit_outbox-NoLoss p conditions limit d t h =
    dispatch_items-NoLoss p conditions (list_pending limit d.outbox) 0 d
      (h, list_pending-IsHeld limit d.outbox t)
