-- ===== src/Accounts/Memory/Unique.antt =====
-- The names and e-mails of one user's mailboxes in `AccountService` of src/postara/accounts.py.
use postara.Errors.{key_error, Error}
use postara.Exec.{Outcome, returned, raised, Exec, continue}
use postara.Prelude.{
  ℕ, String, refl, sym, subst, inl, inr, false, Option, some, arith, nat_eq, string_eq, option_eq,
  Bool-cases, Option-cases, any, ◌≡◌, ◌∙◌, ◌⊎◌, ◌==◌,
}
use postara.Accounts.{
  AccountRecord, Ambient, has_email, has_name, set_password, blank_account, is_mailbox_name,
}
use postara.Accounts.Memory.{AccountService, Setting, new_api_key, create}
use postara.Security.{generate_api_key, parse_api_key, hash_api_key}
use postara.Crypto.{EncryptedCredential, encrypt}
use postara.Dict
use postara.Dict.{Dict, values, get-put, get-any}

-- Two accounts that a unique constraint would keep apart.
abbrev pub Clash : AccountRecord → AccountRecord → Type 0
Clash x y = (x.user_id ≡ y.user_id) × ((x.email ≡ y.email) ⊎ (x.name ≡ y.name))

abbrev pub IsUnique : Dict ℕ AccountRecord → Type 0
IsUnique d =
    (i j : ℕ) (x y : AccountRecord)
    → Dict.get d i ≡ some x
    → Dict.get d j ≡ some y
    → Clash x y
    → i ≡ j

-- No account of the dictionary clashes with `y`.
abbrev Fresh : Dict ℕ AccountRecord → AccountRecord → Type 0
Fresh d y = (i : ℕ) (x : AccountRecord) → Dict.get d i ≡ some x → Clash x y → ⊥

Fresh-any :
    (d : Dict ℕ AccountRecord) (y : AccountRecord)
    → any (has_email y.user_id y.email) (values d) ≡ false
    → any (has_name y.user_id y.name) (values d) ≡ false
    → Fresh d y
Fresh-any d y emails names i x held (owner, inl e) =
    let tested = get-any (has_email y.user_id y.email) d i x emails held in
    ground (
      arith,
      tested,
      (string_eq.beq_iff x.email y.email).1 e,
      (option_eq.beq_iff x.user_id y.user_id).1 owner,
    )
Fresh-any d y emails names i x held (owner, inr e) =
    let tested = get-any (has_name y.user_id y.name) d i x names held in
    ground (
      arith,
      tested,
      (string_eq.beq_iff x.name y.name).1 e,
      (option_eq.beq_iff x.user_id y.user_id).1 owner,
    )

Clash-sym : (x y : AccountRecord) → Clash x y → Clash y x
Clash-sym x y (owner, inl e) = (sym owner, inl (sym e))
Clash-sym x y (owner, inr e) = (sym owner, inr (sym e))

-- A changed account goes back to its own key; it clashes with none at another key.
pub replace-IsUnique :
    (d : Dict ℕ AccountRecord) (k : ℕ) (y : AccountRecord)
    → IsUnique d
    → ((i : ℕ) (x : AccountRecord) → (k == i) ≡ false → Dict.get d i ≡ some x → Clash x y → ⊥)
    → IsUnique (Dict.put d k y)
replace-IsUnique d k y unique apart i j x z hi hj clash = elim (Bool-cases (k == i)) [
  | inl e ↦ elim (Bool-cases (k == j)) [
    | inl f ↦ sym ((nat_eq.beq_iff k i).0 e) ∙ (nat_eq.beq_iff k j).0 f
    | inr f ↦
        let here : some y ≡ some x = rw (get-put d k i y, e) at hi in
        let there : Dict.get d j ≡ some z = rw (get-put d k j y, f) at hj in
        let same : y ≡ x = cc here in
        let absurd : ⊥ = apart j z f there (Clash-sym y z (rw (same) clash)) in elim absurd [ ]
  ]
  | inr e ↦ elim (Bool-cases (k == j)) [
    | inl f ↦
        let there : some y ≡ some z = rw (get-put d k j y, f) at hj in
        let here : Dict.get d i ≡ some x = rw (get-put d k i y, e) at hi in
        let same : y ≡ z = cc there in
        let absurd : ⊥ = apart i x e here (rw (same) clash) in elim absurd [ ]
    | inr f ↦ unique i j x z (rw (get-put d k i y, e) at hi) (rw (get-put d k j y, f) at hj) clash
  ]
]

put-IsUnique :
    (d : Dict ℕ AccountRecord) (k : ℕ) (y : AccountRecord)
    → IsUnique d
    → Fresh d y
    → IsUnique (Dict.put d k y)
put-IsUnique d k y unique fresh = replace-IsUnique d k y unique (λ i x other. fresh i x)

-- A method that ends without a change of the service.
abbrev Still : {A : Type 0} → Exec AccountService A → AccountService → Type 0
Still {A} m s = ((x : Error) × (m s ≡ (raised x, s))) ⊎ ((b : A) × (m s ≡ (returned b, s)))

continue-Still :
    {A B : Type 0} (r : Outcome A) (f : A → Exec AccountService B) (s : AccountService)
    → ((x : A) → Still (f x) s)
    → Still (continue r f) s
continue-Still (returned x) f s each = each x
continue-Still (raised x) f s each = inl (x, refl)

module _ (g : Setting) (a : Ambient) where
  new_api_key-Still : (s : AccountService) → Still (new_api_key g a) s
  new_api_key-Still s = continue-Still (generate_api_key "live" a.draws) _ s λ key.
      continue-Still (parse_api_key key) _ s λ parts.
        continue-Still (hash_api_key g.lib key g.token_hash_key) _ s
          λ hash. inr ((key, parts.prefix, hash), refl)

  encrypt-Still :
      (password : String) (s : AccountService) → Still (encrypt g.lib g.cipher a.seed password) s
  unfolding encrypt
  encrypt-Still password s = elim (Option-cases (Dict.get g.cipher.keys g.cipher.active_version)) [
    | inl e ↦ inl (key_error, rw (e, encrypt) refl)
    | inr (key, e) ↦
        let sealed : EncryptedCredential = record {
          ciphertext = g.lib.fernet_encrypt key a.seed password;
          key_version = g.cipher.active_version;
        } in
        inr (sealed, rw (e, encrypt) refl)
  ]

  abbrev made :
      String
      → String
      → String
      → Option ℕ
      → EncryptedCredential
      → String × String × String
      → ℕ
      → AccountRecord
  made name email provider user_id e key id = set_password e (
      blank_account id user_id name email provider "app_password" "imap.gmail.com" 993 key.1 key.2 1
        a.now)

  -- The account went in, past both tests.
  abbrev Made : String → String → String → String → Option ℕ → AccountService → Type 0
  Made name email provider password user_id s =
      (e : EncryptedCredential) × (key : String × String × String) × (any (has_email user_id email)
          (values s.accounts)
        ≡ false)
      × (any (has_name user_id name) (values s.accounts) ≡ false)
      × ((create g a name email provider password user_id s).1.accounts
          ≡ Dict.put s.accounts s.next_id (made name email provider user_id e key s.next_id))

  create_cases :
      (name email provider password : String) (user_id : Option ℕ) (s : AccountService)
      → ((create g a name email provider password user_id s).1.accounts ≡ s.accounts)
        ⊎ Made name email provider password user_id s
  unfolding create
  create_cases name email provider password user_id s = elim (Bool-cases (is_mailbox_name name)) [
    | inr bad ↦ inl (rw (create, bad) refl)
    | inl good ↦ elim (Bool-cases (any (has_email user_id email) (values s.accounts))) [
      | inl taken ↦ inl (rw (create, good, taken) refl)
      | inr email_free ↦ elim (Bool-cases (any (has_name user_id name) (values s.accounts))) [
        | inl taken ↦ inl (rw (create, good, email_free, taken) refl)
        | inr name_free ↦ elim (Bool-cases (provider == "gmail")) [
          | inr other ↦ inl (rw (create, good, email_free, name_free, other) refl)
          | inl gmail ↦ elim (encrypt-Still password s) [
            | inl (x, e) ↦ inl (rw (create, good, email_free, name_free, gmail, e) refl)
            | inr (sealed, e) ↦ elim (new_api_key-Still s) [
              | inl (x, k) ↦ inl (rw (create, good, email_free, name_free, gmail, e, k) refl)
              | inr (key, k) ↦ inr (
                sealed,
                key,
                email_free,
                name_free,
                rw (create, good, email_free, name_free, gmail, e, k) refl,
              )
            ]
          ]
        ]
      ]
    ]
  ]

  -- If no two accounts of one user have the same name or the same e-mail, that holds after
  -- `create` too, whether it returns or raises.
  pub create-IsUnique :
      (name email provider password : String) (user_id : Option ℕ) (s : AccountService)
      → IsUnique s.accounts
      → IsUnique (create g a name email provider password user_id s).1.accounts
  create-IsUnique name email provider password user_id s unique =
      elim (create_cases name email provider password user_id s) [
        | inl e ↦ subst IsUnique (sym e) unique
        | inr (sealed, key, emails, names, e) ↦
            let y = made name email provider user_id sealed key s.next_id in
            subst IsUnique (sym e)
              (put-IsUnique s.accounts s.next_id y unique (Fresh-any s.accounts y emails names))
      ]
