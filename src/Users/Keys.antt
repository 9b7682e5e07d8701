-- ===== src/Users/Keys.antt =====
-- API keys in `UserService` of src/postara/users.py.
use postara.Exec.{returned, returned_inj, Outcome-cases}
use postara.Prelude.{
  ℕ, String, refl, sym, ap, subst, inl, inr, true, false, Option, none, some, arith, nat_eq,
  string_eq, Bool-cases, Option-cases, is_some, ◌≡◌, ◌∙◌, ◌≢◌, ◌==◌,
}
use postara.Security.{ApiKeyParts, parse_api_key, verify_api_key_hash}
use postara.Users.{
  ApiKeyRecord, UserService, Setting, authenticate_api_key, key_matches, update_api_key_status,
  own_key, status_time,
}
use postara.Dict
use postara.Dict.{
  Dict, find_entry, find_entry-true, get-find_entry, get-put, get-put_self, put-IsKeyed, IsKeyed,
}

-- Each key stands under its id.
abbrev pub IsById : Dict ℕ ApiKeyRecord → Type 0
IsById d = (i : ℕ) (key : ApiKeyRecord) → Dict.get d i ≡ some key → key.id ≡ i

-- No key of that id is there that is not revoked.
abbrev pub IsShut : ℕ → Dict ℕ ApiKeyRecord → Type 0
IsShut id d = (key : ApiKeyRecord) → Dict.get d id ≡ some key → is_some key.revoked_at ≡ true

IsById-put :
    (d : Dict ℕ ApiKeyRecord) (id : ℕ) (y : ApiKeyRecord)
    → y.id ≡ id
    → IsById d
    → IsById (Dict.put d id y)
IsById-put d id y right by_id i key h = elim (Bool-cases (id == i)) [
  | inl e ↦
      let here : some y ≡ some key = rw (get-put d id i y, e) at h in
      let same : y ≡ key = cc here in
      sym (ap (λ (z : ApiKeyRecord). z.id) same) ∙ (right ∙ (nat_eq.beq_iff id i).0 e)
  | inr e ↦ by_id i key (rw (get-put d id i y, e) at h)
]

IsShut-put :
    (d : Dict ℕ ApiKeyRecord) (id : ℕ) (y : ApiKeyRecord)
    → is_some y.revoked_at ≡ true
    → IsShut id (Dict.put d id y)
IsShut-put d id y revoked key h =
    let here : some y ≡ some key = rw (get-put_self d id y) at h in
    let same : y ≡ key = cc here in
    subst (λ (z : ApiKeyRecord). is_some z.revoked_at ≡ true) same revoked

own_key-held :
    (user_id : ℕ) (found : Option ApiKeyRecord) (key : ApiKeyRecord)
    → own_key user_id found ≡ some key
    → found ≡ some key
own_key-held user_id none key h = h
own_key-held user_id (some x) key h = elim (Bool-cases (x.user_id == user_id)) [
  | inl e ↦ rw e at h
  | inr e ↦ ground (arith, h, e)
]

module _ (g : Setting) where
  -- What `authenticate_api_key` gives for a key is a record of the service, but for the time of its
  -- last use: it has the prefix of the key, it is not revoked, and the key verifies against its hash.
  pub authenticate_api_key_sound :
      (now : ℕ) (raw_key : String) (used : ApiKeyRecord) (s : UserService)
      → IsKeyed s.api_keys
      → (authenticate_api_key g now raw_key s).0 ≡ returned used
      → (id : ℕ) × (key : ApiKeyRecord) × (parts : ApiKeyParts) × (parse_api_key raw_key
          ≡ returned parts)
        × (Dict.get s.api_keys id ≡ some key)
        × (used ≡ record key { last_used_at = some now })
        × (key.prefix ≡ parts.prefix)
        × (is_some key.revoked_at ≡ false)
        × (verify_api_key_hash g.lib raw_key key.key_hash g.token_hash_key ≡ true)
  unfolding authenticate_api_key
  authenticate_api_key_sound now raw_key used s keyed h =
      elim (Outcome-cases (parse_api_key raw_key)) [
        | inl (x, e) ↦ ground (arith, h, e)
        | inr (parts, e) ↦
            elim (Option-cases (find_entry (key_matches g parts.prefix raw_key) s.api_keys)) [
              | inl f ↦ ground (arith, h, e, f)
              | inr ((id, key), f) ↦
                  let matches =
                    find_entry-true (key_matches g parts.prefix raw_key) s.api_keys id key f in
                  let done : returned (record key { last_used_at = some now }) ≡ returned used =
                    rw (authenticate_api_key, e, f) at h in
                  (
                    id,
                    key,
                    parts,
                    e,
                    get-find_entry (key_matches g parts.prefix raw_key) s.api_keys id key keyed f,
                    sym (returned_inj done),
                    (string_eq.beq_iff key.prefix parts.prefix).0 (ground (arith, matches)),
                    ground (arith, matches),
                    ground (arith, matches),
                  )
            ]
      ]

  shut-refuses :
      (now id : ℕ) (raw_key : String) (used : ApiKeyRecord) (s : UserService)
      → IsKeyed s.api_keys
      → IsById s.api_keys
      → IsShut id s.api_keys
      → (authenticate_api_key g now raw_key s).0 ≡ returned used
      → used.id ≢ id
  shut-refuses now id raw_key used s keyed by_id shut h same =
      let (i, key, parts, parsed, held, e, prefix, live, verified) =
        authenticate_api_key_sound now raw_key used s keyed h in
      let at_id : i ≡ id = sym (by_id i key held) ∙ (sym (rw (e) refl) ∙ same) in
      let revoked = shut key (rw (← at_id) held) in ground (arith, revoked, live)

  -- Once a user has disabled an API key, no text is accepted as that key any more.
  pub authenticate_api_key_disabled :
      (now later user_id id : ℕ) (raw_key : String) (changed used : ApiKeyRecord) (s : UserService)
      → IsKeyed s.api_keys
      → IsById s.api_keys
      → (update_api_key_status now user_id id "disabled" s).0 ≡ returned changed
      → (authenticate_api_key g later raw_key
          (update_api_key_status now user_id id "disabled" s).1).0
        ≡ returned used
      → used.id ≢ id
  unfolding update_api_key_status status_time
  authenticate_api_key_disabled now later user_id id raw_key changed used s keyed by_id done h =
      elim (Option-cases (own_key user_id (Dict.get s.api_keys id))) [
        | inl e ↦ ground (arith, done, e)
        | inr (key, e) ↦
            let gone : ApiKeyRecord = record key { revoked_at = some now } in
            let after : UserService = record s { api_keys = Dict.put s.api_keys id gone } in
            let changes : (update_api_key_status now user_id id "disabled" s).1 ≡ after =
              rw (update_api_key_status, e) refl in
            let held = own_key-held user_id (Dict.get s.api_keys id) key e in
            shut-refuses later id raw_key used after (put-IsKeyed s.api_keys id gone keyed)
              (IsById-put s.api_keys id gone (by_id id key held) by_id)
              (IsShut-put s.api_keys id gone refl)
              (subst
                (λ (z : UserService). (authenticate_api_key g later raw_key z).0 ≡ returned used)
                changes h)
      ]
