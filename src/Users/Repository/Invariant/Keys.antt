-- ===== src/Users/Repository/Invariant/Keys.antt =====
-- The unique columns under the methods of `RepositoryUserService` of src/postara/users.py on API keys.
use postara.Exec.{returned, Outcome-cases}
use postara.Prelude.{
  ℕ, String, refl, inl, inr, Option, none, some, List, arith, Bool-cases, Option-cases, any, find,
  ◌≡◌, ◌==◌, nat_eq, string_eq,
}
use postara.Security.{ApiKeyParts, parse_api_key, generate_api_key, hash_api_key}
use postara.Users.{ApiKeyRecord, Ambient, own_key, status_time}
use postara.Users.Tables.{UserTables, put_key, insert_key}
use postara.Users.Repository.{
  RepositoryUserService, create_api_key, authenticate_api_key, delete_api_key,
  update_api_key_status,
}
use postara.Dict
use postara.Dict.{values}
use postara.Dict.Rows.{found-held, read-held, remove-IsTable}
use postara.Users.Repository.Invariant.{
  IsValid, key_number, key_column, put_key-IsValid, new_key-IsValid, one_of-IsValid,
}

-- A key that is the user's stands under the id it was looked up by.
own_key-held :
    (user_id : ℕ) (found : Option ApiKeyRecord) (key : ApiKeyRecord)
    → own_key user_id found ≡ some key
    → found ≡ some key
own_key-held user_id none key h = ground arith
own_key-held user_id (some x) key h = ground (arith, h)

pub delete_api_key-IsValid :
    (user_id api_key_id : ℕ) (t : UserTables)
    → IsValid t
    → IsValid (delete_api_key user_id api_key_id t).1
unfolding delete_api_key
delete_api_key-IsValid user_id api_key_id t h =
    elim (Option-cases (own_key user_id (Dict.get t.api_keys api_key_id))) [
      | inl missing ↦ rw (delete_api_key, missing) h
      | inr (key, own) ↦
          rw (delete_api_key, own)
            (record {
              users = h.users;
              sessions = h.sessions;
              api_keys =
                  remove-IsTable key_number key_column t.api_keys api_key_id t.next_api_key_id
                    h.api_keys;
            })
    ]

pub update_api_key_status-IsValid :
    (now user_id api_key_id : ℕ) (status : String) (t : UserTables)
    → IsValid t
    → IsValid (update_api_key_status now user_id api_key_id status t).1
unfolding update_api_key_status
update_api_key_status-IsValid now user_id api_key_id status t h =
    elim (Option-cases (own_key user_id (Dict.get t.api_keys api_key_id))) [
      | inl missing ↦ rw (update_api_key_status, missing) h
      | inr (key, own) ↦ elim (Outcome-cases (status_time status now)) [
        | inl (x, e) ↦ rw (update_api_key_status, own, e) h
        | inr (at, e) ↦
            let held = own_key-held user_id _ key own in
            let under =
              read-held key_number key_column t.api_keys t.next_api_key_id api_key_id key h.api_keys
                held in
            rw (update_api_key_status, own, e)
              (put_key-IsValid t key (record key { revoked_at = at }) under refl refl h)
      ]
    ]

module _ (g : RepositoryUserService) where
  pub authenticate_api_key-IsValid :
      (now : ℕ) (raw_key : String) (t : UserTables)
      → IsValid t
      → IsValid (authenticate_api_key g now raw_key t).1
  unfolding authenticate_api_key
  authenticate_api_key-IsValid now raw_key t h = elim (Outcome-cases (parse_api_key raw_key)) [
    | inl (x, e) ↦ rw (authenticate_api_key, e) h
    | inr (parts, e) ↦
        elim (Option-cases
          (find (λ (k : ApiKeyRecord). k.prefix == parts.prefix) (values t.api_keys))) [
            | inl missing ↦ rw (authenticate_api_key, e, missing) h
            | inr (key, found) ↦
                let seen : ApiKeyRecord = record key { last_used_at = some now } in
                let held =
                  found-held key_number key_column _ t.api_keys t.next_api_key_id key h.api_keys
                    found in
                one_of-IsValid t (put_key seen t) _ (ground (arith, e, found)) h
                  (put_key-IsValid t key seen held refl refl h)
          ]
  ]

  -- Past the making of the key, in the transaction.
  store_key-IsValid :
      (a : Ambient) (user_id : ℕ) (name raw_key : String) (mailbox_id : Option ℕ)
      (scopes : Option (List String)) (parts : ApiKeyParts) (t : UserTables)
      → generate_api_key "live" a.draws ≡ returned raw_key
      → parse_api_key raw_key ≡ returned parts
      → IsValid t
      → IsValid (create_api_key g a user_id name mailbox_id scopes t).1
  unfolding create_api_key insert_key
  store_key-IsValid a user_id name raw_key mailbox_id scopes parts t e f h =
      elim (Option-cases (Dict.get g.token_hash_keys g.active_token_hash_version)) [
        | inl missing ↦ rw (create_api_key, e, f, missing) h
        | inr (active, given) ↦ elim (Outcome-cases (hash_api_key g.lib raw_key active)) [
          | inl (x, bad) ↦ rw (create_api_key, e, f, given, bad) h
          | inr (key_hash, hashed) ↦
              elim (Bool-cases
                (any (λ (k : ApiKeyRecord). k.prefix == parts.prefix) (values t.api_keys))) [
                  | inl taken ↦ rw (create_api_key, e, f, given, hashed, insert_key, taken) h
                  | inr free ↦
                      rw (create_api_key, e, f, given, hashed, insert_key, free)
                        (new_key-IsValid t _ refl free h)
                ]
        ]
      ]

  pub create_api_key-IsValid :
      (a : Ambient) (user_id : ℕ) (name : String) (mailbox_id : Option ℕ)
      (scopes : Option (List String)) (t : UserTables)
      → IsValid t
      → IsValid (create_api_key g a user_id name mailbox_id scopes t).1
  unfolding create_api_key
  create_api_key-IsValid a user_id name mailbox_id scopes t h =
      elim (Outcome-cases (generate_api_key "live" a.draws)) [
        | inl (x, e) ↦ rw (create_api_key, e) h
        | inr (raw_key, e) ↦ elim (Outcome-cases (parse_api_key raw_key)) [
          | inl (x, f) ↦ rw (create_api_key, e, f) h
          | inr (parts, f) ↦
              store_key-IsValid a user_id name raw_key mailbox_id scopes parts t e f h
        ]
      ]
