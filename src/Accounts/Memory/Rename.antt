-- ===== src/Accounts/Memory/Rename.antt =====
-- A change of name in `AccountService` of src/postara/accounts.py.
use postara.Prelude.{
  ℕ, String, refl, sym, subst, inl, inr, Bool, false, not, Option, none, some, arith, string_eq,
  option_eq, Bool-cases, Option-cases, any, ◌≡◌, ◌∙◌, ◌⊎◌, ◌&&◌, ◌==◌, nat_eq,
}
use postara.Accounts.{AccountRecord, has_name, is_mailbox_name, own_account, is_users}
use postara.Accounts.Memory.{AccountService, update_name_for_user, get_for_user}
use postara.Accounts.Memory.Unique.{Clash, IsUnique, replace-IsUnique}
use postara.Dict
use postara.Dict.{Dict, values, get-any}

-- Each account stands under its id.
abbrev pub IsById : Dict ℕ AccountRecord → Type 0
IsById d = (i : ℕ) (x : AccountRecord) → Dict.get d i ≡ some x → x.id ≡ i

abbrev name_taken : ℕ → ℕ → String → AccountService → Bool
name_taken user_id account_id name s =
    any (λ (x : AccountRecord). not (x.id == account_id) && has_name (some user_id) name x)
      (values s.accounts)

abbrev Renamed : ℕ → ℕ → String → AccountService → Type 0
Renamed user_id account_id name s =
    (old : AccountRecord) × (own_account user_id (Dict.get s.accounts account_id) ≡ some old)
    × (name_taken user_id account_id name s ≡ false)
    × ((update_name_for_user user_id account_id name s).1.accounts
        ≡ Dict.put s.accounts account_id (record old { name = name }))

update_cases :
    (user_id account_id : ℕ) (name : String) (s : AccountService)
    → ((update_name_for_user user_id account_id name s).1.accounts ≡ s.accounts)
      ⊎ Renamed user_id account_id name s
unfolding update_name_for_user get_for_user
update_cases user_id account_id name s = elim (Bool-cases (is_mailbox_name name)) [
  | inr bad ↦ inl (rw (update_name_for_user, bad) refl)
  | inl good ↦ elim (Option-cases (own_account user_id (Dict.get s.accounts account_id))) [
    | inl e ↦ inl (rw (update_name_for_user, good, e) refl)
    | inr (old, e) ↦ elim (Bool-cases (name_taken user_id account_id name s)) [
      | inl taken ↦ inl (rw (update_name_for_user, good, e, taken) refl)
      | inr free ↦ inr (old, e, free, rw (update_name_for_user, good, e, free) refl)
    ]
  ]
]

own_account-held :
    (user_id : ℕ) (found : Option AccountRecord) (old : AccountRecord)
    → own_account user_id found ≡ some old
    → (found ≡ some old) × (old.user_id ≡ some user_id)
own_account-held user_id none old h = ground arith
own_account-held user_id (some x) old h = elim (Bool-cases (is_users (some user_id) x)) [
  | inl e ↦
      let same : some x ≡ some old = rw e at h in
      let the_same : x ≡ old = cc same in
      (
        same,
        subst (λ (z : AccountRecord). z.user_id ≡ some user_id) the_same
            ((option_eq.beq_iff x.user_id (some user_id)).0 e),
      )
  | inr e ↦ ground (arith, h, e)
]

renamed-apart :
    (user_id account_id : ℕ) (name : String) (s : AccountService) (old : AccountRecord)
    → IsUnique s.accounts
    → IsById s.accounts
    → Dict.get s.accounts account_id ≡ some old
    → old.user_id ≡ some user_id
    → name_taken user_id account_id name s ≡ false
    → (i : ℕ) (x : AccountRecord) → (account_id == i) ≡ false
    → Dict.get s.accounts i ≡ some x
    → Clash x (record old { name = name })
    → ⊥
renamed-apart user_id account_id name s old unique by_id held own free i x other found
      (owner, inl e) =
    let same : i ≡ account_id = unique i account_id x old found held (owner, inl e) in
    ground (arith, other, same)
renamed-apart user_id account_id name s old unique by_id held own free i x other found
      (owner, inr e) =
    let tested =
      get-any (λ (z : AccountRecord). not (z.id == account_id) && has_name (some user_id) name z)
        s.accounts i x free found in
    ground (
      arith,
      tested,
      other,
      by_id i x found,
      (string_eq.beq_iff x.name name).1 e,
      (option_eq.beq_iff x.user_id (some user_id)).1 (owner ∙ own),
    )

-- If no two accounts of one user have the same name or the same e-mail, in a service that keeps
-- each account under its id, that holds after `update_name_for_user` too, whether it returns or
-- raises.
pub update_name_for_user-IsUnique :
    (user_id account_id : ℕ) (name : String) (s : AccountService)
    → IsUnique s.accounts
    → IsById s.accounts
    → IsUnique (update_name_for_user user_id account_id name s).1.accounts
update_name_for_user-IsUnique user_id account_id name s unique by_id =
    elim (update_cases user_id account_id name s) [
      | inl e ↦ subst IsUnique (sym e) unique
      | inr (old, own, free, e) ↦
          let h = own_account-held user_id (Dict.get s.accounts account_id) old own in
          subst IsUnique (sym e) (
            replace-IsUnique s.accounts account_id (record old { name = name }) unique
              (renamed-apart user_id account_id name s old unique by_id h.0 h.1 free))
    ]
