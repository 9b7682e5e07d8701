-- ===== src/Crypto.antt =====
-- src/postara/crypto.py: credentials are encrypted under numbered Fernet keys. The seed stands for
-- the random bytes and the time that Fernet puts into a token.
use postara.Errors.{credential_cipher, value_error, key_error}
use postara.Exec.{Outcome, returned, raised, Exec}
use postara.Prelude.{ℕ, String, inl, inr, none, some, arith, Option-cases, ◌≡◌, nat_eq}
use postara.Security.{Library}
use postara.Dict
use postara.Dict.{Dict}

pub record EncryptedCredential : Type 0 where
  pub ciphertext : String
  pub key_version : ℕ

pub record CredentialCipher : Type 0 where
  pub keys : Dict ℕ String
  pub active_version : ℕ

-- `CredentialCipher.__init__`
unfoldable pub new_cipher : Dict ℕ String → ℕ → Outcome CredentialCipher
new_cipher keys active_version = elim (Dict.get keys active_version) [
  | none ↦ raised value_error
  | some _ ↦ returned (record { keys = keys; active_version = active_version })
]

module _ (lib : Library) where
  -- Both methods are without effect, so that they run in any state.
  unfoldable pub encrypt : {S : Type 0} → CredentialCipher → ℕ → String → Exec S EncryptedCredential
  encrypt c seed plaintext s = elim (Dict.get c.keys c.active_version) [
    | none ↦ (raised key_error, s)
    | some key ↦ (
      returned (record {
        ciphertext = lib.fernet_encrypt key seed plaintext;
        key_version = c.active_version;
      }),
      s,
    )
  ]

  unfoldable pub decrypt : {S : Type 0} → CredentialCipher → String → ℕ → Exec S String
  decrypt c ciphertext key_version s = elim (Dict.get c.keys key_version) [
    | none ↦ (raised credential_cipher, s)
    | some key ↦ elim (lib.fernet_decrypt key ciphertext) [
      | none ↦ (raised credential_cipher, s)
      | some plaintext ↦ (returned plaintext, s)
    ]
  ]

  -- A credential that one cipher has encrypted is decrypted to the same text by any cipher that
  -- still has the key of its version, whichever version is active there.
  pub decrypt-encrypt :
      (old new : CredentialCipher) (seed : ℕ) (plain : String) (e : EncryptedCredential)
      → (encrypt {S = Unit {0}} old seed plain tt).0 ≡ returned e
      → Dict.get new.keys e.key_version ≡ Dict.get old.keys e.key_version
      → (decrypt {S = Unit {0}} new e.ciphertext e.key_version tt).0 ≡ returned plain
  unfolding encrypt decrypt
  decrypt-encrypt old new seed plain e made kept =
      elim (Option-cases (Dict.get old.keys old.active_version)) [
        | inl missing ↦ ground (arith, made, missing)
        | inr (key, found) ↦ ground (arith, made, kept, found, lib.fernet_right key seed plain)
      ]
