-- ===== src/AuthProtection/Peer.antt =====
-- `resolve_client_ip` of src/postara/auth_protection.py: the client behind trusted proxies.
use Prim.Native.Char.{code}
use postara.Prelude.{
  String, refl, subst, inl, inr, Bool, false, not, Option, none, some, List, arith, string_eq,
  Bool-cases, any, ◌≡◌, ◌||◌, if◌then◌else◌, ◌==◌, nat_eq,
}
use postara.Text.{strip, ◌<>◌}
use postara.AuthProtection.{Network, not_an_address, ipv4, ipv6}
use postara.Dict
use postara.Dict.{Dict}

-- A text that is no network is in none, so `in_network` of it is false.
unfoldable pub is_trusted_proxy : Network → String → List String → Bool
is_trusted_proxy n peer_ip cidrs = elim (n.ip_address peer_ip) [
  | not_an_address ↦ false
  | ipv4 _ ↦ any (n.in_network peer_ip) cidrs
  | ipv6 _ ↦ any (n.in_network peer_ip) cidrs
]

-- `s.split(",", 1)[0]`
unfoldable pub before_comma : String → String
before_comma String.[] = ""
before_comma (String.◌∷◌ c s) =
    let rest = before_comma s in if code c == b',' then "" else String.◌∷◌ c rest

-- `headers.get(name)`, where the empty text counts as none.
abbrev pub given_header : Dict String String → String → Option String
given_header headers name = elim (Dict.get headers name) [
  | none ↦ none
  | some value ↦ if value == "" then none else some value
]

unfoldable pub resolve_client_ip : Network → String → Dict String String → List String → String
resolve_client_ip n peer_ip headers trusted_proxy_cidrs =
    if not (is_trusted_proxy n peer_ip trusted_proxy_cidrs)
    then peer_ip
    else elim (given_header headers "cf-connecting-ip") [
      | some cf_ip ↦ strip n.unicode cf_ip
      | none ↦ elim (given_header headers "x-forwarded-for") [
        | some forwarded_for ↦ strip n.unicode (before_comma forwarded_for)
        | none ↦ peer_ip
      ]
    ]

abbrev pub has_comma : String → Bool
has_comma String.[] = false
has_comma (String.◌∷◌ c s) = (code c == b',') || has_comma s

before_comma-append : (a b : String) → has_comma a ≡ false → before_comma (a <> ("," <> b)) ≡ a
unfolding before_comma
before_comma-append String.[] b h = refl
before_comma-append (String.◌∷◌ c a) b h = elim (Bool-cases (code c == b',')) [
  | inl comma ↦ ground (arith, h, comma)
  | inr plain ↦
      let rest : before_comma (a <> ("," <> b)) ≡ a =
        before_comma-append a b (ground (arith, h, plain)) in
      rw (plain, rest) refl
]

abbrev IsFull : String → Type 0
IsFull String.[] = ⊥
IsFull (String.◌∷◌ c s) = Unit

two_entries-IsFull : (a b : String) → IsFull (a <> ("," <> b))
two_entries-IsFull String.[] b = tt
two_entries-IsFull (String.◌∷◌ c a) b = tt

two_entries : (a b : String) → ((a <> ("," <> b)) == "") ≡ false
two_entries a b = elim (Bool-cases ((a <> ("," <> b)) == "")) [
  | inl same ↦
      let absurd : ⊥ =
        subst IsFull ((string_eq.beq_iff (a <> ("," <> b)) "").0 same) (two_entries-IsFull a b) in
      elim absurd [ ]
  | inr full ↦ full
]

abbrev pub forwarded : Dict String String → String → String → Dict String String
forwarded headers chosen appended = Dict.put headers "x-forwarded-for" (chosen <> ("," <> appended))

-- Where a client sends an X-Forwarded-For without a comma, proxies have appended whatever they may,
-- and there is no header of Cloudflare: behind a trusted proxy the client is counted under the entry
-- that it sent itself, without its blanks, and else, whatever it sent, under the address of the
-- peer.
pub resolve_client_ip-forwarded :
    (n : Network) (peer_ip chosen appended : String) (headers : Dict String String)
    (cidrs : List String)
    → given_header headers "cf-connecting-ip" ≡ none
    → has_comma chosen ≡ false
    → resolve_client_ip n peer_ip (forwarded headers chosen appended) cidrs
      ≡ (if is_trusted_proxy n peer_ip cidrs then strip n.unicode chosen else peer_ip)
unfolding resolve_client_ip
resolve_client_ip-forwarded n peer_ip chosen appended headers cidrs no_cf plain =
    let value = chosen <> ("," <> appended) in
    let cf : Dict.get (forwarded headers chosen appended) "cf-connecting-ip"
        ≡ Dict.get headers "cf-connecting-ip" =
      Dict.get-put headers "x-forwarded-for" "cf-connecting-ip" value in
    let xff : Dict.get (forwarded headers chosen appended) "x-forwarded-for" ≡ some value =
      Dict.get-put_self headers "x-forwarded-for" value in
    elim (Bool-cases (is_trusted_proxy n peer_ip cidrs)) [
      | inr untrusted ↦ rw (resolve_client_ip, untrusted) refl
      | inl trusted ↦
          rw
            (
              resolve_client_ip,
              trusted,
              cf,
              no_cf,
              xff,
              two_entries chosen appended,
              before_comma-append chosen appended plain,
            )
            refl
    ]
