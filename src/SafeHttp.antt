-- ===== src/SafeHttp.antt =====
-- Which addresses a callback may reach (util/safehttp.go). An address is its bytes, as in `net.IP`.
pub mod Ranges
mod Tests
use revoked.Prelude.{
  ◌≡◌, ℕ, ◌+◌, ◌*◌, ◌/◌, ◌%◌, String, Bool, true, false, not, ◌&&◌, ◌||◌, Option, none, some, List,
  [], ◌∷◌, ◌==◌, all, eqb, take, drop, length, if◌then◌else◌,
}

abbrev pub Ip : Type 0
Ip = List ℕ

abbrev pub all_zero : List ℕ → Bool
all_zero bytes = all (λ b. eqb b 0) bytes

abbrev pub is_mapped : Ip → Bool
is_mapped ip =
    eqb (length ip) 16 && all_zero (take 10 ip) && all (λ b. eqb b 255) (take 2 (drop 10 ip))

-- `To4`
abbrev pub to4 : Ip → Option Ip
to4 ip = if eqb (length ip) 4 then some ip else if is_mapped ip then some (drop 12 ip) else none

-- A test on the four bytes of an address of version 4, and one on the first two of version 6.
abbrev pub by_version : (ℕ → ℕ → ℕ → Bool) → (ℕ → ℕ → Bool) → Ip → Bool
by_version test4 test6 ip = elim (to4 ip) [
  | none ↦
      if not (eqb (length ip) 16)
      then false
      else elim ip [ [] ↦ false | a ∷ rest ↦ elim rest [ [] ↦ false | b ∷ more ↦ test6 a b ] ]
  | some v4 ↦ elim v4 [
    | [] ↦ false
    | a ∷ rest ↦ elim rest [
      | [] ↦ false
      | b ∷ more ↦ elim more [ [] ↦ false | c ∷ last ↦ test4 a b c ]
    ]
  ]
]

-- `IsLinkLocalUnicast`, `IsLinkLocalMulticast`, `IsInterfaceLocalMulticast`, `IsMulticast`,
-- `IsUnspecified`, `IsLoopback` and `IsPrivate` of Go's `net`; a mask of high bits is a quotient.
abbrev pub is_link_local_unicast : Ip → Bool
is_link_local_unicast ip =
    by_version (λ a b c. eqb a 169 && eqb b 254) (λ a b. eqb a 254 && eqb (b / 64) 2) ip

abbrev pub is_link_local_multicast : Ip → Bool
is_link_local_multicast ip =
    by_version (λ a b c. eqb a 224 && eqb b 0 && eqb c 0) (λ a b. eqb a 255 && eqb (b % 16) 2) ip

abbrev pub is_interface_local_multicast : Ip → Bool
is_interface_local_multicast ip =
    by_version (λ a b c. false) (λ a b. eqb a 255 && eqb (b % 16) 1) ip

abbrev pub is_multicast : Ip → Bool
is_multicast ip = by_version (λ a b c. eqb (a / 16) 14) (λ a b. eqb a 255) ip

abbrev pub is_unspecified : Ip → Bool
is_unspecified ip = elim (to4 ip) [
  | none ↦ eqb (length ip) 16 && all_zero ip
  | some v4 ↦ all_zero v4
]

abbrev pub is_loopback : Ip → Bool
is_loopback ip = elim (to4 ip) [
  | none ↦ eqb (length ip) 16 && all_zero (take 15 ip) && all (λ b. eqb b 1) (drop 15 ip)
  | some v4 ↦ elim v4 [ [] ↦ false | a ∷ rest ↦ eqb a 127 ]
]

abbrev pub is_private : Ip → Bool
is_private ip =
    by_version (λ a b c. eqb a 10 || (eqb a 172 && eqb (b / 16) 1) || (eqb a 192 && eqb b 168))
      (λ a b. eqb (a / 2) 126) ip

abbrev pub is_unique_local : Ip → Bool
is_unique_local ip = eqb (length ip) 16 && (elim ip [ [] ↦ false | a ∷ rest ↦ eqb (a / 2) 126 ])

abbrev pub or_mapped : Ip → Ip
or_mapped ip = elim (to4 ip) [ none ↦ ip | some v4 ↦ v4 ]

-- `PrivateCallbacksAllowed`, of the environment variable, trimmed and in lower case
abbrev pub private_callbacks_allowed : String → Bool
private_callbacks_allowed v = v == "1" || v == "true" || v == "yes"

-- `isBlockedIP`, where private callbacks are allowed or not; `none` is the nil address
unfoldable pub is_blocked_ip : Bool → Option Ip → Bool
is_blocked_ip private_allowed none = true
is_blocked_ip private_allowed (some ip) =
    if is_link_local_unicast ip
      || is_link_local_multicast ip
      || is_interface_local_multicast ip
      || is_multicast ip
      || is_unspecified ip
    then true
    else if is_loopback ip
    then not private_allowed
    else if is_private (or_mapped ip)
    then not private_allowed
    else if is_unique_local (or_mapped ip)
    then not private_allowed
    else false

-- Functions of Go's `net` and `net/url`.
pub record Library : Type 0 where
  -- `url.Parse` of the trimmed text, where it is absolute: its scheme and `Hostname`
  pub parse_absolute : String → Option (String × String)
  -- `net.SplitHostPort` and `net.ParseIP`
  pub split_host : String → Option String
  pub parse_ip : String → Option Ip

-- `ValidateCallbackURL`: whether the target passes.
unfoldable pub validate_callback_url : Library → Bool → String → Bool
unfolding is_blocked_ip
validate_callback_url lib private_allowed raw = elim (lib.parse_absolute raw) [
  | none ↦ false
  | some target ↦
      if not (target.0 == "http") && not (target.0 == "https")
      then false
      else if target.1 == ""
      then false
      else elim (lib.parse_ip target.1) [
        | none ↦ true
        | some ip ↦ not (is_blocked_ip private_allowed (some ip))
      ]
]

-- The dialer's `Control`: whether the connection is made.
unfoldable pub control : Library → Bool → String → String → Bool
unfolding is_blocked_ip
control lib private_allowed network address =
    if not (network == "tcp4") && not (network == "tcp6") && not (network == "tcp")
    then false
    else elim (lib.split_host address) [
      | none ↦ false
      | some host ↦ not (is_blocked_ip private_allowed (lib.parse_ip host))
    ]
