-- ===== src/SafeHttp/Ranges.antt =====
-- The addresses that are blocked, as ranges of numbers (util/safehttp.go).
use revoked.Prelude.{
  ◌≡◌, refl, sym, ℕ, ◌+◌, ◌*◌, ◌/◌, ◌<◌, Bool, true, not, ◌&&◌, ◌||◌, some, [], ◌∷◌, eqb, leb, ltb,
  arith,
}
use revoked.SafeHttp.{Ip, is_blocked_ip}

abbrev pub v4 : ℕ → ℕ → ℕ → ℕ → Ip
v4 a b c d = a ∷ b ∷ c ∷ d ∷ []

-- The IPv4-mapped form of an address, `::ffff:a.b.c.d`.
abbrev pub mapped : ℕ → ℕ → ℕ → ℕ → Ip
mapped a b c d = 0 ∷ 0 ∷ 0 ∷ 0 ∷ 0 ∷ 0 ∷ 0 ∷ 0 ∷ 0 ∷ 0 ∷ 255 ∷ 255 ∷ a ∷ b ∷ c ∷ d ∷ []

-- The address as a number of 32 bits.
abbrev pub number : ℕ → ℕ → ℕ → ℕ → ℕ
number a b c d = a * 16777216 + b * 65536 + c * 256 + d

-- The range of a network: from its first address, so many addresses.
abbrev pub in_network : ℕ → ℕ → ℕ → Bool
in_network first_address size n = leb first_address n && ltb n (first_address + size)

-- 0.0.0.0/32, 169.254.0.0/16 and 224.0.0.0/4
abbrev pub never_allowed : ℕ → Bool
never_allowed n =
    in_network 0 1 n || in_network 2851995648 65536 n || in_network 3758096384 268435456 n

-- 127.0.0.0/8, 10.0.0.0/8, 172.16.0.0/12 and 192.168.0.0/16
abbrev pub operator_decides : ℕ → Bool
operator_decides n =
    in_network 2130706432 16777216 n
    || in_network 167772160 16777216 n
    || in_network 2886729728 1048576 n
    || in_network 3232235520 65536 n

-- An address and its IPv4-mapped form are judged alike.
pub same_verdict :
    (private_allowed : Bool) (a b c d : ℕ)
    → is_blocked_ip private_allowed (some (mapped a b c d))
      ≡ is_blocked_ip private_allowed (some (v4 a b c d))
unfolding is_blocked_ip
same_verdict private_allowed a b c d = refl

module _ (a b c d : ℕ) (a_byte : a < 256) (b_byte : b < 256) (c_byte : c < 256)
    (d_byte : d < 256) where
  zero_address :
      (eqb a 0 && (eqb b 0 && (eqb c 0 && (eqb d 0 && true)))) ≡ in_network 0 1 (number a b c d)
  zero_address = ground arith

  link_local : (eqb a 169 && eqb b 254) ≡ in_network 2851995648 65536 (number a b c d)
  link_local = ground arith

  multicast : eqb (a / 16) 14 ≡ in_network 3758096384 268435456 (number a b c d)
  multicast = ground arith

  loopback : eqb a 127 ≡ in_network 2130706432 16777216 (number a b c d)
  loopback = ground arith

  private_10 : eqb a 10 ≡ in_network 167772160 16777216 (number a b c d)
  private_10 = ground arith

  private_172 : (eqb a 172 && eqb (b / 16) 1) ≡ in_network 2886729728 1048576 (number a b c d)
  private_172 = ground arith

  private_192 : (eqb a 192 && eqb b 168) ≡ in_network 3232235520 65536 (number a b c d)
  private_192 = ground arith

  -- The ranges of the link-local multicast addresses are multicast.
  within_multicast : ((eqb a 224 && eqb b 0 && eqb c 0) || eqb (a / 16) 14) ≡ eqb (a / 16) 14
  within_multicast = ground arith

  -- For an address of version 4, given by its bytes, the verdict is that of the networks: the
  -- unspecified address, link-local and multicast addresses are always blocked, loopback and
  -- private ones unless the operator allows them, and no others.
  pub blocked_networks :
      (private_allowed : Bool)
      → is_blocked_ip private_allowed (some (v4 a b c d)) ≡ (
          never_allowed (number a b c d)
          || (operator_decides (number a b c d) && not private_allowed))
  unfolding is_blocked_ip
  blocked_networks private_allowed =
      rw
        (
          sym zero_address,
          sym link_local,
          sym multicast,
          sym loopback,
          sym private_10,
          sym private_172,
          sym private_192,
        )
        (ground arith)
