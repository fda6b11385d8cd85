-- ===== src/Network/Address/Laws.antt =====
-- crates/kakoi-policy/src/network/address.rs: a network without host bits holds the addresses with its
-- first bits.
use native.Mathlib.Nat
use kakoi.Prelude.{
  ℕ, zero, suc, ◌+◌, ◌*◌, ◌-◌, ◌/◌, ◌%◌, ◌^◌, ◌≤◌, ◌<◌, true, ◌&&◌, eqb, leb, ltb, ok, ok_same,
  ◌==◌, eq_of, eq_refl, ◌≡◌, sym, ◌∙◌, ap, subst, ◌↔◌, inl, inr, arith, Bool-cases,
}
use kakoi.Net.Leases.{IpAddr, v4, v6, ip_eq, to_canonical}
use kakoi.Network.Address.{
  IpNetwork, width, clear_low, masked, network_has, network_contains, mapped_range, network_of,
}

pow_pos : (k : ℕ) → 0 < 2 ^ k
pow_pos k = Nat.one-le-pow k 2 (omega arith)

same_factor : (d x y : ℕ) → 0 < d → x * d ≡ y * d → x ≡ y
same_factor d x y h p = grind arith

same_block : (a n k : ℕ) → clear_low n k ≡ n → (clear_low a k ≡ n) ↔ (a / 2 ^ k ≡ n / 2 ^ k)
same_block a n k h = (
  λ p. same_factor (2 ^ k) (a / 2 ^ k) (n / 2 ^ k) (pow_pos k) (p ∙ sym h),
  λ p. ap (λ z. z * 2 ^ k) p ∙ h,
)

-- Two addresses of one family whose first `prefix` bits are the same.
pub data SameStart : IpAddr → ℕ → IpAddr → Type 0 where
  both_v4 :
      {n a prefix : ℕ}
      → a / 2 ^ (32 - prefix) ≡ n / 2 ^ (32 - prefix)
      → SameStart (v4 n) prefix (v4 a)
  both_v6 :
      {n a prefix : ℕ}
      → a / 2 ^ (128 - prefix) ≡ n / 2 ^ (128 - prefix)
      → SameStart (v6 n) prefix (v6 a)

v4_of : {a b : ℕ} → v4 a ≡ v4 b → a ≡ b
v4_of h = cc

v6_of : {a b : ℕ} → v6 a ≡ v6 b → a ≡ b
v6_of h = cc

has-SameStart :
    (n : IpAddr) (prefix : ℕ) (a : IpAddr)
    → masked n prefix ≡ n
    → (network_has (record { address = n; prefix = prefix }) a ≡ true) ↔ SameStart n prefix a
unfolding masked
has-SameStart (v4 n) prefix (v4 a) w = (
  λ h.
      both_v4 (
        (same_block a n (32 - prefix) (v4_of w)).0 (v4_of (eq_of (masked (v4 a) prefix) (v4 n) h))),
  λ s. elim s [ both_v4 p ↦ rw ((same_block a n (32 - prefix) (v4_of w)).1 p) (eq_refl (v4 n)) ],
)
has-SameStart (v6 n) prefix (v6 a) w = (
  λ h.
      both_v6 (
        (same_block a n (128 - prefix) (v6_of w)).0
          (v6_of (eq_of (masked (v6 a) prefix) (v6 n) h))),
  λ s. elim s [ both_v6 p ↦ rw ((same_block a n (128 - prefix) (v6_of w)).1 p) (eq_refl (v6 n)) ],
)
has-SameStart (v4 n) prefix (v6 a) w = (λ h. absurd (cc h), λ p. elim p [ ])
has-SameStart (v6 n) prefix (v4 a) w = (λ h. absurd (cc h), λ p. elim p [ ])

-- A network whose address has no host bits contains an address exactly when the address in canonical
-- form is of the network's family and has the same first bits, as many as the prefix says.
pub network_contains-decides :
    (network : IpNetwork) (address : IpAddr)
    → masked network.address network.prefix ≡ network.address
    → (network_contains network address ≡ true)
      ↔ SameStart network.address network.prefix (to_canonical address)
unfolding network_contains
network_contains-decides network address w =
    has-SameStart network.address network.prefix (to_canonical address) w

cleared_multiple : (y d : ℕ) → 0 < d → y * d / d * d ≡ y * d
cleared_multiple y d h = grind arith

pow_split : (k j : ℕ) → 2 ^ (k + j) ≡ 2 ^ k * 2 ^ j
pow_split zero j = ap (λ z. 2 ^ z) zero_add ∙ omega arith
  where
    zero_add : 0 + j ≡ j
    zero_add = omega arith
pow_split (suc k) j =
    let step : suc k + j ≡ suc (k + j) = omega arith in
    let outer = Nat.two-pow-succ (k + j) in
    let inner = Nat.two-pow-succ k in
    let ih = pow_split k j in ap (λ z. 2 ^ z) step ∙ grind (arith, outer, inner, ih)

sub_factor : (x y d : ℕ) → x * d - y * d ≡ (x - y) * d
sub_factor x y d = let law = Nat.mul-sub d x y in grind (arith, law)

rest_of : (a m q : ℕ) → a / m ≡ q → a % m ≡ a - q * m
rest_of a m q h = Nat.mod-eq-sub-div-mul a m ∙ ap (λ z. a - z * m) h

low_block :
    (a d e m : ℕ) → 0 < d → m ≡ e * d → a / m ≡ 65535 → a / d * d ≡ a → a % m / d * d ≡ a % m
low_block a d e m pos split top cleared =
    let front : 65535 * m ≡ (65535 * e) * d = grind (arith, split) in
    let low : a % m ≡ (a / d - 65535 * e) * d =
      rest_of a m 65535 top
      ∙ ap (λ z. a - z) front
      ∙ ap (λ z. z - (65535 * e) * d) (sym cleared)
      ∙ sub_factor (a / d) (65535 * e) d in
    subst (λ z. z / d * d ≡ z) (sym low) (cleared_multiple (a / d - 65535 * e) d pos)

-- The low 32 bits of a mapped address have no host bits when the whole has none.
mapped_cleared :
    (a k : ℕ)
    → k ≤ 32
    → a / 2 ^ 32 ≡ 65535
    → clear_low a k ≡ a
    → clear_low (a % 2 ^ 32) k ≡ a % 2 ^ 32
mapped_cleared a k h m c =
    let whole : 32 ≡ (32 - k) + k = omega (arith, h) in
    let split : 2 ^ 32 ≡ 2 ^ (32 - k) * 2 ^ k = ap (λ z. 2 ^ z) whole ∙ pow_split (32 - k) k in
    low_block a (2 ^ k) (2 ^ (32 - k)) (2 ^ 32) (pow_pos k) split m c

-- A network with no host bits, whose prefix is no longer than its address.
abbrev IsNetwork : IpNetwork → Type 0
IsNetwork network =
    (masked network.address network.prefix ≡ network.address)
    × (network.prefix ≤ width network.address)

mapped_range-IsNetwork :
    (address : IpAddr) (prefix : ℕ)
    → masked address prefix ≡ address
    → prefix ≤ width address
    → IsNetwork (mapped_range address prefix)
unfolding masked
mapped_range-IsNetwork (v4 a) prefix w h = (w, h)
mapped_range-IsNetwork (v6 a) prefix w h =
    elim (Bool-cases (eqb (a / 2 ^ 32) 65535 && leb 96 prefix)) [
      | inr plain ↦ rw plain (w, h)
      | inl mapped ↦
          let top : a / 2 ^ 32 ≡ 65535 = ground (arith, mapped) in
          let long : 96 ≤ prefix = ground (arith, mapped) in
          let bits : 128 - prefix ≡ 32 - (prefix - 96) = omega (arith, long) in
          let low = mapped_cleared a (128 - prefix) (omega (arith, long)) top (v6_of w) in
          rw mapped
            (ap v4 (subst (λ z. clear_low (a % 2 ^ 32) z ≡ a % 2 ^ 32) bits low), omega (arith, h))
    ]

-- Every network that the checks accept for an address and a prefix has no host bits, and its prefix is
-- at most 32 for IPv4 and at most 128 for IPv6, also when an IPv4-mapped range became an IPv4 range.
network_of-IsNetwork :
    (address : IpAddr) (prefix : ℕ) {network : IpNetwork}
    → network_of address prefix ≡ ok network
    → IsNetwork network
unfolding network_of
network_of-IsNetwork address prefix h = elim (Bool-cases (ltb (width address) prefix)) [
  | inl large ↦ absurd (cc (rw large at h))
  | inr fits ↦ elim (Bool-cases (masked address prefix == address)) [
    | inr dirty ↦ absurd (cc (rw (fits, dirty) at h))
    | inl clean ↦ subst IsNetwork (ok_same (rw (fits, clean) at h)) (
        mapped_range-IsNetwork address prefix (eq_of (masked address prefix) address clean)
          (ground (arith, fits)))
  ]
]
