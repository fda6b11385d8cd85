-- ===== src/Ports/Overlap.antt =====
-- crates/kakoi-policy/src/network/ports.rs: what `overlaps` decides.
use kakoi.Prelude.{
  ℕ, zero, suc, ◌+◌, ◌≤◌, ◌<◌, Bool, true, false, Option, some, List, [], ◌∷◌, any, length, leb,
  ltb, All, All-map, ◌≡◌, refl, ◌⊎◌, inl, inr, arith, Bool-cases,
}
use kakoi.Ports.{PortRange, range_has, has_port, overlap_loop, overlaps}

-- Ranges that are not reversed, each after the ones before it.
abbrev pub Ascending : List PortRange → Type 0
Ascending [] = Unit
Ascending (r ∷ ranges) = (r.0 ≤ r.1) × All (λ z. r.1 < z.0) ranges × Ascending ranges

-- A port that both sides hold.
abbrev pub Shared : List PortRange → List PortRange → Type 0
Shared left right = (port : ℕ) × (has_port left port ≡ true) × (has_port right port ≡ true)

has_port_after :
    (port : ℕ) (ranges : List PortRange)
    → All (λ z. port < z.0) ranges
    → has_port ranges port ≡ false
unfolding any
has_port_after port [] h = refl
has_port_after port ((first, last) ∷ ranges) h = ground (arith, has_port_after port ranges h.1, h.0)

below_first :
    (port : ℕ) (r : PortRange) (ranges : List PortRange)
    → Ascending (r ∷ ranges)
    → port < r.0
    → has_port (r ∷ ranges) port ≡ false
below_first port r ranges h k =
    has_port_after port (r ∷ ranges) (k, All-map ranges (λ z b. omega (arith, h.0)) h.1)

skip :
    (a b : PortRange) (left right : List PortRange)
    → Ascending (b ∷ right)
    → a.1 < b.0
    → Shared (a ∷ left) (b ∷ right)
    → Shared left (b ∷ right)
unfolding any
skip a b left right h k (port, in_left, in_right) = elim (Bool-cases (range_has port a)) [
  | inl inside ↦ absurd (cc (below_first port b right h (ground arith)))
  | inr outside ↦ (port, ground arith, in_right)
]

swap : (left right : List PortRange) → Shared left right → Shared right left
swap left right (port, p, q) = (port, q, p)

more : (a : PortRange) (left right : List PortRange) → Shared left right → Shared (a ∷ left) right
unfolding any
more a left right (port, p, q) = (port, ground arith, q)

abbrev Answers : List PortRange → List PortRange → Option Bool → Type 0
Answers left right o =
    ((o ≡ some true) × Shared left right) ⊎ ((o ≡ some false) × ¬ Shared left right)

meeting :
    (a b : PortRange) (left right : List PortRange)
    → a.0 ≤ a.1
    → b.0 ≤ b.1
    → b.0 ≤ a.1
    → a.0 ≤ b.1
    → Shared (a ∷ left) (b ∷ right)
unfolding any
meeting a b left right h k m n = elim (Bool-cases (leb a.0 b.0)) [
  | inl first ↦ (b.0, ground arith, ground arith)
  | inr later ↦ (a.0, ground arith, ground arith)
]

loop-Answers :
    (fuel : ℕ) (left right : List PortRange)
    → Ascending left
    → Ascending right
    → length left + length right < fuel
    → Answers left right (overlap_loop fuel left right)
unfolding overlap_loop any
loop-Answers zero left right h k f = absurd (omega arith)
loop-Answers (suc fuel) [] right h k f = inr (refl, λ (port, p, q). cc)
loop-Answers (suc fuel) (a ∷ left) [] h k f = inr (refl, λ (port, p, q). cc)
loop-Answers (suc fuel) (a ∷ left) (b ∷ right) h k f = elim (Bool-cases (ltb a.1 b.0)) [
  | inl before ↦ elim (loop-Answers fuel left (b ∷ right) h.2 k (omega arith)) [
    | inl (e, s) ↦ inl (rw (before, overlap_loop) e, more a left (b ∷ right) s)
    | inr (e, n) ↦
        inr (rw (before, overlap_loop) e, λ s. n (skip a b left right k (ground arith) s))
  ]
  | inr apart ↦ elim (Bool-cases (ltb b.1 a.0)) [
    | inl after ↦ elim (loop-Answers fuel (a ∷ left) right h k.2 (omega arith)) [
      | inl (e, s) ↦ inl (
        rw (apart, after, overlap_loop) e,
        swap (b ∷ right) (a ∷ left) (more b right (a ∷ left) (swap (a ∷ left) right s)),
      )
      | inr (e, n) ↦ inr (
        rw (apart, after, overlap_loop) e,
        λ s. n (
            swap right (a ∷ left)
              (skip b a right left h (ground arith) (swap (a ∷ left) (b ∷ right) s))),
      )
    ]
    | inr meets ↦ inl (
      rw (apart, meets, overlap_loop) refl,
      meeting a b left right h.0 k.0 (ground arith) (ground arith),
    )
  ]
]

-- On two sets of ports whose ranges are in order and apart, `overlaps` ends, and its answer is `true`
-- exactly when some port is in both.
pub overlaps-decides :
    (left right : List PortRange)
    → Ascending left
    → Ascending right
    → ((overlaps left right ≡ some true) × Shared left right)
      ⊎ ((overlaps left right ≡ some false) × ¬ Shared left right)
unfolding overlaps
overlaps-decides left right h k =
    loop-Answers (suc (length left + length right)) left right h k (omega arith)
