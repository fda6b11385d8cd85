-- ===== src/Ports/Laws.antt =====
-- crates/kakoi-policy/src/network/ports.rs: merging the ranges changes no port.
use kakoi.Prelude.{
  ℕ, ◌≤◌, Bool, true, false, not, all, ◌||◌, List, [], ◌∷◌, any, any-of, any-true, leb, ltb,
  if◌then◌else◌, sort_by, sort_by-IsSorted, sort_by-All, All-map, subst, ◌==◌, list_eq, nat_eq,
  In-sort_by, sort_by-In, IsSorted, All, ◌≡◌, refl, sym, ◌∙◌, ap, inl, inr, arith, Bool-cases, ok,
  ok_same, Result-cases,
}
use kakoi.Policy.{Text, codes}
use kakoi.Ports.{
  PortRange, last_port, range_has, has_port, range_le, next_port, merge_from, merge_ranges, number,
  sides, parse_range, parse_ranges, try_from, starts_with_zero, digit, value_of,
}

-- Ranges that are not reversed and end at a port.
abbrev AreRanges : List PortRange → Type 0
AreRanges ranges = All (λ r. (r.0 ≤ r.1) × (r.1 ≤ last_port)) ranges

total : (a b : PortRange) → range_le a b ≡ false → range_le b a ≡ true
total (a, b) (c, d) h = ground arith

trans : (a b c : PortRange) → range_le a b ≡ true → range_le b c ≡ true → range_le a c ≡ true
trans (a, b) (c, d) (e, f) h k = ground arith

join_ranges :
    (port first last start end : ℕ)
    → first ≤ start
    → first ≤ last
    → start ≤ end
    → end ≤ last_port
    → leb start (next_port last) ≡ true
    → range_has port (first, if ltb last end then end else last)
      ≡ (range_has port (first, last) || range_has port (start, end))
join_ranges port first last start end h k o l n = ground arith

or_assoc : (a b c : Bool) → (a || b) || c ≡ a || (b || c)
or_assoc true b c = refl
or_assoc false b c = refl

-- The range that comes first starts no later than the others.
starts_first :
    (range : PortRange) (ranges : List PortRange)
    → All (λ r. range_le range r ≡ true) ranges
    → All (λ r. range.0 ≤ r.0) ranges
starts_first range ranges h = All-map ranges (λ r e. ground arith) h

merge_from-has_port :
    (port first last : ℕ) (ranges : List PortRange)
    → first ≤ last
    → last ≤ last_port
    → All (λ r. first ≤ r.0) ranges
    → IsSorted range_le ranges
    → AreRanges ranges
    → has_port (merge_from (first, last) ranges) port
      ≡ (range_has port (first, last) || has_port ranges port)
unfolding merge_from any
merge_from-has_port port first last [] k l f s r = refl
merge_from-has_port port first last ((start, end) ∷ ranges) k l f s r =
    elim (Bool-cases (leb start (next_port last))) [
      | inl joined ↦
          let both = join_ranges port first last start end f.0 k r.0.0 r.0.1 joined in
          let rest =
            merge_from-has_port port first (if ltb last end then end else last) ranges
              (ground arith) (ground arith) f.1 s.1 r.1 in
          rw (joined, merge_from)
            (rest
              ∙ ap (λ z. z || has_port ranges port) both
              ∙ or_assoc (range_has port (first, last)) _ _)
      | inr apart ↦
          let rest =
            merge_from-has_port port start end ranges r.0.0 r.0.1
              (starts_first (start, end) ranges s.0) s.1 r.1 in
          rw (apart, merge_from) (ap (λ z. range_has port (first, last) || z) rest)
    ]

same_members :
    (port : ℕ) (ranges : List PortRange)
    → has_port (sort_by range_le ranges) port ≡ has_port ranges port
same_members port ranges = elim (Bool-cases (has_port ranges port)) [
  | inl found ↦
      let (r, m, q) = any-true (range_has port) ranges found in
      any-of (range_has port) (sort_by range_le ranges) (In-sort_by range_le ranges m) q ∙ sym found
  | inr absent ↦ elim (Bool-cases (has_port (sort_by range_le ranges) port)) [
    | inl found ↦
        let (r, m, q) = any-true (range_has port) (sort_by range_le ranges) found in
        let back = any-of (range_has port) ranges (sort_by-In range_le ranges m) q in cc
    | inr gone ↦ gone ∙ sym absent
  ]
]

merge_ranges-has_port :
    (port : ℕ) (ranges : List PortRange)
    → IsSorted range_le ranges
    → AreRanges ranges
    → has_port (merge_ranges ranges) port ≡ has_port ranges port
unfolding merge_ranges any
merge_ranges-has_port port [] s r = refl
merge_ranges-has_port port ((first, last) ∷ ranges) s r =
    merge_from-has_port port first last ranges r.0.0 r.0.1 (starts_first (first, last) ranges s.0)
      s.1 r.1

number-ok : (text : Text) {n : ℕ} → number text ≡ ok n → n ≤ last_port
unfolding number
number-ok text {n} h =
    let bad = starts_with_zero text || (text == [] || not (all digit text)) in
    elim (Bool-cases bad) [
      | inl yes_bad ↦ absurd (cc (rw yes_bad at h))
      | inr fine ↦ elim (Bool-cases (leb (value_of 0 text) last_port)) [
        | inl small ↦
            let same : value_of 0 text ≡ n = ok_same (rw (fine, small) at h) in
            subst (λ z. z ≤ last_port) same (ground arith)
        | inr large ↦ absurd (cc (rw (fine, large) at h))
      ]
    ]

parse_range-ok :
    (item : Text) {range : PortRange}
    → parse_range item ≡ ok range
    → (range.0 ≤ range.1) × (range.1 ≤ last_port)
unfolding parse_range
parse_range-ok item {range} h = elim (Result-cases (number (sides item).0)) [
  | inl (e, f) ↦ absurd (cc (rw (f, parse_range) at h))
  | inr (first, f) ↦ elim (Result-cases (number (sides item).1)) [
    | inl (e, g) ↦ absurd (cc (rw (f, g, parse_range) at h))
    | inr (last, g) ↦ elim (Bool-cases (ltb last first)) [
      | inl swapped ↦ absurd (cc (rw (f, g, swapped, parse_range) at h))
      | inr ordered ↦
          let same : (first, last) ≡ range = ok_same (rw (f, g, ordered, parse_range) at h) in
          subst (λ (z : PortRange). (z.0 ≤ z.1) × (z.1 ≤ last_port)) same
            (ground arith, number-ok (sides item).1 g)
    ]
  ]
]

parse_ranges-AreRanges :
    (items : List Text) {ranges : List PortRange}
    → parse_ranges items ≡ ok ranges
    → AreRanges ranges
unfolding parse_ranges
parse_ranges-AreRanges [] h = subst AreRanges (ok_same h) tt
parse_ranges-AreRanges (item ∷ items) h = elim (Result-cases (parse_range item)) [
  | inl (e, f) ↦ absurd (cc (rw (f, parse_ranges) at h))
  | inr (range, f) ↦ elim (Result-cases (parse_ranges items)) [
    | inl (e, g) ↦ absurd (cc (rw (f, g, parse_ranges) at h))
    | inr (ranges, g) ↦
        subst AreRanges (ok_same (rw (f, g, parse_ranges) at h))
          (parse_range-ok item f, parse_ranges-AreRanges items g)
  ]
]

-- When the items of a set of ports parse, as something other than the one item `*`, the set holds a
-- port exactly when one of the parsed ranges does: sorting and merging them changes no port.
pub try_from-has_port :
    (items : List Text) (port : ℕ) {ports ranges : List PortRange}
    → try_from items ≡ ok ports
    → (items == codes "*" ∷ []) ≡ false
    → parse_ranges items ≡ ok ranges
    → has_port ports port ≡ has_port ranges port
unfolding try_from
try_from-has_port items port {ports} {ranges} h n p = elim (Bool-cases (items == [])) [
  | inl none_at_all ↦ absurd (cc (rw none_at_all at h))
  | inr some_item ↦
      let made : merge_ranges (sort_by range_le ranges) ≡ ports =
        ok_same (rw (some_item, n, p) at h) in
      ap (λ z. has_port z port) (sym made)
      ∙ merge_ranges-has_port port (sort_by range_le ranges)
          (sort_by-IsSorted range_le total trans ranges)
          (sort_by-All range_le (λ r. (r.0 ≤ r.1) × (r.1 ≤ last_port)) ranges
            (parse_ranges-AreRanges items p))
      ∙ same_members port ranges
]
