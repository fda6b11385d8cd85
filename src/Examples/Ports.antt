-- ===== src/Examples/Ports.antt =====
-- The theorems on sets of ports at small sets.
use kakoi.Prelude.{
  true, false, ◌⊎◌, some, arith, ◌≡◌, refl, List, [], ◌∷◌, ok, sort_by, all, list_beq, list_eq,
  nat_eq,
}
use kakoi.Policy.{Text, codes}
use kakoi.Guard.Words.{split_once}
use kakoi.Ports.{
  PortRange, has_port, number, parse_range, parse_ranges, merge_from, merge_ranges, try_from,
}
use kakoi.Ports.Laws.{try_from-has_port}
use kakoi.Ports.{overlaps}
use kakoi.Ports.Overlap.{Ascending, Shared, overlaps-decides}

abbrev items : List Text
items = codes "443" ∷ codes "80" ∷ codes "81-90" ∷ []

abbrev ranges : List PortRange
ranges = (443, 443) ∷ (80, 80) ∷ (81, 90) ∷ []

parsed : parse_ranges items ≡ ok ranges
unfolding parse_ranges parse_range number split_once list_beq all
parsed = refl

merged : try_from items ≡ ok ((80, 90) ∷ (443, 443) ∷ [])
unfolding try_from parse_ranges parse_range number split_once list_beq all merge_ranges merge_from
    sort_by
merged = refl

try_from-has_port_example : has_port ((80, 90) ∷ (443, 443) ∷ []) 85 ≡ has_port ranges 85
unfolding list_beq
try_from-has_port_example = try_from-has_port items 85 merged refl parsed

ascending : Ascending ((80, 90) ∷ (443, 443) ∷ [])
ascending = (omega arith, (omega arith, tt), (omega arith, tt, tt))

one_range : Ascending ((85, 443) ∷ [])
one_range = (omega arith, tt, tt)

overlaps-decides_example :
    ((overlaps ((80, 90) ∷ (443, 443) ∷ []) ((85, 443) ∷ []) ≡ some true)
      × Shared ((80, 90) ∷ (443, 443) ∷ []) ((85, 443) ∷ []))
    ⊎ ((overlaps ((80, 90) ∷ (443, 443) ∷ []) ((85, 443) ∷ []) ≡ some false)
        × ¬ Shared ((80, 90) ∷ (443, 443) ∷ []) ((85, 443) ∷ []))
overlaps-decides_example =
    overlaps-decides ((80, 90) ∷ (443, 443) ∷ []) ((85, 443) ∷ []) ascending one_range
