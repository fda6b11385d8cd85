-- ===== src/Ports.antt =====
-- crates/kakoi-policy/src/network/ports.rs: a set of ports as ranges. A port is a `u16`, a number up to
-- 65535; a range is its first and its last port, both in it.
pub mod Laws
pub mod Overlap
use kakoi.Prelude.{
  ℕ, zero, suc, ◌+◌, ◌*◌, ◌-◌, Bool, true, false, not, ◌&&◌, ◌||◌, List, [], ◌∷◌, Option, none,
  some, any, all, length, if◌then◌else◌, leb, ltb, eqb, sort_by, Result, ok, err, ◌==◌, list_eq,
  nat_eq,
}
use kakoi.Policy.{Text, codes}
use kakoi.Guard.Words.{split_once}

abbrev pub PortRange : Type 0
PortRange = ℕ × ℕ

abbrev pub last_port : ℕ
last_port = 65535

pub data PortsError : Type 0 where
  no_ports : PortsError
  bad_number : Text → PortsError
  outside : Text → PortsError
  reversed : Text → PortsError

-- `RangeInclusive::contains`
abbrev pub range_has : ℕ → PortRange → Bool
range_has port (first, last) = leb first port && leb port last

-- `Ports::contains`
abbrev pub has_port : List PortRange → ℕ → Bool
has_port ranges port = any (range_has port) ranges

abbrev pub digit : ℕ → Bool
digit b = leb b'0' b && leb b b'9'

-- The value of a text of digits.
abbrev pub value_of : ℕ → Text → ℕ
value_of n [] = n
value_of n (b ∷ text) = value_of (n * 10 + (b - b'0')) text

abbrev pub starts_with_zero : Text → Bool
starts_with_zero [] = false
starts_with_zero (b ∷ text) = eqb b b'0'

unfoldable pub number : Text → Result PortsError ℕ
number text =
    if starts_with_zero text || (text == [] || not (all digit text))
    then err (bad_number text)
    else if leb (value_of 0 text) last_port
    then ok (value_of 0 text)
    else err (outside text)

-- The two sides of a range, or one port for both.
abbrev pub sides : Text → Text × Text
sides item = elim (split_once b'-' item) [ some pair ↦ pair | none ↦ (item, item) ]

-- One round of the loop of `try_from`.
unfoldable pub parse_range : Text → Result PortsError PortRange
parse_range item =
    let (start, end) = sides item in
    elim (number start) [
      | err e ↦ err e
      | ok first ↦ elim (number end) [
        | err e ↦ err e
        | ok last ↦ if ltb last first then err (reversed item) else ok (first, last)
      ]
    ]

unfoldable pub parse_ranges : List Text → Result PortsError (List PortRange)
parse_ranges [] = ok []
parse_ranges (item ∷ items) = elim (parse_range item) [
  | err e ↦ err e
  | ok range ↦ elim (parse_ranges items) [ err e ↦ err e | ok ranges ↦ ok (range ∷ ranges) ]
]

-- The order of `sort_unstable` on pairs.
abbrev pub range_le : PortRange → PortRange → Bool
range_le (a, b) (c, d) = ltb a c || (eqb a c && leb b d)

-- `saturating_add(1)` on `u16`
abbrev pub next_port : ℕ → ℕ
next_port n = if ltb n last_port then n + 1 else last_port

-- The loop that merges sorted ranges; the first argument is the last range merged so far.
unfoldable pub merge_from : PortRange → List PortRange → List PortRange
merge_from current [] = current ∷ []
merge_from (first, last) ((start, end) ∷ ranges) =
    let longer = merge_from (first, if ltb last end then end else last) ranges in
    let apart = merge_from (start, end) ranges in
    if leb start (next_port last) then longer else (first, last) ∷ apart

unfoldable pub merge_ranges : List PortRange → List PortRange
merge_ranges [] = []
merge_ranges (range ∷ ranges) = merge_from range ranges

-- `Ports::try_from`
unfoldable pub try_from : List Text → Result PortsError (List PortRange)
try_from items =
    if items == []
    then err no_ports
    else if items == codes "*" ∷ []
    then ok ((1, last_port) ∷ [])
    else elim (parse_ranges items) [
      | err e ↦ err e
      | ok ranges ↦ ok (merge_ranges (sort_by range_le ranges))
    ]

-- The loop of `Ports::overlaps` on fuel, on what is left of both sides; `none` when the fuel runs out.
unfoldable pub overlap_loop : ℕ → List PortRange → List PortRange → Option Bool
overlap_loop zero left right = none
overlap_loop (suc fuel) [] right = some false
overlap_loop (suc fuel) (a ∷ left) [] = some false
overlap_loop (suc fuel) (a ∷ left) (b ∷ right) =
    let skip_left = overlap_loop fuel left (b ∷ right) in
    let skip_right = overlap_loop fuel (a ∷ left) right in
    if ltb a.1 b.0 then skip_left else if ltb b.1 a.0 then skip_right else some true

-- `Ports::overlaps`; each round drops a range of one side.
unfoldable pub overlaps : List PortRange → List PortRange → Option Bool
overlaps left right = overlap_loop (suc (length left + length right)) left right
