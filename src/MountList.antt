-- ===== src/MountList.antt =====
-- crates/kakoi-plan/src/mount_list.rs: the reading of `/proc/self/mountinfo`, as bytes.
pub mod Laws
use kakoi.Prelude.{
  ℕ, zero, suc, ◌+◌, ◌*◌, ◌-◌, Bool, true, false, ◌&&◌, ◌||◌, Option, none, some, List, [], ◌∷◌,
  ◌++◌, filter_map, if◌then◌else◌, eqb, leb, ltb,
}
use kakoi.Policy.{Text, codes, components}
use kakoi.Prelude.Utf8.{to_str}
use kakoi.Mounts.{Mount}

-- `slice::split` at a byte: the first piece and the others.
unfoldable split_at : ℕ → Text → Text × List Text
split_at byte [] = ([], [])
split_at byte (b ∷ text) =
    let (head, tail) = split_at byte text in
    if eqb b byte then ([], head ∷ tail) else (b ∷ head, tail)

-- What is before and after the first ` - `.
unfoldable split_separator : Text → Option (Text × Text)
split_separator [] = none
split_separator (a ∷ []) = none
split_separator (a ∷ b ∷ []) = none
split_separator (a ∷ b ∷ c ∷ text) =
    let rest = split_separator (b ∷ c ∷ text) in
    if eqb a b' ' && eqb b b'-' && eqb c b' '
    then some ([], text)
    else elim rest [ none ↦ none | some (before, after) ↦ some (a ∷ before, after) ]

abbrev is_octal : ℕ → Bool
is_octal b = leb b'0' b && leb b b'7'

-- `u8::from_str_radix` of three bytes in base 8, which takes a `+` in front.
unfoldable pub octal_value : ℕ → ℕ → ℕ → Option ℕ
octal_value x y z =
    let value = (x - b'0') * 64 + (y - b'0') * 8 + (z - b'0') in
    if is_octal x && is_octal y && is_octal z
    then (if ltb value 256 then some value else none)
    else if eqb x b'+' && is_octal y && is_octal z
    then some ((y - b'0') * 8 + (z - b'0'))
    else none

-- `unescape`: the bytes up to a backslash stay, and three octal digits behind it are one byte.
unfoldable pub unescape : Text → Text
unfolding octal_value
unescape [] = []
unescape (a ∷ []) = a ∷ []
unescape (a ∷ b ∷ []) = a ∷ b ∷ []
unescape (a ∷ b ∷ c ∷ []) = a ∷ b ∷ c ∷ []
unescape (a ∷ b ∷ c ∷ d ∷ rest) =
    let one = unescape (b ∷ c ∷ d ∷ rest) in
    let four = unescape rest in
    if eqb a b'\\'
    then elim (octal_value b c d) [ none ↦ a ∷ one | some byte ↦ byte ∷ four ]
    else a ∷ one

-- The fifth piece between spaces.
abbrev fifth : List Text → Option Text
fifth (a ∷ b ∷ c ∷ d ∷ rest) = some d
fifth _ = none

unfoldable parse_line : Text → Option Mount
unfolding split_separator split_at unescape
parse_line line = elim (split_separator line) [
  | none ↦ none
  | some (before, after) ↦ elim (fifth (split_at b' ' before).1) [
    | none ↦ none
    | some target ↦ elim (to_str (split_at b' ' after).0) [
      | none ↦ none
      | some fstype ↦ some (record { target = components (unescape target); fstype = fstype })
    ]
  ]
]

unfoldable parse_mount_list : Text → List Mount
unfolding parse_line split_at
parse_mount_list bytes =
    let (first, more) = split_at b'\n' bytes in filter_map parse_line (first ∷ more)
