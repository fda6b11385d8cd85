-- ===== src/Guard/Words.antt =====
-- The methods of Rust's strings that crates/kakoi-policy/src/guard.rs uses, on lists of bytes.
use kakoi.Prelude.{
  ℕ, Bool, true, false, ◌&&◌, Option, none, some, List, [], ◌∷◌, ◌++◌, if◌then◌else◌, eqb, leb, ltb,
}
use kakoi.Policy.{Text, codes}

-- `str::split_once` at a byte.
unfoldable pub split_once : ℕ → Text → Option (Text × Text)
split_once byte [] = none
split_once byte (b ∷ text) =
    let rest = split_once byte text in
    if eqb b byte
    then some ([], text)
    else elim rest [ none ↦ none | some (head, tail) ↦ some (b ∷ head, tail) ]

-- `str::starts_with`
unfoldable pub begins_with : Text → Text → Bool
begins_with [] text = true
begins_with (b ∷ prefix) [] = false
begins_with (b ∷ prefix) (c ∷ text) = eqb b c && begins_with prefix text

-- A byte that continues a character.
abbrev continues : ℕ → Bool
continues b = leb 128 b && ltb b 192

-- `str::chars`: each character as its bytes.
unfoldable pub chars : Text → List Text
chars [] = []
chars (b ∷ text) = elim (chars text) [
  | [] ↦ (b ∷ []) ∷ []
  | [] ∷ more ↦ (b ∷ []) ∷ more
  | (c ∷ char) ∷ more ↦ if continues c then (b ∷ c ∷ char) ∷ more else (b ∷ []) ∷ (c ∷ char) ∷ more
]

-- `join(" ")`
unfoldable pub join_words : List Text → Text
join_words [] = []
join_words (w ∷ []) = w
join_words (w ∷ v ∷ more) = w ++ (codes " " ++ join_words (v ∷ more))

unfoldable pub strip_last : Text → Option Text
strip_last [] = none
strip_last (b ∷ []) = if eqb b b'/' then some [] else none
strip_last (b ∷ c ∷ text) = elim (strip_last (c ∷ text)) [
  | none ↦ none
  | some inner ↦ some (b ∷ inner)
]

-- `strip_prefix('/')` and then `strip_suffix('/')`.
unfoldable pub strip_slash : Text → Option Text
strip_slash [] = none
strip_slash (b ∷ text) = if eqb b b'/' then strip_last text else none
