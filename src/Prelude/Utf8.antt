-- ===== src/Prelude/Utf8.antt =====
-- UTF-8 in Rust's standard library, on lists of bytes: `str::from_utf8` and the lossy reading that the
-- display of a path makes.
use Prim.Native.Nat.{ℕ}
use mathlib.Core.Path.{◌≡◌, ◌∙◌, sym, ap}
use mathlib.Core.Logic.{inl, inr}
use mathlib.Core.Bool.{Bool, true, false, ◌&&◌}
use mathlib.Core.Option.{Option, none, some}
use mathlib.Core.List.{List, [], ◌∷◌, ◌++◌, append_assoc, append-nil}
use native.Mathlib.Omega.{arith}
use kakoi.Prelude.Tests.{if◌then◌else◌, eqb, leb, ltb, Option-cases}

abbrev pub Range : Type 0
Range = ℕ × ℕ

abbrev pub tail : Range
tail = (128, 191)

-- The ranges of the bytes that follow a first byte of UTF-8.
abbrev pub followers : ℕ → Option (List Range)
followers b =
    if ltb b 128
    then some []
    else if ltb b 194
    then none
    else if ltb b 224
    then some (tail ∷ [])
    else if eqb b 224
    then some ((160, 191) ∷ tail ∷ [])
    else if eqb b 237
    then some ((128, 159) ∷ tail ∷ [])
    else if ltb b 240
    then some (tail ∷ tail ∷ [])
    else if eqb b 240
    then some ((144, 191) ∷ tail ∷ tail ∷ [])
    else if ltb b 244
    then some (tail ∷ tail ∷ tail ∷ [])
    else if eqb b 244
    then some ((128, 143) ∷ tail ∷ tail ∷ [])
    else none

unfoldable pub utf8 : List Range → List ℕ → Bool
utf8 [] [] = true
utf8 (range ∷ ranges) [] = false
utf8 ((low, high) ∷ ranges) (b ∷ text) = leb low b && leb b high && utf8 ranges text
utf8 [] (b ∷ text) = elim (followers b) [ none ↦ false | some ranges ↦ utf8 ranges text ]

-- `OsStr::to_str`
unfoldable pub to_str : List ℕ → Option (List ℕ)
to_str word = if utf8 [] word then some word else none

-- U+FFFD, which stands for what is not UTF-8.
abbrev replacement : List ℕ
replacement = 239 ∷ 191 ∷ 189 ∷ []

-- The loop, with the bytes of the character that is being read and the ranges of those still to come.
unfoldable lossy_in : List ℕ → List Range → List ℕ → List ℕ
lossy_in held [] [] = held
lossy_in held (range ∷ ranges) [] = replacement
lossy_in held [] (b ∷ text) = elim (followers b) [
  | none ↦ held ++ (replacement ++ lossy_in [] [] text)
  | some ranges ↦ held ++ lossy_in (b ∷ []) ranges text
]
lossy_in held ((low, high) ∷ ranges) (b ∷ text) =
    let inside = lossy_in (held ++ (b ∷ [])) ranges text in
    let outside : List ℕ = elim (followers b) [
      | none ↦ replacement ++ lossy_in [] [] text
      | some more ↦ lossy_in (b ∷ []) more text
    ] in
    if leb low b && leb b high then inside else replacement ++ outside

-- `String::from_utf8_lossy`: each longest start of a character that goes wrong is replaced.
unfoldable pub lossy : List ℕ → List ℕ
unfolding lossy_in
lossy text = lossy_in [] [] text

both : (a b : Bool) → (a && b) ≡ true → (a ≡ true) × (b ≡ true)
both a b h = ground (arith, h)

lossy_in-utf8 :
    (held : List ℕ) (ranges : List Range) (text : List ℕ)
    → utf8 ranges text ≡ true
    → lossy_in held ranges text ≡ held ++ text
unfolding lossy_in utf8
lossy_in-utf8 held [] [] h = sym (append-nil held)
lossy_in-utf8 held (range ∷ ranges) [] h = absurd (cc h)
lossy_in-utf8 held [] (b ∷ text) h = elim (Option-cases (followers b)) [
  | inl bad ↦ absurd (cc (rw (bad, utf8) at h))
  | inr (ranges, first) ↦
      rw (first, lossy_in)
        (ap (λ z. held ++ z) (lossy_in-utf8 (b ∷ []) ranges text (rw (first, utf8) at h)))
]
lossy_in-utf8 held ((low, high) ∷ ranges) (b ∷ text) h =
    let (inside, rest) = both (leb low b && leb b high) (utf8 ranges text) h in
    rw (inside, lossy_in)
      (lossy_in-utf8 (held ++ (b ∷ [])) ranges text rest ∙ append_assoc held (b ∷ []) text)

-- UTF-8 stays as it is.
pub lossy-utf8 : (text : List ℕ) → utf8 [] text ≡ true → lossy text ≡ text
unfolding lossy
lossy-utf8 text h = lossy_in-utf8 [] [] text h
