-- ===== src/MountList/Laws.antt =====
-- crates/kakoi-plan/src/mount_list.rs: the escapes of the kernel read back.
use kakoi.Prelude.{
  ℕ, false, [], ◌∷◌, ◌++◌, if◌then◌else◌, eqb, ◌≡◌, refl, sym, ◌∙◌, ap, inl, inr, arith, Bool-cases,
}
use kakoi.Policy.{Text, codes}
use kakoi.MountList.{octal_value, unescape}

-- How the kernel writes one byte of a path: space, tab, newline and backslash as three octal digits.
abbrev escaped_byte : ℕ → Text
escaped_byte b =
    if eqb b b' '
    then codes "\\040"
    else if eqb b b'\t'
    then codes "\\011"
    else if eqb b b'\n'
    then codes "\\012"
    else if eqb b b'\\'
    then codes "\\134"
    else b ∷ []

-- How the kernel writes a path.
abbrev pub escape : Text → Text
escape [] = []
escape (b ∷ path) = escaped_byte b ++ escape path

-- A byte that is no backslash stays.
unescape-plain :
    (b : ℕ) (text : Text) → eqb b b'\\' ≡ false → unescape (b ∷ text) ≡ b ∷ unescape text
unfolding unescape
unescape-plain b [] h = refl
unescape-plain b (c ∷ []) h = refl
unescape-plain b (c ∷ d ∷ []) h = refl
unescape-plain b (c ∷ d ∷ e ∷ text) h = rw h refl

-- A path that is written as the kernel writes it reads back byte for byte.
pub unescape-escape : (path : Text) → unescape (escape path) ≡ path
unfolding unescape octal_value
unescape-escape [] = refl
unescape-escape (b ∷ path) = elim (Bool-cases (eqb b b' ')) [
  | inl is ↦
      let same : b ≡ b' ' = ground (arith, is) in
      rw (is, unescape) (ap (λ z. b' ' ∷ z) (unescape-escape path) ∙ ap (λ z. z ∷ path) (sym same))
  | inr not_space ↦ elim (Bool-cases (eqb b b'\t')) [
    | inl is ↦
        let same : b ≡ b'\t' = ground (arith, is) in
        rw (not_space, is, unescape)
          (ap (λ z. b'\t' ∷ z) (unescape-escape path) ∙ ap (λ z. z ∷ path) (sym same))
    | inr not_tab ↦ elim (Bool-cases (eqb b b'\n')) [
      | inl is ↦
          let same : b ≡ b'\n' = ground (arith, is) in
          rw (not_space, not_tab, is, unescape)
            (ap (λ z. b'\n' ∷ z) (unescape-escape path) ∙ ap (λ z. z ∷ path) (sym same))
      | inr not_line ↦ elim (Bool-cases (eqb b b'\\')) [
        | inl is ↦
            let same : b ≡ b'\\' = ground (arith, is) in
            rw (not_space, not_tab, not_line, is, unescape)
              (ap (λ z. b'\\' ∷ z) (unescape-escape path) ∙ ap (λ z. z ∷ path) (sym same))
        | inr plain ↦
            rw (not_space, not_tab, not_line, plain)
              (unescape-plain b (escape path) plain ∙ ap (λ z. b ∷ z) (unescape-escape path))
      ]
    ]
  ]
]
