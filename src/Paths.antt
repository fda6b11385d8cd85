-- ===== src/Paths.antt =====
-- `std::path::Path` as the code uses it on absolute paths (crates/kakoi-plan/src/mounts.rs and
-- placement.rs): a path is the list of its names under `/`, the identity of Rust's `Path::eq`. A
-- name is never empty. `byte_order` of mounts.rs compares the bytes of the canonical rendering.
pub mod Nested
pub mod Prefixes
pub mod Order
use kakoi.Prelude.{
  ℕ, ◌≡◌, refl, ◌↔◌, Bool, true, false, ◌&&◌, Ordering, compare, List, [], ◌∷◌, ◌++◌, map, arith,
  Eq, ◌==◌, nat_eq, list_eq, pair_eq, ap,
}

pub record Name : Type 0 where
  pub first : ℕ
  pub more : List ℕ

unfoldable pub name_beq : Name → Name → Bool
name_beq a b = a.first == b.first && a.more == b.more

pub name_beq_iff : (a b : Name) → (name_beq a b ≡ true) ↔ (a ≡ b)
unfolding name_beq
name_beq_iff a b = (
  λ h. ground (arith, nat_eq.beq_iff a.first b.first, (list_eq {A = ℕ}).beq_iff a.more b.more),
  λ p. ground (arith, p, nat_eq.beq_iff a.first b.first, (list_eq {A = ℕ}).beq_iff a.more b.more),
)

instance abbrev pub name_eq : Eq Name
name_eq = record { beq = name_beq; beq_iff = name_beq_iff }

abbrev pub FilePath : Type 0
FilePath = List Name

-- `Path::starts_with`
unfoldable pub starts_with : FilePath → FilePath → Bool
unfolding name_beq
starts_with path [] = true
starts_with [] (y ∷ base) = false
starts_with (x ∷ path) (y ∷ base) = x == y && starts_with path base

-- `Path::ancestors`: the path itself first, `/` last.
unfoldable pub ancestors : FilePath → List FilePath
ancestors [] = [] ∷ []
ancestors (x ∷ path) = map (λ p. x ∷ p) (ancestors path) ++ ([] ∷ [])

-- `Path::join` with one name.
unfoldable pub join : FilePath → Name → FilePath
join path name = path ++ (name ∷ [])

unfoldable pub segments : FilePath → List ℕ
segments [] = []
segments (x ∷ path) = 47 ∷ x.first ∷ (x.more ++ segments path)

-- `as_os_str().as_bytes()` of an absolute path without superfluous separators.
unfoldable pub bytes : FilePath → List ℕ
unfolding segments
bytes [] = 47 ∷ []
bytes (x ∷ path) = segments (x ∷ path)

-- `Ord::cmp` on byte slices.
unfoldable pub lex_compare : List ℕ → List ℕ → Ordering
lex_compare [] [] = Ordering.eq
lex_compare [] (y ∷ ys) = Ordering.lt
lex_compare (x ∷ xs) [] = Ordering.gt
lex_compare (x ∷ xs) (y ∷ ys) =
    let rest = lex_compare xs ys in
    elim (compare x y) [
      | Ordering.lt ↦ Ordering.lt
      | Ordering.eq ↦ rest
      | Ordering.gt ↦ Ordering.gt
    ]

-- `byte_order`
unfoldable pub byte_order : FilePath → FilePath → Ordering
unfolding bytes lex_compare
byte_order a b = lex_compare (bytes a) (bytes b)

abbrev pub not_greater : Ordering → Bool
not_greater Ordering.gt = false
not_greater _ = true

-- The order that `sort_by` keeps.
unfoldable pub byte_le : FilePath → FilePath → Bool
unfolding byte_order
byte_le a b = not_greater (byte_order a b)
