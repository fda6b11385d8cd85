-- ===== src/Paths/Order.antt =====
-- `byte_order` is a total order in which a proper ancestor stands strictly before its descendants.
use kakoi.Prelude.{ℕ, ◌≡◌, refl, ◌∙◌, ◌≢◌, true, false, Ordering, List, [], ◌∷◌, ◌++◌, arith}
use mathlib.Core.List.{append-nil, append_assoc}
use kakoi.Paths.{
  FilePath, starts_with, segments, bytes, lex_compare, byte_order, byte_le, not_greater,
}
use kakoi.Paths.Prefixes.{starts_with-append}

lex_total :
    (a b : List ℕ) → not_greater (lex_compare a b) ≡ false → not_greater (lex_compare b a) ≡ true
unfolding lex_compare
lex_total [] [] h = refl
lex_total [] (y ∷ ys) h = cc
lex_total (x ∷ xs) [] h = refl
lex_total (x ∷ xs) (y ∷ ys) h = ground (arith, lex_total xs ys)

lex_trans :
    (a b c : List ℕ)
    → not_greater (lex_compare a b) ≡ true
    → not_greater (lex_compare b c) ≡ true
    → not_greater (lex_compare a c) ≡ true
unfolding lex_compare
lex_trans [] [] [] h k = refl
lex_trans [] [] (z ∷ c) h k = refl
lex_trans [] (y ∷ b) [] h k = refl
lex_trans [] (y ∷ b) (z ∷ c) h k = refl
lex_trans (x ∷ a) [] [] h k = h
lex_trans (x ∷ a) [] (z ∷ c) h k = cc
lex_trans (x ∷ a) (y ∷ b) [] h k = cc
lex_trans (x ∷ a) (y ∷ b) (z ∷ c) h k = ground (arith, lex_trans a b c)

pub byte_le_total : (a b : FilePath) → byte_le a b ≡ false → byte_le b a ≡ true
unfolding byte_le
byte_le_total a b = lex_total (bytes a) (bytes b)

pub byte_le_trans :
    (a b c : FilePath) → byte_le a b ≡ true → byte_le b c ≡ true → byte_le a c ≡ true
unfolding byte_le
byte_le_trans a b c = lex_trans (bytes a) (bytes b) (bytes c)

lex_extended : (xs : List ℕ) (y : ℕ) (ys : List ℕ) → lex_compare (xs ++ (y ∷ ys)) xs ≡ Ordering.gt
unfolding lex_compare
lex_extended [] y ys = refl
lex_extended (x ∷ xs) y ys = ground (arith, lex_extended xs y ys)

segments-append : (a b : FilePath) → segments (a ++ b) ≡ segments a ++ segments b
unfolding segments
segments-append [] b = refl
segments-append (x ∷ a) b = simp (segments-append a b, append_assoc)

-- What lies below a path comes after it.
byte_order_below : (a : FilePath) (r : FilePath) → r ≢ [] → byte_order (a ++ r) a ≡ Ordering.gt
unfolding byte_order
byte_order_below a [] h = absurd (h refl)
byte_order_below [] (x ∷ r) h = lex_extended (47 ∷ []) x.first (x.more ++ segments r)
byte_order_below (y ∷ a) (x ∷ r) h =
    rw (segments-append (y ∷ a) (x ∷ r))
      (lex_extended (segments (y ∷ a)) 47 (x.first ∷ (x.more ++ segments r)))

-- So a path that does not come after one of its ancestors is that ancestor.
pub byte_le-starts_with : (p a : FilePath) → starts_with p a ≡ true → byte_le p a ≡ true → p ≡ a
unfolding byte_le
byte_le-starts_with p a h k = go (starts_with-append p a h)
  where
    go : (r : FilePath) × (p ≡ a ++ r) → p ≡ a
    go ([], e) = e ∙ append-nil a
    go (x ∷ r, e) = cc (byte_order_below a (x ∷ r) (λ q. cc q), e, k)
