-- ===== src/Prelude/Sort.antt =====
-- `slice::sort_by`: a stable sort by a Boolean order, written as insertion.
use mathlib.Core.Path.{◌≡◌, sym}
use mathlib.Core.Logic.{◌≢◌, inl, inr}
use mathlib.Core.Bool.{Bool, true, false}
use mathlib.Core.List.{List, [], ◌∷◌}
use kakoi.Prelude.Tests.{if◌then◌else◌, Bool-cases}
use kakoi.Prelude.Lists.{In, here, there, All}

module _ {ℓ} {A : Type ℓ} where
  swap_heads : {a x y : A} {ys : List A} → In a (x ∷ y ∷ ys) → In a (y ∷ x ∷ ys)
  swap_heads (here e) = there (here e)
  swap_heads (there (here e)) = here e
  swap_heads (there (there h)) = there (there h)

  swap_front : {a x y : A} {ys : List A} → In a (x ∷ ys) → In a (x ∷ y ∷ ys)
  swap_front (here e) = here e
  swap_front (there h) = there (there h)

  In-tail : {a x : A} {xs ys : List A} → (In a xs → In a ys) → In a (x ∷ xs) → In a (x ∷ ys)
  In-tail f (here e) = here e
  In-tail f (there h) = there (f h)

module _ {ℓ} {A : Type ℓ} (le : A → A → Bool) where
  -- An element goes before the first one that it does not exceed.
  unfoldable insert_by : A → List A → List A
  insert_by x [] = x ∷ []
  insert_by x (y ∷ ys) = if le x y then x ∷ y ∷ ys else y ∷ insert_by x ys

  unfoldable pub sort_by : List A → List A
  unfolding insert_by
  sort_by [] = []
  sort_by (x ∷ xs) = insert_by x (sort_by xs)

  abbrev pub IsSorted : List A → Type 0
  IsSorted [] = Unit {0}
  IsSorted (x ∷ xs) = All (λ y. le x y ≡ true) xs × IsSorted xs

  In-insert_by : {a : A} (x : A) (ys : List A) → In a (x ∷ ys) → In a (insert_by x ys)
  unfolding insert_by
  In-insert_by x [] m = m
  In-insert_by x (y ∷ ys) m = elim (Bool-cases (le x y)) [
    | inl below ↦ rw below m
    | inr above ↦ rw above (In-tail (λ h. In-insert_by x ys h) (swap_heads m))
  ]

  insert_by-In : {a : A} (x : A) (ys : List A) → In a (insert_by x ys) → In a (x ∷ ys)
  unfolding insert_by
  insert_by-In x [] m = m
  insert_by-In x (y ∷ ys) m = elim (Bool-cases (le x y)) [
    | inl below ↦ rw below at m
    | inr above ↦ elim (rw above at m) [
      | here e ↦ there (here e)
      | there h ↦ swap_front (insert_by-In x ys h)
    ]
  ]

  pub In-sort_by : {a : A} (xs : List A) → In a xs → In a (sort_by xs)
  unfolding sort_by
  In-sort_by [] m = elim m [ ]
  In-sort_by (x ∷ xs) (here e) = In-insert_by x (sort_by xs) (here e)
  In-sort_by (x ∷ xs) (there m) = In-insert_by x (sort_by xs) (there (In-sort_by xs m))

  pub sort_by-In : {a : A} (xs : List A) → In a (sort_by xs) → In a xs
  unfolding sort_by
  sort_by-In [] m = elim m [ ]
  sort_by-In (x ∷ xs) m = In-tail (λ h. sort_by-In xs h) (insert_by-In x (sort_by xs) m)

  insert_by-All {κ} :
      (P : A → Type κ) (x : A) (ys : List A) → P x → All P ys → All P (insert_by x ys)
  unfolding insert_by
  insert_by-All P x [] h hs = (h, tt)
  insert_by-All P x (y ∷ ys) h hs = elim (Bool-cases (le x y)) [
    | inl below ↦ rw below (h, hs)
    | inr above ↦ rw above (hs.0, insert_by-All P x ys h hs.1)
  ]

  pub sort_by-All {κ} : (P : A → Type κ) (xs : List A) → All P xs → All P (sort_by xs)
  unfolding sort_by
  sort_by-All P [] h = tt
  sort_by-All P (x ∷ xs) h = insert_by-All P x (sort_by xs) h.0 (sort_by-All P xs h.1)

module _ {ℓ} {A : Type ℓ} (le : A → A → Bool) (total : (a b : A) → le a b ≡ false → le b a ≡ true)
    (trans : (a b c : A) → le a b ≡ true → le b c ≡ true → le a c ≡ true) where
  below_trans :
      (x y : A) (ys : List A)
      → le x y ≡ true
      → All (λ z. le y z ≡ true) ys
      → All (λ z. le x z ≡ true) ys
  below_trans x y [] h hs = tt
  below_trans x y (z ∷ zs) h hs = (trans x y z h hs.0, below_trans x y zs h hs.1)

  insert_by-IsSorted : (x : A) (ys : List A) → IsSorted le ys → IsSorted le (insert_by le x ys)
  unfolding insert_by
  insert_by-IsSorted x [] s = (tt, tt)
  insert_by-IsSorted x (y ∷ ys) s = elim (Bool-cases (le x y)) [
    | inl below ↦ rw below ((below, below_trans x y ys below s.0), s)
    | inr above ↦ rw above (
      insert_by-All le (λ z. le y z ≡ true) x ys (total x y above) s.0,
      insert_by-IsSorted x ys s.1,
    )
  ]

  -- The sort's result is in order.
  pub sort_by-IsSorted : (xs : List A) → IsSorted le (sort_by le xs)
  unfolding sort_by
  sort_by-IsSorted [] = tt
  sort_by-IsSorted (x ∷ xs) = insert_by-IsSorted x (sort_by le xs) (sort_by-IsSorted xs)

-- No two elements have the same image.
abbrev pub Distinct {ℓ κ} : {A : Type ℓ} {B : Type κ} → (A → B) → List A → Type κ
Distinct f [] = Unit
Distinct f (x ∷ xs) = All (λ y. f x ≢ f y) xs × Distinct f xs

module _ {ℓ κ} {A : Type ℓ} {B : Type κ} (le : A → A → Bool) (f : A → B) where
  insert_by-Distinct :
      (x : A) (ys : List A)
      → All (λ y. f x ≢ f y) ys
      → Distinct f ys
      → Distinct f (insert_by le x ys)
  unfolding insert_by
  insert_by-Distinct x [] h d = (tt, tt)
  insert_by-Distinct x (y ∷ ys) h d = elim (Bool-cases (le x y)) [
    | inl below ↦ rw below (h, d)
    | inr above ↦ rw above (
      insert_by-All le (λ z. f y ≢ f z) x ys (λ e. h.0 (sym e)) d.0,
      insert_by-Distinct x ys h.1 d.1,
    )
  ]

  -- Sorting keeps the images distinct.
  pub sort_by-Distinct : (xs : List A) → Distinct f xs → Distinct f (sort_by le xs)
  unfolding sort_by
  sort_by-Distinct [] d = tt
  sort_by-Distinct (x ∷ xs) d =
      insert_by-Distinct x (sort_by le xs) (sort_by-All le (λ y. f x ≢ f y) xs d.0)
        (sort_by-Distinct xs d.1)
