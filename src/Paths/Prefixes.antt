-- ===== src/Paths/Prefixes.antt =====
-- `starts_with` is the prefix order, and `ancestors` lists exactly the prefixes.
use kakoi.Prelude.{
  ◌≡◌, refl, sym, ◌∙◌, subst, ◌⊎◌, inl, inr, true, [], ◌∷◌, ◌++◌, map, arith, ◌==◌, eq_refl, eq_of,
  In, here, there, In-append, In-append_left, In-append_right, In-map, map-In, &&-true,
}
use kakoi.Paths.{FilePath, name_eq, starts_with, ancestors}

pub starts_with_refl : (p : FilePath) → starts_with p p ≡ true
unfolding starts_with
starts_with_refl [] = refl
starts_with_refl (x ∷ p) = ground (arith, eq_refl x, starts_with_refl p)

starts_with_trans :
    (a b c : FilePath) → starts_with a b ≡ true → starts_with b c ≡ true → starts_with a c ≡ true
unfolding starts_with
starts_with_trans a b [] h k = refl
starts_with_trans a [] (z ∷ c) h k = absurd (ground arith)
starts_with_trans [] (y ∷ b) (z ∷ c) h k = absurd (ground arith)
starts_with_trans (x ∷ a) (y ∷ b) (z ∷ c) h k =
    ground (
      arith,
      name_eq.beq_iff x y,
      name_eq.beq_iff y z,
      name_eq.beq_iff x z,
      starts_with_trans a b c,
    )

-- Two prefixes of one path are comparable.
pub starts_with_comparable :
    (p a b : FilePath)
    → starts_with p a ≡ true
    → starts_with p b ≡ true
    → (starts_with a b ≡ true) ⊎ (starts_with b a ≡ true)
unfolding starts_with
starts_with_comparable p [] b h k = inr refl
starts_with_comparable p (y ∷ a) [] h k = inl refl
starts_with_comparable [] (y ∷ a) (z ∷ b) h k = absurd (ground arith)
starts_with_comparable (x ∷ p) (y ∷ a) (z ∷ b) h k =
    let e : y ≡ z = sym (eq_of x y (&&-true _ _ h).0) ∙ eq_of x z (&&-true _ _ k).0 in
    elim (starts_with_comparable p a b (&&-true _ _ h).1 (&&-true _ _ k).1) [
      | inl l ↦ inl (ground (arith, name_eq.beq_iff y z))
      | inr r ↦ inr (ground (arith, name_eq.beq_iff z y))
    ]

-- A prefix is what is left after cutting an end off.
pub starts_with-append : (p a : FilePath) → starts_with p a ≡ true → (r : FilePath) × (p ≡ a ++ r)
unfolding starts_with
starts_with-append p [] h = (p, refl)
starts_with-append [] (y ∷ a) h = absurd (ground arith)
starts_with-append (x ∷ p) (y ∷ a) h =
    let (r, e) = starts_with-append p a (&&-true (x == y) _ h).1 in
    (r, ground (arith, name_eq.beq_iff x y))

pub In-ancestors : (p a : FilePath) → starts_with p a ≡ true → In a (ancestors p)
unfolding starts_with ancestors
In-ancestors [] [] h = here refl
In-ancestors (x ∷ p) [] h = In-append_right (map (λ q. x ∷ q) (ancestors p)) _ (here refl)
In-ancestors [] (y ∷ a) h = absurd (ground arith)
In-ancestors (x ∷ p) (y ∷ a) h = In-append_left _ _ (
    subst (λ z. In (z ∷ a) (map (λ q. x ∷ q) (ancestors p))) (eq_of x y (&&-true _ _ h).0)
      (In-map (λ q. x ∷ q) (ancestors p) (In-ancestors p a (&&-true _ _ h).1)))

pub starts_with_antisymm :
    (a b : FilePath) → starts_with a b ≡ true → starts_with b a ≡ true → a ≡ b
unfolding starts_with
starts_with_antisymm [] [] h k = refl
starts_with_antisymm [] (y ∷ b) h k = cc
starts_with_antisymm (x ∷ a) [] h k = cc
starts_with_antisymm (x ∷ a) (y ∷ b) h k =
    let e : a ≡ b = starts_with_antisymm a b (&&-true (x == y) _ h).1 (&&-true (y == x) _ k).1 in
    ground (arith, name_eq.beq_iff x y)

ancestors-In : (p a : FilePath) → In a (ancestors p) → starts_with p a ≡ true
unfolding starts_with ancestors
ancestors-In [] a (here e) = rw e
ancestors-In [] a (there m) = elim m [ ]
ancestors-In (x ∷ p) a m = elim (In-append (map (λ q. x ∷ q) (ancestors p)) ([] ∷ []) m) [
  | inl l ↦
      let (q, i, e) = map-In (λ z. x ∷ z) (ancestors p) l in
      rw e (ground (arith, eq_refl x, ancestors-In p q i))
  | inr (here e) ↦ rw e
  | inr (there n) ↦ elim n [ ]
]
