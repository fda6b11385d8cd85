-- ===== src/Environment/Maps.antt =====
-- `BTreeMap` with texts as keys: an association list in the order of its keys, with `insert`, `remove`,
-- `retain` and `extend` of the standard library.
use kakoi.Prelude.{
  Bool, true, false, not, none, some, List, [], ◌∷◌, get, select, if◌then◌else◌, ◌==◌, eq_of,
  eq_refl, ◌≡◌, ◌≢◌, refl, sym, subst, Bool-cases, inl, inr, ◌&&◌, ◌||◌, eqb, ltb, nat_eq, list_eq,
}
use kakoi.Policy.{Text}

-- `<` on the bytes of two keys.
unfoldable pub before : Text → Text → Bool
before [] [] = false
before [] (y ∷ ys) = true
before (x ∷ xs) [] = false
before (x ∷ xs) (y ∷ ys) = ltb x y || (eqb x y && before xs ys)

ne_beq : (a b : Text) → a ≢ b → (a == b) ≡ false
ne_beq a b h = elim (Bool-cases (a == b)) [
  | inl same ↦ absurd (h (eq_of a b same))
  | inr other ↦ other
]

module _ {κ} {V : Type κ} where
  -- The entry of a key that is there is replaced, else one is added at its place.
  unfoldable pub insert : Text → V → List (Text × V) → List (Text × V)
  unfolding before
  insert k v [] = (k, v) ∷ []
  insert k v ((j, w) ∷ m) =
      let rest = insert k v m in
      if j == k then (j, v) ∷ m else if before k j then (k, v) ∷ (j, w) ∷ m else (j, w) ∷ rest

  -- `retain` with a test on the key.
  abbrev pub retain : (Text → Bool) → List (Text × V) → List (Text × V)
  retain p m = select (λ entry. p entry.0) m

  unfoldable pub remove : Text → List (Text × V) → List (Text × V)
  remove k m = retain (λ j. not (j == k)) m

  pub get-insert : (k : Text) (v : V) (m : List (Text × V)) → get k (insert k v m) ≡ some v
  unfolding get insert
  get-insert k v [] = rw (eq_refl k) refl
  get-insert k v ((j, w) ∷ m) = elim (Bool-cases (j == k)) [
    | inl same ↦ rw (same, same) refl
    | inr other ↦ elim (Bool-cases (before k j)) [
      | inl earlier ↦ rw (other, earlier, eq_refl k) refl
      | inr later ↦ rw (other, later, other) (get-insert k v m)
    ]
  ]

  pub get-insert_other :
      (k j : Text) (v : V) (m : List (Text × V)) → k ≢ j → get k (insert j v m) ≡ get k m
  unfolding get insert
  get-insert_other k j v [] h = rw (ne_beq j k (λ p. h (sym p))) refl
  get-insert_other k j v ((i, w) ∷ m) h =
      let new = ne_beq j k (λ p. h (sym p)) in
      elim (Bool-cases (i == j)) [
        | inl found ↦
            let other : (i == k) ≡ false = ne_beq i k (λ p. h (cc (p, eq_of i j found))) in
            rw (found, other) refl
        | inr away ↦ elim (Bool-cases (before j i)) [
          | inl earlier ↦ rw (away, earlier, new) refl
          | inr later ↦ elim (Bool-cases (i == k)) [
            | inl same ↦ rw (away, later, same) refl
            | inr other ↦ rw (away, later, other) (get-insert_other k j v m h)
          ]
        ]
      ]

  pub get-retain :
      (k : Text) (p : Text → Bool) (m : List (Text × V)) → p k ≡ true → get k (retain p m) ≡ get k m
  unfolding get select
  get-retain k p [] h = refl
  get-retain k p ((j, v) ∷ m) h = elim (Bool-cases (j == k)) [
    | inl same ↦
        let kept : p j ≡ true = subst (λ z. p z ≡ true) (sym (eq_of j k same)) h in
        rw (kept, same) refl
    | inr other ↦ elim (Bool-cases (p j)) [
      | inl kept ↦ rw (kept, other) (get-retain k p m h)
      | inr gone ↦ rw (gone, other) (get-retain k p m h)
    ]
  ]

  pub get-retain-none :
      (k : Text) (p : Text → Bool) (m : List (Text × V)) → p k ≡ false → get k (retain p m) ≡ none
  unfolding get select
  get-retain-none k p [] h = refl
  get-retain-none k p ((j, v) ∷ m) h = elim (Bool-cases (p j)) [
    | inr gone ↦ rw gone (get-retain-none k p m h)
    | inl kept ↦ elim (Bool-cases (j == k)) [
      | inl same ↦ absurd (cc (eq_of j k same))
      | inr other ↦ rw (kept, other) (get-retain-none k p m h)
    ]
  ]

  pub get-remove : (k : Text) (m : List (Text × V)) → get k (remove k m) ≡ none
  unfolding remove
  get-remove k m = get-retain-none k (λ j. not (j == k)) m (rw (eq_refl k) refl)

  pub get-remove_other : (k j : Text) (m : List (Text × V)) → k ≢ j → get k (remove j m) ≡ get k m
  unfolding remove
  get-remove_other k j m h =
      get-retain k (λ i. not (i == j)) m
        (elim (Bool-cases (k == j)) [
          | inl same ↦ absurd (h (eq_of k j same))
          | inr other ↦ rw other refl
        ])

  -- `Extend::extend`
  unfoldable pub extend : List (Text × V) → List (Text × V) → List (Text × V)
  extend [] m = m
  extend ((k, v) ∷ more) m = extend more (insert k v m)
