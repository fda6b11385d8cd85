-- ===== src/Net/Pool/Entries.antt =====
-- The entries of a resolution pool: crates/kakoi-net/src/dns/pool.rs.
use kakoi.Prelude.{
  ℕ, suc, true, false, Option, none, some, List, [], ◌∷◌, length, get, All, All-In, Distinct, In,
  here, there, ◌≡◌, ◌≢◌, refl, sym, ap, ◌∙◌, subst, inl, inr, arith, Bool-cases, eqb, if◌then◌else◌,
  Eq, ◌==◌, eq_of, ne_of, eq_false, eq_refl,
}
use kakoi.Net.Pool.{Pending, remove}

module _ {K W : Type 0} ⦃e : Eq K⦄ where
  -- The abstract view of a pool: the waiters of each resolution.
  unfoldable pub waiters_of : ℕ → List (K × Pending W) → Option (List W)
  waiters_of id [] = none
  waiters_of id ((_, p) ∷ entries) = if eqb p.id id then some p.waiters else waiters_of id entries

  abbrev pub entry_id : K × Pending W → ℕ
  entry_id entry = entry.1.id

  abbrev pub entry_key : K × Pending W → K
  entry_key entry = entry.0

  -- One entry is taken out of a list.
  pub data Pick (x : K × Pending W) : List (K × Pending W) → List (K × Pending W) → Type 0 where
    top : {xs : List (K × Pending W)} → Pick x (x ∷ xs) xs
    below :
        {y : K × Pending W} {xs ys : List (K × Pending W)} → Pick x xs ys → Pick x (y ∷ xs) (y ∷ ys)

  pub Pick-All {κ} :
      (P : K × Pending W → Type κ) {x : K × Pending W} {xs ys : List (K × Pending W)}
      → Pick x xs ys
      → All P xs
      → P x × All P ys
  Pick-All P top h = h
  Pick-All P (below k) h = let (px, rest) = Pick-All P k h.1 in (px, (h.0, rest))

  pub Pick-Distinct :
      {B : Type 0} (f : K × Pending W → B) {x : K × Pending W} {xs ys : List (K × Pending W)}
      → Pick x xs ys
      → Distinct f xs
      → Distinct f (x ∷ ys)
  Pick-Distinct f top d = d
  Pick-Distinct f {x} (below {y} k) d =
      let (all_x, rest) = Pick-Distinct f k d.1 in
      let (differs, all_y) = Pick-All (λ z. f y ≢ f z) k d.0 in
      ((λ p. differs (sym p), all_x), (all_y, rest))

  pub Pick-length :
      {x : K × Pending W} {xs ys : List (K × Pending W)}
      → Pick x xs ys
      → length xs ≡ suc (length ys)
  Pick-length top = refl
  Pick-length (below k) = ap suc (Pick-length k)

  pub Pick-waiters :
      (i : ℕ) {x : K × Pending W} {xs ys : List (K × Pending W)}
      → Pick x xs ys
      → Distinct entry_id xs
      → waiters_of i xs ≡ waiters_of i (x ∷ ys)
  unfolding waiters_of
  Pick-waiters i top d = refl
  Pick-waiters i {x} (below {y} k) d =
      let (differs, _) = Pick-All (λ z. entry_id y ≢ entry_id z) k d.0 in
      let rest = Pick-waiters i k d.1 in
      elim (Bool-cases (eqb y.1.id i)) [
        | inl h ↦ elim (Bool-cases (eqb x.1.id i)) [
          | inl g ↦ absurd (differs (ground arith))
          | inr g ↦ rw (h, g) refl
        ]
        | inr h ↦ elim (Bool-cases (eqb x.1.id i)) [
          | inl g ↦ rw (h, g) (rw g at rest)
          | inr g ↦ rw (h, g) (rw g at rest)
        ]
      ]

  -- Removing a key that stands in the list takes its entry.
  pub remove-Pick :
      {key : K} {p : Pending W} (xs : List (K × Pending W))
      → Distinct entry_key xs
      → In (key, p) xs
      → (ys : List (K × Pending W)) × (remove key xs ≡ some (p, ys)) × Pick (key, p) xs ys
  unfolding remove
  remove-Pick [] d m = elim m [ ]
  remove-Pick {key} {p} ((j, q) ∷ xs) d (here h) =
      let e1 : j ≡ key = ap (λ z. z.0) (sym h) in
      let e2 : q ≡ p = ap (λ z. z.1) (sym h) in
      let same : (j == key) ≡ true = subst (λ z. (z == key) ≡ true) (sym e1) (eq_refl key) in
      (
        xs,
        rw (same, remove) (ap (λ z. some (z, xs)) e2),
        subst (λ z. Pick z ((j, q) ∷ xs) xs) (sym h) top,
      )
  remove-Pick {key} {p} ((j, q) ∷ xs) d (there m) =
      let (ys, r, k) = remove-Pick xs d.1 m in
      let other : (j == key) ≡ false = eq_false j key (All-In (λ y. j ≢ entry_key y) xs d.0 m) in
      ((j, q) ∷ ys, rw (other, remove) (rw r refl), below k)

  pub get-none :
      (key : K) (xs : List (K × Pending W)) → get key xs ≡ none → All (λ y. key ≢ entry_key y) xs
  unfolding get
  get-none key [] h = tt
  get-none key ((j, q) ∷ xs) h = elim (Bool-cases (j == key)) [
    | inl same ↦ absurd (cc (rw same at h))
    | inr other ↦ (λ p. ne_of j key other (sym p), get-none key xs (rw other at h))
  ]

  pub get-In :
      (key : K) {p : Pending W} (xs : List (K × Pending W)) → get key xs ≡ some p → In (key, p) xs
  unfolding get
  get-In key [] h = cc
  get-In key {p} ((j, q) ∷ xs) h = elim (Bool-cases (j == key)) [
    | inl same ↦
        let e1 : j ≡ key = eq_of j key same in
        let e2 : q ≡ p = cc (rw same at h) in
        here (ap (λ z. (z, p)) (sym e1) ∙ ap (λ z. (j, z)) (sym e2))
    | inr other ↦ there (get-In key xs (rw other at h))
  ]
