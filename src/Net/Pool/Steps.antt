-- ===== src/Net/Pool/Steps.antt =====
-- crates/kakoi-net/src/dns/pool.rs: what `push`, `retain` and the taken waiters do to the entries.
use kakoi.Prelude.{
  ℕ, suc, ◌≤◌, Bool, true, false, not, Option, none, some, List, [], ◌∷◌, ◌++◌, length, get, select,
  All, All-In, Distinct, In, here, there, ◌≡◌, ◌≢◌, refl, sym, ap, subst, inl, inr, arith,
  Bool-cases, eqb, Eq, ◌==◌, ne_of,
}
use kakoi.Net.Pool.{Pending, push, taken}
use kakoi.Net.Pool.Entries.{waiters_of, entry_id, entry_key}

abbrev pub waiters_or_none {ℓ} : {W : Type ℓ} → Option (List W) → List W
waiters_or_none none = []
waiters_or_none (some ws) = ws

module _ {K W : Type 0} ⦃e : Eq K⦄ where
  -- A property that the new waiters keep, of every entry.
  pub push-All {κ} :
      (P : K × Pending W → Type κ) (key : K) (waiter : W) {p : Pending W}
      (xs : List (K × Pending W))
      → get key xs ≡ some p
      → All P xs
      → ((j : K) → P (j, p) → P (j, record { id = p.id; waiters = p.waiters ++ (waiter ∷ []) }))
      → All P (push key waiter xs)
  unfolding get push
  push-All P key waiter [] h a keep = tt
  push-All P key waiter {p} ((j, q) ∷ xs) h a keep = elim (Bool-cases (j == key)) [
    | inl same ↦
        let e2 : p ≡ q = sym (cc (rw same at h)) in
        let keep_q =
          subst
            (λ z.
              (i : K)
              → P (i, z)
              → P (i, record { id = z.id; waiters = z.waiters ++ (waiter ∷ []) }))
            e2 keep in
        rw (same, push) (keep_q j a.0, a.1)
    | inr other ↦ rw (other, push) (a.0, push-All P key waiter xs (rw other at h) a.1 keep)
  ]

  pub push-length :
      (key : K) (waiter : W) (xs : List (K × Pending W)) → length (push key waiter xs) ≡ length xs
  unfolding push
  push-length key waiter [] = refl
  push-length key waiter ((j, q) ∷ xs) = elim (Bool-cases (j == key)) [
    | inl same ↦ rw (same, push) refl
    | inr other ↦ rw (other, push) (ap suc (push-length key waiter xs))
  ]

  push-Distinct_ids :
      (key : K) (waiter : W) {p : Pending W} (xs : List (K × Pending W))
      → get key xs ≡ some p
      → Distinct entry_id xs
      → Distinct entry_id (push key waiter xs)
  unfolding get push
  push-Distinct_ids key waiter [] h d = tt
  push-Distinct_ids key waiter ((j, q) ∷ xs) h d = elim (Bool-cases (j == key)) [
    | inl same ↦ rw (same, push) d
    | inr other ↦
        rw (other, push)
          (
            push-All (λ y. q.id ≢ entry_id y) key waiter xs (rw other at h) d.0
                (λ i differs. differs),
            push-Distinct_ids key waiter xs (rw other at h) d.1,
          )
  ]

  push-Distinct_keys :
      (key : K) (waiter : W) {p : Pending W} (xs : List (K × Pending W))
      → get key xs ≡ some p
      → Distinct entry_key xs
      → Distinct entry_key (push key waiter xs)
  unfolding get push
  push-Distinct_keys key waiter [] h d = tt
  push-Distinct_keys key waiter ((j, q) ∷ xs) h d = elim (Bool-cases (j == key)) [
    | inl same ↦ rw (same, push) d
    | inr other ↦
        rw (other, push)
          (
            push-All (λ y. j ≢ entry_key y) key waiter xs (rw other at h) d.0
                (λ i differs. differs),
            push-Distinct_keys key waiter xs (rw other at h) d.1,
          )
  ]

  pub push-Distinct :
      (key : K) (waiter : W) {p : Pending W} (xs : List (K × Pending W))
      → get key xs ≡ some p
      → Distinct entry_id xs
      → Distinct entry_key xs
      → Distinct entry_id (push key waiter xs) × Distinct entry_key (push key waiter xs)
  push-Distinct key waiter xs h d k =
      (push-Distinct_ids key waiter xs h d, push-Distinct_keys key waiter xs h k)

  -- The waiters of the resolution of a key, when no other entry has its number.
  pub get-waiters :
      (key : K) {p : Pending W} (xs : List (K × Pending W))
      → In (key, p) xs
      → Distinct entry_id xs
      → waiters_of p.id xs ≡ some p.waiters
  unfolding waiters_of
  get-waiters key [] m d = elim m [ ]
  get-waiters key {p} ((j, q) ∷ xs) (here s) d =
      let e2 : p ≡ q = ap (λ z. z.1) s in
      let same : eqb q.id p.id ≡ true = subst (λ z. eqb z.id p.id ≡ true) e2 (ground arith) in
      rw same (ap (λ z. some z.waiters) (sym e2))
  get-waiters key {p} ((j, q) ∷ xs) (there m) d =
      let differs : q.id ≢ p.id = All-In (λ y. q.id ≢ entry_id y) xs d.0 m in
      let other : eqb q.id p.id ≡ false = ground arith in rw other (get-waiters key xs m d.1)

  pub push-waiters :
      (key : K) (waiter : W) (i : ℕ) {p : Pending W} (xs : List (K × Pending W))
      → get key xs ≡ some p
      → p.id ≢ i
      → waiters_of i (push key waiter xs) ≡ waiters_of i xs
  unfolding get push waiters_of
  push-waiters key waiter i [] h n = refl
  push-waiters key waiter i {p} ((j, q) ∷ xs) h n = elim (Bool-cases (j == key)) [
    | inl same ↦
        let e2 : q ≡ p = cc (rw same at h) in
        let other : eqb q.id i ≡ false = subst (λ z. eqb z.id i ≡ false) (sym e2) (ground arith) in
        rw (same, push) (rw (other, waiters_of) refl)
    | inr other ↦ elim (Bool-cases (eqb q.id i)) [
      | inl here_i ↦ rw (other, push) (rw (here_i, waiters_of) refl)
      | inr else_i ↦
          rw (other, push)
            (rw (else_i, waiters_of) (push-waiters key waiter i xs (rw other at h) n))
    ]
  ]

  pub push-own :
      (key : K) (waiter : W) {p : Pending W} (xs : List (K × Pending W))
      → get key xs ≡ some p
      → In (key, p) xs
      → Distinct entry_id xs
      → waiters_of p.id (push key waiter xs) ≡ some (p.waiters ++ (waiter ∷ []))
  unfolding get push waiters_of
  push-own key waiter [] h m d = elim m [ ]
  push-own key waiter {p} ((j, q) ∷ xs) h m d = elim (Bool-cases (j == key)) [
    | inl same ↦
        let e2 : q ≡ p = cc (rw same at h) in
        let own : eqb q.id p.id ≡ true = subst (λ z. eqb q.id z.id ≡ true) e2 (ground arith) in
        rw (same, push) (rw (own, waiters_of) (ap (λ z. some (z.waiters ++ (waiter ∷ []))) e2))
    | inr other ↦ elim m [
      | here s ↦ absurd (ne_of j key other (sym (ap (λ z. z.0) s)))
      | there i ↦
          let differs : q.id ≢ p.id = All-In (λ y. q.id ≢ entry_id y) xs d.0 i in
          let else_id : eqb q.id p.id ≡ false = ground arith in
          rw (other, push) (rw (else_id, waiters_of) (push-own key waiter xs (rw other at h) i d.1))
    ]
  ]

  -- `retain` keeps what holds of every entry.
  pub select-All {κ} :
      (P : K × Pending W → Type κ) (q : K × Pending W → Bool) (xs : List (K × Pending W))
      → All P xs
      → All P (select q xs)
  unfolding select
  select-All P q [] a = tt
  select-All P q (x ∷ xs) a = elim (Bool-cases (q x)) [
    | inl yes_x ↦ rw (yes_x, select) (a.0, select-All P q xs a.1)
    | inr no_x ↦ rw (no_x, select) (select-All P q xs a.1)
  ]

  pub select-Distinct :
      {B : Type 0} (f : K × Pending W → B) (q : K × Pending W → Bool) (xs : List (K × Pending W))
      → Distinct f xs
      → Distinct f (select q xs)
  unfolding select
  select-Distinct f q [] d = tt
  select-Distinct f q (x ∷ xs) d = elim (Bool-cases (q x)) [
    | inl yes_x ↦
        rw (yes_x, select) (select-All (λ y. f x ≢ f y) q xs d.0, select-Distinct f q xs d.1)
    | inr no_x ↦ rw (no_x, select) (select-Distinct f q xs d.1)
  ]

  pub select-length :
      (q : K × Pending W → Bool) (xs : List (K × Pending W)) → length (select q xs) ≤ length xs
  unfolding select
  select-length q [] = omega arith
  select-length q (x ∷ xs) = elim (Bool-cases (q x)) [
    | inl yes_x ↦ rw (yes_x, select) (omega (arith, select-length q xs))
    | inr no_x ↦ rw (no_x, select) (omega (arith, select-length q xs))
  ]

  abbrev pub kept : ℕ → K × Pending W → Bool
  kept id entry = not (eqb entry.1.id id)

  pub select-waiters :
      (id i : ℕ) (xs : List (K × Pending W))
      → i ≢ id
      → waiters_of i (select (kept id) xs) ≡ waiters_of i xs
  unfolding select waiters_of
  select-waiters id i [] n = refl
  select-waiters id i ((j, q) ∷ xs) n = elim (Bool-cases (eqb q.id id)) [
    | inl gone ↦
        let other : eqb q.id i ≡ false = ground arith in
        rw (gone, select) (rw (other, waiters_of) (select-waiters id i xs n))
    | inr stays ↦ elim (Bool-cases (eqb q.id i)) [
      | inl here_i ↦ rw (stays, select) (rw (here_i, waiters_of) refl)
      | inr else_i ↦ rw (stays, select) (rw (else_i, waiters_of) (select-waiters id i xs n))
    ]
  ]

  pub select-gone :
      (id : ℕ) (xs : List (K × Pending W)) → waiters_of id (select (kept id) xs) ≡ none
  unfolding select waiters_of
  select-gone id [] = refl
  select-gone id ((j, q) ∷ xs) = elim (Bool-cases (eqb q.id id)) [
    | inl gone ↦ rw (gone, select) (select-gone id xs)
    | inr stays ↦ rw (stays, select) (rw (stays, waiters_of) (select-gone id xs))
  ]

  -- No entry has the number: no waiter is taken.
  taken-none :
      (id : ℕ) (ws : List W) (xs : List (K × Pending W))
      → All (λ y. id ≢ entry_id y) xs
      → taken id ws xs ≡ ws
  unfolding taken
  taken-none id ws [] a = refl
  taken-none id ws ((j, q) ∷ xs) a =
      let other : eqb q.id id ≡ false = ground (arith, a.0) in
      rw (other, taken) (taken-none id ws xs a.1)

  pub taken-waiters :
      (id : ℕ) (xs : List (K × Pending W))
      → Distinct entry_id xs
      → taken id [] xs ≡ waiters_or_none (waiters_of id xs)
  unfolding taken waiters_of
  taken-waiters id [] d = refl
  taken-waiters id ((j, q) ∷ xs) d = elim (Bool-cases (eqb q.id id)) [
    | inl own ↦
        let same : q.id ≡ id = ground arith in
        rw (own, taken)
          (taken-none id q.waiters xs (subst (λ z. All (λ y. z ≢ entry_id y) xs) same d.0))
    | inr other ↦ rw (other, taken) (taken-waiters id xs d.1)
  ]
