-- ===== src/Prelude/Fallible.antt =====
-- Rust's `Result`, with `?` as the bind of a do block.
use mathlib.Core.Path.{◌≡◌, refl}
use mathlib.Core.Logic.{◌⊎◌, inl, inr}
use mathlib.Core.Bool.{Bool, true, false}
use mathlib.Core.List.{List, [], ◌∷◌}
use native.Mathlib.Omega.{arith}
use kakoi.Prelude.Lists.{In, here, there}

pub data Result {ℓ κ} (E : Type ℓ) (A : Type κ) : Type (ℓ ⊔ κ) where
  ok : A → Result E A
  err : E → Result E A

pub ok_same {ℓ κ} : {E : Type ℓ} {A : Type κ} {a b : A} → ◌≡◌ {A = Result E A} (ok a) (ok b) → a ≡ b
ok_same h = cc

pub err_same {ℓ κ} :
    {E : Type ℓ} {A : Type κ} {a b : E} → ◌≡◌ {A = Result E A} (err a) (err b) → a ≡ b
err_same h = cc

pub Result-cases {ℓ κ} :
    {E : Type ℓ} {A : Type κ} (r : Result E A) → ((e : E) × (r ≡ err e)) ⊎ ((a : A) × (r ≡ ok a))
Result-cases (ok a) = inr (a, refl)
Result-cases (err e) = inl (e, refl)

infixl 5 ◌>>=◌ ◌>>◌
abbrev pub ◌>>=◌ {ℓ κ μ} :
    {E : Type ℓ} {A : Type κ} {B : Type μ} → Result E A → (A → Result E B) → Result E B
ok a >>= f = f a
err e >>= f = err e

abbrev pub ◌>>◌ {ℓ μ} : {E : Type ℓ} {B : Type μ} → Result E (Unit {0}) → Result E B → Result E B
m >> k = m >>= λ _. k

-- A chain that ends well has had a first part that did.
pub >>=-eq-ok {ℓ κ μ} :
    {E : Type ℓ} {A : Type κ} {B : Type μ} (r : Result E A) (next : A → Result E B) {last : B}
    → (r >>= next) ≡ ok last
    → (first : A) × (r ≡ ok first) × (next first ≡ ok last)
>>=-eq-ok (ok first) next h = (first, refl, h)
>>=-eq-ok (err e) next h = cc

-- A check made under a condition.
abbrev pub check_if {ℓ} : {E : Type ℓ} → Bool → Result E (Unit {0}) → Result E (Unit {0})
check_if true r = r
check_if false r = ok tt

-- Two checks in sequence.
pub >>-eq-ok {ℓ μ} :
    {E : Type ℓ} {B : Type μ} (m : Result E (Unit {0})) (k : Result E B) {b : B}
    → (m >> k) ≡ ok b
    → (m ≡ ok tt) × (k ≡ ok b)
>>-eq-ok (ok a) k h = (refl, h)
>>-eq-ok (err e) k h = cc

module _ {ℓ κ} {E : Type ℓ} {A : Type κ} where
  -- A `for` loop whose body is a check that ends with `?`.
  unfoldable pub for_each : (A → Result E (Unit {0})) → List A → Result E (Unit {0})
  for_each f [] = ok tt
  for_each f (x ∷ xs) = elim (f x) [ ok _ ↦ for_each f xs | err e ↦ err e ]

  -- The loop ends well only if every round does.
  pub for_each-ok :
      (f : A → Result E (Unit {0})) (xs : List A) {a : A}
      → for_each f xs ≡ ok tt
      → In a xs
      → f a ≡ ok tt
  unfolding for_each
  for_each-ok f [] h m = elim m [ ]
  for_each-ok f (x ∷ xs) h (here e) = rw e (ground arith)
  for_each-ok f (x ∷ xs) h (there m) = for_each-ok f xs (ground arith) m

  -- And it ends well if every round does.
  pub for_each-all :
      (f : A → Result E (Unit {0})) (xs : List A)
      → ((a : A) → In a xs → f a ≡ ok tt)
      → for_each f xs ≡ ok tt
  unfolding for_each
  for_each-all f [] h = refl
  for_each-all f (x ∷ xs) h =
      rw (h x (here refl), for_each) (for_each-all f xs (λ a m. h a (there m)))
