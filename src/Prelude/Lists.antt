-- ===== src/Prelude/Lists.antt =====
-- The iterator methods that the code uses on slices, with the lemmas that its theorems apply.
use Prim.Native.Nat.{ℕ, zero, suc, ◌+◌}
use mathlib.Core.Path.{◌≡◌, ◌∙◌, refl, sym, ap, subst}
use mathlib.Core.Logic.{◌⊎◌, inl, inr}
use mathlib.Core.Bool.{Bool, true, false, ◌&&◌, ◌||◌}
use mathlib.Core.Option.{Option, none, some}
use mathlib.Core.List.{List, [], ◌∷◌, ◌++◌, map}
use native.Mathlib.Omega.{arith}
use kakoi.Prelude.Tests.{if◌then◌else◌, Bool-cases, Option-cases}
use kakoi.Prelude.Equality.{Eq, ◌==◌, eq_of, eq_refl}

-- An element stands at some place of a list.
pub data In {ℓ} {A : Type ℓ} (a : A) : List A → Type ℓ where
  here : {x : A} {xs : List A} → a ≡ x → In a (x ∷ xs)
  there : {x : A} {xs : List A} → In a xs → In a (x ∷ xs)

module _ {ℓ} {A : Type ℓ} where
  abbrev pub length : List A → ℕ
  length [] = 0
  length (x ∷ xs) = suc (length xs)

  abbrev pub take : ℕ → List A → List A
  take zero xs = []
  take (suc n) [] = []
  take (suc n) (x ∷ xs) = x ∷ take n xs

  abbrev pub drop : ℕ → List A → List A
  drop zero xs = xs
  drop (suc n) [] = []
  drop (suc n) (x ∷ xs) = drop n xs

  abbrev pub All {κ} : (A → Type κ) → List A → Type κ
  All P [] = Unit
  All P (x ∷ xs) = P x × All P xs

  pub length-append : (xs ys : List A) → length (xs ++ ys) ≡ length xs + length ys
  length-append [] ys = omega arith
  length-append (x ∷ xs) ys = omega (arith, length-append xs ys)

  pub In-append_left : {a : A} (xs ys : List A) → In a xs → In a (xs ++ ys)
  In-append_left [] ys m = elim m [ ]
  In-append_left (x ∷ xs) ys (here p) = here p
  In-append_left (x ∷ xs) ys (there h) = there (In-append_left xs ys h)

  pub In-append_right : {a : A} (xs ys : List A) → In a ys → In a (xs ++ ys)
  In-append_right [] ys h = h
  In-append_right (x ∷ xs) ys h = there (In-append_right xs ys h)

  pub In-append : {a : A} (xs ys : List A) → In a (xs ++ ys) → In a xs ⊎ In a ys
  In-append [] ys h = inr h
  In-append (x ∷ xs) ys (here p) = inl (here p)
  In-append (x ∷ xs) ys (there h) = elim (In-append xs ys h) [
    | inl l ↦ inl (there l)
    | inr r ↦ inr r
  ]

  pub All-In {κ} : (P : A → Type κ) {a : A} (xs : List A) → All P xs → In a xs → P a
  All-In P [] h m = elim m [ ]
  All-In P (x ∷ xs) h (here p) = subst P (sym p) h.0
  All-In P (x ∷ xs) h (there m) = All-In P xs h.1 m

  pub All-of {κ} : (P : A → Type κ) (xs : List A) → ((a : A) → In a xs → P a) → All P xs
  All-of P [] h = tt
  All-of P (x ∷ xs) h = (h x (here refl), All-of P xs (λ a m. h a (there m)))

  pub All-map {κ μ} :
      {P : A → Type κ} {Q : A → Type μ} (xs : List A) → ((a : A) → P a → Q a) → All P xs → All Q xs
  All-map [] f h = tt
  All-map (x ∷ xs) f h = (f x h.0, All-map xs f h.1)

  pub All-append {κ} : (P : A → Type κ) (xs ys : List A) → All P xs → All P ys → All P (xs ++ ys)
  All-append P [] ys h k = k
  All-append P (x ∷ xs) ys h k = (h.0, All-append P xs ys h.1 k)

  -- `Iterator::any`
  unfoldable pub any : (A → Bool) → List A → Bool
  any p [] = false
  any p (x ∷ xs) = p x || any p xs

  -- `Iterator::all`
  unfoldable pub all : (A → Bool) → List A → Bool
  all p [] = true
  all p (x ∷ xs) = p x && all p xs

  -- `Iterator::find`
  unfoldable pub find : (A → Bool) → List A → Option A
  find p [] = none
  find p (x ∷ xs) = if p x then some x else find p xs

  -- `Iterator::rfind`
  unfoldable pub rfind : (A → Bool) → List A → Option A
  rfind p [] = none
  rfind p (x ∷ xs) = elim (rfind p xs) [ some y ↦ some y | none ↦ if p x then some x else none ]

  -- `Iterator::filter`
  unfoldable pub select : (A → Bool) → List A → List A
  select p [] = []
  select p (x ∷ xs) = let rest = select p xs in if p x then x ∷ rest else rest

  pub any-false : (p : A → Bool) {a : A} (xs : List A) → any p xs ≡ false → In a xs → p a ≡ false
  unfolding any
  any-false p [] h m = elim m [ ]
  any-false p (x ∷ xs) h (here e) = rw e (ground arith)
  any-false p (x ∷ xs) h (there m) = any-false p xs (ground arith) m

  pub any-of : (p : A → Bool) {a : A} (xs : List A) → In a xs → p a ≡ true → any p xs ≡ true
  unfolding any
  any-of p [] m h = elim m [ ]
  any-of p {a} (x ∷ xs) (here e) h =
      let hx : p x ≡ true = subst (λ z. p z ≡ true) e h in ground arith
  any-of p (x ∷ xs) (there m) h = ground (arith, any-of p xs m h)

  pub any-true : (p : A → Bool) (xs : List A) → any p xs ≡ true → (a : A) × In a xs × (p a ≡ true)
  unfolding any
  any-true p [] h = cc
  any-true p (x ∷ xs) h = elim (Bool-cases (p x)) [
    | inl yes_x ↦ (x, here refl, yes_x)
    | inr no_x ↦ let (a, m, q) = any-true p xs (ground arith) in (a, there m, q)
  ]

  pub all-In : (p : A → Bool) {a : A} (xs : List A) → all p xs ≡ true → In a xs → p a ≡ true
  unfolding all
  all-In p [] h m = elim m [ ]
  all-In p (x ∷ xs) h (here e) = rw e (ground arith)
  all-In p (x ∷ xs) h (there m) = all-In p xs (ground arith) m

  pub find-none : (p : A → Bool) {a : A} (xs : List A) → find p xs ≡ none → In a xs → p a ≡ false
  unfolding find
  find-none p [] h m = elim m [ ]
  find-none p (x ∷ xs) h (here e) = rw e (ground arith)
  find-none p (x ∷ xs) h (there m) = find-none p xs (ground arith) m

  pub find-some : (p : A → Bool) {a : A} (xs : List A) → find p xs ≡ some a → In a xs × (p a ≡ true)
  unfolding find
  find-some p [] h = cc
  find-some p {a} (x ∷ xs) h = elim (Bool-cases (p x)) [
    | inl yes_x ↦ let e : x ≡ a = ground arith in (here (sym e), subst (λ z. p z ≡ true) e yes_x)
    | inr no_x ↦ let (m, q) = find-some p xs (ground arith) in (there m, q)
  ]

  pub rfind-none : (p : A → Bool) {a : A} (xs : List A) → rfind p xs ≡ none → In a xs → p a ≡ false
  unfolding rfind
  rfind-none p [] h m = elim m [ ]
  rfind-none p (x ∷ xs) h (here e) = rw e (ground arith)
  rfind-none p (x ∷ xs) h (there m) = rfind-none p xs (ground arith) m

  pub rfind-some :
      (p : A → Bool) {a : A} (xs : List A) → rfind p xs ≡ some a → In a xs × (p a ≡ true)
  unfolding rfind
  rfind-some p [] h = cc
  rfind-some p {a} (x ∷ xs) h = elim (Option-cases (rfind p xs)) [
    | inl e ↦ elim (Bool-cases (p x)) [
      | inl yes_x ↦ let q : x ≡ a = ground arith in (here (sym q), subst (λ z. p z ≡ true) q yes_x)
      | inr no_x ↦ absurd (ground arith)
    ]
    | inr (y, e) ↦ let (m, q) = rfind-some p xs (ground arith) in (there m, q)
  ]

  pub In-select : (p : A → Bool) {a : A} (xs : List A) → In a xs → p a ≡ true → In a (select p xs)
  unfolding select
  In-select p [] m h = elim m [ ]
  In-select p {a} (x ∷ xs) (here e) h =
      let hx : p x ≡ true = subst (λ z. p z ≡ true) e h in rw hx (here e)
  In-select p (x ∷ xs) (there m) h = elim (Bool-cases (p x)) [
    | inl yes_x ↦ rw yes_x (there (In-select p xs m h))
    | inr no_x ↦ rw no_x (In-select p xs m h)
  ]

  pub select-In : (p : A → Bool) {a : A} (xs : List A) → In a (select p xs) → In a xs × (p a ≡ true)
  unfolding select
  select-In p [] m = elim m [ ]
  select-In p {a} (x ∷ xs) m = elim (Bool-cases (p x)) [
    | inl yes_x ↦ elim (rw yes_x at m) [
      | here e ↦ (here e, subst (λ z. p z ≡ true) (sym e) yes_x)
      | there m' ↦ let (l, q) = select-In p xs m' in (there l, q)
    ]
    | inr no_x ↦ let (l, q) = select-In p xs (rw no_x at m) in (there l, q)
  ]

module _ {ℓ κ} {A : Type ℓ} {B : Type κ} where
  -- `Iterator::filter_map`
  unfoldable pub filter_map : (A → Option B) → List A → List B
  filter_map f [] = []
  filter_map f (x ∷ xs) =
      let rest = filter_map f xs in elim (f x) [ none ↦ rest | some y ↦ y ∷ rest ]

  -- `Iterator::find_map`
  unfoldable pub find_map : (A → Option B) → List A → Option B
  find_map f [] = none
  find_map f (x ∷ xs) = elim (f x) [ none ↦ find_map f xs | some y ↦ some y ]

  pub In-filter_map :
      (f : A → Option B) {a : A} {b : B} (xs : List A)
      → In a xs
      → f a ≡ some b
      → In b (filter_map f xs)
  unfolding filter_map
  In-filter_map f [] m h = elim m [ ]
  In-filter_map f {a} {b} (x ∷ xs) (here e) h =
      let hx : f x ≡ some b = subst (λ z. f z ≡ some b) e h in rw (hx, filter_map) (here refl)
  In-filter_map f (x ∷ xs) (there m) h = elim (Option-cases (f x)) [
    | inl e ↦ rw (e, filter_map) (In-filter_map f xs m h)
    | inr (y, e) ↦ rw (e, filter_map) (there (In-filter_map f xs m h))
  ]

  pub filter_map-In :
      (f : A → Option B) {b : B} (xs : List A)
      → In b (filter_map f xs)
      → (a : A) × In a xs × (f a ≡ some b)
  unfolding filter_map
  filter_map-In f [] m = elim m [ ]
  filter_map-In f {b} (x ∷ xs) m = elim (Option-cases (f x)) [
    | inl e ↦ let (a, i, h) = filter_map-In f xs (rw (e, filter_map) at m) in (a, there i, h)
    | inr (y, e) ↦ elim (rw (e, filter_map) at m) [
      | here same ↦ (x, here refl, e ∙ ap some (sym same))
      | there m' ↦ let (a, i, h) = filter_map-In f xs m' in (a, there i, h)
    ]
  ]

  pub filter_map-All {μ} :
      (P : B → Type μ) (f : A → Option B) (xs : List A)
      → ((a : A) (b : B) → f a ≡ some b → P b)
      → All P (filter_map f xs)
  unfolding filter_map
  filter_map-All P f [] h = tt
  filter_map-All P f (x ∷ xs) h = elim (Option-cases (f x)) [
    | inl e ↦ rw (e, filter_map) (filter_map-All P f xs h)
    | inr (y, e) ↦ rw (e, filter_map) (h x y e, filter_map-All P f xs h)
  ]

  pub find_map-none :
      (f : A → Option B) {a : A} (xs : List A) → find_map f xs ≡ none → In a xs → f a ≡ none
  unfolding find_map
  find_map-none f [] h m = elim m [ ]
  find_map-none f (x ∷ xs) h (here e) = rw e (ground arith)
  find_map-none f (x ∷ xs) h (there m) = find_map-none f xs (ground arith) m

  pub find_map-some :
      (f : A → Option B) {b : B} (xs : List A)
      → find_map f xs ≡ some b
      → (a : A) × In a xs × (f a ≡ some b)
  unfolding find_map
  find_map-some f [] h = cc
  find_map-some f (x ∷ xs) h = elim (Option-cases (f x)) [
    | inl e ↦ let (a, m, q) = find_map-some f xs (ground arith) in (a, there m, q)
    | inr (y, e) ↦ (x, here refl, ground arith)
  ]

  pub In-map : (f : A → B) {a : A} (xs : List A) → In a xs → In (f a) (map f xs)
  In-map f [] m = elim m [ ]
  In-map f (x ∷ xs) (here e) = here (ap f e)
  In-map f (x ∷ xs) (there m) = there (In-map f xs m)

pub map-In {ℓ κ} :
    {A : Type ℓ} {B : Type κ} (f : A → B) {b : B} (xs : List A)
    → In b (map f xs)
    → (a : A) × In a xs × (b ≡ f a)
map-In f [] m = elim m [ ]
map-In f (x ∷ xs) (here e) = (x, here refl, e)
map-In f (x ∷ xs) (there m) = let (a, i, e) = map-In f xs m in (a, there i, e)

module _ {ℓ κ} {K : Type ℓ} {V : Type κ} ⦃e : Eq K⦄ where
  -- `BTreeMap::get` on an association list.
  unfoldable pub get : K → List (K × V) → Option V
  get k [] = none
  get k ((j, v) ∷ m) = if j == k then some v else get k m

module _ {ℓ} {A : Type ℓ} ⦃e : Eq A⦄ where
  -- `slice::contains`
  abbrev pub contains : List A → A → Bool
  contains xs a = any (λ x. x == a) xs

  contains-of : {a : A} (xs : List A) → In a xs → contains xs a ≡ true
  contains-of {a} xs m = any-of (λ x. x == a) xs m (eq_refl a)

  contains-In : (a : A) (xs : List A) → contains xs a ≡ true → In a xs
  contains-In a xs h =
      let (x, m, q) = any-true (λ x. x == a) xs h in subst (λ z. In z xs) (eq_of x a q) m
