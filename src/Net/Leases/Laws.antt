-- ===== src/Net/Leases/Laws.antt =====
-- crates/kakoi-net/src/leases.rs: what a book permits after grants are recorded.
use kakoi.Prelude.{
  ℕ, ◌≤◌, ◌<◌, Bool, true, false, ◌&&◌, ◌||◌, none, some, List, [], ◌∷◌, get, select, ltb, Eq, ◌==◌,
  nat_eq, pair_eq, eq_of, eq_refl, eq_false, ne_of, All, Distinct, ◌≡◌, ◌≢◌, refl, sym, ap, ◌∙◌,
  subst, inl, inr, arith, Bool-cases, In, here, there, map-In, select-In, All-In,
}
use kakoi.Net.Leases.{
  IpAddr, ip_eq, to_canonical, LeaseKey, LeaseBook, ActiveGrant, alive, later_of, prolong,
  record_grant, unexpired, permits, active,
}

abbrev key_of : LeaseKey × ℕ → LeaseKey
key_of entry = entry.0

-- The keys of a book are distinct, as those of a map are.
abbrev pub WellFormed : LeaseBook → Type 0
WellFormed book = Distinct key_of book.deadlines

-- The key that a rule and an address are kept under.
abbrev pub the_key : ℕ → IpAddr → LeaseKey
the_key rule address = (rule, to_canonical address)

abbrev the_grant : LeaseKey × ℕ → ActiveGrant
the_grant entry = record { rule = entry.0.0; address = entry.0.1; deadline = entry.1 }

select-All :
    (P : LeaseKey × ℕ → Type 0) (now : ℕ) (xs : List (LeaseKey × ℕ))
    → All P xs
    → All P (select (alive now) xs)
unfolding select
select-All P now [] a = tt
select-All P now (x ∷ xs) a = elim (Bool-cases (alive now x)) [
  | inl yes_x ↦ rw (yes_x, select) (a.0, select-All P now xs a.1)
  | inr no_x ↦ rw (no_x, select) (select-All P now xs a.1)
]

select-Distinct :
    (now : ℕ) (xs : List (LeaseKey × ℕ))
    → Distinct key_of xs
    → Distinct key_of (select (alive now) xs)
unfolding select
select-Distinct now [] d = tt
select-Distinct now (x ∷ xs) d = elim (Bool-cases (alive now x)) [
  | inl yes_x ↦
      rw (yes_x, select)
        (select-All (λ y. key_of x ≢ key_of y) now xs d.0, select-Distinct now xs d.1)
  | inr no_x ↦ rw (no_x, select) (select-Distinct now xs d.1)
]

prolong-All :
    (j key : LeaseKey) (deadline : ℕ) (xs : List (LeaseKey × ℕ))
    → j ≢ key
    → All (λ y. j ≢ key_of y) xs
    → All (λ y. j ≢ key_of y) (prolong key deadline xs)
unfolding prolong
prolong-All j key deadline [] n a = (n, tt)
prolong-All j key deadline ((i, old) ∷ xs) n a = elim (Bool-cases (i == key)) [
  | inl same ↦ rw (same, prolong) (a.0, a.1)
  | inr other ↦ rw (other, prolong) (a.0, prolong-All j key deadline xs n a.1)
]

prolong-Distinct :
    (key : LeaseKey) (deadline : ℕ) (xs : List (LeaseKey × ℕ))
    → Distinct key_of xs
    → Distinct key_of (prolong key deadline xs)
unfolding prolong
prolong-Distinct key deadline [] d = (tt, tt)
prolong-Distinct key deadline ((i, old) ∷ xs) d = elim (Bool-cases (i == key)) [
  | inl same ↦ rw (same, prolong) d
  | inr other ↦
      rw (other, prolong)
        (
          prolong-All i key deadline xs (ne_of i key other) d.0,
          prolong-Distinct key deadline xs d.1,
        )
]

-- Recording keeps the keys distinct.
record_grant-WellFormed :
    (book : LeaseBook) (rule : ℕ) (address : IpAddr) (deadline now : ℕ)
    → WellFormed book
    → WellFormed (record_grant book rule address deadline now)
unfolding record_grant
record_grant-WellFormed book rule address deadline now d = elim (Bool-cases (ltb now deadline)) [
  | inl live ↦
      rw (live, record_grant)
        (prolong-Distinct (rule, to_canonical address) deadline (select (alive now) book.deadlines)
          (select-Distinct now book.deadlines d))
  | inr over ↦ rw (over, record_grant) (select-Distinct now book.deadlines d)
]

get-absent :
    (key : LeaseKey) (xs : List (LeaseKey × ℕ)) → All (λ y. key ≢ key_of y) xs → get key xs ≡ none
unfolding get
get-absent key [] a = refl
get-absent key ((i, old) ∷ xs) a =
    let other : (i == key) ≡ false = eq_false i key (λ p. a.0 (sym p)) in
    rw (other, get) (get-absent key xs a.1)

-- Dropping what has expired at `now` changes nothing at `now` or later.
get-select :
    (key : LeaseKey) (now later : ℕ) (xs : List (LeaseKey × ℕ))
    → now ≤ later
    → Distinct key_of xs
    → unexpired later (get key (select (alive now) xs)) ≡ unexpired later (get key xs)
unfolding get select
get-select key now later [] n d = refl
get-select key now later ((i, old) ∷ xs) n d = elim (Bool-cases (ltb now old)) [
  | inl live ↦ elim (Bool-cases (i == key)) [
    | inl same ↦ rw (live, select) (rw (same, get) refl)
    | inr other ↦ rw (live, select) (rw (other, get) (get-select key now later xs n d.1))
  ]
  | inr over ↦ elim (Bool-cases (i == key)) [
    | inl same ↦
        let gone = get-absent key (select (alive now) xs) (
          subst (λ z. All (λ y. z ≢ key_of y) (select (alive now) xs)) (eq_of i key same)
            (select-All (λ y. i ≢ key_of y) now xs d.0)) in
        let past : ltb later old ≡ false = ground arith in
        rw (over, select) (rw (gone, same, get) (sym past))
    | inr other ↦ rw (over, select) (rw (other, get) (get-select key now later xs n d.1))
  ]
]

longer_deadline :
    (later old deadline : ℕ)
    → ltb later (later_of old deadline) ≡ (ltb later old || ltb later deadline)
longer_deadline later old deadline = ground arith

or_false : (b : Bool) → b ≡ (b || false)
or_false true = refl
or_false false = refl

get-prolong :
    {K : Type 0} ⦃e : Eq K⦄ (key asked : K) (deadline later : ℕ) (xs : List (K × ℕ))
    → unexpired later (get asked (prolong key deadline xs))
      ≡ (unexpired later (get asked xs) || (key == asked && ltb later deadline))
unfolding get prolong
get-prolong key asked deadline later [] = elim (Bool-cases (key == asked)) [
  | inl own ↦ rw own refl
  | inr other ↦ rw other refl
]
get-prolong key asked deadline later ((i, old) ∷ xs) = elim (Bool-cases (i == key)) [
  | inl same ↦ elim (Bool-cases (i == asked)) [
    | inl own ↦
        let asked_key : (key == asked) ≡ true =
          subst (λ z. (z == asked) ≡ true) (eq_of i key same) own in
        rw (same, own, asked_key, get, prolong) (longer_deadline later old deadline)
    | inr other ↦
        let asked_else : (key == asked) ≡ false =
          subst (λ z. (z == asked) ≡ false) (eq_of i key same) other in
        rw (same, other, asked_else, get, prolong) (or_false _)
  ]
  | inr apart ↦ elim (Bool-cases (i == asked)) [
    | inl own ↦
        let asked_else : (key == asked) ≡ false =
          eq_false key asked (λ p. ne_of i key apart (eq_of i asked own ∙ sym p)) in
        rw (apart, own, asked_else, get, prolong) (or_false _)
    | inr other ↦ rw (apart, other, get, prolong) (get-prolong key asked deadline later xs)
  ]
]

no_grant : (a b c : Bool) → c ≡ false → a ≡ (a || (b && c))
no_grant true b c h = refl
no_grant false true c h = sym h
no_grant false false c h = refl

In-get :
    {key : LeaseKey} {expiry : ℕ} (xs : List (LeaseKey × ℕ))
    → Distinct key_of xs
    → In (key, expiry) xs
    → get key xs ≡ some expiry
unfolding get
In-get [] d m = elim m [ ]
In-get {key} {expiry} ((i, old) ∷ xs) d (here e) =
    let same : (i == key) ≡ true = subst (λ z. (z.0 == key) ≡ true) e (eq_refl key) in
    rw (same, get) (ap (λ z. some z.1) (sym e))
In-get {key} ((i, old) ∷ xs) d (there m) =
    let other : (i == key) ≡ false = eq_false i key (All-In (λ y. i ≢ key_of y) xs d.0 m) in
    rw (other, get) (In-get xs d.1 m)

-- After a grant is recorded at `now`, a book with distinct keys permits an address at `now` or later
-- exactly when it did before, or when the grant is for the same rule and the same canonical address and
-- its deadline has not passed.
pub record_grant-permits :
    (book : LeaseBook) (rule : ℕ) (address : IpAddr) (deadline now : ℕ) (asked_rule : ℕ)
    (asked : IpAddr) (later : ℕ)
    → WellFormed book
    → now ≤ later
    → permits (record_grant book rule address deadline now) asked_rule asked later ≡ (
        permits book asked_rule asked later
        || ((the_key rule address == the_key asked_rule asked) && ltb later deadline))
unfolding permits record_grant
record_grant-permits book rule address deadline now asked_rule asked later d n =
    let key = the_key asked_rule asked in
    let same = get-select key now later book.deadlines n d in
    elim (Bool-cases (ltb now deadline)) [
      | inl live ↦
          rw (live, record_grant)
            (get-prolong (the_key rule address) key deadline later
                (select (alive now) book.deadlines)
              ∙ ap (λ z. z || ((the_key rule address == key) && ltb later deadline)) same)
      | inr over ↦
          let past : ltb later deadline ≡ false = ground arith in
          rw (over, record_grant) (same ∙ no_grant _ _ _ past)
    ]

-- A book with distinct keys permits each grant that `active` lists at `now`, when the grant's address is
-- canonical, and the deadline that `active` shows has not passed.
active-permits :
    (book : LeaseBook) (now : ℕ) {grant : ActiveGrant}
    → WellFormed book
    → In grant (active book now)
    → to_canonical grant.address ≡ grant.address
    → (permits book grant.rule grant.address now ≡ true) × (now < grant.deadline)
unfolding active permits
active-permits book now {grant} d m canonical =
    let (((rule, address), expiry), i, e) =
      map-In (λ entry. the_grant entry) (select (alive now) book.deadlines) m in
    let (k, live) = select-In (alive now) book.deadlines i in
    let found = In-get book.deadlines d k in
    let fixed : to_canonical address ≡ address =
      subst (λ z. to_canonical z.address ≡ z.address) e canonical in
    subst
      (λ z.
        (unexpired now (get (z.rule, to_canonical z.address) book.deadlines) ≡ true)
        × (now < z.deadline))
      (sym e) (rw (fixed, found) live, ground arith)
