-- ===== src/Net/Pool/Laws.antt =====
-- crates/kakoi-net/src/dns/pool.rs: the pool implements a map from resolutions to their waiters.
use kakoi.Prelude.{
  ℕ, ◌+◌, ◌||◌, ||-false, ◌≤◌, ◌<◌, ◌^◌, false, not, Option, none, some, List, [], ◌∷◌, ◌++◌,
  length, length-append, get, find, find-some, select, All, All-In, All-map, Distinct, In, ◌≡◌, ◌≢◌,
  refl, sym, subst, inl, inr, arith, Bool-cases, Option-cases, eqb, ltb, if◌then◌else◌, Eq, Result,
  ok, err,
}
use kakoi.Net.Pool.{
  Pending, ResolutionPool, Admission, CapacityError, start, join, push, with_pending, admit_new,
  from_one, admit, rekey, complete, new, max_dns_concurrent_resolutions,
  max_dns_waiters_per_resolution,
}
use kakoi.Net.Pool.Entries.{
  waiters_of, entry_id, entry_key, Pick, Pick-All, Pick-Distinct, Pick-length, Pick-waiters,
  remove-Pick, get-none, get-In,
}
use kakoi.Net.Pool.Steps.{
  push-All, push-length, push-Distinct, push-waiters, push-own, get-waiters, select-All,
  select-Distinct, select-length, select-waiters, select-gone, kept, taken-waiters, waiters_or_none,
}

module _ {K W : Type 0} ⦃e : Eq K⦄ where
  -- The entries are within the limits and have distinct keys and numbers, all used before.
  pub record WellFormed (pool : ResolutionPool K W) : Type 0 where
    pub keys : Distinct entry_key pool.pending
    pub ids : Distinct entry_id pool.pending
    pub fresh : All (λ y. entry_id y < pool.next_id) pool.pending
    pub room : length pool.pending ≤ pool.max_resolutions
    pub waiting :
        All (λ y. (1 ≤ length y.1.waiters) × (length y.1.waiters ≤ pool.max_waiters)) pool.pending
    pub limits :
        (pool.max_resolutions ≤ max_dns_concurrent_resolutions)
        × (1 ≤ pool.max_waiters)
        × (pool.max_waiters ≤ max_dns_waiters_per_resolution)

  -- The waiters of a resolution of the pool.
  abbrev pub view : ResolutionPool K W → ℕ → Option (List W)
  view pool id = waiters_of id pool.pending

  -- What the answer of `admit` says of the waiters of `i` before and after.
  pub Admitted :
      W
      → ResolutionPool K W
      → ResolutionPool K W
      → ℕ
      → Result (CapacityError × W) Admission
      → Type 0
  Admitted w before after i (ok (start id)) =
      (view before id ≡ none) × (view after i ≡ (if eqb id i then some (w ∷ []) else view before i))
  Admitted w before after i (ok (join id)) =
      (ws : List W) × (view before id ≡ some ws)
      × (view after i ≡ (if eqb id i then some (ws ++ (w ∷ [])) else view before i))
  Admitted w before after i (err (_, v)) = (after ≡ before) × (v ≡ w)

  fresh-view :
      (id : ℕ) (xs : List (K × Pending W)) → All (λ y. entry_id y < id) xs → waiters_of id xs ≡ none
  unfolding waiters_of
  fresh-view id [] a = refl
  fresh-view id ((j, q) ∷ xs) a =
      let other : eqb q.id id ≡ false = ground (arith, a.0) in rw other (fresh-view id xs a.1)

  started :
      (key : K) (w : W) (pool : ResolutionPool K W)
      → WellFormed pool
      → get key pool.pending ≡ none
      → length pool.pending ≢ pool.max_resolutions
      → WellFormed (record {
        pending = (key, record { id = pool.next_id; waiters = w ∷ [] }) ∷ pool.pending;
        max_resolutions = pool.max_resolutions;
        max_waiters = pool.max_waiters;
        next_id = pool.next_id + 1;
      })
  started key w pool f g space = record {
    keys = (get-none key pool.pending g, f.keys);
    ids = (All-map pool.pending (λ y b. ground arith) f.fresh, f.ids);
    fresh = (ground arith, All-map pool.pending (λ y b. omega arith) f.fresh);
    room = omega (arith, f.room);
    waiting = ((omega arith, f.limits.1), f.waiting);
    limits = f.limits;
  }

  joined :
      (key : K) (w : W) (pool : ResolutionPool K W) {p : Pending W}
      → WellFormed pool
      → get key pool.pending ≡ some p
      → length p.waiters ≢ pool.max_waiters
      → WellFormed (with_pending pool (push key w pool.pending))
  joined key w pool {p} f g space =
      let (ids, keys) = push-Distinct key w pool.pending g f.ids f.keys in
      let own =
        All-In (λ y. (1 ≤ length y.1.waiters) × (length y.1.waiters ≤ pool.max_waiters))
          pool.pending f.waiting (get-In key pool.pending g) in
      let longer = length-append p.waiters (w ∷ []) in
      record {
        keys = keys;
        ids = ids;
        fresh = push-All (λ y. entry_id y < pool.next_id) key w pool.pending g f.fresh (λ j b. b);
        room = omega (arith, f.room, push-length key w pool.pending);
        waiting =
            push-All (λ y. (1 ≤ length y.1.waiters) × (length y.1.waiters ≤ pool.max_waiters)) key w
              pool.pending g f.waiting
              (λ j b. (omega (arith, longer), omega (arith, longer, own.1)));
        limits = f.limits;
      }

  joined-view :
      (key : K) (w : W) (pool : ResolutionPool K W) (i : ℕ) {p : Pending W}
      → get key pool.pending ≡ some p
      → In (key, p) pool.pending
      → WellFormed pool
      → view (with_pending pool (push key w pool.pending)) i
        ≡ (if eqb p.id i then some (p.waiters ++ (w ∷ [])) else view pool i)
  joined-view key w pool i {p} g m f = elim (Bool-cases (eqb p.id i)) [
    | inl own ↦
        let same : p.id ≡ i = ground arith in
        rw own (
          subst (λ z. waiters_of z (push key w pool.pending) ≡ some (p.waiters ++ (w ∷ []))) same
            (push-own key w pool.pending g m f.ids))
    | inr other ↦ rw other (push-waiters key w i pool.pending g (ground arith))
  ]

  completed-view :
      (id i : ℕ) (xs : List (K × Pending W))
      → waiters_of i (select (kept id) xs) ≡ (if eqb id i then none else waiters_of i xs)
  completed-view id i xs = elim (Bool-cases (eqb id i)) [
    | inl own ↦
        let same : id ≡ i = ground arith in
        rw own (subst (λ z. waiters_of z (select (kept id) xs) ≡ none) same (select-gone id xs))
    | inr other ↦ rw other (select-waiters id i xs (ground arith))
  ]

  moved :
      (key : K) (pool : ResolutionPool K W) {old : K} {p : Pending W} {rest : List (K × Pending W)}
      → WellFormed pool
      → get key pool.pending ≡ none
      → Pick (old, p) pool.pending rest
      → WellFormed (with_pending pool ((key, p) ∷ rest))
  moved key pool f g k =
      let (_, keys) = Pick-Distinct entry_key k f.keys in
      let (_, other) = Pick-All (λ y. key ≢ entry_key y) k (get-none key pool.pending g) in
      record {
        keys = (other, keys);
        ids = Pick-Distinct entry_id k f.ids;
        fresh = Pick-All (λ y. entry_id y < pool.next_id) k f.fresh;
        room = omega (arith, f.room, Pick-length k);
        waiting =
            Pick-All (λ y. (1 ≤ length y.1.waiters) × (length y.1.waiters ≤ pool.max_waiters)) k
              f.waiting;
        limits = f.limits;
      }

  admit_new-ok :
      (key : K) (w : W) (pool : ResolutionPool K W)
      → WellFormed pool
      → get key pool.pending ≡ none
      → (i : ℕ)
      → WellFormed (admit_new key w pool).0
        × Admitted w pool (admit_new key w pool).0 i (admit_new key w pool).1
  unfolding admit_new Admitted waiters_of
  admit_new-ok key w pool f g i =
      elim (Bool-cases (eqb (length pool.pending) pool.max_resolutions)) [
        | inl full ↦ rw (full, admit_new) (f, (refl, refl))
        | inr space ↦ elim (Bool-cases (ltb (pool.next_id + 1) (2 ^ 64))) [
          | inl below ↦
              rw (space, below, admit_new)
                (
                  started key w pool f g (ground arith),
                  (fresh-view pool.next_id pool.pending f.fresh, refl),
                )
          | inr over ↦ rw (space, over, admit_new) (f, (refl, refl))
        ]
      ]

  -- `admit` on a well-formed pool leaves it well-formed, and what the waiters of each resolution `i` are
  -- then is told by the answer: a started resolution was not there and has the one waiter, a joined one
  -- has it after its others, every other resolution keeps its waiters, and a refusal changes nothing and
  -- gives the waiter back.
  pub admit-refines :
      (key : K) (w : W) (pool : ResolutionPool K W) (i : ℕ)
      → WellFormed pool
      → WellFormed (admit key w pool).0
        × Admitted w pool (admit key w pool).0 i (admit key w pool).1
  unfolding admit Admitted
  admit-refines key w pool i f = elim (Option-cases (get key pool.pending)) [
    | inl g ↦ rw (g, admit) (admit_new-ok key w pool f g i)
    | inr (p, g) ↦ elim (Bool-cases (eqb (length p.waiters) pool.max_waiters)) [
      | inl full ↦ rw (g, full, admit) (f, (refl, refl))
      | inr space ↦
          let m = get-In key pool.pending g in
          rw (g, space, admit)
            (
              joined key w pool f g (ground arith),
              (p.waiters, get-waiters key pool.pending m f.ids, joined-view key w pool i g m f),
            )
    ]
  ]

  -- `rekey` on a well-formed pool never panics, leaves it well-formed and changes the waiters of no
  -- resolution.
  rekey-refines :
      (id : ℕ) (key : K) (pool : ResolutionPool K W) (i : ℕ)
      → WellFormed pool
      → (after : ResolutionPool K W) × (rekey id key pool ≡ some after)
        × WellFormed after
        × (view after i ≡ view pool i)
  unfolding rekey waiters_of
  rekey-refines id key pool i f = elim (Option-cases (get key pool.pending)) [
    | inr (p, g) ↦ (pool, rw (g, rekey) refl, f, refl)
    | inl g ↦ elim (Option-cases (find (λ y. eqb y.1.id id) pool.pending)) [
      | inl n ↦ (pool, rw (g, n, rekey) refl, f, refl)
      | inr ((old, p), h) ↦
          let (m, _) = find-some (λ y. eqb y.1.id id) pool.pending h in
          let (rest, r, k) = remove-Pick pool.pending f.keys m in
          (
            with_pending pool ((key, p) ∷ rest),
            rw (g, h, r, rekey) refl,
            moved key pool f g k,
            sym (Pick-waiters i k f.ids),
          )
    ]
  ]

  -- `complete` on a well-formed pool leaves it well-formed, returns exactly the waiters of the
  -- resolution `id`, removes that resolution and keeps the waiters of every other one.
  pub complete-refines :
      (id : ℕ) (pool : ResolutionPool K W) (i : ℕ)
      → WellFormed pool
      → WellFormed (complete id pool).0
        × ((complete id pool).1 ≡ waiters_or_none (view pool id))
        × (view (complete id pool).0 i ≡ (if eqb id i then none else view pool i))
  unfolding complete
  complete-refines id pool i f = (
    record {
      keys = select-Distinct entry_key (kept id) pool.pending f.keys;
      ids = select-Distinct entry_id (kept id) pool.pending f.ids;
      fresh = select-All (λ y. entry_id y < pool.next_id) (kept id) pool.pending f.fresh;
      room = omega (arith, f.room, select-length (kept id) pool.pending);
      waiting =
          select-All (λ y. (1 ≤ length y.1.waiters) × (length y.1.waiters ≤ pool.max_waiters))
            (kept id) pool.pending f.waiting;
      limits = f.limits;
    },
    taken-waiters id pool.pending f.ids,
    completed-view id i pool.pending,
  )

  empty_pool : ℕ → ℕ → ResolutionPool K W
  empty_pool max_resolutions max_waiters = record {
    pending = [];
    max_resolutions = max_resolutions;
    max_waiters = max_waiters;
    next_id = 0;
  }

  empty-WellFormed :
      (max_resolutions max_waiters : ℕ) (i : ℕ)
      → not (from_one max_dns_concurrent_resolutions max_resolutions) ≡ false
      → not (from_one max_dns_waiters_per_resolution max_waiters) ≡ false
      → WellFormed (empty_pool max_resolutions max_waiters)
        × (view (empty_pool max_resolutions max_waiters) i ≡ none)
  unfolding empty_pool waiters_of
  empty-WellFormed max_resolutions max_waiters i r w = (
    record {
      keys = tt;
      ids = tt;
      fresh = tt;
      room = omega arith;
      waiting = tt;
      limits = (ground arith, ground arith, ground arith);
    },
    refl,
  )

  -- A new pool with limits in range is well-formed and has no resolution.
  pub new-WellFormed :
      (max_resolutions max_waiters : ℕ) (i : ℕ) {pool : ResolutionPool K W}
      → new max_resolutions max_waiters ≡ some pool
      → WellFormed pool × (view pool i ≡ none)
  unfolding new waiters_of empty_pool
  new-WellFormed max_resolutions max_waiters i {pool} h =
      let bad =
        not (from_one max_dns_concurrent_resolutions max_resolutions)
        || not (from_one max_dns_waiters_per_resolution max_waiters) in
      elim (Bool-cases bad) [
        | inl yes_bad ↦ absurd (cc (rw yes_bad at h))
        | inr fine ↦
            let (r, w) =
              ||-false (not (from_one max_dns_concurrent_resolutions max_resolutions)) _ fine in
            let made : empty_pool max_resolutions max_waiters ≡ pool = cc (rw fine at h) in
            subst (λ z. WellFormed z × (view z i ≡ none)) made
              (empty-WellFormed max_resolutions max_waiters i r w)
      ]
