-- ===== src/Net/Resolution/Laws.antt =====
-- crates/kakoi-net/src/resolution.rs: the bounds that the limits give.
use kakoi.Prelude.{
  ℕ, zero, suc, ◌+◌, ◌≤◌, ◌<◌, Bool, false, Option, none, some, List, [], ◌∷◌, ◌++◌, any, length,
  length-append, leb, ltb, Result, ok, err, ok_same, ◌≡◌, refl, subst, inl, inr, arith, Bool-cases,
  Option-cases, All, All-map, All-append,
}
use kakoi.Policy.{Text}
use kakoi.Net.Resolution.{
  CnameChain, earliest, new_chain, follow, permission_deadline, ResolutionLimit, UpstreamWait,
  per_candidate, whole_resolution, ResolutionBudget, take_query, checked_add, ensure_live,
  query_deadline, reserve_query,
}

-- No name of a list is the same as one before it.
abbrev Apart : {N : Type 0} → (N → N → Bool) → List N → Type 0
Apart same [] = Unit
Apart same (n ∷ ns) = All (λ m. same n m ≡ false) ns × Apart same ns

Apart-append_one :
    {N : Type 0} (same : N → N → Bool) (ns : List N) (m : N)
    → Apart same ns
    → any (λ n. same n m) ns ≡ false
    → Apart same (ns ++ (m ∷ []))
unfolding any
Apart-append_one same [] m a h = (tt, tt)
Apart-append_one same (n ∷ ns) m a h =
    let first : same n m ≡ false = ground (arith, h) in
    let rest : any (λ z. same z m) ns ≡ false = ground (arith, h) in
    (
      All-append (λ z. same n z ≡ false) ns (m ∷ []) a.0 (first, tt),
      Apart-append_one same ns m a.1 rest,
    )

-- What holds of every chain that `new` and `follow` make: it has at most one name more than the hops
-- allowed, and no name twice.
pub record IsChain {N : Type 0} (same : N → N → Bool) (chain : CnameChain N) : Type 0 where
  pub bounded : length chain.names ≤ suc chain.max_hops
  pub apart : Apart same chain.names

pub earliest-le : (o : Option ℕ) (d : ℕ) → earliest o d ≤ d
earliest-le none d = omega arith
earliest-le (some old) d = ground arith

earliest-le_record : (o : Option ℕ) (d a : ℕ) → earliest (some (earliest o d)) a ≤ d
earliest-le_record none d a = ground arith
earliest-le_record (some old) d a = ground arith

earliest-le_old : (o : Option ℕ) (d a : ℕ) → earliest (some (earliest o d)) a ≤ earliest o a
earliest-le_old none d a = ground arith
earliest-le_old (some old) d a = ground arith

le_trans : {a b c : ℕ} → a ≤ b → b ≤ c → a ≤ c
le_trans h k = omega (arith, h, k)

module _ {N : Type 0} (from_ascii : Text → Option N) (same_name : N → N → Bool) where
  -- A chain as it is made, by the records followed so far, the last one first.
  pub data Chained : List (Text × ℕ) → CnameChain N → Type 0 where
    started :
        (original : Text) (max_hops : ℕ) {chain : CnameChain N}
        → new_chain from_ascii same_name original max_hops ≡ ok chain
        → Chained [] chain
    followed :
        {records : List (Text × ℕ)} (chain : CnameChain N) {next : CnameChain N} {target : Text}
        {deadline : ℕ}
        → Chained records chain
        → follow from_ascii same_name chain target deadline ≡ ok next
        → Chained ((target, deadline) ∷ records) next

  -- What `follow` adds.
  pub record Followed (chain : CnameChain N) (deadline : ℕ) (next : CnameChain N) : Type 0 where
    pub name : N
    pub fresh : any (λ seen. same_name seen name) chain.names ≡ false
    pub short : length chain.names ≤ chain.max_hops
    pub same :
        record {
          names = chain.names ++ (name ∷ []);
          max_hops = chain.max_hops;
          deadline = some (earliest chain.deadline deadline);
        }
        ≡ next

  pub follow-Followed :
      (chain : CnameChain N) (target : Text) (deadline : ℕ) {next : CnameChain N}
      → follow from_ascii same_name chain target deadline ≡ ok next
      → Followed chain deadline next
  unfolding follow
  follow-Followed chain target deadline h = elim (Option-cases (from_ascii target)) [
    | inl bad ↦ absurd (cc (rw (bad, follow) at h))
    | inr (name, good) ↦ elim (Bool-cases (any (λ seen. same_name seen name) chain.names)) [
      | inl seen ↦ absurd (cc (rw (good, seen, follow) at h))
      | inr fresh ↦ elim (Bool-cases (ltb chain.max_hops (length chain.names))) [
        | inl long ↦ absurd (cc (rw (good, fresh, long, follow) at h))
        | inr short ↦ record {
          name = name;
          fresh = fresh;
          short = ground (arith, short);
          same = ok_same (rw (good, fresh, short, follow) at h);
        }
      ]
    ]
  ]

  -- Every chain has at most one name more than the hops allowed, and no name of it is the same as one
  -- before it.
  Chained-IsChain :
      {records : List (Text × ℕ)} {chain : CnameChain N}
      → Chained records chain
      → IsChain same_name chain
  unfolding new_chain
  Chained-IsChain (started original max_hops h) = elim (Option-cases (from_ascii original)) [
    | inl bad ↦ absurd (cc (rw (bad, new_chain) at h))
    | inr (name, good) ↦
        subst (IsChain same_name) (ok_same (rw (good, new_chain) at h))
          (record { bounded = omega arith; apart = (tt, tt) })
  ]
  Chained-IsChain (followed {records} chain {next} {target} {deadline} before h) =
      let is = Chained-IsChain before in
      let f = follow-Followed chain target deadline h in
      subst (IsChain same_name) f.same (record {
        bounded =
            let n = length-append chain.names (f.name ∷ []) in
            let short = f.short in omega (arith, n, short);
        apart = Apart-append_one same_name chain.names f.name is.apart f.fresh;
      })

  records_le :
      {records : List (Text × ℕ)} {chain : CnameChain N} (a : ℕ)
      → Chained records chain
      → All (λ r. earliest chain.deadline a ≤ r.1) records
  records_le a (started original max_hops h) = tt
  records_le a (followed {records} chain {next} {target} {deadline} before h) =
      let f = follow-Followed chain target deadline h in
      let old = records_le a before in
      subst
        (λ (z : CnameChain N).
          All (λ r. earliest z.deadline a ≤ r.1) ((target, deadline) ∷ records))
        f.same
        (
          earliest-le_record chain.deadline deadline a,
          All-map records (λ r le. le_trans (earliest-le_old chain.deadline deadline a) le) old,
        )

  -- The deadline that a chain gives an address is no later than the address's own and no later than
  -- that of any record that was followed.
  permission_deadline-le :
      {records : List (Text × ℕ)} {chain : CnameChain N} (address_deadline : ℕ)
      → Chained records chain
      → (permission_deadline chain address_deadline ≤ address_deadline)
        × All (λ r. permission_deadline chain address_deadline ≤ r.1) records
  unfolding permission_deadline
  permission_deadline-le {records} {chain} address_deadline c =
      (earliest-le chain.deadline address_deadline, records_le address_deadline c)

-- A run of reservations on one count, by any of the budgets that share it, with how many were granted.
pub data Reservations (last_instant : ℕ) : ℕ → ℕ → ℕ → Type 0 where
  no_more : {left : ℕ} → Reservations last_instant left 0 left
  granted :
      {left rest final count : ℕ} (budget : ResolutionBudget) (now deadline : ℕ)
      (wait : UpstreamWait)
      → reserve_query last_instant budget now wait left ≡ (ok deadline, rest)
      → Reservations last_instant rest count final
      → Reservations last_instant left (suc count) final
  refused :
      {left rest final count : ℕ} (budget : ResolutionBudget) (now : ℕ) (wait : UpstreamWait)
      (e : ResolutionLimit)
      → reserve_query last_instant budget now wait left ≡ (err e, rest)
      → Reservations last_instant rest count final
      → Reservations last_instant left count final

-- A reservation either takes one query of the count, before its budget's deadline and with a deadline
-- no later than that, or leaves the count as it is.
pub data Reserved (budget : ResolutionBudget) (now left : ℕ)
    : Result ResolutionLimit ℕ × ℕ → Type 0 where
  took :
      {deadline rest : ℕ}
      → left ≡ suc rest
      → now < budget.deadline
      → deadline ≤ budget.deadline
      → Reserved budget now left (ok deadline, rest)
  kept : {e : ResolutionLimit} {rest : ℕ} → left ≡ rest → Reserved budget now left (err e, rest)

query_deadline-le :
    (last_instant : ℕ) (budget : ResolutionBudget) (now : ℕ) (wait : UpstreamWait)
    → query_deadline last_instant budget now wait ≤ budget.deadline
unfolding query_deadline
query_deadline-le last_instant budget now whole_resolution = omega arith
query_deadline-le last_instant budget now per_candidate =
    elim (Option-cases (checked_add last_instant now budget.server_timeout)) [
      | inl gone ↦ rw (gone, query_deadline) (omega arith)
      | inr (deadline, there_is) ↦ rw (there_is, query_deadline) (ground arith)
    ]

-- A reservation takes a query of the count only before its budget's deadline, and the deadline that it
-- then gives is no later; otherwise the count stays as it is.
reserve_query-Reserved :
    (last_instant : ℕ) (budget : ResolutionBudget) (now : ℕ) (wait : UpstreamWait) (left : ℕ)
    → Reserved budget now left (reserve_query last_instant budget now wait left)
unfolding reserve_query ensure_live take_query
reserve_query-Reserved last_instant budget now wait zero =
    elim (Bool-cases (leb budget.deadline now)) [
      | inl late ↦ rw (late, reserve_query) (kept refl)
      | inr live ↦ rw (live, reserve_query) (kept refl)
    ]
reserve_query-Reserved last_instant budget now wait (suc left) =
    elim (Bool-cases (leb budget.deadline now)) [
      | inl late ↦ rw (late, reserve_query) (kept refl)
      | inr live ↦
          rw (live, reserve_query)
            (took refl (ground (arith, live)) (query_deadline-le last_instant budget now wait))
    ]

-- However the budgets that share a count take turns, the queries granted and those left make up the
-- count that there was at first.
pub Reservations-count :
    (last_instant : ℕ) {left count final : ℕ}
    → Reservations last_instant left count final
    → count + final ≡ left
Reservations-count last_instant no_more = omega arith
Reservations-count last_instant
      (granted {left} {rest} {final} {count} budget now deadline wait h more) =
    let ih = Reservations-count last_instant more in
    let one =
      subst (Reserved budget now left) h
        (reserve_query-Reserved last_instant budget now wait left) in
    elim one [ took less live le ↦ omega (arith, ih, less) ]
Reservations-count last_instant (refused {left} {rest} {final} {count} budget now wait e h more) =
    let ih = Reservations-count last_instant more in
    let one =
      subst (Reserved budget now left) h
        (reserve_query-Reserved last_instant budget now wait left) in
    elim one [ kept same ↦ omega (arith, ih, same) ]
