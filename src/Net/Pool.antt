-- ===== src/Net/Pool.antt =====
-- crates/kakoi-net/src/dns/pool.rs: the questions that one resolution answers. The hash map is an
-- association list with distinct keys, in no order that a result shows; a `u64` is a number below 2 ^ 64.
pub mod Entries
pub mod Steps
pub mod Laws
use kakoi.Prelude.{
  ℕ, suc, ◌+◌, ◌^◌, Bool, true, false, not, ◌&&◌, ◌||◌, Option, none, some, List, [], ◌∷◌, ◌++◌,
  length, get, find, select, is_some, if◌then◌else◌, eqb, ltb, leb, Eq, ◌==◌, Result, ok, err,
}

pub data Admission : Type 0 where
  start : ℕ → Admission
  join : ℕ → Admission

pub data CapacityError : Type 0 where
  resolutions waiters_full ids_exhausted : CapacityError

pub record Pending (W : Type 0) : Type 0 where
  pub id : ℕ
  pub waiters : List W

pub record ResolutionPool (K W : Type 0) : Type 0 where
  pub pending : List (K × Pending W)
  pub max_resolutions : ℕ
  pub max_waiters : ℕ
  pub next_id : ℕ

-- crates/kakoi-policy/src/network/limits.rs
abbrev pub max_dns_concurrent_resolutions : ℕ
max_dns_concurrent_resolutions = 4096

abbrev pub max_dns_waiters_per_resolution : ℕ
max_dns_waiters_per_resolution = 1024

-- `RangeInclusive::contains` for a range from 1.
abbrev pub from_one : ℕ → ℕ → Bool
from_one last n = leb 1 n && leb n last

-- `ResolutionPool::new`
unfoldable pub new : {K W : Type 0} → ℕ → ℕ → Option (ResolutionPool K W)
new max_resolutions max_waiters =
    if not (from_one max_dns_concurrent_resolutions max_resolutions)
      || not (from_one max_dns_waiters_per_resolution max_waiters)
    then none
    else some (record {
      pending = [];
      max_resolutions = max_resolutions;
      max_waiters = max_waiters;
      next_id = 0;
    })

-- `checked_add(1)` on `u64`
abbrev checked_next : ℕ → Option ℕ
checked_next n = if ltb (n + 1) (2 ^ 64) then some (n + 1) else none

module _ {K W : Type 0} ⦃e : Eq K⦄ where
  -- `waiters.push` on the resolution of a key.
  unfoldable pub push : K → W → List (K × Pending W) → List (K × Pending W)
  push key waiter [] = []
  push key waiter ((j, p) ∷ entries) =
      if j == key
      then (j, record { id = p.id; waiters = p.waiters ++ (waiter ∷ []) }) ∷ entries
      else (j, p) ∷ push key waiter entries

  -- `HashMap::remove`
  unfoldable pub remove : K → List (K × Pending W) → Option (Pending W × List (K × Pending W))
  remove key [] = none
  remove key ((j, p) ∷ entries) =
      let later = remove key entries in
      if j == key
      then some (p, entries)
      else elim later [ none ↦ none | some (q, rest) ↦ some (q, (j, p) ∷ rest) ]

  abbrev pub with_pending : ResolutionPool K W → List (K × Pending W) → ResolutionPool K W
  with_pending pool entries = record {
    pending = entries;
    max_resolutions = pool.max_resolutions;
    max_waiters = pool.max_waiters;
    next_id = pool.next_id;
  }

  -- The part of `admit` for a key without a resolution.
  unfoldable pub admit_new :
      K → W → ResolutionPool K W → ResolutionPool K W × Result (CapacityError × W) Admission
  admit_new key waiter pool =
      if eqb (length pool.pending) pool.max_resolutions
      then (pool, err (resolutions, waiter))
      else elim (checked_next pool.next_id) [
        | none ↦ (pool, err (ids_exhausted, waiter))
        | some next ↦ (
          record {
            pending = (key, record { id = pool.next_id; waiters = waiter ∷ [] }) ∷ pool.pending;
            max_resolutions = pool.max_resolutions;
            max_waiters = pool.max_waiters;
            next_id = next;
          },
          ok (start pool.next_id),
        )
      ]

  -- `ResolutionPool::admit`
  unfoldable pub admit :
      K → W → ResolutionPool K W → ResolutionPool K W × Result (CapacityError × W) Admission
  admit key waiter pool = elim (get key pool.pending) [
    | some p ↦
        if eqb (length p.waiters) pool.max_waiters
        then (pool, err (waiters_full, waiter))
        else (with_pending pool (push key waiter pool.pending), ok (join p.id))
    | none ↦ admit_new key waiter pool
  ]

  -- `ResolutionPool::rekey`; `none` is the panic of `expect`.
  unfoldable pub rekey : ℕ → K → ResolutionPool K W → Option (ResolutionPool K W)
  rekey id key pool =
      if is_some (get key pool.pending)
      then some pool
      else elim (find (λ entry. eqb entry.1.id id) pool.pending) [
        | none ↦ some pool
        | some (old, _) ↦ elim (remove old pool.pending) [
          | none ↦ none
          | some (p, rest) ↦ some (with_pending pool ((key, p) ∷ rest))
        ]
      ]

  -- The waiters that the closure of `retain` takes: those of the last entry that it drops.
  unfoldable pub taken : ℕ → List W → List (K × Pending W) → List W
  taken id waiters [] = waiters
  taken id waiters ((_, p) ∷ entries) =
      if eqb p.id id then taken id p.waiters entries else taken id waiters entries

  -- `ResolutionPool::complete`
  unfoldable pub complete : ℕ → ResolutionPool K W → ResolutionPool K W × List W
  complete id pool = (
    with_pending pool (select (λ entry. not (eqb entry.1.id id)) pool.pending),
    taken id [] pool.pending,
  )
