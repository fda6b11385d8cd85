-- ===== src/Network/Limits/Laws.antt =====
-- crates/kakoi-policy/src/network/limits.rs: the merged limits stay in their ranges.
use kakoi.Prelude.{
  ℕ, ◌≤◌, true, false, Option, none, some, List, [], ◌∷◌, Result, ok, err, ok_same, err_same,
  for_each, for_each-ok, ◌≡◌, subst, inl, inr, arith, Bool-cases, All, All-of, ◌>>=◌, >>-eq-ok,
}
use kakoi.Network.Limits.{
  NetworkLimits, LimitOverrides, Bound, bounds, check_bound, outside_range, validate_limits,
  unwrap_or, overridden, apply, default_limits, LimitError, out_of_range,
}

abbrev pub Between : ℕ → ℕ → ℕ → Type 0
Between lo hi n = (lo ≤ n) × (n ≤ hi)

-- The range of every limit.
pub record InRange (l : NetworkLimits) : Type 0 where
  pub udp_idle : Between 1 86400 l.udp_idle_timeout_seconds
  pub zero_ttl_grace : Between 100 10000 l.dns_zero_ttl_grace_milliseconds
  pub server_timeout : Between 1 300 l.dns_server_timeout_seconds
  pub resolution_timeout : Between 1 3600 l.dns_resolution_timeout_seconds
  pub cname_hops : Between 1 128 l.dns_max_cname_hops
  pub upstream_queries : Between 1 4096 l.dns_max_upstream_queries
  pub concurrent : Between 1 4096 l.dns_max_concurrent_resolutions
  pub waiters : Between 1 1024 l.dns_max_waiters_per_resolution
  pub failure_cache : Between 1 300 l.dns_failure_cache_seconds
  pub recovery_attempt : Between 1 300 l.recovery_attempt_timeout_seconds

-- The default limits are in their ranges.
pub default_limits-InRange : InRange default_limits
default_limits-InRange = record {
  udp_idle = omega arith;
  zero_ttl_grace = omega arith;
  server_timeout = omega arith;
  resolution_timeout = omega arith;
  cname_hops = omega arith;
  upstream_queries = omega arith;
  concurrent = omega arith;
  waiters = omega arith;
  failure_cache = omega arith;
  recovery_attempt = omega arith;
}

chosen :
    (b : Bound) (n : ℕ)
    → check_bound b ≡ ok tt
    → Between b.min b.max n
    → Between b.min b.max (unwrap_or b.value n)
unfolding check_bound
chosen b n h k = pick b.value b.min b.max n inside k
  where
    inside : outside_range b.value b.min b.max ≡ false
    inside = elim (Bool-cases (outside_range b.value b.min b.max)) [
      | inl out ↦ absurd (cc (rw out at h))
      | inr fine ↦ fine
    ]

    pick :
        (o : Option ℕ) (lo hi n : ℕ)
        → outside_range o lo hi ≡ false
        → Between lo hi n
        → Between lo hi (unwrap_or o n)
    pick none lo hi n out between = between
    pick (some m) lo hi n out between = ground arith

-- When `apply` accepts overrides over limits that are in their ranges, the limits it returns are in
-- their ranges too.
pub apply-InRange :
    (o : LimitOverrides) (lower : NetworkLimits) {upper : NetworkLimits}
    → InRange lower
    → apply o lower ≡ ok upper
    → InRange upper
unfolding apply validate_limits
apply-InRange o lower h e =
    let (valid, same) = >>-eq-ok (validate_limits o) (ok (overridden o lower)) e in
    let checked : All (λ b. check_bound b ≡ ok tt) (bounds o) =
      All-of (λ b. check_bound b ≡ ok tt) (bounds o)
        (λ b m. for_each-ok check_bound (bounds o) valid m) in
    subst InRange (ok_same same) (record {
      udp_idle = chosen _ _ checked.0 h.udp_idle;
      zero_ttl_grace = chosen _ _ checked.1.0 h.zero_ttl_grace;
      server_timeout = chosen _ _ checked.1.1.0 h.server_timeout;
      resolution_timeout = chosen _ _ checked.1.1.1.0 h.resolution_timeout;
      cname_hops = chosen _ _ checked.1.1.1.1.0 h.cname_hops;
      upstream_queries = chosen _ _ checked.1.1.1.1.1.0 h.upstream_queries;
      concurrent = chosen _ _ checked.1.1.1.1.1.1.0 h.concurrent;
      waiters = chosen _ _ checked.1.1.1.1.1.1.1.0 h.waiters;
      failure_cache = chosen _ _ checked.1.1.1.1.1.1.1.1.0 h.failure_cache;
      recovery_attempt = chosen _ _ checked.1.1.1.1.1.1.1.1.1.0 h.recovery_attempt;
    })

-- What the loop over the table reports: the first bound that is broken, after bounds that hold.
pub data Reports : List Bound → LimitError → Type 0 where
  reported :
      {b : Bound} {bs : List Bound}
      → outside_range b.value b.min b.max ≡ true
      → Reports (b ∷ bs) (out_of_range b.key b.min b.max)
  later :
      {b : Bound} {bs : List Bound} {e : LimitError}
      → outside_range b.value b.min b.max ≡ false
      → Reports bs e
      → Reports (b ∷ bs) e

loop-Reports : (bs : List Bound) {e : LimitError} → for_each check_bound bs ≡ err e → Reports bs e
unfolding for_each check_bound
loop-Reports [] h = absurd (cc h)
loop-Reports (b ∷ bs) {e} h = elim (Bool-cases (outside_range b.value b.min b.max)) [
  | inl out ↦
      let same : out_of_range b.key b.min b.max ≡ e = err_same (rw (out, for_each) at h) in
      subst (λ z. Reports (b ∷ bs) z) same (reported out)
  | inr fine ↦ later fine (loop-Reports bs (rw (fine, for_each) at h))
]

-- When `apply` refuses overrides, the error names the first limit of the table that is written outside
-- its range, with that range, and every limit before it is unwritten or in its range.
apply-Reports :
    (o : LimitOverrides) (lower : NetworkLimits) {e : LimitError}
    → apply o lower ≡ err e
    → Reports (bounds o) e
unfolding apply validate_limits
apply-Reports o lower {e} h = loop-Reports (bounds o) (refused (for_each check_bound (bounds o)) h)
  where
    refused :
        (r : Result LimitError (Unit {0}))
        → (r >>= λ _. ok (overridden o lower)) ≡ err e
        → r ≡ err e
    refused (ok u) p = absurd (cc p)
    refused (err f) p = cc
