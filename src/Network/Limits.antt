-- ===== src/Network/Limits.antt =====
-- crates/kakoi-policy/src/network/limits.rs: the ranges of the limits. A limit is a `u32`, as a number.
pub mod Laws
use kakoi.Prelude.{
  ℕ, Bool, true, false, not, ◌&&◌, Option, none, some, List, [], ◌∷◌, leb, ltb, if◌then◌else◌,
  Result, ok, err, ◌>>=◌, ◌>>◌, for_each, ◌≡◌, Eq, ◌==◌, option_beq, nat_eq, option_eq,
}
use kakoi.Policy.{Text, codes}

abbrev max_udp_idle_timeout_seconds : ℕ
max_udp_idle_timeout_seconds = 86400

abbrev max_dns_resolution_timeout_seconds : ℕ
max_dns_resolution_timeout_seconds = 3600

abbrev pub max_dns_concurrent_resolutions : ℕ
max_dns_concurrent_resolutions = 4096

abbrev pub max_dns_waiters_per_resolution : ℕ
max_dns_waiters_per_resolution = 1024

abbrev pub max_recovery_attempt_timeout_seconds : ℕ
max_recovery_attempt_timeout_seconds = 300

pub record NetworkLimits : Type 0 where
  pub udp_idle_timeout_seconds : ℕ
  pub dns_zero_ttl_grace_milliseconds : ℕ
  pub dns_server_timeout_seconds : ℕ
  pub dns_resolution_timeout_seconds : ℕ
  pub dns_max_cname_hops : ℕ
  pub dns_max_upstream_queries : ℕ
  pub dns_max_concurrent_resolutions : ℕ
  pub dns_max_waiters_per_resolution : ℕ
  pub dns_failure_cache_seconds : ℕ
  pub recovery_attempt_timeout_seconds : ℕ

-- `NetworkLimits::default`
abbrev pub default_limits : NetworkLimits
default_limits = record {
  udp_idle_timeout_seconds = 120;
  dns_zero_ttl_grace_milliseconds = 1000;
  dns_server_timeout_seconds = 2;
  dns_resolution_timeout_seconds = 10;
  dns_max_cname_hops = 16;
  dns_max_upstream_queries = 64;
  dns_max_concurrent_resolutions = 256;
  dns_max_waiters_per_resolution = 64;
  dns_failure_cache_seconds = 5;
  recovery_attempt_timeout_seconds = 10;
}

pub record LimitOverrides : Type 0 where
  pub udp_idle_timeout_seconds : Option ℕ
  pub dns_zero_ttl_grace_milliseconds : Option ℕ
  pub dns_server_timeout_seconds : Option ℕ
  pub dns_resolution_timeout_seconds : Option ℕ
  pub dns_max_cname_hops : Option ℕ
  pub dns_max_upstream_queries : Option ℕ
  pub dns_max_concurrent_resolutions : Option ℕ
  pub dns_max_waiters_per_resolution : Option ℕ
  pub dns_failure_cache_seconds : Option ℕ
  pub recovery_attempt_timeout_seconds : Option ℕ

-- `LimitOverrides::is_present`: some field differs from the default, which is `none`.
unfoldable pub is_present : LimitOverrides → Bool
unfolding option_beq
is_present o = not (
    o.udp_idle_timeout_seconds == none
    && o.dns_zero_ttl_grace_milliseconds == none
    && o.dns_server_timeout_seconds == none
    && o.dns_resolution_timeout_seconds == none
    && o.dns_max_cname_hops == none
    && o.dns_max_upstream_queries == none
    && o.dns_max_concurrent_resolutions == none
    && o.dns_max_waiters_per_resolution == none
    && o.dns_failure_cache_seconds == none
    && o.recovery_attempt_timeout_seconds == none)

-- A written value, its key, and the range it must lie in.
pub record Bound : Type 0 where
  pub value : Option ℕ
  pub key : Text
  pub min : ℕ
  pub max : ℕ

abbrev pub bound : Option ℕ → Text → ℕ → ℕ → Bound
bound v k lo hi = record { value = v; key = k; min = lo; max = hi }

-- The table of `LimitOverrides::validate`.
abbrev pub bounds : LimitOverrides → List Bound
bounds o =
    bound o.udp_idle_timeout_seconds (codes "udp-idle-timeout-seconds") 1
      max_udp_idle_timeout_seconds
    ∷ bound o.dns_zero_ttl_grace_milliseconds (codes "dns-zero-ttl-grace-milliseconds") 100 10000
    ∷ bound o.dns_server_timeout_seconds (codes "dns-server-timeout-seconds") 1 300
    ∷ bound o.dns_resolution_timeout_seconds (codes "dns-resolution-timeout-seconds") 1
        max_dns_resolution_timeout_seconds
    ∷ bound o.dns_max_cname_hops (codes "dns-max-cname-hops") 1 128
    ∷ bound o.dns_max_upstream_queries (codes "dns-max-upstream-queries") 1 4096
    ∷ bound o.dns_max_concurrent_resolutions (codes "dns-max-concurrent-resolutions") 1
        max_dns_concurrent_resolutions
    ∷ bound o.dns_max_waiters_per_resolution (codes "dns-max-waiters-per-resolution") 1
        max_dns_waiters_per_resolution
    ∷ bound o.dns_failure_cache_seconds (codes "dns-failure-cache-seconds") 1 300
    ∷ bound o.recovery_attempt_timeout_seconds (codes "recovery-attempt-timeout-seconds") 1
        max_recovery_attempt_timeout_seconds
    ∷ []

pub data LimitError : Type 0 where
  out_of_range : Text → ℕ → ℕ → LimitError
  server_exceeds_resolution : LimitError

-- `value.is_some_and(|value| !(min..=max).contains(&value))`
abbrev pub outside_range : Option ℕ → ℕ → ℕ → Bool
outside_range none min max = false
outside_range (some v) min max = not (leb min v && leb v max)

unfoldable pub check_bound : Bound → Result LimitError (Unit {0})
check_bound b =
    if outside_range b.value b.min b.max then err (out_of_range b.key b.min b.max) else ok tt

-- `LimitOverrides::validate`
unfoldable pub validate_limits : LimitOverrides → Result LimitError (Unit {0})
validate_limits o = for_each check_bound (bounds o)

-- `Option::unwrap_or`
abbrev pub unwrap_or : Option ℕ → ℕ → ℕ
unwrap_or none n = n
unwrap_or (some m) n = m

-- What `LimitOverrides::apply` returns when the overrides are valid.
abbrev pub overridden : LimitOverrides → NetworkLimits → NetworkLimits
overridden o lower = record {
  udp_idle_timeout_seconds = unwrap_or o.udp_idle_timeout_seconds lower.udp_idle_timeout_seconds;
  dns_zero_ttl_grace_milliseconds =
      unwrap_or o.dns_zero_ttl_grace_milliseconds lower.dns_zero_ttl_grace_milliseconds;
  dns_server_timeout_seconds =
      unwrap_or o.dns_server_timeout_seconds lower.dns_server_timeout_seconds;
  dns_resolution_timeout_seconds =
      unwrap_or o.dns_resolution_timeout_seconds lower.dns_resolution_timeout_seconds;
  dns_max_cname_hops = unwrap_or o.dns_max_cname_hops lower.dns_max_cname_hops;
  dns_max_upstream_queries = unwrap_or o.dns_max_upstream_queries lower.dns_max_upstream_queries;
  dns_max_concurrent_resolutions =
      unwrap_or o.dns_max_concurrent_resolutions lower.dns_max_concurrent_resolutions;
  dns_max_waiters_per_resolution =
      unwrap_or o.dns_max_waiters_per_resolution lower.dns_max_waiters_per_resolution;
  dns_failure_cache_seconds = unwrap_or o.dns_failure_cache_seconds lower.dns_failure_cache_seconds;
  recovery_attempt_timeout_seconds =
      unwrap_or o.recovery_attempt_timeout_seconds lower.recovery_attempt_timeout_seconds;
}

-- `LimitOverrides::apply`
unfoldable pub apply : LimitOverrides → NetworkLimits → Result LimitError NetworkLimits
apply o lower = do validate_limits o; ok (overridden o lower)

-- `NetworkLimits::validate_deadlines`
unfoldable pub validate_deadlines : NetworkLimits → Result LimitError (Unit {0})
validate_deadlines limits =
    if ltb limits.dns_resolution_timeout_seconds limits.dns_server_timeout_seconds
    then err server_exceeds_resolution
    else ok tt
