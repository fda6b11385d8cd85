-- ===== src/Environment/Count.antt =====
-- crates/kakoi-plan/src/isolated_env.rs: the count of git's settings.
use kakoi.Prelude.{
  ℕ, ◌+◌, true, [], ◌∷◌, get, length, ltb, ok, ok_same, nat_eq, list_eq, ◌≡◌, refl, sym, ◌∙◌, ap,
  subst, inl, inr, arith, Bool-cases,
}
use kakoi.Policy.{codes}
use kakoi.Ports.{value_of}
use kakoi.Environment.Maps.{get-insert}
use kakoi.Environment.Texts.{decimal, decimal-value, decimal-digits, decimal_filled}
use kakoi.Environment.{
  Values, apply_instead_of, number_entries, git_count, parse_count, usize_limit,
}

parse_count-decimal : (n : ℕ) → ltb n usize_limit ≡ true → parse_count (decimal n) ≡ ok n
unfolding parse_count
parse_count-decimal n h =
    let small : ltb (value_of 0 (decimal n)) usize_limit ≡ true =
      subst (λ z. ltb z usize_limit ≡ true) (sym (decimal-value n)) h in
    rw (decimal_filled n, decimal-digits n, small, decimal-value n) refl

-- When git's settings are added, the count that the environment then holds reads back as the count
-- that it held before, zero when it held none, and the number of settings added.
apply_instead_of-count :
    (instead_of values : Values) {count : ℕ} {after : Values}
    → git_count (get (codes "GIT_CONFIG_COUNT") values) ≡ ok count
    → apply_instead_of instead_of values ≡ ok after
    → git_count (get (codes "GIT_CONFIG_COUNT") after) ≡ ok (count + length instead_of)
unfolding apply_instead_of git_count
apply_instead_of-count [] values {count} {after} c h =
    let same = ok_same h in
    let sum : count ≡ count + 0 = omega arith in
    subst (λ z. git_count (get (codes "GIT_CONFIG_COUNT") z) ≡ ok (count + 0)) same (c ∙ ap ok sum)
apply_instead_of-count (entry ∷ more) values {count} {after} c h =
    let total = count + length (entry ∷ more) in
    elim (Bool-cases (ltb total usize_limit)) [
      | inr large ↦ absurd (cc (rw (c, large, apply_instead_of) at h))
      | inl small ↦
          let made = ok_same (rw (c, small, apply_instead_of) at h) in
          let held =
            get-insert (codes "GIT_CONFIG_COUNT") (decimal total)
              (number_entries count (entry ∷ more) values) in
          subst (λ z. git_count (get (codes "GIT_CONFIG_COUNT") z) ≡ ok total) made
            (rw (held, git_count) (parse_count-decimal total small))
    ]
