-- ===== src/Environment/Texts.antt =====
-- The texts of crates/kakoi-plan/src/isolated_env.rs: the decimal form of a count, the end of a line of a
-- secret, and the entries of `PATH` with `:` between them.
use kakoi.Prelude.{
  ℕ, zero, suc, ◌+◌, ◌*◌, ◌-◌, ◌/◌, ◌%◌, ◌<◌, true, false, List, [], ◌∷◌, ◌++◌, all, if◌then◌else◌,
  eqb, ltb, ◌≡◌, refl, ◌∙◌, arith, Bool-cases, inl, inr, ◌==◌, nat_eq, list_eq, list_beq,
}
use kakoi.Policy.{Text, codes}
use kakoi.Ports.{digit, value_of}

-- The digits of a number on fuel.
unfoldable decimal_loop : ℕ → ℕ → Text
decimal_loop zero n = []
decimal_loop (suc fuel) n =
    let front = decimal_loop fuel (n / 10) in
    if ltb n 10 then (b'0' + n) ∷ [] else front ++ ((b'0' + n % 10) ∷ [])

-- `to_string` on a `usize`; a number has fewer digits than its value and one more.
unfoldable pub decimal : ℕ → Text
unfolding decimal_loop
decimal n = decimal_loop (suc n) n

-- `strip_suffix(b"\r\n").or_else(|| strip_suffix(b"\n")).unwrap_or(bytes)`
unfoldable pub strip_line_end : List ℕ → List ℕ
strip_line_end [] = []
strip_line_end (b ∷ []) = if eqb b b'\n' then [] else b ∷ []
strip_line_end (b ∷ c ∷ []) =
    if eqb c b'\n' then (if eqb b b'\r' then [] else b ∷ []) else b ∷ c ∷ []
strip_line_end (b ∷ c ∷ d ∷ more) = b ∷ strip_line_end (c ∷ d ∷ more)

-- The entries with `:` between them.
unfoldable pub join_paths : List Text → Text
join_paths [] = []
join_paths (entry ∷ []) = entry
join_paths (entry ∷ other ∷ more) = entry ++ (codes ":" ++ join_paths (other ∷ more))

value_of-append :
    (n : ℕ) (xs : Text) (b : ℕ) → value_of n (xs ++ (b ∷ [])) ≡ value_of n xs * 10 + (b - b'0')
value_of-append n [] b = refl
value_of-append n (x ∷ xs) b = value_of-append (n * 10 + (x - b'0')) xs b

decimal_loop-value : (fuel n : ℕ) → n < fuel → value_of 0 (decimal_loop fuel n) ≡ n
unfolding decimal_loop
decimal_loop-value zero n h = absurd (omega arith)
decimal_loop-value (suc fuel) n h = elim (Bool-cases (ltb n 10)) [
  | inl one_digit ↦ rw (one_digit, decimal_loop) (omega arith)
  | inr more ↦
      let front = decimal_loop-value fuel (n / 10) (ground arith) in
      let last = value_of-append 0 (decimal_loop fuel (n / 10)) (b'0' + n % 10) in
      rw (more, decimal_loop) (last ∙ ground (arith, front))
]

all-append :
    (xs : Text) (b : ℕ) → all digit xs ≡ true → digit b ≡ true → all digit (xs ++ (b ∷ [])) ≡ true
unfolding all
all-append [] b h k = ground (arith, k)
all-append (x ∷ xs) b h k = ground (arith, all-append xs b, k)

decimal_loop-digits : (fuel n : ℕ) → n < fuel → all digit (decimal_loop fuel n) ≡ true
unfolding decimal_loop all
decimal_loop-digits zero n h = absurd (omega arith)
decimal_loop-digits (suc fuel) n h = elim (Bool-cases (ltb n 10)) [
  | inl one_digit ↦ rw (one_digit, decimal_loop) (ground arith)
  | inr more ↦
      rw (more, decimal_loop)
        (all-append (decimal_loop fuel (n / 10)) (b'0' + n % 10)
          (decimal_loop-digits fuel (n / 10) (ground arith)) (ground arith))
]

pub decimal-value : (n : ℕ) → value_of 0 (decimal n) ≡ n
unfolding decimal
decimal-value n = decimal_loop-value (suc n) n (omega arith)

pub decimal-digits : (n : ℕ) → all digit (decimal n) ≡ true
unfolding decimal
decimal-digits n = decimal_loop-digits (suc n) n (omega arith)

append_filled : (xs : Text) (b : ℕ) → ((xs ++ (b ∷ [])) == []) ≡ false
unfolding list_beq
append_filled [] b = refl
append_filled (x ∷ xs) b = refl

pub decimal_filled : (n : ℕ) → (decimal n == []) ≡ false
unfolding decimal list_beq
decimal_filled n = elim (Bool-cases (ltb n 10)) [
  | inl one_digit ↦ rw (one_digit, decimal_loop) refl
  | inr more ↦ rw (more, decimal_loop) (append_filled (decimal_loop n (n / 10)) (b'0' + n % 10))
]
