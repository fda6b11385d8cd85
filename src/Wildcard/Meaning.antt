-- ===== src/Wildcard/Meaning.antt =====
-- crates/kakoi-policy/src/wildcard.rs: the meaning of a pattern, and how the loop's state relates to it.
use kakoi.Prelude.{
  ℕ, zero, suc, ◌+◌, ◌*◌, ◌≤◌, Bool, true, false, Option, none, some, List, [], ◌∷◌, ◌++◌, ◌≡◌,
  refl, sym, ap, subst, ◌≢◌, ◌⊎◌, inl, inr, arith, length, drop, all, All, eqb,
}
use kakoi.Wildcard.{star_byte, any_byte}

-- `*` stands for any run of bytes, `?` for one byte, any other byte for itself.
pub data Matches : List ℕ → List ℕ → Type 0 where
  done : Matches [] []
  star_none : {c : ℕ} {p t : List ℕ} → c ≡ star_byte → Matches p t → Matches (c ∷ p) t
  star_more : {c b : ℕ} {p t : List ℕ} → c ≡ star_byte → Matches (c ∷ p) t → Matches (c ∷ p) (b ∷ t)
  one :
      {c b : ℕ} {p t : List ℕ}
      → c ≢ star_byte
      → (c ≡ any_byte) ⊎ (c ≡ b)
      → Matches p t
      → Matches (c ∷ p) (b ∷ t)

-- A part of a pattern without `*` takes as many bytes as it has.
after_prefix :
    (q : List ℕ) {r s : List ℕ}
    → All (λ c. c ≢ star_byte) q
    → Matches (q ++ r) s
    → Matches r (drop (length q) s)
after_prefix [] f m = m
after_prefix (c ∷ q) f (star_none e m) = absurd (f.0 e)
after_prefix (c ∷ q) f (star_more e m) = absurd (f.0 e)
after_prefix (c ∷ q) f (one n e m) = after_prefix q f.1 m

longer_run :
    (n : ℕ) {p : List ℕ} (s : List ℕ)
    → Matches (star_byte ∷ p) (drop (suc n) s)
    → Matches (star_byte ∷ p) (drop n s)
longer_run zero [] m = m
longer_run (suc n) [] m = m
longer_run zero (b ∷ s) m = star_more refl m
longer_run (suc n) (b ∷ s) m = longer_run n s m

after_star :
    (q : List ℕ) {r : List ℕ} (s : List ℕ)
    → All (λ c. c ≢ star_byte) q
    → Matches (star_byte ∷ (q ++ r)) s
    → Matches (star_byte ∷ r) (drop (length q) s)
after_star q [] f (star_none e m) = star_none refl (after_prefix q f m)
after_star q (b ∷ s) f (star_none e m) = star_none refl (after_prefix q f m)
after_star q (b ∷ s) f (star_more e m) = longer_run (length q) (b ∷ s) (after_star q s f m)
after_star q (b ∷ s) f (one n e m) = absurd (n refl)

pub one_star : {p t : List ℕ} → Matches (star_byte ∷ star_byte ∷ p) t → Matches (star_byte ∷ p) t
one_star (star_none e m) = m
one_star (star_more e m) = star_more refl (one_star m)
one_star (one n e m) = absurd (n refl)

pub all_stars : (p : List ℕ) → all (λ byte. eqb byte star_byte) p ≡ true → Matches p []
unfolding all
all_stars [] h = done
all_stars (c ∷ p) h = star_none (ground arith) (all_stars p (ground arith))

pub no_stars : (p : List ℕ) → all (λ byte. eqb byte star_byte) p ≡ false → ¬ Matches p []
unfolding all
no_stars [] h m = cc
no_stars (c ∷ p) h (star_none e m) = no_stars p (ground arith) m

-- The state that the loop keeps: the pattern and the text passed since the last `*` are of one length.
abbrev Link : List ℕ → List ℕ → Option (List ℕ × List ℕ) → Type 0
Link p t none = Unit
Link p t (some (r, s)) =
    (q : List ℕ) × All (λ c. c ≢ star_byte) q × (r ≡ q ++ p) × (t ≡ drop (length q) s)

-- What can still match, and what a match needs.
abbrev pub Sound : Type 0 → List ℕ → List ℕ → Option (List ℕ × List ℕ) → Type 0
Sound G p t none = Matches p t → G
Sound G p t (some (r, s)) = (Matches p t → G) × (Matches (star_byte ∷ r) s → G)

abbrev Possible : List ℕ → List ℕ → Option (List ℕ × List ℕ) → Type 0
Possible p t none = Matches p t
Possible p t (some (r, s)) = Matches (star_byte ∷ r) s

abbrev rank : List ℕ → List ℕ → Option (List ℕ × List ℕ) → ℕ
rank p t none = length p + length t
rank p t (some (r, s)) = length r + length s

abbrev Bounded : ℕ → ℕ → List ℕ → List ℕ → Option (List ℕ × List ℕ) → Type 0
Bounded n fuel p t star = (length t ≤ n) × (suc (rank p t star * suc n + length t) ≤ fuel)

abbrev RunBounded : ℕ → Option (List ℕ × List ℕ) → Type 0
RunBounded n none = Unit
RunBounded n (some (r, s)) = length s ≤ n

pub record Ready (G : Type 0) (n fuel : ℕ) (p t : List ℕ) (star : Option (List ℕ × List ℕ))
    : Type 0 where
  pub link : Link p t star
  pub sound : Sound G p t star
  pub complete : G → Possible p t star
  pub bounded : Bounded n fuel p t star
  pub run : RunBounded n star

abbrev pub Decided : Type 0 → Option Bool → Type 0
Decided G o = ((o ≡ some true) × G) ⊎ ((o ≡ some false) × ¬ G)

pub less_rank : (a b c : ℕ) → a + 1 ≤ b → a * c + c ≤ b * c
less_rank a zero c h = absurd (omega arith)
less_rank zero (suc b) c h = omega arith
less_rank (suc a) (suc b) c h = omega (arith, less_rank a b c (omega arith))

pub same_rank : (a b c : ℕ) → a ≤ b → a * c ≤ b * c
same_rank zero b c h = omega arith
same_rank (suc a) zero c h = absurd (omega arith)
same_rank (suc a) (suc b) c h = omega (arith, same_rank a b c (omega arith))

pub drop_nil : (n : ℕ) → drop {A = ℕ} n [] ≡ []
drop_nil zero = refl
drop_nil (suc n) = refl

pub drop_next : (n : ℕ) {b : ℕ} {t : List ℕ} (s : List ℕ) → b ∷ t ≡ drop n s → t ≡ drop (suc n) s
drop_next zero [] h = cc
drop_next (suc n) [] h = cc
drop_next zero (c ∷ s) h = cc
drop_next (suc n) (c ∷ s) h = drop_next n s h

pub length-drop : (n : ℕ) (s : List ℕ) → length (drop n s) ≤ length s
length-drop zero s = omega arith
length-drop (suc n) [] = omega arith
length-drop (suc n) (c ∷ s) = omega (arith, length-drop n s)

pub append_assoc : (q : List ℕ) (c : ℕ) (p : List ℕ) → q ++ (c ∷ p) ≡ (q ++ (c ∷ [])) ++ p
append_assoc [] c p = refl
append_assoc (d ∷ q) c p = ap (λ z. d ∷ z) (append_assoc q c p)

pub differs :
    {c b : ℕ} {p t : List ℕ} → c ≢ star_byte → c ≢ any_byte → c ≢ b → ¬ Matches (c ∷ p) (b ∷ t)
differs s y w (star_none e m) = s e
differs s y w (star_more e m) = s e
differs s y w (one n (inl e) m) = y e
differs s y w (one n (inr e) m) = w e

-- What the last `*` can match, the part of the pattern now read can match from here.
pub from_star :
    {p t r s : List ℕ}
    → Link p t (some (r, s))
    → Matches (star_byte ∷ r) s
    → Matches (star_byte ∷ p) t
from_star {p} {t} {r} {s} (q, f, e, d) m =
    subst (λ z. Matches (star_byte ∷ p) z) (sym d)
      (after_star q s f (subst (λ z. Matches (star_byte ∷ z) s) e m))

pub from_prefix : {p t r s : List ℕ} → Link p t (some (r, s)) → Matches r s → Matches p t
from_prefix {p} {t} {r} {s} (q, f, e, d) m =
    subst (λ z. Matches p z) (sym d) (after_prefix q f (subst (λ z. Matches z s) e m))

pub last_run : {p : List ℕ} → Matches (star_byte ∷ p) [] → Matches p []
last_run (star_none e m) = m
