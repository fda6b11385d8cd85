-- ===== src/Paths/Nested.antt =====
-- `ancestors` goes outward: every path of the list is a proper prefix of the paths before it.
use kakoi.Prelude.{
  ◌≡◌, ◌≢◌, refl, ap, Option, some, List, [], ◌∷◌, ◌++◌, map, true, find_map, All, All-In, In, here,
  there, eq_refl, arith, Option-cases, inl, inr, subst,
}
use kakoi.Paths.{Name, FilePath, name_eq, starts_with, ancestors}
use kakoi.Paths.Prefixes.{starts_with_refl}

abbrev pub IsProper : FilePath → FilePath → Type 0
IsProper p a = (starts_with p a ≡ true) × (p ≢ a)

abbrev pub Nested : List FilePath → Type 0
Nested [] = Unit
Nested (p ∷ ps) = All (IsProper p) ps × Nested ps

abbrev rest_of : FilePath → FilePath
rest_of [] = []
rest_of (y ∷ p) = p

abbrev extended : Name → List FilePath → List FilePath
extended x ps = map (λ q. x ∷ q) ps ++ ([] ∷ [])

under_name : (x : Name) (p a : FilePath) → IsProper p a → IsProper (x ∷ p) (x ∷ a)
unfolding starts_with
under_name x p a (s, n) = (ground (arith, eq_refl x), λ e. n (ap rest_of e))

extended-All :
    (x : Name) (p : FilePath) (ps : List FilePath)
    → All (IsProper p) ps
    → All (IsProper (x ∷ p)) (extended x ps)
unfolding starts_with
extended-All x p [] h = ((refl, (λ e. cc)), tt)
extended-All x p (q ∷ qs) h = (under_name x p q h.0, extended-All x p qs h.1)

extended-Nested : (x : Name) (ps : List FilePath) → Nested ps → Nested (extended x ps)
extended-Nested x [] h = (tt, tt)
extended-Nested x (p ∷ ps) h = (extended-All x p ps h.0, extended-Nested x ps h.1)

pub ancestors-Nested : (p : FilePath) → Nested (ancestors p)
unfolding ancestors
ancestors-Nested [] = (tt, tt)
ancestors-Nested (x ∷ p) = extended-Nested x (ancestors p) (ancestors-Nested p)

pub ancestors-first : (p : FilePath) → (rest : List FilePath) × (ancestors p ≡ p ∷ rest)
unfolding ancestors
ancestors-first [] = ([], refl)
ancestors-first (x ∷ p) = let (rest, e) = ancestors-first p in (extended x rest, ap (extended x) e)

-- `find_map` on a nested list finds the innermost path that has an answer.
pub find_map-innermost {ℓ} :
    {B : Type ℓ} (f : FilePath → Option B) {b c : B} {q : FilePath} (ps : List FilePath)
    → Nested ps
    → find_map f ps ≡ some b
    → In q ps
    → f q ≡ some c
    → (p : FilePath) × In p ps × (f p ≡ some b) × (starts_with p q ≡ true)
unfolding find_map
find_map-innermost f [] n h m e = elim m [ ]
find_map-innermost f {b} {c} {q} (p ∷ ps) n h m e = elim (Option-cases (f p)) [
  | inr (a, e') ↦ (
    p,
    here refl,
    ground arith,
    elim m [ here i ↦ rw i (starts_with_refl p) | there i ↦ (All-In (IsProper p) ps n.0 i).0 ],
  )
  | inl e' ↦ elim m [
    | here i ↦ absurd (let l : f p ≡ some c = subst (λ z. f z ≡ some c) i e in ground arith)
    | there i ↦
        let (r, j, k, l) = find_map-innermost f ps n.1 (ground arith) i e in (r, there j, k, l)
  ]
]
