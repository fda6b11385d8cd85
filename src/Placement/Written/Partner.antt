-- ===== src/Placement/Written/Partner.antt =====
-- The exposing pairs and the innermost item over a place, said without the functions that find them.
use kakoi.Prelude.{
  ◌≡◌, ◌≢◌, refl, sym, ◌∙◌, subst, ◌⊎◌, inl, inr, Option, some, List, ◌∷◌, true, false, find,
  find_map, find-none, find-some, find_map-none, Option-cases, In, here, there, All, All-In, arith,
  ◌==◌, eq_of, eq_refl, list_eq,
}
use kakoi.Paths.{FilePath, name_eq, starts_with, ancestors}
use kakoi.Paths.Prefixes.{In-ancestors}
use kakoi.Paths.Nested.{IsProper, Nested, ancestors-Nested, ancestors-first, find_map-innermost}
use kakoi.Policy.{Directive, rw_dir, rw_file, rw_copy, ro, hide, directive_eq, directive_beq}
use kakoi.Mounts.{ResolvedItem}
use kakoi.Placement.Written.{exposes, over_partner, proper_ancestors}

-- An item at the first directive may replace what an item at the second one guards.
abbrev pub MayReplace : Directive → Directive → Type 0
MayReplace d other =
    (d ≡ hide)
    ⊎ (((other ≡ rw_dir) ⊎ (other ≡ rw_file))
        ⊎ (((d ≡ ro) ⊎ (d ≡ rw_copy)) × ((other ≡ ro) ⊎ (other ≡ rw_copy))))

pub exposes-MayReplace : (d other : Directive) → exposes d other ≡ false → MayReplace d other
unfolding exposes directive_beq
exposes-MayReplace hide other h = inl refl
exposes-MayReplace d rw_dir h = inr (inl (inl refl))
exposes-MayReplace d rw_file h = inr (inl (inr refl))
exposes-MayReplace ro ro h = inr (inr (inl refl, inl refl))
exposes-MayReplace ro rw_copy h = inr (inr (inl refl, inr refl))
exposes-MayReplace rw_copy ro h = inr (inr (inr refl, inl refl))
exposes-MayReplace rw_copy rw_copy h = inr (inr (inr refl, inr refl))
exposes-MayReplace ro hide h = cc
exposes-MayReplace rw_copy hide h = cc
exposes-MayReplace rw_dir hide h = cc
exposes-MayReplace rw_dir ro h = cc
exposes-MayReplace rw_dir rw_copy h = cc
exposes-MayReplace rw_file hide h = cc
exposes-MayReplace rw_file ro h = cc
exposes-MayReplace rw_file rw_copy h = cc

-- An item in force over `real` that every other item in force over `real` lies strictly outside of.
pub record IsInnermostOver (real : FilePath) (in_force : List ResolvedItem) (other : ResolvedItem)
    : Type 0 where
  pub applies : In other in_force
  pub over : starts_with real other.real ≡ true
  pub apart : real ≢ other.real
  pub innermost :
      All
        (λ (z : ResolvedItem).
          (z ≡ other)
          ⊎ ((starts_with real z.real ≡ false)
              ⊎ ((z.real ≡ real) ⊎ (starts_with z.real other.real ≡ false))))
        in_force

abbrev at_place : List ResolvedItem → FilePath → Option ResolvedItem
at_place in_force place = find (λ (z : ResolvedItem). z.real == place) in_force

In-proper_ancestors : (p a : FilePath) → IsProper p a → In a (proper_ancestors p)
unfolding ancestors
In-proper_ancestors p a (s, n) =
    let (rest, e) = ancestors-first p in
    elim (subst (λ (z : List FilePath). In a z) e (In-ancestors p a s)) [
      | here q ↦ absurd (n (sym q))
      | there i ↦ rw (e, proper_ancestors) i
    ]

proper_ancestors-Nested : (p : FilePath) → Nested (proper_ancestors p)
unfolding ancestors
proper_ancestors-Nested p =
    let (rest, e) = ancestors-first p in
    rw (e, proper_ancestors) ((subst Nested e (ancestors-Nested p)).1)

proper_ancestors-IsProper : (p a : FilePath) → In a (proper_ancestors p) → IsProper p a
unfolding ancestors
proper_ancestors-IsProper p a m =
    let (rest, e) = ancestors-first p in
    let n : Nested (p ∷ rest) = subst Nested e (ancestors-Nested p) in
    All-In (IsProper p) rest n.0 (rw (e, proper_ancestors) at m)

at_place-found :
    (in_force : List ResolvedItem) (other : ResolvedItem)
    → In other in_force
    → (z : ResolvedItem) × (at_place in_force other.real ≡ some z)
unfolding find
at_place-found in_force other m = elim (Option-cases (at_place in_force other.real)) [
  | inr found ↦ found
  | inl e ↦
      let apart = find-none (λ (z : ResolvedItem). z.real == other.real) in_force e m in
      let same = eq_refl other.real in absurd (ground arith)
]

-- The item in force that the check takes as the partner is the innermost one.
pub over_partner-innermost :
    (real : FilePath) (in_force : List ResolvedItem) (other : ResolvedItem)
    → IsInnermostOver real in_force other
    → over_partner real in_force ≡ some (other.directive, other.written, other.real)
unfolding over_partner find_map find
over_partner-innermost real in_force other i =
    let m : In other.real (proper_ancestors real) =
      In-proper_ancestors real other.real (i.over, i.apart) in
    let (c, f) = at_place-found in_force other i.applies in
    elim (Option-cases (find_map (at_place in_force) (proper_ancestors real))) [
      | inl e ↦
          let missing = find_map-none (at_place in_force) (proper_ancestors real) e m in
          absurd (ground arith)
      | inr (z, e) ↦
          let (p, j, g, s) =
            find_map-innermost (at_place in_force) (proper_ancestors real)
              (proper_ancestors-Nested real) e m f in
          let (k, q) = find-some (λ (x : ResolvedItem). x.real == p) in_force g in
          let same : z.real ≡ p = eq_of z.real p q in
          let (u, v) = proper_ancestors-IsProper real p j in
          elim (All-In
            (λ (x : ResolvedItem).
              (x ≡ other)
              ⊎ ((starts_with real x.real ≡ false)
                  ⊎ ((x.real ≡ real) ⊎ (starts_with x.real other.real ≡ false))))
            in_force i.innermost k) [
              | inl w ↦ rw (over_partner, e, w) refl
              | inr (inl out) ↦ absurd (let t = rw same at out in ground arith)
              | inr (inr (inl r)) ↦ absurd (v (sym r ∙ same))
              | inr (inr (inr out)) ↦ absurd (let t = rw same at out in ground arith)
            ]
    ]
