-- ===== src/Mounts/Generate/Scan.antt =====
-- The items that the scan generates are `hide` items; a hit that is neither a directory, nor a policy
-- file, nor a link into an `ro` item is among them.
use mathlib.Core.List.{append-nil, append_assoc}
use kakoi.Prelude.{
  ◌≡◌, refl, sym, ◌∙◌, ap, subst, Option, none, List, [], ◌∷◌, ◌++◌, false, Result, ok, err, In,
  here, there, All, Bool-cases, Option-cases, inl, inr, arith, In-append_left, In-append_right,
  All-append, find, contains, ◌⊎◌, list_eq,
}
use kakoi.Paths.{FilePath, name_eq}
use kakoi.Mounts.{
  real_and_kind, RealEntry, missing, directory, not_directory, ScanHit, ItemOrigin, ResolvedItem,
  not_directory_kind,
}
use kakoi.Mounts.Generate.{
  generated_hide, option_list, Scanned, scan_loop, scan_hit, scan_file, containing_ro,
}
use kakoi.Mounts.Generate.Laws.{IsHide}
use kakoi.Mounts.Generate.Hidden.{generated_hide-All, generated_hide-some, In-option_list}

Result-cases {ℓ κ} :
    {E : Type ℓ} {A : Type κ} (r : Result E A) → ((a : A) × (r ≡ ok a)) ⊎ ((e : E) × (r ≡ err e))
Result-cases (ok a) = inl (a, refl)
Result-cases (err e) = inr (e, refl)

module _ (written : List ResolvedItem) (sources swappable_ro : List FilePath) where
  -- A round adds hide items only, and drops none.
  abbrev Extends : Scanned → Scanned → Type 0
  Extends s t = (more : List ResolvedItem) × (t.hidden ≡ s.hidden ++ more) × All IsHide more

  abbrev swappable : List ResolvedItem → Option ResolvedItem
  swappable = find (λ i. contains swappable_ro i.real)

  ro_around : ScanHit → FilePath → List ResolvedItem
  ro_around hit real = containing_ro written hit real

  scan_file-Extends :
      (hit : ScanHit) (real : FilePath) (s t : Scanned)
      → scan_file written sources swappable_ro hit real s ≡ ok t
      → Extends s t
  unfolding scan_file
  scan_file-Extends hit real s t h =
      elim (Option-cases (swappable (containing_ro written hit real))) [
        | inr (i, e) ↦ absurd (ground (arith, rw (e, scan_file) at h))
        | inl e ↦ by_ro (containing_ro written hit real) refl e
      ]
    where
      by_ro :
          (l : List ResolvedItem)
          → containing_ro written hit real ≡ l
          → swappable (containing_ro written hit real) ≡ none
          → Extends s t
      by_ro (i ∷ l) e none_swappable = ([], ground (arith, append-nil s.hidden), tt)
      by_ro [] e none_swappable = (
        option_list (generated_hide hit.found_at ItemOrigin.scan hit.target),
        ground arith,
        generated_hide-All hit.found_at ItemOrigin.scan hit.target,
      )

  Extends-refl : (s : Scanned) → Extends s s
  Extends-refl s = ([], sym (append-nil s.hidden), tt)

  Extends-same : (s t : Scanned) → s ≡ t → Extends s t
  Extends-same s t e = subst (Extends s) e (Extends-refl s)

  Extends-trans : (s t u : Scanned) → Extends s t → Extends t u → Extends s u
  Extends-trans s t u (a, ea, ha) (b, eb, hb) =
      (a ++ b, eb ∙ ap (λ l. l ++ b) ea ∙ append_assoc s.hidden a b, All-append IsHide a b ha hb)

  scan_hit-Extends :
      (hit : ScanHit) (s t : Scanned)
      → scan_hit written sources swappable_ro hit s ≡ ok t
      → Extends s t
  unfolding scan_hit
  scan_hit-Extends hit s t h = by_target hit.target refl
    where
      by_target : (e : RealEntry) → hit.target ≡ e → Extends s t
      by_target missing e = Extends-same s t (ground arith)
      by_target (directory r) e = Extends-same s t (ground arith)
      by_target (not_directory r) e = elim (Bool-cases (contains sources r)) [
        | inl c ↦ Extends-same s t (ground arith)
        | inr c ↦ scan_file-Extends hit r s t (rw c at (rw (e, scan_hit) at h))
      ]

  pub scan_loop-Extends :
      (hits : List ScanHit) (s t : Scanned)
      → scan_loop written sources swappable_ro hits s ≡ ok t
      → Extends s t
  unfolding scan_loop
  scan_loop-Extends [] s t h = Extends-same s t (ground arith)
  scan_loop-Extends (hit ∷ hits) s t h =
      elim (Result-cases (scan_hit written sources swappable_ro hit s)) [
        | inl (next, e) ↦
            Extends-trans s next t (scan_hit-Extends hit s next e)
              (scan_loop-Extends hits next t (rw (e, scan_loop) at h))
        | inr (failed, e) ↦ absurd (ground arith)
      ]

  scan_hit-hides :
      (hit : ScanHit) (s t : Scanned) {real : FilePath}
      → hit.target ≡ not_directory real
      → contains sources real ≡ false
      → containing_ro written hit real ≡ []
      → scan_hit written sources swappable_ro hit s ≡ ok t
      → (g : ResolvedItem) × In g t.hidden × (g.real ≡ real)
  unfolding scan_hit scan_file find real_and_kind
  scan_hit-hides hit s t {real} e c ro h =
      let put : t.hidden
          ≡ s.hidden ++ option_list (generated_hide hit.found_at ItemOrigin.scan hit.target) =
        ground arith in
      let (g, eg, rg) =
        generated_hide-some hit.found_at ItemOrigin.scan hit.target {kind = not_directory_kind}
          (rw e refl) in
      (g, subst (In g) (sym put) (In-append_right s.hidden _ (In-option_list eg)), rg)

  -- Whatever order the walk found the hits in, a hit to hide is hidden.
  pub scan_loop-hides :
      (hits : List ScanHit) (s t : Scanned) {hit : ScanHit} {real : FilePath}
      → In hit hits
      → hit.target ≡ not_directory real
      → contains sources real ≡ false
      → containing_ro written hit real ≡ []
      → scan_loop written sources swappable_ro hits s ≡ ok t
      → (g : ResolvedItem) × In g t.hidden × (g.real ≡ real)
  unfolding scan_loop
  scan_loop-hides [] s t m e c ro h = elim m [ ]
  scan_loop-hides (x ∷ xs) s t {hit} {real} m e c ro h =
      elim (Result-cases (scan_hit written sources swappable_ro x s)) [
        | inr (failed, q) ↦ absurd (ground arith)
        | inl (next, q) ↦
            let rest : scan_loop written sources swappable_ro xs next ≡ ok t =
              rw (q, scan_loop) at h in
            elim m [
              | here p ↦
                  let (g, mg, rg) =
                    scan_hit-hides hit s next e c ro (
                      subst (λ z. scan_hit written sources swappable_ro z s ≡ ok next) (sym p) q) in
                  let (more, grown, _) = scan_loop-Extends xs next t rest in
                  (g, subst (In g) (sym grown) (In-append_left next.hidden more mg), rg)
              | there m' ↦ scan_loop-hides xs next t m' e c ro rest
            ]
      ]
