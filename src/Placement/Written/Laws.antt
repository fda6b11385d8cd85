-- ===== src/Placement/Written/Laws.antt =====
-- What `check_written_paths` has established for each written item when it accepts.
use kakoi.Prelude.{
  ◌≡◌, refl, sym, subst, Option, none, some, List, [], ◌∷◌, ◌++◌, true, false, find_map-none,
  find-none, any-true, ok, >>-eq-ok, check_if, In, here, there, In-append_left, In-append_right,
  Option-cases, inl, inr, arith, ◌==◌,
}
use kakoi.Paths.{FilePath, starts_with}
use kakoi.Policy.{hide, directive_eq}
use kakoi.Diagnostic.{Role}
use kakoi.Mounts.{MountFacts, entry, entry_path, traversed_links, ResolvedItem}
use kakoi.Placement.{WrittenItem, writable_items}
use kakoi.Placement.Reference.{Reference, holder, link_inside_writable, held_link}
use kakoi.Placement.Written.{
  check_hide_links, inside_root, check_landing, exposes, Partner, identical_partner, over_partner,
  partner_list, exposing_partner, check_replacement, Landed, landed_from, held_to_landing,
  item_reference, item_role, check_landed,
}

pub In-landed_from :
    (facts : MountFacts) (lower : List WrittenItem) {item : WrittenItem} {real : FilePath}
    (items : List WrittenItem)
    → In item items
    → entry_path (entry facts item.path) ≡ some real
    → (l : Landed) × In l (landed_from facts lower items) × (l.item ≡ item) × (l.real ≡ real)
unfolding landed_from
In-landed_from facts lower [] m e = elim m [ ]
In-landed_from facts lower {item} {real} (x ∷ xs) (here q) e =
    let ex : entry_path (entry facts x.path) ≡ some real =
      subst (λ (z : WrittenItem). entry_path (entry facts z.path) ≡ some real) q e in
    (record { lower = lower; item = x; real = real }, rw (ex, landed_from) (here refl), sym q, refl)
In-landed_from facts lower (x ∷ xs) (there m) e =
    let (l, i, p, q) = In-landed_from facts (lower ++ (x ∷ [])) xs m e in
    (
      l,
      elim (Option-cases (entry_path (entry facts x.path))) [
        | inl n ↦ rw (n, landed_from) i
        | inr (r, n) ↦ rw (n, landed_from) (there i)
      ],
      p,
      q,
    )

pub link_inside_writable-none :
    (path : FilePath) (writable : List ResolvedItem) (facts : MountFacts) {link : FilePath}
    {item : ResolvedItem}
    → link_inside_writable path writable facts ≡ none
    → In link (traversed_links facts path)
    → In item writable
    → starts_with link item.real ≡ false
unfolding link_inside_writable holder held_link
link_inside_writable-none path writable facts {link} {item} h l m =
    find-none (λ i. starts_with link i.real) writable free m
  where
    free : holder writable link ≡ none
    free = elim (Option-cases (holder writable link)) [
      | inl e ↦ e
      | inr (i, e) ↦
          let none_held : held_link writable link ≡ none =
            find_map-none (held_link writable) (traversed_links facts path) h l in
          absurd (ground arith)
    ]

check_landing-ok :
    (role : Role) (reference : Option Reference) (real : FilePath) (roots : List ResolvedItem)
    {r : Reference}
    → check_landing role reference real roots ≡ ok tt
    → reference ≡ some r
    → (root : ResolvedItem) × In root roots × (starts_with real root.real ≡ true)
unfolding check_landing inside_root
check_landing-ok role none real roots h e = cc
check_landing-ok role (some r) real roots h e =
    any-true (λ (root : ResolvedItem). starts_with real root.real) roots (ground arith)

pub check_replacement-ok :
    (role : Role) (item : WrittenItem) (reference : Option Reference) (real : FilePath)
    (lower : List WrittenItem) (in_force : List ResolvedItem) (facts : MountFacts) {r : Reference}
    → check_replacement role item reference real lower in_force facts ≡ ok tt
    → reference ≡ some r
    → exposing_partner item real lower in_force facts ≡ none
unfolding check_replacement
check_replacement-ok role item none real lower in_force facts h e = cc
check_replacement-ok role item (some r) real lower in_force facts h e =
    elim (Option-cases (exposing_partner item real lower in_force facts)) [
      | inl q ↦ q
      | inr (p, q) ↦ absurd (ground arith)
    ]

pub exposing_partner-none :
    (item : WrittenItem) (real : FilePath) (lower : List WrittenItem) (in_force : List ResolvedItem)
    (facts : MountFacts) (p : Partner)
    → exposing_partner item real lower in_force facts ≡ none
    → over_partner real in_force ≡ some p
    → exposes item.directive p.0 ≡ false
unfolding exposing_partner
exposing_partner-none item real lower in_force facts p h e =
    find-none (λ (q : Partner). exposes item.directive q.0) {a = p} _ h
      (In-append_right (partner_list (identical_partner item real lower facts)) _
        (rw e (here refl)))

identical_partner-none :
    (item : WrittenItem) (real : FilePath) (lower : List WrittenItem) (in_force : List ResolvedItem)
    (facts : MountFacts) (p : Partner)
    → exposing_partner item real lower in_force facts ≡ none
    → identical_partner item real lower facts ≡ some p
    → exposes item.directive p.0 ≡ false
unfolding exposing_partner
identical_partner-none item real lower in_force facts p h e =
    find-none (λ (q : Partner). exposes item.directive q.0) {a = p} _ h
      (In-append_left (partner_list (identical_partner item real lower facts))
        (partner_list (over_partner real in_force)) (rw e (here refl)))

module _ (in_force roots : List ResolvedItem) (workspace : Option FilePath) (facts : MountFacts)
    (l : Landed) (accepted : check_landed in_force roots workspace facts l ≡ ok tt) where
  abbrev pub role : Role
  role = item_role in_force roots workspace facts l

  abbrev pub reference : Option Reference
  reference = item_reference in_force roots workspace facts l

  pub record IsAccepted : Type 0 where
    pub links :
        check_if
          (l.item.directive == hide)
          (check_hide_links role l.item (writable_items in_force) facts)
        ≡ ok tt
    pub landing :
        check_if (held_to_landing l.item.directive) (check_landing role reference l.real roots)
        ≡ ok tt
    pub replacement : check_replacement role l.item reference l.real l.lower in_force facts ≡ ok tt

  pub check_landed-ok : IsAccepted
  unfolding check_landed
  check_landed-ok =
      let (a, h) =
        >>-eq-ok
          (check_if (l.item.directive == hide)
            (check_hide_links role l.item (writable_items in_force) facts))
          _ accepted in
      let (b, c) =
        >>-eq-ok
          (check_if (held_to_landing l.item.directive) (check_landing role reference l.real roots))
          _ h in
      record { links = a; landing = b; replacement = c }

  pub landed-inside_root :
      (r : Reference)
      → held_to_landing l.item.directive ≡ true
      → reference ≡ some r
      → (root : ResolvedItem) × In root roots × (starts_with l.real root.real ≡ true)
  landed-inside_root r d e =
      check_landing-ok role reference l.real roots (rw d at check_landed-ok.landing) e

  pub landed-links :
      (link : FilePath) (item : ResolvedItem)
      → l.item.directive ≡ hide
      → In link (traversed_links facts l.item.path)
      → In item (writable_items in_force)
      → starts_with link item.real ≡ false
  unfolding check_hide_links
  landed-links link item d i m =
      let run : check_hide_links role l.item (writable_items in_force) facts ≡ ok tt =
        rw ((directive_eq.beq_iff l.item.directive hide).1 d) at check_landed-ok.links in
      link_inside_writable-none l.item.path (writable_items in_force) facts
        (elim (Option-cases (link_inside_writable l.item.path (writable_items in_force) facts)) [
          | inl e ↦ e
          | inr (p, e) ↦ absurd (ground arith)
        ])
        i m
