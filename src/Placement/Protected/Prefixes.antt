-- ===== src/Placement/Protected/Prefixes.antt =====
-- What the check of one protected path decides: crates/kakoi-plan/src/placement.rs, `check_prefixes`.
use kakoi.Prelude.{
  ◌≡◌, ◌↔◌, refl, Option, none, some, List, true, false, ok, >>-eq-ok, for_each, for_each-ok,
  for_each-all, All, All-of, All-In, In, find-none, find-some, Option-cases, inl, inr, arith, subst,
}
use kakoi.Paths.{FilePath, starts_with, ancestors}
use kakoi.Diagnostic.{Role}
use kakoi.Mounts.{MountFacts, entry, entry_path, traversed_links, visited_directories, ResolvedItem}
use kakoi.Placement.Reference.{holder}
use kakoi.Placement.Protected.{check_prefix, check_link, check_directory, check_prefixes}

-- A path that exists lies outside an item.
abbrev Outside : ResolvedItem → Option FilePath → Type 0
Outside item none = Unit
Outside item (some real) = starts_with real item.real ≡ false

-- Nothing that resolving `path` consults lies inside `item`: no existing prefix of it, no symbolic link
-- and no directory on the way.
pub record ConsultsNothingIn (facts : MountFacts) (path : FilePath) (item : ResolvedItem)
    : Type 0 where
  pub prefixes : All (λ prefix. Outside item (entry_path (entry facts prefix))) (ancestors path)
  pub links : All (λ link. starts_with link item.real ≡ false) (traversed_links facts path)
  pub directories :
      All (λ directory. starts_with directory item.real ≡ false) (visited_directories facts path)

-- The same as functions.
pub record IsFree (facts : MountFacts) (path : FilePath) (item : ResolvedItem) : Type 0 where
  pub prefixes :
      (prefix real : FilePath)
      → In prefix (ancestors path)
      → entry_path (entry facts prefix) ≡ some real
      → starts_with real item.real ≡ false
  pub links :
      (link : FilePath) → In link (traversed_links facts path) → starts_with link item.real ≡ false
  pub directories :
      (directory : FilePath)
      → In directory (visited_directories facts path)
      → starts_with directory item.real ≡ false

pub free-consults :
    (facts : MountFacts) (path : FilePath) (item : ResolvedItem)
    → IsFree facts path item
    → ConsultsNothingIn facts path item
free-consults facts path item free = record {
  prefixes =
      All-of (λ prefix. Outside item (entry_path (entry facts prefix))) (ancestors path) outside;
  links =
      All-of (λ link. starts_with link item.real ≡ false) (traversed_links facts path) free.links;
  directories =
      All-of (λ directory. starts_with directory item.real ≡ false) (visited_directories facts path)
        free.directories;
}
  where
    outside-at :
        (prefix : FilePath)
        → In prefix (ancestors path)
        → (found : Option FilePath) → entry_path (entry facts prefix) ≡ found
        → Outside item found
    outside-at prefix m none e = tt
    outside-at prefix m (some real) e = free.prefixes prefix real m e

    outside :
        (prefix : FilePath)
        → In prefix (ancestors path)
        → Outside item (entry_path (entry facts prefix))
    outside prefix m = outside-at prefix m (entry_path (entry facts prefix)) refl

consults-IsFree :
    (facts : MountFacts) (path : FilePath) (item : ResolvedItem)
    → ConsultsNothingIn facts path item
    → IsFree facts path item
consults-IsFree facts path item c = record {
  prefixes = λ prefix real m e.
      subst (Outside item) e
        (All-In (λ z. Outside item (entry_path (entry facts z))) (ancestors path) c.prefixes m);
  links = λ link m.
      All-In (λ z. starts_with z item.real ≡ false) (traversed_links facts path) c.links m;
  directories = λ d m.
      All-In (λ z. starts_with z item.real ≡ false) (visited_directories facts path) c.directories
        m;
}

holder-none :
    (writable : List ResolvedItem) (place : FilePath) {item : ResolvedItem}
    → holder writable place ≡ none
    → In item writable
    → starts_with place item.real ≡ false
unfolding holder
holder-none writable place h m = find-none (λ i. starts_with place i.real) writable h m

holder-some :
    (writable : List ResolvedItem) (place : FilePath) {item : ResolvedItem}
    → holder writable place ≡ some item
    → In item writable × (starts_with place item.real ≡ true)
unfolding holder
holder-some writable place h = find-some (λ i. starts_with place i.real) writable h

module _ (path : FilePath) (role : Role) (writable : List ResolvedItem) (facts : MountFacts) where
  check_prefix-ok :
      (prefix real : FilePath)
      → check_prefix path role writable facts prefix ≡ ok tt
      → entry_path (entry facts prefix) ≡ some real
      → holder writable real ≡ none
  unfolding check_prefix
  check_prefix-ok prefix real h e = elim (Option-cases (holder writable real)) [
    | inl free ↦ free
    | inr (item, q) ↦ absurd (ground arith)
  ]

  check_link-ok :
      (link : FilePath)
      → check_link path role writable facts link ≡ ok tt
      → holder writable link ≡ none
  unfolding check_link
  check_link-ok link h = elim (Option-cases (holder writable link)) [
    | inl free ↦ free
    | inr (item, q) ↦ absurd (ground arith)
  ]

  check_directory-ok :
      (directory : FilePath)
      → check_directory path role writable facts directory ≡ ok tt
      → holder writable directory ≡ none
  unfolding check_directory
  check_directory-ok directory h = elim (Option-cases (holder writable directory)) [
    | inl free ↦ free
    | inr (item, q) ↦ absurd (ground arith)
  ]

  pub check_prefixes_sound :
      (item : ResolvedItem)
      → check_prefixes path role writable facts ≡ ok tt
      → In item writable
      → IsFree facts path item
  unfolding check_prefixes
  check_prefixes_sound item h m =
      let (a, h') =
        >>-eq-ok (for_each (check_prefix path role writable facts) (ancestors path)) _ h in
      let (b, c) =
        >>-eq-ok (for_each (check_link path role writable facts) (traversed_links facts path)) _
          h' in
      record {
        prefixes = λ prefix real p e.
            holder-none writable real
              (check_prefix-ok prefix real
                (for_each-ok (check_prefix path role writable facts) (ancestors path) a p) e)
              m;
        links = λ link l.
            holder-none writable link
              (check_link-ok link (
                for_each-ok (check_link path role writable facts) (traversed_links facts path) b l))
              m;
        directories = λ d l.
            holder-none writable d
              (check_directory-ok d (
                for_each-ok (check_directory path role writable facts)
                  (visited_directories facts path) c l))
              m;
      }

  check_prefixes_complete :
      ((item : ResolvedItem) → In item writable → IsFree facts path item)
      → check_prefixes path role writable facts ≡ ok tt
  unfolding check_prefixes check_prefix check_link check_directory
  check_prefixes_complete free = rw (
    for_each-all (check_prefix path role writable facts) (ancestors path) prefix_free,
    for_each-all (check_link path role writable facts) (traversed_links facts path) link_free,
    for_each-all (check_directory path role writable facts) (visited_directories facts path)
        directory_free,
  )
    where
      no_holder :
          (place : FilePath)
          → ((item : ResolvedItem) → In item writable → starts_with place item.real ≡ false)
          → holder writable place ≡ none
      no_holder place f = elim (Option-cases (holder writable place)) [
        | inl e ↦ e
        | inr (item, e) ↦ let (m, s) = holder-some writable place e in cc (f item m)
      ]

      prefix_free :
          (prefix : FilePath)
          → In prefix (ancestors path)
          → check_prefix path role writable facts prefix ≡ ok tt
      prefix_free prefix m = elim (Option-cases (entry_path (entry facts prefix))) [
        | inl e ↦ rw (e, check_prefix)
        | inr (real, e) ↦
            rw (e, check_prefix)
              (rw (no_holder real (λ item i. (free item i).prefixes prefix real m e)))
      ]

      link_free :
          (link : FilePath)
          → In link (traversed_links facts path)
          → check_link path role writable facts link ≡ ok tt
      link_free link m = rw (no_holder link (λ item i. (free item i).links link m), check_link)

      directory_free :
          (d : FilePath)
          → In d (visited_directories facts path)
          → check_directory path role writable facts d ≡ ok tt
      directory_free d m =
          rw (no_holder d (λ item i. (free item i).directories d m), check_directory)

  -- `check_prefixes` accepts a path exactly when nothing that resolving it consults (an existing prefix,
  -- a symbolic link, a directory) lies inside any writable item.
  pub check_prefixes_iff :
      (check_prefixes path role writable facts ≡ ok tt)
      ↔ All (ConsultsNothingIn facts path) writable
  check_prefixes_iff = (
    λ h.
        All-of (ConsultsNothingIn facts path) writable
          (λ item m. free-consults facts path item (check_prefixes_sound item h m)),
    λ all. check_prefixes_complete (λ item m.
        consults-IsFree facts path item (All-In (ConsultsNothingIn facts path) writable all m)),
  )
