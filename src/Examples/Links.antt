-- ===== src/Examples/Links.antt =====
-- A file that is named through a symbolic link: the facts hold what was found at the link, and nothing
-- for the file's own path.
use kakoi.Prelude.{
  ◌≡◌, ◌≢◌, refl, [], ◌∷◌, List, Option, none, some, ok, In, get, list_beq, list_eq, All,
  Bool-cases, inl, inr, arith, ◌==◌, subst, ne_of, ap,
}
use kakoi.Paths.{FilePath, name_beq, name_eq}
use kakoi.Policy.{command_line, rw_dir, hide}
use kakoi.Mounts.{
  RealEntry, directory, not_directory, or_missing, ExpandedPolicy, MountFacts, entry, entry_path,
  EntryKind, not_directory_kind, real_and_kind, ResolvedItem, ResolvedMounts, written_by,
}
use kakoi.Mounts.Resolve.{resolve_written, identity}
use kakoi.Mounts.Resolve.Uppermost.{IsCanonical, AreLookedUp, named, resolve_written-uppermost}
use kakoi.Examples.Scenario.{name, work, env_file, expanded_item, facts, mounts_or_none}

abbrev pub link : FilePath
link = name b'h' ∷ name b'u' ∷ name b'x' ∷ []

-- What is on the disk.
abbrev disk : List (FilePath × RealEntry)
disk =
    (work, directory work)
    ∷ (env_file, not_directory env_file)
    ∷ (link, not_directory env_file)
    ∷ []

abbrev pub look : FilePath → RealEntry
look p = or_missing (get p disk)

-- What was looked up.
abbrev pub link_facts : MountFacts
link_facts = record facts {
  paths = (work, directory work) ∷ (link, not_directory env_file) ∷ [];
  links = (link, link ∷ []) ∷ [];
  directories = [];
}

abbrev IsFixed : Option (FilePath × EntryKind) → Type 0
IsFixed none = Unit
IsFixed (some (real, kind)) = real_and_kind (look real) ≡ some (real, kind)

answer-fixed :
    (p real : FilePath) (kind : EntryKind) (rows : List (FilePath × RealEntry))
    → All (λ row. IsFixed (real_and_kind row.1)) rows
    → real_and_kind (or_missing (get p rows)) ≡ some (real, kind)
    → real_and_kind (look real) ≡ some (real, kind)
unfolding get real_and_kind
answer-fixed p real kind [] a h = absurd (ground arith)
answer-fixed p real kind ((q, e) ∷ rows) a h = elim (Bool-cases (q == p)) [
  | inl same ↦ subst IsFixed (rw same at h) a.0
  | inr other ↦ answer-fixed p real kind rows a.1 (rw other at h)
]

pub look-IsCanonical : IsCanonical look
unfolding get real_and_kind list_beq name_beq
look-IsCanonical p real kind h = answer-fixed p real kind disk (refl, (refl, (refl, tt))) h

abbrev expanded : ExpandedPolicy
expanded = record {
  mounts = expanded_item hide link ∷ expanded_item rw_dir work ∷ [];
  scans = [];
  hide_mounts = [];
  secrets = [];
  path_prepend = [];
}

unfoldable resolved : ResolvedMounts
unfolding resolve_written
resolved = mounts_or_none (resolve_written expanded link_facts)

resolved_ok : resolve_written expanded link_facts ≡ ok resolved
unfolding resolved resolve_written list_beq name_beq entry real_and_kind
resolved_ok = refl

looked_up : AreLookedUp look link_facts expanded.mounts
unfolding entry get list_beq name_beq
looked_up = (refl, (refl, tt))

abbrev or_root : Option FilePath → FilePath
or_root none = []
or_root (some p) = p

other_place : named link_facts (expanded_item rw_dir work) ≢ some env_file
unfolding entry real_and_kind list_beq name_beq named identity entry_path
other_place e = ne_of work env_file refl (ap or_root e)

resolve_written-uppermost_example :
    (x : ResolvedItem) × In x resolved.items
    × (x.real ≡ env_file)
    × (x.kind ≡ not_directory_kind)
    × (x.directive ≡ hide)
    × (x.origin ≡ written_by command_line)
unfolding entry real_and_kind list_beq name_beq
resolve_written-uppermost_example =
    resolve_written-uppermost look expanded link_facts [] (expanded_item rw_dir work ∷ [])
      (expanded_item hide link) link look-IsCanonical looked_up refl refl refl (other_place, tt)
      resolved_ok
