-- ===== src/Examples/Placement.antt =====
-- The theorems on placement at the scenario.
use kakoi.Prelude.{
  ◌≡◌, ◌≢◌, ◌↔◌, refl, [], ◌∷◌, ok, In, here, there, true, false, list_beq, inl, inr, All, ne_of,
  list_eq,
}
use kakoi.Paths.{name_eq, FilePath, starts_with, name_beq, bytes}
use kakoi.Policy.{absolute, rw_dir, hide, command_line, directive_beq, origin_beq, writes_to_host}
use kakoi.Diagnostic.{Role}
use kakoi.Mounts.{
  visited_directories, path, ExpandedScan, ExpandedPolicy, ResolvedItem, directory_kind, written_by,
  entry, entry_path, real_and_kind, traversed_links,
}
use kakoi.Mounts.Resolve.{resolve_written, identity}
use kakoi.Placement.{protected_list}
use kakoi.Placement.Reference.Laws.{Consults, IsRootItem}
use kakoi.Placement.Protected.{check_prefixes}
use kakoi.Placement.Protected.Prefixes.{ConsultsNothingIn, check_prefixes_iff}
use kakoi.Placement.Check.{check_placement, dev, proc}
use kakoi.Placement.Check.Laws.{check_placement-protects, check_placement-nothing_inside}
use kakoi.Placement.Check.Targets.{check_placement-targets, check_placement-width}
use kakoi.Placement.Written.{check_written_paths}
use kakoi.Placement.Written.Partner.{MayReplace, IsInnermostOver}
use kakoi.Placement.Written.Outcome.{check_written_paths-landing, check_written_paths-exposes}
use kakoi.Placement.Origins.{check_origins}
use kakoi.Placement.Origins.Laws.{check_origins-links}
use kakoi.Examples.Scenario.{
  expanded, facts, variables, resolved, work, sub, env_file, key_file, config, home_dir, protected,
  written, written_one, outer_link,
}

abbrev item_at : FilePath → ResolvedItem
item_at p = record {
  directive = rw_dir;
  real = p;
  kind = directory_kind;
  origin = written_by command_line;
  written = bytes p;
}

work_resolved : In (item_at work) resolved.items
unfolding resolved resolve_written list_beq name_beq entry real_and_kind
work_resolved = here refl

placed : check_placement resolved protected written variables home_dir work facts ≡ ok []
unfolding resolved resolve_written list_beq name_beq entry real_and_kind directive_beq origin_beq
    check_placement
placed = refl

check_placement-protects_example : ConsultsNothingIn facts key_file (item_at work)
unfolding protected_list writes_to_host
check_placement-protects_example =
    check_placement-protects resolved protected written variables home_dir work facts [] key_file
      (item_at work) placed (there (here refl)) work_resolved refl

check_placement-nothing_inside_example :
    (starts_with work (identity (entry facts config) config) ≡ false)
    × (starts_with work config ≡ false)
unfolding writes_to_host
check_placement-nothing_inside_example =
    check_placement-nothing_inside resolved protected written variables home_dir work facts []
      (item_at work) config placed work_resolved refl (inl refl)

check_placement-targets_example :
    (work ≢ []) × (starts_with work (dev ∷ []) ≡ false) × (starts_with work (proc ∷ []) ≡ false)
check_placement-targets_example =
    check_placement-targets resolved protected written variables home_dir work facts []
      (item_at work) placed work_resolved

check_placement-width_example : starts_with home_dir work ≡ false
unfolding writes_to_host
check_placement-width_example =
    check_placement-width resolved protected written variables home_dir work facts [] (item_at work)
      placed work_resolved refl

check_prefixes_iff_example :
    (check_prefixes key_file Role.path_prepend (item_at work ∷ []) facts ≡ ok tt)
    ↔ All (ConsultsNothingIn facts key_file) (item_at work ∷ [])
check_prefixes_iff_example = check_prefixes_iff key_file Role.path_prepend (item_at work ∷ []) facts

lands : check_written_paths written resolved.items variables work facts ≡ ok tt
unfolding resolved resolve_written list_beq name_beq entry real_and_kind directive_beq origin_beq
    check_written_paths
lands = refl

work_in_force : In (item_at work) resolved.items
unfolding resolved resolve_written list_beq name_beq entry real_and_kind
work_in_force = here refl

visits_work : Consults facts env_file (item_at work)
unfolding list_beq name_beq traversed_links visited_directories starts_with
visits_work = (work, inr (here refl), refl)

sub_visits_work : Consults facts sub (item_at work)
unfolding list_beq name_beq traversed_links visited_directories starts_with
sub_visits_work = (work, inr (here refl), refl)

check_written_paths-landing_example :
    (root : ResolvedItem) × IsRootItem written resolved.items variables work facts root
    × (starts_with env_file root.real ≡ true)
unfolding list_beq name_beq entry entry_path
check_written_paths-landing_example =
    check_written_paths-landing written resolved.items variables work facts
      (written_one hide env_file) env_file (item_at work) lands (there (there (here refl))) refl
      (inr refl) work_in_force (inl refl) (inl visits_work)

work_over_sub : IsInnermostOver sub resolved.items (item_at work)
unfolding resolved resolve_written list_beq name_beq entry real_and_kind starts_with
work_over_sub = record {
  applies = here refl;
  over = refl;
  apart = ne_of sub work refl;
  innermost = (inl refl, (inr (inl refl), (inr (inr (inl refl)), tt)));
}

check_written_paths-exposes_example : MayReplace rw_dir rw_dir
unfolding list_beq name_beq entry entry_path
check_written_paths-exposes_example =
    check_written_paths-exposes written resolved.items variables work facts (written_one rw_dir sub)
      sub (item_at work) (item_at work) lands (there (here refl)) refl work_in_force (inl refl)
      (inl sub_visits_work) work_over_sub

abbrev scan_sub : ExpandedScan
scan_sub = record {
  written = absolute (bytes sub);
  root = path sub;
  names = [];
  exclude = [];
  prune = [];
}

-- The session with a scan root under the writable work place.
abbrev scanning : ExpandedPolicy
scanning = record expanded { scans = scan_sub ∷ [] }

origins_checked : check_origins scanning resolved written variables work facts ≡ ok tt
unfolding resolved resolve_written list_beq name_beq entry real_and_kind directive_beq origin_beq
    check_origins
origins_checked = refl

check_origins-links_example : starts_with outer_link work ≡ false
unfolding list_beq name_beq entry real_and_kind entry_path traversed_links
check_origins-links_example =
    check_origins-links scanning resolved written variables work facts sub sub outer_link
      (item_at work) origins_checked (inl (scan_sub, here refl, refl)) refl (here refl)
      work_in_force (inl refl)
