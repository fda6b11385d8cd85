-- ===== src/Diagnostic.antt =====
-- The diagnostics of the mount planning (crates/kakoi-policy/src/diagnostic.rs and the messages of
-- mounts.rs and placement.rs): the kind, and the message as a constructor with the values it names.
use kakoi.Prelude.{Bool}
use kakoi.Paths.{FilePath}
use kakoi.Policy.{Text, Directive}

pub data Kind : Type 0 where
  usage policy path : Kind

-- What a placement message is about.
pub data Role : Type 0 where
  policy_file config_dir path_prepend shared_files scan_root hide_mounts_under : Role
  secret : Text → Role
  item : Directive → Text → FilePath → Role
  workspace : FilePath → Role

pub data WorkPlace : Type 0 where
  worktree workspace : WorkPlace

pub data Problem : Type 0 where
  conflicting_directives : Text → Text → FilePath → Problem
  scan_into_swappable : FilePath → FilePath → Text → FilePath → Problem
  mount_list_unreadable : Problem
  needs_directory : Text → FilePath → Problem
  needs_file : Text → FilePath → Problem
  inside_writable : FilePath → Role → Directive → FilePath → Problem
  link_inside_writable : FilePath → Role → FilePath → Directive → FilePath → Problem
  directory_inside_writable : FilePath → Role → FilePath → Directive → FilePath → Problem
  writable_inside : Directive → FilePath → Role → FilePath → Problem
  hide_follows_link : Role → FilePath → Directive → FilePath → Problem
  origin_follows_link : Role → Text → FilePath → FilePath → Directive → FilePath → Problem
  origin_redirected : Role → Text → FilePath → FilePath → Directive → FilePath → Bool → Problem
  redirected : Role → FilePath → Directive → FilePath → Bool → Problem
  exposed : Role → FilePath → Directive → Text → FilePath → Problem
  workspace_redirected : FilePath → FilePath → FilePath → Problem
  fixed_target : Directive → Text → FilePath → Problem
  too_wide : Directive → FilePath → Problem
  work_place_too_wide : WorkPlace → FilePath → Problem
  current_dir_hidden : FilePath → FilePath → Problem

pub record Diagnostic : Type 0 where
  pub kind : Kind
  pub problem : Problem

-- `Diagnostic::path`
abbrev pub path_error : Problem → Diagnostic
path_error p = record { kind = path; problem = p }
