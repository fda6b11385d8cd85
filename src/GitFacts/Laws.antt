-- ===== src/GitFacts/Laws.antt =====
-- crates/kakoi-plan/src/variables.rs: a shared `.git` behind a `.git` file is one that git linked back.
use kakoi.Prelude.{
  true, ◌&&◌, Option, none, some, find-some, Result, ok, ok_same, Result-cases, Option-cases,
  Bool-cases, &&-true, ◌==◌, eq_of, list_eq, option_eq, nat_eq, ◌≡◌, refl, sym, ◌∙◌, ap, subst, inl,
  inr, In,
}
use kakoi.Paths.{FilePath, name_eq, join}
use kakoi.Mounts.{Variables}
use kakoi.GitFacts.{
  GitEntry, absent_entry, directory_entry, file_entry, symlink_entry, other_entry, is_marker,
  is_file, Ancestor, Reference, absent_reference, unresolvable, resolved, GitFileLinks,
  WorkspaceFacts, PathState, VariablesError, worktree_marker, dot_git_name, worktrees_name,
  parent_of, linked_dir, common_dir_of, verified_common_dir, config_value, workspace_value,
  common_dir_value, worktree_of, derive_variables,
}

-- Where a worktree's shared `.git` may come from.
pub data CommonDir (worktree : FilePath) (links : Option GitFileLinks)
    : GitEntry → FilePath → Type 0 where
  own : CommonDir worktree links directory_entry (join worktree dot_git_name)
  linked :
      {found : GitFileLinks} {gitdir common : FilePath}
      → links ≡ some found
      → found.gitdir ≡ some gitdir
      → parent_of gitdir ≡ some (join common worktrees_name)
      → found.back_link ≡ some (join worktree dot_git_name)
      → found.common_head ≡ file_entry
      → CommonDir worktree links file_entry common
  submodule :
      {found : GitFileLinks} {gitdir : FilePath}
      → links ≡ some found
      → found.gitdir ≡ some gitdir
      → found.core_worktree ≡ some worktree
      → CommonDir worktree links file_entry gitdir

regular : (entry : GitEntry) → is_file entry ≡ true → entry ≡ file_entry
regular file_entry h = refl
regular absent_entry h = absurd (cc h)
regular directory_entry h = absurd (cc h)
regular symlink_entry h = absurd (cc h)
regular other_entry h = absurd (cc h)

common_dir_of-CommonDir :
    (worktree gitdir : FilePath) (found : GitFileLinks) (reference : Reference) {path : FilePath}
    → found.gitdir ≡ some gitdir
    → common_dir_of worktree gitdir found reference ≡ ok path
    → CommonDir worktree (some found) file_entry path
unfolding common_dir_of linked_dir
common_dir_of-CommonDir worktree gitdir found unresolvable g h = absurd (cc h)
common_dir_of-CommonDir worktree gitdir found absent_reference {path} g h =
    elim (Bool-cases (found.core_worktree == some worktree)) [
      | inr other ↦ absurd (cc (rw other at h))
      | inl back ↦
          subst (CommonDir worktree (some found) file_entry) (ok_same (rw back at h))
            (submodule refl g (eq_of found.core_worktree (some worktree) back))
    ]
common_dir_of-CommonDir worktree gitdir found (resolved common) {path} g h =
    let under = parent_of gitdir == some (join common worktrees_name) in
    let back = found.back_link == some (join worktree dot_git_name) in
    elim (Bool-cases (under && back)) [
      | inr other ↦ absurd (cc (rw other at h))
      | inl both ↦ elim (Bool-cases (is_file found.common_head)) [
        | inr bare ↦ absurd (cc (rw (both, bare) at h))
        | inl head ↦
            let (u, b) = &&-true under back both in
            subst (CommonDir worktree (some found) file_entry) (ok_same (rw (both, head) at h)) (
              linked refl g (eq_of (parent_of gitdir) _ u) (eq_of found.back_link _ b)
                (regular found.common_head head))
      ]
    ]

verified-CommonDir :
    (worktree : FilePath) (links : Option GitFileLinks) {path : FilePath}
    → verified_common_dir worktree links ≡ ok path
    → CommonDir worktree links file_entry path
unfolding verified_common_dir
verified-CommonDir worktree none h = absurd (cc h)
verified-CommonDir worktree (some found) h = elim (Option-cases found.gitdir) [
  | inl gone ↦ absurd (cc (rw (gone, verified_common_dir) at h))
  | inr (gitdir, g) ↦
      common_dir_of-CommonDir worktree gitdir found found.commondir g
        (rw (g, verified_common_dir) at h)
]

nothing :
    (common : Option FilePath) (links : Option GitFileLinks)
    → common_dir_value none links ≡ ok common
    → common ≡ none
unfolding common_dir_value
nothing common links h = sym (ok_same h)

some_ok :
    {a b : FilePath}
    → ◌≡◌ {A = Result VariablesError (Option FilePath)} (ok (some a)) (ok (some b))
    → a ≡ b
some_ok p = cc

marked :
    (marker : Ancestor) (links : Option GitFileLinks) (entry : GitEntry) {path : FilePath}
    → marker.dot_git ≡ entry
    → is_marker entry ≡ true
    → common_dir_value (some marker) links ≡ ok (some path)
    → CommonDir marker.path links entry path
unfolding common_dir_value
marked marker links directory_entry same m h =
    subst (CommonDir marker.path links directory_entry) (some_ok (rw (same, common_dir_value) at h))
      own
marked marker links file_entry same m h =
    elim (Result-cases (verified_common_dir marker.path links)) [
      | inl (e, bad) ↦ absurd (cc (rw (same, bad, common_dir_value) at h))
      | inr (found, good) ↦
          subst (CommonDir marker.path links file_entry)
            (some_ok (rw (same, good, common_dir_value) at h))
            (verified-CommonDir marker.path links good)
    ]
marked marker links absent_entry same m h = absurd (cc m)
marked marker links symlink_entry same m h = absurd (cc m)
marked marker links other_entry same m h = absurd (cc m)

-- When the variables are derived with a shared `.git`, the worktree is an ancestor of the workspace, or
-- the workspace itself, and the shared `.git` is the worktree's own directory, or one whose `worktrees`
-- directory holds the linked one, which links back to the worktree and which has a regular `HEAD`, or a
-- submodule's that names the worktree in its `core.worktree`.
pub derive_variables-CommonDir :
    (config_dir : PathState) (facts : WorkspaceFacts) {variables : Variables} {path : FilePath}
    → derive_variables config_dir facts ≡ ok variables
    → variables.git_common_dir ≡ some path
    → (marker : Ancestor) × In marker facts.ancestors
      × (variables.worktree ≡ marker.path)
      × CommonDir marker.path facts.links marker.dot_git path
unfolding derive_variables worktree_marker
derive_variables-CommonDir config_dir facts {variables} {path} h c =
    elim (Result-cases (config_value config_dir)) [
      | inl (e, bad) ↦ absurd (cc (rw (bad, derive_variables) at h))
      | inr (config, good) ↦ elim (Result-cases (workspace_value facts.workspace)) [
        | inl (e, bad) ↦ absurd (cc (rw (good, bad, derive_variables) at h))
        | inr (workspace, there_is) ↦
            elim (Result-cases (common_dir_value (worktree_marker facts.ancestors) facts.links)) [
              | inl (e, bad) ↦ absurd (cc (rw (good, there_is, bad, derive_variables) at h))
              | inr (common, found) ↦
                  let made = ok_same (rw (good, there_is, found, derive_variables) at h) in
                  from_marker workspace common (worktree_marker facts.ancestors) refl found
                    (ap (λ (v : Variables). v.worktree) (sym made))
                    (ap (λ (v : Variables). v.git_common_dir) made ∙ c)
            ]
      ]
    ]
  where
    from_marker :
        (workspace : FilePath) (common : Option FilePath) (o : Option Ancestor)
        → worktree_marker facts.ancestors ≡ o
        → common_dir_value o facts.links ≡ ok common
        → variables.worktree ≡ worktree_of workspace o
        → common ≡ some path
        → (marker : Ancestor) × In marker facts.ancestors
          × (variables.worktree ≡ marker.path)
          × CommonDir marker.path facts.links marker.dot_git path
    from_marker workspace common none w f v same =
        let gone = nothing common facts.links f in absurd (cc (gone, same))
    from_marker workspace common (some marker) w f v same =
        let (inside, is) = find-some _ facts.ancestors w in
        (marker, inside, v, marked marker facts.links marker.dot_git refl is (f ∙ ap ok same))
