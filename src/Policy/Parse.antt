-- ===== src/Policy/Parse.antt =====
-- crates/kakoi-policy/src/policy.rs: `PolicyPath::try_from`, the reading of a written path.
use kakoi.Prelude.{
  Bool, true, ◌&&◌, none, some, List, [], ◌∷◌, if◌then◌else◌, eqb, Result, ok, err, ◌==◌, nat_eq,
  list_eq, list_beq, find, ◌≡◌, refl,
}
use kakoi.Prelude.Utf8.{utf8, lossy-utf8}
use kakoi.Guard.Words.{begins_with, split_once}
use kakoi.Policy.{
  Text, codes, Variable, workspace, worktree, git_common_dir, config_dir, variable_name, PolicyPath,
  absolute, home, variable, display,
}

pub data PathError : Type 0 where
  user_form : Text → PathError
  unterminated : Text → PathError
  unknown_variable : Text → Text → PathError
  not_anchored : Text → PathError

-- The table `VARIABLES`.
abbrev variables_table : List (Text × Variable)
variables_table =
    (codes "workspace", workspace)
    ∷ (codes "worktree", worktree)
    ∷ (codes "git_common_dir", git_common_dir)
    ∷ (codes "config_dir", config_dir)
    ∷ []

-- `rest.is_empty() || rest.starts_with('/')`
abbrev home_rest : Text → Bool
home_rest [] = true
home_rest (b ∷ rest) = eqb b b'/'

-- What follows `${`.
unfoldable variable_path : Text → Text → Result PathError PolicyPath
variable_path text rest = elim (split_once b'}' rest) [
  | none ↦ err (unterminated text)
  | some (name, tail) ↦ elim (find (λ entry. entry.0 == name) variables_table) [
    | some entry ↦ ok (variable entry.1 tail)
    | none ↦ err (unknown_variable text name)
  ]
]

-- The forms that do not start with `/`.
unfoldable relative_form : Text → Result PathError PolicyPath
unfolding variable_path
relative_form [] = err (not_anchored [])
relative_form (a ∷ []) = if eqb a b'~' then ok (home []) else err (not_anchored (a ∷ []))
relative_form (a ∷ b ∷ rest) =
    if eqb a b'~'
    then (if home_rest (b ∷ rest) then ok (home (b ∷ rest)) else err (user_form (a ∷ b ∷ rest)))
    else if eqb a b'$' && eqb b b'{'
    then variable_path (a ∷ b ∷ rest) rest
    else err (not_anchored (a ∷ b ∷ rest))

-- `PolicyPath::try_from`
unfoldable pub path_from : Text → Result PathError PolicyPath
unfolding relative_form
path_from text = if begins_with (codes "/") text then ok (absolute text) else relative_form text

-- What the printed form of a path must keep: an absolute path starts with `/` and is UTF-8, and what
-- follows `~` is empty or starts with `/`.
abbrev pub IsWritten : PolicyPath → Type 0
IsWritten (absolute text) = (begins_with (codes "/") text ≡ true) × (utf8 [] text ≡ true)
IsWritten (home rest) = home_rest rest ≡ true
IsWritten (variable v rest) = Unit

home_back : (rest : Text) → home_rest rest ≡ true → path_from (b'~' ∷ rest) ≡ ok (home rest)
unfolding path_from begins_with
home_back [] h = refl
home_back (b ∷ rest) h = rw h refl

-- A written path reads back from its printed form, if what follows its `~` is empty or starts with `/`,
-- and if, when it is absolute, it starts with `/` and is UTF-8.
pub path_from-display : (p : PolicyPath) → IsWritten p → path_from (display p) ≡ ok p
unfolding path_from display begins_with variable_name split_once find list_beq
path_from-display (absolute text) h = rw (lossy-utf8 text h.1, h.0) refl
path_from-display (home rest) h = home_back rest h
path_from-display (variable workspace rest) h = refl
path_from-display (variable worktree rest) h = refl
path_from-display (variable git_common_dir rest) h = refl
path_from-display (variable config_dir rest) h = refl
