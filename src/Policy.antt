-- ===== src/Policy.antt =====
-- The types of a written policy that the mount planning reads: crates/kakoi-policy/src/policy.rs
-- (`Variable`, `PolicyPath`, `Scan`, `HideMounts`) and crates/kakoi-policy/src/layers.rs
-- (`LayerOrigin`, `PolicySource`, `Directive`, `MountItem` and the path fields of `Policy`).
-- A text is the list of its bytes.
pub mod Parse
use kakoi.Prelude.{
  ℕ, ◌≡◌, refl, ap, ◌↔◌, Bool, true, false, Option, none, some, List, [], ◌∷◌, ◌++◌, arith, Eq,
  ◌==◌, nat_eq, list_eq, filter_map, if◌then◌else◌,
}
use Prim.Native.Char.{code}
use Prim.Native.String.{String}
use kakoi.Prelude.Utf8.{lossy}
use kakoi.Paths.{FilePath, Name, name_eq}

abbrev pub Text : Type 0
Text = List ℕ

-- The bytes of an ASCII literal.
abbrev pub codes : String → Text
codes String.[] = []
codes (String.◌∷◌ c s) = code c ∷ codes s

pub data Variable : Type 0 where
  workspace worktree git_common_dir config_dir : Variable

-- `Variable::name`
unfoldable variable_name : Variable → Text
variable_name workspace = codes "workspace"
variable_name worktree = codes "worktree"
variable_name git_common_dir = codes "git_common_dir"
variable_name config_dir = codes "config_dir"

-- An absolute path is kept as it is written, byte for byte. The text of `home` and `variable` is what
-- follows `~` or `${...}`.
pub data PolicyPath : Type 0 where
  absolute : Text → PolicyPath
  home : Text → PolicyPath
  variable : Variable → Text → PolicyPath

-- The path as it was written; `path.display()` replaces what is not UTF-8.
unfoldable pub display : PolicyPath → Text
unfolding variable_name lossy
display (absolute path) = lossy path
display (home rest) = codes "~" ++ rest
display (variable v rest) = codes "${" ++ (variable_name v ++ (codes "}" ++ rest))

-- The pieces between `/` bytes.
split_slash : Text → Text × List Text
split_slash [] = ([], [])
split_slash (b ∷ text) =
    let (head, tail) = split_slash text in if b == 47 then ([], head ∷ tail) else (b ∷ head, tail)

-- `Path::components` drops empty pieces and `.`.
component : Text → Option Name
component [] = none
component (b ∷ []) = if b == 46 then none else some (record { first = b; more = [] })
component (b ∷ c ∷ more) = some (record { first = b; more = c ∷ more })

unfoldable pub components : Text → List Name
unfolding split_slash component filter_map
components text = let (head, tail) = split_slash text in filter_map component (head ∷ tail)

pub data LayerOrigin : Type 0 where
  profile : FilePath → LayerOrigin
  built_in_default : LayerOrigin
  policy_file : FilePath → LayerOrigin
  command_line : LayerOrigin

unfoldable pub origin_beq : LayerOrigin → LayerOrigin → Bool
origin_beq (profile a) (profile b) = a == b
origin_beq built_in_default built_in_default = true
origin_beq (policy_file a) (policy_file b) = a == b
origin_beq command_line command_line = true
origin_beq _ _ = false

pub origin_beq_iff : (a b : LayerOrigin) → (origin_beq a b ≡ true) ↔ (a ≡ b)
unfolding origin_beq
origin_beq_iff (profile a) (profile b) = (
  λ h. ap profile (((list_eq {A = Name}).beq_iff a b).0 h),
  λ p. ((list_eq {A = Name}).beq_iff a b).1 (ground arith),
)
origin_beq_iff built_in_default built_in_default = (λ h. refl, λ p. refl)
origin_beq_iff (policy_file a) (policy_file b) = (
  λ h. ap policy_file (((list_eq {A = Name}).beq_iff a b).0 h),
  λ p. ((list_eq {A = Name}).beq_iff a b).1 (ground arith),
)
origin_beq_iff command_line command_line = (λ h. refl, λ p. refl)
origin_beq_iff _ _ = (λ h. cc, λ p. cc)

instance abbrev pub origin_eq : Eq LayerOrigin
origin_eq = record { beq = origin_beq; beq_iff = origin_beq_iff }

pub data Directive : Type 0 where
  rw_dir rw_file rw_copy ro hide : Directive

unfoldable pub directive_beq : Directive → Directive → Bool
directive_beq rw_dir rw_dir = true
directive_beq rw_file rw_file = true
directive_beq rw_copy rw_copy = true
directive_beq ro ro = true
directive_beq hide hide = true
directive_beq _ _ = false

pub directive_beq_iff : (a b : Directive) → (directive_beq a b ≡ true) ↔ (a ≡ b)
unfolding directive_beq
directive_beq_iff rw_dir rw_dir = (λ h. refl, λ p. refl)
directive_beq_iff rw_file rw_file = (λ h. refl, λ p. refl)
directive_beq_iff rw_copy rw_copy = (λ h. refl, λ p. refl)
directive_beq_iff ro ro = (λ h. refl, λ p. refl)
directive_beq_iff hide hide = (λ h. refl, λ p. refl)
directive_beq_iff _ _ = (λ h. cc, λ p. cc)

instance abbrev pub directive_eq : Eq Directive
directive_eq = record { beq = directive_beq; beq_iff = directive_beq_iff }

-- `Directive::writes_to_host`
unfoldable pub writes_to_host : Directive → Bool
writes_to_host rw_dir = true
writes_to_host rw_file = true
writes_to_host rw_copy = false
writes_to_host ro = false
writes_to_host hide = false

pub record MountItem : Type 0 where
  pub directive : Directive
  pub path : PolicyPath
  pub origin : LayerOrigin

pub record Scan : Type 0 where
  pub root : PolicyPath
  pub names : List Text
  pub exclude : List Text
  pub prune : List Text

pub record HideMounts : Type 0 where
  pub under : PolicyPath
  pub fstype : List Text

-- The fields of the merged policy that name paths.
pub record Policy : Type 0 where
  pub mounts : List MountItem
  pub scan : List Scan
  pub hide_mounts : List HideMounts
  pub path_prepend : List PolicyPath
  pub secrets : List (Text × PolicyPath)
