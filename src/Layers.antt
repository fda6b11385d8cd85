-- ===== src/Layers.antt =====
-- crates/kakoi-policy/src/layers.rs: the merge of the written layers, and the tables of a policy file
-- (crates/kakoi-policy/src/policy.rs). `validate` of the process table is with them.
pub mod Merge
pub mod CommandLine
use kakoi.Prelude.{
  ℕ, Bool, true, false, not, ◌&&◌, Option, none, some, List, [], ◌∷◌, if◌then◌else◌, leb, Result,
  ok, err, Eq, ◌≡◌, ◌↔◌, refl, map,
}
use kakoi.Paths.{FilePath}
use kakoi.Policy.{
  Text, PolicyPath, absolute, LayerOrigin, command_line, MountItem, Scan, HideMounts,
}
use kakoi.Guard.{GuardRule}
use kakoi.Environment.{EnvMode, Values}
use kakoi.Network.Limits.{LimitOverrides, NetworkLimits, LimitError}
use kakoi.Network.Publish.{FixedPublication, PublicationError}
use kakoi.Network.Upstream.{DnsUpstream, UpstreamError}
use kakoi.Network.Destination.{Allow}

pub data ListMode : Type 0 where
  host listed : ListMode

unfoldable pub list_mode_beq : ListMode → ListMode → Bool
list_mode_beq host host = true
list_mode_beq listed listed = true
list_mode_beq _ _ = false

pub list_mode_beq_iff : (a b : ListMode) → (list_mode_beq a b ≡ true) ↔ (a ≡ b)
unfolding list_mode_beq
list_mode_beq_iff host host = (λ h. refl, λ p. refl)
list_mode_beq_iff listed listed = (λ h. refl, λ p. refl)
list_mode_beq_iff _ _ = (λ h. cc, λ p. cc)

instance abbrev pub list_mode_eq : Eq ListMode
list_mode_eq = record { beq = list_mode_beq; beq_iff = list_mode_beq_iff }

pub data NetworkMode : Type 0 where
  filtered host_network no_network : NetworkMode

pub record Mounts : Type 0 where
  pub mode : Option ListMode
  pub system : Option Bool
  pub rw : List PolicyPath
  pub rw_file : List PolicyPath
  pub rw_copy : List PolicyPath
  pub ro : List PolicyPath
  pub hide : List PolicyPath
  pub scan : List Scan
  pub hide_mounts : List HideMounts

pub record Network : Type 0 where
  pub mode : Option NetworkMode
  pub publish : List FixedPublication
  pub allow : List Allow
  pub limits : LimitOverrides
  pub dns_upstream : List DnsUpstream
  pub allow_nested_filtered : Option Bool
  pub settings_present : Bool

pub record Process : Type 0 where
  pub shutdown_grace_seconds : Option ℕ

pub record Env : Type 0 where
  pub mode : Option EnvMode
  pub pass : List Text
  pub set : Values
  pub unset : List Text
  pub path_prepend : List PolicyPath

pub record Git : Type 0 where
  pub instead_of : Values

pub record Commands : Type 0 where
  pub mode : Option ListMode
  pub allow : List PolicyPath
  pub guard : List GuardRule

pub record PolicyFile : Type 0 where
  pub mounts : Mounts
  pub network : Network
  pub process : Process
  pub env : Env
  pub secrets : List (Text × PolicyPath)
  pub git : Git
  pub commands : Commands

pub record Layer : Type 0 where
  pub origin : LayerOrigin
  pub policy : PolicyFile

-- One rule of `commands.guard` with the layer it came from.
pub record GuardEntry : Type 0 where
  pub rule : GuardRule
  pub origin : LayerOrigin

-- `layers::Policy`, whole; `Policy` of the module Policy has the fields that name paths.
pub record MergedPolicy : Type 0 where
  pub mounts_mode : ListMode
  pub mounts_system : Bool
  pub mounts : List MountItem
  pub scan : List Scan
  pub hide_mounts : List HideMounts
  pub network_mode : NetworkMode
  pub network_settings_present : Bool
  pub network_publish : List FixedPublication
  pub network_allow : List Allow
  pub network_limits : NetworkLimits
  pub dns_upstream : List DnsUpstream
  pub shutdown_grace_seconds : ℕ
  pub allow_nested_filtered : Bool
  pub env_mode : EnvMode
  pub env_pass : List Text
  pub env_set : Values
  pub env_unset : List Text
  pub path_prepend : List PolicyPath
  pub secrets : List (Text × PolicyPath)
  pub instead_of : Values
  pub commands_mode : ListMode
  pub commands_allow : List PolicyPath
  pub guards : List GuardEntry

pub data MergeError : Type 0 where
  mode_not_written : MergeError
  grace_out_of_range : MergeError
  system_has_no_effect : MergeError
  commands_have_no_effect : MergeError
  pass_has_no_effect : MergeError
  set_and_secret : Text → MergeError
  interface_not_supported : MergeError
  bad_limits : LimitError → MergeError
  bad_publication : PublicationError → MergeError
  bad_upstreams : UpstreamError → MergeError

-- `Process::validate`
unfoldable pub validate_grace : Option ℕ → Result MergeError (Unit {0})
validate_grace none = ok tt
validate_grace (some seconds) =
    if leb 1 seconds && leb seconds 300 then ok tt else err grace_out_of_range
