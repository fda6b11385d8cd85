-- ===== src/Lib.antt =====
-- kakoi: a launcher that runs a program in an isolation described by policy files. This library models
-- the merge of the policy layers, the planning of the mounts, the checks that refuse a plan which the
-- isolation could turn against its host, the environment of the isolation, the command guard, the
-- settings of the network, and the state machines and budgets of the filtered network.
--
-- The parts and their files:
--   Prelude      tests, equality, lists, sorting, UTF-8 and Rust's `Result`, shared by all
--   Paths        paths as lists of names, prefixes and the byte order of paths
--   Policy       the types of a policy: crates/kakoi-policy/src/policy.rs, layers.rs; a path as it is
--                written in a policy (Policy/Parse)
--   Layers       crates/kakoi-policy/src/layers.rs: `merge` (Layers/Merge), `Layer::command_line`
--                (Layers/CommandLine)
--   Network      crates/kakoi-policy/src/network: limits.rs (Network/Limits), dns_name.rs (Network/Name),
--                address.rs (Network/Address), allow.rs (Network/Destination), upstream.rs
--                (Network/Upstream); the publications of network.rs (Network/Publish)
--   Environment  crates/kakoi-plan/src/isolated_env.rs: maps of variables (Environment/Maps), cutting of
--                texts (Environment/Texts), `assemble_environment` in its stages (Environment), and
--                `environment_changes` (Environment/Changes)
--   MountList    crates/kakoi-plan/src/mount_list.rs
--   GitFacts     crates/kakoi-plan/src/variables.rs
--   Diagnostic   the errors: crates/kakoi-policy/src/diagnostic.rs, with the path errors of the checks
--   Mounts       crates/kakoi-plan/src/mounts.rs: `expand_policy` (Mounts/Expand), `resolve_written`
--                (Mounts/Resolve), `generate` (Mounts/Generate), `covering_item` and `hidden`
--                (Mounts/Covering)
--   Placement    crates/kakoi-plan/src/placement.rs: `check_protected_paths` (Placement/Protected),
--                `check_written_paths` (Placement/Written), `check_placement` (Placement/Check),
--                `check_origins` and `swappable_ro_items` (Placement/Origins), what the resolution of a
--                path references (Placement/Reference)
--   Wildcard     crates/kakoi-policy/src/wildcard.rs
--   Guard        crates/kakoi-policy/src/guard.rs: matching (Guard), `evaluate` (Guard/Evaluate),
--                `validate` (Guard/Validate)
--   Ports        crates/kakoi-policy/src/network/ports.rs
--   Net          crates/kakoi-net/src: dns/pool.rs (Net/Pool), leases.rs (Net/Leases), recovery.rs
--                (Net/Recovery), resolution.rs (Net/Resolution), dns/chain.rs (Net/Chain), dynamic.rs
--                (Net/Staging)
--   Examples     the theorems at concrete inputs
--
-- How they interact: the layers are merged into one policy (`merge`), which is expanded with the variables
-- that the facts of the git repository give (`derive_variables`, `expand_policy`); the launcher looks the
-- paths up and gives what it found as `MountFacts`; `resolve_written` turns the written items into items
-- at real paths, `check_origins` and `check_placement` accept or refuse them, and `generate` adds the
-- `hide` items that scans, mounts and secrets ask for. The environment of the program is assembled from
-- the host's variables, the policy and the files of the secrets. Facts, variables and the home directory
-- are arguments, so that each theorem holds for every file system. The guard is asked with the arguments
-- and the environment of one run. In the filtered network an answer is followed along its aliases
-- (`Net/Chain`) within a budget of queries (`Net/Resolution`), its addresses become leases (`Net/Leases`),
-- and the permissions are put into the kernel before their deadlines (`Net/Staging`).
--
-- The model: a function that can fail returns a `Result`, and an error is a value that keeps what the
-- source's message shows, not its text. Maps are association lists. A text is the list of its bytes. A
-- method on `&mut self` returns the state after it. `none` stands for a panic where a file says so. The
-- loop of `matches_bytes` runs on fuel, (pattern + text) * (text + 1) + text + 1 rounds, and never uses
-- it up: a new `*` or a longer run of one lowers the first product, every other round shortens the text.
-- That of `overlaps` has as many rounds as there are ranges and one more, and each round drops a range.
-- The walk along the aliases has max_hops + 2 rounds: each alias followed adds a name to the chain, and a
-- chain beyond max_hops + 1 names is refused. The decimal digits of n take n + 1 rounds at most, since
-- each divides by ten. An instant is a number of nanoseconds, and numbers of type `u64` keep their bound.
-- In Net/Recovery an addition past the last instant of the clock is the panic of `Instant + Duration`.
-- The loop of `stage` runs over the rounds that it is given, on a clock that may stand still; its reserve
-- doubles in each round until it takes all the room. An absolute path of a policy keeps its bytes as
-- written, and the display of one replaces what is not UTF-8 (Prelude/Utf8), as `Path::display` does.
--
-- Parameters: the lookup of a path on the disk, where a theorem on mounts says what was found, the last
-- instant of the clock in Net/Recovery, the regex crate and shlex in the guard, the conversion of idna and
-- the reading of an IP address in the network settings, the names and records of hickory in the chain, the
-- clock and the answers of the kernel in the staging of permissions.
--
-- Not modelled: the reading of the file system, processes, sockets and kernel rules; the reading of policy
-- files by toml and serde, and `validate_policy`; the listed mode, the limits of a command and the copies
-- of crates/kakoi-plan; the DNS gate, transport and request table of crates/kakoi-net; the display of
-- values and the text of messages.
pub mod Prelude
pub mod Paths
pub mod Policy
pub mod Diagnostic
pub mod Mounts
pub mod Placement
pub mod Wildcard
pub mod Guard
pub mod Ports
pub mod Net
pub mod Network
pub mod Environment
pub mod Layers
pub mod MountList
pub mod GitFacts
pub mod Examples
