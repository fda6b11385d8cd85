-- ===== src/Examples.antt =====
-- The theorems of the development at concrete inputs.
mod Scenario
mod Mounts
mod Links
mod Placement
mod Guard
mod Net
mod Ports
mod Network
mod Facts
mod Environment
mod Layers
mod Resolver
