-- ===== src/Tests.antt =====
-- Runs of the engine on small machines, and the theorems at concrete inputs.
pub mod Hosts
pub mod Drives
pub mod Relays
pub mod Machines
pub mod Runs
pub mod Endings
pub mod Lookups
pub mod Keepers
pub mod Validation
pub mod Stores
pub mod Transports
pub mod Commands
