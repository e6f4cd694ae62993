-- ===== src/Engine.antt =====
-- src/harel/engine/core.py: the interpretation of a definition as steps that yield effects. The parts
-- are the modules below; the proofs stand beneath the part that they are about.
pub mod Result
pub mod Guard
pub mod Effects
pub mod Resolve
pub mod Expression
pub mod Regions
pub mod Take
pub mod Drain
pub mod Teardown
pub mod Start
pub mod Finished
pub mod Process
pub mod Signals
pub mod Evolution
