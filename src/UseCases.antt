-- ===== src/UseCases.antt =====
-- The use cases of a run, over any repository: crates/tule-core/src/run_use_cases.rs. Each child holds
-- one group of them. An identifier that the code generates is an argument, in the order of generation.
pub mod Errors
pub mod Reading
pub mod Planning
pub mod Grants
pub mod Effects
pub mod Progress
pub mod Leases
pub mod InMemory
pub mod Boundaries
pub mod Dispatch
pub mod Soundness
pub mod SoundGrants
pub mod SoundProgress
pub mod Histories
pub mod Exclusion
pub mod Resuming
pub mod Checkpoints
