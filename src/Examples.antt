-- ===== src/Examples.antt =====
-- Runs at concrete inputs: one run of the program with its plan, its grant and its effects.
pub mod Data
pub mod Journal
pub mod Grants
pub mod Lifecycle
pub mod Approval
pub mod Memory
pub mod UseCases
pub mod Sessions
pub mod Agents
pub mod Artifacts
