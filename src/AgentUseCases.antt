-- ===== src/AgentUseCases.antt =====
-- The use cases of conversations, over any repository: crates/tule-core/src/agent_use_cases.rs. The
-- generated identifiers and what the system clock gives at each reading are arguments.
pub mod Errors
pub mod History
pub mod Send
pub mod Finish
pub mod Delta
pub mod Interrupt
