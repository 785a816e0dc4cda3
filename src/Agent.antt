-- ===== src/Agent.antt =====
-- Sessions of a conversation, their turns and events: crates/tule-core/src/agent.rs.
pub mod State
pub mod Errors
pub mod Session
pub mod Turn
pub mod Event
pub mod Input
pub mod Context
pub mod Bounds
pub mod Life
