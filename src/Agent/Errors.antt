-- ===== src/Agent/Errors.antt =====
-- The errors of crates/tule-core/src/agent.rs.
use tule.Base.{ℕ}
use tule.AgentIds.{InvalidAgentId, InvalidProjectId}
use tule.Clock.{ProjectTimeError}
use tule.Agent.State.{
  IllegalAgentTurnTransition, InvalidAgentTurnState, InvalidAgentEventKind, InvalidAgentEffort,
}

pub data AgentInputError : Type 0 where
  empty : AgentInputError
  too_large : ℕ → AgentInputError

pub data AgentContextError : Type 0 where
  invalid_input : AgentInputError → AgentContextError
  context_limit : ℕ → AgentContextError

pub data AgentOutputLimitError : Type 0 where
  output_limit : AgentOutputLimitError

pub data AgentTurnFinishError : Type 0 where
  illegal_transition : IllegalAgentTurnTransition → AgentTurnFinishError
  time : ProjectTimeError → AgentTurnFinishError

pub data AgentReconstructionError : Type 0 where
  invalid_id : InvalidAgentId → AgentReconstructionError
  invalid_project_id : InvalidProjectId → AgentReconstructionError
  invalid_turn_state : InvalidAgentTurnState → AgentReconstructionError
  invalid_event_kind : InvalidAgentEventKind → AgentReconstructionError
  invalid_effort : InvalidAgentEffort → AgentReconstructionError
