-- ===== src/AgentUseCases/Errors.antt =====
-- The errors of crates/tule-core/src/agent_use_cases.rs, over the error of the repository.
use tule.Base.{ℕ}
use tule.Clock.{ProjectTimeError}
use tule.Catalog.ModelId.{InvalidModelId}
use tule.Agent.State.{IllegalAgentTurnTransition}
use tule.Agent.Turn.{AgentTurn}
use tule.Agent.Errors.{AgentInputError, AgentContextError, AgentTurnFinishError}

pub data InvalidProviderProfileId : Type 0 where
  empty : InvalidProviderProfileId

pub data PrepareAgentSendError (E : Type 0) : Type 0 where
  invalid_input : AgentInputError → PrepareAgentSendError E
  context_limit : ℕ → PrepareAgentSendError E
  session_busy session_not_found project_association_mismatch : PrepareAgentSendError E
  provider_profile_unavailable : InvalidProviderProfileId → PrepareAgentSendError E
  model_unavailable : InvalidModelId → PrepareAgentSendError E
  unsupported_request_control : PrepareAgentSendError E
  time : ProjectTimeError → PrepareAgentSendError E
  repository : E → PrepareAgentSendError E

-- `From<AgentContextError>`.
abbrev pub context_error : {E : Type 0} → AgentContextError → PrepareAgentSendError E
context_error (AgentContextError.invalid_input e) = invalid_input e
context_error (AgentContextError.context_limit n) = context_limit n

pub data FinishAgentTurnError (E : Type 0) : Type 0 where
  turn_not_found session_not_found : FinishAgentTurnError E
  illegal_transition : IllegalAgentTurnTransition → FinishAgentTurnError E
  finish : AgentTurnFinishError → FinishAgentTurnError E
  time : ProjectTimeError → FinishAgentTurnError E
  repository : E → FinishAgentTurnError E

-- `From<AgentTurnFinishError>`.
abbrev pub finish_error : {E : Type 0} → AgentTurnFinishError → FinishAgentTurnError E
finish_error (AgentTurnFinishError.illegal_transition e) = FinishAgentTurnError.illegal_transition e
finish_error (AgentTurnFinishError.time e) = FinishAgentTurnError.time e

pub data ApplyAgentDeltaError (E : Type 0) : Type 0 where
  turn_not_found : ApplyAgentDeltaError E
  illegal_transition : IllegalAgentTurnTransition → ApplyAgentDeltaError E
  output_limit : AgentTurn → ApplyAgentDeltaError E
  time : ProjectTimeError → ApplyAgentDeltaError E
  finish : FinishAgentTurnError E → ApplyAgentDeltaError E
  repository : E → ApplyAgentDeltaError E

pub data SetSessionProjectError (E : Type 0) : Type 0 where
  session_not_found : SetSessionProjectError E
  time : ProjectTimeError → SetSessionProjectError E
  repository : E → SetSessionProjectError E
