-- ===== src/Source/Errors.antt =====
-- The errors of crates/tule-core/src/agent_source.rs.
use tule.Base.{ℕ}
use tule.AgentIds.{InvalidAgentId}
use tule.Clock.{ProjectTimeError}

pub data SourceValidationError : Type 0 where
  unsafe_display_name : SourceValidationError
  too_large : ℕ → SourceValidationError
  contains_nul no_eligible_members : SourceValidationError
  too_many_members : ℕ → SourceValidationError
  time : ProjectTimeError → SourceValidationError
  invalid_canonical_url : SourceValidationError

pub data SourceReconstructionError : Type 0 where
  invalid_id : InvalidAgentId → SourceReconstructionError
  invalid_origin invalid_display_name invalid_content too_large : SourceReconstructionError
  contains_nul byte_count_mismatch invalid_hash hash_mismatch : SourceReconstructionError
  member_count_mismatch invalid_canonical_url : SourceReconstructionError
