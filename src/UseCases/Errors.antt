-- ===== src/UseCases/Errors.antt =====
-- The errors of the use cases, over the error of the repository: crates/tule-core/src/run_use_cases.rs.
use tule.Capability.{CapabilityGrantError, GrantDenialReason}
use tule.Effect.{EffectError}
use tule.Lease.{LeaseError}
use tule.Plan.{ApprovalError}
use tule.Proposal.{BootstrapProposalError}

pub data CompileFreezeError (E : Type 0) : Type 0 where
  run_not_found : CompileFreezeError E
  proposal : BootstrapProposalError → CompileFreezeError E
  repository : E → CompileFreezeError E

pub data ApproveError (E : Type 0) : Type 0 where
  run_not_found : ApproveError E
  approval : ApprovalError → ApproveError E
  repository : E → ApproveError E

pub data GrantUseCaseError (E : Type 0) : Type 0 where
  run_not_found grant_not_found : GrantUseCaseError E
  grant : CapabilityGrantError → GrantUseCaseError E
  denied : GrantDenialReason → GrantUseCaseError E
  repository : E → GrantUseCaseError E

pub data EffectUseCaseError (E : Type 0) : Type 0 where
  run_not_found effect_not_found run_blocked : EffectUseCaseError E
  effect : EffectError → EffectUseCaseError E
  repository : E → EffectUseCaseError E

pub data CheckpointError (E : Type 0) : Type 0 where
  run_not_found not_quiescent run_blocked : CheckpointError E
  repository : E → CheckpointError E

pub data ValidationUseCaseError (E : Type 0) : Type 0 where
  run_not_found : ValidationUseCaseError E
  repository : E → ValidationUseCaseError E

pub data CompleteError (E : Type 0) : Type 0 where
  run_not_found : CompleteError E
  repository : E → CompleteError E

pub data LifecycleUseCaseError (E : Type 0) : Type 0 where
  run_not_found unsafe_boundary : LifecycleUseCaseError E
  repository : E → LifecycleUseCaseError E

pub data CreateRunError (E : Type 0) : Type 0 where
  repository : E → CreateRunError E

pub data LeaseUseCaseError (E : Type 0) : Type 0 where
  run_not_found lease_held : LeaseUseCaseError E
  lease : LeaseError → LeaseUseCaseError E
  repository : E → LeaseUseCaseError E
