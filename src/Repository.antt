-- ===== src/Repository.antt =====
-- What the use cases ask of a store of runs: crates/tule-core/src/run_repository.rs. The trait is a
-- record of calls on a store.
use tule.Base.{Option, List, Text, ℤ}
use tule.Base.Actions.{Action}
use tule.Ids.{HarnessRunId, EffectRecordId, CapabilityGrantId, RootLeaseId}
use tule.Capability.{CapabilityGrant}
use tule.Effect.{EffectRecord}
use tule.Event.{RunEvent}
use tule.Lease.{RootLease}
use tule.Graph.{RunGraphVersion}
use tule.Plan.{ExecutionPlanVersion, ReplacementContentInput, ApprovalRecord}
use tule.Records.{Checkpoint, ValidationResult, FinalWorkResult, DenialEvidence, HarnessRun}

pub record ReconstructedRun : Type 0 where
  pub run : HarnessRun
  pub events : List RunEvent
  pub plans : List ExecutionPlanVersion
  pub graphs : List RunGraphVersion
  pub replacements : List ReplacementContentInput
  pub approvals : List ApprovalRecord
  pub grants : List CapabilityGrant
  pub effects : List EffectRecord
  pub checkpoints : List Checkpoint
  pub validations : List ValidationResult
  pub denials : List DenialEvidence
  pub lease : Option RootLease
  pub final_result : Option FinalWorkResult

pub record ClaimEffectIntent : Type 0 where
  pub run_id : HarnessRunId
  pub effect_id : EffectRecordId
  pub claimant : Text
  pub now_unix_ms : ℤ
  pub event : RunEvent

pub record ConsumeDispatchBudgetIntent : Type 0 where
  pub run_id : HarnessRunId
  pub grant_id : CapabilityGrantId
  pub now_unix_ms : ℤ

pub record PersistCheckpointIntent : Type 0 where
  pub checkpoint : Checkpoint
  pub event : RunEvent

pub record AcquireLeaseIntent : Type 0 where
  pub lease : RootLease
  pub event : RunEvent

pub record ReleaseLeaseIntent : Type 0 where
  pub run_id : HarnessRunId
  pub lease_id : RootLeaseId
  pub event : RunEvent

pub record TakeoverLeaseIntent : Type 0 where
  pub lease : RootLease
  pub event : RunEvent

pub record RunRepository : Type 1 where
  pub Store : Type 0
  pub Error : Type 0
  pub create_run : HarnessRun → RunEvent → Action Store Error (Unit {0})
  pub append_event : RunEvent → Action Store Error (Unit {0})
  pub persist_frozen_pair :
      ExecutionPlanVersion → RunGraphVersion → RunEvent → Action Store Error (Unit {0})
  pub persist_approval : ApprovalRecord → RunEvent → Action Store Error (Unit {0})
  pub persist_grant : CapabilityGrant → RunEvent → Action Store Error (Unit {0})
  pub persist_grant_revocation : CapabilityGrant → RunEvent → Action Store Error (Unit {0})
  pub persist_denial : DenialEvidence → RunEvent → Action Store Error (Unit {0})
  pub persist_prepared_effect : EffectRecord → RunEvent → Action Store Error (Unit {0})
  pub claim_effect : ClaimEffectIntent → Action Store Error EffectRecord
  pub persist_effect_dispatched : EffectRecord → RunEvent → Action Store Error (Unit {0})
  pub persist_effect_settled : EffectRecord → RunEvent → Action Store Error (Unit {0})
  pub consume_dispatch_budget : ConsumeDispatchBudgetIntent → Action Store Error CapabilityGrant
  pub persist_quiescent_checkpoint : PersistCheckpointIntent → Action Store Error (Unit {0})
  pub persist_validation : ValidationResult → RunEvent → Action Store Error (Unit {0})
  pub persist_final_result : FinalWorkResult → RunEvent → Action Store Error (Unit {0})
  pub acquire_lease : AcquireLeaseIntent → Action Store Error (Unit {0})
  pub release_lease : ReleaseLeaseIntent → Action Store Error (Unit {0})
  pub takeover_lease : TakeoverLeaseIntent → Action Store Error (Unit {0})
  pub reconstruct_run : HarnessRunId → Action Store Error (Option ReconstructedRun)
