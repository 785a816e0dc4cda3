-- ===== src/UseCases/Histories.antt =====
-- Histories of the repository in memory under the use cases, in any order, with any arguments, those
-- that are refused included: crates/tule-core/src/run_use_cases.rs.
use tule.Base.{Bool, false, Option, [], arith, nat_eq, Text, ℤ}
use tule.Ids.{
  HarnessRunId, RunEventId, NodeAttemptId, ExecutionPlanVersionId, RunGraphVersionId,
  CapabilityGrantId, EffectRecordId, RootLeaseId, CheckpointId, ApprovalRecordId, DenialEvidenceId,
  ValidationResultId, Uuid, UuidCrate,
}
use tule.Capability.{GrantResourceSelector, GrantActionScope, PlanGraphPairBinding}
use tule.Capability.Kinds.{CapabilityType}
use tule.Effect.OperationResult.{EffectOperationResult}
use tule.Effect.Certainty.{EffectCertainty, ReconciliationProbe}
use tule.Store.{MemoryRunRepository}
use tule.MemoryRepository.{memory}
use tule.MemoryRepository.Soundness.{AllSound}
use tule.UseCases.Grants
use tule.UseCases.Effects
use tule.UseCases.Effects.{is_blocked, find_effect}
use tule.Canonical.{Digest}
use tule.Graph.{RunGraphVersion}
use tule.Plan.{DisclosurePolicy, CapabilityEnvelope, ContextManifest, ExecutionPlanVersion}
use tule.Records.{TaskCohortAssignment, ComparisonInstrumentation}
use tule.UseCases.Planning
use tule.UseCases.Progress
use tule.UseCases.Progress.{is_unsafe_boundary, last_sequence, or_else}
use tule.UseCases.Leases
use tule.UseCases.Leases.{check_takeover}
use tule.UseCases.Soundness.{
  prepare_effect-Keeps, claim_use_case-Keeps, dispatch_effect-Keeps, settle_effect-Keeps,
  reconcile_effect-Keeps,
}
use tule.UseCases.SoundGrants.{
  issue_grant-Keeps, revoke_grant-Keeps, record_denial-Keeps, compile_and_freeze_pair-Keeps,
  approve_pair-Keeps,
}
use tule.UseCases.SoundProgress.{
  create_run_use_case-Keeps, checkpoint_run-Keeps, validate_native_structural-Keeps,
  complete_run-Keeps, pause_run-Keeps, cancel_run-Keeps, acquire_root_lease-Keeps,
  release_root_lease-Keeps, takeover_root_lease-Keeps,
}
use tule.Store.{get}

-- One store becomes another by one use case.
pub data Step (r : MemoryRunRepository) : MemoryRunRepository → Type 0 where
  creates :
      (run_id : HarnessRunId) (event_id : RunEventId) (name : Text)
      (cohort : Option TaskCohortAssignment) (now : ℤ)
      → Step r (Progress.create_run memory run_id event_id name cohort now r).0
  freezes :
      (u : UuidCrate) (digest : Digest) (replacement_id : Uuid) (graph_id : RunGraphVersionId)
      (plan_id : ExecutionPlanVersionId) (event_id : RunEventId) (run_id : HarnessRunId)
      (instructions provider model : Text) (policy : DisclosurePolicy)
      (envelope : CapabilityEnvelope) (manifest : ContextManifest)
      (preimage postimage target identity : Text) (request response : Option Text) (now : ℤ)
      → Step r
          (Planning.compile_and_freeze_pair memory u digest replacement_id graph_id plan_id event_id
            run_id instructions provider model policy envelope manifest preimage postimage target
            identity request response now r).0
  approves :
      (approval_id : ApprovalRecordId) (event_id : RunEventId) (run_id : HarnessRunId)
      (plan : ExecutionPlanVersion) (graph : RunGraphVersion) (approver : Text) (now : ℤ)
      → Step r
          (Planning.approve_pair memory approval_id event_id run_id plan graph approver now r).0
  issues :
      (grant_id : CapabilityGrantId) (event_id : RunEventId) (run_id : HarnessRunId)
      (capability : CapabilityType) (resource : GrantResourceSelector) (scope : GrantActionScope)
      (pair : Option PlanGraphPairBinding) (approval : Option ApprovalRecordId) (issuer : Text)
      (now : ℤ)
      → Step r
          (Grants.issue_grant memory grant_id event_id run_id capability resource scope pair
            approval issuer now r).0
  revokes :
      (event_id : RunEventId) (run_id : HarnessRunId) (grant_id : CapabilityGrantId) (now : ℤ)
      → Step r (Grants.revoke_grant memory event_id run_id grant_id now r).0
  records_denial :
      (denial_id : DenialEvidenceId) (event_id : RunEventId) (run_id : HarnessRunId) (reason : Text)
      (grant_id : Option CapabilityGrantId) (resource : Option GrantResourceSelector) (now : ℤ)
      → Step r
          (Grants.record_denial memory denial_id event_id run_id reason grant_id resource now r).0
  prepares :
      (effect_id : EffectRecordId) (event_id : RunEventId) (run_id : HarnessRunId)
      (attempt : Option NodeAttemptId) (plan : Option ExecutionPlanVersionId)
      (graph : Option RunGraphVersionId) (operation target : Text) (grant : CapabilityGrantId)
      (now : ℤ) (preimage postimage : Option Text)
      → Step r
          (Effects.prepare_effect memory effect_id event_id run_id attempt plan graph operation
            target grant now preimage postimage r).0
  claims :
      (event_id : RunEventId) (run_id : HarnessRunId) (effect_id : EffectRecordId) (claimant : Text)
      (now : ℤ)
      → Step r (Effects.claim_effect memory event_id run_id effect_id claimant now r).0
  dispatches :
      (event_id : RunEventId) (run_id : HarnessRunId) (effect_id : EffectRecordId)
      (grant_id : CapabilityGrantId) (claimant : Text) (now : ℤ)
      → Step r (Effects.dispatch_effect memory event_id run_id effect_id grant_id claimant now r).0
  settles :
      (event_id : RunEventId) (run_id : HarnessRunId) (effect_id : EffectRecordId) (claimant : Text)
      (result : EffectOperationResult) (certainty : EffectCertainty) (now : ℤ)
      → Step r
          (Effects.settle_effect memory event_id run_id effect_id claimant result certainty now r).0
  reconciles :
      (event_id : RunEventId) (run_id : HarnessRunId) (effect_id : EffectRecordId)
      (probe : ReconciliationProbe) (now : ℤ)
      → Step r (Effects.reconcile_effect memory event_id run_id effect_id probe now r).0
  checkpoints :
      (u : UuidCrate) (digest : Digest) (checkpoint_id : CheckpointId) (event_id : RunEventId)
      (run_id : HarnessRunId) (plan : ExecutionPlanVersion) (graph : RunGraphVersion) (now : ℤ)
      → Step r
          (Progress.checkpoint_run memory u digest checkpoint_id event_id run_id plan graph now r).0
  validates :
      (validation_id : ValidationResultId) (event_id : RunEventId) (run_id : HarnessRunId)
      (plan : ExecutionPlanVersion) (graph : RunGraphVersion) (observed diff : Text) (now : ℤ)
      → Step r
          (Progress.validate_native_structural memory validation_id event_id run_id plan graph
            observed diff now r).0
  completes :
      (digest : Digest) (event_id : RunEventId) (run_id : HarnessRunId)
      (plan : ExecutionPlanVersion) (graph : RunGraphVersion)
      (instrumentation : ComparisonInstrumentation) (cohort : Option TaskCohortAssignment) (now : ℤ)
      → Step r
          (Progress.complete_run memory digest event_id run_id plan graph instrumentation cohort now
            r).0
  pauses :
      (event_id : RunEventId) (run_id : HarnessRunId) (now : ℤ)
      → Step r (Progress.pause_run memory event_id run_id now r).0
  cancels :
      (event_id : RunEventId) (run_id : HarnessRunId) (now : ℤ)
      → Step r (Progress.cancel_run memory event_id run_id now r).0
  acquires :
      (lease_id : RootLeaseId) (event_id : RunEventId) (run_id : HarnessRunId) (owner : Text)
      (now : ℤ)
      → Step r (Leases.acquire_root_lease memory lease_id event_id run_id owner now r).0
  releases :
      (event_id : RunEventId) (run_id : HarnessRunId) (lease_id : RootLeaseId) (now : ℤ)
      → Step r (Leases.release_root_lease memory event_id run_id lease_id now r).0
  takes_over :
      (lease_id : RootLeaseId) (event_id : RunEventId) (run_id : HarnessRunId) (owner : Text)
      (gone : Bool) (now : ℤ)
      → Step r (Leases.takeover_root_lease memory lease_id event_id run_id owner gone now r).0

-- The stores that the empty one becomes.
pub data Reached : MemoryRunRepository → Type 0 where
  start : Reached (record { poisoned = false; inner = [] })
  next : {r r' : MemoryRunRepository} → Reached r → Step r r' → Reached r'

Step-AllSound : {r r' : MemoryRunRepository} → Step r r' → AllSound r → AllSound r'
Step-AllSound {r} (creates run_id event_id name cohort now) i =
    ((create_run_use_case-Keeps run_id event_id name cohort now).keeps r i).0
Step-AllSound {r}
      (freezes u digest replacement_id graph_id plan_id event_id run_id instructions provider model
        policy envelope manifest preimage postimage target identity request response now)
      i =
    ((compile_and_freeze_pair-Keeps u digest replacement_id graph_id plan_id event_id run_id
        instructions provider model policy envelope manifest preimage postimage target identity
        request response now).keeps
      r i).0
Step-AllSound {r} (approves approval_id event_id run_id plan graph approver now) i =
    ((approve_pair-Keeps approval_id event_id run_id plan graph approver now).keeps r i).0
Step-AllSound {r}
      (issues grant_id event_id run_id capability resource scope pair approval issuer now) i =
    ((issue_grant-Keeps grant_id event_id run_id capability resource scope pair approval issuer
        now).keeps
      r i).0
Step-AllSound {r} (revokes event_id run_id grant_id now) i =
    ((revoke_grant-Keeps event_id run_id grant_id now).keeps r i).0
Step-AllSound {r} (records_denial denial_id event_id run_id reason grant_id resource now) i =
    ((record_denial-Keeps denial_id event_id run_id reason grant_id resource now).keeps r i).0
Step-AllSound {r}
      (prepares effect_id event_id run_id attempt plan graph operation target grant now preimage
        postimage)
      i =
    ((prepare_effect-Keeps effect_id event_id run_id attempt plan graph operation target grant now
        preimage postimage).keeps
      r i).0
Step-AllSound {r} (claims event_id run_id effect_id claimant now) i =
    ((claim_use_case-Keeps event_id run_id effect_id claimant now).keeps r i).0
Step-AllSound {r} (dispatches event_id run_id effect_id grant_id claimant now) i =
    ((dispatch_effect-Keeps event_id run_id now effect_id grant_id claimant).keeps r i).0
Step-AllSound {r} (settles event_id run_id effect_id claimant result certainty now) i =
    ((settle_effect-Keeps event_id run_id now effect_id claimant result certainty).keeps r i).0
Step-AllSound {r} (reconciles event_id run_id effect_id probe now) i =
    ((reconcile_effect-Keeps event_id run_id now effect_id probe).keeps r i).0
Step-AllSound {r} (checkpoints u digest checkpoint_id event_id run_id plan graph now) i =
    ((checkpoint_run-Keeps u digest checkpoint_id event_id run_id plan graph now).keeps r i).0
Step-AllSound {r} (validates validation_id event_id run_id plan graph observed diff now) i =
    ((validate_native_structural-Keeps validation_id event_id run_id plan graph observed diff
        now).keeps
      r i).0
Step-AllSound {r} (completes digest event_id run_id plan graph instrumentation cohort now) i =
    ((complete_run-Keeps digest event_id run_id plan graph instrumentation cohort now).keeps r i).0
Step-AllSound {r} (pauses event_id run_id now) i =
    ((pause_run-Keeps event_id run_id now).keeps r i).0
Step-AllSound {r} (cancels event_id run_id now) i =
    ((cancel_run-Keeps event_id run_id now).keeps r i).0
Step-AllSound {r} (acquires lease_id event_id run_id owner now) i =
    ((acquire_root_lease-Keeps lease_id event_id run_id owner now).keeps r i).0
Step-AllSound {r} (releases event_id run_id lease_id now) i =
    ((release_root_lease-Keeps event_id run_id lease_id now).keeps r i).0
Step-AllSound {r} (takes_over lease_id event_id run_id owner gone now) i =
    ((takeover_root_lease-Keeps lease_id event_id run_id owner gone now).keeps r i).0

start-AllSound : AllSound (record { poisoned = false; inner = [] })
unfolding AllSound get
start-AllSound id s h = absurd (ground arith)

-- Whatever use cases have run from an empty store on, in whatever order and with whatever results:
-- each run in memory has its events numbered from one on without a gap, as u64, each effect has the
-- fields of its phase, and each grant has a positive budget, no more than it left, and an end after its
-- issue.
pub Reached-AllSound : (r : MemoryRunRepository) → Reached r → AllSound r
Reached-AllSound _ start = start-AllSound
Reached-AllSound _ (next {r} reached step) = Step-AllSound step (Reached-AllSound r reached)
