-- ===== src/UseCases/Planning.antt =====
-- Freezing a plan with its graph, and approving the pair: crates/tule-core/src/run_use_cases.rs,
-- `compile_and_freeze_pair` and `approve_pair`.
use tule.Base.{Option, Text, ℤ, map_err}
use tule.Base.Actions.{Action, ◌>>=◌, ◌>>◌, pure, lift, on_error}
use tule.Ids.{
  HarnessRunId, RunEventId, ExecutionPlanVersionId, RunGraphVersionId, ApprovalRecordId, Uuid,
  UuidCrate,
}
use tule.Event.{RunEventKind}
use tule.Canonical.{Digest}
use tule.Graph.{RunGraphVersion, compile_fixed_first_graph}
use tule.Plan.{
  DisclosurePolicy, CapabilityEnvelope, ContextManifest, ExecutionPlanVersion, ApprovalRecord,
  new_replacement, freeze, new_approval, execution_policy_revision_v1,
}
use tule.Repository.{RunRepository}
use tule.UseCases.Errors.{CompileFreezeError, ApproveError}
use tule.UseCases.Reading.{reconstruct, next_event}

module _ (R : RunRepository) where
  unfoldable pub compile_and_freeze_pair :
      UuidCrate
      → Digest
      → Uuid
      → RunGraphVersionId
      → ExecutionPlanVersionId
      → RunEventId
      → HarnessRunId
      → Text
      → Text
      → Text
      → DisclosurePolicy
      → CapabilityEnvelope
      → ContextManifest
      → Text
      → Text
      → Text
      → Text
      → Option Text
      → Option Text
      → ℤ
      → Action R.Store (CompileFreezeError R.Error) (ExecutionPlanVersion × RunGraphVersion)
  compile_and_freeze_pair u digest replacement_id graph_id plan_id event_id run_id instructions
        provider_profile_id model_id policy envelope manifest preimage postimage relative_target
        identity request response now_unix_ms =
      do
        reconstructed ←
            reconstruct R CompileFreezeError.repository CompileFreezeError.run_not_found run_id
        replacement ← lift (
            map_err CompileFreezeError.proposal (
              new_replacement digest replacement_id relative_target preimage postimage request
                response now_unix_ms))
        let graph = compile_fixed_first_graph digest graph_id
        let plan =
            freeze u digest plan_id graph instructions provider_profile_id model_id policy envelope
              manifest replacement identity execution_policy_revision_v1 now_unix_ms
        on_error CompileFreezeError.repository (
            R.persist_frozen_pair plan graph (
              next_event event_id run_id reconstructed
                (RunEventKind.pair_frozen plan.id graph.id plan.approval_hash) now_unix_ms))
        pure (plan, graph)

  unfoldable pub approve_pair :
      ApprovalRecordId
      → RunEventId
      → HarnessRunId
      → ExecutionPlanVersion
      → RunGraphVersion
      → Text
      → ℤ
      → Action R.Store (ApproveError R.Error) ApprovalRecord
  approve_pair approval_id event_id run_id plan graph approver now_unix_ms = do
    reconstructed ← reconstruct R ApproveError.repository ApproveError.run_not_found run_id
    approval ← lift (
        map_err ApproveError.approval
          (new_approval approval_id run_id plan graph approver now_unix_ms))
    on_error ApproveError.repository (
        R.persist_approval approval (
          next_event event_id run_id reconstructed (RunEventKind.approved approval.id) now_unix_ms))
    pure approval
