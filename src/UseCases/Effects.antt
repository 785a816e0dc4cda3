-- ===== src/UseCases/Effects.antt =====
-- The effect journal of a run: crates/tule-core/src/run_use_cases.rs, `prepare_effect`, `claim_effect`,
-- `dispatch_effect`, `settle_effect` and `reconcile_effect`.
use tule.Base.{Bool, true, false, Option, Text, ℤ, map_err, ok_or, find, ◌==◌, nat_eq}
use tule.Base.Actions.{Action, ◌>>=◌, ◌>>◌, pure, fail_if, lift, on_error}
use tule.Ids.{
  HarnessRunId, RunEventId, NodeAttemptId, ExecutionPlanVersionId, RunGraphVersionId,
  CapabilityGrantId, EffectRecordId,
}
use tule.Event.{RunEventKind}
use tule.Capability.Kinds.{registered_operation_schema_v1}
use tule.Effect.{EffectRecord, prepare, mark_dispatched, settle, reconcile}
use tule.Effect.OperationResult.{EffectOperationResult}
use tule.Effect.Certainty.{EffectCertainty, ReconciliationProbe, reconcile_replacement_certainty}
use tule.Lifecycle.{HarnessRunLifecycle, blocked_reconciliation_required, derive_lifecycle}
use tule.Repository.{ReconstructedRun, RunRepository}
use tule.UseCases.Errors.{EffectUseCaseError}
use tule.UseCases.Reading.{reconstruct, next_event}

abbrev pub is_blocked : HarnessRunLifecycle → Bool
is_blocked blocked_reconciliation_required = true
is_blocked _ = false

module _ (R : RunRepository) where
  unfoldable pub prepare_effect :
      EffectRecordId
      → RunEventId
      → HarnessRunId
      → Option NodeAttemptId
      → Option ExecutionPlanVersionId
      → Option RunGraphVersionId
      → Text
      → Text
      → CapabilityGrantId
      → ℤ
      → Option Text
      → Option Text
      → Action R.Store (EffectUseCaseError R.Error) EffectRecord
  prepare_effect effect_id event_id run_id attempt_id plan_version_id graph_version_id operation_id
        target_hash grant_id now_unix_ms preimage_hash postimage_hash =
      do
        reconstructed ←
            reconstruct R EffectUseCaseError.repository EffectUseCaseError.run_not_found run_id
        fail_if (is_blocked (derive_lifecycle reconstructed.events reconstructed.effects))
            EffectUseCaseError.run_blocked
        let effect =
            prepare effect_id run_id attempt_id plan_version_id graph_version_id operation_id
              registered_operation_schema_v1 target_hash grant_id now_unix_ms preimage_hash
              postimage_hash
        on_error EffectUseCaseError.repository (
            R.persist_prepared_effect effect (
              next_event event_id run_id reconstructed (RunEventKind.effect_prepared effect.id)
                now_unix_ms))
        pure effect

  unfoldable pub claim_effect :
      RunEventId
      → HarnessRunId
      → EffectRecordId
      → Text
      → ℤ
      → Action R.Store (EffectUseCaseError R.Error) EffectRecord
  claim_effect event_id run_id effect_id claimant now_unix_ms = do
    reconstructed ←
        reconstruct R EffectUseCaseError.repository EffectUseCaseError.run_not_found run_id
    on_error EffectUseCaseError.repository (
        R.claim_effect (record {
          run_id = run_id;
          effect_id = effect_id;
          claimant = claimant;
          now_unix_ms = now_unix_ms;
          event =
              next_event event_id run_id reconstructed
                (RunEventKind.effect_claimed effect_id claimant) now_unix_ms;
        }))

  -- `effects.iter_mut().find(...).ok_or(EffectNotFound)?` on the reconstructed copy.
  abbrev pub find_effect :
      EffectRecordId → ReconstructedRun → Action R.Store (EffectUseCaseError R.Error) EffectRecord
  find_effect effect_id reconstructed = lift (
      ok_or (find (λ e. e.id == effect_id) reconstructed.effects)
        EffectUseCaseError.effect_not_found)

  unfoldable pub dispatch_effect :
      RunEventId
      → HarnessRunId
      → EffectRecordId
      → CapabilityGrantId
      → Text
      → ℤ
      → Action R.Store (EffectUseCaseError R.Error) EffectRecord
  dispatch_effect event_id run_id effect_id grant_id claimant now_unix_ms = do
    _ ← on_error EffectUseCaseError.repository (
        R.consume_dispatch_budget
          (record { run_id = run_id; grant_id = grant_id; now_unix_ms = now_unix_ms }))
    reconstructed ←
        reconstruct R EffectUseCaseError.repository EffectUseCaseError.run_not_found run_id
    effect ← find_effect effect_id reconstructed
    let (updated, result) = mark_dispatched effect claimant now_unix_ms
    lift (map_err EffectUseCaseError.effect result)
    on_error EffectUseCaseError.repository (
        R.persist_effect_dispatched updated (
          next_event event_id run_id reconstructed (RunEventKind.effect_dispatched effect_id)
            now_unix_ms))
    pure updated

  unfoldable pub settle_effect :
      RunEventId
      → HarnessRunId
      → EffectRecordId
      → Text
      → EffectOperationResult
      → EffectCertainty
      → ℤ
      → Action R.Store (EffectUseCaseError R.Error) EffectRecord
  settle_effect event_id run_id effect_id claimant operation_result certainty now_unix_ms = do
    reconstructed ←
        reconstruct R EffectUseCaseError.repository EffectUseCaseError.run_not_found run_id
    effect ← find_effect effect_id reconstructed
    let (updated, result) = settle effect claimant operation_result certainty now_unix_ms
    lift (map_err EffectUseCaseError.effect result)
    on_error EffectUseCaseError.repository (
        R.persist_effect_settled updated (
          next_event event_id run_id reconstructed (RunEventKind.effect_settled effect_id certainty)
            now_unix_ms))
    pure updated

  unfoldable pub reconcile_effect :
      RunEventId
      → HarnessRunId
      → EffectRecordId
      → ReconciliationProbe
      → ℤ
      → Action R.Store (EffectUseCaseError R.Error) EffectRecord
  reconcile_effect event_id run_id effect_id probe now_unix_ms = do
    reconstructed ←
        reconstruct R EffectUseCaseError.repository EffectUseCaseError.run_not_found run_id
    effect ← find_effect effect_id reconstructed
    let (updated, result) = reconcile effect probe now_unix_ms
    lift (map_err EffectUseCaseError.effect result)
    let certainty = reconcile_replacement_certainty probe
    on_error EffectUseCaseError.repository (
        R.persist_effect_settled updated (
          next_event event_id run_id reconstructed (RunEventKind.effect_settled effect_id certainty)
            now_unix_ms))
    pure updated
