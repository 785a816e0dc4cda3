-- ===== src/UseCases/Progress.antt =====
-- From the creation of a run to its end: crates/tule-core/src/run_use_cases.rs, `create_run`,
-- `checkpoint_run`, `validate_native_structural`, `complete_run`, `pause_run`, `cancel_run` and
-- `resume_run`. The time that `resume_run` asks of its clock is an argument.
use tule.Base.{
  ℕ, Bool, true, false, not, ◌||◌, ◌&&◌, Option, none, some, List, [], ◌∷◌, Text, ℤ, leb_ℤ, last,
  ◌==◌, text_eq, if◌then◌else◌,
}
use tule.Base.Actions.{Action, ◌>>=◌, ◌>>◌, pure, fail_if, on_error}
use tule.Ids.{
  HarnessRunId, RunEventId, CheckpointId, ValidationResultId, CapabilityGrantId, EffectRecordId,
  UuidCrate,
}
use tule.Event.{RunEvent, RunEventKind}
use tule.Canonical.{Digest, hash_event_chain}
use tule.Capability.{CapabilityGrant, is_revoked}
use tule.Capability.Kinds.{op_create_or_replace_v1}
use tule.Effect.{EffectRecord}
use tule.Effect.Certainty.{
  EffectCertainty, confirmed_committed, confirmed_no_effect, unknown_or_partial,
}
use tule.Lifecycle.{is_terminal, derive_lifecycle, is_quiescent_for_checkpoint}
use tule.Graph.{RunGraphVersion, derive}
use tule.Plan.{ExecutionPlanVersion}
use tule.Records.{
  TaskCohortAssignment, ComparisonInstrumentation, Checkpoint, ValidationResult, native_structural,
  FinalWorkResult, new_final_result, HarnessRun,
}
use tule.Resume.{ResumeRevalidation, ResumeDecision, evaluate_resume}
use tule.Repository.{ReconstructedRun, RunRepository}
use tule.UseCases.Errors.{
  CheckpointError, ValidationUseCaseError, CompleteError, LifecycleUseCaseError, CreateRunError,
}
use tule.UseCases.Reading.{reconstruct, next_event}
use tule.UseCases.Effects.{is_blocked}

-- `events.last().map(RunEvent::sequence).unwrap_or(0)`.
abbrev pub last_sequence : List RunEvent → ℕ
last_sequence events = elim (last events) [ none ↦ 0 | some event ↦ event.sequence ]

-- The test of `pause_run` and of `cancel_run`.
abbrev pub is_unsafe_boundary : ReconstructedRun → Bool
is_unsafe_boundary reconstructed =
    let lifecycle = derive_lifecycle reconstructed.events reconstructed.effects in
    is_terminal lifecycle
    || is_blocked lifecycle
    || not (is_quiescent_for_checkpoint reconstructed.effects)

-- `a.or_else(|| b)`.
abbrev pub or_else : {A : Type 0} → Option A → Option A → Option A
or_else none b = b
or_else (some a) b = some a

module _ (R : RunRepository) where
  unfoldable pub create_run :
      HarnessRunId
      → RunEventId
      → Text
      → Option TaskCohortAssignment
      → ℤ
      → Action R.Store (CreateRunError R.Error) HarnessRun
  create_run run_id event_id run_root_display_name cohort now_unix_ms = do
    let run : HarnessRun = record {
      id = run_id;
      run_root_display_name = run_root_display_name;
      created_at_unix_ms = now_unix_ms;
      cohort = cohort;
    }
    on_error CreateRunError.repository (
        R.create_run run (record {
          id = event_id;
          run_id = run_id;
          sequence = 1;
          kind = RunEventKind.run_created;
          recorded_at_unix_ms = now_unix_ms;
        }))
    pure run

  unfoldable pub checkpoint_run :
      UuidCrate
      → Digest
      → CheckpointId
      → RunEventId
      → HarnessRunId
      → ExecutionPlanVersion
      → RunGraphVersion
      → ℤ
      → Action R.Store (CheckpointError R.Error) Checkpoint
  checkpoint_run u digest checkpoint_id event_id run_id plan graph now_unix_ms = do
    reconstructed ← reconstruct R CheckpointError.repository CheckpointError.run_not_found run_id
    fail_if (not (is_quiescent_for_checkpoint reconstructed.effects)) CheckpointError.not_quiescent
    fail_if (is_blocked (derive_lifecycle reconstructed.events reconstructed.effects))
        CheckpointError.run_blocked
    let checkpoint : Checkpoint = record {
      id = checkpoint_id;
      run_id = run_id;
      last_event_sequence = last_sequence reconstructed.events;
      event_chain_hash = hash_event_chain u digest reconstructed.events;
      plan_version_id = plan.id;
      graph_version_id = graph.id;
      execution_policy_revision = plan.execution_policy_revision;
      expected_postimage_hash = plan.replacement.postimage_hash;
      created_at_unix_ms = now_unix_ms;
    }
    on_error CheckpointError.repository (
        R.persist_quiescent_checkpoint (record {
          checkpoint = checkpoint;
          event =
              next_event event_id run_id reconstructed (RunEventKind.checkpointed checkpoint_id)
                now_unix_ms;
        }))
    pure checkpoint

  unfoldable pub validate_native_structural :
      ValidationResultId
      → RunEventId
      → HarnessRunId
      → ExecutionPlanVersion
      → RunGraphVersion
      → Text
      → Text
      → ℤ
      → Action R.Store (ValidationUseCaseError R.Error) ValidationResult
  validate_native_structural validation_id event_id run_id plan graph observed_postimage_hash
        native_diff_hash now_unix_ms =
      do
        reconstructed ←
            reconstruct R ValidationUseCaseError.repository ValidationUseCaseError.run_not_found
              run_id
        let validation =
            native_structural validation_id run_id plan.id graph.id plan.replacement.postimage_hash
              observed_postimage_hash native_diff_hash now_unix_ms
        on_error ValidationUseCaseError.repository (
            R.persist_validation validation (
              next_event event_id run_id reconstructed (RunEventKind.validated validation.id)
                now_unix_ms))
        pure validation

  unfoldable pub complete_run :
      Digest
      → RunEventId
      → HarnessRunId
      → ExecutionPlanVersion
      → RunGraphVersion
      → ComparisonInstrumentation
      → Option TaskCohortAssignment
      → ℤ
      → Action R.Store (CompleteError R.Error) FinalWorkResult
  complete_run digest event_id run_id plan graph instrumentation cohort now_unix_ms = do
    reconstructed ← reconstruct R CompleteError.repository CompleteError.run_not_found run_id
    let result =
        new_final_result run_id plan.id graph.id instrumentation
          (derive digest graph plan.execution_policy_revision)
          (or_else cohort reconstructed.run.cohort) now_unix_ms
    on_error CompleteError.repository (
        R.persist_final_result result
          (next_event event_id run_id reconstructed RunEventKind.completed now_unix_ms))
    pure result

  unfoldable pub pause_run :
      RunEventId → HarnessRunId → ℤ → Action R.Store (LifecycleUseCaseError R.Error) (Unit {0})
  pause_run event_id run_id now_unix_ms = do
    reconstructed ←
        reconstruct R LifecycleUseCaseError.repository LifecycleUseCaseError.run_not_found run_id
    fail_if (is_unsafe_boundary reconstructed) LifecycleUseCaseError.unsafe_boundary
    on_error LifecycleUseCaseError.repository
        (R.append_event (next_event event_id run_id reconstructed RunEventKind.paused now_unix_ms))

  unfoldable pub cancel_run :
      RunEventId → HarnessRunId → ℤ → Action R.Store (LifecycleUseCaseError R.Error) (Unit {0})
  cancel_run event_id run_id now_unix_ms = do
    reconstructed ←
        reconstruct R LifecycleUseCaseError.repository LifecycleUseCaseError.run_not_found run_id
    fail_if (is_unsafe_boundary reconstructed) LifecycleUseCaseError.unsafe_boundary
    on_error LifecycleUseCaseError.repository (
        R.append_event
          (next_event event_id run_id reconstructed RunEventKind.cancelled now_unix_ms))

abbrev pub is_expired_grant : CapabilityGrant → ℤ → Bool
is_expired_grant grant now_unix_ms = is_revoked grant || leb_ℤ grant.expires_at_unix_ms now_unix_ms

-- The filter over the grants.
unfoldable pub expired_ids : List CapabilityGrant → ℤ → List CapabilityGrantId
expired_ids [] now_unix_ms = []
expired_ids (grant ∷ grants) now_unix_ms =
    let rest = expired_ids grants now_unix_ms in
    if is_expired_grant grant now_unix_ms then grant.id ∷ rest else rest

abbrev is_committed : Option EffectCertainty → Bool
is_committed none = false
is_committed (some confirmed_committed) = true
is_committed (some confirmed_no_effect) = false
is_committed (some unknown_or_partial) = false

abbrev pub is_committed_replacement : EffectRecord → Bool
is_committed_replacement effect =
    (effect.operation_id == op_create_or_replace_v1) && is_committed effect.certainty

-- The `find_map` over the effects.
unfoldable pub committed_replacement : List EffectRecord → Option EffectRecordId
committed_replacement [] = none
committed_replacement (effect ∷ effects) =
    if is_committed_replacement effect then some effect.id else committed_replacement effects

unfoldable pub resume_run : ReconstructedRun → ResumeRevalidation → ℤ → ResumeDecision
resume_run reconstructed revalidation now_unix_ms =
    evaluate_resume revalidation (expired_ids reconstructed.grants now_unix_ms)
      (committed_replacement reconstructed.effects)
