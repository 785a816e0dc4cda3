-- ===== src/Records.antt =====
-- The remaining records of a run: crates/tule-core/src/run.rs, `TaskCohortAssignment`,
-- `ComparisonInstrumentation`, `Checkpoint`, `ValidationResult`, `FinalWorkResult`, `DenialEvidence` and
-- `HarnessRun`. An identifier that the code generates is an argument.
use tule.Base.{ℕ, Bool, true, Option, Text, bytes, ◌==◌, text_eq, ℤ}
use tule.Ids.{
  HarnessRunId, ExecutionPlanVersionId, RunGraphVersionId, CheckpointId, ValidationResultId,
  DenialEvidenceId, CapabilityGrantId,
}
use tule.Capability.{GrantResourceSelector}
use tule.Graph.{GraphShapeFingerprint}

abbrev pub native_structural_validation_label : Text
native_structural_validation_label = bytes "native structural validation"

pub record TaskCohortAssignment : Type 0 where
  pub taxonomy_version : Text
  pub cohort_id : Text
  pub assigning_authority : Text
  pub rationale : Text
  pub assigned_at_unix_ms : ℤ

pub record ComparisonInstrumentation : Type 0 where
  pub time_to_first_provider_output_ms : Option ℕ
  pub total_time_to_structural_result_ms : Option ℕ
  pub provider_input_tokens : Option ℕ
  pub provider_output_tokens : Option ℕ
  pub provider_cached_tokens : Option ℕ
  pub context_bytes_resent : Option ℕ
  pub model_turns : Option ℕ
  pub registered_operation_calls : Option ℕ
  pub validation_time_ms : Option ℕ
  pub retries : Option ℕ
  pub task_success : Option Bool

pub record Checkpoint : Type 0 where
  pub id : CheckpointId
  pub run_id : HarnessRunId
  pub last_event_sequence : ℕ
  pub event_chain_hash : Text
  pub plan_version_id : ExecutionPlanVersionId
  pub graph_version_id : RunGraphVersionId
  pub execution_policy_revision : Text
  pub expected_postimage_hash : Text
  pub created_at_unix_ms : ℤ

pub record ValidationResult : Type 0 where
  pub id : ValidationResultId
  pub run_id : HarnessRunId
  pub plan_version_id : ExecutionPlanVersionId
  pub graph_version_id : RunGraphVersionId
  pub label : Text
  pub approved_postimage_hash : Text
  pub observed_postimage_hash : Text
  pub native_diff_hash : Text
  pub passed : Bool
  pub validated_at_unix_ms : ℤ

unfoldable pub native_structural :
    ValidationResultId
    → HarnessRunId
    → ExecutionPlanVersionId
    → RunGraphVersionId
    → Text
    → Text
    → Text
    → ℤ
    → ValidationResult
native_structural id run_id plan_id graph_id approved observed native_diff validated_at = record {
  id = id;
  run_id = run_id;
  plan_version_id = plan_id;
  graph_version_id = graph_id;
  label = native_structural_validation_label;
  approved_postimage_hash = approved;
  observed_postimage_hash = observed;
  native_diff_hash = native_diff;
  passed = approved == observed;
  validated_at_unix_ms = validated_at;
}

pub record FinalWorkResult : Type 0 where
  pub run_id : HarnessRunId
  pub plan_version_id : ExecutionPlanVersionId
  pub graph_version_id : RunGraphVersionId
  pub validation_label : Text
  pub publication_stopped : Bool
  pub instrumentation : ComparisonInstrumentation
  pub fingerprint : GraphShapeFingerprint
  pub cohort : Option TaskCohortAssignment
  pub completed_at_unix_ms : ℤ

-- `FinalWorkResult::new`.
unfoldable pub new_final_result :
    HarnessRunId
    → ExecutionPlanVersionId
    → RunGraphVersionId
    → ComparisonInstrumentation
    → GraphShapeFingerprint
    → Option TaskCohortAssignment
    → ℤ
    → FinalWorkResult
new_final_result run_id plan_id graph_id instrumentation fingerprint cohort completed_at = record {
  run_id = run_id;
  plan_version_id = plan_id;
  graph_version_id = graph_id;
  validation_label = native_structural_validation_label;
  publication_stopped = true;
  instrumentation = instrumentation;
  fingerprint = fingerprint;
  cohort = cohort;
  completed_at_unix_ms = completed_at;
}

pub record DenialEvidence : Type 0 where
  pub id : DenialEvidenceId
  pub run_id : HarnessRunId
  pub reason : Text
  pub grant_id : Option CapabilityGrantId
  pub resource : Option GrantResourceSelector
  pub recorded_at_unix_ms : ℤ

pub record HarnessRun : Type 0 where
  pub id : HarnessRunId
  pub run_root_display_name : Text
  pub created_at_unix_ms : ℤ
  pub cohort : Option TaskCohortAssignment
