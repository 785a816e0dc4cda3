-- ===== src/UseCases/SoundProgress.antt =====
-- The use cases from the creation to the end of a run, and those of its lease, on sound runs in memory:
-- crates/tule-core/src/run_use_cases.rs.
use tule.Base.{refl, Bool, not, Option, map_err, nat_eq, Text, ℤ}
use tule.Base.Keeping.{
  Keeps, Any, result-Any, Keeps-bind, Keeps-then, Keeps-pure, Keeps-fail_if, Keeps-lift,
  Keeps-on_error,
}
use tule.Ids.{HarnessRunId, RunEventId, RootLeaseId, CheckpointId, ValidationResultId, UuidCrate}
use tule.Event.{RunEvent, RunEventKind}
use tule.Lifecycle.{derive_lifecycle}
use tule.Store.{MemoryRunRepositoryError}
use tule.MemoryRepository.{memory}
use tule.MemoryRepository.Soundness.{AllSound}
use tule.UseCases.Reading.{next_event}
use tule.UseCases.Effects.{is_blocked}
use tule.Canonical.{Digest, hash_event_chain}
use tule.Graph.{RunGraphVersion, derive}
use tule.Plan.{ExecutionPlanVersion}
use tule.Records.{
  TaskCohortAssignment, ComparisonInstrumentation, Checkpoint, native_structural, new_final_result,
  HarnessRun,
}
use tule.Lease.{acquire, is_held}
use tule.Lifecycle.{is_quiescent_for_checkpoint}
use tule.MemoryRepository.Operations.{
  append_event-Keeps, persist_validation-Keeps, persist_final_result-Keeps, release_lease-Keeps,
  takeover_lease-Keeps,
}
use tule.MemoryRepository.Guarded.{
  create_run-Keeps, persist_quiescent_checkpoint-Keeps, acquire_lease-Keeps,
}
use tule.UseCases.Errors.{
  CheckpointError, ValidationUseCaseError, CompleteError, LifecycleUseCaseError, CreateRunError,
  LeaseUseCaseError,
}
use tule.UseCases.Soundness.{reconstruct-Keeps}
use tule.UseCases.Progress
use tule.UseCases.Progress.{is_unsafe_boundary, last_sequence, or_else}
use tule.UseCases.Leases
use tule.UseCases.Leases.{check_takeover}

pub create_run_use_case-Keeps :
    (run_id : HarnessRunId) (event_id : RunEventId) (name : Text)
    (cohort : Option TaskCohortAssignment) (now : ℤ)
    → Keeps AllSound Any (Progress.create_run memory run_id event_id name cohort now)
unfolding Progress.create_run
create_run_use_case-Keeps run_id event_id name cohort now =
    let run : HarnessRun = record {
      id = run_id;
      run_root_display_name = name;
      created_at_unix_ms = now;
      cohort = cohort;
    } in
    let event : RunEvent = record {
      id = event_id;
      run_id = run_id;
      sequence = 1;
      kind = RunEventKind.run_created;
      recorded_at_unix_ms = now;
    } in
    Keeps-then (Keeps-on_error CreateRunError.repository (create_run-Keeps run event refl))
      (Keeps-pure run tt)

pub checkpoint_run-Keeps :
    (u : UuidCrate) (digest : Digest) (checkpoint_id : CheckpointId) (event_id : RunEventId)
    (run_id : HarnessRunId) (plan : ExecutionPlanVersion) (graph : RunGraphVersion) (now : ℤ)
    → Keeps AllSound Any
        (Progress.checkpoint_run memory u digest checkpoint_id event_id run_id plan graph now)
unfolding Progress.checkpoint_run
checkpoint_run-Keeps u digest checkpoint_id event_id run_id plan graph now =
    Keeps-bind (reconstruct-Keeps CheckpointError.repository CheckpointError.run_not_found run_id)
      (λ s i.
        let checkpoint : Checkpoint = record {
          id = checkpoint_id;
          run_id = run_id;
          last_event_sequence = last_sequence s.events;
          event_chain_hash = hash_event_chain u digest s.events;
          plan_version_id = plan.id;
          graph_version_id = graph.id;
          execution_policy_revision = plan.execution_policy_revision;
          expected_postimage_hash = plan.replacement.postimage_hash;
          created_at_unix_ms = now;
        } in
        Keeps-then
          (Keeps-fail_if (not (is_quiescent_for_checkpoint s.effects))
            CheckpointError.not_quiescent)
          (Keeps-then
            (Keeps-fail_if (is_blocked (derive_lifecycle s.events s.effects))
              CheckpointError.run_blocked)
            (Keeps-then
              (Keeps-on_error CheckpointError.repository (
                persist_quiescent_checkpoint-Keeps (record {
                  checkpoint = checkpoint;
                  event =
                      next_event event_id run_id s (RunEventKind.checkpointed checkpoint_id) now;
                })))
              (Keeps-pure checkpoint tt))))

pub validate_native_structural-Keeps :
    (validation_id : ValidationResultId) (event_id : RunEventId) (run_id : HarnessRunId)
    (plan : ExecutionPlanVersion) (graph : RunGraphVersion) (observed diff : Text) (now : ℤ)
    → Keeps AllSound Any (
        Progress.validate_native_structural memory validation_id event_id run_id plan graph observed
          diff now)
unfolding Progress.validate_native_structural
validate_native_structural-Keeps validation_id event_id run_id plan graph observed diff now =
    let validation =
      native_structural validation_id run_id plan.id graph.id plan.replacement.postimage_hash
        observed diff now in
    Keeps-bind
      (reconstruct-Keeps ValidationUseCaseError.repository ValidationUseCaseError.run_not_found
        run_id)
      (λ s i.
        Keeps-then
          (Keeps-on_error ValidationUseCaseError.repository (
            persist_validation-Keeps validation
              (next_event event_id run_id s (RunEventKind.validated validation.id) now)))
          (Keeps-pure validation tt))

pub complete_run-Keeps :
    (digest : Digest) (event_id : RunEventId) (run_id : HarnessRunId) (plan : ExecutionPlanVersion)
    (graph : RunGraphVersion) (instrumentation : ComparisonInstrumentation)
    (cohort : Option TaskCohortAssignment) (now : ℤ)
    → Keeps AllSound Any
        (Progress.complete_run memory digest event_id run_id plan graph instrumentation cohort now)
unfolding Progress.complete_run
complete_run-Keeps digest event_id run_id plan graph instrumentation cohort now =
    Keeps-bind (reconstruct-Keeps CompleteError.repository CompleteError.run_not_found run_id)
      (λ s i.
        let result =
          new_final_result run_id plan.id graph.id instrumentation
            (derive digest graph plan.execution_policy_revision) (or_else cohort s.run.cohort)
            now in
        Keeps-then
          (Keeps-on_error CompleteError.repository (
            persist_final_result-Keeps result
              (next_event event_id run_id s RunEventKind.completed now)))
          (Keeps-pure result tt))

pub pause_run-Keeps :
    (event_id : RunEventId) (run_id : HarnessRunId) (now : ℤ)
    → Keeps AllSound Any (Progress.pause_run memory event_id run_id now)
unfolding Progress.pause_run
pause_run-Keeps event_id run_id now =
    Keeps-bind
      (reconstruct-Keeps LifecycleUseCaseError.repository LifecycleUseCaseError.run_not_found
        run_id)
      (λ s i.
        Keeps-then (Keeps-fail_if (is_unsafe_boundary s) LifecycleUseCaseError.unsafe_boundary) (
          Keeps-on_error LifecycleUseCaseError.repository
            (append_event-Keeps (next_event event_id run_id s RunEventKind.paused now))))

pub cancel_run-Keeps :
    (event_id : RunEventId) (run_id : HarnessRunId) (now : ℤ)
    → Keeps AllSound Any (Progress.cancel_run memory event_id run_id now)
unfolding Progress.cancel_run
cancel_run-Keeps event_id run_id now =
    Keeps-bind
      (reconstruct-Keeps LifecycleUseCaseError.repository LifecycleUseCaseError.run_not_found
        run_id)
      (λ s i.
        Keeps-then (Keeps-fail_if (is_unsafe_boundary s) LifecycleUseCaseError.unsafe_boundary) (
          Keeps-on_error LifecycleUseCaseError.repository
            (append_event-Keeps (next_event event_id run_id s RunEventKind.cancelled now))))

pub acquire_root_lease-Keeps :
    (lease_id : RootLeaseId) (event_id : RunEventId) (run_id : HarnessRunId) (owner : Text)
    (now : ℤ)
    → Keeps AllSound Any (Leases.acquire_root_lease memory lease_id event_id run_id owner now)
unfolding Leases.acquire_root_lease
acquire_root_lease-Keeps lease_id event_id run_id owner now =
    let lease = acquire lease_id run_id owner now in
    Keeps-bind
      (reconstruct-Keeps LeaseUseCaseError.repository LeaseUseCaseError.run_not_found run_id)
      (λ s i. Keeps-then (Keeps-fail_if (is_held s.lease now) LeaseUseCaseError.lease_held) (
        Keeps-then
          (Keeps-on_error LeaseUseCaseError.repository (
            acquire_lease-Keeps (record {
              lease = lease;
              event = next_event event_id run_id s (RunEventKind.lease_acquired lease.id) now;
            })))
          (Keeps-pure lease tt)))

pub release_root_lease-Keeps :
    (event_id : RunEventId) (run_id : HarnessRunId) (lease_id : RootLeaseId) (now : ℤ)
    → Keeps AllSound Any (Leases.release_root_lease memory event_id run_id lease_id now)
unfolding Leases.release_root_lease
release_root_lease-Keeps event_id run_id lease_id now =
    Keeps-bind
      (reconstruct-Keeps LeaseUseCaseError.repository LeaseUseCaseError.run_not_found run_id)
      (λ s i. Keeps-on_error LeaseUseCaseError.repository (
        release_lease-Keeps (record {
          run_id = run_id;
          lease_id = lease_id;
          event = next_event event_id run_id s (RunEventKind.lease_released lease_id) now;
        })))

pub takeover_root_lease-Keeps :
    (lease_id : RootLeaseId) (event_id : RunEventId) (run_id : HarnessRunId) (owner : Text)
    (gone : Bool) (now : ℤ)
    → Keeps AllSound Any (Leases.takeover_root_lease memory lease_id event_id run_id owner gone now)
unfolding Leases.takeover_root_lease
takeover_root_lease-Keeps lease_id event_id run_id owner gone now =
    let lease = acquire lease_id run_id owner now in
    Keeps-bind
      (reconstruct-Keeps LeaseUseCaseError.repository LeaseUseCaseError.run_not_found run_id)
      (λ s i.
        let checked =
          map_err {F = LeaseUseCaseError MemoryRunRepositoryError} LeaseUseCaseError.lease
            (check_takeover s.lease gone s.effects) in
        Keeps-then (Keeps-lift checked (result-Any checked)) (
          Keeps-then
            (Keeps-on_error LeaseUseCaseError.repository (
              takeover_lease-Keeps (record {
                lease = lease;
                event = next_event event_id run_id s (RunEventKind.lease_takeover lease.id) now;
              })))
            (Keeps-pure lease tt)))
