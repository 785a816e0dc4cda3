-- ===== src/UseCases/Soundness.antt =====
-- The use cases of the effect journal on sound runs in memory: crates/tule-core/src/run_use_cases.rs.
use tule.Base.{Option, find, ok_or, map_err, Result, ◌==◌, nat_eq, Text, ℤ}
use tule.Base.Actions.{◌>>◌, pure, lift, on_error}
use tule.Base.Keeping.{
  Keeps, ok_or-OkIs, result-Any, Keeps-bind, Keeps-then, Keeps-pure, Keeps-fail_if, Keeps-lift,
  Keeps-on_error,
}
use tule.Ids.{
  HarnessRunId, RunEventId, NodeAttemptId, ExecutionPlanVersionId, RunGraphVersionId,
  CapabilityGrantId, EffectRecordId,
}
use tule.Event.{RunEventKind}
use tule.Capability.Kinds.{registered_operation_schema_v1}
use tule.Effect.{EffectRecord, EffectError, prepare, mark_dispatched, settle, reconcile}
use tule.Effect.OperationResult.{EffectOperationResult}
use tule.Effect.Certainty.{EffectCertainty, ReconciliationProbe, reconcile_replacement_certainty}
use tule.Effect.Journal
use tule.Effect.Journal.{IsConsistent, prepare-IsConsistent}
use tule.Lifecycle.{derive_lifecycle}
use tule.Repository.{ReconstructedRun}
use tule.Store.{MemoryRunRepositoryError}
use tule.MemoryRepository
use tule.MemoryRepository.{memory}
use tule.MemoryRepository.Soundness.{IsSound, AllSound, find-SomeIs}
use tule.MemoryRepository.Operations.{
  persist_prepared_effect-Keeps, persist_effect_dispatched-Keeps, persist_effect_settled-Keeps,
}
use tule.MemoryRepository.Guarded.{
  reconstruct_run-Keeps, claim_effect-Keeps, consume_dispatch_budget-Keeps,
}
use tule.UseCases.Errors.{EffectUseCaseError}
use tule.UseCases.Reading.{reconstruct, next_event}
use tule.UseCases.Effects
use tule.UseCases.Effects.{is_blocked, find_effect}

pub reconstruct-Keeps :
    {E : Type 0} (f : MemoryRunRepositoryError → E) (e : E) (run_id : HarnessRunId)
    → Keeps AllSound IsSound (reconstruct memory f e run_id)
reconstruct-Keeps f e run_id =
    Keeps-bind (Keeps-on_error f (reconstruct_run-Keeps run_id))
      (λ found v. Keeps-lift (ok_or found e) (ok_or-OkIs IsSound found e v))

pub prepare_effect-Keeps :
    (effect_id : EffectRecordId) (event_id : RunEventId) (run_id : HarnessRunId)
    (attempt : Option NodeAttemptId) (plan : Option ExecutionPlanVersionId)
    (graph : Option RunGraphVersionId) (operation target : Text) (grant : CapabilityGrantId)
    (now : ℤ) (preimage postimage : Option Text)
    → Keeps AllSound IsConsistent (
        Effects.prepare_effect memory effect_id event_id run_id attempt plan graph operation target
          grant now preimage postimage)
unfolding Effects.prepare_effect
prepare_effect-Keeps effect_id event_id run_id attempt plan graph operation target grant now
      preimage postimage =
    let effect =
      prepare effect_id run_id attempt plan graph operation registered_operation_schema_v1 target
        grant now preimage postimage in
    let v =
      prepare-IsConsistent effect_id run_id attempt plan graph operation
        registered_operation_schema_v1 target grant now preimage postimage in
    Keeps-bind
      (reconstruct-Keeps EffectUseCaseError.repository EffectUseCaseError.run_not_found run_id)
      (λ s i.
        Keeps-then
          (Keeps-fail_if (is_blocked (derive_lifecycle s.events s.effects))
            EffectUseCaseError.run_blocked)
          (Keeps-then
            (Keeps-on_error EffectUseCaseError.repository (
              persist_prepared_effect-Keeps effect
                (next_event event_id run_id s (RunEventKind.effect_prepared effect.id) now) v))
            (Keeps-pure effect v)))

pub claim_use_case-Keeps :
    (event_id : RunEventId) (run_id : HarnessRunId) (effect_id : EffectRecordId) (claimant : Text)
    (now : ℤ)
    → Keeps AllSound IsConsistent
        (Effects.claim_effect memory event_id run_id effect_id claimant now)
unfolding Effects.claim_effect
claim_use_case-Keeps event_id run_id effect_id claimant now =
    Keeps-bind
      (reconstruct-Keeps EffectUseCaseError.repository EffectUseCaseError.run_not_found run_id)
      (λ s i. Keeps-on_error EffectUseCaseError.repository (
        claim_effect-Keeps (record {
          run_id = run_id;
          effect_id = effect_id;
          claimant = claimant;
          now_unix_ms = now;
          event = next_event event_id run_id s (RunEventKind.effect_claimed effect_id claimant) now;
        })))

find_effect-Keeps :
    (effect_id : EffectRecordId) (s : ReconstructedRun)
    → IsSound s
    → Keeps AllSound IsConsistent (find_effect memory effect_id s)
find_effect-Keeps effect_id s i =
    Keeps-lift (ok_or (find (λ e. e.id == effect_id) s.effects) EffectUseCaseError.effect_not_found)
      (ok_or-OkIs IsConsistent (find (λ e. e.id == effect_id) s.effects)
        EffectUseCaseError.effect_not_found
        (find-SomeIs IsConsistent (λ e. e.id == effect_id) s.effects i.consistent))

-- What the three calls on a record that is found have in common.
module _ (event_id : RunEventId) (run_id : HarnessRunId) (now : ℤ) where
  settled-Keeps :
      (s : ReconstructedRun) (effect_id : EffectRecordId) (certainty : EffectCertainty)
      (after : EffectRecord × Result EffectError (Unit {0}))
      → IsConsistent after.0
      → Keeps AllSound IsConsistent (
          lift (map_err EffectUseCaseError.effect after.1)
          >> (on_error EffectUseCaseError.repository (
                MemoryRepository.persist_effect_settled after.0 (
                  next_event event_id run_id s
                    (RunEventKind.effect_settled effect_id certainty)
                    now))
              >> pure after.0))
  settled-Keeps s effect_id certainty after v =
      Keeps-then
        (Keeps-lift (map_err EffectUseCaseError.effect after.1)
          (result-Any (map_err EffectUseCaseError.effect after.1)))
        (Keeps-then
          (Keeps-on_error EffectUseCaseError.repository (
            persist_effect_settled-Keeps after.0
              (next_event event_id run_id s (RunEventKind.effect_settled effect_id certainty) now)
              v))
          (Keeps-pure after.0 v))

  pub settle_effect-Keeps :
      (effect_id : EffectRecordId) (claimant : Text) (result : EffectOperationResult)
      (certainty : EffectCertainty)
      → Keeps AllSound IsConsistent
          (Effects.settle_effect memory event_id run_id effect_id claimant result certainty now)
  unfolding Effects.settle_effect Journal.call
  settle_effect-Keeps effect_id claimant result certainty =
      Keeps-bind
        (reconstruct-Keeps EffectUseCaseError.repository EffectUseCaseError.run_not_found run_id)
        (λ s i. Keeps-bind (find_effect-Keeps effect_id s i) (λ effect v.
          settled-Keeps s effect_id certainty (settle effect claimant result certainty now)
            (Journal.call-IsConsistent effect (Journal.settles claimant result certainty now) v)))

  pub reconcile_effect-Keeps :
      (effect_id : EffectRecordId) (probe : ReconciliationProbe)
      → Keeps AllSound IsConsistent
          (Effects.reconcile_effect memory event_id run_id effect_id probe now)
  unfolding Effects.reconcile_effect Journal.call
  reconcile_effect-Keeps effect_id probe =
      Keeps-bind
        (reconstruct-Keeps EffectUseCaseError.repository EffectUseCaseError.run_not_found run_id)
        (λ s i. Keeps-bind (find_effect-Keeps effect_id s i) (λ effect v.
          settled-Keeps s effect_id (reconcile_replacement_certainty probe)
            (reconcile effect probe now)
            (Journal.call-IsConsistent effect (Journal.reconciles probe now) v)))

  pub dispatch_effect-Keeps :
      (effect_id : EffectRecordId) (grant_id : CapabilityGrantId) (claimant : Text)
      → Keeps AllSound IsConsistent
          (Effects.dispatch_effect memory event_id run_id effect_id grant_id claimant now)
  unfolding Effects.dispatch_effect Journal.call
  dispatch_effect-Keeps effect_id grant_id claimant =
      Keeps-bind
        (Keeps-on_error EffectUseCaseError.repository (
          consume_dispatch_budget-Keeps
            (record { run_id = run_id; grant_id = grant_id; now_unix_ms = now })))
        (λ _ _.
          Keeps-bind
            (reconstruct-Keeps EffectUseCaseError.repository EffectUseCaseError.run_not_found
              run_id)
            (λ s i. Keeps-bind (find_effect-Keeps effect_id s i) (λ effect v.
              let after = mark_dispatched effect claimant now in
              let v' = Journal.call-IsConsistent effect (Journal.dispatches claimant now) v in
              Keeps-then
                (Keeps-lift (map_err EffectUseCaseError.effect after.1)
                  (result-Any (map_err EffectUseCaseError.effect after.1)))
                (Keeps-then
                  (Keeps-on_error EffectUseCaseError.repository (
                    persist_effect_dispatched-Keeps after.0
                      (next_event event_id run_id s (RunEventKind.effect_dispatched effect_id) now)
                      v'))
                  (Keeps-pure after.0 v')))))
