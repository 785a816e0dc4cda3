-- ===== src/UseCases/Boundaries.antt =====
-- Preparing an effect, and pausing and cancelling a run in memory: crates/tule-core/src/run_use_cases.rs,
-- `prepare_effect`, `pause_run` and `cancel_run`.
use tule.Base.{
  ◌≡◌, refl, ◌∙◌, true, false, Option, some, [], ◌∷◌, ◌++◌, any, All, ok, err, Text, arith, nat_eq,
  ℤ, if◌then◌else◌, ap,
}
use mathlib.Core.Option
use tule.Ids.{
  HarnessRunId, RunEventId, NodeAttemptId, ExecutionPlanVersionId, RunGraphVersionId,
  CapabilityGrantId, EffectRecordId,
}
use tule.Event.{RunEvent, RunEventKind}
use tule.Repository.{ReconstructedRun}
use tule.Store.{MemoryRunRepository, get}
use tule.MemoryRepository
use tule.MemoryRepository.{memory}
use tule.MemoryRepository.Locked.{get-insert}
use tule.UseCases.Reading.{next_event}
use tule.UseCases.InMemory.{with_event, put, reconstruct_run_found, accepted, append_event_accepted}
use tule.Capability.Kinds.{registered_operation_schema_v1}
use tule.Effect.{prepare}
use tule.Effect.Journal.{IsConsistent}
use tule.Lifecycle.{
  HarnessRunLifecycle, cancelled, paused, created, derive_lifecycle, fold_events, next_lifecycle,
}
use tule.Lifecycle.Blocking.{is_open, derive_lifecycle_lem}
use tule.Lifecycle.Folding.{fold_events-append}
use tule.UseCases.Errors.{EffectUseCaseError, LifecycleUseCaseError}
use tule.UseCases.Effects
use tule.UseCases.Effects.{is_blocked}
use tule.UseCases.Progress
use tule.UseCases.Progress.{is_unsafe_boundary}

module _ (r : MemoryRunRepository) (run_id : HarnessRunId) (s : ReconstructedRun)
    (unpoisoned : r.poisoned ≡ false) (found : get run_id r.inner ≡ some s) where
  -- On a run of an unpoisoned store, `prepare_effect` is refused without a change if the lifecycle is blocked;
  -- otherwise it adds the prepared effect and one event with the next number.
  pub prepare_effect_lem :
      (effect_id : EffectRecordId) (event_id : RunEventId) (attempt : Option NodeAttemptId)
      (plan : Option ExecutionPlanVersionId) (graph : Option RunGraphVersionId)
      (operation target : Text) (grant : CapabilityGrantId) (now : ℤ)
      (preimage postimage : Option Text)
      → let effect =
          prepare effect_id run_id attempt plan graph operation registered_operation_schema_v1
            target grant now preimage postimage in
        let event = next_event event_id run_id s (RunEventKind.effect_prepared effect_id) now in
        Effects.prepare_effect memory effect_id event_id run_id attempt plan graph operation target
          grant now preimage postimage r
        ≡ (if is_blocked (derive_lifecycle s.events s.effects)
            then (r, err EffectUseCaseError.run_blocked)
            else (
              put run_id
                  (record s {
                    events = s.events ++ (event ∷ []);
                    effects = s.effects ++ (effect ∷ []);
                  })
                  r,
              ok effect,
            ))
  unfolding Effects.prepare_effect MemoryRepository.persist_prepared_effect prepare
  prepare_effect_lem effect_id event_id attempt plan graph operation target grant now preimage
        postimage =
      ground (
        arith,
        reconstruct_run_found r run_id s unpoisoned found,
        accepted r run_id s unpoisoned found event_id (RunEventKind.effect_prepared effect_id) now
            (λ s. record s {
              effects =
                  s.effects
                  ++ (prepare effect_id run_id attempt plan graph operation
                        registered_operation_schema_v1 target grant now preimage postimage
                      ∷ []);
            }),
      )

  -- On a run of an unpoisoned store, `pause_run` and `cancel_run` are refused without a change at an unsafe boundary;
  -- otherwise each appends its event with the next number.
  pub pause_cancel_lem :
      (event_id : RunEventId) (now : ℤ)
      → (Progress.pause_run memory event_id run_id now r ≡ (
          if is_unsafe_boundary s then (r, err LifecycleUseCaseError.unsafe_boundary) else (
            put run_id (with_event s (next_event event_id run_id s RunEventKind.paused now)) r,
            ok tt,
          )))
        × (Progress.cancel_run memory event_id run_id now r ≡ (
            if is_unsafe_boundary s then (r, err LifecycleUseCaseError.unsafe_boundary) else (
              put run_id (with_event s (next_event event_id run_id s RunEventKind.cancelled now)) r,
              ok tt,
            )))
  unfolding Progress.pause_run Progress.cancel_run
  pause_cancel_lem event_id now = (
    ground (
      arith,
      reconstruct_run_found r run_id s unpoisoned found,
      append_event_accepted r run_id s unpoisoned found event_id RunEventKind.paused now,
    ),
    ground (
      arith,
      reconstruct_run_found r run_id s unpoisoned found,
      append_event_accepted r run_id s unpoisoned found event_id RunEventKind.cancelled now,
    ),
  )

-- At a safe boundary no effect is open.
none_open :
    (s : ReconstructedRun)
    → All IsConsistent s.effects
    → is_unsafe_boundary s ≡ false
    → any is_open s.effects ≡ false
none_open s v safe = ground (arith, derive_lifecycle_lem s.events s.effects v)

-- The lifecycle after one more event, where no effect is open.
lifecycle_after :
    (s : ReconstructedRun) (event : RunEvent)
    → All IsConsistent s.effects
    → is_unsafe_boundary s ≡ false
    → derive_lifecycle (s.events ++ (event ∷ [])) s.effects
      ≡ next_lifecycle (fold_events created s.events) event.kind
lifecycle_after s event v safe =
    rw (derive_lifecycle_lem (s.events ++ (event ∷ [])) s.effects v, none_open s v safe)
      (fold_events-append created s.events event)

-- The derived lifecycle of a run in the store.
abbrev pub lifecycle_in : HarnessRunId → MemoryRunRepository → Option HarnessRunLifecycle
lifecycle_in run_id r = Option.map (λ s. derive_lifecycle s.events s.effects) (get run_id r.inner)

-- After a cancel the boundary is unsafe.
cancel_is_unsafe :
    (s : ReconstructedRun) (event : RunEvent)
    → All IsConsistent s.effects
    → is_unsafe_boundary s ≡ false
    → event.kind ≡ RunEventKind.cancelled
    → (derive_lifecycle (with_event s event).events s.effects ≡ cancelled)
      × (is_unsafe_boundary (with_event s event) ≡ true)
unfolding next_lifecycle
cancel_is_unsafe s event v safe is_cancel =
    let after : derive_lifecycle (s.events ++ (event ∷ [])) s.effects ≡ cancelled =
      lifecycle_after s event v safe ∙ rw (is_cancel) refl in
    (after, ground arith)

module _ (r : MemoryRunRepository) (run_id : HarnessRunId) (s : ReconstructedRun)
    (unpoisoned : r.poisoned ≡ false) (found : get run_id r.inner ≡ some s)
    (fits : All IsConsistent s.effects) (safe : is_unsafe_boundary s ≡ false) where
  pause_lifecycle :
      (event_id : RunEventId) (now : ℤ)
      → let after = Progress.pause_run memory event_id run_id now r in
        (after.1 ≡ ok tt) × (lifecycle_in run_id after.0 ≡ some paused)
  unfolding next_lifecycle
  pause_lifecycle event_id now =
      let event = next_event event_id run_id s RunEventKind.paused now in
      rw
        (
          (pause_cancel_lem r run_id s unpoisoned found event_id now).0,
          safe,
          get-insert r.inner run_id (with_event s event),
        )
        (refl, ap some (lifecycle_after s event fits safe))

  cancel_lifecycle :
      (event_id : RunEventId) (now : ℤ)
      → let after = Progress.cancel_run memory event_id run_id now r in
        (after.1 ≡ ok tt) × (lifecycle_in run_id after.0 ≡ some cancelled)
  cancel_lifecycle event_id now =
      let event = next_event event_id run_id s RunEventKind.cancelled now in
      rw
        (
          (pause_cancel_lem r run_id s unpoisoned found event_id now).1,
          safe,
          get-insert r.inner run_id (with_event s event),
        )
        (refl, ap some (cancel_is_unsafe s event fits safe refl).0)

  refused_after_cancel :
      (event_id later_id : RunEventId) (now later : ℤ)
      → let r' = (Progress.cancel_run memory event_id run_id now r).0 in
        (Progress.pause_run memory later_id run_id later r'
          ≡ (r', err LifecycleUseCaseError.unsafe_boundary))
        × (Progress.cancel_run memory later_id run_id later r'
            ≡ (r', err LifecycleUseCaseError.unsafe_boundary))
  refused_after_cancel event_id later_id now later =
      let event = next_event event_id run_id s RunEventKind.cancelled now in
      let s' = with_event s event in
      let (pause_again, cancel_again) =
        pause_cancel_lem (put run_id s' r) run_id s' unpoisoned (get-insert r.inner run_id s')
          later_id later in
      let is_unsafe = (cancel_is_unsafe s event fits safe refl).1 in
      rw ((pause_cancel_lem r run_id s unpoisoned found event_id now).1, safe)
        (pause_again ∙ rw (is_unsafe) refl, cancel_again ∙ rw (is_unsafe) refl)

-- On a run of an unpoisoned store that is at a safe boundary, its effect records fitting their phases, a
-- pause succeeds and the derived lifecycle of the stored run is then paused, and a cancel succeeds and it
-- is then cancelled. In the store that the cancel leaves, a further pause or cancel of that run is refused
-- without a change.
pub pause_cancel_lifecycle :
    (r : MemoryRunRepository) (run_id : HarnessRunId) (s : ReconstructedRun)
    (event_id later_id : RunEventId) (now later : ℤ)
    → r.poisoned ≡ false
    → get run_id r.inner ≡ some s
    → All IsConsistent s.effects
    → is_unsafe_boundary s ≡ false
    → let (paused_store, pause_result) = Progress.pause_run memory event_id run_id now r in
      let (cancelled_store, cancel_result) = Progress.cancel_run memory event_id run_id now r in
      (pause_result ≡ ok tt)
      × (lifecycle_in run_id paused_store ≡ some paused)
      × (cancel_result ≡ ok tt)
      × (lifecycle_in run_id cancelled_store ≡ some cancelled)
      × (Progress.pause_run memory later_id run_id later cancelled_store
          ≡ (cancelled_store, err LifecycleUseCaseError.unsafe_boundary))
      × (Progress.cancel_run memory later_id run_id later cancelled_store
          ≡ (cancelled_store, err LifecycleUseCaseError.unsafe_boundary))
pause_cancel_lifecycle r run_id s event_id later_id now later unpoisoned found fits safe =
    let (pauses, is_paused) = pause_lifecycle r run_id s unpoisoned found fits safe event_id now in
    let (cancels, is_cancelled) =
      cancel_lifecycle r run_id s unpoisoned found fits safe event_id now in
    let (no_pause, no_cancel) =
      refused_after_cancel r run_id s unpoisoned found fits safe event_id later_id now later in
    (pauses, is_paused, cancels, is_cancelled, no_pause, no_cancel)
