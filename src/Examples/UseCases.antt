-- ===== src/Examples/UseCases.antt =====
-- The use cases on the repository in memory at concrete inputs.
use tule.Base.{
  ◌≡◌, ◌↔◌, refl, none, some, [], ◌∷◌, ok, err, pos, true, false, All, arith, ℕ_discrete,
  Text-discrete,
}
use tule.Event.{RunEventKind}
use tule.Capability.Kinds.{op_create_or_replace_v1}
use tule.Effect.{EffectRecord, prepare, mark_dispatched}
use tule.Effect.Phase.{dispatched}
use tule.Lease.{unsettled_effects}
use tule.Lifecycle.{
  cancelled, paused, derive_lifecycle, is_quiescent_for_checkpoint, folded_lifecycle, fold_events,
  next_lifecycle,
}
use tule.Repository.{ReconstructedRun}
use tule.Resume.{ResumeRevalidation, continue}
use tule.Store.{MemoryRunRepository, get}
use tule.MemoryRepository.{memory, put_effect}
use tule.MemoryRepository.Soundness.{AllSound}
use tule.UseCases.Errors.{
  EffectUseCaseError, LeaseUseCaseError, LifecycleUseCaseError, CheckpointError,
}
use tule.UseCases.Reading.{next_event}
use tule.UseCases.Effects
use tule.UseCases.Effects.{is_blocked}
use tule.UseCases.Leases
use tule.UseCases.Progress
use tule.UseCases.Progress.{
  resume_run, is_expired_grant, is_committed_replacement, is_unsafe_boundary,
}
use tule.UseCases.InMemory.{put, with_event}
use tule.UseCases.Boundaries.{prepare_effect_lem, lifecycle_in, pause_cancel_lifecycle}
use tule.UseCases.Dispatch.{is_refused, spend, dispatch_effect_lem}
use tule.UseCases.Exclusion.{acquire_excludes, takeover_root_lease_lem, release_root_lease_lem}
use tule.UseCases.Resuming.{resume_run_continues}
use tule.UseCases.Histories.{Reached-AllSound, start, next, creates, pauses}
use tule.UseCases.Checkpoints.{checkpoint_run_lem}
use tule.MemoryRepository.Numbering.{IsNumbered}
use tule.Examples.Approval.{plan, graph}
use tule.Examples.Data.{
  owner, other, event, created_run, store_of, run_with, grant, prepared_effect, claimed_effect,
  settled_effect, dispatched_effect, lease, uuids, digest,
}

abbrev empty_store : MemoryRunRepository
empty_store = record { poisoned = false; inner = [] }

-- A run is created and paused.
Reached-AllSound_example :
    AllSound
      (Progress.pause_run memory 21 1
        (pos 1)
        (Progress.create_run memory 1 20 owner none (pos 0) empty_store).0).0
Reached-AllSound_example =
    Reached-AllSound
      (Progress.pause_run memory 21 1 (pos 1)
        (Progress.create_run memory 1 20 owner none (pos 0) empty_store).0).0
      (next (next start (creates 1 20 owner none (pos 0))) (pauses 21 1 (pos 1)))

-- The owner dispatches its effect, and the grant is spent.
dispatch_effect_lem_example :
    Effects.dispatch_effect memory 20 1 7 5 owner (pos 3) (store_of (run_with claimed_effect)) ≡ (
      put 1
          (put_effect dispatched_effect (
            with_event (spend grant (run_with claimed_effect)) (
              next_event 20 1
                (run_with claimed_effect)
                (RunEventKind.effect_dispatched 7)
                (pos 3))))
          (put 1 (spend grant (run_with claimed_effect)) (store_of (run_with claimed_effect))),
      ok dispatched_effect,
    )
unfolding is_refused mark_dispatched get ℕ_discrete Text-discrete
    tule.Effect.Phase.EffectJournalPhase-discrete
dispatch_effect_lem_example =
    dispatch_effect_lem (store_of (run_with claimed_effect)) 1 (run_with claimed_effect) 20 7 5
      owner (pos 3) grant claimed_effect refl refl refl refl refl

pause_cancel_lifecycle_example :
    let r = store_of (run_with settled_effect) in
    let (paused_store, pause_result) = Progress.pause_run memory 20 1 (pos 5) r in
    let (cancelled_store, cancel_result) = Progress.cancel_run memory 20 1 (pos 5) r in
    (pause_result ≡ ok tt)
    × (lifecycle_in 1 paused_store ≡ some paused)
    × (cancel_result ≡ ok tt)
    × (lifecycle_in 1 cancelled_store ≡ some cancelled)
    × (Progress.pause_run memory 21 1 (pos 6) cancelled_store
        ≡ (cancelled_store, err LifecycleUseCaseError.unsafe_boundary))
    × (Progress.cancel_run memory 21 1 (pos 6) cancelled_store
        ≡ (cancelled_store, err LifecycleUseCaseError.unsafe_boundary))
unfolding get ℕ_discrete derive_lifecycle folded_lifecycle fold_events next_lifecycle
    is_quiescent_for_checkpoint
pause_cancel_lifecycle_example =
    pause_cancel_lifecycle (store_of (run_with settled_effect)) 1 (run_with settled_effect) 20 21
      (pos 5) (pos 6) refl refl (ground arith, tt) refl

-- The owner before acquires the lease, and another one asks 29.999 seconds later.
acquire_excludes_example :
    let r = (Leases.acquire_root_lease memory 9 20 1 owner (pos 0) (store_of created_run)).0 in
    Leases.acquire_root_lease memory 10 21 1 other (pos 29999) r
    ≡ (r, err LeaseUseCaseError.lease_held)
unfolding get ℕ_discrete
acquire_excludes_example =
    acquire_excludes (store_of created_run) 1 created_run 9 10 20 21 owner other (pos 0) (pos 29999)
      refl refl refl (ground arith) (ground arith) (ground arith)

-- With an effect in flight a lease is not taken over, though its owner is gone.
abbrev leased : ReconstructedRun
leased = record (run_with dispatched_effect) { lease = some lease }

takeover_root_lease_lem_example :
    Leases.takeover_root_lease memory 10 20 1 other true (pos 40000) (store_of leased)
    ≡ (store_of leased, err (LeaseUseCaseError.lease unsettled_effects))
unfolding get ℕ_discrete
takeover_root_lease_lem_example =
    takeover_root_lease_lem (store_of leased) 1 leased refl refl 10 20 other true (pos 40000)

prepare_effect_lem_example :
    Effects.prepare_effect memory 8 20 1 none none none op_create_or_replace_v1 owner 5
      (pos 5)
      none
      none
      (store_of (run_with dispatched_effect))
    ≡ (store_of (run_with dispatched_effect), err EffectUseCaseError.run_blocked)
unfolding get ℕ_discrete derive_lifecycle
prepare_effect_lem_example =
    prepare_effect_lem (store_of (run_with dispatched_effect)) 1 (run_with dispatched_effect) refl
      refl 8 20 none none none op_create_or_replace_v1 owner 5 (pos 5) none none

abbrev checks : ResumeRevalidation
checks = record {
  event_chain_matches = true;
  filesystem_matches_expected = true;
  execution_policy_matches = true;
  operation_versions_match = true;
}

resume_run_continues_example : (resume_run (run_with prepared_effect) checks (pos 5) ≡ continue) ↔ (
    (true ≡ true)
    × All (λ g. is_expired_grant g (pos 5) ≡ false) (grant ∷ [])
    × All (λ e. is_committed_replacement e ≡ false) (prepared_effect ∷ []))
resume_run_continues_example = resume_run_continues (run_with prepared_effect) checks (pos 5)

checkpoint_run_lem_example :
    Progress.checkpoint_run memory uuids digest 30 20 1 plan graph
      (pos 5)
      (store_of (run_with dispatched_effect))
    ≡ (store_of (run_with dispatched_effect), err CheckpointError.not_quiescent)
unfolding get ℕ_discrete is_quiescent_for_checkpoint IsNumbered
checkpoint_run_lem_example =
    checkpoint_run_lem (store_of (run_with dispatched_effect)) 1 (run_with dispatched_effect) refl
      refl uuids digest 30 20 plan graph (pos 5) (refl, tt)

-- The lease with the identifier 9 is released under the identifier 11.
release_root_lease_lem_example :
    Leases.release_root_lease memory 20 1 11 (pos 5) (store_of leased) ≡ (
      put 1
          (record leased {
            events =
                event 1 RunEventKind.run_created
                ∷ next_event 20 1 leased (RunEventKind.lease_released 11) (pos 5)
                ∷ [];
            lease = none;
          })
          (store_of leased),
      ok tt,
    )
unfolding get ℕ_discrete
release_root_lease_lem_example =
    release_root_lease_lem (store_of leased) 1 leased 20 11 (pos 5) refl refl
