-- ===== src/UseCases/Leases.antt =====
-- The exclusive lease on the root of a run: crates/tule-core/src/run_use_cases.rs,
-- `acquire_root_lease`, `release_root_lease` and `takeover_root_lease`.
use tule.Base.{
  Bool, not, ◌||◌, Option, none, some, List, Result, ok, err, Text, ℤ, any, map_err, if◌then◌else◌,
}
use tule.Base.Actions.{Action, ◌>>=◌, ◌>>◌, pure, fail_if, lift, on_error}
use tule.Ids.{HarnessRunId, RunEventId, RootLeaseId}
use tule.Event.{RunEventKind}
use tule.Effect.{EffectRecord}
use tule.Lease.{RootLease, LeaseError, is_held, prior_owner_alive, acquire, authorize_takeover}
use tule.Lifecycle.{is_in_flight, is_unknown_effect}
use tule.Repository.{RunRepository}
use tule.UseCases.Errors.{LeaseUseCaseError}
use tule.UseCases.Reading.{reconstruct, next_event}

-- An effect that is in flight or not known to be settled.
abbrev pub is_unsettled : EffectRecord → Bool
is_unsettled effect = is_in_flight effect.phase || is_unknown_effect effect

-- The test of `takeover_root_lease` on the lease that it finds.
unfoldable pub check_takeover :
    Option RootLease → Bool → List EffectRecord → Result LeaseError (Unit {0})
check_takeover (some existing) prior_owner_confirmed_gone effects =
    authorize_takeover existing prior_owner_confirmed_gone (not (any is_unsettled effects))
check_takeover none prior_owner_confirmed_gone effects =
    if not prior_owner_confirmed_gone then err prior_owner_alive else ok tt

module _ (R : RunRepository) where
  unfoldable pub acquire_root_lease :
      RootLeaseId
      → RunEventId
      → HarnessRunId
      → Text
      → ℤ
      → Action R.Store (LeaseUseCaseError R.Error) RootLease
  acquire_root_lease lease_id event_id run_id owner_process_instance now_unix_ms = do
    reconstructed ←
        reconstruct R LeaseUseCaseError.repository LeaseUseCaseError.run_not_found run_id
    fail_if (is_held reconstructed.lease now_unix_ms) LeaseUseCaseError.lease_held
    let lease = acquire lease_id run_id owner_process_instance now_unix_ms
    on_error LeaseUseCaseError.repository (
        R.acquire_lease (record {
          lease = lease;
          event =
              next_event event_id run_id reconstructed (RunEventKind.lease_acquired lease.id)
                now_unix_ms;
        }))
    pure lease

  unfoldable pub release_root_lease :
      RunEventId
      → HarnessRunId
      → RootLeaseId
      → ℤ
      → Action R.Store (LeaseUseCaseError R.Error) (Unit {0})
  release_root_lease event_id run_id lease_id now_unix_ms = do
    reconstructed ←
        reconstruct R LeaseUseCaseError.repository LeaseUseCaseError.run_not_found run_id
    on_error LeaseUseCaseError.repository (
        R.release_lease (record {
          run_id = run_id;
          lease_id = lease_id;
          event =
              next_event event_id run_id reconstructed (RunEventKind.lease_released lease_id)
                now_unix_ms;
        }))

  unfoldable pub takeover_root_lease :
      RootLeaseId
      → RunEventId
      → HarnessRunId
      → Text
      → Bool
      → ℤ
      → Action R.Store (LeaseUseCaseError R.Error) RootLease
  takeover_root_lease lease_id event_id run_id owner_process_instance prior_owner_confirmed_gone
        now_unix_ms =
      do
        reconstructed ←
            reconstruct R LeaseUseCaseError.repository LeaseUseCaseError.run_not_found run_id
        lift (
            map_err LeaseUseCaseError.lease
              (check_takeover reconstructed.lease prior_owner_confirmed_gone reconstructed.effects))
        let lease = acquire lease_id run_id owner_process_instance now_unix_ms
        on_error LeaseUseCaseError.repository (
            R.takeover_lease (record {
              lease = lease;
              event =
                  next_event event_id run_id reconstructed (RunEventKind.lease_takeover lease.id)
                    now_unix_ms;
            }))
        pure lease
