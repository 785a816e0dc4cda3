-- ===== src/UseCases/Exclusion.antt =====
-- Who can hold the root lease of a run in memory: crates/tule-core/src/run_use_cases.rs,
-- `acquire_root_lease` and `takeover_root_lease`.
use tule.Base.{
  ◌+◌, ◌≡◌, refl, ◌∙◌, inl, inr, Bool, true, false, Bool-cases, not, ◌&&◌, ◌<◌, none, some, [], ◌∷◌,
  ◌++◌, any, ok, err, Text, arith, nat_eq, text_eq, ℤ, pos, pos_part, add_i64_exact, IsI64, ◌<ℤ◌,
  ◌+ℤ◌, if◌then◌else◌,
}
use tule.Ids.{HarnessRunId, RunEventId, RootLeaseId}
use tule.Event.{RunEvent, RunEventKind}
use tule.Repository.{ReconstructedRun}
use tule.Store.{MemoryRunRepository, get}
use tule.MemoryRepository
use tule.MemoryRepository.{memory}
use tule.MemoryRepository.Locked.{get-insert}
use tule.UseCases.Reading.{next_event}
use tule.UseCases.InMemory.{next_event_accepted, put, reconstruct_run_found, accepted}
use tule.MemoryRepository.Rollback.{with_run_found}
use tule.Lease.{
  RootLease, prior_owner_alive, unsettled_effects, is_held, acquire, root_lease_ttl_ms,
  authorize_takeover,
}
use tule.Effect.{is_some}
use tule.UseCases.Errors.{LeaseUseCaseError}
use tule.UseCases.Leases
use tule.UseCases.Leases.{is_unsettled, check_takeover}

-- The run under a new lease, with the event of it.
abbrev pub with_lease : ReconstructedRun → RootLease → RunEvent → ReconstructedRun
with_lease s lease event = record s { events = s.events ++ (event ∷ []); lease = some lease }

module _ (r : MemoryRunRepository) (run_id : HarnessRunId) (s : ReconstructedRun)
    (unpoisoned : r.poisoned ≡ false) (found : get run_id r.inner ≡ some s) where
  acquire_lease_lem :
      (event_id : RunEventId) (lease : RootLease) (now : ℤ)
      → is_held s.lease now ≡ false
      → lease.run_id ≡ run_id
      → lease.acquired_at_unix_ms ≡ now
      → let event = next_event event_id run_id s (RunEventKind.lease_acquired lease.id) now in
        MemoryRepository.acquire_lease (record { lease = lease; event = event }) r
        ≡ (put run_id (with_lease s lease event) r, ok tt)
  unfolding MemoryRepository.acquire_lease
  acquire_lease_lem event_id lease now free owner at =
      simp (owner, at)
        (with_run_found run_id _ r s unpoisoned found
          ∙ rw (free) (
              ground (
                arith,
                next_event_accepted event_id run_id s (RunEventKind.lease_acquired lease.id) now,
              )))

  -- On a run of an unpoisoned store, `acquire_root_lease` is refused without a change while a lease on it has not
  -- expired; otherwise the new lease replaces what was there, with one event of the next number.
  pub acquire_root_lease_lem :
      (lease_id : RootLeaseId) (event_id : RunEventId) (owner : Text) (now : ℤ)
      → let lease = acquire lease_id run_id owner now in
        let event = next_event event_id run_id s (RunEventKind.lease_acquired lease_id) now in
        Leases.acquire_root_lease memory lease_id event_id run_id owner now r ≡ (
          if is_held s.lease now
          then (r, err LeaseUseCaseError.lease_held)
          else (put run_id (with_lease s lease event) r, ok lease))
  unfolding Leases.acquire_root_lease acquire
  acquire_root_lease_lem lease_id event_id owner now = elim (Bool-cases (is_held s.lease now)) [
    | inl h ↦ ground (arith, reconstruct_run_found r run_id s unpoisoned found)
    | inr h ↦ ground (
      arith,
      reconstruct_run_found r run_id s unpoisoned found,
      acquire_lease_lem event_id (acquire lease_id run_id owner now) now h refl refl,
    )
  ]

  takeover_lease_accepted :
      (event_id : RunEventId) (lease : RootLease) (now : ℤ)
      → lease.run_id ≡ run_id
      → let event = next_event event_id run_id s (RunEventKind.lease_takeover lease.id) now in
        MemoryRepository.takeover_lease (record { lease = lease; event = event }) r
        ≡ (put run_id (with_lease s lease event) r, ok tt)
  unfolding MemoryRepository.takeover_lease
  takeover_lease_accepted event_id lease now owner = simp (owner) (
      accepted r run_id s unpoisoned found event_id (RunEventKind.lease_takeover lease.id) now
        (λ s. record s { lease = some lease }))

  -- On a run of an unpoisoned store, `takeover_root_lease` is refused without a change unless the owner before is
  -- confirmed gone, and, if there is a lease, unless no effect is in flight or of unknown certainty.
  -- If there is no lease, the effects are not looked at: the takeover then succeeds with effects in flight or
  -- unknown. Otherwise the new lease is written, with one event of the next number.
  pub takeover_root_lease_lem :
      (lease_id : RootLeaseId) (event_id : RunEventId) (owner : Text) (gone : Bool) (now : ℤ)
      → let lease = acquire lease_id run_id owner now in
        let event = next_event event_id run_id s (RunEventKind.lease_takeover lease_id) now in
        Leases.takeover_root_lease memory lease_id event_id run_id owner gone now r ≡ (
          if not gone
          then (r, err (LeaseUseCaseError.lease prior_owner_alive))
          else if is_some s.lease && any is_unsettled s.effects
          then (r, err (LeaseUseCaseError.lease unsettled_effects))
          else (put run_id (with_lease s lease event) r, ok lease))
  unfolding Leases.takeover_root_lease acquire check_takeover authorize_takeover
  takeover_root_lease_lem lease_id event_id owner gone now = ground (
    arith,
    reconstruct_run_found r run_id s unpoisoned found,
    takeover_lease_accepted event_id (acquire lease_id run_id owner now) now refl,
  )

-- On a run of an unpoisoned store, `release_root_lease` ends whatever lease is there, with one event of
-- the next number: the identifier of the lease to release goes into the event, and is compared with
-- none.
pub release_root_lease_lem :
    (r : MemoryRunRepository) (run_id : HarnessRunId) (s : ReconstructedRun) (event_id : RunEventId)
    (lease_id : RootLeaseId) (now : ℤ)
    → r.poisoned ≡ false
    → get run_id r.inner ≡ some s
    → let event = next_event event_id run_id s (RunEventKind.lease_released lease_id) now in
      Leases.release_root_lease memory event_id run_id lease_id now r
      ≡ (put run_id (record s { events = s.events ++ (event ∷ []); lease = none }) r, ok tt)
unfolding Leases.release_root_lease MemoryRepository.release_lease
release_root_lease_lem r run_id s event_id lease_id now p f = ground (
  arith,
  reconstruct_run_found r run_id s p f,
  accepted r run_id s p f event_id (RunEventKind.lease_released lease_id) now
      (λ s. record s { lease = none }),
)

-- A lease keeps a run to its owner. On a run of an unpoisoned store with no lease that is held,
-- `acquire_root_lease` is followed by a refusal of the next one, which changes nothing, by whomever it
-- is made, at every time less than the TTL after the first. The times and the expiry are in the range
-- of i64.
pub acquire_excludes :
    (r : MemoryRunRepository) (run_id : HarnessRunId) (s : ReconstructedRun)
    (lease_id lease_id' : RootLeaseId) (event_id event_id' : RunEventId) (owner owner' : Text)
    (now later : ℤ)
    → r.poisoned ≡ false
    → get run_id r.inner ≡ some s
    → is_held s.lease now ≡ false
    → IsI64 now
    → pos_part now + root_lease_ttl_ms < 9223372036854775808
    → later <ℤ now +ℤ pos root_lease_ttl_ms
    → let r' = (Leases.acquire_root_lease memory lease_id event_id run_id owner now r).0 in
      Leases.acquire_root_lease memory lease_id' event_id' run_id owner' later r'
      ≡ (r', err LeaseUseCaseError.lease_held)
unfolding acquire
acquire_excludes r run_id s lease_id lease_id' event_id event_id' owner owner' now later p f free i
      b h =
    let lease = acquire lease_id run_id owner now in
    let s' =
      with_lease s lease
        (next_event event_id run_id s (RunEventKind.lease_acquired lease_id) now) in
    let first = acquire_root_lease_lem r run_id s p f lease_id event_id owner now in
    let held : is_held (some lease) later ≡ true =
      ground (arith, add_i64_exact now root_lease_ttl_ms i b) in
    let second =
      acquire_root_lease_lem (put run_id s' r) run_id s' p (get-insert r.inner run_id s') lease_id'
        event_id' owner' later in
    ground arith
