-- ===== src/UseCases/InMemory.antt =====
-- The use cases on the repository in memory: crates/tule-core/src/run_use_cases.rs.
use tule.Base.{◌≡◌, refl, ◌∙◌, false, some, [], ◌∷◌, ◌++◌, ok, arith, nat_eq, ℤ}
use tule.Base.Actions.{◌>>◌, modify}
use tule.Ids.{HarnessRunId, RunEventId}
use tule.Event.{RunEvent, RunEventKind}
use tule.Repository.{ReconstructedRun}
use tule.Store.{MemoryRunRepository, get, insert, with_run, append_checked}
use tule.MemoryRepository
use tule.MemoryRepository.{memory}
use tule.MemoryRepository.Rollback.{with_run_found}
use tule.UseCases.Reading.{next_event}

-- The run after one more event.
abbrev pub with_event : ReconstructedRun → RunEvent → ReconstructedRun
with_event s event = record s { events = s.events ++ (event ∷ []) }

-- The store after a change of one run.
abbrev pub put : HarnessRunId → ReconstructedRun → MemoryRunRepository → MemoryRunRepository
put id s r = record r { inner = insert id s r.inner }

-- The event that a use case appends has the number that the repository expects.
pub next_event_accepted :
    (id : RunEventId) (run_id : HarnessRunId) (s : ReconstructedRun) (kind : RunEventKind) (now : ℤ)
    → append_checked (next_event id run_id s kind now) s
      ≡ (with_event s (next_event id run_id s kind now), ok tt)
unfolding append_checked
next_event_accepted id run_id s kind now = ground arith

module _ (r : MemoryRunRepository) (run_id : HarnessRunId) (s : ReconstructedRun)
    (unpoisoned : r.poisoned ≡ false) (found : get run_id r.inner ≡ some s) where
  pub reconstruct_run_found : MemoryRepository.reconstruct_run run_id r ≡ (r, ok (some s))
  unfolding MemoryRepository.reconstruct_run
  reconstruct_run_found = simp (unpoisoned, found) refl

  -- A change that checks the event of a use case and then writes.
  pub accepted :
      (id : RunEventId) (kind : RunEventKind) (now : ℤ) (f : ReconstructedRun → ReconstructedRun)
      → with_run run_id (append_checked (next_event id run_id s kind now) >> modify f) r
        ≡ (put run_id (f (with_event s (next_event id run_id s kind now))) r, ok tt)
  accepted id kind now f = ground (
    arith,
    with_run_found run_id (append_checked (next_event id run_id s kind now) >> modify f) r s
        unpoisoned found,
    next_event_accepted id run_id s kind now,
  )

  pub append_event_accepted :
      (id : RunEventId) (kind : RunEventKind) (now : ℤ)
      → MemoryRepository.append_event (next_event id run_id s kind now) r
        ≡ (put run_id (with_event s (next_event id run_id s kind now)) r, ok tt)
  unfolding MemoryRepository.append_event
  append_event_accepted id kind now =
      with_run_found run_id _ r s unpoisoned found
      ∙ rw (next_event_accepted id run_id s kind now) refl
