-- ===== src/UseCases/Reading.antt =====
-- How each use case begins, and the events that it appends: crates/tule-core/src/run_use_cases.rs and
-- crates/tule-core/src/run.rs, `RunEvent::new`.
use tule.Base.{ok_or, ℤ}
use tule.Base.Actions.{Action, ◌>>=◌, lift, on_error}
use tule.Ids.{HarnessRunId, RunEventId}
use tule.Event.{RunEvent, RunEventKind}
use tule.Repository.{ReconstructedRun, RunRepository}
use tule.Store.{next_sequence}

-- `reconstruct_run(&run_id).map_err(Repository)?.ok_or(RunNotFound)?`.
abbrev pub reconstruct :
    {E : Type 0} (R : RunRepository)
    → (R.Error → E)
    → E
    → HarnessRunId
    → Action R.Store E ReconstructedRun
reconstruct R repository run_not_found run_id = do
  found ← on_error repository (R.reconstruct_run run_id)
  lift (ok_or found run_not_found)

-- `RunEvent::new(run_id, next_sequence(&reconstructed.events), kind, now_unix_ms)`.
abbrev pub next_event : RunEventId → HarnessRunId → ReconstructedRun → RunEventKind → ℤ → RunEvent
next_event id run_id reconstructed kind now_unix_ms = record {
  id = id;
  run_id = run_id;
  sequence = next_sequence reconstructed.events;
  kind = kind;
  recorded_at_unix_ms = now_unix_ms;
}
