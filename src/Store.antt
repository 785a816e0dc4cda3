-- ===== src/Store.antt =====
-- The store of the repository in memory: crates/tule-core/src/run_use_cases.rs, `next_sequence` and
-- `MemoryRunRepository`. The HashMap is an association list, and the Mutex a flag that says whether its
-- lock is poisoned.
use tule.Base.{
  ℕ, ◌+◌, ◌%◌, ◌^◌, Bool, Option, none, some, List, [], ◌∷◌, ◌++◌, err, ◌==◌, ◌!=◌, nat_eq, last,
  if◌then◌else◌,
}
use tule.Base.Actions.{Action, ◌>>=◌, ◌>>◌, fail_if, modify, read}
use tule.Ids.{HarnessRunId}
use tule.Effect.Phase.{phase_eq}
use tule.Event.{RunEvent}
use tule.Records.{HarnessRun}
use tule.Repository.{ReconstructedRun}

-- The sequence number is a u64.
unfoldable pub next_sequence : List RunEvent → ℕ
next_sequence events = elim (last events) [ none ↦ 1 | some event ↦ (event.sequence + 1) % 2 ^ 64 ]

pub record MemoryRunRepository : Type 0 where
  pub poisoned : Bool
  pub inner : List (HarnessRunId × ReconstructedRun)

pub data MemoryRunRepositoryError : Type 0 where
  not_found : MemoryRunRepositoryError
  -- The expected and the actual number.
  sequence_gap : ℕ → ℕ → MemoryRunRepositoryError
  claim_lost not_prepared grant_denied not_quiescent lease_conflict lock_poisoned :
      MemoryRunRepositoryError

abbrev pub MemoryAction : Type 0 → Type 0
MemoryAction = Action MemoryRunRepository MemoryRunRepositoryError

-- A call under the lock on the state of one run.
abbrev pub RunAction : Type 0 → Type 0
RunAction = Action ReconstructedRun MemoryRunRepositoryError

-- `HashMap::get` and `HashMap::insert`.
unfoldable pub get : HarnessRunId → List (HarnessRunId × ReconstructedRun) → Option ReconstructedRun
get run_id [] = none
get run_id ((k, v) ∷ m) = if k == run_id then some v else get run_id m

unfoldable pub insert :
    HarnessRunId
    → ReconstructedRun
    → List (HarnessRunId × ReconstructedRun)
    → List (HarnessRunId × ReconstructedRun)
insert run_id state [] = (run_id, state) ∷ []
insert run_id state ((k, v) ∷ m) =
    if k == run_id then (k, state) ∷ m else (k, v) ∷ insert run_id state m

-- `lock()?`, then `get_mut(run_id).ok_or(NotFound)?`, then changes of the state in place.
unfoldable pub with_run : {A : Type 0} → HarnessRunId → RunAction A → MemoryAction A
with_run run_id body repository =
    if repository.poisoned
    then (repository, err lock_poisoned)
    else elim (get run_id repository.inner) [
      | none ↦ (repository, err not_found)
      | some state ↦
          let (state', result) = body state in
          (record repository { inner = insert run_id state' repository.inner }, result)
    ]

unfoldable pub append_checked : RunEvent → RunAction (Unit {0})
append_checked event = do
  expected ← read (λ state. next_sequence state.events)
  fail_if (event.sequence != expected) (sequence_gap expected event.sequence)
  modify (λ state. record state { events = state.events ++ (event ∷ []) })

-- The state of a new run.
abbrev pub initial_state : HarnessRun → RunEvent → ReconstructedRun
initial_state run event = record {
  run = run;
  events = event ∷ [];
  plans = [];
  graphs = [];
  replacements = [];
  approvals = [];
  grants = [];
  effects = [];
  checkpoints = [];
  validations = [];
  denials = [];
  lease = none;
  final_result = none;
}
