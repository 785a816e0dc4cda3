-- ===== src/UseCases/Checkpoints.antt =====
-- What a checkpoint of a run in memory records: crates/tule-core/src/run_use_cases.rs,
-- `checkpoint_run`.
use tule.Base.{
  ℕ, ◌+◌, ◌%◌, ◌^◌, ◌≡◌, refl, ap, ◌∙◌, inl, inr, true, false, Bool-cases, not, some, List, [], ◌∷◌,
  ◌++◌, length, ok, err, arith, nat_eq, text_eq, ℤ, if◌then◌else◌,
}
use tule.Ids.{HarnessRunId, RunEventId, CheckpointId, UuidCrate}
use tule.Event.{RunEvent, RunEventKind}
use tule.Repository.{ReconstructedRun}
use tule.Store.{MemoryRunRepository, get}
use tule.MemoryRepository
use tule.MemoryRepository.{memory}
use tule.UseCases.Reading.{next_event}
use tule.UseCases.InMemory.{next_event_accepted, put, reconstruct_run_found}
use tule.Canonical.{Digest, hash_event_chain}
use tule.Graph.{RunGraphVersion}
use tule.Plan.{ExecutionPlanVersion}
use tule.Records.{Checkpoint}
use tule.Lifecycle.{derive_lifecycle, is_quiescent_for_checkpoint}
use tule.MemoryRepository.Rollback.{with_run_found}
use tule.MemoryRepository.Numbering.{IsNumbered}
use tule.UseCases.Errors.{CheckpointError}
use tule.UseCases.Effects.{is_blocked}
use tule.UseCases.Progress
use tule.UseCases.Progress.{last_sequence}

last_sequence_numbered :
    (n : ℕ) (e : RunEvent) (events : List RunEvent)
    → IsNumbered (n + 1) (e ∷ events)
    → last_sequence (e ∷ events) ≡ (n + length (e ∷ events)) % 2 ^ 64
unfolding IsNumbered
last_sequence_numbered n e [] (h, _) = h
last_sequence_numbered n e (e' ∷ events) (h, numbered) =
    last_sequence_numbered (n + 1) e' events numbered ∙ ap (λ m. m % 2 ^ 64) (omega arith)

-- The checkpoint of a run.
abbrev pub checkpoint_of :
    UuidCrate
    → Digest
    → CheckpointId
    → HarnessRunId
    → ReconstructedRun
    → ExecutionPlanVersion
    → RunGraphVersion
    → ℤ
    → Checkpoint
checkpoint_of u digest id run_id s plan graph now = record {
  id = id;
  run_id = run_id;
  last_event_sequence = length s.events % 2 ^ 64;
  event_chain_hash = hash_event_chain u digest s.events;
  plan_version_id = plan.id;
  graph_version_id = graph.id;
  execution_policy_revision = plan.execution_policy_revision;
  expected_postimage_hash = plan.replacement.postimage_hash;
  created_at_unix_ms = now;
}

abbrev with_checkpoint : ReconstructedRun → Checkpoint → RunEvent → ReconstructedRun
with_checkpoint s checkpoint event = record s {
  events = s.events ++ (event ∷ []);
  checkpoints = s.checkpoints ++ (checkpoint ∷ []);
}

last_sequence_lem :
    (events : List RunEvent) → IsNumbered 1 events → last_sequence events ≡ length events % 2 ^ 64
last_sequence_lem [] numbered = refl
last_sequence_lem (e ∷ events) numbered =
    last_sequence_numbered 0 e events numbered ∙ ap (λ m. m % 2 ^ 64) (omega arith)

module _ (r : MemoryRunRepository) (run_id : HarnessRunId) (s : ReconstructedRun)
    (unpoisoned : r.poisoned ≡ false) (found : get run_id r.inner ≡ some s) where
  persist_checkpoint_lem :
      (event_id : RunEventId) (checkpoint : Checkpoint) (now : ℤ)
      → is_quiescent_for_checkpoint s.effects ≡ true
      → checkpoint.run_id ≡ run_id
      → let event = next_event event_id run_id s (RunEventKind.checkpointed checkpoint.id) now in
        MemoryRepository.persist_quiescent_checkpoint
          (record { checkpoint = checkpoint; event = event })
          r
        ≡ (put run_id (with_checkpoint s checkpoint event) r, ok tt)
  unfolding MemoryRepository.persist_quiescent_checkpoint
  persist_checkpoint_lem event_id checkpoint now quiet owner = simp (owner) (
      with_run_found run_id _ r s unpoisoned found
      ∙ rw (quiet) (
          ground (
            arith,
            next_event_accepted event_id run_id s (RunEventKind.checkpointed checkpoint.id) now,
          )))

  -- On a run of an unpoisoned store whose events are numbered from one on, `checkpoint_run` is refused without a
  -- change while an effect is in flight, and then if the run is blocked. Otherwise it records the count
  -- of the events as the last number, as a u64, and the hash of their chain, before its own event.
  pub checkpoint_run_lem :
      (u : UuidCrate) (digest : Digest) (checkpoint_id : CheckpointId) (event_id : RunEventId)
      (plan : ExecutionPlanVersion) (graph : RunGraphVersion) (now : ℤ)
      → IsNumbered 1 s.events
      → let checkpoint = checkpoint_of u digest checkpoint_id run_id s plan graph now in
        let event = next_event event_id run_id s (RunEventKind.checkpointed checkpoint_id) now in
        Progress.checkpoint_run memory u digest checkpoint_id event_id run_id plan graph now r ≡ (
          if not (is_quiescent_for_checkpoint s.effects)
          then (r, err CheckpointError.not_quiescent)
          else if is_blocked (derive_lifecycle s.events s.effects)
          then (r, err CheckpointError.run_blocked)
          else (put run_id (with_checkpoint s checkpoint event) r, ok checkpoint))
  unfolding Progress.checkpoint_run
  checkpoint_run_lem u digest checkpoint_id event_id plan graph now numbered =
      elim (Bool-cases (is_quiescent_for_checkpoint s.effects)) [
        | inl h ↦ ground (
          arith,
          reconstruct_run_found r run_id s unpoisoned found,
          last_sequence_lem s.events numbered,
          persist_checkpoint_lem event_id
              (checkpoint_of u digest checkpoint_id run_id s plan graph now) now h refl,
        )
        | inr h ↦ ground (arith, reconstruct_run_found r run_id s unpoisoned found)
      ]
