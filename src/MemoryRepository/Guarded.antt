-- ===== src/MemoryRepository/Guarded.antt =====
-- The operations of the repository in memory that test its state, and those that create and read a run,
-- on sound runs: crates/tule-core/src/run_use_cases.rs, `impl RunRepository for MemoryRunRepository`.
use tule.Base.{
  ◌≡◌, refl, ◌⊎◌, inl, inr, not, ◌||◌, Option, none, some, [], ◌∷◌, ◌++◌, find, ok, err, ok_or,
  map_err, arith, ◌==◌, ◌!=◌, nat_eq, leb_ℤ,
}
use tule.Base.Keeping.{
  OkIs, Keeps, Any, SomeIs, ok_or-OkIs, result-Any, Keeps-bind, Keeps-then, Keeps-pure,
  Keeps-fail_if, Keeps-lift, Keeps-modify, Keeps-read,
}
use tule.Ids.{HarnessRunId}
use tule.Event.{RunEvent}
use tule.Capability.{CapabilityGrant, consume_dispatch, is_revoked}
use tule.Capability.Grants
use tule.Capability.Grants.{IsValid}
use tule.Effect.{EffectRecord, claim}
use tule.Effect.Phase.{prepared, phase_eq}
use tule.Effect.Journal
use tule.Effect.Journal.{IsConsistent}
use tule.Records.{HarnessRun}
use tule.Lease.{is_held}
use tule.Lifecycle.{is_quiescent_for_checkpoint}
use tule.Repository.{
  ReconstructedRun, ClaimEffectIntent, ConsumeDispatchBudgetIntent, PersistCheckpointIntent,
  AcquireLeaseIntent,
}
use tule.Store.{
  MemoryRunRepository, not_found, not_prepared, claim_lost, grant_denied, not_quiescent,
  lease_conflict, lock_poisoned, get, insert, initial_state,
}
use tule.MemoryRepository
use tule.MemoryRepository.{put_effect, put_grant}
use tule.MemoryRepository.Numbering.{IsNumbered}
use tule.MemoryRepository.Soundness.{
  IsSound, AllSound, IsElsewhere, find-SomeIs, insert-AllSound, Keeps-with_run,
  Keeps-append_checked, Keeps-elsewhere, put_effect-IsSound, put_grant-IsSound,
}

pub persist_quiescent_checkpoint-Keeps :
    (intent : PersistCheckpointIntent)
    → Keeps AllSound Any (MemoryRepository.persist_quiescent_checkpoint intent)
unfolding MemoryRepository.persist_quiescent_checkpoint IsElsewhere
persist_quiescent_checkpoint-Keeps intent = Keeps-with_run intent.checkpoint.run_id (
    Keeps-bind {P = Any}
      (Keeps-read (λ state. is_quiescent_for_checkpoint state.effects) (λ s i. tt))
      (λ quiescent _. Keeps-then (Keeps-fail_if (not quiescent) not_quiescent) (
        Keeps-elsewhere intent.event
          (λ state. record state { checkpoints = state.checkpoints ++ (intent.checkpoint ∷ []) })
          (λ s. (refl, refl, refl)))))

pub acquire_lease-Keeps :
    (intent : AcquireLeaseIntent) → Keeps AllSound Any (MemoryRepository.acquire_lease intent)
unfolding MemoryRepository.acquire_lease IsElsewhere
acquire_lease-Keeps intent = Keeps-with_run intent.lease.run_id (
    Keeps-bind {P = Any} (Keeps-read (λ state. state.lease) (λ s i. tt)) (λ existing _.
      Keeps-then (Keeps-fail_if (is_held existing intent.lease.acquired_at_unix_ms) lease_conflict)
        (Keeps-elsewhere intent.event (λ state. record state { lease = some intent.lease })
          (λ s. (refl, refl, refl)))))

claim-IsConsistent :
    (effect : EffectRecord) (intent : ClaimEffectIntent)
    → IsConsistent effect
    → IsConsistent (claim effect intent.claimant intent.now_unix_ms).0
unfolding Journal.call
claim-IsConsistent effect intent v =
    Journal.call-IsConsistent effect (Journal.claims intent.claimant intent.now_unix_ms) v

consume-IsValid : (grant : CapabilityGrant) → IsValid grant → IsValid (consume_dispatch grant).0
unfolding Grants.call
consume-IsValid grant v = Grants.call-IsValid grant Grants.dispatches v

pub consume_dispatch_budget-Keeps :
    (intent : ConsumeDispatchBudgetIntent)
    → Keeps AllSound IsValid (MemoryRepository.consume_dispatch_budget intent)
unfolding MemoryRepository.consume_dispatch_budget
consume_dispatch_budget-Keeps intent = Keeps-with_run intent.run_id (
    Keeps-bind {P = SomeIs IsValid}
      (Keeps-read (λ state. find (λ g. g.id == intent.grant_id) state.grants)
        (λ s i. find-SomeIs IsValid (λ g. g.id == intent.grant_id) s.grants i.valid))
      (λ found v.
        Keeps-bind {P = IsValid}
          (Keeps-lift (ok_or found not_found) (ok_or-OkIs IsValid found not_found v))
          (λ grant v.
            let v' = consume-IsValid grant v in
            Keeps-then
              (Keeps-fail_if (is_revoked grant || leb_ℤ grant.expires_at_unix_ms intent.now_unix_ms)
                grant_denied)
              (Keeps-then
                (Keeps-modify (put_grant (consume_dispatch grant).0)
                  (put_grant-IsSound (consume_dispatch grant).0 v'))
                (Keeps-then
                  (Keeps-lift (map_err (λ _. grant_denied) (consume_dispatch grant).1)
                    (result-Any (map_err (λ _. grant_denied) (consume_dispatch grant).1)))
                  (Keeps-pure (consume_dispatch grant).0 v'))))))

pub claim_effect-Keeps :
    (intent : ClaimEffectIntent)
    → Keeps AllSound IsConsistent (MemoryRepository.claim_effect intent)
unfolding MemoryRepository.claim_effect
claim_effect-Keeps intent = Keeps-with_run intent.run_id (
    Keeps-then (Keeps-fail_if (intent.event.run_id != intent.run_id) not_found) (
      Keeps-bind {P = SomeIs IsConsistent}
        (Keeps-read (λ state. find (λ e. e.id == intent.effect_id) state.effects)
          (λ s i. find-SomeIs IsConsistent (λ e. e.id == intent.effect_id) s.effects i.consistent))
        (λ found v.
          Keeps-bind {P = IsConsistent}
            (Keeps-lift (ok_or found not_found) (ok_or-OkIs IsConsistent found not_found v))
            (λ effect v.
              let v' = claim-IsConsistent effect intent v in
              Keeps-then (Keeps-fail_if (effect.phase != prepared) not_prepared) (
                Keeps-then
                  (Keeps-modify (put_effect (claim effect intent.claimant intent.now_unix_ms).0)
                    (put_effect-IsSound (claim effect intent.claimant intent.now_unix_ms).0 v'))
                  (Keeps-then
                    (Keeps-lift
                      (map_err (λ _. claim_lost)
                        (claim effect intent.claimant intent.now_unix_ms).1)
                      (result-Any (
                        map_err (λ _. claim_lost)
                          (claim effect intent.claimant intent.now_unix_ms).1)))
                    (Keeps-then (Keeps-append_checked intent.event)
                      (Keeps-pure (claim effect intent.claimant intent.now_unix_ms).0 v'))))))))

created_or_refused :
    (run : HarnessRun) (event : RunEvent) (r : MemoryRunRepository)
    → (MemoryRepository.create_run run event r ≡ (r, err lock_poisoned))
      ⊎ (MemoryRepository.create_run run event r
          ≡ (record r { inner = insert run.id (initial_state run event) r.inner }, ok tt))
unfolding MemoryRepository.create_run
created_or_refused run event r = ground arith

-- A new run has one event, and its number must be one.
pub create_run-Keeps :
    (run : HarnessRun) (event : RunEvent)
    → event.sequence ≡ 1
    → Keeps AllSound Any (MemoryRepository.create_run run event)
unfolding OkIs IsNumbered
create_run-Keeps run event first = record {
  keeps = λ r i. elim (created_or_refused run event r) [
    | inl h ↦ rw (h) (i, tt)
    | inr h ↦ rw (h) (
      insert-AllSound run.id (initial_state run event) r
          (record { numbered = (first, tt); consistent = tt; valid = tt }) i,
      tt,
    )
  ];
}

reconstructed_or_refused :
    (run_id : HarnessRunId) (r : MemoryRunRepository)
    → (MemoryRepository.reconstruct_run run_id r ≡ (r, err lock_poisoned))
      ⊎ (MemoryRepository.reconstruct_run run_id r ≡ (r, ok (get run_id r.inner)))
unfolding MemoryRepository.reconstruct_run
reconstructed_or_refused run_id r = ground arith

got-IsSound :
    (found : Option ReconstructedRun)
    → ((s : ReconstructedRun) → found ≡ some s → IsSound s)
    → SomeIs IsSound found
got-IsSound none h = tt
got-IsSound (some s) h = h s refl

pub reconstruct_run-Keeps :
    (run_id : HarnessRunId)
    → Keeps AllSound (SomeIs IsSound) (MemoryRepository.reconstruct_run run_id)
unfolding OkIs AllSound
reconstruct_run-Keeps run_id = record {
  keeps = λ r i. elim (reconstructed_or_refused run_id r) [
    | inl h ↦ rw (h) (i, tt)
    | inr h ↦ rw (h) (i, got-IsSound (get run_id r.inner) (i run_id))
  ];
}
