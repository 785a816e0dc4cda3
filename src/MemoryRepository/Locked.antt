-- ===== src/MemoryRepository/Locked.antt =====
-- The calls on the store in memory, as changes of one run: crates/tule-core/src/run_use_cases.rs,
-- `MemoryRunRepository`.
use tule.Base.{
  ◌≡◌, ◌≢◌, refl, ◌⊎◌, inl, inr, Bool-cases, Option, Option-cases, none, some, List, [], ◌∷◌, ◌++◌,
  arith, nat_eq,
}
use tule.Ids.{HarnessRunId}
use tule.Lifecycle.{is_quiescent_for_checkpoint}
use tule.Lease.{is_held}
use tule.Event.{RunEvent}
use tule.Repository.{ReconstructedRun}
use tule.Store.{
  MemoryRunRepository, RunAction, get, insert, with_run, next_sequence, append_checked,
}
use tule.MemoryRepository
use tule.MemoryRepository.Calls.{
  event_of, Call, call, target, append, frozen_pair, approval, grant, grant_revocation, denial,
  prepared_effect, effect_claim, effect_dispatched, effect_settled, dispatch_budget, checkpoint,
  validation, final_result, lease_acquire, lease_release, lease_takeover,
}

pub get-insert :
    (m : List (HarnessRunId × ReconstructedRun)) (id : HarnessRunId) (state : ReconstructedRun)
    → get id (insert id state m) ≡ some state
unfolding get insert
get-insert [] id state = ground arith
get-insert ((k, v) ∷ m) id state = let ih = get-insert m id state in ground arith

pub get-insert_other :
    (m : List (HarnessRunId × ReconstructedRun)) (id other : HarnessRunId)
    (state : ReconstructedRun)
    → other ≢ id
    → get other (insert id state m) ≡ get other m
unfolding get insert
get-insert_other [] id other state h = ground arith
get-insert_other ((k, v) ∷ m) id other state h =
    let ih = get-insert_other m id other state h in ground arith

pub insert-get :
    (m : List (HarnessRunId × ReconstructedRun)) (id : HarnessRunId) (state : ReconstructedRun)
    → get id m ≡ some state
    → insert id state m ≡ m
unfolding get insert
insert-get [] id state h = ground arith
insert-get ((k, v) ∷ m) id state h = let ih = insert-get m id state in ground arith

-- What a call leaves of the events of a run: the same ones, or those and its event, if that has the
-- next number.
unfoldable pub Extends : Option RunEvent → ReconstructedRun → ReconstructedRun → Type 0
Extends none s s' = s'.events ≡ s.events
Extends (some event) s s' =
    (s'.events ≡ s.events)
    ⊎ ((event.sequence ≡ next_sequence s.events) × (s'.events ≡ s.events ++ (event ∷ [])))

-- A call leaves the store as it is, or it changes the one run that it is on by one step.
unfoldable pub Locked :
    (ReconstructedRun → ReconstructedRun → Type 0)
    → HarnessRunId
    → MemoryRunRepository
    → MemoryRunRepository
    → Type 0
Locked P id r r' =
    (r' ≡ r)
    ⊎ ((s : ReconstructedRun) × (s' : ReconstructedRun) × (get id r.inner ≡ some s)
        × P s s'
        × (r' ≡ record r { inner = insert id s' r.inner }))

pub with_run-Locked :
    {A : Type 0} (P : ReconstructedRun → ReconstructedRun → Type 0) (id : HarnessRunId)
    (body : RunAction A) (r : MemoryRunRepository)
    → ((s : ReconstructedRun) → P s (body s).0)
    → Locked P id r (with_run id body r).0
unfolding with_run Locked
with_run-Locked P id body r step = elim (Bool-cases r.poisoned) [
  | inl h ↦ inl (simp (h) refl)
  | inr h ↦ elim (Option-cases (get id r.inner)) [
    | inl g ↦ inl (simp (h, g) refl)
    | inr (s, g) ↦ inr (s, (body s).0, g, step s, simp (h, g) refl)
  ]
]

pub call-Locked :
    (c : Call) (r : MemoryRunRepository) → Locked (Extends (event_of c)) (target c) r (call c r).0
unfolding MemoryRepository.append_event MemoryRepository.persist_frozen_pair
    MemoryRepository.persist_approval MemoryRepository.persist_grant
    MemoryRepository.persist_grant_revocation MemoryRepository.persist_denial
    MemoryRepository.persist_prepared_effect MemoryRepository.claim_effect
    MemoryRepository.persist_effect_dispatched MemoryRepository.persist_effect_settled
    MemoryRepository.consume_dispatch_budget MemoryRepository.persist_quiescent_checkpoint
    MemoryRepository.persist_validation MemoryRepository.persist_final_result
    MemoryRepository.acquire_lease MemoryRepository.release_lease MemoryRepository.takeover_lease
    Extends append_checked
call-Locked (append event) r = with_run-Locked _ _ _ r (λ s. ground arith)
call-Locked (frozen_pair plan graph event) r = with_run-Locked _ _ _ r (λ s. ground arith)
call-Locked (approval a event) r = with_run-Locked _ _ _ r (λ s. ground arith)
call-Locked (grant g event) r = with_run-Locked _ _ _ r (λ s. ground arith)
call-Locked (grant_revocation g event) r = with_run-Locked _ _ _ r (λ s. ground arith)
call-Locked (denial d event) r = with_run-Locked _ _ _ r (λ s. ground arith)
call-Locked (prepared_effect e event) r = with_run-Locked _ _ _ r (λ s. ground arith)
call-Locked (effect_claim i) r = with_run-Locked _ _ _ r (λ s. ground arith)
call-Locked (effect_dispatched e event) r = with_run-Locked _ _ _ r (λ s. ground arith)
call-Locked (effect_settled e event) r = with_run-Locked _ _ _ r (λ s. ground arith)
call-Locked (dispatch_budget i) r = with_run-Locked _ _ _ r (λ s. ground arith)
call-Locked (checkpoint i) r = with_run-Locked _ _ _ r (λ s.
    elim (Bool-cases (is_quiescent_for_checkpoint s.effects)) [
      | inl h ↦ rw (h) (ground arith)
      | inr h ↦ rw (h) (inl refl)
    ])
call-Locked (validation v event) r = with_run-Locked _ _ _ r (λ s. ground arith)
call-Locked (final_result x event) r = with_run-Locked _ _ _ r (λ s. ground arith)
call-Locked (lease_acquire i) r = with_run-Locked _ _ _ r (λ s.
    elim (Bool-cases (is_held s.lease i.lease.acquired_at_unix_ms)) [
      | inl h ↦ rw (h) (inl refl)
      | inr h ↦ rw (h) (ground arith)
    ])
call-Locked (lease_release i) r = with_run-Locked _ _ _ r (λ s. ground arith)
call-Locked (lease_takeover i) r = with_run-Locked _ _ _ r (λ s. ground arith)
