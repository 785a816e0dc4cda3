-- ===== src/MemoryRepository/Rollback.antt =====
-- The calls on the store in memory that are refused: crates/tule-core/src/run_use_cases.rs,
-- `MemoryRunRepository`.
use tule.Base.{
  ◌-◌, ◌≡◌, ◌≢◌, refl, ap, ◌∙◌, ◌⊎◌, inl, inr, Bool, false, ◌||◌, Bool-cases, Option-cases, none,
  some, List, [], ◌∷◌, find, replace_first, ok, err, Result, arith, ◌==◌, nat_eq, leb_ℤ,
}
use tule.Ids.{CapabilityGrantId, HarnessRunId}
use tule.Capability.{CapabilityGrant, budget_exhausted, consume_dispatch, is_revoked}
use tule.Effect.{EffectRecord, claim}
use tule.Effect.Phase.{prepared, phase_eq}
use tule.Lease.{is_held}
use tule.Lifecycle.{is_quiescent_for_checkpoint}
use tule.Repository.{ReconstructedRun, ClaimEffectIntent}
use tule.Store.{
  MemoryRunRepository, MemoryRunRepositoryError, sequence_gap, RunAction, get, insert, with_run,
  append_checked, next_sequence,
}
use tule.MemoryRepository
use tule.MemoryRepository.{put_effect, put_grant}
use tule.MemoryRepository.Calls.{
  done, Call, call, append, frozen_pair, approval, grant, grant_revocation, denial, prepared_effect,
  effect_claim, effect_dispatched, effect_settled, dispatch_budget, checkpoint, validation,
  final_result, lease_acquire, lease_release, lease_takeover,
}
use tule.MemoryRepository.Locked.{insert-get}

-- The grant that is found is written back over itself.
replace_first_found {ℓ} :
    {A : Type ℓ} (p : A → Bool) (a : A) (xs : List A)
    → find p xs ≡ some a
    → replace_first p a xs ≡ xs
replace_first_found p a [] h = refl
replace_first_found p a (x ∷ xs) h = let ih = replace_first_found p a xs in ground arith

find-id :
    (id : CapabilityGrantId) (g : CapabilityGrant) (gs : List CapabilityGrant)
    → find (λ item. item.id == id) gs ≡ some g
    → g.id ≡ id
find-id id g [] h = absurd (ground arith)
find-id id g (x ∷ gs) h = let ih = find-id id g gs in ground arith

-- An error leaves the state as it was.
unfoldable pub Undone : {S E A : Type 0} → S → S × Result E A → Type 0
Undone s (s', ok a) = Unit {0}
Undone s (s', err e) = s' ≡ s

rebuilt :
    {A : Type 0} (id : HarnessRunId) (r : MemoryRunRepository) (s : ReconstructedRun)
    (after : ReconstructedRun × Result MemoryRunRepositoryError A)
    → get id r.inner ≡ some s
    → Undone s after
    → Undone r (record r { inner = insert id after.0 r.inner }, after.1)
unfolding Undone
rebuilt id r s (s', ok a) got undone = tt
rebuilt id r s (s', err e) got undone =
    ap (λ s. record r { inner = insert id s r.inner }) undone
    ∙ ap (λ m. record r { inner = m }) (insert-get r.inner id s got)

pub with_run_found :
    {A : Type 0} (id : HarnessRunId) (body : RunAction A) (r : MemoryRunRepository)
    (s : ReconstructedRun)
    → r.poisoned ≡ false
    → get id r.inner ≡ some s
    → with_run id body r ≡ (record r { inner = insert id (body s).0 r.inner }, (body s).1)
unfolding with_run
with_run_found id body r s h g = simp (h, g) refl

with_run-Undone :
    {A : Type 0} (id : HarnessRunId) (body : RunAction A) (r : MemoryRunRepository)
    → ((s : ReconstructedRun) → Undone s (body s))
    → Undone r (with_run id body r)
unfolding with_run Undone
with_run-Undone id body r undone = elim (Bool-cases r.poisoned) [
  | inl h ↦ simp (h) refl
  | inr h ↦ elim (Option-cases (get id r.inner)) [
    | inl g ↦ simp (h, g) refl
    | inr (s, g) ↦ rw (with_run_found id body r s h g) (rebuilt id r s (body s) g (undone s))
  ]
]

done-Undone :
    {A : Type 0} (r : MemoryRunRepository)
    (after : MemoryRunRepository × Result MemoryRunRepositoryError A)
    → Undone r after
    → Undone r (done (λ _. after) r)
unfolding Undone
done-Undone r (r', ok a) undone = tt
done-Undone r (r', err e) undone = undone

-- The budget that is written back on a refusal is the one that was found.
pub put_grant_found :
    (id : CapabilityGrantId) (g : CapabilityGrant) (s : ReconstructedRun)
    → find (λ item. item.id == id) s.grants ≡ some g
    → put_grant g s ≡ s
put_grant_found id g s h =
    ap (λ gs. record s { grants = gs })
      (simp (find-id id g s.grants h) (replace_first_found _ g s.grants h))

consume_dispatch-cases :
    (g : CapabilityGrant)
    → (consume_dispatch g ≡ (g, err budget_exhausted))
      ⊎ (consume_dispatch g
          ≡ (record g { dispatch_budget_remaining = g.dispatch_budget_remaining - 1 }, ok tt))
unfolding consume_dispatch
consume_dispatch-cases g = ground arith

Undone-of :
    {A : Type 0} (r : MemoryRunRepository)
    (after : MemoryRunRepository × Result MemoryRunRepositoryError A) (e : MemoryRunRepositoryError)
    → Undone r after
    → after.1 ≡ err e
    → after.0 ≡ r
unfolding Undone
Undone-of r (r', ok a) e undone h = absurd (ground arith)
Undone-of r (r', err e') e undone h = undone

unfoldable pub IsClaim : Call → Type 0
IsClaim (effect_claim i) = Unit {0}
IsClaim _ = ⊥

call-Undone : (c : Call) (r : MemoryRunRepository) → ¬ IsClaim c → Undone r (call c r)
unfolding IsClaim Undone MemoryRepository.claim_effect MemoryRepository.consume_dispatch_budget
    MemoryRepository.persist_quiescent_checkpoint MemoryRepository.acquire_lease append_checked
    MemoryRepository.append_event MemoryRepository.persist_frozen_pair
    MemoryRepository.persist_approval MemoryRepository.persist_grant
    MemoryRepository.persist_grant_revocation MemoryRepository.persist_denial
    MemoryRepository.persist_prepared_effect MemoryRepository.persist_effect_dispatched
    MemoryRepository.persist_effect_settled MemoryRepository.persist_validation
    MemoryRepository.persist_final_result MemoryRepository.release_lease
    MemoryRepository.takeover_lease
call-Undone (append event) r n = with_run-Undone _ _ r (λ s. ground arith)
call-Undone (frozen_pair plan graph event) r n = with_run-Undone _ _ r (λ s. ground arith)
call-Undone (approval a event) r n = with_run-Undone _ _ r (λ s. ground arith)
call-Undone (grant g event) r n = with_run-Undone _ _ r (λ s. ground arith)
call-Undone (grant_revocation g event) r n = with_run-Undone _ _ r (λ s. ground arith)
call-Undone (denial d event) r n = with_run-Undone _ _ r (λ s. ground arith)
call-Undone (prepared_effect e event) r n = with_run-Undone _ _ r (λ s. ground arith)
call-Undone (effect_dispatched e event) r n = with_run-Undone _ _ r (λ s. ground arith)
call-Undone (effect_settled e event) r n = with_run-Undone _ _ r (λ s. ground arith)
call-Undone (validation v event) r n = with_run-Undone _ _ r (λ s. ground arith)
call-Undone (final_result x event) r n = with_run-Undone _ _ r (λ s. ground arith)
call-Undone (lease_release i) r n = with_run-Undone _ _ r (λ s. ground arith)
call-Undone (lease_takeover i) r n = with_run-Undone _ _ r (λ s. ground arith)
call-Undone (effect_claim i) r n = absurd (n tt)
call-Undone (dispatch_budget i) r n = done-Undone r _ (
    with_run-Undone _ _ r (λ s. elim (Option-cases (find (λ g. g.id == i.grant_id) s.grants)) [
      | inl h ↦ rw (h) refl
      | inr (g, h) ↦
          rw (h) (elim (Bool-cases (is_revoked g || leb_ℤ g.expires_at_unix_ms i.now_unix_ms)) [
            | inl d ↦ rw (d) refl
            | inr d ↦ rw (d) (elim (consume_dispatch-cases g) [
              | inl z ↦ rw (z) (put_grant_found i.grant_id g s h)
              | inr z ↦ rw (z) tt
            ])
          ])
    ]))
call-Undone (checkpoint i) r n = with_run-Undone _ _ r (λ s.
    elim (Bool-cases (is_quiescent_for_checkpoint s.effects)) [
      | inl h ↦ rw (h) (ground arith)
      | inr h ↦ rw (h) refl
    ])
call-Undone (lease_acquire i) r n = with_run-Undone _ _ r (λ s.
    elim (Bool-cases (is_held s.lease i.lease.acquired_at_unix_ms)) [
      | inl h ↦ rw (h) refl
      | inr h ↦ rw (h) (ground arith)
    ])

-- A call of the repository that is refused leaves the store as it was, whichever run it is on. The
-- claim of an effect is left out.
pub call_refused_undone :
    (c : Call) (r : MemoryRunRepository) (e : MemoryRunRepositoryError)
    → ¬ IsClaim c
    → (call c r).1 ≡ err e
    → (call c r).0 ≡ r
call_refused_undone c r e n h = Undone-of r (call c r) e (call-Undone c r n) h

-- On a run of an unpoisoned store, a claim of a prepared effect without a claimant is refused if its
-- event has the wrong number, and the effect is claimed all the same, without an event.
pub claim_effect_gap :
    (intent : ClaimEffectIntent) (r : MemoryRunRepository) (s : ReconstructedRun)
    (effect : EffectRecord)
    → r.poisoned ≡ false
    → get intent.run_id r.inner ≡ some s
    → intent.event.run_id ≡ intent.run_id
    → find (λ e. e.id == intent.effect_id) s.effects ≡ some effect
    → effect.phase ≡ prepared
    → effect.claimant ≡ none
    → intent.event.sequence ≢ next_sequence s.events
    → MemoryRepository.claim_effect intent r ≡ (
      record r {
        inner =
            insert intent.run_id
              (put_effect (claim effect intent.claimant intent.now_unix_ms).0 s)
              r.inner;
      },
      err (sequence_gap (next_sequence s.events) intent.event.sequence),
    )
unfolding MemoryRepository.claim_effect append_checked claim
claim_effect_gap intent r s effect p g owner found phase free gap =
    with_run_found intent.run_id _ r s p g ∙ ground arith
