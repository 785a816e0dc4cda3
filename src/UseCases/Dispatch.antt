-- ===== src/UseCases/Dispatch.antt =====
-- Dispatching an effect in memory: crates/tule-core/src/run_use_cases.rs, `dispatch_effect`.
use tule.Base.{
  ◌-◌, ◌≡◌, ap, ◌∙◌, inl, inr, Bool, true, false, Bool-cases, ◌||◌, some, find, ok, err, Text,
  arith, ◌==◌, nat_eq, text_eq, ℤ, leb_ℤ, if◌then◌else◌,
}
use tule.Ids.{HarnessRunId, RunEventId, CapabilityGrantId, EffectRecordId}
use tule.Event.{RunEventKind}
use tule.Repository.{ReconstructedRun}
use tule.Store.{MemoryRunRepository, grant_denied, get}
use tule.MemoryRepository
use tule.MemoryRepository.{memory}
use tule.MemoryRepository.Locked.{get-insert, insert-get}
use tule.UseCases.Reading.{next_event}
use tule.UseCases.InMemory.{with_event, put, reconstruct_run_found, accepted}
use tule.Capability.{CapabilityGrant, is_revoked, consume_dispatch}
use tule.Effect.{EffectRecord, mark_dispatched}
use tule.Effect.Phase.{phase_eq}
use tule.MemoryRepository.{put_effect, put_grant}
use tule.MemoryRepository.Rollback.{with_run_found, put_grant_found}
use tule.UseCases.Errors.{EffectUseCaseError}
use tule.UseCases.Effects

-- The tests on the grant: `consume_dispatch_budget` refuses a grant that is revoked, expired or spent.
unfoldable pub is_refused : CapabilityGrant → ℤ → Bool
is_refused grant now =
    is_revoked grant || leb_ℤ grant.expires_at_unix_ms now || (grant.dispatch_budget_remaining == 0)

-- The run after one dispatch is taken from the grant.
abbrev pub spend : CapabilityGrant → ReconstructedRun → ReconstructedRun
spend grant s =
    put_grant (record grant { dispatch_budget_remaining = grant.dispatch_budget_remaining - 1 }) s

module _ (r : MemoryRunRepository) (run_id : HarnessRunId) (s : ReconstructedRun)
    (unpoisoned : r.poisoned ≡ false) (found : get run_id r.inner ≡ some s) where
  consume_lem :
      (grant_id : CapabilityGrantId) (now : ℤ) (grant : CapabilityGrant)
      → find (λ g. g.id == grant_id) s.grants ≡ some grant
      → is_refused grant now ≡ false
      → MemoryRepository.consume_dispatch_budget
          (record { run_id = run_id; grant_id = grant_id; now_unix_ms = now })
          r
        ≡ (
          put run_id (spend grant s) r,
          ok (record grant { dispatch_budget_remaining = grant.dispatch_budget_remaining - 1 }),
        )
  unfolding MemoryRepository.consume_dispatch_budget consume_dispatch is_refused
  consume_lem grant_id now grant g h = with_run_found run_id _ r s unpoisoned found ∙ ground arith

  refuse_put :
      (grant_id : CapabilityGrantId) (now : ℤ) (grant : CapabilityGrant)
      → find (λ g. g.id == grant_id) s.grants ≡ some grant
      → is_refused grant now ≡ true
      → MemoryRepository.consume_dispatch_budget
          (record { run_id = run_id; grant_id = grant_id; now_unix_ms = now })
          r
        ≡ (put run_id s r, err grant_denied)
  unfolding MemoryRepository.consume_dispatch_budget consume_dispatch is_refused
  refuse_put grant_id now grant g h =
      with_run_found run_id _ r s unpoisoned found
      ∙ ground (arith, put_grant_found grant_id grant s g)

  refuse_lem :
      (grant_id : CapabilityGrantId) (now : ℤ) (grant : CapabilityGrant)
      → find (λ g. g.id == grant_id) s.grants ≡ some grant
      → is_refused grant now ≡ true
      → MemoryRepository.consume_dispatch_budget
          (record { run_id = run_id; grant_id = grant_id; now_unix_ms = now })
          r
        ≡ (r, err grant_denied)
  refuse_lem grant_id now grant g h =
      let refused : MemoryRepository.consume_dispatch_budget
            (record { run_id = run_id; grant_id = grant_id; now_unix_ms = now }) r
          ≡ (put run_id s r, err grant_denied) =
        refuse_put grant_id now grant g h in
      refused
      ∙ ap (λ m. (record r { inner = m }, err grant_denied)) (insert-get r.inner run_id s found)

  -- Over the store after the budget is spent.
  mark_lem :
      (event_id : RunEventId) (effect_id : EffectRecordId) (now : ℤ) (updated : EffectRecord)
      → updated.run_id ≡ run_id
      → MemoryRepository.persist_effect_dispatched updated
          (next_event event_id run_id s (RunEventKind.effect_dispatched effect_id) now)
          r
        ≡ (
          put run_id
              (put_effect updated (
                with_event s
                  (next_event event_id run_id s (RunEventKind.effect_dispatched effect_id) now)))
              r,
          ok tt,
        )
  unfolding MemoryRepository.persist_effect_dispatched
  mark_lem event_id effect_id now updated owner = simp (owner) (
      accepted r run_id s unpoisoned found event_id (RunEventKind.effect_dispatched effect_id) now
        (put_effect updated))

mark_dispatched-run_id :
    (effect : EffectRecord) (claimant : Text) (now : ℤ)
    → (mark_dispatched effect claimant now).0.run_id ≡ effect.run_id
unfolding mark_dispatched
mark_dispatched-run_id effect claimant now = ground arith

-- On a run of an unpoisoned store that has the grant, and the effect as one of its own,
-- `dispatch_effect` is refused without a change if the grant is revoked, expired or spent. Otherwise it
-- takes one dispatch from the grant, and only then asks the effect: if that is not claimed, or claimed
-- by another, the dispatch is lost and no event is written; else the effect is dispatched, with one
-- event of the next number.
pub dispatch_effect_lem :
    (r : MemoryRunRepository) (run_id : HarnessRunId) (s : ReconstructedRun) (event_id : RunEventId)
    (effect_id : EffectRecordId) (grant_id : CapabilityGrantId) (claimant : Text) (now : ℤ)
    (grant : CapabilityGrant) (effect : EffectRecord)
    → r.poisoned ≡ false
    → get run_id r.inner ≡ some s
    → find (λ g. g.id == grant_id) s.grants ≡ some grant
    → find (λ e. e.id == effect_id) s.effects ≡ some effect
    → effect.run_id ≡ run_id
    → let spent = put run_id (spend grant s) r in
      let event = next_event event_id run_id s (RunEventKind.effect_dispatched effect_id) now in
      let (updated, result) = mark_dispatched effect claimant now in
      Effects.dispatch_effect memory event_id run_id effect_id grant_id claimant now r ≡ (
        if is_refused grant now
        then (r, err (EffectUseCaseError.repository grant_denied))
        else elim result [
          | ok _ ↦
              (put run_id (put_effect updated (with_event (spend grant s) event)) spent, ok updated)
          | err e ↦ (spent, err (EffectUseCaseError.effect e))
        ])
unfolding Effects.dispatch_effect
dispatch_effect_lem r run_id s event_id effect_id grant_id claimant now grant effect p f g e owner =
    elim (Bool-cases (is_refused grant now)) [
      | inl h ↦ ground (arith, refuse_lem r run_id s p f grant_id now grant g h)
      | inr h ↦ ground (
        arith,
        consume_lem r run_id s p f grant_id now grant g h,
        reconstruct_run_found (put run_id (spend grant s) r) run_id (spend grant s) p
            (get-insert r.inner run_id (spend grant s)),
        mark_lem (put run_id (spend grant s) r) run_id (spend grant s) p
            (get-insert r.inner run_id (spend grant s)) event_id effect_id now
            (mark_dispatched effect claimant now).0
            (mark_dispatched-run_id effect claimant now ∙ owner),
      )
    ]
