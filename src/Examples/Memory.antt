-- ===== src/Examples/Memory.antt =====
-- The repository in memory at concrete inputs.
use tule.Base.{◌≡◌, refl, [], err, pos, false, arith, ℕ_discrete}
use tule.Event.{RunEventKind}
use tule.Effect.{claim}
use tule.Repository.{ClaimEffectIntent}
use tule.Store.{
  MemoryRunRepository, get, insert, sequence_gap, next_sequence, with_run, append_checked,
}
use tule.MemoryRepository
use tule.MemoryRepository.{put_effect}
use tule.MemoryRepository.Calls.{Call, call, append}
use tule.MemoryRepository.Frame.{call_other}
use tule.MemoryRepository.Numbering.{AllNumbered, Reachable-AllNumbered, empty, creates, calls}
use tule.MemoryRepository.Rollback.{IsClaim, call_refused_undone, claim_effect_gap}
use tule.Examples.Data.{owner, event, new_run, store_of, run_with, prepared_effect}

-- An event with the next number, and one after a gap.
abbrev next : Call
next = append (event 2 RunEventKind.paused)

abbrev gap : Call
gap = append (event 3 RunEventKind.paused)

abbrev store : MemoryRunRepository
store = store_of (run_with prepared_effect)

call_other_example : get 2 (call next store).0.inner ≡ get 2 store.inner
call_other_example = call_other next store 2 (λ e. ground arith)

call_refused_undone_example : (call gap store).0 ≡ store
unfolding MemoryRepository.append_event append_checked with_run get next_sequence ℕ_discrete IsClaim
call_refused_undone_example = call_refused_undone gap store (sequence_gap 2 3) (λ e. e) refl

abbrev intent : ClaimEffectIntent
intent = record {
  run_id = 1;
  effect_id = 7;
  claimant = owner;
  now_unix_ms = pos 2;
  event = event 5 (RunEventKind.effect_claimed 7 owner);
}

claim_effect_gap_example : MemoryRepository.claim_effect intent store ≡ (
  record store {
    inner =
        insert 1
          (put_effect (claim prepared_effect owner (pos 2)).0 (run_with prepared_effect))
          store.inner;
  },
  err (sequence_gap 2 5),
)
unfolding get next_sequence ℕ_discrete
claim_effect_gap_example =
    claim_effect_gap intent store (run_with prepared_effect) prepared_effect refl refl refl refl
      refl refl (λ e. ground arith)

Reachable-AllNumbered_example :
    AllNumbered
      (call next
        (MemoryRepository.create_run new_run
          (event 1 RunEventKind.run_created)
          (record { poisoned = false; inner = [] })).0).0
Reachable-AllNumbered_example =
    Reachable-AllNumbered
      (call next
        (MemoryRepository.create_run new_run (event 1 RunEventKind.run_created)
          (record { poisoned = false; inner = [] })).0).0
      (calls next (creates new_run (event 1 RunEventKind.run_created) refl empty))
