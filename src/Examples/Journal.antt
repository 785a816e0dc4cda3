-- ===== src/Examples/Journal.antt =====
-- The effect journal at concrete inputs.
use tule.Base.{
  ℕ, ◌+◌, ◌≤◌, ◌≡◌, ◌≢◌, ◌⊎◌, inl, inr, ◌↔◌, refl, none, some, [], ◌∷◌, ok, Text, bytes, pos, true,
  false, arith, Text-discrete, ℕ_discrete,
}
use tule.Effect.{claim, mark_dispatched, settle, reconcile}
use tule.Effect.Phase.{settled}
use tule.Effect.OperationResult
use tule.Effect.OperationResult.{success}
use tule.Effect.Certainty.{confirmed_committed, unknown_or_partial, matches_preimage}
use tule.Effect.Journal
use tule.Effect.Journal.{
  Call, claims, dispatches, settles, reconciles, calls, IsConsistent, dispatch_count,
  dispatch_at_most_once, claim_exclusive, claim_takes_through, calls-IsConsistent,
}
use tule.Effect.Reconciliation.{found_preimage, no_effect_needs_evidence}
use tule.Examples.Data.{owner, other, prepared_effect}

-- A claim, two dispatches and a settlement that reports an unknown outcome.
abbrev history : tule.Base.List Call
history =
    claims owner (pos 2)
    ∷ dispatches owner (pos 3)
    ∷ dispatches owner (pos 3)
    ∷ settles owner OperationResult.error unknown_or_partial (pos 4)
    ∷ reconciles matches_preimage (pos 5)
    ∷ []

prepared-IsConsistent : IsConsistent prepared_effect
prepared-IsConsistent = ground arith

dispatch_at_most_once_example : dispatch_count prepared_effect history + 0 ≤ 1
dispatch_at_most_once_example = dispatch_at_most_once prepared_effect history

claim_exclusive_example :
    let later = calls (claim prepared_effect owner (pos 2)).0 (dispatches owner (pos 3) ∷ []) in
    ((claim later other (pos 4)).1 ≢ ok tt)
    × ((mark_dispatched later other (pos 4)).1 ≢ ok tt)
    × ((settle later other success confirmed_committed (pos 4)).1 ≢ ok tt)
unfolding claim
claim_exclusive_example =
    claim_exclusive prepared_effect owner other (pos 2) (pos 4) (dispatches owner (pos 3) ∷ [])
      success confirmed_committed (ground arith) (λ e. ground arith)

claim_takes_through_example :
    let (e1, claim_result) = claim prepared_effect owner (pos 2) in
    let (e2, dispatch_result) = mark_dispatched e1 owner (pos 3) in
    let (e3, settle_result) = settle e2 owner success confirmed_committed (pos 4) in
    (claim_result ≡ ok tt)
    × (dispatch_result ≡ ok tt)
    × (settle_result ≡ ok tt)
    × (e3.phase ≡ settled)
    × (e3.operation_result ≡ some success)
    × (e3.certainty ≡ some confirmed_committed)
claim_takes_through_example =
    claim_takes_through prepared_effect owner (pos 2) (pos 3) (pos 4) success confirmed_committed
      prepared-IsConsistent refl (inl refl)

calls-IsConsistent_example : IsConsistent (calls prepared_effect history)
calls-IsConsistent_example = calls-IsConsistent prepared_effect history prepared-IsConsistent

no_effect_needs_evidence_example :
    ((calls prepared_effect history).operation_result ≡ some success)
    ⊎ (found_preimage false history ≡ true)
unfolding calls Journal.call claim mark_dispatched settle reconcile Text-discrete ℕ_discrete
no_effect_needs_evidence_example =
    no_effect_needs_evidence prepared_effect history prepared-IsConsistent refl (ground arith)
