-- ===== src/Effect/Reconciliation.antt =====
-- What the certainty of an effect rests on: crates/tule-core/src/run.rs, `EffectRecord::settle` and
-- `EffectRecord::reconcile`.
use tule.Base.{◌≡◌, refl, ◌⊎◌, Bool, true, false, ◌||◌, some, List, [], ◌∷◌, ok, ℤ, arith}
use tule.Effect.Phase.{prepared, settled}
use tule.Effect.OperationResult.{success}
use tule.Effect.Certainty.{
  ReconciliationProbe, confirmed_committed, confirmed_no_effect, unknown_or_partial,
  matches_preimage, matches_postimage, matches_neither,
}
use tule.Effect.{EffectRecord, is_unknown, claim, mark_dispatched, settle, reconcile}
use tule.Effect.Journal.{Call, reconciles, call, calls, IsConsistent}

-- A reconciliation that found the bytes of the preimage.
abbrev finds_preimage : Call → Bool
finds_preimage (reconciles matches_preimage _) = true
finds_preimage _ = false

abbrev pub found_preimage : Bool → List Call → Bool
found_preimage b [] = b
found_preimage b (c ∷ cs) = found_preimage (b || finds_preimage c) cs

abbrev HasEvidence : EffectRecord → Bool → Type 0
HasEvidence e b =
    e.certainty ≡ some confirmed_no_effect → (e.operation_result ≡ some success) ⊎ (b ≡ true)

call-HasEvidence :
    (e : EffectRecord) (b : Bool) (c : Call)
    → HasEvidence e b
    → HasEvidence (call e c).0 (b || finds_preimage c)
unfolding call claim mark_dispatched settle reconcile
call-HasEvidence e b c v h = ground arith

calls-HasEvidence :
    (e : EffectRecord) (b : Bool) (cs : List Call)
    → HasEvidence e b
    → HasEvidence (calls e cs) (found_preimage b cs)
unfolding calls
calls-HasEvidence e b [] v = v
calls-HasEvidence e b (c ∷ cs) v =
    calls-HasEvidence (call e c).0 (b || finds_preimage c) cs (call-HasEvidence e b c v)

-- A prepared effect is held to have had no effect only if its operation reported success, or a
-- reconciliation found the preimage in place: an error or a cancellation alone is never taken for it.
pub no_effect_needs_evidence :
    (e : EffectRecord) (cs : List Call)
    → IsConsistent e
    → e.phase ≡ prepared
    → (calls e cs).certainty ≡ some confirmed_no_effect
    → ((calls e cs).operation_result ≡ some success) ⊎ (found_preimage false cs ≡ true)
no_effect_needs_evidence e cs v p h = calls-HasEvidence e false cs (λ x. ground arith) h

call_settled :
    (e : EffectRecord) (c : Call)
    → e.phase ≡ settled
    → is_unknown e.certainty ≡ false
    → (call e c).0 ≡ e
unfolding call claim mark_dispatched settle reconcile
call_settled e c p k = ground arith

-- A settlement whose certainty is known is final: no call changes the record any more.
pub settled_final :
    (e : EffectRecord) (cs : List Call)
    → e.phase ≡ settled
    → is_unknown e.certainty ≡ false
    → calls e cs ≡ e
unfolding calls
settled_final e [] p k = refl
settled_final e (c ∷ cs) p k = let same = call_settled e c p k in rw same (settled_final e cs p k)

-- An unknown settlement takes the certainty that the probe of the file gives: no effect if it found the
-- preimage, committed if it found the postimage, and otherwise it stays unknown and can be probed again.
pub reconcile_unknown :
    (e : EffectRecord) (p : ReconciliationProbe) (t : ℤ)
    → e.phase ≡ settled
    → e.certainty ≡ some unknown_or_partial
    → ((reconcile e p t).1 ≡ ok tt)
      × ((reconcile e p t).0.phase ≡ settled)
      × (((reconcile e p t).0.certainty ≡ some confirmed_no_effect) × (p ≡ matches_preimage)
          ⊎ ((reconcile e p t).0.certainty ≡ some confirmed_committed) × (p ≡ matches_postimage)
          ⊎ ((reconcile e p t).0.certainty ≡ some unknown_or_partial) × (p ≡ matches_neither))
unfolding reconcile
reconcile_unknown e p t s u = ground arith
