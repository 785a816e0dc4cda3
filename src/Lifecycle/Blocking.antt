-- ===== src/Lifecycle/Blocking.antt =====
-- Open effects and the lifecycle of their run: crates/tule-core/src/run.rs, `derive_lifecycle` and
-- `is_quiescent_for_checkpoint`.
use tule.Base.{
  ◌≡◌, ◌≢◌, refl, Bool, true, false, ◌||◌, List, [], ◌∷◌, any, All, if◌then◌else◌, arith, inl, inr,
  Bool-cases,
}
use tule.Event.{RunEvent}
use tule.Effect.{EffectRecord}
use tule.Effect.Journal.{IsConsistent}
use tule.Lifecycle.{
  HarnessRunLifecycle, created, blocked_reconciliation_required, cancelled, abandoned, is_in_flight,
  is_unknown_effect, uncertain, unsettled, is_abandoned, is_cancelled, fold_events,
  folded_lifecycle, derive_lifecycle, is_quiescent_for_checkpoint,
}

-- In flight, or settled with unknown certainty.
abbrev pub is_open : EffectRecord → Bool
is_open e = is_unknown_effect e || is_in_flight e.phase

uncertain_open : (e : EffectRecord) → IsConsistent e → uncertain e ≡ is_open e
uncertain_open e v = ground arith

unsettled_open : (e : EffectRecord) → IsConsistent e → unsettled e ≡ is_open e
unsettled_open e v = ground arith

any-uncertain : (es : List EffectRecord) → All IsConsistent es → any uncertain es ≡ any is_open es
any-uncertain [] v = refl
any-uncertain (e ∷ es) v = cc (uncertain_open e v.0, any-uncertain es v.1)

any-unsettled : (es : List EffectRecord) → All IsConsistent es → any unsettled es ≡ any is_open es
any-unsettled [] v = refl
any-unsettled (e ∷ es) v = cc (unsettled_open e v.0, any-unsettled es v.1)

any-unknown : (es : List EffectRecord) → any is_open es ≡ false → any is_unknown_effect es ≡ false
any-unknown [] h = refl
any-unknown (e ∷ es) h = ground (arith, any-unknown es)

-- The lifecycle that a run with an open effect is held in.
abbrev pub held : List RunEvent → HarnessRunLifecycle
held events =
    if any is_abandoned events
    then abandoned
    else if any is_cancelled events
    then cancelled
    else blocked_reconciliation_required

-- With a journal whose records fit their phases: while an effect is in flight or unknown the run is
-- blocked, unless an event abandons or cancels it; otherwise the events alone give the lifecycle.
pub derive_lifecycle_lem :
    (events : List RunEvent) (effects : List EffectRecord)
    → All IsConsistent effects
    → derive_lifecycle events effects
      ≡ (if any is_open effects then held events else fold_events created events)
unfolding derive_lifecycle folded_lifecycle
derive_lifecycle_lem events effects v =
    rw (any-uncertain effects v, any-unsettled effects v)
      (elim (Bool-cases (any is_open effects)) [
        | inl some_open ↦ rw some_open
        | inr none_open ↦ rw (none_open, any-unknown effects none_open)
      ])

open_of_in_flight :
    (es : List EffectRecord) → any is_open es ≡ false → any (λ e. is_in_flight e.phase) es ≡ false
open_of_in_flight [] h = refl
open_of_in_flight (e ∷ es) h = ground (arith, open_of_in_flight es)

-- With a journal whose records fit their phases, a run that is not blocked, cancelled or abandoned has
-- no effect in flight: the lifecycle never hides one from a checkpoint.
pub quiescent_of_lifecycle :
    (events : List RunEvent) (effects : List EffectRecord)
    → All IsConsistent effects
    → derive_lifecycle events effects ≢ blocked_reconciliation_required
    → derive_lifecycle events effects ≢ cancelled
    → derive_lifecycle events effects ≢ abandoned
    → is_quiescent_for_checkpoint effects ≡ true
unfolding is_quiescent_for_checkpoint
quiescent_of_lifecycle events effects v b c a =
    ground (arith, derive_lifecycle_lem events effects v, open_of_in_flight effects)
