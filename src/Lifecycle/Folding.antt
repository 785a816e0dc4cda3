-- ===== src/Lifecycle/Folding.antt =====
-- What the events alone make of the lifecycle (crates/tule-core/src/run.rs, `derive_lifecycle`).
use tule.Base.{◌≡◌, refl, Bool, true, false, List, [], ◌∷◌, ◌++◌, any, All, arith}
use tule.Ids.{EffectRecordId}
use tule.Event.{RunEventKind, RunEvent}
use tule.Effect.{EffectRecord}
use tule.Effect.Certainty.{EffectCertainty, blocks_run}
use tule.Effect.Journal.{IsConsistent}
use tule.Lifecycle.{
  HarnessRunLifecycle, created, executing, is_terminal, next_lifecycle, fold_events,
  derive_lifecycle,
}
use tule.Lifecycle.Blocking.{is_open, derive_lifecycle_lem}

pub fold_events-append :
    (l : HarnessRunLifecycle) (es : List RunEvent) (e : RunEvent)
    → fold_events l (es ++ e ∷ []) ≡ next_lifecycle (fold_events l es) e.kind
unfolding fold_events
fold_events-append l [] e = refl
fold_events-append l (x ∷ es) e = fold_events-append (next_lifecycle l x.kind) es e

-- The kinds that set no lifecycle of their own.
abbrev pub is_passing : RunEventKind → Bool
is_passing (RunEventKind.effect_prepared _) = true
is_passing (RunEventKind.effect_claimed _ _) = true
is_passing (RunEventKind.effect_dispatched _) = true
is_passing (RunEventKind.grant_issued _) = true
is_passing (RunEventKind.denied _) = true
is_passing (RunEventKind.grant_revoked _) = true
is_passing (RunEventKind.lease_acquired _) = true
is_passing (RunEventKind.lease_released _) = true
is_passing (RunEventKind.lease_takeover _) = true
is_passing RunEventKind.resumed = true
is_passing _ = false

next-terminal :
    (l : HarnessRunLifecycle) (k : RunEventKind)
    → is_terminal l ≡ true
    → is_passing k ≡ true
    → next_lifecycle l k ≡ l
unfolding next_lifecycle
next-terminal l k t p = ground arith

-- A terminal run stays as it ended through grants, denials, leases, and the preparation, claim and
-- dispatch of effects.
pub fold_events-terminal :
    (l : HarnessRunLifecycle) (es : List RunEvent)
    → is_terminal l ≡ true
    → All (λ e. is_passing e.kind ≡ true) es
    → fold_events l es ≡ l
unfolding fold_events
fold_events-terminal l [] t p = refl
fold_events-terminal l (e ∷ es) t p =
    let same = next-terminal l e.kind t p.0 in rw same (fold_events-terminal l es t p.1)

-- A settlement of known certainty reopens a run: after it, with a journal whose records fit their
-- phases and no effect left open, the lifecycle is executing whatever the events before it were, a
-- completion, a cancellation or an abandonment included.
pub settled_reopens :
    (es : List RunEvent) (e : RunEvent) (effects : List EffectRecord) (id : EffectRecordId)
    (certainty : EffectCertainty)
    → All IsConsistent effects
    → any is_open effects ≡ false
    → blocks_run certainty ≡ false
    → e.kind ≡ RunEventKind.effect_settled id certainty
    → derive_lifecycle (es ++ e ∷ []) effects ≡ executing
unfolding next_lifecycle
settled_reopens es e effects id certainty v o b k =
    rw (derive_lifecycle_lem (es ++ e ∷ []) effects v, o, fold_events-append created es e, k, b)
