-- ===== src/Examples/Lifecycle.antt =====
-- The derived lifecycle at concrete inputs.
use tule.Base.{◌≡◌, refl, [], ◌∷◌, arith}
use tule.Event.{RunEventKind}
use tule.Lifecycle.{executing, blocked_reconciliation_required, derive_lifecycle}
use tule.Lifecycle.Blocking.{derive_lifecycle_lem}
use tule.Lifecycle.Folding.{settled_reopens}
use tule.Effect.Certainty.{confirmed_committed}
use tule.Effect.Journal.{IsConsistent}
use tule.Examples.Data.{event, dispatched_effect, settled_effect}

dispatched-IsConsistent : IsConsistent dispatched_effect
dispatched-IsConsistent = ground arith

settled-IsConsistent : IsConsistent settled_effect
settled-IsConsistent = ground arith

-- An effect in flight blocks the run.
derive_lifecycle_lem_example :
    derive_lifecycle (event 1 RunEventKind.run_created ∷ []) (dispatched_effect ∷ [])
    ≡ blocked_reconciliation_required
derive_lifecycle_lem_example =
    derive_lifecycle_lem (event 1 RunEventKind.run_created ∷ []) (dispatched_effect ∷ [])
      (dispatched-IsConsistent, tt)

settled_reopens_example :
    derive_lifecycle
      (event 1 RunEventKind.completed
        ∷ event 2 (RunEventKind.effect_settled 7 confirmed_committed)
        ∷ [])
      (settled_effect ∷ [])
    ≡ executing
settled_reopens_example =
    settled_reopens (event 1 RunEventKind.completed ∷ [])
      (event 2 (RunEventKind.effect_settled 7 confirmed_committed)) (settled_effect ∷ []) 7
      confirmed_committed (settled-IsConsistent, tt) refl refl refl
