-- ===== src/Lifecycle.antt =====
-- The lifecycle of a run, derived from its events and its effect journal:
-- crates/tule-core/src/run.rs, `derive_lifecycle` and `is_quiescent_for_checkpoint`.
pub mod Blocking
pub mod Folding
use mathlib.Core.List.{foldl}
use tule.Base.{
  Bool, true, false, not, ◌&&◌, ◌||◌, Option, none, some, List, Eq, Text, bytes, any, if◌then◌else◌,
}
use tule.Event.{RunEventKind, RunEvent}
use tule.Effect.{EffectRecord, is_unknown, is_some}
use tule.Effect.Phase.{EffectJournalPhase, prepared, claimed, dispatched, settled}
use tule.Effect.Certainty.{EffectCertainty, blocks_run}

pub data HarnessRunLifecycle : Type 0 where
  created awaiting_approval approved executing : HarnessRunLifecycle
  blocked_reconciliation_required checkpointed validated completed : HarnessRunLifecycle
  paused cancelled abandoned : HarnessRunLifecycle

abbrev pub as_str : HarnessRunLifecycle → Text
as_str created = bytes "created"
as_str awaiting_approval = bytes "awaiting_approval"
as_str approved = bytes "approved"
as_str executing = bytes "executing"
as_str blocked_reconciliation_required = bytes "blocked_reconciliation_required"
as_str checkpointed = bytes "checkpointed"
as_str validated = bytes "validated"
as_str completed = bytes "completed"
as_str paused = bytes "paused"
as_str cancelled = bytes "cancelled"
as_str abandoned = bytes "abandoned"

abbrev pub is_terminal : HarnessRunLifecycle → Bool
is_terminal completed = true
is_terminal cancelled = true
is_terminal abandoned = true
is_terminal _ = false

-- A claimed or dispatched effect.
abbrev pub is_in_flight : EffectJournalPhase → Bool
is_in_flight prepared = false
is_in_flight claimed = true
is_in_flight dispatched = true
is_in_flight settled = false

abbrev pub is_unknown_effect : EffectRecord → Bool
is_unknown_effect effect = is_unknown effect.certainty

-- The two tests on the effects: by a missing certainty, and by a missing settlement time.
abbrev uncertain : EffectRecord → Bool
uncertain effect =
    is_unknown_effect effect || (is_in_flight effect.phase && not (is_some effect.certainty))

abbrev unsettled : EffectRecord → Bool
unsettled effect =
    is_unknown_effect effect
    || (is_in_flight effect.phase && not (is_some effect.settled_at_unix_ms))

abbrev is_abandoned : RunEvent → Bool
is_abandoned event = elim event.kind [ RunEventKind.abandoned ↦ true | _ ↦ false ]

abbrev is_cancelled : RunEvent → Bool
is_cancelled event = elim event.kind [ RunEventKind.cancelled ↦ true | _ ↦ false ]

-- What a step of an effect, or a grant, makes of the lifecycle.
abbrev advance : HarnessRunLifecycle → HarnessRunLifecycle
advance created = executing
advance awaiting_approval = executing
advance approved = executing
advance executing = executing
advance lifecycle = lifecycle

-- The body of the loop over the events.
unfoldable pub next_lifecycle : HarnessRunLifecycle → RunEventKind → HarnessRunLifecycle
next_lifecycle l RunEventKind.run_created = created
next_lifecycle l (RunEventKind.pair_frozen _ _ _) = awaiting_approval
next_lifecycle l (RunEventKind.approved _) = approved
next_lifecycle l (RunEventKind.effect_prepared _) = advance l
next_lifecycle l (RunEventKind.effect_claimed _ _) = advance l
next_lifecycle l (RunEventKind.effect_dispatched _) = advance l
next_lifecycle l (RunEventKind.grant_issued _) = advance l
next_lifecycle l (RunEventKind.effect_settled _ certainty) =
    if blocks_run certainty then blocked_reconciliation_required else executing
next_lifecycle l (RunEventKind.checkpointed _) = checkpointed
next_lifecycle l (RunEventKind.validated _) = validated
next_lifecycle l RunEventKind.completed = completed
next_lifecycle l RunEventKind.paused = paused
next_lifecycle l RunEventKind.cancelled = cancelled
next_lifecycle l RunEventKind.abandoned = abandoned
next_lifecycle l (RunEventKind.denied _) = l
next_lifecycle l (RunEventKind.grant_revoked _) = l
next_lifecycle l (RunEventKind.lease_acquired _) = l
next_lifecycle l (RunEventKind.lease_released _) = l
next_lifecycle l (RunEventKind.lease_takeover _) = l
next_lifecycle l RunEventKind.resumed = l

unfoldable pub fold_events : HarnessRunLifecycle → List RunEvent → HarnessRunLifecycle
fold_events = foldl (λ l event. next_lifecycle l event.kind)

-- The loop, and the test on the effects that follows it.
unfoldable pub folded_lifecycle : List RunEvent → List EffectRecord → HarnessRunLifecycle
folded_lifecycle events effects =
    let lifecycle = fold_events created events in
    if any is_unknown_effect effects && not (is_terminal lifecycle)
    then blocked_reconciliation_required
    else lifecycle

unfoldable pub derive_lifecycle : List RunEvent → List EffectRecord → HarnessRunLifecycle
derive_lifecycle events effects =
    if any uncertain effects
    then if any unsettled effects
      then if any is_abandoned events
        then abandoned
        else if any is_cancelled events
        then cancelled
        else blocked_reconciliation_required
      else folded_lifecycle events effects
    else folded_lifecycle events effects

unfoldable pub is_quiescent_for_checkpoint : List EffectRecord → Bool
is_quiescent_for_checkpoint effects = not (any (λ e. is_in_flight e.phase) effects)
