-- ===== src/AgentUseCases/Delta.antt =====
-- The text that streams in: crates/tule-core/src/agent_use_cases.rs, `apply_agent_delta` and
-- `checkpoint_agent_turn`.
use tule.Base.{
  Bool, true, false, not, ◌&&◌, Option, none, some, Result, ok, err, Text, bytes, map_err, ok_or,
  length, ◌==◌, nat_eq,
}
use tule.Base.Actions.{Action, ◌>>=◌, ◌>>◌, pure, fail_if, lift, on_error}
use tule.AgentIds.{AgentTurnId, AgentEventId}
use tule.Clock.{SystemTime}
use tule.Agent.State.{
  is_terminal, streaming, pending, turn_state_eq, AgentTurnState-discrete, turn_streaming,
  IllegalAgentTurnTransition,
}
use tule.Agent.State
use tule.Agent.Turn.{AgentTurn, append_agent_text, mark_streaming}
use tule.Agent.Errors.{AgentOutputLimitError}
use tule.Agent.Event.{AgentEvent, new_event}
use tule.AgentRepository.{AgentRepository}
use tule.AgentUseCases.Errors.{ApplyAgentDeltaError}
use tule.AgentUseCases.Finish.{FinishStamps, fail_turn}

-- The identifier of the event of the first delta, and its reading of the clock; and what the end of the
-- turn needs, for a delta above the limit.
pub record DeltaStamps : Type 0 where
  pub event_id : AgentEventId
  pub event_clock : SystemTime
  pub finish : FinishStamps

abbrev pub marked :
    {E : Type 0}
    → AgentTurn × Result IllegalAgentTurnTransition (Unit {0})
    → Result (ApplyAgentDeltaError E) AgentTurn
marked (turn, ok _) = ok turn
marked (turn, err e) = err (ApplyAgentDeltaError.illegal_transition e)

abbrev pub is_first_delta : AgentTurn → Text → Bool
is_first_delta turn delta = (turn.state == pending) && not (length delta == 0)

module _ (R : AgentRepository) where
  abbrev DeltaError : Type 0
  DeltaError = ApplyAgentDeltaError R.Error

  -- The turn and the event of the first delta; later deltas leave the state as it is.
  unfoldable pub start_streaming :
      DeltaStamps → Bool → AgentTurn → Action R.Store DeltaError (AgentTurn × Option AgentEvent)
  start_streaming stamps false turn = pure (turn, none)
  start_streaming stamps true turn = do
    started ← lift (marked (mark_streaming turn))
    sequence ← on_error ApplyAgentDeltaError.repository (R.next_event_sequence started.session_id)
    event ← lift (
        map_err ApplyAgentDeltaError.time (
          new_event stamps.event_id stamps.event_clock started.session_id (some started.id) sequence
            turn_streaming))
    pure (started, some event)

  unfoldable pub store_delta : DeltaStamps → Bool → AgentTurn → Action R.Store DeltaError AgentTurn
  store_delta stamps first_delta turn = do
    started ← start_streaming stamps first_delta turn
    on_error ApplyAgentDeltaError.repository (R.checkpoint_turn started.0 started.1)
    pure started.0

  -- A delta above the limit fails the turn, and is not in its text.
  unfoldable pub after_append :
      DeltaStamps
      → Bool
      → AgentTurn × Result AgentOutputLimitError (Unit {0})
      → Action R.Store DeltaError AgentTurn
  after_append stamps first_delta (turn, ok _) = store_delta stamps first_delta turn
  after_append stamps first_delta (turn, err _) = do
    failed ←
        on_error ApplyAgentDeltaError.finish (fail_turn R stamps.finish turn (bytes "output_limit"))
    lift (err (ApplyAgentDeltaError.output_limit failed))

  unfoldable pub apply_agent_delta :
      DeltaStamps → AgentTurnId → Text → Action R.Store DeltaError AgentTurn
  apply_agent_delta stamps turn_id delta = do
    found ← on_error ApplyAgentDeltaError.repository (R.find_turn turn_id)
    turn ← lift (ok_or found ApplyAgentDeltaError.turn_not_found)
    fail_if (is_terminal turn.state)
        (ApplyAgentDeltaError.illegal_transition (State.illegal_transition turn.state streaming))
    after_append stamps (is_first_delta turn delta) (append_agent_text delta turn)

  unfoldable pub checkpoint_agent_turn : AgentTurn → Action R.Store DeltaError (Unit {0})
  checkpoint_agent_turn turn =
      on_error ApplyAgentDeltaError.repository (R.checkpoint_turn turn none)
