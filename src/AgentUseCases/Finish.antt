-- ===== src/AgentUseCases/Finish.antt =====
-- The end of a turn: crates/tule-core/src/agent_use_cases.rs, `complete_agent_turn`,
-- `cancel_agent_turn`, `fail_agent_turn` and `persist_terminal`, and `set_session_project`.
use tule.Base.{ℕ, Option, none, some, Result, ok, err, Text, map_err, ok_or}
use tule.Base.Actions.{Action, ◌>>=◌, ◌>>◌, pure, lift, on_error}
use tule.AgentIds.{AgentSessionId, AgentTurnId, AgentEventId, ProjectId}
use tule.Clock.{SystemTime, ProjectTimeError}
use tule.Agent.State.{for_terminal_state, project_association_changed}
use tule.Agent.Session.{AgentSession, touch_updated_at, set_project_id}
use tule.Agent.Turn.{AgentTurn, complete, cancel, fail}
use tule.Agent.Errors.{AgentTurnFinishError}
use tule.Agent.Event.{new_event}
use tule.AgentRepository.{AgentRepository}
use tule.AgentUseCases.Errors.{FinishAgentTurnError, finish_error, SetSessionProjectError}

-- The identifier that the end of a turn generates, and its readings of the clock.
pub record FinishStamps : Type 0 where
  pub event_id : AgentEventId
  pub turn_clock : SystemTime
  pub session_clock : SystemTime
  pub event_clock : SystemTime

-- `turn.complete(…)?` and its like: the turn after the call.
abbrev pub finished :
    {E : Type 0}
    → AgentTurn × Result AgentTurnFinishError (Unit {0})
    → Result (FinishAgentTurnError E) AgentTurn
finished (turn, ok _) = ok turn
finished (turn, err e) = err (finish_error e)

abbrev pub changed :
    {E : Type 0}
    → AgentSession × Result ProjectTimeError (Unit {0})
    → Result (SetSessionProjectError E) AgentSession
changed (session, ok _) = ok session
changed (session, err e) = err (SetSessionProjectError.time e)

module _ (R : AgentRepository) where
  abbrev pub FinishError : Type 0
  FinishError = FinishAgentTurnError R.Error

  unfoldable pub require_turn : AgentTurnId → Action R.Store FinishError AgentTurn
  require_turn turn_id = do
    found ← on_error FinishAgentTurnError.repository (R.find_turn turn_id)
    lift (ok_or found FinishAgentTurnError.turn_not_found)

  unfoldable pub persist_terminal : FinishStamps → AgentTurn → Action R.Store FinishError AgentTurn
  persist_terminal stamps turn = do
    found ← on_error FinishAgentTurnError.repository (R.find_session turn.session_id)
    session ← lift (ok_or found FinishAgentTurnError.session_not_found)
    touched ←
        lift (map_err FinishAgentTurnError.time (touch_updated_at stamps.session_clock session))
    kind ← lift (map_err FinishAgentTurnError.illegal_transition (for_terminal_state turn.state))
    sequence ← on_error FinishAgentTurnError.repository (R.next_event_sequence turn.session_id)
    terminal_event ← lift (
        map_err FinishAgentTurnError.time (
          new_event stamps.event_id stamps.event_clock turn.session_id (some turn.id) sequence
            kind))
    on_error FinishAgentTurnError.repository
        (R.finish_turn_with_terminal_event touched turn terminal_event)
    pure turn

  unfoldable pub complete_agent_turn :
      FinishStamps
      → AgentTurnId
      → Option Text
      → Option ℕ
      → Option ℕ
      → Action R.Store FinishError AgentTurn
  complete_agent_turn stamps turn_id provider_response_id usage_input_tokens usage_output_tokens =
      do
        turn ← require_turn turn_id
        completed ← lift (
            finished (
              complete stamps.turn_clock provider_response_id usage_input_tokens usage_output_tokens
                turn))
        persist_terminal stamps completed

  unfoldable pub cancel_agent_turn :
      FinishStamps → AgentTurnId → Action R.Store FinishError AgentTurn
  cancel_agent_turn stamps turn_id = do
    turn ← require_turn turn_id
    cancelled ← lift (finished (cancel stamps.turn_clock turn))
    persist_terminal stamps cancelled

  unfoldable pub fail_turn : FinishStamps → AgentTurn → Text → Action R.Store FinishError AgentTurn
  fail_turn stamps turn error_code = do
    failed ← lift (finished (fail stamps.turn_clock error_code turn))
    persist_terminal stamps failed

  unfoldable pub fail_agent_turn :
      FinishStamps → AgentTurnId → Text → Action R.Store FinishError AgentTurn
  fail_agent_turn stamps turn_id error_code = do
    turn ← require_turn turn_id
    fail_turn stamps turn error_code

  unfoldable pub set_session_project :
      AgentEventId
      → SystemTime
      → SystemTime
      → AgentSessionId
      → Option ProjectId
      → Action R.Store (SetSessionProjectError R.Error) AgentSession
  set_session_project event_id session_clock event_clock session_id project_id = do
    found ← on_error SetSessionProjectError.repository (R.find_session session_id)
    session ← lift (ok_or found SetSessionProjectError.session_not_found)
    updated ← lift (changed (set_project_id session_clock project_id session))
    sequence ← on_error SetSessionProjectError.repository (R.next_event_sequence session_id)
    event ← lift (
        map_err SetSessionProjectError.time
          (new_event event_id event_clock session_id none sequence project_association_changed))
    on_error SetSessionProjectError.repository (R.update_session_with_event updated event)
    pure updated
