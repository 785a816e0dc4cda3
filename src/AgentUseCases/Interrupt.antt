-- ===== src/AgentUseCases/Interrupt.antt =====
-- Recovery at startup: crates/tule-core/src/agent_use_cases.rs, `interrupt_inflight_turns`. The HashMap
-- of the next numbers is an association list.
use tule.Base.{
  ℕ, ◌+◌, ◌%◌, ◌^◌, Option, none, some, List, [], ◌∷◌, map, map_err, ok_or, ◌==◌, nat_eq,
  if◌then◌else◌,
}
use tule.Base.Actions.{Action, ◌>>=◌, ◌>>◌, pure, lift, on_error}
use tule.AgentIds.{AgentSessionId}
use tule.Agent.State.{turn_interrupted}
use tule.Agent.Session.{AgentSession, touch_updated_at}
use tule.Agent.Turn.{AgentTurn, interrupt}
use tule.Agent.Event.{AgentEvent, new_event}
use tule.AgentRepository.{AgentRepository}
use tule.AgentUseCases.Errors.{FinishAgentTurnError}
use tule.AgentUseCases.Finish.{FinishStamps, finished, FinishError}

abbrev pub Update : Type 0
Update = AgentSession × AgentTurn × AgentEvent

abbrev pub NextSequences : Type 0
NextSequences = List (AgentSessionId × ℕ)

unfoldable pub get_next : AgentSessionId → NextSequences → Option ℕ
get_next id [] = none
get_next id ((key, next) ∷ entries) = if key == id then some next else get_next id entries

module _ (R : AgentRepository) where
  -- The number of the next event of a session: the one kept from the turn before, or the repository's.
  unfoldable pub take_sequence :
      AgentSessionId → NextSequences → Option ℕ → Action R.Store (FinishError R) (ℕ × NextSequences)
  take_sequence session_id next_sequences (some next) =
      pure (next, (session_id, (next + 1) % 2 ^ 64) ∷ next_sequences)
  take_sequence session_id next_sequences none = do
    sequence ← on_error FinishAgentTurnError.repository (R.next_event_sequence session_id)
    pure (sequence, (session_id, (sequence + 1) % 2 ^ 64) ∷ next_sequences)

  -- The loop over the turns in flight. The stamps of each round are an argument.
  unfoldable pub collect_updates :
      (ℕ → FinishStamps)
      → ℕ
      → NextSequences
      → List AgentTurn
      → Action R.Store (FinishError R) (List Update)
  collect_updates stamps round next_sequences [] = pure []
  collect_updates stamps round next_sequences (turn ∷ inflight) = do
    ended ← lift (finished (interrupt (stamps round).turn_clock turn))
    found ← on_error FinishAgentTurnError.repository (R.find_session ended.session_id)
    session ← lift (ok_or found FinishAgentTurnError.session_not_found)
    touched ←
        lift (
          map_err FinishAgentTurnError.time (touch_updated_at (stamps round).session_clock session))
    numbered ←
        take_sequence ended.session_id next_sequences (get_next ended.session_id next_sequences)
    event ← lift (
        map_err FinishAgentTurnError.time (
          new_event (stamps round).event_id (stamps round).event_clock ended.session_id
            (some ended.id) numbered.0 turn_interrupted))
    updates ← collect_updates stamps (round + 1) numbered.1 inflight
    pure ((touched, ended, event) ∷ updates)

  unfoldable pub interrupt_inflight_turns :
      (ℕ → FinishStamps) → Action R.Store (FinishError R) (List AgentTurn)
  interrupt_inflight_turns stamps = do
    inflight ← on_error FinishAgentTurnError.repository R.list_inflight_turns
    updates ← collect_updates stamps 0 [] inflight
    on_error FinishAgentTurnError.repository (R.finish_turns_with_terminal_events updates)
    pure (map (λ (update : Update). update.1) updates)
