-- ===== src/AgentTables/Ending.antt =====
-- What the use cases that end turns keep on the store in SQLite: crates/tule-core/src/agent_use_cases.rs,
-- `complete_agent_turn`, `cancel_agent_turn`, `fail_agent_turn`, `interrupt_inflight_turns` and
-- `set_session_project`.
use tule.Base.{
  ℕ, ◌+◌, ◌%◌, ◌^◌, ◌≡◌, ap, ◌∙◌, true, Option, none, some, List, [], ◌∷◌, Text, map, map_err,
  ok_or,
}
use tule.Base.Keeping.{
  Keeps, Any, Keeps-bind, Keeps-then, Keeps-pure, Keeps-lift, Keeps-on_error, result-Any,
}
use tule.Ids.{UuidCrate}
use tule.Canonical.{Digest}
use tule.AgentIds.{AgentTurnId, AgentSessionId, AgentEventId, ProjectId}
use tule.Clock.{SystemTime}
use tule.Agent.State.{
  is_terminal, for_terminal_state, project_association_changed, turn_interrupted,
}
use tule.Agent.Session.{touch_updated_at, set_project_id}
use tule.Agent.Turn.{AgentTurn, complete, cancel, fail, interrupt}
use tule.Agent.Event.{new_event}
use tule.AgentTables.{
  sqlite, ◌then_do◌, finish_turn_with_terminal_event, finish_turns_with_terminal_events,
}
use tule.AgentTables.Rows.{TurnRow, EventRow}
use tule.AgentTables.SessionStatements.{update_session}
use tule.AgentTables.Statements.{insert_event}
use tule.AgentTables.Queries.{find_session_row, find_turn_row, next_number, list_inflight}
use tule.AgentTables.Closure.{Closed, Leads, is_terminal_kind, ok-OkIs, bind-OkIs_value}
use tule.AgentTables.Kept.{
  On, Leads-then_do, Leads-update_session, Leads-insert_event, Leads-finish,
}
use tule.AgentTables.Executing.{InStore, Keeps-execute, Keeps-query}
use tule.AgentTables.Values.{
  map_err-OkIs, EventIs, new_event-EventIs, for_terminal_state-OkIs, IsOver, complete-IsOver,
  cancel-IsOver, fail-IsOver, interrupt-IsOver,
}
use tule.AgentUseCases.Errors.{FinishAgentTurnError, SetSessionProjectError}
use tule.AgentUseCases.Finish.{
  FinishStamps, finished, changed, require_turn, persist_terminal, complete_agent_turn,
  cancel_agent_turn, fail_turn, fail_agent_turn, set_session_project,
}
use tule.AgentUseCases.Interrupt.{
  Update, NextSequences, get_next, take_sequence, collect_updates, interrupt_inflight_turns,
}

-- An update that ends a turn.
abbrev pub Ends : Update → Type 0
Ends (session, turn, event) =
    (is_terminal turn.state ≡ true)
    × (is_terminal_kind event.kind ≡ true)
    × (event.turn_id ≡ some turn.id)

abbrev pub AllEnd : List Update → Type 0
AllEnd [] = Unit {0}
AllEnd (update ∷ updates) = Ends update × AllEnd updates

module _ {Inv : List TurnRow → List EventRow → Type 0} (closed : Closed Inv) (u : UuidCrate)
    (digest : Digest) where
  pub persist_terminal-Keeps :
      (stamps : FinishStamps) (turn : AgentTurn)
      → IsOver turn
      → Keeps (InStore (On Inv)) Any (persist_terminal (sqlite u digest) stamps turn)
  unfolding persist_terminal
  persist_terminal-Keeps stamps turn over =
      Keeps-bind
        (Keeps-on_error FinishAgentTurnError.repository
          (Keeps-query (On Inv) (find_session_row u turn.session_id)))
        (λ found _.
          Keeps-bind
            (Keeps-lift (ok_or found FinishAgentTurnError.session_not_found) (result-Any _))
            (λ session _.
              Keeps-bind
                (Keeps-lift
                  (map_err FinishAgentTurnError.time
                    (touch_updated_at stamps.session_clock session))
                  (result-Any _))
                (λ touched _.
                  Keeps-bind {P = λ kind. is_terminal_kind kind ≡ true}
                    (Keeps-lift
                      (map_err FinishAgentTurnError.illegal_transition
                        (for_terminal_state turn.state))
                      (map_err-OkIs _ _ _ (for_terminal_state-OkIs turn.state)))
                    (λ kind k.
                      Keeps-bind
                        (Keeps-on_error FinishAgentTurnError.repository
                          (Keeps-query (On Inv) (next_number u turn.session_id)))
                        (λ sequence _.
                          Keeps-bind {P = EventIs kind (some turn.id)}
                            (Keeps-lift
                              (map_err FinishAgentTurnError.time (
                                new_event stamps.event_id stamps.event_clock turn.session_id
                                  (some turn.id) sequence kind))
                              (map_err-OkIs _ _ _ (
                                new_event-EventIs stamps.event_id stamps.event_clock turn.session_id
                                  (some turn.id) sequence kind)))
                            (λ event e.
                              Keeps-then
                                (Keeps-on_error FinishAgentTurnError.repository (
                                  Keeps-execute (On Inv)
                                    (finish_turn_with_terminal_event u touched turn event)
                                    (Leads-finish closed u touched turn event over
                                      (ap is_terminal_kind e.0 ∙ k) e.1)))
                                (Keeps-pure turn tt)))))))

  require_turn-Keeps :
      (id : AgentTurnId) → Keeps (InStore (On Inv)) Any (require_turn (sqlite u digest) id)
  unfolding require_turn
  require_turn-Keeps id =
      Keeps-bind
        (Keeps-on_error FinishAgentTurnError.repository (Keeps-query (On Inv) (find_turn_row u id)))
        (λ found _. Keeps-lift (ok_or found FinishAgentTurnError.turn_not_found) (result-Any _))

  pub complete_agent_turn-Keeps :
      (stamps : FinishStamps) (id : AgentTurnId) (response : Option Text) (input output : Option ℕ)
      → Keeps
          (InStore (On Inv))
          Any
          (complete_agent_turn (sqlite u digest) stamps id response input output)
  unfolding complete_agent_turn
  complete_agent_turn-Keeps stamps id response input output =
      Keeps-bind (require_turn-Keeps id) (λ turn _.
        Keeps-bind {P = IsOver}
          (Keeps-lift (finished (complete stamps.turn_clock response input output turn))
            (complete-IsOver _ stamps.turn_clock turn response input output))
          (λ ended over. persist_terminal-Keeps stamps ended over))

  pub cancel_agent_turn-Keeps :
      (stamps : FinishStamps) (id : AgentTurnId)
      → Keeps (InStore (On Inv)) Any (cancel_agent_turn (sqlite u digest) stamps id)
  unfolding cancel_agent_turn
  cancel_agent_turn-Keeps stamps id = Keeps-bind (require_turn-Keeps id) (λ turn _.
      Keeps-bind {P = IsOver}
        (Keeps-lift (finished (cancel stamps.turn_clock turn))
          (cancel-IsOver _ stamps.turn_clock turn))
        (λ ended over. persist_terminal-Keeps stamps ended over))

  pub fail_turn-Keeps :
      (stamps : FinishStamps) (turn : AgentTurn) (code : Text)
      → Keeps (InStore (On Inv)) Any (fail_turn (sqlite u digest) stamps turn code)
  unfolding fail_turn
  fail_turn-Keeps stamps turn code =
      Keeps-bind {P = IsOver}
        (Keeps-lift (finished (fail stamps.turn_clock code turn))
          (fail-IsOver _ stamps.turn_clock turn code))
        (λ ended over. persist_terminal-Keeps stamps ended over)

  pub fail_agent_turn-Keeps :
      (stamps : FinishStamps) (id : AgentTurnId) (code : Text)
      → Keeps (InStore (On Inv)) Any (fail_agent_turn (sqlite u digest) stamps id code)
  unfolding fail_agent_turn
  fail_agent_turn-Keeps stamps id code =
      Keeps-bind (require_turn-Keeps id) (λ turn _. fail_turn-Keeps stamps turn code)

  pub set_session_project-Keeps :
      (event_id : AgentEventId) (session_clock event_clock : SystemTime) (id : AgentSessionId)
      (project_id : Option ProjectId)
      → Keeps
          (InStore (On Inv))
          Any
          (set_session_project (sqlite u digest) event_id session_clock event_clock id project_id)
  unfolding set_session_project is_terminal_kind
  set_session_project-Keeps event_id session_clock event_clock id project_id =
      Keeps-bind
        (Keeps-on_error SetSessionProjectError.repository
          (Keeps-query (On Inv) (find_session_row u id)))
        (λ found _.
          Keeps-bind
            (Keeps-lift (ok_or found SetSessionProjectError.session_not_found) (result-Any _))
            (λ session _.
              Keeps-bind
                (Keeps-lift (changed (set_project_id session_clock project_id session))
                  (result-Any _))
                (λ updated _.
                  Keeps-bind
                    (Keeps-on_error SetSessionProjectError.repository
                      (Keeps-query (On Inv) (next_number u id)))
                    (λ sequence _.
                      Keeps-bind {P = EventIs project_association_changed none}
                        (Keeps-lift
                          (map_err SetSessionProjectError.time (
                            new_event event_id event_clock id none sequence
                              project_association_changed))
                          (map_err-OkIs _ _ _ (
                            new_event-EventIs event_id event_clock id none sequence
                              project_association_changed)))
                        (λ event e.
                          Keeps-then
                            (Keeps-on_error SetSessionProjectError.repository (
                              Keeps-execute (On Inv)
                                (update_session u updated then_do insert_event u event)
                                (Leads-then_do (On Inv) (On Inv) (On Inv) _ _
                                  (Leads-update_session Inv u updated)
                                  (Leads-insert_event closed u event (ap is_terminal_kind e.0)))))
                            (Keeps-pure updated tt))))))

  take_sequence-Keeps :
      (id : AgentSessionId) (next_sequences : NextSequences) (known : Option ℕ)
      → Keeps (InStore (On Inv)) Any (take_sequence (sqlite u digest) id next_sequences known)
  unfolding take_sequence
  take_sequence-Keeps id next_sequences (some next) = Keeps-pure _ tt
  take_sequence-Keeps id next_sequences none =
      Keeps-bind
        (Keeps-on_error FinishAgentTurnError.repository (Keeps-query (On Inv) (next_number u id)))
        (λ sequence _. Keeps-pure (sequence, (id, (sequence + 1) % 2 ^ 64) ∷ next_sequences) tt)

  collect_updates-Keeps :
      (stamps : ℕ → FinishStamps) (round : ℕ) (next_sequences : NextSequences)
      (inflight : List AgentTurn)
      → Keeps
          (InStore (On Inv))
          AllEnd
          (collect_updates (sqlite u digest) stamps round next_sequences inflight)
  unfolding collect_updates is_terminal_kind
  collect_updates-Keeps stamps round next_sequences [] = Keeps-pure [] tt
  collect_updates-Keeps stamps round next_sequences (turn ∷ inflight) =
      Keeps-bind {P = IsOver}
        (Keeps-lift (finished (interrupt (stamps round).turn_clock turn))
          (interrupt-IsOver _ (stamps round).turn_clock turn))
        (λ ended over.
          Keeps-bind
            (Keeps-on_error FinishAgentTurnError.repository
              (Keeps-query (On Inv) (find_session_row u ended.session_id)))
            (λ found _.
              Keeps-bind
                (Keeps-lift (ok_or found FinishAgentTurnError.session_not_found) (result-Any _))
                (λ session _.
                  Keeps-bind
                    (Keeps-lift
                      (map_err FinishAgentTurnError.time
                        (touch_updated_at (stamps round).session_clock session))
                      (result-Any _))
                    (λ touched _.
                      Keeps-bind
                        (take_sequence-Keeps ended.session_id next_sequences
                          (get_next ended.session_id next_sequences))
                        (λ numbered _.
                          Keeps-bind {P = EventIs turn_interrupted (some ended.id)}
                            (Keeps-lift
                              (map_err FinishAgentTurnError.time (
                                new_event (stamps round).event_id (stamps round).event_clock
                                  ended.session_id (some ended.id) numbered.0 turn_interrupted))
                              (map_err-OkIs _ _ _ (
                                new_event-EventIs (stamps round).event_id (stamps round).event_clock
                                  ended.session_id (some ended.id) numbered.0 turn_interrupted)))
                            (λ event e.
                              Keeps-bind
                                (collect_updates-Keeps stamps (round + 1) numbered.1 inflight)
                                (λ updates all.
                                  Keeps-pure ((touched, ended, event) ∷ updates)
                                    ((over, ap is_terminal_kind e.0, e.1), all))))))))

  Leads-finish_all :
      (updates : List Update)
      → AllEnd updates
      → Leads (On Inv) (On Inv) (finish_turns_with_terminal_events u updates)
  unfolding finish_turns_with_terminal_events
  Leads-finish_all [] all = record { leads = λ tables p. ok-OkIs (On Inv) tables p }
  Leads-finish_all ((session, turn, event) ∷ updates) (ends, all) = record {
    leads = λ tables p.
        bind-OkIs_value (On Inv) (On Inv) _ _
          ((Leads-finish closed u session turn event ends.0 ends.1 ends.2).leads tables p)
          (Leads-finish_all updates all).leads;
  }

  pub interrupt_inflight_turns-Keeps :
      (stamps : ℕ → FinishStamps)
      → Keeps (InStore (On Inv)) Any (interrupt_inflight_turns (sqlite u digest) stamps)
  unfolding interrupt_inflight_turns
  interrupt_inflight_turns-Keeps stamps =
      Keeps-bind
        (Keeps-on_error FinishAgentTurnError.repository (Keeps-query (On Inv) (list_inflight u)))
        (λ inflight _. Keeps-bind (collect_updates-Keeps stamps 0 [] inflight) (λ updates all.
          Keeps-then
            (Keeps-on_error FinishAgentTurnError.repository (
              Keeps-execute (On Inv) (finish_turns_with_terminal_events u updates)
                (Leads-finish_all updates all)))
            (Keeps-pure (map (λ (update : Update). update.1) updates) tt)))
