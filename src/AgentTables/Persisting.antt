-- ===== src/AgentTables/Persisting.antt =====
-- The turn of a send is stored: crates/tule-core/src/agent_use_cases.rs, the end of `prepare_agent_send`,
-- over apps/desktop/src-tauri/src/sqlite/agents.rs.
use tule.Base.{◌≡◌, ap, true, false, Option, none, some, List, Text, map_err, nat_eq}
use tule.Base.Keeping.{Any, Keeps-lift, Keeps-on_error, result-Any}
use tule.Ids.{UuidCrate}
use tule.Canonical.{Digest}
use tule.Source.{Source}
use tule.Agent.State.{is_terminal, AgentEffort, turn_pending, session_created, turn_state_eq}
use tule.Agent.Session.{AgentSession, new_session, touch_updated_at}
use tule.Agent.Turn.{AgentTurn, new_pending}
use tule.Agent.Event.{AgentEvent, new_event}
use tule.Agent.Input.{derive_session_title}
use tule.Agent.Context.{AgentRequestContext}
use tule.AgentTables.{
  SqliteStore, sqlite, create_session_with_first_turn, append_turn_with_pending_event,
}
use tule.AgentTables.Rows.{TurnRow, EventRow}
use tule.AgentTables.Queries.{next_number, next_ordinal}
use tule.AgentTables.Closure.{Closed, Leads, is_terminal_kind}
use tule.AgentTables.Kept.{
  On, Idle, Leads-then_do, Leads-update_session, Leads-insert_session, Leads-insert_optional_source,
  Leads-insert_turn, Leads-insert_event,
}
use tule.AgentTables.Executing.{InStore, Keeps-query}
use tule.AgentTables.Going.{GoesTo, GoesTo-bind, GoesTo-write}
use tule.AgentTables.Values.{map_err-OkIs, EventIs, new_event-EventIs, GoesOn, new_pending-GoesOn}
use tule.AgentUseCases.Errors.{PrepareAgentSendError}
use tule.AgentUseCases.Send.{SendStamps, SendRequest, append_send, first_send, persist_send}

module _ {Inv : List TurnRow → List EventRow → Type 0} (closed : Closed Inv) (u : UuidCrate)
    (digest : Digest) where
  abbrev IsIdle : SqliteStore → Type 0
  IsIdle = InStore (On (Idle closed u))

  abbrev Holds : SqliteStore → Type 0
  Holds = InStore (On Inv)

  forget : (store : SqliteStore) → IsIdle store → Holds store
  forget store p = p.0

  Leads-first_turn :
      (session : AgentSession) (turn : AgentTurn) (created sent : AgentEvent)
      (source : Option Source)
      → is_terminal turn.state ≡ false
      → is_terminal_kind created.kind ≡ false
      → is_terminal_kind sent.kind ≡ false
      → Leads
          (On (Idle closed u))
          (On Inv)
          (create_session_with_first_turn u session turn created sent source)
  unfolding create_session_with_first_turn
  Leads-first_turn session turn created sent source goes_on h k =
      Leads-then_do _ (On (Idle closed u)) _ _ _ (Leads-insert_session (Idle closed u) u session) (
        Leads-then_do _ (On Inv) _ _ _ (Leads-insert_turn closed u turn goes_on) (
          Leads-then_do _ (On Inv) _ _ _ (Leads-insert_optional_source Inv u turn.id source) (
            Leads-then_do _ (On Inv) _ _ _ (Leads-insert_event closed u created h)
              (Leads-insert_event closed u sent k))))

  Leads-next_turn :
      (session : AgentSession) (turn : AgentTurn) (sent : AgentEvent) (source : Option Source)
      → is_terminal turn.state ≡ false
      → is_terminal_kind sent.kind ≡ false
      → Leads
          (On (Idle closed u))
          (On Inv)
          (append_turn_with_pending_event u session turn sent source)
  unfolding append_turn_with_pending_event
  Leads-next_turn session turn sent source goes_on k =
      Leads-then_do _ (On (Idle closed u)) _ _ _ (Leads-update_session (Idle closed u) u session) (
        Leads-then_do _ (On Inv) _ _ _ (Leads-insert_turn closed u turn goes_on) (
          Leads-then_do _ (On Inv) _ _ _ (Leads-insert_optional_source Inv u turn.id source)
            (Leads-insert_event closed u sent k)))

  module _ (stamps : SendStamps) (request : SendRequest) (effort : Option AgentEffort)
      (profile model : Text) (context : AgentRequestContext) where
    first_send-GoesTo :
        GoesTo IsIdle Holds
          (first_send (sqlite u digest) stamps request effort profile model context)
    unfolding first_send is_terminal_kind
    first_send-GoesTo =
        GoesTo-bind {V = Any} forget
          (Keeps-lift
            (map_err PrepareAgentSendError.time (
              new_session stamps.session_id stamps.session_clock
                (derive_session_title request.user_text) request.project_id profile model))
            (result-Any _))
          (λ session _.
            GoesTo-bind {V = GoesOn} forget
              (Keeps-lift
                (map_err PrepareAgentSendError.time (
                  new_pending stamps.turn_id stamps.turn_clock session.id 0 request.user_text
                    request.project_id request.saved_project_instructions stamps.provider_request_id
                    profile model effort))
                (map_err-OkIs _ _ _ (
                  new_pending-GoesOn stamps.turn_id stamps.turn_clock session.id 0 request.user_text
                    request.project_id request.saved_project_instructions stamps.provider_request_id
                    profile model effort)))
              (λ turn goes_on.
                GoesTo-bind {V = EventIs session_created none} forget
                  (Keeps-lift
                    (map_err PrepareAgentSendError.time (
                      new_event stamps.created_event_id stamps.created_clock session.id none 0
                        session_created))
                    (map_err-OkIs _ _ _ (
                      new_event-EventIs stamps.created_event_id stamps.created_clock session.id none
                        0 session_created)))
                  (λ created h.
                    GoesTo-bind {V = EventIs turn_pending (some turn.id)} forget
                      (Keeps-lift
                        (map_err PrepareAgentSendError.time (
                          new_event stamps.pending_event_id stamps.pending_clock session.id
                            (some turn.id) 1 turn_pending))
                        (map_err-OkIs _ _ _ (
                          new_event-EventIs stamps.pending_event_id stamps.pending_clock session.id
                            (some turn.id) 1 turn_pending)))
                      (λ sent k.
                        GoesTo-write (On (Idle closed u)) (On Inv)
                          (create_session_with_first_turn u session turn created sent
                            request.source)
                          PrepareAgentSendError.repository
                          (record {
                            session = session;
                            turn = turn;
                            request_context = context;
                            created_session = true;
                          })
                          (λ _ p. p.0)
                          (Leads-first_turn session turn created sent request.source goes_on
                            (ap is_terminal_kind h.0) (ap is_terminal_kind k.0))))))

    append_send-GoesTo :
        (session : AgentSession)
        → GoesTo IsIdle Holds
            (append_send (sqlite u digest) stamps request effort profile model context session)
    unfolding append_send is_terminal_kind
    append_send-GoesTo session =
        GoesTo-bind {V = Any} forget
          (Keeps-on_error PrepareAgentSendError.repository
            (Keeps-query (On (Idle closed u)) (next_ordinal u session.id)))
          (λ ordinal _.
            GoesTo-bind {V = GoesOn} forget
              (Keeps-lift
                (map_err PrepareAgentSendError.time (
                  new_pending stamps.turn_id stamps.turn_clock session.id ordinal request.user_text
                    request.project_id request.saved_project_instructions stamps.provider_request_id
                    profile model effort))
                (map_err-OkIs _ _ _ (
                  new_pending-GoesOn stamps.turn_id stamps.turn_clock session.id ordinal
                    request.user_text request.project_id request.saved_project_instructions
                    stamps.provider_request_id profile model effort)))
              (λ turn goes_on.
                GoesTo-bind {V = Any} forget
                  (Keeps-lift
                    (map_err PrepareAgentSendError.time
                      (touch_updated_at stamps.session_clock session))
                    (result-Any _))
                  (λ touched _.
                    GoesTo-bind {V = Any} forget
                      (Keeps-on_error PrepareAgentSendError.repository
                        (Keeps-query (On (Idle closed u)) (next_number u session.id)))
                      (λ sequence _.
                        GoesTo-bind {V = EventIs turn_pending (some turn.id)} forget
                          (Keeps-lift
                            (map_err PrepareAgentSendError.time (
                              new_event stamps.pending_event_id stamps.pending_clock session.id
                                (some turn.id) sequence turn_pending))
                            (map_err-OkIs _ _ _ (
                              new_event-EventIs stamps.pending_event_id stamps.pending_clock
                                session.id (some turn.id) sequence turn_pending)))
                          (λ sent k.
                            GoesTo-write (On (Idle closed u)) (On Inv)
                              (append_turn_with_pending_event u touched turn sent request.source)
                              PrepareAgentSendError.repository
                              (record {
                                session = touched;
                                turn = turn;
                                request_context = context;
                                created_session = false;
                              })
                              (λ _ p. p.0)
                              (Leads-next_turn touched turn sent request.source goes_on
                                (ap is_terminal_kind k.0)))))))

    pub persist_send-GoesTo :
        (existing : Option AgentSession)
        → GoesTo IsIdle Holds
            (persist_send (sqlite u digest) stamps request effort profile model context existing)
    unfolding persist_send
    persist_send-GoesTo none = first_send-GoesTo
    persist_send-GoesTo (some session) = append_send-GoesTo session
