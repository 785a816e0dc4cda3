-- ===== src/AgentTables/Streaming.antt =====
-- What a delta and a checkpoint keep on the store in SQLite:
-- crates/tule-core/src/agent_use_cases.rs, `apply_agent_delta` and `checkpoint_agent_turn`.
use tule.Base.{
  ◌≡◌, ap, ◌∙◌, Bool, true, false, Option, none, some, List, Result, ok, err, Text, bytes, map_err,
  ok_or, nat_eq, inl, inr, Bool-cases,
}
use tule.Base.Actions.{Action, ◌>>◌, fail_if}
use tule.Base.Keeping.{
  Keeps, Any, Keeps-bind, Keeps-then, Keeps-pure, Keeps-lift, Keeps-on_error, result-Any,
}
use tule.Ids.{UuidCrate}
use tule.Canonical.{Digest}
use tule.AgentIds.{AgentTurnId}
use tule.Agent.State.{
  AgentTurnState, pending, streaming, is_terminal, AgentEventKind, AgentEffort, turn_pending,
  turn_streaming, session_created, transition, turn_state_eq, AgentTurnState-discrete,
}
use tule.Agent.State
use tule.Agent.Errors.{AgentOutputLimitError}
use tule.Agent.Turn.{AgentTurn, append_agent_text, mark_streaming}
use tule.Agent.Event.{AgentEvent, new_event}
use tule.AgentTables.{SqliteStore, sqlite, checkpoint_turn}
use tule.AgentTables.Rows.{TurnRow, EventRow, SqliteStoreError}
use tule.AgentTables.Queries.{find_turn_row, next_number}
use tule.AgentTables.Closure.{Closed, Leads, is_terminal_kind, ok-OkIs}
use tule.AgentTables.Kept.{On, Leads-then_do, Leads-insert_event, Leads-checkpoint}
use tule.AgentTables.Executing.{InStore, Keeps-execute, Keeps-query}
use tule.AgentTables.Values.{
  map_err-OkIs, EventIs, new_event-EventIs, GoesOn, mark_streaming-GoesOn, append-state,
}
use tule.AgentTables.Ending.{fail_turn-Keeps}
use tule.AgentUseCases.Errors.{ApplyAgentDeltaError}
use tule.AgentUseCases.Delta.{
  DeltaStamps, is_first_delta, marked, start_streaming, store_delta, after_append,
  apply_agent_delta, checkpoint_agent_turn,
}

module _ {Inv : List TurnRow → List EventRow → Type 0} (closed : Closed Inv) (u : UuidCrate)
    (digest : Digest) where
  -- A turn that goes on, with an event that ends none.
  abbrev Started : AgentTurn × Option AgentEvent → Type 0
  Started (turn, none) = GoesOn turn
  Started (turn, some event) = GoesOn turn × (is_terminal_kind event.kind ≡ false)

  start_streaming-Keeps :
      (stamps : DeltaStamps) (first : Bool) (turn : AgentTurn)
      → GoesOn turn
      → Keeps (InStore (On Inv)) Started (start_streaming (sqlite u digest) stamps first turn)
  unfolding start_streaming is_terminal_kind
  start_streaming-Keeps stamps false turn goes_on = Keeps-pure (turn, none) goes_on
  start_streaming-Keeps stamps true turn goes_on =
      Keeps-bind {P = GoesOn}
        (Keeps-lift (marked (mark_streaming turn)) (mark_streaming-GoesOn _ turn))
        (λ started on.
          Keeps-bind
            (Keeps-on_error ApplyAgentDeltaError.repository
              (Keeps-query (On Inv) (next_number u started.session_id)))
            (λ sequence _.
              Keeps-bind {P = EventIs turn_streaming (some started.id)}
                (Keeps-lift
                  (map_err ApplyAgentDeltaError.time (
                    new_event stamps.event_id stamps.event_clock started.session_id
                      (some started.id) sequence turn_streaming))
                  (map_err-OkIs _ _ _ (
                    new_event-EventIs stamps.event_id stamps.event_clock started.session_id
                      (some started.id) sequence turn_streaming)))
                (λ event e. Keeps-pure (started, some event) (on, ap is_terminal_kind e.0))))

  Leads-checkpoint_turn :
      (started : AgentTurn × Option AgentEvent)
      → Started started
      → Leads (On Inv) (On Inv) (checkpoint_turn u started.0 started.1)
  unfolding checkpoint_turn
  Leads-checkpoint_turn (turn, none) on =
      Leads-then_do (On Inv) (On Inv) (On Inv) _ _ (Leads-checkpoint closed u turn on)
        (record { leads = λ tables p. ok-OkIs (On Inv) tables p })
  Leads-checkpoint_turn (turn, some event) (on, h) =
      Leads-then_do (On Inv) (On Inv) (On Inv) _ _ (Leads-checkpoint closed u turn on)
        (Leads-insert_event closed u event h)

  store_delta-Keeps :
      (stamps : DeltaStamps) (first : Bool) (turn : AgentTurn)
      → GoesOn turn
      → Keeps (InStore (On Inv)) Any (store_delta (sqlite u digest) stamps first turn)
  unfolding store_delta
  store_delta-Keeps stamps first turn goes_on =
      Keeps-bind (start_streaming-Keeps stamps first turn goes_on) (λ started h.
        Keeps-then
          (Keeps-on_error ApplyAgentDeltaError.repository (
            Keeps-execute (On Inv) (checkpoint_turn u started.0 started.1)
              (Leads-checkpoint_turn started h)))
          (Keeps-pure started.0 tt))

  after_append-Keeps :
      (stamps : DeltaStamps) (first : Bool)
      (r : AgentTurn × Result AgentOutputLimitError (Unit {0}))
      → GoesOn r.0
      → Keeps (InStore (On Inv)) Any (after_append (sqlite u digest) stamps first r)
  unfolding after_append
  after_append-Keeps stamps first (turn, ok _) goes_on = store_delta-Keeps stamps first turn goes_on
  after_append-Keeps stamps first (turn, err _) goes_on =
      Keeps-bind
        (Keeps-on_error ApplyAgentDeltaError.finish
          (fail_turn-Keeps closed u digest stamps.finish turn (bytes "output_limit")))
        (λ failed _. Keeps-lift (err (ApplyAgentDeltaError.output_limit failed)) (result-Any _))

  -- What follows the test for a terminal turn has a turn that goes on.
  unless_over :
      {A : Type 0} (turn : AgentTurn) (e : ApplyAgentDeltaError SqliteStoreError)
      (m : Action SqliteStore (ApplyAgentDeltaError SqliteStoreError) A)
      → (GoesOn turn → Keeps (InStore (On Inv)) Any m)
      → Keeps (InStore (On Inv)) Any (fail_if (is_terminal turn.state) e >> m)
  unless_over turn e m h = record {
    keeps = λ store p. (
      elim (Bool-cases (is_terminal turn.state)) [
        | inl over ↦ rw over p
        | inr on ↦ rw on ((h on).keeps store p).0
      ],
      result-Any _,
    );
  }

  pub apply_agent_delta-Keeps :
      (stamps : DeltaStamps) (id : AgentTurnId) (delta : Text)
      → Keeps (InStore (On Inv)) Any (apply_agent_delta (sqlite u digest) stamps id delta)
  unfolding apply_agent_delta
  apply_agent_delta-Keeps stamps id delta =
      Keeps-bind
        (Keeps-on_error ApplyAgentDeltaError.repository (Keeps-query (On Inv) (find_turn_row u id)))
        (λ found _.
          Keeps-bind (Keeps-lift (ok_or found ApplyAgentDeltaError.turn_not_found) (result-Any _))
            (λ turn _.
              unless_over turn
                (ApplyAgentDeltaError.illegal_transition
                  (State.illegal_transition turn.state streaming))
                (after_append (sqlite u digest) stamps (is_first_delta turn delta)
                  (append_agent_text delta turn))
                (λ on.
                  after_append-Keeps stamps (is_first_delta turn delta)
                    (append_agent_text delta turn)
                    (ap is_terminal (append-state delta turn) ∙ on))))

  pub checkpoint_agent_turn-Keeps :
      (turn : AgentTurn)
      → GoesOn turn
      → Keeps (InStore (On Inv)) Any (checkpoint_agent_turn (sqlite u digest) turn)
  unfolding checkpoint_agent_turn
  checkpoint_agent_turn-Keeps turn on =
      Keeps-on_error ApplyAgentDeltaError.repository (
        Keeps-execute (On Inv) (checkpoint_turn u turn none)
          (Leads-checkpoint_turn (turn, none) on))
