-- ===== src/AgentTables/Kept.antt =====
-- Each statement of sqlite/agents.rs that the use cases call keeps what is closed under the writes to
-- turns and events.
use tule.Base.{
  ◌≡◌, refl, ap, ◌∙◌, true, false, not, ◌&&◌, Option, none, some, List, ◌∷◌, Text, ℤ, pos, ◌!=◌,
  nat_eq, text_eq, arith,
}
use mathlib.Core.Option
use tule.Base.Keeping.{OkIs}
use tule.Ids.{UuidCrate}
use tule.AgentIds.{AgentTurnId, transpose}
use tule.Source.{Source}
use tule.Agent.State.{AgentTurnState, state_label, is_terminal}
use tule.Agent.Session.{AgentSession}
use tule.Agent.Turn.{AgentTurn}
use tule.Agent.Event.{AgentEvent}
use tule.AgentTables.{◌then_do◌, finish_turn_with_terminal_event}
use tule.AgentTables.Rows.{Tables, TurnRow, EventRow, TurnSourceRow, to_i64}
use tule.AgentTables.Constraints.{Statement, has_session, has_source, has_turn, count_rows}
use tule.AgentTables.SessionStatements.{session_refers, update_session, insert_session}
use tule.AgentTables.Statements.{
  association_fits, is_inflight_label, insert_turn, turn_fits, add_turn_row, update_inflight_turn,
  write_inflight, is_inflight_row, write_turn, insert_event, add_event_row, event_fits,
  insert_source_with_association, add_source, add_association, insert_optional_source, turn_row,
  event_row,
}
use tule.AgentTables.Closure.{
  Closed, Leads, ok-OkIs, err-OkIs, if-OkIs, bind-OkIs, bind-OkIs_value, inflight_rows,
  is_terminal_kind, is_terminal_label, Writes, is_inflight_label-state_label,
  is_terminal_label-event_label,
}

pub Leads-then_do :
    (P Q R : Tables → Type 0) (first second : Statement)
    → Leads P Q first
    → Leads Q R second
    → Leads P R (first then_do second)
Leads-then_do P Q R first second h k = record {
  leads = λ tables p. bind-OkIs_value R Q (first tables) second (h.leads tables p) k.leads;
}

-- A property of the turns and events alone.
module _ (P : List TurnRow → List EventRow → Type 0) where
  abbrev pub On : Tables → Type 0
  On tables = P tables.agent_turns tables.agent_events

  pub Leads-update_session :
      (u : UuidCrate) (session : AgentSession) → Leads On On (update_session u session)
  unfolding update_session
  Leads-update_session u session = record {
    leads = λ tables p.
        if-OkIs On (not (has_session tables (u.to_string session.id))) _ _ (λ _. ok-OkIs On _ p)
          (λ _.
            if-OkIs On (session_refers u session tables) _ _ (λ _. ok-OkIs On _ p)
              (λ _. err-OkIs On _));
  }

  pub Leads-insert_session :
      (u : UuidCrate) (session : AgentSession) → Leads On On (insert_session u session)
  unfolding insert_session
  Leads-insert_session u session = record {
    leads = λ tables p.
        if-OkIs On
          (not (has_session tables (u.to_string session.id)) && session_refers u session tables) _ _
          (λ _. ok-OkIs On _ p) (λ _. err-OkIs On _);
  }

  pub Leads-add_association :
      (row : TurnSourceRow) (tables : Tables) → On tables → OkIs On (add_association row tables)
  unfolding add_association
  Leads-add_association row tables p =
      if-OkIs On (association_fits row tables) _ _ (λ _. ok-OkIs On _ p) (λ _. err-OkIs On _)

  pub Leads-add_source :
      (u : UuidCrate) (source : Source) (byte_count : ℤ) (tables : Tables)
      → On tables
      → OkIs On (add_source u source byte_count tables)
  unfolding add_source
  Leads-add_source u source byte_count tables p =
      if-OkIs On (has_source tables (u.to_string source.id)) _ _ (λ _. err-OkIs On _)
        (λ _. ok-OkIs On _ p)

  pub Leads-insert_optional_source :
      (u : UuidCrate) (id : AgentTurnId) (source : Option Source)
      → Leads On On (insert_optional_source u id source)
  unfolding insert_optional_source insert_source_with_association
  Leads-insert_optional_source u id none = record { leads = λ tables p. ok-OkIs On tables p }
  Leads-insert_optional_source u id (some source) = record {
    leads = λ tables p. bind-OkIs On (to_i64 source.byte_count) _ (λ byte_count.
        bind-OkIs_value On On (add_source u source byte_count tables) _
          (Leads-add_source u source byte_count tables p)
          (Leads-add_association (record {
            turn_id = u.to_string id;
            source_id = u.to_string source.id;
            attachment_order = pos 0;
          })));
  }

turn_fits-new :
    (row : TurnRow) (tables : Tables)
    → turn_fits row tables ≡ true
    → has_turn tables.agent_turns row.id ≡ false
unfolding turn_fits
turn_fits-new row tables h = ground arith

-- A property that is closed under the writes.
module _ {Inv : List TurnRow → List EventRow → Type 0} (closed : Closed Inv) (u : UuidCrate) where
  -- It holds, and no turn is in flight.
  abbrev pub Idle : List TurnRow → List EventRow → Type 0
  Idle turns events = Inv turns events × (inflight_rows turns ≡ 0)

  add_turn_row-OkIs :
      (row : TurnRow) (tables : Tables)
      → is_inflight_label row.state ≡ true
      → On Idle tables
      → OkIs (On Inv) (add_turn_row row tables)
  unfolding add_turn_row
  add_turn_row-OkIs row tables h p =
      if-OkIs (On Inv) (turn_fits row tables) _ _
        (λ fits. ok-OkIs (On Inv) _ (
          closed.add_turn row tables.agent_turns tables.agent_events h
            (turn_fits-new row tables fits) p.1 p.0))
        (λ _. err-OkIs (On Inv) _)

  inflight_label :
      (s : AgentTurnState) → is_terminal s ≡ false → is_inflight_label (state_label s) ≡ true
  inflight_label s h = is_inflight_label-state_label s ∙ ap not h

  pub ended_label :
      (s : AgentTurnState) → is_terminal s ≡ true → is_inflight_label (state_label s) ≡ false
  ended_label s h = is_inflight_label-state_label s ∙ ap not h

  pub Leads-insert_turn :
      (turn : AgentTurn)
      → is_terminal turn.state ≡ false
      → Leads (On Idle) (On Inv) (insert_turn u turn)
  unfolding insert_turn
  Leads-insert_turn turn h = record {
    leads = λ tables p. bind-OkIs (On Inv) (to_i64 turn.ordinal) _ (λ ordinal.
        bind-OkIs (On Inv) (transpose to_i64 turn.usage_input_tokens) _ (λ input.
          bind-OkIs (On Inv) (transpose to_i64 turn.usage_output_tokens) _ (λ output.
            add_turn_row-OkIs (turn_row u turn ordinal input output) tables
              (inflight_label turn.state h) p)));
  }

  add_event_row-OkIs :
      (row : EventRow) (tables : Tables)
      → is_terminal_label row.kind ≡ false
      → On Inv tables
      → OkIs (On Inv) (add_event_row row tables)
  unfolding add_event_row
  add_event_row-OkIs row tables h p =
      if-OkIs (On Inv) (event_fits row tables) _ _
        (λ _. ok-OkIs (On Inv) _ (closed.add_event row tables.agent_turns tables.agent_events h p))
        (λ _. err-OkIs (On Inv) _)

  pub Leads-insert_event :
      (event : AgentEvent)
      → is_terminal_kind event.kind ≡ false
      → Leads (On Inv) (On Inv) (insert_event u event)
  unfolding insert_event
  Leads-insert_event event h = record {
    leads = λ tables p. bind-OkIs (On Inv) (to_i64 event.sequence) _ (λ sequence.
        add_event_row-OkIs (event_row u event sequence) tables
          (is_terminal_label-event_label event.kind ∙ h) p);
  }

  write_inflight-OkIs :
      (id : Text) (write : TurnRow → TurnRow) (tables : Tables)
      → Writes write true
      → On Inv tables
      → OkIs (On Inv) (write_inflight id write tables)
  unfolding write_inflight
  write_inflight-OkIs id write tables h p =
      if-OkIs (On Inv) (count_rows (is_inflight_row id) tables.agent_turns != 1) _ _
        (λ _. err-OkIs (On Inv) _)
        (λ _.
          ok-OkIs (On Inv) _
            (closed.checkpoint id write tables.agent_turns tables.agent_events h p))

  pub Leads-checkpoint :
      (turn : AgentTurn)
      → is_terminal turn.state ≡ false
      → Leads (On Inv) (On Inv) (update_inflight_turn u turn)
  unfolding update_inflight_turn
  Leads-checkpoint turn h = record {
    leads = λ tables p. bind-OkIs (On Inv) (transpose to_i64 turn.usage_input_tokens) _ (λ input.
        bind-OkIs (On Inv) (transpose to_i64 turn.usage_output_tokens) _ (λ output.
          write_inflight-OkIs (u.to_string turn.id) (write_turn turn input output) tables
            (λ row. (refl, inflight_label turn.state h)) p));
  }

  -- The tables in which a turn has just been ended: its event is what they lack.
  pub record Ended (id : Text) (tables : Tables) : Type 0 where
    pub ended :
        (event : EventRow)
        → is_terminal_label event.kind ≡ true
        → event.turn_id ≡ some id
        → Inv tables.agent_turns (event ∷ tables.agent_events)

  write-Ended-OkIs :
      (id : Text) (write : TurnRow → TurnRow) (tables : Tables)
      → Writes write false
      → On Inv tables
      → OkIs (Ended id) (write_inflight id write tables)
  unfolding write_inflight
  write-Ended-OkIs id write tables h p =
      if-OkIs (Ended id) (count_rows (is_inflight_row id) tables.agent_turns != 1) _ _
        (λ _. err-OkIs (Ended id) _)
        (λ one. ok-OkIs (Ended id) _ (record {
          ended = λ event k e.
              closed.finish id write event tables.agent_turns tables.agent_events h (ground arith) k
                e p;
        }))

  Leads-end :
      (turn : AgentTurn)
      → is_terminal turn.state ≡ true
      → Leads (On Inv) (Ended (u.to_string turn.id)) (update_inflight_turn u turn)
  unfolding update_inflight_turn
  Leads-end turn h = record {
    leads = λ tables p.
        bind-OkIs (Ended (u.to_string turn.id)) (transpose to_i64 turn.usage_input_tokens) _
          (λ input.
            bind-OkIs (Ended (u.to_string turn.id)) (transpose to_i64 turn.usage_output_tokens) _
              (λ output.
                write-Ended-OkIs (u.to_string turn.id) (write_turn turn input output) tables
                  (λ row. (refl, ended_label turn.state h)) p));
  }

  add_terminal-OkIs :
      (id : Text) (row : EventRow) (tables : Tables)
      → is_terminal_label row.kind ≡ true
      → row.turn_id ≡ some id
      → Ended id tables
      → OkIs (On Inv) (add_event_row row tables)
  unfolding add_event_row
  add_terminal-OkIs id row tables k e p =
      if-OkIs (On Inv) (event_fits row tables) _ _ (λ _. ok-OkIs (On Inv) _ (p.ended row k e))
        (λ _. err-OkIs (On Inv) _)

  Leads-terminal_event :
      (id : AgentTurnId) (event : AgentEvent)
      → is_terminal_kind event.kind ≡ true
      → event.turn_id ≡ some id
      → Leads (Ended (u.to_string id)) (On Inv) (insert_event u event)
  unfolding insert_event
  Leads-terminal_event id event k e = record {
    leads = λ tables p. bind-OkIs (On Inv) (to_i64 event.sequence) _ (λ sequence.
        add_terminal-OkIs (u.to_string id) (event_row u event sequence) tables
          (is_terminal_label-event_label event.kind ∙ k) (ap (Option.map u.to_string) e) p);
  }

  -- The end of a turn with its event.
  pub Leads-finish :
      (session : AgentSession) (turn : AgentTurn) (event : AgentEvent)
      → is_terminal turn.state ≡ true
      → is_terminal_kind event.kind ≡ true
      → event.turn_id ≡ some turn.id
      → Leads (On Inv) (On Inv) (finish_turn_with_terminal_event u session turn event)
  unfolding finish_turn_with_terminal_event
  Leads-finish session turn event h k e =
      Leads-then_do (On Inv) (On Inv) (On Inv) _ _ (Leads-update_session Inv u session) (
        Leads-then_do (On Inv) (Ended (u.to_string turn.id)) (On Inv) _ _ (Leads-end turn h)
          (Leads-terminal_event turn.id event k e))
