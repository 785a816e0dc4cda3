-- ===== src/AgentTables/Statements.antt =====
-- The statements that write turns, events and sources: apps/desktop/src-tauri/src/sqlite/agents.rs,
-- `insert_turn`, `update_turn`, `update_inflight_turn`, `insert_source_with_association` and
-- `insert_event`.
use mathlib.Core.Option
use tule.Base.{
  ℕ, Bool, not, ◌&&◌, ◌||◌, Option, none, some, ◌∷◌, ok, err, ◌>>=◌, Text, bytes, ℤ, pos, any, ◌==◌,
  ◌!=◌, nat_eq, text_eq, Text-discrete, ℕ_discrete, if◌then◌else◌,
}
use tule.Ids.{UuidCrate}
use tule.AgentIds.{AgentTurnId, transpose}
use tule.Source.{Source}
use tule.Agent.State.{state_label, event_label, effort_label}
use tule.Agent.Turn.{AgentTurn}
use tule.Agent.Event.{AgentEvent}
use tule.AgentTables.Rows.{
  query_returned_no_rows, database, TurnRow, EventRow, TurnSourceRow, Tables, to_i64,
}
use tule.AgentTables.Constraints.{
  Statement, violated, same_ℤ, refers, has_project, has_profile, has_session, has_turn, has_source,
  update_rows, count_rows,
}

-- The row of a turn, from its numbers as i64.
abbrev pub turn_row : UuidCrate → AgentTurn → ℤ → Option ℤ → Option ℤ → TurnRow
turn_row u turn ordinal input output = record {
  id = u.to_string turn.id;
  session_id = u.to_string turn.session_id;
  ordinal = ordinal;
  user_text = turn.user_text;
  agent_text = turn.agent_text;
  state = state_label turn.state;
  error_code = turn.error_code;
  provider_profile_id = turn.provider_profile_id;
  model_id = turn.model_id;
  effort = Option.map effort_label turn.effort;
  provider_request_id = u.to_string turn.provider_request_id;
  provider_response_id = turn.provider_response_id;
  usage_input_tokens = input;
  usage_output_tokens = output;
  project_id = Option.map u.to_string turn.project_id;
  project_instructions = turn.project_instructions;
  prompt_version = turn.prompt_version;
  started_at_unix_ms = turn.started_at_unix_ms;
  finished_at_unix_ms = turn.finished_at_unix_ms;
}

-- The primary key, UNIQUE (session_id, ordinal) and the references of a row of agent_turns.
unfoldable pub turn_fits : TurnRow → Tables → Bool
turn_fits row tables =
    not (has_turn tables.agent_turns row.id)
    && not (
        any
          (λ (other : TurnRow).
            (other.session_id == row.session_id) && same_ℤ other.ordinal row.ordinal)
          tables.agent_turns)
    && has_session tables row.session_id
    && has_profile tables row.provider_profile_id
    && refers row.project_id (has_project tables)

unfoldable pub add_turn_row : TurnRow → Statement
add_turn_row row tables =
    if turn_fits row tables
    then ok (record tables { agent_turns = row ∷ tables.agent_turns })
    else violated

unfoldable pub insert_turn : UuidCrate → AgentTurn → Statement
unfolding add_turn_row
insert_turn u turn tables = to_i64 turn.ordinal >>= λ ordinal.
    transpose to_i64 turn.usage_input_tokens >>= λ input.
    transpose to_i64 turn.usage_output_tokens >>= λ output.
    add_turn_row (turn_row u turn ordinal input output) tables

-- The columns that `update_turn` and `update_inflight_turn` set.
abbrev pub write_turn : AgentTurn → Option ℤ → Option ℤ → TurnRow → TurnRow
write_turn turn input output row = record row {
  agent_text = turn.agent_text;
  state = state_label turn.state;
  error_code = turn.error_code;
  provider_response_id = turn.provider_response_id;
  usage_input_tokens = input;
  usage_output_tokens = output;
  finished_at_unix_ms = turn.finished_at_unix_ms;
}

unfoldable pub update_turn : UuidCrate → AgentTurn → Statement
update_turn u turn tables = transpose to_i64 turn.usage_input_tokens >>= λ input.
    transpose to_i64 turn.usage_output_tokens >>= λ output. ok (record tables {
      agent_turns =
          update_rows (λ row. row.id == u.to_string turn.id) (write_turn turn input output)
            tables.agent_turns;
    })

-- `state IN ('pending', 'streaming')`.
unfoldable pub is_inflight_label : Text → Bool
unfolding Text-discrete ℕ_discrete
is_inflight_label state = (state == bytes "pending") || (state == bytes "streaming")

abbrev pub is_inflight_row : Text → TurnRow → Bool
is_inflight_row id row = (row.id == id) && is_inflight_label row.state

unfoldable pub write_inflight : Text → (TurnRow → TurnRow) → Statement
write_inflight id write tables =
    if count_rows (is_inflight_row id) tables.agent_turns != 1
    then err (database query_returned_no_rows)
    else ok
        (record tables { agent_turns = update_rows (is_inflight_row id) write tables.agent_turns })

unfoldable pub update_inflight_turn : UuidCrate → AgentTurn → Statement
unfolding write_inflight
update_inflight_turn u turn tables = transpose to_i64 turn.usage_input_tokens >>= λ input.
    transpose to_i64 turn.usage_output_tokens >>= λ output.
    write_inflight (u.to_string turn.id) (write_turn turn input output) tables

-- The primary key, UNIQUE (session_id, sequence) and the references of a row of agent_events.
unfoldable pub event_fits : EventRow → Tables → Bool
event_fits row tables =
    not (any (λ (other : EventRow). other.id == row.id) tables.agent_events)
    && not (
        any
          (λ (other : EventRow).
            (other.session_id == row.session_id) && same_ℤ other.sequence row.sequence)
          tables.agent_events)
    && has_session tables row.session_id
    && refers row.turn_id (has_turn tables.agent_turns)

unfoldable pub add_event_row : EventRow → Statement
add_event_row row tables =
    if event_fits row tables
    then ok (record tables { agent_events = row ∷ tables.agent_events })
    else violated

abbrev pub event_row : UuidCrate → AgentEvent → ℤ → EventRow
event_row u event sequence = record {
  id = u.to_string event.id;
  session_id = u.to_string event.session_id;
  turn_id = Option.map u.to_string event.turn_id;
  sequence = sequence;
  kind = event_label event.kind;
  created_at_unix_ms = event.created_at_unix_ms;
}

unfoldable pub insert_event : UuidCrate → AgentEvent → Statement
unfolding add_event_row
insert_event u event tables =
    to_i64 event.sequence >>= λ sequence. add_event_row (event_row u event sequence) tables

-- The keys and the references of a row of agent_turn_sources.
abbrev pub association_fits : TurnSourceRow → Tables → Bool
association_fits row tables =
    not (
      any
        (λ (other : TurnSourceRow).
          (other.source_id == row.source_id)
          || (other.turn_id == row.turn_id) && same_ℤ other.attachment_order row.attachment_order)
        tables.agent_turn_sources)
    && has_turn tables.agent_turns row.turn_id
    && has_source tables row.source_id

unfoldable pub add_association : TurnSourceRow → Statement
add_association row tables =
    if association_fits row tables
    then ok (record tables { agent_turn_sources = row ∷ tables.agent_turn_sources })
    else violated

unfoldable pub add_source : UuidCrate → Source → ℤ → Statement
add_source u source byte_count tables =
    if has_source tables (u.to_string source.id)
    then violated
    else ok (record tables {
      agent_sources =
          record {
            id = u.to_string source.id;
            origin_kind = source.origin_kind;
            display_name = source.display_name;
            byte_count = byte_count;
            content_sha256 = source.content_sha256;
            content = source.content;
            created_at_unix_ms = source.created_at_unix_ms;
            member_count = some (pos source.member_count);
            canonical_url = source.canonical_url;
          }
          ∷ tables.agent_sources;
    })

unfoldable pub insert_source_with_association : UuidCrate → AgentTurnId → Source → ℕ → Statement
unfolding add_source add_association
insert_source_with_association u turn_id source attachment_order tables =
    to_i64 source.byte_count >>= λ byte_count.
    add_source u source byte_count tables
    >>= add_association (record {
      turn_id = u.to_string turn_id;
      source_id = u.to_string source.id;
      attachment_order = pos attachment_order;
    })

-- `if let Some(source) = source`.
unfoldable pub insert_optional_source : UuidCrate → AgentTurnId → Option Source → Statement
unfolding insert_source_with_association
insert_optional_source u turn_id none tables = ok tables
insert_optional_source u turn_id (some source) tables =
    insert_source_with_association u turn_id source 0 tables
