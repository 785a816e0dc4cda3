-- ===== src/Examples/Sessions.antt =====
-- Conversations on the store in SQLite: crates/tule-core/src/agent_use_cases.rs over
-- apps/desktop/src-tauri/src/sqlite/agents.rs.
use tule.Base.{
  ◌≤◌, ◌≡◌, refl, true, false, none, some, List, [], ◌∷◌, Text, bytes, pos, inl, Option, arith,
}
use tule.Ids.{UuidCrate, Uuid}
use tule.AgentRepository.{ProviderProfile}
use tule.AgentUseCases.Send.{SendStamps, SendRequest}
use tule.AgentUseCases.Finish.{FinishStamps}
use tule.AgentTables.{SqliteStore}
use tule.AgentTables.Rows.{TurnRow, EventRow, SessionRow}
use tule.AgentTables.Closure.{inflight_rows, is_terminal_label}
use tule.AgentTables.Constraints.{count_rows}
use tule.AgentTables.Statements.{is_inflight_label}
use tule.AgentTables.Histories.{AgentCall, AllCheckpoints, calls, send, complete, cancel}
use tule.AgentTables.InFlight.{calls-one_inflight}
use tule.AgentTables.Terminal.{IsTold, calls-IsTold, Has, calls-ended_final}
use tule.AgentTables.Counts.{rows_of, ended_rows, terminal_events}
use tule.Examples.Data.{digest, owner}

-- An identifier is printed as one byte, and read back.
abbrev read_id : Text → Option Uuid
read_id [] = none
read_id (b ∷ bs) = some b

abbrev pub printing : UuidCrate
printing = record {
  parse_str = read_id;
  is_rfc4122 = λ _. true;
  is_sort_rand = λ _. true;
  to_string = λ id. id ∷ [];
}

abbrev profile : ProviderProfile
profile = record {
  id = owner;
  provider_kind = bytes "k";
  visible_model_id = bytes "m";
  credential_handle = none;
  access_token_expires_at_unix_ms = none;
  created_at_unix_ms = pos 0;
  updated_at_unix_ms = pos 0;
}

abbrev session_row : SessionRow
session_row = record {
  id = 9 ∷ [];
  title = bytes "t";
  project_id = none;
  provider_profile_id = owner;
  model_id = bytes "m";
  created_at_unix_ms = pos 0;
  updated_at_unix_ms = pos 0;
}

-- A turn that was completed.
abbrev ended_row : TurnRow
ended_row = record {
  id = 8 ∷ [];
  session_id = 9 ∷ [];
  ordinal = pos 0;
  user_text = bytes "hi";
  agent_text = bytes "hello";
  state = bytes "completed";
  error_code = none;
  provider_profile_id = owner;
  model_id = bytes "m";
  effort = none;
  provider_request_id = 7 ∷ [];
  provider_response_id = none;
  usage_input_tokens = none;
  usage_output_tokens = none;
  project_id = none;
  project_instructions = [];
  prompt_version = bytes "v";
  started_at_unix_ms = pos 0;
  finished_at_unix_ms = some (pos 1);
}

abbrev ended_event : EventRow
ended_event = record {
  id = 6 ∷ [];
  session_id = 9 ∷ [];
  turn_id = some (8 ∷ []);
  sequence = pos 0;
  kind = bytes "turn_completed";
  created_at_unix_ms = pos 1;
}

abbrev pub store : SqliteStore
store = record {
  poisoned = false;
  tables = record {
    projects = [];
    provider_profiles = profile ∷ [];
    agent_sessions = session_row ∷ [];
    agent_turns = ended_row ∷ [];
    agent_events = ended_event ∷ [];
    agent_sources = [];
    agent_turn_sources = [];
  };
}

abbrev stamps : SendStamps
stamps = record {
  session_id = 1;
  turn_id = 2;
  provider_request_id = 3;
  created_event_id = 4;
  pending_event_id = 5;
  session_clock = pos 0;
  turn_clock = pos 0;
  created_clock = pos 0;
  pending_clock = pos 0;
}

abbrev request : SendRequest
request = record {
  session_id = none;
  user_text = bytes "hi";
  project_id = none;
  saved_project_instructions = [];
  provider_profile_id = owner;
  model_id = bytes "m";
  source = none;
  effort = none;
  effort_available = false;
}

abbrev finish_stamps : FinishStamps
finish_stamps = record {
  event_id = 10;
  turn_clock = pos 0;
  session_clock = pos 0;
  event_clock = pos 0;
}

-- A turn is sent and completed, and cancelled then, as the one that ended before.
abbrev conversation : List AgentCall
conversation =
    send stamps request
    ∷ complete finish_stamps 2 none none none
    ∷ cancel finish_stamps 2
    ∷ cancel finish_stamps 8
    ∷ []

free : AllCheckpoints conversation
free = (tt, (tt, (tt, (tt, tt))))

one_inflight_before : inflight_rows store.tables.agent_turns ≤ 1
unfolding count_rows is_inflight_label
one_inflight_before = ground arith

calls-one_inflight_example :
    inflight_rows (calls printing digest conversation store).tables.agent_turns ≤ 1
calls-one_inflight_example =
    calls-one_inflight printing digest conversation store one_inflight_before

completed_is_terminal : is_terminal_label ended_event.kind ≡ true
unfolding is_terminal_label
completed_is_terminal = refl

IsTold-before : IsTold store.tables.agent_turns store.tables.agent_events
unfolding rows_of ended_rows terminal_events count_rows is_inflight_label
IsTold-before id = ground (arith, completed_is_terminal)

abbrev after : SqliteStore
after = calls printing digest conversation store

calls-IsTold_example :
    (terminal_events (2 ∷ []) after.tables.agent_events
      ≡ ended_rows (2 ∷ []) after.tables.agent_turns)
    × (rows_of (2 ∷ []) after.tables.agent_turns ≤ 1)
calls-IsTold_example = calls-IsTold printing digest conversation store free IsTold-before (2 ∷ [])

calls-ended_final_example :
    Has ended_row (calls printing digest conversation store).tables.agent_turns
unfolding is_inflight_label
calls-ended_final_example =
    calls-ended_final printing digest conversation store ended_row refl (inl refl)
