-- ===== src/AgentTables.antt =====
-- The store of sessions in SQLite: apps/desktop/src-tauri/src/sqlite/agents.rs, over the tables of
-- apps/desktop/src-tauri/migrations. A table is the list of its rows. A statement fails exactly if it
-- breaks a constraint of the schema (a key that is there, a reference to a row that is not); other
-- failures of the database are not modelled. A transaction that fails leaves the tables as they were.
pub mod Rows
pub mod Constraints
pub mod SessionStatements
pub mod Statements
pub mod Queries
pub mod Counts
pub mod Closure
pub mod Kept
pub mod Executing
pub mod Values
pub mod Ending
pub mod Going
pub mod Persisting
pub mod Sending
pub mod Streaming
pub mod Histories
pub mod AnyCheckpoint
pub mod Terminal
pub mod InFlight
pub mod RoundTrip
use tule.Base.{
  ℕ, Bool, true, false, Option, none, some, List, [], ◌∷◌, Result, ok, err, ◌>>=◌, ◌>>◌, map_err,
  Text, if◌then◌else◌,
}
use tule.Base.Actions.{Action}
use tule.Ids.{UuidCrate}
use tule.AgentIds.{AgentSessionId, AgentTurnId, ProjectId}
use tule.Canonical.{Digest}
use tule.Source.{Source}
use tule.Source.Framing.{TurnSource}
use tule.Agent.Session.{AgentSession}
use tule.Agent.Turn.{AgentTurn}
use tule.Agent.Event.{AgentEvent}
use tule.AgentRepository.{AgentRepository, ProviderProfile}
use Rows.{Tables, SqliteStoreError, lock_poisoned}
use Constraints.{Statement}
use SessionStatements.{insert_profile, update_profile, insert_session, update_session}
use Statements.{
  insert_turn, update_turn, update_inflight_turn, insert_event, insert_optional_source,
}
use Queries.{
  Query, get_profile, find_session_row, list_session_rows, sessions_of_project,
  projectless_sessions, first_session, find_turn_row, list_turn_rows, next_ordinal, has_inflight,
  list_inflight, next_number, list_event_rows, list_source_rows,
}

pub record SqliteStore : Type 0 where
  pub poisoned : Bool
  pub tables : Tables

-- A statement, or a transaction of several: committed if all of it succeeds.
unfoldable pub execute : Statement → Action SqliteStore SqliteStoreError (Unit {0})
execute statement store =
    if store.poisoned then (store, err lock_poisoned) else elim (statement store.tables) [
      | ok tables ↦ (record store { tables = tables }, ok tt)
      | err e ↦ (store, err e)
    ]

unfoldable pub query : {A : Type 0} → Query A → Action SqliteStore SqliteStoreError A
query q store = if store.poisoned then (store, err lock_poisoned) else (store, q store.tables)

-- The steps of a transaction, one after the other.
infixr 20 ◌then_do◌
abbrev pub ◌then_do◌ : Statement → Statement → Statement
(first then_do second) tables = first tables >>= second

unfoldable pub create_session_with_first_turn :
    UuidCrate → AgentSession → AgentTurn → AgentEvent → AgentEvent → Option Source → Statement
create_session_with_first_turn u session turn session_created turn_pending source =
    insert_session u session
    then_do insert_turn u turn
    then_do insert_optional_source u turn.id source
    then_do insert_event u session_created
    then_do insert_event u turn_pending

unfoldable pub append_turn_with_pending_event :
    UuidCrate → AgentSession → AgentTurn → AgentEvent → Option Source → Statement
append_turn_with_pending_event u session turn turn_pending source =
    update_session u session
    then_do insert_turn u turn
    then_do insert_optional_source u turn.id source
    then_do insert_event u turn_pending

abbrev insert_optional_event : UuidCrate → Option AgentEvent → Statement
insert_optional_event u none tables = ok tables
insert_optional_event u (some event) tables = insert_event u event tables

unfoldable pub checkpoint_turn : UuidCrate → AgentTurn → Option AgentEvent → Statement
checkpoint_turn u turn streaming_event =
    update_inflight_turn u turn then_do insert_optional_event u streaming_event

unfoldable pub finish_turn_with_terminal_event :
    UuidCrate → AgentSession → AgentTurn → AgentEvent → Statement
finish_turn_with_terminal_event u session turn terminal_event =
    update_session u session
    then_do update_inflight_turn u turn
    then_do insert_event u terminal_event

unfoldable pub finish_turns_with_terminal_events :
    UuidCrate → List (AgentSession × AgentTurn × AgentEvent) → Statement
unfolding finish_turn_with_terminal_event
finish_turns_with_terminal_events u [] tables = ok tables
finish_turns_with_terminal_events u ((session, turn, terminal_event) ∷ updates) tables =
    finish_turn_with_terminal_event u session turn terminal_event tables
    >>= finish_turns_with_terminal_events u updates

-- `impl AgentRepository for SqliteStore`.
abbrev pub sqlite : UuidCrate → Digest → AgentRepository
sqlite u digest = record {
  Store = SqliteStore;
  Error = SqliteStoreError;
  ensure_provider_profile = λ profile. execute (insert_profile profile);
  get_provider_profile = λ id. query (get_profile id);
  update_provider_profile = λ profile. execute (update_profile profile);
  create_session = λ session. execute (insert_session u session);
  update_session = λ session. execute (update_session u session);
  find_session = λ id. query (find_session_row u id);
  list_sessions = query (list_session_rows u);
  list_sessions_for_project = λ project_id. query (sessions_of_project u project_id);
  list_projectless_sessions = query (projectless_sessions u);
  most_recent_session = query (first_session u);
  create_turn = λ turn. execute (insert_turn u turn);
  update_turn = λ turn. execute (update_turn u turn);
  find_turn = λ id. query (find_turn_row u id);
  list_turns = λ session_id. query (list_turn_rows u session_id);
  next_turn_ordinal = λ session_id. query (next_ordinal u session_id);
  has_inflight_turn = query has_inflight;
  list_inflight_turns = query (list_inflight u);
  append_event = λ event. execute (insert_event u event);
  update_session_with_event =
      λ session event. execute (update_session u session then_do insert_event u event);
  next_event_sequence = λ session_id. query (next_number u session_id);
  list_events = λ session_id. query (list_event_rows u session_id);
  create_session_with_first_turn = λ session turn created pending source.
      execute (create_session_with_first_turn u session turn created pending source);
  append_turn_with_pending_event = λ session turn pending source.
      execute (append_turn_with_pending_event u session turn pending source);
  list_turn_sources = λ session_id. query (list_source_rows u digest session_id);
  checkpoint_turn = λ turn event. execute (checkpoint_turn u turn event);
  finish_turn_with_terminal_event =
      λ session turn event. execute (finish_turn_with_terminal_event u session turn event);
  finish_turns_with_terminal_events =
      λ updates. execute (finish_turns_with_terminal_events u updates);
}
