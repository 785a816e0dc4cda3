-- ===== src/AgentTables/Queries.antt =====
-- The queries: apps/desktop/src-tauri/src/sqlite/agents.rs, with `reconstruct_session`,
-- `reconstruct_turn` and `reconstruct_event`.
use tule.Base.{
  ℕ, Bool, true, false, not, Option, none, some, List, [], ◌∷◌, ◌++◌, Result, ok, ◌>>=◌, map_err,
  Text, bytes, ℤ, pos, add_i64, leb_ℤ, find, ltb, ◌==◌, nat_eq, text_eq, Text-discrete, ℕ_discrete,
  if◌then◌else◌,
}
use tule.Base.Sort.{sort_by, leb_text}
use tule.Ids.{UuidCrate}
use tule.AgentIds.{AgentSessionId, AgentTurnId, ProjectId, transpose, parse_agent_id}
use tule.Canonical.{Digest}
use tule.Source
use tule.Source.Errors.{invalid_id}
use tule.Source.Framing.{TurnSource}
use tule.Agent.Session.{AgentSession, session_from_stored_parts}
use tule.Agent.Turn.{AgentTurn, turn_from_stored_parts}
use tule.Agent.Event.{AgentEvent, event_from_stored_parts}
use tule.AgentRepository.{ProviderProfile}
use tule.AgentUseCases.History.{select}
use tule.AgentTables.Rows.{
  SqliteStoreError, malformed_agent, malformed_source, SessionRow, TurnRow, EventRow, SourceRow,
  TurnSourceRow, Tables, to_u64, to_u32,
}
use tule.AgentTables.Constraints.{same_ℤ, count_rows}
use tule.AgentTables.Statements.{is_inflight_label}

abbrev pub Query : Type 0 → Type 0
Query A = Tables → Result SqliteStoreError A

-- `collect()` of the rows as they are read: the first error ends it.
abbrev pub collect :
    {A B : Type 0} → (A → Result SqliteStoreError B) → List A → Result SqliteStoreError (List B)
collect f [] = ok []
collect f (row ∷ rows) = f row >>= λ b. collect f rows >>= λ bs. ok (b ∷ bs)

-- `optional()` of a query by key, with the row as it is read.
abbrev pub read_optional :
    {A B : Type 0} → (A → Result SqliteStoreError B) → Option A → Result SqliteStoreError (Option B)
read_optional f row = transpose f row

unfoldable pub get_profile : Text → Query (Option ProviderProfile)
unfolding Text-discrete ℕ_discrete
get_profile id tables = ok (find (λ row. row.id == id) tables.provider_profiles)

unfoldable pub reconstruct_session : UuidCrate → SessionRow → Result SqliteStoreError AgentSession
reconstruct_session u row = map_err malformed_agent (
    session_from_stored_parts u row.id row.title row.project_id row.provider_profile_id row.model_id
      row.created_at_unix_ms row.updated_at_unix_ms)

unfoldable pub find_session_row : UuidCrate → AgentSessionId → Query (Option AgentSession)
unfolding Text-discrete ℕ_discrete
find_session_row u id tables =
    read_optional (reconstruct_session u)
      (find (λ row. row.id == u.to_string id) tables.agent_sessions)

-- ORDER BY updated_at_unix_ms DESC, id DESC.
abbrev newest_first : SessionRow → SessionRow → Bool
newest_first left right =
    if same_ℤ left.updated_at_unix_ms right.updated_at_unix_ms
    then leb_text right.id left.id
    else leb_ℤ right.updated_at_unix_ms left.updated_at_unix_ms

abbrev sessions_where : UuidCrate → (SessionRow → Bool) → Query (List AgentSession)
sessions_where u filter tables =
    collect (reconstruct_session u) (sort_by newest_first (select filter tables.agent_sessions))

unfoldable pub list_session_rows : UuidCrate → Query (List AgentSession)
list_session_rows u = sessions_where u (λ row. true)

abbrev is_some_text : Text → Option Text → Bool
is_some_text key none = false
is_some_text key (some value) = value == key

abbrev is_null : Option Text → Bool
is_null none = true
is_null (some value) = false

unfoldable pub sessions_of_project : UuidCrate → ProjectId → Query (List AgentSession)
unfolding Text-discrete ℕ_discrete
sessions_of_project u project_id =
    sessions_where u (λ row. is_some_text (u.to_string project_id) row.project_id)

unfoldable pub projectless_sessions : UuidCrate → Query (List AgentSession)
projectless_sessions u = sessions_where u (λ row. is_null row.project_id)

abbrev pub first : {A : Type 0} → List A → Option A
first [] = none
first (x ∷ xs) = some x

unfoldable pub first_session : UuidCrate → Query (Option AgentSession)
unfolding list_session_rows
first_session u tables = list_session_rows u tables >>= λ sessions. ok (first sessions)

-- The numbers of the row are read first, and then its texts.
unfoldable pub reconstruct_turn : UuidCrate → TurnRow → Result SqliteStoreError AgentTurn
reconstruct_turn u row = to_u64 row.ordinal >>= λ ordinal.
    transpose to_u64 row.usage_input_tokens >>= λ input.
    transpose to_u64 row.usage_output_tokens >>= λ output. map_err malformed_agent (
      turn_from_stored_parts u (record {
        id = row.id;
        session_id = row.session_id;
        ordinal = ordinal;
        user_text = row.user_text;
        agent_text = row.agent_text;
        state = row.state;
        error_code = row.error_code;
        provider_profile_id = row.provider_profile_id;
        model_id = row.model_id;
        effort = row.effort;
        provider_request_id = row.provider_request_id;
        provider_response_id = row.provider_response_id;
        usage_input_tokens = input;
        usage_output_tokens = output;
        project_id = row.project_id;
        project_instructions = row.project_instructions;
        prompt_version = row.prompt_version;
        started_at_unix_ms = row.started_at_unix_ms;
        finished_at_unix_ms = row.finished_at_unix_ms;
      }))

unfoldable pub find_turn_row : UuidCrate → AgentTurnId → Query (Option AgentTurn)
unfolding Text-discrete ℕ_discrete
find_turn_row u id tables =
    read_optional (reconstruct_turn u) (find (λ row. row.id == u.to_string id) tables.agent_turns)

abbrev by_ordinal : TurnRow → TurnRow → Bool
by_ordinal left right = leb_ℤ left.ordinal right.ordinal

abbrev pub turns_of : UuidCrate → AgentSessionId → Tables → List TurnRow
turns_of u session_id tables =
    select (λ row. row.session_id == u.to_string session_id) tables.agent_turns

unfoldable pub list_turn_rows : UuidCrate → AgentSessionId → Query (List AgentTurn)
unfolding Text-discrete ℕ_discrete
list_turn_rows u session_id tables =
    collect (reconstruct_turn u) (sort_by by_ordinal (turns_of u session_id tables))

-- `SELECT MAX(…)`.
abbrev pub max_of : List ℤ → Option ℤ
max_of [] = none
max_of (x ∷ xs) = elim (max_of xs) [ none ↦ some x | some m ↦ some (if leb_ℤ x m then m else x) ]

abbrev ordinals : List TurnRow → List ℤ
ordinals [] = []
ordinals (row ∷ rows) = row.ordinal ∷ ordinals rows

abbrev sequences : List EventRow → List ℤ
sequences [] = []
sequences (row ∷ rows) = row.sequence ∷ sequences rows

-- One more than the greatest number, or zero if there is none.
unfoldable pub one_more : Option ℤ → Result SqliteStoreError ℕ
unfolding add_i64
one_more none = ok 0
one_more (some value) = to_u64 (add_i64 value (pos 1))

unfoldable pub next_ordinal : UuidCrate → AgentSessionId → Query ℕ
unfolding one_more Text-discrete ℕ_discrete
next_ordinal u session_id tables = one_more (max_of (ordinals (turns_of u session_id tables)))

unfoldable pub has_inflight : Query Bool
unfolding count_rows is_inflight_label
has_inflight tables =
    ok (ltb 0 (count_rows (λ (row : TurnRow). is_inflight_label row.state) tables.agent_turns))

abbrev by_start : TurnRow → TurnRow → Bool
by_start left right =
    if same_ℤ left.started_at_unix_ms right.started_at_unix_ms
    then leb_text left.id right.id
    else leb_ℤ left.started_at_unix_ms right.started_at_unix_ms

unfoldable pub list_inflight : UuidCrate → Query (List AgentTurn)
unfolding is_inflight_label
list_inflight u tables =
    collect (reconstruct_turn u)
      (sort_by by_start (select (λ row. is_inflight_label row.state) tables.agent_turns))

abbrev pub events_of : UuidCrate → AgentSessionId → Tables → List EventRow
events_of u session_id tables =
    select (λ row. row.session_id == u.to_string session_id) tables.agent_events

unfoldable pub next_number : UuidCrate → AgentSessionId → Query ℕ
unfolding one_more Text-discrete ℕ_discrete
next_number u session_id tables = one_more (max_of (sequences (events_of u session_id tables)))

unfoldable pub reconstruct_event : UuidCrate → EventRow → Result SqliteStoreError AgentEvent
reconstruct_event u row = to_u64 row.sequence >>= λ sequence. map_err malformed_agent (
    event_from_stored_parts u row.id row.session_id row.turn_id sequence row.kind
      row.created_at_unix_ms)

abbrev by_sequence : EventRow → EventRow → Bool
by_sequence left right = leb_ℤ left.sequence right.sequence

unfoldable pub list_event_rows : UuidCrate → AgentSessionId → Query (List AgentEvent)
unfolding Text-discrete ℕ_discrete
list_event_rows u session_id tables =
    collect (reconstruct_event u) (sort_by by_sequence (events_of u session_id tables))

-- A row of the join of the turns, their associations and the sources.
pub record JoinedRow : Type 0 where
  pub turn : TurnRow
  pub association : TurnSourceRow
  pub source : SourceRow

abbrev join_source : Tables → TurnRow → List TurnSourceRow → List JoinedRow
join_source tables turn [] = []
join_source tables turn (association ∷ associations) =
    let rest = join_source tables turn associations in
    if not (association.turn_id == turn.id)
    then rest
    else elim (find (λ (row : SourceRow). row.id == association.source_id) tables.agent_sources) [
      | none ↦ rest
      | some source ↦ record { turn = turn; association = association; source = source } ∷ rest
    ]

abbrev join_turns : Tables → List TurnRow → List JoinedRow → List JoinedRow
join_turns tables [] joined = joined
join_turns tables (turn ∷ turns) joined =
    join_turns tables turns (join_source tables turn tables.agent_turn_sources ++ joined)

-- ORDER BY t.ordinal ASC, ts.attachment_order ASC.
abbrev by_attachment : JoinedRow → JoinedRow → Bool
by_attachment left right =
    if same_ℤ left.turn.ordinal right.turn.ordinal
    then leb_ℤ left.association.attachment_order right.association.attachment_order
    else leb_ℤ left.turn.ordinal right.turn.ordinal

unfoldable pub reconstruct_source :
    UuidCrate → Digest → JoinedRow → Result SqliteStoreError TurnSource
reconstruct_source u digest joined = to_u64 joined.source.byte_count >>= λ byte_count.
    to_u32 joined.association.attachment_order >>= λ attachment_order.
    transpose to_u32 joined.source.member_count >>= λ member_count.
    map_err malformed_source (
      Source.from_stored_parts u digest joined.source.id joined.source.origin_kind
        joined.source.display_name byte_count joined.source.content_sha256 joined.source.content
        member_count joined.source.canonical_url joined.source.created_at_unix_ms)
    >>= λ source.
        map_err (λ e. malformed_source (invalid_id e))
          (parse_agent_id u (bytes "agent turn ID") joined.turn.id)
        >>= λ turn_id.
            ok (record { turn_id = turn_id; source = source; attachment_order = attachment_order })

unfoldable pub list_source_rows : UuidCrate → Digest → AgentSessionId → Query (List TurnSource)
unfolding Text-discrete ℕ_discrete
list_source_rows u digest session_id tables =
    collect (reconstruct_source u digest)
      (sort_by by_attachment (join_turns tables (turns_of u session_id tables) []))
