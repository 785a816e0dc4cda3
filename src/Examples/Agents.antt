-- ===== src/Examples/Agents.antt =====
-- Sources, turns, requests and catalogs at concrete inputs: crates/tule-core/src/agent_source.rs, agent.rs
-- and provider_catalog.rs.
use tule.Base.{
  ℕ, ◌≤◌, ◌≡◌, ◌⊎◌, refl, true, false, none, some, List, [], ◌∷◌, ok, Text, bytes, pos, any, ◌==◌,
  text_eq, Text-discrete, ℕ_discrete, arith, map_err, ◌>>◌, ltb, min, ◌^◌, ◌-◌, if◌then◌else◌, err,
}
use tule.Base.Scalars.{chars, trim, is_whitespace}
use tule.Base.Sort.{count_if, IsSorted}
use tule.AgentIds.{IsStored}
use tule.Canonical.{hash_source_bytes}
use tule.Source.{Source, new_local_text_folder, validate_members, source_origin_local_text_folder}
use tule.Source.Folder.{frame_folder_members}
use tule.Clock.{unix_now_ms}
use tule.Source.Validation.{validate_source_display_name, validate_source_content}
use tule.Source.Stored.{ReadsBack, AreTexts, local_text_folder, new_source-ReadsBack}
use tule.Agent.State.{pending, completed, is_terminal}
use tule.Agent.Input.{validate_user_text}
use tule.Agent.Turn.{AgentTurn}
use tule.Agent.Context.{assemble_instructions, build_agent_request_context, max_context_utf8}
use tule.Agent.Errors.{AgentContextError}
use tule.Agent.Bounds.{request_size, build_agent_request_context_lem}
use tule.Agent.Life.{
  TurnCall, append, stream, complete_with, cancel_at, calls, calls-final, calls-IsTurn, IsTurn,
}
use tule.Catalog.{
  CatalogCandidate, ModelCatalogEntry, entry_order, select_usable_catalog_entries,
  is_usable_catalog_candidate, catalog_entry, sanitize_description, model_id_in_catalog,
  resolve_selected_default, available, trimmed_choice,
}
use tule.Catalog.Selection.{
  offers, select_usable_catalog_entries_lem, resolve_selected_default-offers,
}
use tule.AgentTables.Rows.{Tables}
use tule.AgentTables.Statements.{insert_turn, turn_row, turn_fits}
use tule.AgentTables.Queries.{find_turn_row}
use tule.AgentTables.RoundTrip.{HasStoredIds, find_turn-insert_turn}
use tule.Examples.Data.{digest, owner}
use tule.Examples.Sessions.{printing, store}

abbrev members : List (Text × Text)
members = (bytes "b", bytes "one\ntwo") ∷ (bytes "a", bytes "hi") ∷ []

abbrev folder : Source
folder = record {
  id = 3;
  origin_kind = source_origin_local_text_folder;
  display_name = bytes "f";
  byte_count = 63;
  content_sha256 = hash_source_bytes digest (frame_folder_members members);
  content = frame_folder_members members;
  member_count = 2;
  canonical_url = none;
  created_at_unix_ms = pos 0;
}

folder_made : new_local_text_folder digest 3 (pos 0) (bytes "f") members ≡ ok folder
unfolding new_local_text_folder validate_members validate_source_display_name
    validate_source_content frame_folder_members unix_now_ms ℕ_discrete
folder_made = refl

pub IsStored-id : (id : ℕ) → IsStored printing id
IsStored-id id = record { parses = refl; rfc4122 = refl; sort_rand = refl }

members-AreTexts : AreTexts members
unfolding chars
members-AreTexts = ((((omega arith), tt), refl), ((((omega arith), tt), refl), tt))

new_source-ReadsBack_example : ReadsBack printing digest folder
new_source-ReadsBack_example =
    new_source-ReadsBack printing digest folder (λ x. omega arith) (λ x. refl) (IsStored-id 3)
      (local_text_folder 3 (pos 0) (bytes "f") members members-AreTexts folder_made)

abbrev new_turn : AgentTurn
new_turn = record {
  id = 11;
  session_id = 9;
  ordinal = 1;
  user_text = bytes "hi";
  agent_text = [];
  state = pending;
  error_code = none;
  provider_profile_id = owner;
  model_id = bytes "m";
  effort = none;
  provider_request_id = 7;
  provider_response_id = none;
  usage_input_tokens = none;
  usage_output_tokens = none;
  project_id = none;
  project_instructions = [];
  prompt_version = bytes "v";
  started_at_unix_ms = pos 0;
  finished_at_unix_ms = none;
}

abbrev answered : List TurnCall
answered =
    append (bytes "hel")
    ∷ stream
    ∷ append (bytes "lo")
    ∷ complete_with (pos 5) none none none
    ∷ cancel_at (pos 6)
    ∷ []

calls-IsTurn_example : IsTurn (calls answered new_turn)
calls-IsTurn_example =
    calls-IsTurn answered new_turn (tt, (tt, (tt, (tt, (tt, tt)))))
      ((refl, refl, refl, refl, refl), omega arith)

abbrev ended_turn : AgentTurn
ended_turn = record new_turn { state = completed; finished_at_unix_ms = some (pos 4) }

calls-final_example :
    calls answered ended_turn
    ≡ record ended_turn { agent_text = (calls answered ended_turn).agent_text }
unfolding is_terminal
calls-final_example = calls-final answered ended_turn refl

abbrev stored_ids : HasStoredIds printing new_turn
stored_ids = record {
  id = IsStored-id 11;
  session_id = IsStored-id 9;
  provider_request_id = IsStored-id 7;
  project_id = λ id h. IsStored-id id;
}

-- The tables after the turn is inserted.
abbrev inserted : Tables
inserted = record store.tables {
  agent_turns = turn_row printing new_turn (pos 1) none none ∷ store.tables.agent_turns;
}

turn_inserted : insert_turn printing new_turn store.tables ≡ ok inserted
unfolding insert_turn turn_fits Text-discrete
turn_inserted = refl

find_turn-insert_turn_example : find_turn_row printing 11 inserted ≡ ok (some new_turn)
find_turn-insert_turn_example =
    find_turn-insert_turn printing new_turn store.tables inserted stored_ids turn_inserted

build_agent_request_context_lem_example :
    build_agent_request_context [] (bytes "hi") none (bytes "m") none none ≡ (
      map_err AgentContextError.invalid_input (validate_user_text (bytes "hi"))
      >> (if ltb max_context_utf8 (request_size [] (bytes "hi") none none)
          then err (
              AgentContextError.context_limit
                (min (request_size [] (bytes "hi") none none) (2 ^ 64 - 1)))
          else ok (record {
            model_id = bytes "m";
            instructions = assemble_instructions none;
            completed_history = [];
            current_user_text = bytes "hi";
            current_source = none;
            effort = none;
          })))
build_agent_request_context_lem_example =
    build_agent_request_context_lem [] (bytes "hi") none (bytes "m") none none

abbrev candidate : CatalogCandidate
candidate = record {
  model_id = bytes "m";
  display_name = bytes "M";
  description = none;
  visibility = bytes "list";
  input_modalities = none;
  tool_mode = none;
  use_responses_lite = false;
  sort_order = pos 1;
  is_provider_default = true;
}

abbrev candidates : List CatalogCandidate
candidates = candidate ∷ candidate ∷ []

select_usable_catalog_entries_lem_example :
    (model_id_in_catalog (bytes "m") (select_usable_catalog_entries candidates)
      ≡ any (offers (bytes "m")) candidates)
    × (count_if
          (λ (entry : ModelCatalogEntry). entry.model_id == bytes "m")
          (select_usable_catalog_entries candidates)
        ≤ 1)
    × IsSorted entry_order (select_usable_catalog_entries candidates)
select_usable_catalog_entries_lem_example = select_usable_catalog_entries_lem candidates (bytes "m")

default_resolved :
    resolve_selected_default none (select_usable_catalog_entries candidates) (bytes "m")
    ≡ available (bytes "m")
unfolding resolve_selected_default select_usable_catalog_entries is_usable_catalog_candidate
    catalog_entry sanitize_description is_whitespace
default_resolved = refl

resolve_selected_default-offers_example :
    (any (offers (bytes "m")) candidates ≡ true)
    × ((trimmed_choice none ≡ some (bytes "m"))
        ⊎ (trimmed_choice none ≡ none) × (bytes "m" ≡ trim (bytes "m")))
resolve_selected_default-offers_example =
    resolve_selected_default-offers candidates none (bytes "m") (bytes "m") default_resolved
