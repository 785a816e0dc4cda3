-- ===== src/AgentTables/RoundTrip.antt =====
-- A turn that was stored is read back: apps/desktop/src-tauri/src/sqlite/agents.rs, `insert_turn`,
-- `find_turn` and `reconstruct_turn`.
use mathlib.Core.Option
use tule.Base.{
  ℕ, ◌≡◌, refl, ap, ◌∙◌, Option, none, some, List, ◌∷◌, ok, bind_ok, Text, bytes, ℤ, pos, negsuc,
  find, ◌==◌, text_eq, arith,
}
use tule.Ids.{UuidCrate}
use tule.AgentIds.{
  IsStored, ProjectId, transpose, parse_project_id, parse_agent_id-to_string,
  parse_project_id-to_string,
}
use tule.Agent.State.{
  AgentEffort, low, medium, high, effort_label, parse_effort, AgentTurnState, pending, streaming,
  completed, cancelled, failed, interrupted, state_label, parse_state,
}
use tule.Agent.Turn.{AgentTurn, turn_from_stored_parts}
use tule.AgentTables.Rows.{Tables, TurnRow, to_i64, to_u64}
use tule.AgentTables.Statements.{turn_row, add_turn_row, insert_turn}
use tule.AgentTables.Queries.{reconstruct_turn, find_turn_row}
use tule.AgentTables.Counts.{test_refl}

-- All identifiers of a turn are printed and parsed back.
pub record HasStoredIds (u : UuidCrate) (turn : AgentTurn) : Type 0 where
  pub id : IsStored u turn.id
  pub session_id : IsStored u turn.session_id
  pub provider_request_id : IsStored u turn.provider_request_id
  pub project_id : (id : ProjectId) → turn.project_id ≡ some id → IsStored u id

parse_state-state_label : (s : AgentTurnState) → parse_state (state_label s) ≡ ok s
unfolding parse_state
parse_state-state_label pending = refl
parse_state-state_label streaming = refl
parse_state-state_label completed = refl
parse_state-state_label cancelled = refl
parse_state-state_label failed = refl
parse_state-state_label interrupted = refl

parse_effort-effort_label :
    (e : Option AgentEffort) → transpose parse_effort (Option.map effort_label e) ≡ ok e
unfolding parse_effort
parse_effort-effort_label none = refl
parse_effort-effort_label (some low) = refl
parse_effort-effort_label (some medium) = refl
parse_effort-effort_label (some high) = refl

project-to_string :
    (u : UuidCrate) (project_id : Option ProjectId)
    → ((id : ProjectId) → project_id ≡ some id → IsStored u id)
    → transpose (parse_project_id u) (Option.map u.to_string project_id) ≡ ok project_id
project-to_string u none h = refl
project-to_string u (some id) h = rw (parse_project_id-to_string u id (h id refl)) refl

to_u64-to_i64 : (n : ℕ) (z : ℤ) → to_i64 n ≡ ok z → to_u64 z ≡ ok n
to_u64-to_i64 n (pos m) h = ground arith
to_u64-to_i64 n (negsuc m) h = ground arith

count-back : (n : Option ℕ) (z : Option ℤ) → transpose to_i64 n ≡ ok z → transpose to_u64 z ≡ ok n
count-back none none h = refl
count-back none (some z) h = ground arith
count-back (some n) none h = ground arith
count-back (some n) (some z) h = ground (arith, to_u64-to_i64 n z)

reconstruct_turn-turn_row :
    (u : UuidCrate) (turn : AgentTurn) (ordinal : ℤ) (input output : Option ℤ)
    → HasStoredIds u turn
    → to_i64 turn.ordinal ≡ ok ordinal
    → transpose to_i64 turn.usage_input_tokens ≡ ok input
    → transpose to_i64 turn.usage_output_tokens ≡ ok output
    → reconstruct_turn u (turn_row u turn ordinal input output) ≡ ok turn
unfolding reconstruct_turn turn_from_stored_parts
reconstruct_turn-turn_row u turn ordinal input output ids o i t =
    rw
      (
        to_u64-to_i64 turn.ordinal ordinal o,
        count-back turn.usage_input_tokens input i,
        count-back turn.usage_output_tokens output t,
        project-to_string u turn.project_id ids.project_id,
        parse_effort-effort_label turn.effort,
        parse_agent_id-to_string u (bytes "agent turn ID") turn.id ids.id,
        parse_agent_id-to_string u (bytes "agent session ID") turn.session_id ids.session_id,
        parse_state-state_label turn.state,
        parse_agent_id-to_string u (bytes "provider request ID") turn.provider_request_id
            ids.provider_request_id,
      )
      refl

added_turns :
    (row : TurnRow) (tables after : Tables)
    → add_turn_row row tables ≡ ok after
    → after.agent_turns ≡ row ∷ tables.agent_turns
unfolding add_turn_row
added_turns row tables after h = ground arith

find-first :
    (key : Text) (row : TurnRow) (rows : List TurnRow)
    → row.id ≡ key
    → find (λ (r : TurnRow). r.id == key) (row ∷ rows) ≡ some row
find-first key row rows same = ground (arith, test_refl key)

-- The row that was added is found by its key.
find_turn_row-added :
    (u : UuidCrate) (turn : AgentTurn) (row : TurnRow) (tables after : Tables)
    → row.id ≡ u.to_string turn.id
    → add_turn_row row tables ≡ ok after
    → reconstruct_turn u row ≡ ok turn
    → find_turn_row u turn.id after ≡ ok (some turn)
unfolding find_turn_row
find_turn_row-added u turn row tables after same h back =
    ap
      (λ rows.
        transpose (reconstruct_turn u) (find (λ (r : TurnRow). r.id == u.to_string turn.id) rows))
      (added_turns row tables after h)
    ∙ (ap (transpose (reconstruct_turn u))
          (find-first (u.to_string turn.id) row tables.agent_turns same)
        ∙ rw back refl)

-- A turn that is inserted is read back with all its fields, if its identifiers are printed and parsed
-- back.
pub find_turn-insert_turn :
    (u : UuidCrate) (turn : AgentTurn) (tables after : Tables)
    → HasStoredIds u turn
    → insert_turn u turn tables ≡ ok after
    → find_turn_row u turn.id after ≡ ok (some turn)
unfolding insert_turn
find_turn-insert_turn u turn tables after ids h =
    let (ordinal, o, rest) = bind_ok (to_i64 turn.ordinal) _ h in
    let (input, i, rest_input) = bind_ok (transpose to_i64 turn.usage_input_tokens) _ rest in
    let (output, t, added) = bind_ok (transpose to_i64 turn.usage_output_tokens) _ rest_input in
    find_turn_row-added u turn (turn_row u turn ordinal input output) tables after refl added
      (reconstruct_turn-turn_row u turn ordinal input output ids o i t)
