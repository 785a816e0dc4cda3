-- ===== src/AgentTables/Counts.antt =====
-- Counts of the rows of a table under an update: what the statements of
-- apps/desktop/src-tauri/src/sqlite/agents.rs do to the turns and events of one key.
use tule.Base.{
  ℕ, ◌+◌, ◌≤◌, ◌≡◌, refl, ap, Bool, true, false, not, ◌&&◌, Option, none, some, List, [], ◌∷◌, Text,
  ◌==◌, nat_eq, text_eq, arith,
}
use tule.AgentTables.Rows.{TurnRow, EventRow}
use tule.AgentTables.Constraints.{has_turn, update_rows, count_rows}
use tule.AgentTables.Statements.{is_inflight_label, is_inflight_row}
use tule.AgentTables.Closure.{Writes, inflight_rows, is_terminal_label}

abbrev pub is_about : Text → Option Text → Bool
is_about id none = false
is_about id (some turn_id) = turn_id == id

-- The turns with a key, those of them that have ended, and the events that end a turn.
unfoldable pub rows_of : Text → List TurnRow → ℕ
rows_of id turns = count_rows (λ (row : TurnRow). row.id == id) turns

unfoldable pub ended_rows : Text → List TurnRow → ℕ
ended_rows id turns =
    count_rows (λ (row : TurnRow). (row.id == id) && not (is_inflight_label row.state)) turns

unfoldable pub terminal_events : Text → List EventRow → ℕ
terminal_events id events =
    count_rows (λ (event : EventRow). is_about id event.turn_id && is_terminal_label event.kind)
      events

pub eq_of_test : (a b : Text) → a == b ≡ true → a ≡ b
eq_of_test a b h = ground arith

pub test_refl : (a : Text) → a == a ≡ true
test_refl a = ground arith

-- A key that is not there has no rows.
pub rows_of_new :
    (id : Text) (turns : List TurnRow) → has_turn turns id ≡ false → rows_of id turns ≡ 0
unfolding rows_of count_rows
rows_of_new id [] h = refl
rows_of_new id (row ∷ turns) h = ground (arith, rows_of_new id turns)

pub ended-le-rows : (id : Text) (turns : List TurnRow) → ended_rows id turns ≤ rows_of id turns
unfolding ended_rows rows_of count_rows
ended-le-rows id [] = omega arith
ended-le-rows id (row ∷ turns) = ground (arith, ended-le-rows id turns)

module _ (id : Text) (write : TurnRow → TurnRow) where
  -- A write keeps the keys.
  pub rows_of-update :
      (inflight : Bool) (x : Text) (turns : List TurnRow)
      → Writes write inflight
      → rows_of x (update_rows (is_inflight_row id) write turns) ≡ rows_of x turns
  unfolding rows_of count_rows update_rows
  rows_of-update inflight x [] w = refl
  rows_of-update inflight x (row ∷ turns) w =
      ground (arith, rows_of-update inflight x turns w, ap (λ t. t == x) (w row).0)

  -- A write that leaves a turn in flight changes neither count.
  pub ended-checkpoint :
      (x : Text) (turns : List TurnRow)
      → Writes write true
      → ended_rows x (update_rows (is_inflight_row id) write turns) ≡ ended_rows x turns
  unfolding ended_rows count_rows update_rows
  ended-checkpoint x [] w = refl
  ended-checkpoint x (row ∷ turns) w =
      ground (arith, ended-checkpoint x turns w, ap (λ t. t == x) (w row).0, (w row).1)

  pub inflight-checkpoint :
      (turns : List TurnRow)
      → Writes write true
      → inflight_rows (update_rows (is_inflight_row id) write turns) ≡ inflight_rows turns
  unfolding count_rows update_rows
  inflight-checkpoint [] w = refl
  inflight-checkpoint (row ∷ turns) w = ground (arith, inflight-checkpoint turns w, (w row).1)

  pub inflight-finish :
      (turns : List TurnRow)
      → Writes write false
      → inflight_rows (update_rows (is_inflight_row id) write turns) ≤ inflight_rows turns
  unfolding count_rows update_rows
  inflight-finish [] w = omega arith
  inflight-finish (row ∷ turns) w = ground (arith, inflight-finish turns w, (w row).1)

  -- A write that ends turns adds them to those that have ended.
  pub ended-finish :
      (turns : List TurnRow)
      → Writes write false
      → ended_rows id (update_rows (is_inflight_row id) write turns)
        ≡ count_rows (is_inflight_row id) turns + ended_rows id turns
  unfolding ended_rows count_rows update_rows
  ended-finish [] w = refl
  ended-finish (row ∷ turns) w =
      ground (arith, ended-finish turns w, ap (λ t. t == id) (w row).0, (w row).1)

  pub ended-finish_other :
      (x : Text) (turns : List TurnRow)
      → (id == x) ≡ false
      → Writes write false
      → ended_rows x (update_rows (is_inflight_row id) write turns) ≡ ended_rows x turns
  unfolding ended_rows count_rows update_rows
  ended-finish_other x [] n w = refl
  ended-finish_other x (row ∷ turns) n w =
      ground (arith, ended-finish_other x turns n w, ap (λ t. t == x) (w row).0, (w row).1)
