-- ===== src/AgentTables/AnyCheckpoint.antt =====
-- Checkpoints of any turn: crates/tule-core/src/agent_use_cases.rs, `checkpoint_agent_turn`, which does
-- not test the state of the turn, over apps/desktop/src-tauri/src/sqlite/agents.rs.
use tule.Base.{
  ◌≡◌, refl, true, false, none, List, [], ◌∷◌, inl, inr, Bool-cases, Text, ◌!=◌, nat_eq,
}
use tule.Base.Keeping.{OkIs, Keeps, Any, Keeps-on_error}
use tule.Ids.{UuidCrate}
use tule.Canonical.{Digest}
use tule.AgentIds.{transpose}
use tule.Agent.State.{is_terminal}
use tule.Agent.Turn.{AgentTurn}
use tule.AgentTables.{SqliteStore, sqlite, checkpoint_turn}
use tule.AgentTables.Rows.{Tables, TurnRow, EventRow, to_i64}
use tule.AgentTables.Constraints.{update_rows, count_rows}
use tule.AgentTables.Statements.{is_inflight_row, write_inflight, write_turn, update_inflight_turn}
use tule.AgentTables.Closure.{Closed, Leads, Writes, ok-OkIs, err-OkIs, if-OkIs, bind-OkIs}
use tule.AgentTables.Kept.{On, Leads-then_do, Leads-checkpoint, ended_label}
use tule.AgentTables.Executing.{InStore, Keeps-execute}
use tule.AgentTables.Histories.{
  AgentCall, send, delta, checkpoint, complete, cancel, fail, interrupt, set_project, call, calls,
  call_keeps,
}
use tule.AgentUseCases.Errors.{ApplyAgentDeltaError}
use tule.AgentUseCases.Delta.{checkpoint_agent_turn}

-- A write that ends turns without a word keeps the property too.
abbrev pub ClosedUnderEnds : (List TurnRow → List EventRow → Type 0) → Type 0
ClosedUnderEnds Inv =
    (id : Text) (write : TurnRow → TurnRow) (turns : List TurnRow) (events : List EventRow)
    → Writes write false
    → Inv turns events
    → Inv (update_rows (is_inflight_row id) write turns) events

module _ {Inv : List TurnRow → List EventRow → Type 0} (closed : Closed Inv)
    (ends : ClosedUnderEnds Inv) (u : UuidCrate) (digest : Digest) where
  write_end-OkIs :
      (id : Text) (write : TurnRow → TurnRow) (tables : Tables)
      → Writes write false
      → On Inv tables
      → OkIs (On Inv) (write_inflight id write tables)
  unfolding write_inflight
  write_end-OkIs id write tables h p =
      if-OkIs (On Inv) (count_rows (is_inflight_row id) tables.agent_turns != 1) _ _
        (λ _. err-OkIs (On Inv) _)
        (λ _. ok-OkIs (On Inv) _ (ends id write tables.agent_turns tables.agent_events h p))

  Leads-silent_end :
      (turn : AgentTurn)
      → is_terminal turn.state ≡ true
      → Leads (On Inv) (On Inv) (update_inflight_turn u turn)
  unfolding update_inflight_turn
  Leads-silent_end turn h = record {
    leads = λ tables p. bind-OkIs (On Inv) (transpose to_i64 turn.usage_input_tokens) _ (λ input.
        bind-OkIs (On Inv) (transpose to_i64 turn.usage_output_tokens) _ (λ output.
          write_end-OkIs (u.to_string turn.id) (write_turn turn input output) tables
            (λ row. (refl, ended_label closed u turn.state h)) p));
  }

  Leads-any_checkpoint : (turn : AgentTurn) → Leads (On Inv) (On Inv) (update_inflight_turn u turn)
  Leads-any_checkpoint turn = elim (Bool-cases (is_terminal turn.state)) [
    | inl over ↦ Leads-silent_end turn over
    | inr on ↦ Leads-checkpoint closed u turn on
  ]

  checkpoint_agent_turn-Keeps :
      (turn : AgentTurn)
      → Keeps (InStore (On Inv)) Any (checkpoint_agent_turn (sqlite u digest) turn)
  unfolding checkpoint_agent_turn checkpoint_turn
  checkpoint_agent_turn-Keeps turn = Keeps-on_error ApplyAgentDeltaError.repository (
      Keeps-execute (On Inv) (checkpoint_turn u turn none) (
        Leads-then_do (On Inv) (On Inv) (On Inv) _ _ (Leads-any_checkpoint turn)
          (record { leads = λ tables p. ok-OkIs (On Inv) tables p })))

  any_call_keeps :
      (next : AgentCall) (store : SqliteStore)
      → InStore (On Inv) store
      → InStore (On Inv) (call u digest next store)
  unfolding call
  any_call_keeps (checkpoint turn) store i = ((checkpoint_agent_turn-Keeps turn).keeps store i).0
  any_call_keeps (send stamps request) store i =
      call_keeps u digest closed (send stamps request) store tt i
  any_call_keeps (delta stamps id text) store i =
      call_keeps u digest closed (delta stamps id text) store tt i
  any_call_keeps (complete stamps id response input output) store i =
      call_keeps u digest closed (complete stamps id response input output) store tt i
  any_call_keeps (cancel stamps id) store i =
      call_keeps u digest closed (cancel stamps id) store tt i
  any_call_keeps (fail stamps id code) store i =
      call_keeps u digest closed (fail stamps id code) store tt i
  any_call_keeps (interrupt stamps) store i =
      call_keeps u digest closed (interrupt stamps) store tt i
  any_call_keeps (set_project event_id session_clock event_clock id project_id) store i =
      call_keeps u digest closed (set_project event_id session_clock event_clock id project_id)
        store tt i

  -- What is closed under the writes, silent ends among them, holds after any calls.
  pub any_calls_keep :
      (history : List AgentCall) (store : SqliteStore)
      → InStore (On Inv) store
      → InStore (On Inv) (calls u digest history store)
  unfolding calls
  any_calls_keep [] store i = i
  any_calls_keep (next ∷ rest) store i =
      any_calls_keep rest (call u digest next store) (any_call_keeps next store i)
