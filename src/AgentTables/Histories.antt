-- ===== src/AgentTables/Histories.antt =====
-- The calls of the use cases of a conversation, one after the other, on the store in SQLite:
-- crates/tule-core/src/agent_use_cases.rs over apps/desktop/src-tauri/src/sqlite/agents.rs.
use tule.Base.{ℕ, Option, List, [], ◌∷◌, Text}
use tule.Ids.{UuidCrate}
use tule.Canonical.{Digest}
use tule.AgentIds.{AgentTurnId, AgentSessionId, AgentEventId, ProjectId}
use tule.Clock.{SystemTime}
use tule.Agent.Turn.{AgentTurn}
use tule.AgentTables.{SqliteStore, sqlite}
use tule.AgentTables.Rows.{TurnRow, EventRow}
use tule.AgentTables.Closure.{Closed}
use tule.AgentTables.Kept.{On}
use tule.AgentTables.Executing.{InStore}
use tule.AgentTables.Values.{GoesOn}
use tule.AgentTables.Ending.{
  complete_agent_turn-Keeps, cancel_agent_turn-Keeps, fail_agent_turn-Keeps,
  interrupt_inflight_turns-Keeps, set_session_project-Keeps,
}
use tule.AgentTables.Sending.{prepare_agent_send-Keeps}
use tule.AgentTables.Streaming.{apply_agent_delta-Keeps, checkpoint_agent_turn-Keeps}
use tule.AgentUseCases.Send.{SendStamps, SendRequest, prepare_agent_send}
use tule.AgentUseCases.Finish.{
  FinishStamps, complete_agent_turn, cancel_agent_turn, fail_agent_turn, set_session_project,
}
use tule.AgentUseCases.Delta.{DeltaStamps, apply_agent_delta, checkpoint_agent_turn}
use tule.AgentUseCases.Interrupt.{interrupt_inflight_turns}

-- A call of a use case with all its arguments, the generated identifiers and the clock among them.
pub data AgentCall : Type 0 where
  send : SendStamps → SendRequest → AgentCall
  delta : DeltaStamps → AgentTurnId → Text → AgentCall
  checkpoint : AgentTurn → AgentCall
  complete : FinishStamps → AgentTurnId → Option Text → Option ℕ → Option ℕ → AgentCall
  cancel : FinishStamps → AgentTurnId → AgentCall
  fail : FinishStamps → AgentTurnId → Text → AgentCall
  interrupt : (ℕ → FinishStamps) → AgentCall
  set_project :
      AgentEventId → SystemTime → SystemTime → AgentSessionId → Option ProjectId → AgentCall

-- A checkpoint is made of a turn that has not ended.
abbrev pub IsCheckpoint : AgentCall → Type 0
IsCheckpoint (checkpoint turn) = GoesOn turn
IsCheckpoint _ = Unit {0}

abbrev pub AllCheckpoints : List AgentCall → Type 0
AllCheckpoints [] = Unit {0}
AllCheckpoints (call ∷ calls) = IsCheckpoint call × AllCheckpoints calls

module _ (u : UuidCrate) (digest : Digest) where
  -- The store after a call, whatever its result is.
  unfoldable pub call : AgentCall → SqliteStore → SqliteStore
  call (send stamps request) store = (prepare_agent_send (sqlite u digest) stamps request store).0
  call (delta stamps id text) store = (apply_agent_delta (sqlite u digest) stamps id text store).0
  call (checkpoint turn) store = (checkpoint_agent_turn (sqlite u digest) turn store).0
  call (complete stamps id response input output) store =
      (complete_agent_turn (sqlite u digest) stamps id response input output store).0
  call (cancel stamps id) store = (cancel_agent_turn (sqlite u digest) stamps id store).0
  call (fail stamps id code) store = (fail_agent_turn (sqlite u digest) stamps id code store).0
  call (interrupt stamps) store = (interrupt_inflight_turns (sqlite u digest) stamps store).0
  call (set_project event_id session_clock event_clock id project_id) store =
      (set_session_project (sqlite u digest) event_id session_clock event_clock id project_id
        store).0

  unfoldable pub calls : List AgentCall → SqliteStore → SqliteStore
  unfolding call
  calls [] store = store
  calls (next ∷ rest) store = calls rest (call next store)

  module _ {Inv : List TurnRow → List EventRow → Type 0} (closed : Closed Inv) where
    pub call_keeps :
        (next : AgentCall) (store : SqliteStore)
        → IsCheckpoint next
        → InStore (On Inv) store
        → InStore (On Inv) (call next store)
    unfolding call
    call_keeps (send stamps request) store c i =
        ((prepare_agent_send-Keeps closed u digest stamps request).keeps store i).0
    call_keeps (delta stamps id text) store c i =
        ((apply_agent_delta-Keeps closed u digest stamps id text).keeps store i).0
    call_keeps (checkpoint turn) store c i =
        ((checkpoint_agent_turn-Keeps closed u digest turn c).keeps store i).0
    call_keeps (complete stamps id response input output) store c i =
        ((complete_agent_turn-Keeps closed u digest stamps id response input output).keeps store
          i).0
    call_keeps (cancel stamps id) store c i =
        ((cancel_agent_turn-Keeps closed u digest stamps id).keeps store i).0
    call_keeps (fail stamps id code) store c i =
        ((fail_agent_turn-Keeps closed u digest stamps id code).keeps store i).0
    call_keeps (interrupt stamps) store c i =
        ((interrupt_inflight_turns-Keeps closed u digest stamps).keeps store i).0
    call_keeps (set_project event_id session_clock event_clock id project_id) store c i =
        ((set_session_project-Keeps closed u digest event_id session_clock event_clock id
            project_id).keeps
          store i).0

    -- What is closed under the writes holds after any calls with checkpoints of turns that go on.
    pub calls_keep :
        (history : List AgentCall) (store : SqliteStore)
        → AllCheckpoints history
        → InStore (On Inv) store
        → InStore (On Inv) (calls history store)
    unfolding calls
    calls_keep [] store c i = i
    calls_keep (next ∷ rest) store (c, cs) i =
        calls_keep rest (call next store) cs (call_keeps next store c i)
