-- ===== src/AgentTables/InFlight.antt =====
-- One turn at a time: crates/tule-core/src/agent_use_cases.rs, the test of `prepare_agent_send`, over
-- apps/desktop/src-tauri/src/sqlite/agents.rs.
use tule.Base.{◌≤◌, ◌≡◌, List, ◌∷◌, arith}
use tule.Ids.{UuidCrate}
use tule.Canonical.{Digest}
use tule.AgentTables.{SqliteStore}
use tule.AgentTables.Rows.{TurnRow, EventRow}
use tule.AgentTables.Constraints.{count_rows}
use tule.AgentTables.Closure.{Closed, inflight_rows}
use tule.AgentTables.Counts.{inflight-checkpoint, inflight-finish}
use tule.AgentTables.Histories.{AgentCall, calls}
use tule.AgentTables.AnyCheckpoint.{ClosedUnderEnds, any_calls_keep}

abbrev OneInFlight : List TurnRow → List EventRow → Type 0
OneInFlight turns events = inflight_rows turns ≤ 1

one_more :
    (row : TurnRow) (turns : List TurnRow)
    → inflight_rows turns ≡ 0
    → inflight_rows (row ∷ turns) ≤ 1
unfolding count_rows
one_more row turns h = ground arith

OneInFlight-Closed : Closed OneInFlight
OneInFlight-Closed = record {
  add_turn = λ row turns events inflight new idle p. one_more row turns idle;
  add_event = λ event turns events k p. p;
  checkpoint = λ id write turns events w p. omega (arith, inflight-checkpoint id write turns w);
  finish =
      λ id write event turns events w one k e p. omega (arith, inflight-finish id write turns w);
}

OneInFlight-ends : ClosedUnderEnds OneInFlight
OneInFlight-ends id write turns events w one = omega (arith, inflight-finish id write turns w)

-- One turn at a time: if at most one turn is in flight in the tables, then so after any calls of the
-- use cases, in whatever order and with whatever results.
pub calls-one_inflight :
    (u : UuidCrate) (digest : Digest) (history : List AgentCall) (store : SqliteStore)
    → inflight_rows store.tables.agent_turns ≤ 1
    → inflight_rows (calls u digest history store).tables.agent_turns ≤ 1
calls-one_inflight u digest history store i =
    any_calls_keep OneInFlight-Closed OneInFlight-ends u digest history store i
