-- ===== src/AgentTables/Terminal.antt =====
-- The ends of turns: crates/tule-core/src/agent_use_cases.rs over
-- apps/desktop/src-tauri/src/sqlite/agents.rs.
use tule.Base.{
  ◌+◌, ◌≤◌, ◌≡◌, refl, sym, ap, ◌∙◌, Bool, true, false, ◌&&◌, some, List, [], ◌∷◌, Text, ◌==◌,
  text_eq, inl, inr, ◌⊎◌, Bool-cases, arith, if◌then◌else◌,
}
use mathlib.Core.Path.{subst}
use tule.Ids.{UuidCrate}
use tule.Canonical.{Digest}
use tule.AgentTables.{SqliteStore}
use tule.AgentTables.Rows.{TurnRow, EventRow}
use tule.AgentTables.Constraints.{count_rows, update_rows, has_turn}
use tule.AgentTables.Statements.{is_inflight_label, is_inflight_row}
use tule.AgentTables.Closure.{Closed, Writes, is_terminal_label}
use tule.AgentTables.Counts.{
  is_about, rows_of, ended_rows, terminal_events, eq_of_test, test_refl, rows_of_new,
  rows_of-update, ended-checkpoint, ended-finish, ended-finish_other,
}
use tule.AgentTables.AnyCheckpoint.{ClosedUnderEnds, any_calls_keep}
use tule.AgentTables.Histories.{AgentCall, AllCheckpoints, calls, calls_keep}

-- Of each key there is one turn at most, and as many terminal events as turns of it that have ended.
abbrev pub IsTold : List TurnRow → List EventRow → Type 0
IsTold turns events =
    (id : Text) → (terminal_events id events ≡ ended_rows id turns) × (rows_of id turns ≤ 1)

and-false : (b : Bool) → (b && false) ≡ false
and-false true = refl
and-false false = refl

IsTold-add_turn :
    (row : TurnRow) (turns : List TurnRow) (events : List EventRow)
    → is_inflight_label row.state ≡ true
    → has_turn turns row.id ≡ false
    → IsTold turns events
    → IsTold (row ∷ turns) events
unfolding rows_of ended_rows count_rows
IsTold-add_turn row turns events inflight new told id = elim (Bool-cases (row.id == id)) [
  | inl same ↦
      let fresh : rows_of id turns ≡ 0 =
        rows_of_new id turns (ap (has_turn turns) (sym (eq_of_test row.id id same)) ∙ new) in
      ground (arith, told id)
  | inr other ↦ ground (arith, told id)
]

IsTold-add_event :
    (event : EventRow) (turns : List TurnRow) (events : List EventRow)
    → is_terminal_label event.kind ≡ false
    → IsTold turns events
    → IsTold turns (event ∷ events)
unfolding terminal_events count_rows
IsTold-add_event event turns events h told id = ground (arith, told id)

-- What a terminal event adds to the events of a key.
terminal_events-about :
    (id x : Text) (event : EventRow) (events : List EventRow)
    → is_terminal_label event.kind ≡ true
    → event.turn_id ≡ some id
    → terminal_events x (event ∷ events) ≡ (if id == x then 1 else 0) + terminal_events x events
unfolding terminal_events count_rows
terminal_events-about id x event events k e = ground (arith, ap (is_about x) e)

module _ (id : Text) (write : TurnRow → TurnRow) (event : EventRow) (turns : List TurnRow)
    (events : List EventRow) (w : Writes write false)
    (one : count_rows (is_inflight_row id) turns ≡ 1) (k : is_terminal_label event.kind ≡ true)
    (e : event.turn_id ≡ some id) (told : IsTold turns events) where
  abbrev IsToldOf : Text → Type 0
  IsToldOf x =
      (terminal_events x (event ∷ events)
        ≡ ended_rows x (update_rows (is_inflight_row id) write turns))
      × (rows_of x (update_rows (is_inflight_row id) write turns) ≤ 1)

  told_self : IsToldOf id
  told_self = (
    ground (
      arith,
      terminal_events-about id id event events k e,
      test_refl id,
      told id,
      ended-finish id write turns w,
    ),
    omega (arith, told id, rows_of-update id write false id turns w),
  )

  IsTold-finish : IsTold (update_rows (is_inflight_row id) write turns) (event ∷ events)
  IsTold-finish x = elim (Bool-cases (id == x)) [
    | inl same ↦ subst IsToldOf (eq_of_test id x same) told_self
    | inr other ↦ (
      ground (
        arith,
        terminal_events-about id x event events k e,
        told x,
        ended-finish_other id write x turns other w,
      ),
      omega (arith, told x, rows_of-update id write false x turns w),
    )
  ]

IsTold-Closed : Closed IsTold
IsTold-Closed = record {
  add_turn =
      λ row turns events inflight new idle told. IsTold-add_turn row turns events inflight new told;
  add_event = λ event turns events h told. IsTold-add_event event turns events h told;
  checkpoint = λ id write turns events w told x. (
    (told x).0 ∙ sym (ended-checkpoint id write x turns w),
    omega (arith, told x, rows_of-update id write true x turns w),
  );
  finish = IsTold-finish;
}

-- Every turn is told to have ended exactly once, if checkpoints are made only of turns that go on, which
-- `checkpoint_agent_turn` does not test: if each turn of the tables has one terminal event if it
-- has ended and none before, and its key once, then so after any calls of the use cases, in whatever
-- order and with whatever results.
pub calls-IsTold :
    (u : UuidCrate) (digest : Digest) (history : List AgentCall) (store : SqliteStore)
    → AllCheckpoints history
    → IsTold store.tables.agent_turns store.tables.agent_events
    → let after : SqliteStore = calls u digest history store in
      IsTold after.tables.agent_turns after.tables.agent_events
calls-IsTold u digest history store c told = calls_keep u digest IsTold-Closed history store c told

-- A row is among those of a table.
abbrev pub Has : TurnRow → List TurnRow → Type 0
Has row [] = ⊥
Has row (other ∷ rows) = (other ≡ row) ⊎ Has row rows

module _ (row : TurnRow) (over : is_inflight_label row.state ≡ false) where
  Has-update :
      (id : Text) (write : TurnRow → TurnRow) (turns : List TurnRow)
      → Has row turns
      → Has row (update_rows (is_inflight_row id) write turns)
  unfolding update_rows
  Has-update id write [] h = h
  Has-update id write (other ∷ turns) (inl same) = inl (
      rw (ap (λ (r : TurnRow). is_inflight_label r.state) same ∙ over, and-false (other.id == id))
        same)
  Has-update id write (other ∷ turns) (inr h) = inr (Has-update id write turns h)

  Has-Closed : Closed (λ turns events. Has row turns)
  Has-Closed = record {
    add_turn = λ other turns events inflight new idle h. inr h;
    add_event = λ event turns events k h. h;
    checkpoint = λ id write turns events w h. Has-update id write turns h;
    finish = λ id write event turns events w one k e h. Has-update id write turns h;
  }

  Has-ends : ClosedUnderEnds (λ turns events. Has row turns)
  Has-ends id write turns events w h = Has-update id write turns h

-- A turn that has ended stays as it is: no call of a use case changes its row any more, in whatever
-- order and with whatever results they are made.
pub calls-ended_final :
    (u : UuidCrate) (digest : Digest) (history : List AgentCall) (store : SqliteStore)
    (row : TurnRow)
    → is_inflight_label row.state ≡ false
    → Has row store.tables.agent_turns
    → Has row (calls u digest history store).tables.agent_turns
calls-ended_final u digest history store row over h =
    any_calls_keep (Has-Closed row over) (Has-ends row over) u digest history store h
