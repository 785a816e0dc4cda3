-- ===== src/AgentTables/Closure.antt =====
-- What a property of the turns and events of the tables has to go through so that every write of the
-- use cases keeps it, and that the statements of sqlite/agents.rs then do.
use tule.Base.{
  ℕ, ◌≡◌, refl, Bool, true, false, not, ◌||◌, some, List, ◌∷◌, Result, ok, err, ◌>>=◌, Text, bytes,
  ◌==◌, nat_eq, text_eq, Text-discrete, ℕ_discrete, if◌then◌else◌,
}
use tule.Base.Keeping.{OkIs}
use tule.Agent.State.{
  AgentTurnState, pending, streaming, completed, cancelled, failed, interrupted, is_terminal,
  state_label, AgentEventKind, session_created, project_association_changed, turn_pending,
  turn_streaming, turn_completed, turn_cancelled, turn_failed, turn_interrupted, event_label,
}
use tule.AgentTables.Rows.{Tables, TurnRow, EventRow, SqliteStoreError}
use tule.AgentTables.Constraints.{Statement, has_turn, update_rows, count_rows}
use tule.AgentTables.Statements.{is_inflight_label, is_inflight_row}

-- The kinds of the events that end a turn.
unfoldable pub is_terminal_kind : AgentEventKind → Bool
is_terminal_kind session_created = false
is_terminal_kind project_association_changed = false
is_terminal_kind turn_pending = false
is_terminal_kind turn_streaming = false
is_terminal_kind turn_completed = true
is_terminal_kind turn_cancelled = true
is_terminal_kind turn_failed = true
is_terminal_kind turn_interrupted = true

unfoldable pub is_terminal_label : Text → Bool
unfolding Text-discrete ℕ_discrete
is_terminal_label kind =
    (kind == bytes "turn_completed")
    || (kind == bytes "turn_cancelled")
    || (kind == bytes "turn_failed")
    || (kind == bytes "turn_interrupted")

pub is_inflight_label-state_label :
    (s : AgentTurnState) → is_inflight_label (state_label s) ≡ not (is_terminal s)
unfolding is_inflight_label is_terminal
is_inflight_label-state_label pending = refl
is_inflight_label-state_label streaming = refl
is_inflight_label-state_label completed = refl
is_inflight_label-state_label cancelled = refl
is_inflight_label-state_label failed = refl
is_inflight_label-state_label interrupted = refl

pub is_terminal_label-event_label :
    (k : AgentEventKind) → is_terminal_label (event_label k) ≡ is_terminal_kind k
unfolding is_terminal_label is_terminal_kind
is_terminal_label-event_label session_created = refl
is_terminal_label-event_label project_association_changed = refl
is_terminal_label-event_label turn_pending = refl
is_terminal_label-event_label turn_streaming = refl
is_terminal_label-event_label turn_completed = refl
is_terminal_label-event_label turn_cancelled = refl
is_terminal_label-event_label turn_failed = refl
is_terminal_label-event_label turn_interrupted = refl

-- How many rows are in flight.
abbrev pub inflight_rows : List TurnRow → ℕ
inflight_rows turns = count_rows (λ (row : TurnRow). is_inflight_label row.state) turns

-- A write of a turn's columns that keeps its key, and leaves it in flight or not.
abbrev pub Writes : (TurnRow → TurnRow) → Bool → Type 0
Writes write inflight =
    (row : TurnRow) → ((write row).id ≡ row.id) × (is_inflight_label (write row).state ≡ inflight)

pub record Closed (Inv : List TurnRow → List EventRow → Type 0) : Type 0 where
  -- A turn in flight, with a new key, where none is in flight.
  pub add_turn :
      (row : TurnRow) (turns : List TurnRow) (events : List EventRow)
      → is_inflight_label row.state ≡ true
      → has_turn turns row.id ≡ false
      → inflight_rows turns ≡ 0
      → Inv turns events
      → Inv (row ∷ turns) events
  pub add_event :
      (event : EventRow) (turns : List TurnRow) (events : List EventRow)
      → is_terminal_label event.kind ≡ false
      → Inv turns events
      → Inv turns (event ∷ events)
  -- A write that leaves a turn in flight.
  pub checkpoint :
      (id : Text) (write : TurnRow → TurnRow) (turns : List TurnRow) (events : List EventRow)
      → Writes write true
      → Inv turns events
      → Inv (update_rows (is_inflight_row id) write turns) events
  -- A write that ends one turn in flight, with its terminal event.
  pub finish :
      (id : Text) (write : TurnRow → TurnRow) (event : EventRow) (turns : List TurnRow)
      (events : List EventRow)
      → Writes write false
      → count_rows (is_inflight_row id) turns ≡ 1
      → is_terminal_label event.kind ≡ true
      → event.turn_id ≡ some id
      → Inv turns events
      → Inv (update_rows (is_inflight_row id) write turns) (event ∷ events)

-- What a statement leads to where it succeeds.
pub record Leads (P Q : Tables → Type 0) (statement : Statement) : Type 0 where
  pub leads : (tables : Tables) → P tables → OkIs Q (statement tables)

-- The rules for a value, an error, a test and a bind.
pub ok-OkIs : {A : Type 0} (Q : A → Type 0) (a : A) → Q a → OkIs {E = SqliteStoreError} Q (ok a)
unfolding OkIs
ok-OkIs Q a q = q

pub err-OkIs : {A : Type 0} (Q : A → Type 0) (e : SqliteStoreError) → OkIs Q (err e)
unfolding OkIs
err-OkIs Q e = tt

module _ {A : Type 0} (Q : A → Type 0) where
  pub if-OkIs :
      (b : Bool) (x y : Result SqliteStoreError A)
      → (b ≡ true → OkIs Q x)
      → (b ≡ false → OkIs Q y)
      → OkIs Q (if b then x else y)
  if-OkIs true x y h k = h refl
  if-OkIs false x y h k = k refl

  pub bind-OkIs :
      {B : Type 0} (r : Result SqliteStoreError B) (f : B → Result SqliteStoreError A)
      → ((b : B) → OkIs Q (f b))
      → OkIs Q (r >>= f)
  unfolding OkIs
  bind-OkIs (ok b) f h = h b
  bind-OkIs (err e) f h = tt

  pub bind-OkIs_value :
      {B : Type 0} (P : B → Type 0) (r : Result SqliteStoreError B)
      (f : B → Result SqliteStoreError A)
      → OkIs P r
      → ((b : B) → P b → OkIs Q (f b))
      → OkIs Q (r >>= f)
  unfolding OkIs
  bind-OkIs_value P (ok b) f p h = h b p
  bind-OkIs_value P (err e) f p h = tt
