-- ===== src/Agent/State.antt =====
-- The labels of a turn: crates/tule-core/src/agent.rs, `AgentEffort`, `AgentTurnState` and
-- `AgentEventKind`, with the transitions of a turn.
use tule.Base.{
  Bool, true, false, Result, ok, err, Text, bytes, Eq, ◌==◌, text_eq, Text-discrete, ℕ_discrete,
  if◌then◌else◌,
}

pub data AgentEffort : Type 0 where
  low medium high : AgentEffort

abbrev pub effort_label : AgentEffort → Text
effort_label low = bytes "low"
effort_label medium = bytes "medium"
effort_label high = bytes "high"

pub data InvalidAgentEffort : Type 0 where
  unknown : InvalidAgentEffort

unfoldable pub parse_effort : Text → Result InvalidAgentEffort AgentEffort
unfolding Text-discrete ℕ_discrete
parse_effort value =
    if value == bytes "low"
    then ok low
    else if value == bytes "medium"
    then ok medium
    else if value == bytes "high"
    then ok high
    else err InvalidAgentEffort.unknown

pub data AgentTurnState : Type 0 where
  pending streaming completed cancelled failed interrupted : AgentTurnState

unfoldable pub AgentTurnState-discrete : Discrete AgentTurnState
AgentTurnState-discrete = hlevel

instance abbrev pub turn_state_eq : Eq AgentTurnState
turn_state_eq = record { dec_eq = AgentTurnState-discrete }

unfoldable pub is_terminal : AgentTurnState → Bool
is_terminal pending = false
is_terminal streaming = false
is_terminal completed = true
is_terminal cancelled = true
is_terminal failed = true
is_terminal interrupted = true

abbrev pub state_label : AgentTurnState → Text
state_label pending = bytes "pending"
state_label streaming = bytes "streaming"
state_label completed = bytes "completed"
state_label cancelled = bytes "cancelled"
state_label failed = bytes "failed"
state_label interrupted = bytes "interrupted"

pub data InvalidAgentTurnState : Type 0 where
  unknown : InvalidAgentTurnState

unfoldable pub parse_state : Text → Result InvalidAgentTurnState AgentTurnState
unfolding Text-discrete ℕ_discrete
parse_state value =
    if value == bytes "pending"
    then ok pending
    else if value == bytes "streaming"
    then ok streaming
    else if value == bytes "completed"
    then ok completed
    else if value == bytes "cancelled"
    then ok cancelled
    else if value == bytes "failed"
    then ok failed
    else if value == bytes "interrupted"
    then ok interrupted
    else err InvalidAgentTurnState.unknown

pub data IllegalAgentTurnTransition : Type 0 where
  -- The current state, and the one that was asked for.
  illegal_transition : AgentTurnState → AgentTurnState → IllegalAgentTurnTransition

abbrev is_legal : AgentTurnState → AgentTurnState → Bool
is_legal pending streaming = true
is_legal pending completed = true
is_legal pending cancelled = true
is_legal pending failed = true
is_legal pending interrupted = true
is_legal streaming completed = true
is_legal streaming cancelled = true
is_legal streaming failed = true
is_legal streaming interrupted = true
is_legal _ _ = false

unfoldable pub transition :
    AgentTurnState → AgentTurnState → Result IllegalAgentTurnTransition AgentTurnState
transition from to = if is_legal from to then ok to else err (illegal_transition from to)

pub data AgentEventKind : Type 0 where
  session_created project_association_changed turn_pending turn_streaming : AgentEventKind
  turn_completed turn_cancelled turn_failed turn_interrupted : AgentEventKind

abbrev pub event_label : AgentEventKind → Text
event_label session_created = bytes "session_created"
event_label project_association_changed = bytes "project_association_changed"
event_label turn_pending = bytes "turn_pending"
event_label turn_streaming = bytes "turn_streaming"
event_label turn_completed = bytes "turn_completed"
event_label turn_cancelled = bytes "turn_cancelled"
event_label turn_failed = bytes "turn_failed"
event_label turn_interrupted = bytes "turn_interrupted"

pub data InvalidAgentEventKind : Type 0 where
  unknown : InvalidAgentEventKind

unfoldable pub parse_event_kind : Text → Result InvalidAgentEventKind AgentEventKind
unfolding Text-discrete ℕ_discrete
parse_event_kind value =
    if value == bytes "session_created"
    then ok session_created
    else if value == bytes "project_association_changed"
    then ok project_association_changed
    else if value == bytes "turn_pending"
    then ok turn_pending
    else if value == bytes "turn_streaming"
    then ok turn_streaming
    else if value == bytes "turn_completed"
    then ok turn_completed
    else if value == bytes "turn_cancelled"
    then ok turn_cancelled
    else if value == bytes "turn_failed"
    then ok turn_failed
    else if value == bytes "turn_interrupted"
    then ok turn_interrupted
    else err InvalidAgentEventKind.unknown

unfoldable pub for_terminal_state :
    AgentTurnState → Result IllegalAgentTurnTransition AgentEventKind
for_terminal_state completed = ok turn_completed
for_terminal_state cancelled = ok turn_cancelled
for_terminal_state failed = ok turn_failed
for_terminal_state interrupted = ok turn_interrupted
for_terminal_state pending = err (illegal_transition pending pending)
for_terminal_state streaming = err (illegal_transition streaming streaming)
