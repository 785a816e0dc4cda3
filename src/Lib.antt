-- ===== src/Lib.antt =====
-- The core of Tule, the crate crates/tule-core of the repository, with its store of sessions: a local
-- program in which a person converses with a model, in sessions of turns; and in which a model proposes
-- one change of a file, a person approves a frozen plan for it, and the change is carried out under
-- capability grants and an effect journal.
--
-- The parts, and the files that model them (paths of code are from the repository's root):
-- - crates/tule-core/src/capability.rs: grants (issue, revoke, consume_dispatch) and their evaluation
--   (evaluate_grant) in Capability, the capability types in Capability/Kinds. Its other children are
--   about one grant (Grants), the evaluation (Evaluation) and the stored labels (Labels).
-- - crates/tule-core/src/run.rs: the effect journal (Effect with Effect/Phase, Effect/OperationResult and
--   Effect/Certainty), the events (Event), the derived lifecycle (Lifecycle), the root lease (Lease), the
--   canonical encoding and its hashes (Canonical), the bootstrap proposal (Proposal), the run graph
--   (Graph), the execution plan and its approval (Plan), evaluate_resume (Resume), the other records
--   (Records) and the identifiers (Ids).
-- - crates/tule-core/src/run_repository.rs, in Repository: the trait as a record of calls on a store.
-- - crates/tule-core/src/run_use_cases.rs: MemoryRunRepository in Store and MemoryRepository, and the use
--   cases over any repository in UseCases, one child for each group (Planning, Grants, Effects, Progress,
--   Leases). The theorems on the repository are in the children of MemoryRepository, those on the use
--   cases in the other children of UseCases.
-- - crates/tule-core/src/agent.rs: the turns, sessions and events of conversations with a provider, and
--   the context of a request, in Agent and its children; agent_source.rs: the texts attached to a turn,
--   their validation and their framing, in Source; provider_catalog.rs: Catalog; the identifiers of
--   these in AgentIds and their clock, with the errors of project.rs, in Clock.
-- - crates/tule-core/src/agent_repository.rs, in AgentRepository: the trait as a record of calls on a
--   store; agent_use_cases.rs: the use cases over any such store in AgentUseCases, one child for each
--   group (History, Send, Finish, Delta, Interrupt).
-- - apps/desktop/src-tauri/src/sqlite/agents.rs: the store of sessions in SQLite, in AgentTables: its
--   rows (Rows), their keys and references (Constraints), the statements that write (SessionStatements,
--   Statements) and read (Queries), and the whole repository. RoundTrip is about what is stored and read.
--   The other children are about the use cases on this store: what a property of the tables must go
--   through to be kept (Closure), that each statement and each use case keeps it, and what follows for
--   any calls (InFlight, Terminal).
-- - crates/tule-core/src/artifact.rs, in Artifact, and artifact_use_cases.rs, in ArtifactUseCases: a
--   completed turn that is saved as an artifact.
-- Base holds what they share: results, lists over the native numbers, i64, equality, texts as bytes,
-- actions on a store (Base/Actions) and what an action keeps (Base/Keeping). Examples applies each result
-- to concrete inputs.
--
-- How the code is modelled:
-- - A method on `&mut self` returns the record after the call with its result. A use case is an action:
--   the store after it and its result, so a call that fails keeps what it changed before it failed.
-- - The HashMap is an association list, the Mutex a flag that says whether its lock is poisoned. Calls
--   run one after the other; two use cases do not overlap.
-- - An identifier is its 128-bit number. Those that the code generates are arguments, and so is the time
--   that a clock gives. The uuid crate is a record of the calls that are used, the digest of the sha2
--   crate a function on bytes; that it returns bytes, or 32 of them, is a hypothesis where it is used.
-- - A String is its list of UTF-8 bytes. A time is an i64, whose sums wrap around as in a release build;
--   a sequence number is a u64 that wraps around.
-- - The loop of count_occurrences runs on fuel, one more than the length of the text, which is enough;
--   that of count_folder_members on one more than the length of the content, as each round moves on.
-- - A table of SQLite is the list of its rows, the last inserted first. A statement fails exactly if it
--   breaks a constraint of the schema in apps/desktop/src-tauri/migrations, and a transaction that fails
--   leaves the tables as they were. A char is the list of its bytes.
--
-- Not modelled: from_stored_parts of most records of a run, NodeAttempt, the Display texts (but for the
-- reason of a denial), the reading of artifacts, projects, and of the desktop program all but its store
-- of sessions: the other tables of its SQLite store, its broker and its provider access.
mod Base
pub mod Ids
pub mod Capability
pub mod Effect
pub mod Event
pub mod Lifecycle
pub mod Lease
pub mod Resume
pub mod Canonical
pub mod Clock
pub mod AgentIds
pub mod Source
pub mod Agent
pub mod Catalog
pub mod AgentRepository
pub mod AgentUseCases
pub mod AgentTables
pub mod Proposal
pub mod Graph
pub mod Plan
pub mod Records
pub mod Repository
pub mod Store
pub mod MemoryRepository
pub mod UseCases
pub mod Examples
pub mod Artifact
pub mod ArtifactUseCases
