-- ===== src/AgentTables/Constraints.antt =====
-- Keys and references of the tables, and what a statement does to the rows that it takes:
-- apps/desktop/src-tauri/src/sqlite/agents.rs.
use tule.Base.{
  ℕ, ◌+◌, Bool, true, ◌&&◌, Option, none, some, List, [], ◌∷◌, Result, err, Text, ℤ, any, leb_ℤ,
  ◌==◌, nat_eq, text_eq, if◌then◌else◌,
}
use tule.AgentRepository.{ProviderProfile}
use tule.AgentTables.Rows.{
  constraint_violation, SqliteStoreError, database, SessionRow, TurnRow, SourceRow, Tables,
}

abbrev pub Statement : Type 0
Statement = Tables → Result SqliteStoreError Tables

abbrev pub violated : {A : Type 0} → Result SqliteStoreError A
violated = err (database constraint_violation)

abbrev pub same_ℤ : ℤ → ℤ → Bool
same_ℤ a b = leb_ℤ a b && leb_ℤ b a

-- A reference to a row of another table: NULL, or a key that is there.
abbrev pub refers : Option Text → (Text → Bool) → Bool
refers none has = true
refers (some key) has = has key

abbrev pub has_project : Tables → Text → Bool
has_project tables key = any (λ id. id == key) tables.projects

abbrev pub has_profile : Tables → Text → Bool
has_profile tables key = any (λ (row : ProviderProfile). row.id == key) tables.provider_profiles

abbrev pub has_session : Tables → Text → Bool
has_session tables key = any (λ (row : SessionRow). row.id == key) tables.agent_sessions

abbrev pub has_turn : List TurnRow → Text → Bool
has_turn rows key = any (λ (row : TurnRow). row.id == key) rows

abbrev pub has_source : Tables → Text → Bool
has_source tables key = any (λ (row : SourceRow). row.id == key) tables.agent_sources

unfoldable pub update_rows {ℓ} : {A : Type ℓ} → (A → Bool) → (A → A) → List A → List A
update_rows p f [] = []
update_rows p f (row ∷ rows) = (if p row then f row else row) ∷ update_rows p f rows

-- How many rows a statement changes.
unfoldable pub count_rows {ℓ} : {A : Type ℓ} → (A → Bool) → List A → ℕ
count_rows p [] = 0
count_rows p (row ∷ rows) = (if p row then 1 else 0) + count_rows p rows
