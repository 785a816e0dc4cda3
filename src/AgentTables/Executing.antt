-- ===== src/AgentTables/Executing.antt =====
-- What a statement or a query keeps on the store in SQLite: apps/desktop/src-tauri/src/sqlite/agents.rs.
use tule.Base.{Result, ok, err, inl, inr, Bool-cases}
use tule.Base.Keeping.{OkIs, Keeps, Any, result-Any}
use tule.AgentTables.{SqliteStore, execute, query}
use tule.AgentTables.Rows.{Tables, SqliteStoreError, lock_poisoned}
use tule.AgentTables.Constraints.{Statement}
use tule.AgentTables.Queries.{Query}
use tule.AgentTables.Closure.{Leads}

module _ (P : Tables → Type 0) where
  abbrev pub InStore : SqliteStore → Type 0
  InStore store = P store.tables

  after_execute :
      (Q : Tables → Type 0) (store : SqliteStore) (r : Result SqliteStoreError Tables)
      → Q store.tables
      → OkIs Q r
      → let after : SqliteStore × Result SqliteStoreError (Unit {0}) = elim r [
        | ok tables ↦ (record store { tables = tables }, ok tt)
        | err e ↦ (store, err e)
      ] in
        Q after.0.tables
  unfolding OkIs
  after_execute Q store (ok tables) p q = q
  after_execute Q store (err e) p q = p

  -- A statement that leads to `Q`, from a property that implies it.
  pub execute_lem :
      (Q : Tables → Type 0) (statement : Statement)
      → ((tables : Tables) → P tables → Q tables)
      → Leads P Q statement
      → (store : SqliteStore) → P store.tables
      → Q (execute statement store).0.tables
  unfolding execute
  execute_lem Q statement weaken h store p = elim (Bool-cases store.poisoned) [
    | inl poisoned ↦ rw poisoned (weaken store.tables p)
    | inr sound ↦ rw sound (
        after_execute Q store (statement store.tables) (weaken store.tables p)
          (h.leads store.tables p))
  ]

  pub Keeps-execute :
      (statement : Statement) → Leads P P statement → Keeps InStore Any (execute statement)
  Keeps-execute statement h = record {
    keeps = λ store p.
        (execute_lem P statement (λ _ q. q) h store p, result-Any (execute statement store).1);
  }

  pub Keeps-query : {A : Type 0} (q : Query A) → Keeps InStore Any (query q)
  unfolding query
  Keeps-query q = record {
    keeps = λ store p. elim (Bool-cases store.poisoned) [
      | inl poisoned ↦ rw poisoned (p, result-Any {A = _} (err lock_poisoned))
      | inr sound ↦ rw sound (p, result-Any (q store.tables))
    ];
  }
