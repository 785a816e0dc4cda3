-- ===== src/AgentTables/Going.antt =====
-- What an action on the store in SQLite leads from one property of the store to:
-- apps/desktop/src-tauri/src/sqlite/agents.rs.
use tule.Base.{Result, ok, err}
use tule.Base.Actions.{Action, ◌>>=◌, ◌>>◌, pure, on_error}
use tule.Base.Keeping.{OkIs, Keeps, Any}
use tule.AgentTables.{SqliteStore, execute}
use tule.AgentTables.Rows.{Tables, SqliteStoreError}
use tule.AgentTables.Constraints.{Statement}
use tule.AgentTables.Closure.{Leads}
use tule.AgentTables.Executing.{InStore, execute_lem}

-- From a store with `P`, the action leaves one with `Q`.
pub record GoesTo {E A : Type 0} (P Q : SqliteStore → Type 0) (m : Action SqliteStore E A)
    : Type 0 where
  pub goes : (store : SqliteStore) → P store → Q (m store).0

after :
    {E A B : Type 0} (P Q : SqliteStore → Type 0) (V : A → Type 0)
    (weaken : (store : SqliteStore) → P store → Q store) (r : SqliteStore × Result E A)
    (f : A → Action SqliteStore E B)
    → P r.0
    → OkIs V r.1
    → ((a : A) → V a → GoesTo P Q (f a))
    → let last : SqliteStore × Result E B = elim r.1 [ ok a ↦ f a r.0 | err e ↦ (r.0, err e) ] in
      Q last.0
unfolding OkIs
after P Q V weaken (store, ok a) f p v h = (h a v).goes store p
after P Q V weaken (store, err e) f p v h = weaken store p

after_last :
    {E A : Type 0} (Q : SqliteStore → Type 0) (a : A) (r : SqliteStore × Result E (Unit {0}))
    → Q r.0
    → let last : SqliteStore × Result E A = elim r.1 [
      | ok _ ↦ (r.0, ok a)
      | err e ↦ (r.0, err e)
    ] in
      Q last.0
after_last Q a (store, ok _) q = q
after_last Q a (store, err e) q = q

module _ {E : Type 0} {P Q : SqliteStore → Type 0} where
  pub GoesTo-bind :
      {A B : Type 0} {V : A → Type 0} {m : Action SqliteStore E A} {f : A → Action SqliteStore E B}
      → ((store : SqliteStore) → P store → Q store)
      → Keeps P V m
      → ((a : A) → V a → GoesTo P Q (f a))
      → GoesTo P Q (m >>= f)
  GoesTo-bind {V = V} {m = m} {f = f} weaken hm hf = record {
    goes = λ store p. after P Q V weaken (m store) f (hm.keeps store p).0 (hm.keeps store p).1 hf;
  }

  pub GoesTo-then :
      {B : Type 0} {m : Action SqliteStore E (Unit {0})} {k : Action SqliteStore E B}
      → ((store : SqliteStore) → P store → Q store)
      → Keeps P Any m
      → GoesTo P Q k
      → GoesTo P Q (m >> k)
  GoesTo-then {m = m} {k = k} weaken hm hk = record {
    goes = λ store p.
        after P Q Any weaken (m store) (λ _. k) (hm.keeps store p).0 (hm.keeps store p).1
          (λ _ _. hk);
  }

-- A write with the value that is given after it.
pub GoesTo-write :
    {E A : Type 0} (P Q : Tables → Type 0) (statement : Statement) (f : SqliteStoreError → E)
    (a : A)
    → ((tables : Tables) → P tables → Q tables)
    → Leads P Q statement
    → GoesTo (InStore P) (InStore Q) (on_error f (execute statement) >> pure a)
GoesTo-write P Q statement f a weaken h = record {
  goes = λ store p.
      after_last (InStore Q) a (on_error f (execute statement) store)
        (execute_lem P Q statement weaken h store p);
}
