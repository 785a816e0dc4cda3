-- ===== src/MemoryRepository/Numbering.antt =====
-- The numbers of the events in memory: crates/tule-core/src/run_use_cases.rs, `next_sequence` and
-- `append_checked`.
use tule.Base.{
  ℕ, ◌+◌, ◌%◌, ◌^◌, ◌≡◌, refl, sym, ap, ◌∙◌, ◌⊎◌, inl, inr, false, Option, none, some, List, [],
  ◌∷◌, ◌++◌, length, arith, nat_eq, ℕ_discrete,
}
use tule.Ids.{HarnessRunId}
use tule.Event.{RunEvent}
use tule.Repository.{ReconstructedRun}
use tule.Records.{HarnessRun}
use tule.Store.{MemoryRunRepository, initial_state, get, insert, next_sequence}
use tule.MemoryRepository
use tule.MemoryRepository.Calls.{Call, call, target, event_of}
use tule.MemoryRepository.Locked.{Locked, Extends, call-Locked, get-insert, get-insert_other}

-- The numbers of the events from the n-th on, as u64.
unfoldable pub IsNumbered : ℕ → List RunEvent → Type 0
IsNumbered n [] = Unit {0}
IsNumbered n (event ∷ events) = (event.sequence ≡ n % 2 ^ 64) × IsNumbered (n + 1) events

-- What the next event of numbered events is numbered by.
pub IsNumbered-append :
    (n : ℕ) (events : List RunEvent) (event : RunEvent)
    → IsNumbered n events
    → event.sequence ≡ (n + length events) % 2 ^ 64
    → IsNumbered n (events ++ (event ∷ []))
unfolding IsNumbered
IsNumbered-append n [] event numbered h = (h ∙ ap (λ m. m % 2 ^ 64) (omega arith), tt)
IsNumbered-append n (e ∷ events) event (he, numbered) h =
    (he, IsNumbered-append (n + 1) events event numbered (h ∙ ap (λ m. m % 2 ^ 64) (omega arith)))

last-IsNumbered :
    (n : ℕ) (e : RunEvent) (events : List RunEvent)
    → IsNumbered n (e ∷ events)
    → next_sequence (e ∷ events) ≡ (n + length (e ∷ events)) % 2 ^ 64
unfolding IsNumbered next_sequence
last-IsNumbered n e [] (h, _) = rw (h) (omega arith)
last-IsNumbered n e (e' ∷ events) (h, numbered) =
    last-IsNumbered (n + 1) e' events numbered ∙ ap (λ m. m % 2 ^ 64) (omega arith)

-- The next number of events that are numbered from one on is one more than their count, as a u64.
pub next_sequence_numbered :
    (events : List RunEvent)
    → IsNumbered 1 events
    → next_sequence events ≡ (1 + length events) % 2 ^ 64
unfolding next_sequence
next_sequence_numbered [] numbered = refl
next_sequence_numbered (e ∷ events) numbered = last-IsNumbered 1 e events numbered

-- Every run of the store has numbered events.
unfoldable pub AllNumbered : MemoryRunRepository → Type 0
AllNumbered r =
    (id : HarnessRunId) (s : ReconstructedRun) → get id r.inner ≡ some s → IsNumbered 1 s.events

Extends-IsNumbered :
    (event : Option RunEvent) (s s' : ReconstructedRun)
    → Extends event s s'
    → IsNumbered 1 s.events
    → IsNumbered 1 s'.events
unfolding Extends
Extends-IsNumbered none s s' h numbered = rw (h) numbered
Extends-IsNumbered (some event) s s' (inl h) numbered = rw (h) numbered
Extends-IsNumbered (some event) s s' (inr (n, h)) numbered =
    rw (h)
      (IsNumbered-append 1 s.events event numbered (n ∙ next_sequence_numbered s.events numbered))

-- One more write of a run with numbered events.
insert-AllNumbered :
    (id : HarnessRunId) (s' : ReconstructedRun) (r : MemoryRunRepository)
    → IsNumbered 1 s'.events
    → AllNumbered r
    → AllNumbered (record r { inner = insert id s' r.inner })
unfolding AllNumbered
insert-AllNumbered id s' r first numbered other t got = elim (ℕ_discrete other id) [
  | yes e ↦ let same : s' ≡ t = ground (arith, get-insert r.inner id s') in rw (sym same) first
  | no n ↦ numbered other t (sym (get-insert_other r.inner id other s' n) ∙ got)
]

Locked-AllNumbered :
    (event : Option RunEvent) (id : HarnessRunId) (r r' : MemoryRunRepository)
    → Locked (Extends event) id r r'
    → AllNumbered r
    → AllNumbered r'
unfolding Locked AllNumbered
Locked-AllNumbered event id r r' (inl h) numbered = rw (h) numbered
Locked-AllNumbered event id r r' (inr (s, s', g, step, h)) numbered =
    rw (h)
      (insert-AllNumbered id s' r (Extends-IsNumbered event s s' step (numbered id s g)) numbered)

create_run-cases :
    (run : HarnessRun) (event : RunEvent) (r : MemoryRunRepository)
    → ((MemoryRepository.create_run run event r).0 ≡ r)
      ⊎ ((MemoryRepository.create_run run event r).0
          ≡ record r { inner = insert run.id (initial_state run event) r.inner })
unfolding MemoryRepository.create_run
create_run-cases run event r = ground arith

create_run-AllNumbered :
    (run : HarnessRun) (event : RunEvent) (r : MemoryRunRepository)
    → event.sequence ≡ 1
    → AllNumbered r
    → AllNumbered (MemoryRepository.create_run run event r).0
unfolding IsNumbered
create_run-AllNumbered run event r first numbered = elim (create_run-cases run event r) [
  | inl h ↦ rw (h) numbered
  | inr h ↦ rw (h) (insert-AllNumbered run.id (initial_state run event) r (first, tt) numbered)
]

empty-AllNumbered : AllNumbered (record { poisoned = false; inner = [] })
unfolding AllNumbered get
empty-AllNumbered id s h = absurd (ground arith)

-- The stores that an empty one becomes by the operations, where each run is created with event one.
pub data Reachable : MemoryRunRepository → Type 0 where
  empty : Reachable (record { poisoned = false; inner = [] })
  creates :
      {r : MemoryRunRepository} (run : HarnessRun) (event : RunEvent)
      → event.sequence ≡ 1
      → Reachable r
      → Reachable (MemoryRepository.create_run run event r).0
  calls : {r : MemoryRunRepository} (c : Call) → Reachable r → Reachable (call c r).0

-- In every store that the operations reach, if each run is created with an event of the number one, which
-- `create_run` of the repository does not test, the events of each run are numbered from one on without
-- a gap, as u64.
pub Reachable-AllNumbered : (r : MemoryRunRepository) → Reachable r → AllNumbered r
Reachable-AllNumbered _ empty = empty-AllNumbered
Reachable-AllNumbered _ (creates {r} run event first reached) =
    create_run-AllNumbered run event r first (Reachable-AllNumbered r reached)
Reachable-AllNumbered _ (calls {r} c reached) =
    Locked-AllNumbered (event_of c) (target c) r (call c r).0 (call-Locked c r)
      (Reachable-AllNumbered r reached)
