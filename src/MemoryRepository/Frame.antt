-- ===== src/MemoryRepository/Frame.antt =====
-- The parts of the store in memory that a call is not about: crates/tule-core/src/run_use_cases.rs,
-- `MemoryRunRepository`.
use tule.Base.{◌≡◌, ◌≢◌, refl, sym, ◌⊎◌, inl, inr, Option, none, some, [], ◌∷◌, ◌++◌, arith, nat_eq}
use tule.Ids.{HarnessRunId}
use tule.Event.{RunEvent}
use tule.Repository.{ReconstructedRun}
use tule.Store.{MemoryRunRepository, get}
use tule.MemoryRepository.Calls.{Call, call, target, event_of}
use tule.MemoryRepository.Locked.{Locked, Extends, call-Locked, get-insert, get-insert_other}

Locked-other :
    (event : Option RunEvent) (id other : HarnessRunId) (r r' : MemoryRunRepository)
    → other ≢ id
    → Locked (Extends event) id r r'
    → get other r'.inner ≡ get other r.inner
unfolding Locked
Locked-other event id other r r' n (inl h) = rw (h) refl
Locked-other event id other r r' n (inr (s, s', g, step, h)) =
    rw (h) (get-insert_other r.inner id other s' n)

-- A call on one run leaves every other run as it is.
pub call_other :
    (c : Call) (r : MemoryRunRepository) (other : HarnessRunId)
    → other ≢ target c
    → get other (call c r).0.inner ≡ get other r.inner
call_other c r other n =
    Locked-other (event_of c) (target c) other r (call c r).0 n (call-Locked c r)

-- `events` begins with the events of the old state.
unfoldable pub IsContinued : ReconstructedRun → Option ReconstructedRun → Type 0
IsContinued s none = ⊥
IsContinued s (some s') =
    (s'.events ≡ s.events) ⊎ ((event : RunEvent) × (s'.events ≡ s.events ++ (event ∷ [])))

IsContinued-self : (s : ReconstructedRun) → IsContinued s (some s)
unfolding IsContinued
IsContinued-self s = inl refl

Extends-IsContinued :
    (event : Option RunEvent) (s s' : ReconstructedRun)
    → Extends event s s'
    → IsContinued s (some s')
unfolding Extends IsContinued
Extends-IsContinued none s s' h = inl h
Extends-IsContinued (some event) s s' (inl h) = inl h
Extends-IsContinued (some event) s s' (inr (_, h)) = inr (event, h)

Locked-IsContinued :
    (event : Option RunEvent) (id : HarnessRunId) (r r' : MemoryRunRepository)
    (s : ReconstructedRun)
    → Locked (Extends event) id r r'
    → get id r.inner ≡ some s
    → IsContinued s (get id r'.inner)
unfolding Locked
Locked-IsContinued event id r r' s (inl h) got = rw (h, got) (IsContinued-self s)
Locked-IsContinued event id r r' s (inr (t, t', g, step, h)) got =
    let same : t ≡ s = ground arith in
    rw (h, get-insert r.inner id t', sym same) (Extends-IsContinued event t t' step)

-- A call on a run in the store keeps it there, and keeps its events, with at most one more at the end.
pub call_continues :
    (c : Call) (r : MemoryRunRepository) (s : ReconstructedRun)
    → get (target c) r.inner ≡ some s
    → IsContinued s (get (target c) (call c r).0.inner)
call_continues c r s got =
    Locked-IsContinued (event_of c) (target c) r (call c r).0 s (call-Locked c r) got
