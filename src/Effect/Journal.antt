-- ===== src/Effect/Journal.antt =====
-- Histories of one effect record (crates/tule-core/src/run.rs, `EffectRecord`): any calls, by any
-- claimants, in any order.
use tule.Base.{
  ℕ, ◌+◌, ◌≤◌, ◌≡◌, ◌≢◌, ◌⊎◌, Bool, true, false, Option, none, some, List, [], ◌∷◌, Result, ok, err,
  Text, ℤ, arith,
}
use tule.Ids.{
  HarnessRunId, NodeAttemptId, ExecutionPlanVersionId, RunGraphVersionId, CapabilityGrantId,
  EffectRecordId,
}
use tule.Effect.Phase.{EffectJournalPhase, prepared, claimed, dispatched, settled}
use tule.Effect.OperationResult.{EffectOperationResult, success}
use tule.Effect.Certainty.{EffectCertainty, ReconciliationProbe, confirmed_no_effect}
use tule.Effect.{EffectRecord, EffectError, prepare, claim, mark_dispatched, settle, reconcile}

pub data Call : Type 0 where
  claims dispatches : Text → ℤ → Call
  settles : Text → EffectOperationResult → EffectCertainty → ℤ → Call
  reconciles : ReconciliationProbe → ℤ → Call

unfoldable pub call : EffectRecord → Call → EffectRecord × Result EffectError (Unit {0})
call e (claims c t) = claim e c t
call e (dispatches c t) = mark_dispatched e c t
call e (settles c r k t) = settle e c r k t
call e (reconciles p t) = reconcile e p t

unfoldable pub calls : EffectRecord → List Call → EffectRecord
calls e [] = e
calls e (c ∷ cs) = calls (call e c).0 cs

abbrev PhaseFields : EffectJournalPhase → EffectRecord → Type 0
PhaseFields prepared e =
    (e.claimant ≡ none)
    × (e.claimed_at_unix_ms ≡ none)
    × (e.dispatched_at_unix_ms ≡ none)
    × (e.settled_at_unix_ms ≡ none)
    × (e.operation_result ≡ none)
    × (e.certainty ≡ none)
PhaseFields claimed e =
    (e.claimant ≢ none)
    × (e.claimed_at_unix_ms ≢ none)
    × (e.dispatched_at_unix_ms ≡ none)
    × (e.settled_at_unix_ms ≡ none)
    × (e.operation_result ≡ none)
    × (e.certainty ≡ none)
PhaseFields dispatched e =
    (e.claimant ≢ none)
    × (e.claimed_at_unix_ms ≢ none)
    × (e.dispatched_at_unix_ms ≢ none)
    × (e.settled_at_unix_ms ≡ none)
    × (e.operation_result ≡ none)
    × (e.certainty ≡ none)
PhaseFields settled e =
    (e.claimant ≢ none)
    × (e.claimed_at_unix_ms ≢ none)
    × (e.dispatched_at_unix_ms ≢ none)
    × (e.settled_at_unix_ms ≢ none)
    × (e.operation_result ≢ none)
    × (e.certainty ≢ none)

-- The fields that are set are those of the phases passed so far.
abbrev pub IsConsistent : EffectRecord → Type 0
IsConsistent e = PhaseFields e.phase e

pub call-IsConsistent : (e : EffectRecord) (c : Call) → IsConsistent e → IsConsistent (call e c).0
unfolding call claim mark_dispatched settle reconcile
call-IsConsistent e (claims c t) v = ground arith
call-IsConsistent e (dispatches c t) v = ground arith
call-IsConsistent e (settles c r k t) v = ground arith
call-IsConsistent e (reconciles p t) v = ground arith

pub prepare-IsConsistent :
    (id : EffectRecordId) (run_id : HarnessRunId) (attempt : Option NodeAttemptId)
    (plan : Option ExecutionPlanVersionId) (graph : Option RunGraphVersionId)
    (operation schema target : Text) (grant : CapabilityGrantId) (now : ℤ) (pre post : Option Text)
    → IsConsistent (prepare id run_id attempt plan graph operation schema target grant now pre post)
unfolding prepare
prepare-IsConsistent id run_id attempt plan graph operation schema target grant now pre post =
    ground arith

-- Whatever calls are made on a record whose fields fit its phase, its fields go on to fit its phase:
-- claimant and claim time from the claim on, dispatch time from the dispatch on, and result, certainty
-- and settlement time once it is settled.
pub calls-IsConsistent :
    (e : EffectRecord) (cs : List Call) → IsConsistent e → IsConsistent (calls e cs)
unfolding calls
calls-IsConsistent e [] v = v
calls-IsConsistent e (c ∷ cs) v = calls-IsConsistent (call e c).0 cs (call-IsConsistent e c v)

-- A call that returns an error leaves the record as it was.
pub call_refused :
    (e : EffectRecord) (c : Call) {x : EffectError} → (call e c).1 ≡ err x → (call e c).0 ≡ e
unfolding call claim mark_dispatched settle reconcile
call_refused e (claims c t) h = ground arith
call_refused e (dispatches c t) h = ground arith
call_refused e (settles c r k t) h = ground arith
call_refused e (reconciles p t) h = ground arith

abbrev is_ok {ℓ κ} : {E : Type ℓ} {A : Type κ} → Result E A → Bool
is_ok (ok _) = true
is_ok (err _) = false

abbrev to_ℕ : Bool → ℕ
to_ℕ true = 1
to_ℕ false = 0

abbrev counts_dispatch : Call → Bool → ℕ
counts_dispatch (dispatches _ _) b = to_ℕ b
counts_dispatch _ b = 0

-- How many of the calls took the record over the external boundary.
pub dispatch_count : EffectRecord → List Call → ℕ
dispatch_count e [] = 0
dispatch_count e (c ∷ cs) = counts_dispatch c (is_ok (call e c).1) + dispatch_count (call e c).0 cs

-- 1 once the record has been dispatched.
abbrev passed : EffectJournalPhase → ℕ
passed prepared = 0
passed claimed = 0
passed dispatched = 1
passed settled = 1

passed-call :
    (e : EffectRecord) (c : Call)
    → counts_dispatch c (is_ok (call e c).1) + passed e.phase ≡ passed (call e c).0.phase
unfolding call claim mark_dispatched settle reconcile
passed-call e (claims c t) = ground arith
passed-call e (dispatches c t) = ground arith
passed-call e (settles c r k t) = ground arith
passed-call e (reconciles p t) = ground arith

passed-le-one : (p : EffectJournalPhase) → passed p ≤ 1
passed-le-one p = ground arith

dispatch_count_passed :
    (e : EffectRecord) (cs : List Call)
    → dispatch_count e cs + passed e.phase ≡ passed (calls e cs).phase
unfolding dispatch_count calls
dispatch_count_passed e [] = omega arith
dispatch_count_passed e (c ∷ cs) =
    omega (arith, passed-call e c, dispatch_count_passed (call e c).0 cs)

-- At most one dispatch: of all calls ever made on a record, by whoever, one at most is a dispatch that
-- succeeds, and none if the record had been dispatched before.
pub dispatch_at_most_once :
    (e : EffectRecord) (cs : List Call) → dispatch_count e cs + passed e.phase ≤ 1
dispatch_at_most_once e cs =
    omega (arith, dispatch_count_passed e cs, passed-le-one (calls e cs).phase)

call-claimant :
    (e : EffectRecord) (c : Call) (owner : Text)
    → e.claimant ≡ some owner
    → (call e c).0.claimant ≡ some owner
unfolding call claim mark_dispatched settle reconcile
call-claimant e (claims c t) owner h = ground arith
call-claimant e (dispatches c t) owner h = ground arith
call-claimant e (settles c r k t) owner h = ground arith
call-claimant e (reconciles p t) owner h = ground arith

pub calls-claimant :
    (e : EffectRecord) (cs : List Call) (owner : Text)
    → e.claimant ≡ some owner
    → (calls e cs).claimant ≡ some owner
unfolding calls
calls-claimant e [] owner h = h
calls-claimant e (c ∷ cs) owner h = calls-claimant (call e c).0 cs owner (call-claimant e c owner h)

claim-claimant :
    (e : EffectRecord) (owner : Text) (at : ℤ)
    → (claim e owner at).1 ≡ ok tt
    → (claim e owner at).0.claimant ≡ some owner
unfolding claim
claim-claimant e owner at h = ground arith

owned_refuses :
    (e : EffectRecord) (owner other : Text) (t : ℤ) (r : EffectOperationResult)
    (k : EffectCertainty)
    → e.claimant ≡ some owner
    → other ≢ owner
    → ((claim e other t).1 ≢ ok tt)
      × ((mark_dispatched e other t).1 ≢ ok tt)
      × ((settle e other r k t).1 ≢ ok tt)
unfolding claim mark_dispatched settle
owned_refuses e owner other t r k h d = (λ x. ground arith, λ x. ground arith, λ x. ground arith)

-- One claimant: after a claim that succeeded and any further calls, no other claimant can claim,
-- dispatch or settle the effect.
pub claim_exclusive :
    (e : EffectRecord) (owner other : Text) (at t : ℤ) (cs : List Call) (r : EffectOperationResult)
    (k : EffectCertainty)
    → (claim e owner at).1 ≡ ok tt
    → other ≢ owner
    → let later = calls (claim e owner at).0 cs in
      ((claim later other t).1 ≢ ok tt)
      × ((mark_dispatched later other t).1 ≢ ok tt)
      × ((settle later other r k t).1 ≢ ok tt)
claim_exclusive e owner other at t cs r k h d =
    owned_refuses _ owner other t r k
      (calls-claimant (claim e owner at).0 cs owner (claim-claimant e owner at h)) d

-- The claimant can take its effect through: on a prepared record whose fields fit that phase, its claim,
-- its dispatch and its settlement succeed in this order, unless a failure is to be settled as a
-- confirmed absence of any effect; the record then holds the result and the certainty.
pub claim_takes_through :
    (e : EffectRecord) (owner : Text) (t u v : ℤ) (r : EffectOperationResult) (k : EffectCertainty)
    → IsConsistent e
    → e.phase ≡ prepared
    → (r ≡ success) ⊎ (k ≢ confirmed_no_effect)
    → let (e1, claim_result) = claim e owner t in
      let (e2, dispatch_result) = mark_dispatched e1 owner u in
      let (e3, settle_result) = settle e2 owner r k v in
      (claim_result ≡ ok tt)
      × (dispatch_result ≡ ok tt)
      × (settle_result ≡ ok tt)
      × (e3.phase ≡ settled)
      × (e3.operation_result ≡ some r)
      × (e3.certainty ≡ some k)
unfolding claim mark_dispatched settle
claim_takes_through e owner t u v r k c p h = ground arith
