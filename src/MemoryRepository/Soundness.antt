-- ===== src/MemoryRepository/Soundness.antt =====
-- Sound runs, and the steps of the operations on them: crates/tule-core/src/run_use_cases.rs,
-- `MemoryRunRepository`.
use tule.Base.{
  ◌≡◌, refl, sym, ◌∙◌, ◌⊎◌, inl, inr, Bool, Bool-cases, Option-cases, some, List, [], ◌∷◌, ◌++◌,
  find, replace_first, All, ok, err, arith, nat_eq, ℕ_discrete,
}
use tule.Base.Actions.{◌>>◌, modify}
use tule.Base.Keeping.{OkIs, Keeps, Any, SomeIs, Keeps-then, Keeps-modify}
use tule.Ids.{HarnessRunId}
use tule.Event.{RunEvent}
use tule.Capability.{CapabilityGrant}
use tule.Capability.Grants.{IsValid}
use tule.Effect.{EffectRecord}
use tule.Effect.Journal.{IsConsistent}
use tule.Repository.{ReconstructedRun}
use tule.Store.{
  MemoryRunRepository, MemoryRunRepositoryError, lock_poisoned, not_found, sequence_gap, RunAction,
  get, insert, with_run, append_checked, next_sequence,
}
use tule.MemoryRepository.{put_effect, put_grant}
use tule.MemoryRepository.Rollback.{with_run_found}
use tule.MemoryRepository.Locked.{get-insert, get-insert_other}
use tule.MemoryRepository.Numbering.{IsNumbered, IsNumbered-append, next_sequence_numbered}

-- The events are numbered from one on, the fields of each effect fit its phase, and each grant is valid.
pub record IsSound (s : ReconstructedRun) : Type 0 where
  pub numbered : IsNumbered 1 s.events
  pub consistent : All IsConsistent s.effects
  pub valid : All IsValid s.grants

unfoldable pub AllSound : MemoryRunRepository → Type 0
AllSound r = (id : HarnessRunId) (s : ReconstructedRun) → get id r.inner ≡ some s → IsSound s

All-append {ℓ κ} :
    {A : Type ℓ} (P : A → Type κ) (xs : List A) (x : A) → All P xs → P x → All P (xs ++ (x ∷ []))
All-append P [] x h p = (p, tt)
All-append P (y ∷ xs) x h p = (h.0, All-append P xs x h.1 p)

All-replace_first {ℓ κ} :
    {A : Type ℓ} (P : A → Type κ) (p : A → Bool) (x : A) (xs : List A)
    → All P xs
    → P x
    → All P (replace_first p x xs)
All-replace_first P p x [] h q = tt
All-replace_first P p x (y ∷ xs) h q = elim (Bool-cases (p y)) [
  | inl b ↦ rw (b) (q, h.1)
  | inr b ↦ rw (b) (h.0, All-replace_first P p x xs h.1 q)
]

pub find-SomeIs :
    {A : Type 0} (P : A → Type 0) (p : A → Bool) (xs : List A) → All P xs → SomeIs P (find p xs)
find-SomeIs P p [] h = tt
find-SomeIs P p (y ∷ xs) h = elim (Bool-cases (p y)) [
  | inl b ↦ rw (b) h.0
  | inr b ↦ rw (b) (find-SomeIs P p xs h.1)
]

pub insert-AllSound :
    (id : HarnessRunId) (s' : ReconstructedRun) (r : MemoryRunRepository)
    → IsSound s'
    → AllSound r
    → AllSound (record r { inner = insert id s' r.inner })
unfolding AllSound
insert-AllSound id s' r first sound other t got = elim (ℕ_discrete other id) [
  | yes e ↦ let same : s' ≡ t = ground (arith, get-insert r.inner id s') in rw (sym same) first
  | no n ↦ sound other t (sym (get-insert_other r.inner id other s' n) ∙ got)
]

with_run-cases :
    {A : Type 0} (id : HarnessRunId) (body : RunAction A) (r : MemoryRunRepository)
    → ((e : MemoryRunRepositoryError) × (with_run id body r ≡ (r, err e)))
      ⊎ ((s : ReconstructedRun) × (get id r.inner ≡ some s)
          × (with_run id body r ≡ (record r { inner = insert id (body s).0 r.inner }, (body s).1)))
unfolding with_run
with_run-cases id body r = elim (Bool-cases r.poisoned) [
  | inl h ↦ inl (lock_poisoned, simp (h) refl)
  | inr h ↦ elim (Option-cases (get id r.inner)) [
    | inl g ↦ inl (not_found, simp (h, g) refl)
    | inr (s, g) ↦ inr (s, g, with_run_found id body r s h g)
  ]
]

pub Keeps-with_run :
    {A : Type 0} {Q : A → Type 0} (id : HarnessRunId) {body : RunAction A}
    → Keeps IsSound Q body
    → Keeps AllSound Q (with_run id body)
unfolding OkIs AllSound
Keeps-with_run id {body = body} h = record {
  keeps = λ r i. elim (with_run-cases id body r) [
    | inl (e, same) ↦ rw (same) (i, tt)
    | inr (s, got, same) ↦
        let (sound, q) = h.keeps s (i id s got) in
        rw (same) (insert-AllSound id (body s).0 r sound i, q)
  ];
}

append_checked-cases :
    (event : RunEvent) (s : ReconstructedRun)
    → (append_checked event s ≡ (s, err (sequence_gap (next_sequence s.events) event.sequence)))
      ⊎ ((event.sequence ≡ next_sequence s.events)
          × (append_checked event s ≡ (record s { events = s.events ++ (event ∷ []) }, ok tt)))
unfolding append_checked
append_checked-cases event s = ground arith

pub Keeps-append_checked : (event : RunEvent) → Keeps IsSound Any (append_checked event)
unfolding OkIs
Keeps-append_checked event = record {
  keeps = λ s i. elim (append_checked-cases event s) [
    | inl h ↦ rw (h) (i, tt)
    | inr (n, h) ↦ rw (h) (
      record {
        numbered =
            IsNumbered-append 1 s.events event i.numbered
              (n ∙ next_sequence_numbered s.events i.numbered);
        consistent = i.consistent;
        valid = i.valid;
      },
      tt,
    )
  ];
}

-- A change that leaves events, effects and grants as they are.
unfoldable pub IsElsewhere : (ReconstructedRun → ReconstructedRun) → Type 0
IsElsewhere f =
    (s : ReconstructedRun)
    → ((f s).events ≡ s.events) × ((f s).effects ≡ s.effects) × ((f s).grants ≡ s.grants)

pub Keeps-elsewhere :
    (event : RunEvent) (f : ReconstructedRun → ReconstructedRun)
    → IsElsewhere f
    → Keeps IsSound Any (append_checked event >> modify f)
unfolding IsElsewhere
Keeps-elsewhere event f h = Keeps-then (Keeps-append_checked event) (
    Keeps-modify f (λ s i. record {
      numbered = rw ((h s).0) i.numbered;
      consistent = rw ((h s).1) i.consistent;
      valid = rw ((h s).2) i.valid;
    }))

pub add_effect :
    (e : EffectRecord)
    → IsConsistent e
    → (s : ReconstructedRun) → IsSound s
    → IsSound (record s { effects = s.effects ++ (e ∷ []) })
add_effect e v s i = record {
  numbered = i.numbered;
  consistent = All-append IsConsistent s.effects e i.consistent v;
  valid = i.valid;
}

pub put_effect-IsSound :
    (e : EffectRecord)
    → IsConsistent e
    → (s : ReconstructedRun) → IsSound s
    → IsSound (put_effect e s)
put_effect-IsSound e v s i = record {
  numbered = i.numbered;
  consistent = All-replace_first IsConsistent _ e s.effects i.consistent v;
  valid = i.valid;
}

pub add_grant :
    (g : CapabilityGrant)
    → IsValid g
    → (s : ReconstructedRun) → IsSound s
    → IsSound (record s { grants = s.grants ++ (g ∷ []) })
add_grant g v s i = record {
  numbered = i.numbered;
  consistent = i.consistent;
  valid = All-append IsValid s.grants g i.valid v;
}

pub put_grant-IsSound :
    (g : CapabilityGrant) → IsValid g → (s : ReconstructedRun) → IsSound s → IsSound (put_grant g s)
put_grant-IsSound g v s i = record {
  numbered = i.numbered;
  consistent = i.consistent;
  valid = All-replace_first IsValid _ g s.grants i.valid v;
}
