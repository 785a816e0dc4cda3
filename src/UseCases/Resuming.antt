-- ===== src/UseCases/Resuming.antt =====
-- What a run may do after a restart: crates/tule-core/src/run_use_cases.rs, `resume_run`.
use tule.Base.{
  ◌≡◌, refl, ◌↔◌, Bool, true, false, ◌&&◌, Option, none, some, List, [], ◌∷◌, find, All, arith,
  nat_eq, text_eq, ℤ, if◌then◌else◌,
}
use tule.Repository.{ReconstructedRun}
use tule.Capability.{CapabilityGrant}
use tule.Effect.{EffectRecord}
use tule.Resume.{
  ResumeRevalidation, ResumeDecision, continue, require_reapproval_or_abandon,
  skip_confirmed_replacement, require_fresh_grant, evaluate_resume, first,
}
use tule.UseCases.Progress.{
  resume_run, is_expired_grant, expired_ids, is_committed_replacement, committed_replacement,
}

abbrev pub all_match : ResumeRevalidation → Bool
all_match v =
    v.event_chain_matches && v.filesystem_matches_expected && v.execution_policy_matches
    && v.operation_versions_match

-- The decision by the first effect and the first grant that stand in the way.
abbrev pub decision : Option EffectRecord → Option CapabilityGrant → ResumeDecision
decision (some effect) _ = skip_confirmed_replacement effect.id
decision none (some grant) = require_fresh_grant grant.id
decision none none = continue

first-expired :
    (grants : List CapabilityGrant) (now : ℤ)
    → first (expired_ids grants now)
      ≡ (elim (find (λ g. is_expired_grant g now) grants) [ none ↦ none | some g ↦ some g.id ])
unfolding expired_ids
first-expired [] now = refl
first-expired (g ∷ grants) now = let ih = first-expired grants now in ground arith

committed_replacement-find :
    (effects : List EffectRecord)
    → committed_replacement effects
      ≡ (elim (find is_committed_replacement effects) [ none ↦ none | some e ↦ some e.id ])
unfolding committed_replacement
committed_replacement-find [] = refl
committed_replacement-find (e ∷ effects) =
    let ih = committed_replacement-find effects in ground arith

-- `resume_run` asks for a new approval, or an end, if one of the four checks failed. If none did, the
-- first committed replacement of the journal is skipped; if there is none, the first grant that is
-- revoked or expired must be issued again; and if there is none either, the run goes on.
pub resume_run_lem :
    (s : ReconstructedRun) (v : ResumeRevalidation) (now : ℤ)
    → resume_run s v now ≡ (
        if all_match v
        then decision
            (find is_committed_replacement s.effects)
            (find (λ g. is_expired_grant g now) s.grants)
        else require_reapproval_or_abandon)
unfolding resume_run evaluate_resume
resume_run_lem s v now =
    ground (arith, first-expired s.grants now, committed_replacement-find s.effects)

find-none {ℓ} :
    {A : Type ℓ} (p : A → Bool) (xs : List A) → find p xs ≡ none ↔ All (λ x. p x ≡ false) xs
find-none p [] = (λ _. tt, λ _. refl)
find-none p (x ∷ xs) =
    let ih = find-none p xs in
    (λ h. (ground arith, ih.0 (ground arith)), λ h. let rest = ih.1 h.1 in ground arith)

-- `resume_run` lets a run go on exactly if its four checks hold, no grant of it is revoked or expired,
-- and no create-or-replace of it is confirmed as committed.
pub resume_run_continues :
    (s : ReconstructedRun) (v : ResumeRevalidation) (now : ℤ)
    → (resume_run s v now ≡ continue) ↔ (
        (all_match v ≡ true)
        × All (λ g. is_expired_grant g now ≡ false) s.grants
        × All (λ e. is_committed_replacement e ≡ false) s.effects)
resume_run_continues s v now =
    let same = resume_run_lem s v now in
    let grants = find-none (λ g. is_expired_grant g now) s.grants in
    let effects = find-none is_committed_replacement s.effects in
    (
      λ h. (ground arith, grants.0 (ground arith), effects.0 (ground arith)),
      λ (m, g, e). let g' = grants.1 g in let e' = effects.1 e in ground arith,
    )
