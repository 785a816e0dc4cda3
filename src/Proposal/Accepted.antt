-- ===== src/Proposal/Accepted.antt =====
-- What an accepted bootstrap proposal is (crates/tule-core/src/run.rs, `validate_bootstrap_proposal`).
use tule.Base.{
  ℕ, ◌+◌, ◌≤◌, ◌≡◌, refl, ◌∙◌, ◌↔◌, true, false, some, List, [], ◌∷◌, ◌++◌, ok, Text, ◌==◌, nat_eq,
  text_eq, length, take, drop, any, All, find_text, find_text-append, contains, replace_once, arith,
}
use tule.Proposal.Counting.{count_one}
use tule.Proposal.{
  max_run_content_utf8, bootstrap_heading_before, bootstrap_heading_after,
  controlled_relative_target, validate_run_content_bytes, reject_payload, count_occurrences,
  compare_images, validate_bootstrap_proposal, reject_unknown_proposal_fields,
}

-- Content that may be stored: at most 64 KiB, and no NUL byte.
pub record IsRunContent (text : Text) : Type 0 where
  pub bounded : length text ≤ max_run_content_utf8
  pub no_nul : any (λ b. b == 0) text ≡ false

validate_run_content_bytes_ok :
    (text : Text) → (validate_run_content_bytes text ≡ ok tt) ↔ IsRunContent text
unfolding validate_run_content_bytes
validate_run_content_bytes_ok text = (λ h. ground arith, λ h. ground arith)

-- One heading of the preimage is changed, and every other byte stays.
pub record IsHeadingChange (preimage postimage : Text) : Type 0 where
  pub before : Text
  pub after : Text
  pub splits_preimage : preimage ≡ before ++ (bootstrap_heading_before ++ after)
  pub splits_postimage : postimage ≡ before ++ (bootstrap_heading_after ++ after)
  pub no_further_heading : contains after bootstrap_heading_before ≡ false

compare_images_ok :
    (preimage postimage : Text)
    → compare_images preimage postimage ≡ ok tt
    → (count_occurrences preimage bootstrap_heading_before ≡ 1)
      × (postimage ≡ replace_once preimage bootstrap_heading_before bootstrap_heading_after)
unfolding compare_images
compare_images_ok preimage postimage h = ground arith

replace_once-found :
    (text needle new : Text) (i : ℕ)
    → find_text needle text ≡ some i
    → replace_once text needle new ≡ take i text ++ (new ++ drop (i + length needle) text)
unfolding replace_once
replace_once-found text needle new i h = rw (h, replace_once)

compare_images-IsHeadingChange :
    (preimage postimage : Text)
    → compare_images preimage postimage ≡ ok tt
    → IsHeadingChange preimage postimage
compare_images-IsHeadingChange preimage postimage h =
    let (once, same) = compare_images_ok preimage postimage h in
    let (i, found, last) = count_one preimage bootstrap_heading_before (λ e. cc) once in
    record {
      before = take i preimage;
      after = drop (i + length bootstrap_heading_before) preimage;
      splits_preimage = find_text-append bootstrap_heading_before preimage i found;
      splits_postimage =
          same
          ∙ replace_once-found preimage bootstrap_heading_before bootstrap_heading_after i found;
      no_further_heading = rw (last, contains);
    }

validate_parts :
    (preimage postimage target : Text)
    → validate_bootstrap_proposal preimage postimage target ≡ ok tt
    → (target ≡ controlled_relative_target)
      × (validate_run_content_bytes preimage ≡ ok tt)
      × (validate_run_content_bytes postimage ≡ ok tt)
      × (reject_payload postimage ≡ ok tt)
      × (compare_images preimage postimage ≡ ok tt)
unfolding validate_bootstrap_proposal
validate_parts preimage postimage target h = ground arith

-- An accepted proposal goes to index.html, both texts are storable content, and the postimage is the
-- preimage with its one heading changed and every other byte as it was.
pub accepted_proposal :
    (preimage postimage target : Text)
    → validate_bootstrap_proposal preimage postimage target ≡ ok tt
    → (target ≡ controlled_relative_target)
      × IsRunContent preimage
      × IsRunContent postimage
      × IsHeadingChange preimage postimage
accepted_proposal preimage postimage target h =
    let (t, p, q, _, c) = validate_parts preimage postimage target h in
    (
      t,
      (validate_run_content_bytes_ok preimage).0 p,
      (validate_run_content_bytes_ok postimage).0 q,
      compare_images-IsHeadingChange preimage postimage c,
    )

-- A proposal's fields are accepted exactly if each of them is among the allowed ones.
pub known_fields :
    (allowed present : List Text)
    → (reject_unknown_proposal_fields allowed present ≡ ok tt)
      ↔ All (λ field. any (λ a. a == field) allowed ≡ true) present
unfolding reject_unknown_proposal_fields
known_fields allowed [] = (λ h. tt, λ h. refl)
known_fields allowed (field ∷ present) = (
  λ h. (ground arith, (known_fields allowed present).0 (ground arith)),
  λ h. rw (h.0) ((known_fields allowed present).1 h.1),
)
