-- ===== src/Proposal.antt =====
-- The bootstrap proposal, one heading changed in one file: crates/tule-core/src/run.rs,
-- `validate_run_content_bytes` and `validate_bootstrap_proposal`.
pub mod Accepted
pub mod Counting
use tule.Base.{
  ℕ, zero, suc, ◌+◌, Bool, true, false, not, ◌&&◌, ◌||◌, Option, none, some, List, [], ◌∷◌, ◌++◌,
  Result, ok, err, ◌>>=◌, ◌>>◌, map_err, Text, bytes, ◌==◌, ◌!=◌, nat_eq, text_eq, Text-discrete,
  ℕ_discrete, ltb, length, drop, any, find_text, contains, replace_once, to_ascii_lowercase,
  if◌then◌else◌,
}

abbrev pub max_run_content_utf8 : ℕ
max_run_content_utf8 = 65536

abbrev pub bootstrap_heading_before : Text
bootstrap_heading_before = bytes "<h1>Ready</h1>"

abbrev pub bootstrap_heading_after : Text
bootstrap_heading_after = bytes "<h1>Ready for review</h1>"

abbrev pub controlled_relative_target : Text
controlled_relative_target = bytes "index.html"

pub data RunContentError : Type 0 where
  too_large : ℕ → RunContentError
  contains_nul : RunContentError

pub data BootstrapProposalError : Type 0 where
  content : RunContentError → BootstrapProposalError
  unknown_fields framing_or_non_postimage path_instructions patch_or_shell : BootstrapProposalError
  preimage_heading_count : ℕ → BootstrapProposalError
  broader_diff multiple_matches wrong_target : BootstrapProposalError

unfoldable pub validate_run_content_bytes : Text → Result RunContentError (Unit {0})
validate_run_content_bytes text =
    if ltb max_run_content_utf8 (length text)
    then err (too_large (length text))
    else if any (λ b. b == 0) text
    then err contains_nul
    else ok tt

-- The loop of `count_occurrences`, whose `rest` gets shorter in each round.
unfoldable pub count_from : ℕ → Text → Text → ℕ
unfolding find_text
count_from zero rest needle = 0
count_from (suc fuel) rest needle = elim (find_text needle rest) [
  | none ↦ 0
  | some index ↦ count_from fuel (drop (index + length needle) rest) needle + 1
]

unfoldable pub count_occurrences : Text → Text → ℕ
unfolding count_from
count_occurrences haystack needle =
    if needle == [] then 0 else count_from (length haystack + 1) haystack needle

-- The texts that mark a payload as a patch or a shell script, and as instructions on a path.
abbrev has_patch_or_shell : Text → Bool
has_patch_or_shell lowered =
    contains lowered (bytes "diff --git")
    || contains lowered (bytes "*** begin patch")
    || contains lowered (bytes "#!/bin/")
    || contains lowered (bytes "powershell")
    || contains lowered (bytes "cmd.exe")

abbrev has_path_instructions : Text → Bool
has_path_instructions lowered =
    contains lowered (bytes "path:")
    || contains lowered (bytes "target path")
    || contains lowered (bytes "write to ")
    || contains lowered (bytes "save as ")

abbrev has_framing : Text → Bool
has_framing postimage = contains postimage (bytes "-----BEGIN") || contains postimage (bytes "```")

-- The tests on the payload of the postimage.
unfoldable pub reject_payload : Text → Result BootstrapProposalError (Unit {0})
reject_payload postimage =
    let lowered = to_ascii_lowercase postimage in
    if has_patch_or_shell lowered
    then err patch_or_shell
    else if has_path_instructions lowered
    then err path_instructions
    else if has_framing postimage
    then err framing_or_non_postimage
    else ok tt

-- The tests on the headings, and the comparison with the preimage after the replacement.
unfoldable pub compare_images : Text → Text → Result BootstrapProposalError (Unit {0})
compare_images preimage postimage =
    let before_count = count_occurrences preimage bootstrap_heading_before in
    let expected = replace_once preimage bootstrap_heading_before bootstrap_heading_after in
    if before_count != 1
    then err (preimage_heading_count before_count)
    else if count_occurrences preimage bootstrap_heading_after != 0
    then err broader_diff
    else if postimage != expected
    then if ltb 1 (count_occurrences postimage bootstrap_heading_after) || ltb 1 before_count
      then err multiple_matches
      else err broader_diff
    else ok tt

unfoldable pub validate_bootstrap_proposal :
    Text → Text → Text → Result BootstrapProposalError (Unit {0})
validate_bootstrap_proposal preimage postimage relative_target =
    if relative_target != controlled_relative_target then err wrong_target else do
      map_err content (validate_run_content_bytes preimage)
      map_err content (validate_run_content_bytes postimage)
      reject_payload postimage
      compare_images preimage postimage

unfoldable pub reject_unknown_proposal_fields :
    List Text → List Text → Result BootstrapProposalError (Unit {0})
reject_unknown_proposal_fields allowed [] = ok tt
reject_unknown_proposal_fields allowed (field ∷ present) =
    if not (any (λ allowed_field. allowed_field == field) allowed)
    then err unknown_fields
    else reject_unknown_proposal_fields allowed present
