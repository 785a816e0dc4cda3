-- ===== src/Source/Validation.antt =====
-- The tests on names, contents and URLs of sources: crates/tule-core/src/agent_source.rs,
-- `validate_source_display_name`, `validate_canonical_https_url`,
-- `derive_remote_source_display_name` and `validate_source_content`.
use mathlib.Core.List
use tule.Base.{
  ℕ, Bool, not, ◌||◌, Option, none, some, ◌++◌, Result, ok, err, ◌>>=◌, ◌>>◌, ok_or, Text, bytes,
  ltb, leb, length, drop, any, find, ◌==◌, nat_eq, to_ascii_lowercase, if◌then◌else◌,
}
use tule.Base.Scalars.{chars, code_point, in_range}
use tule.Base.Slices.{strip_prefix, before, split}
use tule.Source.Errors.{
  SourceValidationError, unsafe_display_name, too_large, contains_nul, invalid_canonical_url,
}

abbrev pub max_canonical_url_utf8 : ℕ
max_canonical_url_utf8 = 2048

abbrev pub max_source_utf8 : ℕ
max_source_utf8 = 65536

-- A control char, or one that changes the direction or breaks a line.
abbrev pub is_unsafe : ℕ → Bool
is_unsafe code =
    leb code 0x1F
    || (code == 0x7F)
    || in_range 0x80 0x9F code
    || (code == 0x061C)
    || in_range 0x200E 0x200F code
    || in_range 0x202A 0x202E code
    || in_range 0x2028 0x2029 code
    || in_range 0x2066 0x2069 code

unfoldable pub validate_source_display_name : Text → Result SourceValidationError (Unit {0})
unfolding chars code_point
validate_source_display_name display_name =
    if length display_name == 0
    then err unsafe_display_name
    else if any (λ ch. is_unsafe (code_point ch)) (chars display_name)
    then err unsafe_display_name
    else ok tt

unfoldable pub validate_source_content : Text → Result SourceValidationError (Unit {0})
validate_source_content content =
    if ltb max_source_utf8 (length content)
    then err (too_large (length content))
    else if any (λ b. b == 0) content
    then err contains_nul
    else ok tt

-- What ends the host of a URL.
abbrev pub ends_host : ℕ → Bool
ends_host b = (b == b'/') || (b == b'?') || (b == b'#')

abbrev is_url_control : ℕ → Bool
is_url_control code = leb code 0x1F || (code == 0x7F) || in_range 0x80 0x9F code

-- The tests on what follows `https://`, and on the chars of the whole URL.
unfoldable pub check_after_scheme : Text → Text → Result SourceValidationError (Unit {0})
unfolding before chars code_point
check_after_scheme url after_scheme =
    if length after_scheme == 0
    then err invalid_canonical_url
    else if length (before ends_host after_scheme) == 0
    then err invalid_canonical_url
    else if any (λ b. b == b'@') after_scheme
    then err invalid_canonical_url
    else if any (λ ch. is_url_control (code_point ch)) (chars url)
    then err invalid_canonical_url
    else ok tt

unfoldable pub validate_canonical_https_url : Text → Result SourceValidationError (Unit {0})
unfolding check_after_scheme strip_prefix
validate_canonical_https_url url =
    if (length url == 0) || ltb max_canonical_url_utf8 (length url)
    then err invalid_canonical_url
    else if any (λ b. b == 0) url
    then err contains_nul
    else do
      after_scheme ← ok_or (strip_prefix (bytes "https://") url) invalid_canonical_url
      check_after_scheme url after_scheme

abbrev is_ok {ℓ κ} : {E : Type ℓ} {A : Type κ} → Result E A → Bool
is_ok (ok a) = Bool.true
is_ok (err e) = Bool.false

-- The last segment of the path that is not empty, if it is a safe name.
unfoldable pub safe_tail : Text → Option Text
unfolding before split validate_source_display_name
safe_tail path =
    let segments = split b'/' (before (λ b. (b == b'?') || (b == b'#')) path) in
    elim (find (λ segment. not (length segment == 0)) (List.reverse segments)) [
      | none ↦ none
      | some tail ↦ if is_ok (validate_source_display_name tail) then some tail else none
    ]

abbrev append_tail : Text → Option Text → Text
append_tail host_name none = host_name
append_tail host_name (some tail) = host_name ++ (bytes "/" ++ tail)

unfoldable pub derive_remote_source_display_name : Text → Result SourceValidationError Text
unfolding validate_canonical_https_url before safe_tail to_ascii_lowercase
derive_remote_source_display_name canonical_url = do
  validate_canonical_https_url canonical_url
  after_scheme ← ok_or (strip_prefix (bytes "https://") canonical_url) invalid_canonical_url
  let host = before ends_host after_scheme
  if length host == 0 then err unsafe_display_name else ok tt
  let host_name = to_ascii_lowercase host
  let display_name = append_tail host_name (safe_tail (drop (length host) after_scheme))
  validate_source_display_name display_name
  ok display_name
