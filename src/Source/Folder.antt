-- ===== src/Source/Folder.antt =====
-- The framing of the members of a folder: crates/tule-core/src/agent_source.rs,
-- `frame_folder_members` and `count_folder_members`. The loop that counts runs on fuel, one more than
-- the length of the content: each round moves on by more than one byte.
use tule.Base.{
  ℕ, zero, suc, ◌+◌, ◌-◌, ◌^◌, Bool, List, [], ◌∷◌, ◌++◌, Result, ok, err, ◌>>=◌, ◌>>◌, ok_or, Text,
  bytes, decimal, ltb, length, ◌==◌, nat_eq, if◌then◌else◌,
}
use tule.Base.Sort.{leb_text, sort_by}
use tule.Base.Slices.{strip_prefix, split_once, get_from, get_range, parse_usize}
use tule.Source.Errors.{
  SourceValidationError, unsafe_display_name, too_large, no_eligible_members, too_many_members,
}
use tule.Source.Validation.{validate_source_display_name, validate_source_content}

abbrev pub max_folder_members : ℕ
max_folder_members = 32

-- The frame of one member.
unfoldable pub frame_member : Text × Text → Text
unfolding decimal
frame_member (basename, body) =
    bytes "member: "
    ++ (basename ++ (bytes "\ncontent-bytes: " ++ (decimal (length body) ++ (bytes "\n" ++ body))))

unfoldable pub frame_ordered : List (Text × Text) → Text
unfolding frame_member
frame_ordered [] = []
frame_ordered (member ∷ members) = frame_member member ++ frame_ordered members

abbrev pub by_basename : Text × Text → Text × Text → Bool
by_basename left right = leb_text left.0 right.0

unfoldable pub frame_folder_members : List (Text × Text) → Text
unfolding frame_ordered sort_by leb_text
frame_folder_members members = frame_ordered (sort_by by_basename members)

-- The body of the loop: the offset behind the member that starts at the offset.
unfoldable pub next_member : Text → ℕ → Result SourceValidationError ℕ
unfolding get_from get_range strip_prefix split_once parse_usize
next_member content offset = do
  rest ← ok_or (get_from content offset) unsafe_display_name
  after_member ← ok_or (strip_prefix (bytes "member: ") rest) unsafe_display_name
  named ← ok_or (split_once b'\n' after_member) unsafe_display_name
  validate_source_display_name named.0
  after_bytes_label ← ok_or (strip_prefix (bytes "content-bytes: ") named.1) unsafe_display_name
  sized ← ok_or (split_once b'\n' after_bytes_label) unsafe_display_name
  byte_len ← ok_or (parse_usize sized.0) unsafe_display_name
  let body_start = offset + (length rest - length sized.1)
  body_end ←
      if ltb (body_start + byte_len) (2 ^ 64)
      then ok (body_start + byte_len)
      else err (too_large (length content))
  body ← ok_or (get_range content body_start body_end) unsafe_display_name
  validate_source_content body
  ok body_end

abbrev pub add_u32 : ℕ → Result SourceValidationError ℕ
add_u32 count =
    if ltb (count + 1) (2 ^ 32)
    then ok (count + 1)
    else err (too_many_members (max_folder_members + 1))

unfoldable pub count_from : ℕ → Text → ℕ → ℕ → Result SourceValidationError ℕ
unfolding next_member
count_from zero content offset count = ok count
count_from (suc fuel) content offset count =
    let round = next_member content offset >>= λ body_end.
    add_u32 count >>= λ next_count. count_from fuel content body_end next_count in
    if ltb offset (length content) then round else ok count

unfoldable pub count_folder_members : Text → Result SourceValidationError ℕ
unfolding count_from
count_folder_members content = do
  count ← count_from (length content + 1) content 0 0
  if count == 0 then err no_eligible_members else ok count
