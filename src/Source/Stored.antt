-- ===== src/Source/Stored.antt =====
-- A new source is read back from the parts that are stored of it: crates/tule-core/src/agent_source.rs,
-- `Source::new_local_text`, `Source::new_remote_text_url`, `Source::new_local_text_folder` and
-- `Source::from_stored_parts`.
use tule.Base.{
  ℕ, ◌^◌, ◌≤◌, ◌<◌, ◌≡◌, refl, true, some, List, [], ◌∷◌, ok, map_err, bind_ok, Text, bytes, length,
  All, nat_eq, text_eq, arith,
}
use tule.Base.Chars.{IsUtf8}
use tule.Base.Slices.{at_boundary}
use tule.Ids.{UuidCrate}
use tule.AgentIds.{SourceId, IsStored, parse_agent_id-to_string}
use tule.Clock.{SystemTime, unix_now_ms}
use tule.Canonical.{Digest, hash_source_bytes, is_canonical_sha256_hex}
use tule.Canonical.Digits.{is_canonical-to_hex}
use tule.Canonical.Hashes.{AreBytes}
use tule.Source.{
  Source, new_local_text, new_remote_text_url, new_local_text_folder, validate_members,
  check_origin, check_byte_count, check_file, check_folder, check_url, check_single, reject_url,
  from_stored_parts, source_origin_remote_text_url,
}
use tule.Source.Errors.{SourceValidationError}
use tule.Source.Validation.{
  validate_source_display_name, validate_source_content, validate_canonical_https_url,
}
use tule.Source.Folder.{frame_folder_members, count_folder_members, max_folder_members}
use tule.Source.NextMember.{IsMember}
use tule.Source.Members.{count-frame_folder_members}

-- The parts of a source are read back as the source.
abbrev pub ReadsBack : UuidCrate → Digest → Source → Type 0
ReadsBack u digest source =
    from_stored_parts u digest (u.to_string source.id) source.origin_kind source.display_name
      source.byte_count source.content_sha256 source.content (some source.member_count)
      source.canonical_url source.created_at_unix_ms
    ≡ ok source

-- A name is UTF-8, and a body starts with a char, as every str does.
abbrev pub AreTexts : List (Text × Text) → Type 0
AreTexts = All (λ (member : Text × Text). IsUtf8 member.0 × (at_boundary member.1 ≡ true))

-- A source that one of the three constructors made.
pub data IsNew (digest : Digest) (source : Source) : Type 0 where
  local_text :
      (id : SourceId) (clock : SystemTime) (display_name content : Text)
      → new_local_text digest id clock display_name content ≡ ok source
      → IsNew digest source
  remote_text_url :
      (id : SourceId) (clock : SystemTime) (display_name content canonical_url : Text)
      → new_remote_text_url digest id clock display_name content canonical_url ≡ ok source
      → IsNew digest source
  local_text_folder :
      (id : SourceId) (clock : SystemTime) (display_name : Text) (members : List (Text × Text))
      → AreTexts members
      → new_local_text_folder digest id clock display_name members ≡ ok source
      → IsNew digest source

-- What from_stored_parts tests.
record IsSound (digest : Digest) (source : Source) : Type 0 where
  name_valid : validate_source_display_name source.display_name ≡ ok tt
  content_valid : validate_source_content source.content ≡ ok tt
  byte_count : source.byte_count ≡ length source.content
  content_sha256 : source.content_sha256 ≡ hash_source_bytes digest source.content
  origin :
      check_origin source.origin_kind source.content (some source.member_count) source.canonical_url
      ≡ ok (source.member_count, source.canonical_url)

valid-lt : (content : Text) → validate_source_content content ≡ ok tt → length content < 2 ^ 64
unfolding validate_source_content
valid-lt content h = ground arith

module _ (u : UuidCrate) (digest : Digest) (digest_bytes : (x : List ℕ) → AreBytes (digest x))
    (digest_length : (x : List ℕ) → length (digest x) ≡ 32) where
  hash-canonical :
      (content : Text) → is_canonical_sha256_hex (hash_source_bytes digest content) ≡ true
  unfolding hash_source_bytes
  hash-canonical content =
      is_canonical-to_hex (digest content) (digest_bytes content) (digest_length content)

  sound-ReadsBack :
      (source : Source) → IsStored u source.id → IsSound digest source → ReadsBack u digest source
  unfolding from_stored_parts
  sound-ReadsBack source stored sound = ground (
    arith,
    parse_agent_id-to_string u (bytes "source ID") source.id stored,
    valid-lt source.content sound.content_valid,
    hash-canonical source.content,
  )

local_text-IsSound :
    (digest : Digest) (id : SourceId) (clock : SystemTime) (display_name content : Text)
    (source : Source)
    → new_local_text digest id clock display_name content ≡ ok source
    → IsSound digest source
unfolding new_local_text check_origin check_file check_single reject_url
local_text-IsSound digest id clock display_name content source h = record {
  name_valid = ground arith;
  content_valid = ground arith;
  byte_count = ground arith;
  content_sha256 = ground arith;
  origin = ground arith;
}

byte_count_is : (content : Text) (n : ℕ) → check_byte_count content ≡ ok n → n ≡ length content
byte_count_is content n h = ground arith

remote_url_origin :
    (content url : Text)
    → validate_canonical_https_url url ≡ ok tt
    → check_origin source_origin_remote_text_url content (some 1) (some url) ≡ ok (1, some url)
unfolding check_origin check_url check_single
remote_url_origin content url h = rw h refl

-- The tests that a remote source has passed.
remote_text_url-valid :
    (digest : Digest) (id : SourceId) (clock : SystemTime)
    (display_name content canonical_url : Text) (source : Source)
    → new_remote_text_url digest id clock display_name content canonical_url ≡ ok source
    → (validate_source_display_name display_name ≡ ok tt)
      × (validate_source_content content ≡ ok tt)
      × (validate_canonical_https_url canonical_url ≡ ok tt)
      × (source.byte_count ≡ length source.content)
      × (source.origin_kind ≡ source_origin_remote_text_url)
      × (source.member_count ≡ 1)
      × (source.canonical_url ≡ some canonical_url)
unfolding new_remote_text_url
remote_text_url-valid digest id clock display_name content canonical_url source h =
    let (x, name, after_name) = bind_ok (validate_source_display_name display_name) _ h in
    let (y, body, after_body) = bind_ok (validate_source_content content) _ after_name in
    let (z, url, after_url) = bind_ok (validate_canonical_https_url canonical_url) _ after_body in
    let (n, size, after_size) = bind_ok (check_byte_count content) _ after_url in
    let (now, time, made) =
      bind_ok (map_err SourceValidationError.time (unix_now_ms clock)) _ after_size in
    let counted = byte_count_is content n size in (name, body, url, cc, cc, cc, cc)

remote_text_url-IsSound :
    (digest : Digest) (id : SourceId) (clock : SystemTime)
    (display_name content canonical_url : Text) (source : Source)
    → new_remote_text_url digest id clock display_name content canonical_url ≡ ok source
    → IsSound digest source
unfolding new_remote_text_url
remote_text_url-IsSound digest id clock display_name content canonical_url source h =
    let (name, body, url, size, kind, members, link) =
      remote_text_url-valid digest id clock display_name content canonical_url source h in
    record {
      name_valid = ground arith;
      content_valid = ground arith;
      byte_count = size;
      content_sha256 = ground arith;
      origin = rw (kind, members, link) (remote_url_origin source.content canonical_url url);
    }

-- The members that a new folder is made of pass the tests.
members-IsMember :
    (members : List (Text × Text))
    → AreTexts members
    → validate_members members ≡ ok tt
    → All IsMember members
unfolding validate_members
members-IsMember [] texts h = tt
members-IsMember ((name, body) ∷ members) ((utf8, starts), texts) h = (
  record {
    name_utf8 = utf8;
    name_valid = ground arith;
    body_char = starts;
    body_valid = ground arith;
  },
  members-IsMember members texts (ground arith),
)

framed_count :
    (members : List (Text × Text))
    → AreTexts members
    → validate_members members ≡ ok tt
    → 0 < length members
    → length members ≤ max_folder_members
    → validate_source_content (frame_folder_members members) ≡ ok tt
    → count_folder_members (frame_folder_members members) ≡ ok (length members)
framed_count members texts valid some_member few content =
    count-frame_folder_members members (members-IsMember members texts valid) some_member
      (omega arith) (valid-lt _ content)

local_text_folder-IsSound :
    (digest : Digest) (id : SourceId) (clock : SystemTime) (display_name : Text)
    (members : List (Text × Text)) (source : Source)
    → AreTexts members
    → new_local_text_folder digest id clock display_name members ≡ ok source
    → IsSound digest source
unfolding new_local_text_folder check_origin check_folder reject_url
local_text_folder-IsSound digest id clock display_name members source texts h = record {
  name_valid = ground arith;
  content_valid = ground arith;
  byte_count = ground arith;
  content_sha256 = ground arith;
  origin = ground (arith, framed_count members texts);
}

new-IsSound : (digest : Digest) (source : Source) → IsNew digest source → IsSound digest source
new-IsSound digest source (local_text id clock display_name content h) =
    local_text-IsSound digest id clock display_name content source h
new-IsSound digest source (remote_text_url id clock display_name content canonical_url h) =
    remote_text_url-IsSound digest id clock display_name content canonical_url source h
new-IsSound digest source (local_text_folder id clock display_name members texts h) =
    local_text_folder-IsSound digest id clock display_name members source texts h

-- Every new source, whether of a file, of a URL or of a folder, is read back as it was from the parts
-- that are stored of it, its member count included, if its identifier is printed and parsed back and
-- the digest gives 32 bytes.
pub new_source-ReadsBack :
    (u : UuidCrate) (digest : Digest) (source : Source)
    → ((x : List ℕ) → AreBytes (digest x))
    → ((x : List ℕ) → length (digest x) ≡ 32)
    → IsStored u source.id
    → IsNew digest source
    → ReadsBack u digest source
new_source-ReadsBack u digest source digest_bytes digest_length stored new =
    sound-ReadsBack u digest digest_bytes digest_length source stored
      (new-IsSound digest source new)
