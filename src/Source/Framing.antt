-- ===== src/Source/Framing.antt =====
-- What the provider is sent of a source: crates/tule-core/src/agent_source.rs, `SourceContext`,
-- `TurnSource` and `format_turn_user_content`.
use tule.Base.{ℕ, Option, none, some, ◌++◌, Text, bytes, decimal, length}
use tule.AgentIds.{AgentTurnId}
use tule.Source.{Source}

abbrev pub attached_source_frame_version : Text
attached_source_frame_version = bytes "tule-attached-source-v1"

pub record TurnSource : Type 0 where
  pub turn_id : AgentTurnId
  pub source : Source
  pub attachment_order : ℕ

pub record SourceContext : Type 0 where
  pub origin_kind : Text
  pub display_name : Text
  pub byte_count : ℕ
  pub content_sha256 : Text
  pub member_count : ℕ
  pub content : Text

-- `From<&Source>`.
unfoldable pub source_context : Source → SourceContext
source_context source = record {
  origin_kind = source.origin_kind;
  display_name = source.display_name;
  byte_count = source.byte_count;
  content_sha256 = source.content_sha256;
  member_count = source.member_count;
  content = source.content;
}

-- The frame behind the text of the user. The debug_assert has no part in a release build.
unfoldable pub format_turn_user_content : Text → Option SourceContext → Text
unfolding decimal
format_turn_user_content user_text none = user_text
format_turn_user_content user_text (some source) =
    user_text
    ++ (bytes "\n\n"
        ++ (attached_source_frame_version
            ++ (bytes "\norigin: "
                ++ (source.origin_kind
                    ++ (bytes "\nname: "
                        ++ (source.display_name
                            ++ (bytes "\nmember-count: "
                                ++ (decimal source.member_count
                                    ++ (bytes "\nbyte-count: "
                                        ++ (decimal source.byte_count
                                            ++ (bytes "\nsha256: "
                                                ++ (source.content_sha256
                                                    ++ (bytes "\ncontent-bytes: "
                                                        ++ (decimal (length source.content)
                                                            ++ (bytes "\n"
                                                            ++ source.content)))))))))))))))
