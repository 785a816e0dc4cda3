-- ===== src/Catalog.antt =====
-- The catalog of models and the selection from it: crates/tule-core/src/provider_catalog.rs. Sort
-- orders are integers of 32 bits, times of 64.
pub mod ModelId
pub mod Selection
use tule.Base.{
  ℕ, ◌+◌, ◌-◌, ◌^◌, Bool, true, false, not, ◌&&◌, ◌||◌, Option, none, some, List, [], ◌∷◌, ◌++◌,
  Result, ok, err, Text, bytes, ℤ, pos, negsuc, pos_part, neg_part, sub_ℕ, leb_ℤ, ltb, leb, length,
  take, any, ◌==◌, ◌!=◌, nat_eq, text_eq, Text-discrete, ℕ_discrete, to_ascii_lowercase,
  if◌then◌else◌,
}
use tule.Base.Scalars.{chars, code_point, is_control, trim, truncate_scalars}
use tule.Base.Sort.{leb_text, sort_by}
use ModelId.{validate_model_id}

abbrev pub catalog_ttl_ms : ℕ
catalog_ttl_ms = 300000

abbrev pub catalog_description_max_scalars : ℕ
catalog_description_max_scalars = 280

pub record CatalogCandidate : Type 0 where
  pub model_id : Text
  pub display_name : Text
  pub description : Option Text
  pub visibility : Text
  pub input_modalities : Option (List Text)
  pub tool_mode : Option Text
  pub use_responses_lite : Bool
  pub sort_order : ℤ
  pub is_provider_default : Bool

pub record ModelCatalogEntry : Type 0 where
  pub model_id : Text
  pub display_name : Text
  pub description : Option Text
  pub sort_order : ℤ
  pub is_provider_default : Bool

pub data CatalogFreshness : Type 0 where
  current stale : CatalogFreshness

pub data SelectedDefaultResolution : Type 0 where
  available : Text → SelectedDefaultResolution
  requires_choice : SelectedDefaultResolution

abbrev eq_ignore_ascii_case : Text → Text → Bool
eq_ignore_ascii_case a b = to_ascii_lowercase a == to_ascii_lowercase b

abbrev is_valid_id : Text → Bool
is_valid_id model_id = elim (validate_model_id model_id) [ ok _ ↦ true | err _ ↦ false ]

-- Where input modalities are declared, one of them is text.
abbrev takes_text : Option (List Text) → Bool
takes_text none = true
takes_text (some modalities) =
    any (λ modality. eq_ignore_ascii_case modality (bytes "text")) modalities

abbrev is_code_mode_only : Option Text → Bool
is_code_mode_only none = false
is_code_mode_only (some mode) = eq_ignore_ascii_case mode (bytes "code_mode_only")

unfoldable pub is_usable_catalog_candidate : CatalogCandidate → Bool
unfolding Text-discrete ℕ_discrete validate_model_id trim to_ascii_lowercase
is_usable_catalog_candidate candidate =
    let visibility = to_ascii_lowercase (trim candidate.visibility) in
    is_valid_id candidate.model_id
    && not (length (trim candidate.display_name) == 0)
    && ((length visibility == 0) || (visibility == bytes "list"))
    && takes_text candidate.input_modalities
    && not candidate.use_responses_lite
    && not (is_code_mode_only candidate.tool_mode)

abbrev is_bad_control : Text → Bool
is_bad_control ch = is_control ch && (code_point ch != 10) && (code_point ch != 9)

unfoldable pub sanitize_trimmed : Text → Option Text
unfolding chars is_control code_point truncate_scalars
sanitize_trimmed value =
    if length value == 0
    then none
    else if any is_bad_control (chars value)
    then none
    else some (truncate_scalars value catalog_description_max_scalars)

unfoldable pub sanitize_description : Option Text → Option Text
unfolding trim sanitize_trimmed
sanitize_description none = none
sanitize_description (some value) = sanitize_trimmed (trim value)

unfoldable pub catalog_entry : Text → CatalogCandidate → ModelCatalogEntry
catalog_entry model_id candidate = record {
  model_id = model_id;
  display_name = trim candidate.display_name;
  description = sanitize_description candidate.description;
  sort_order = candidate.sort_order;
  is_provider_default = candidate.is_provider_default;
}

abbrev pub is_seen : Text → List Text → Bool
is_seen model_id seen = any (λ known. known == model_id) seen

-- The loop over the candidates, with the identifiers seen so far.
unfoldable pub collect_entries : List Text → List CatalogCandidate → List ModelCatalogEntry
collect_entries seen [] = []
collect_entries seen (candidate ∷ candidates) =
    let skipped = collect_entries seen candidates in
    let taken = λ (model_id : Text). collect_entries (model_id ∷ seen) candidates in
    if not (is_usable_catalog_candidate candidate)
    then skipped
    else elim (validate_model_id candidate.model_id) [
      | err _ ↦ skipped
      | ok model_id ↦
          if is_seen model_id seen
          then skipped
          else catalog_entry model_id candidate ∷ taken model_id
    ]

abbrev pub same_ℤ : ℤ → ℤ → Bool
same_ℤ a b = leb_ℤ a b && leb_ℤ b a

-- By sort order, and by identifier where that is the same.
abbrev pub entry_order : ModelCatalogEntry → ModelCatalogEntry → Bool
entry_order left right =
    if same_ℤ left.sort_order right.sort_order
    then leb_text left.model_id right.model_id
    else leb_ℤ left.sort_order right.sort_order

unfoldable pub select_usable_catalog_entries : List CatalogCandidate → List ModelCatalogEntry
unfolding collect_entries sort_by leb_text
select_usable_catalog_entries candidates = sort_by entry_order (collect_entries [] candidates)

-- `i64::saturating_sub`.
abbrev pub saturating_sub : ℤ → ℤ → ℤ
saturating_sub a b =
    let d = sub_ℕ (pos_part a + neg_part b) (neg_part a + pos_part b) in
    if leb (2 ^ 63) (pos_part d)
    then pos (2 ^ 63 - 1)
    else if leb (neg_part d) (2 ^ 63)
    then d
    else negsuc (2 ^ 63 - 1)

unfoldable pub catalog_freshness : ℤ → ℤ → CatalogFreshness
catalog_freshness retrieved_at_unix_ms now_unix_ms =
    if leb_ℤ (pos catalog_ttl_ms) (saturating_sub now_unix_ms retrieved_at_unix_ms)
    then stale
    else current

unfoldable pub model_id_in_catalog : Text → List ModelCatalogEntry → Bool
unfolding Text-discrete ℕ_discrete
model_id_in_catalog model_id entries = any (λ entry. entry.model_id == model_id) entries

-- `map(str::trim).filter(|value| !value.is_empty())`.
abbrev pub trimmed_choice : Option Text → Option Text
trimmed_choice none = none
trimmed_choice (some value) = if length (trim value) == 0 then none else some (trim value)

abbrev resolve_upgrade : List ModelCatalogEntry → Text → SelectedDefaultResolution
resolve_upgrade entries upgrade_default =
    if not (length upgrade_default == 0) && model_id_in_catalog upgrade_default entries
    then available upgrade_default
    else requires_choice

unfoldable pub resolve_selected_default :
    Option Text → List ModelCatalogEntry → Text → SelectedDefaultResolution
unfolding model_id_in_catalog trim
resolve_selected_default selected_model_id entries upgrade_default_model_id =
    elim (trimmed_choice selected_model_id) [
      | some selected ↦
          if model_id_in_catalog selected entries then available selected else requires_choice
      | none ↦ resolve_upgrade entries (trim upgrade_default_model_id)
    ]
