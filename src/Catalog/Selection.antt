-- ===== src/Catalog/Selection.antt =====
-- What the picker of models offers: crates/tule-core/src/provider_catalog.rs,
-- `select_usable_catalog_entries` and `resolve_selected_default`.
use tule.Base.{
  ◌≤◌, ◌≡◌, refl, ◌∙◌, Bool, true, false, not, ◌&&◌, Option, none, some, List, [], ◌∷◌, Result, ok,
  err, Result-cases, Text, ℤ, pos, negsuc, ◌⊎◌, any, leb_ℤ, ◌==◌, text_eq, inl, inr, arith,
  if◌then◌else◌,
}
use tule.Base.Scalars.{trim}
use tule.Base.Sort.{
  any-sort_by, count_if, count_if-sort_by, IsSorted, sort_by-IsSorted, leb_text-total,
}
use tule.Catalog.{
  CatalogCandidate, ModelCatalogEntry, catalog_entry, collect_entries, is_usable_catalog_candidate,
  is_seen, entry_order, select_usable_catalog_entries, model_id_in_catalog, available,
  resolve_selected_default, trimmed_choice,
}
use tule.Catalog.ModelId.{InvalidModelId, validate_model_id}

abbrev is_id : Text → Result InvalidModelId Text → Bool
is_id model_id (ok found) = found == model_id
is_id model_id (err e) = false

-- A candidate that may be offered under the identifier.
abbrev pub offers : Text → CatalogCandidate → Bool
offers model_id candidate =
    is_usable_catalog_candidate candidate && is_id model_id (validate_model_id candidate.model_id)

collect_entries-has_id :
    (model_id : Text) (seen : List Text) (candidates : List CatalogCandidate)
    → any
        (λ (entry : ModelCatalogEntry). entry.model_id == model_id)
        (collect_entries seen candidates)
      ≡ (any (offers model_id) candidates && not (is_seen model_id seen))
unfolding collect_entries catalog_entry
collect_entries-has_id model_id seen [] = refl
collect_entries-has_id model_id seen (candidate ∷ candidates) =
    elim (Result-cases (validate_model_id candidate.model_id)) [
      | inl (found, h) ↦ rw h (
          ground (
            arith,
            collect_entries-has_id model_id seen candidates,
            collect_entries-has_id model_id (found ∷ seen) candidates,
          ))
      | inr (e, h) ↦ rw h (ground (arith, collect_entries-has_id model_id seen candidates))
    ]

count_if-collect_entries :
    (model_id : Text) (seen : List Text) (candidates : List CatalogCandidate)
    → count_if
        (λ (entry : ModelCatalogEntry). entry.model_id == model_id)
        (collect_entries seen candidates)
      ≤ (if is_seen model_id seen then 0 else 1)
unfolding collect_entries catalog_entry count_if
count_if-collect_entries model_id seen [] = ground arith
count_if-collect_entries model_id seen (candidate ∷ candidates) =
    elim (Result-cases (validate_model_id candidate.model_id)) [
      | inl (found, h) ↦ rw h (
          ground (
            arith,
            count_if-collect_entries model_id seen candidates,
            count_if-collect_entries model_id (found ∷ seen) candidates,
          ))
      | inr (e, h) ↦ rw h (ground (arith, count_if-collect_entries model_id seen candidates))
    ]

leb_ℤ-total : (a b : ℤ) → leb_ℤ a b ≡ false → leb_ℤ b a ≡ true
leb_ℤ-total (pos m) (pos n) h = ground arith
leb_ℤ-total (pos m) (negsuc n) h = ground arith
leb_ℤ-total (negsuc m) (pos n) h = ground arith
leb_ℤ-total (negsuc m) (negsuc n) h = ground arith

entry_order-total :
    (left right : ModelCatalogEntry)
    → entry_order left right ≡ false
    → entry_order right left ≡ true
entry_order-total left right h = ground (
  arith,
  leb_ℤ-total left.sort_order right.sort_order,
  leb_text-total left.model_id right.model_id,
)

-- The catalog offers exactly the identifiers of usable candidates, each one once, in the order of the
-- sort numbers and then of the identifiers.
pub select_usable_catalog_entries_lem :
    (candidates : List CatalogCandidate) (model_id : Text)
    → (model_id_in_catalog model_id (select_usable_catalog_entries candidates)
        ≡ any (offers model_id) candidates)
      × (count_if
            (λ (entry : ModelCatalogEntry). entry.model_id == model_id)
            (select_usable_catalog_entries candidates)
          ≤ 1)
      × IsSorted entry_order (select_usable_catalog_entries candidates)
unfolding select_usable_catalog_entries model_id_in_catalog
select_usable_catalog_entries_lem candidates model_id = (
  any-sort_by (λ (entry : ModelCatalogEntry). entry.model_id == model_id) entry_order
        (collect_entries [] candidates)
      ∙ ground (arith, collect_entries-has_id model_id [] candidates),
  ground (
    arith,
    count_if-collect_entries model_id [] candidates,
    count_if-sort_by (λ (entry : ModelCatalogEntry). entry.model_id == model_id) entry_order
        (collect_entries [] candidates),
  ),
  sort_by-IsSorted entry_order entry_order-total (collect_entries [] candidates),
)

-- The default that is resolved against a selected catalog is the identifier of a usable candidate, and
-- the stored selection, trimmed, where there is one that is not blank.
pub resolve_selected_default-offers :
    (candidates : List CatalogCandidate) (selected : Option Text) (upgrade model_id : Text)
    → resolve_selected_default selected (select_usable_catalog_entries candidates) upgrade
      ≡ available model_id
    → (any (offers model_id) candidates ≡ true)
      × ((trimmed_choice selected ≡ some model_id)
          ⊎ (trimmed_choice selected ≡ none) × (model_id ≡ trim upgrade))
unfolding resolve_selected_default
resolve_selected_default-offers candidates selected upgrade model_id h =
    ground (arith, select_usable_catalog_entries_lem candidates model_id)
