-- ===== src/Canonical/EventChain.antt =====
-- The hash of a chain of events: crates/tule-core/src/run.rs, `hash_event_chain`.
use mathlib.Core.List.{foldl}
use tule.Base.{
  ℕ, ◌<◌, ◌≡◌, refl, sym, ◌∙◌, ◌⊎◌, inl, inr, List, [], ◌∷◌, map, Text, All, bytes, arith,
}
use tule.Ids.{UuidCrate, Uuid}
use tule.Event.{RunEvent, RunEventKind, canonical_tag}
use tule.Canonical.{
  Digest, be_bytes_u64, append_canonical_field, append_fields, canonical_buffer,
  canonical_encoding_version, hash_canonical_fields, append_event, event_chain_buffer,
  hash_event_chain,
}
use tule.Canonical.Injective.{IsShort, IsShortField, be_bytes_u64_injective}
use tule.Canonical.Hashes.{Collision, AreBytes, hash_canonical_fields_binds}

-- What the chain keeps of an event: its sequence number, its identifier and the tag of its kind.
abbrev pub event_key : RunEvent → ℕ × Uuid × Text
event_key e = (e.sequence, e.id, canonical_tag e.kind)

abbrev chain_fields : UuidCrate → List RunEvent → List (Text × List ℕ)
chain_fields u [] = []
chain_fields u (e ∷ es) =
    (bytes "sequence", be_bytes_u64 e.sequence)
    ∷ ((bytes "id", u.to_string e.id) ∷ ((bytes "kind", canonical_tag e.kind) ∷ chain_fields u es))

append_event-fields :
    (u : UuidCrate) (buffer : List ℕ) (es : List RunEvent)
    → foldl (append_event u) buffer es ≡ append_fields buffer (chain_fields u es)
unfolding append_fields
append_event-fields u buffer [] = refl
append_event-fields u buffer (e ∷ es) = append_event-fields u (append_event u buffer e) es

hash_event_chain_lem :
    (u : UuidCrate) (digest : Digest) (es : List RunEvent)
    → hash_event_chain u digest es ≡ hash_canonical_fields digest (chain_fields u es)
unfolding hash_event_chain event_chain_buffer hash_canonical_fields canonical_buffer
hash_event_chain_lem u digest es = rw (
    append_event-fields u (append_canonical_field [] (bytes "encoding") canonical_encoding_version)
      es)

canonical_tag-IsShort : (k : RunEventKind) → IsShort (canonical_tag k)
unfolding canonical_tag
canonical_tag-IsShort k = ground arith

be_bytes_u64-IsShort : (n : ℕ) → IsShort (be_bytes_u64 n)
unfolding be_bytes_u64
be_bytes_u64-IsShort n = omega arith

-- The ranges of the types, and what the code relies on of the text of a UUID.
pub record IsStored (u : UuidCrate) (e : RunEvent) : Type 0 where
  pub sequence_range : e.sequence < 18446744073709551616
  pub short_id : IsShort (u.to_string e.id)

chain_fields-IsShort :
    (u : UuidCrate) (es : List RunEvent)
    → All (IsStored u) es
    → All IsShortField (chain_fields u es)
chain_fields-IsShort u [] s = tt
chain_fields-IsShort u (e ∷ es) s = (
  (omega arith, be_bytes_u64-IsShort e.sequence),
  (
    (omega arith, s.0.short_id),
    ((omega arith, canonical_tag-IsShort e.kind), chain_fields-IsShort u es s.1),
  ),
)

chain_fields_injective :
    (u : UuidCrate) (es fs : List RunEvent)
    → ((a b : Uuid) → u.to_string a ≡ u.to_string b → a ≡ b)
    → All (IsStored u) es
    → All (IsStored u) fs
    → chain_fields u es ≡ chain_fields u fs
    → map event_key es ≡ map event_key fs
chain_fields_injective u [] [] i s t h = refl
chain_fields_injective u [] (f ∷ fs) i s t h = cc
chain_fields_injective u (e ∷ es) [] i s t h = cc
chain_fields_injective u (e ∷ es) (f ∷ fs) i s t h = cc (
  be_bytes_u64_injective e.sequence f.sequence s.0.sequence_range t.0.sequence_range (cc),
  i e.id f.id (cc),
  chain_fields_injective u es fs i s.1 t.1 (cc),
)

-- Two event chains have one hash only if they hold the same sequence numbers, identifiers and kinds in
-- the same order, or a collision of the digest is at hand. (The payload of an event is not hashed.)
pub hash_event_chain_binds :
    (u : UuidCrate) (digest : Digest) (es fs : List RunEvent)
    → ((x : List ℕ) → AreBytes (digest x))
    → ((a b : Uuid) → u.to_string a ≡ u.to_string b → a ≡ b)
    → All (IsStored u) es
    → All (IsStored u) fs
    → hash_event_chain u digest es ≡ hash_event_chain u digest fs
    → (map event_key es ≡ map event_key fs) ⊎ Collision digest
hash_event_chain_binds u digest es fs d i s t h =
    elim (hash_canonical_fields_binds digest d (chain_fields u es) (chain_fields u fs)
      (chain_fields-IsShort u es s) (chain_fields-IsShort u fs t)
      (sym (hash_event_chain_lem u digest es) ∙ h ∙ hash_event_chain_lem u digest fs)) [
        | inl same ↦ inl (chain_fields_injective u es fs i s t same)
        | inr found ↦ inr found
      ]
