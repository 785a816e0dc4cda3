-- ===== src/Graph.antt =====
-- The fixed run graph and its hashes: crates/tule-core/src/run.rs, `GraphNode`, `GraphEdge`,
-- `RunGraphVersion`, `hash_graph_content` and `GraphShapeFingerprint`.
use tule.Base.{
  ℕ, ◌+◌, Bool, true, false, Option, none, some, List, [], ◌∷◌, ◌++◌, Text, bytes, decimal,
  if◌then◌else◌,
}
use tule.Ids.{RunGraphVersionId}
use tule.Canonical.{Digest, append_canonical_field, hash_source_bytes, hash_canonical_fields}

abbrev pub node_replace_existing_file_v1 : Text
node_replace_existing_file_v1 = bytes "replace-existing-file-v1"

abbrev pub node_verify_approved_postimage_v1 : Text
node_verify_approved_postimage_v1 = bytes "verify-approved-postimage-v1"

abbrev pub retry_rule_no_automatic : Text
retry_rule_no_automatic = bytes "no-automatic-retry-v1"

abbrev pub validation_rule_native_postimage_v1 : Text
validation_rule_native_postimage_v1 = bytes "native-approved-postimage-v1"

abbrev pub graph_shape_fingerprint_version : Text
graph_shape_fingerprint_version = bytes "tule-graph-shape-v1"

pub record GraphNode : Type 0 where
  pub kind : Text
  pub responsibility : Text
  pub model_assignment : Option Text
  pub protected_validation : Bool

pub record GraphEdge : Type 0 where
  pub from_kind : Text
  pub to_kind : Text

pub record RunGraphVersion : Type 0 where
  pub id : RunGraphVersionId
  pub nodes : List GraphNode
  pub edges : List GraphEdge
  pub retry_rule : Text
  pub validation_rule : Text
  pub content_hash : Text

abbrev flag : Bool → List ℕ
flag protected_validation = if protected_validation then bytes "1" else bytes "0"

-- `node_buf` and `edge_buf`.
abbrev node_buf : GraphNode → List ℕ
node_buf node =
    let buffer =
      append_canonical_field (append_canonical_field [] (bytes "kind") node.kind)
        (bytes "responsibility") node.responsibility in
    let with_model : List ℕ = elim node.model_assignment [
      | some model ↦ append_canonical_field buffer (bytes "model") model
      | none ↦ buffer
    ] in
    append_canonical_field with_model (bytes "protected_validation")
      (flag node.protected_validation)

abbrev edge_buf : GraphEdge → List ℕ
edge_buf edge =
    append_canonical_field (append_canonical_field [] (bytes "from") edge.from_kind) (bytes "to")
      edge.to_kind

abbrev node_fields : ℕ → List GraphNode → List (Text × List ℕ)
node_fields index [] = []
node_fields index (node ∷ nodes) =
    (bytes "node:" ++ decimal index, node_buf node) ∷ node_fields (index + 1) nodes

abbrev edge_fields : ℕ → List GraphEdge → List (Text × List ℕ)
edge_fields index [] = []
edge_fields index (edge ∷ edges) =
    (bytes "edge:" ++ decimal index, edge_buf edge) ∷ edge_fields (index + 1) edges

unfoldable pub hash_graph_content : Digest → List GraphNode → List GraphEdge → Text → Text → Text
hash_graph_content digest nodes edges retry_rule validation_rule = hash_canonical_fields digest (
    node_fields 0 nodes
    ++ (edge_fields 0 edges
        ++ ((bytes "retry_rule", retry_rule) ∷ (bytes "validation_rule", validation_rule) ∷ [])))

abbrev fixed_nodes : List GraphNode
fixed_nodes =
    record {
      kind = node_replace_existing_file_v1;
      responsibility = bytes "builder";
      model_assignment = none;
      protected_validation = false;
    }
    ∷ (record {
      kind = node_verify_approved_postimage_v1;
      responsibility = bytes "reviewer";
      model_assignment = none;
      protected_validation = true;
    }
        ∷ [])

abbrev fixed_edges : List GraphEdge
fixed_edges =
    record {
      from_kind = node_replace_existing_file_v1;
      to_kind = node_verify_approved_postimage_v1;
    }
    ∷ []

unfoldable pub compile_fixed_first_graph : Digest → RunGraphVersionId → RunGraphVersion
compile_fixed_first_graph digest id = record {
  id = id;
  nodes = fixed_nodes;
  edges = fixed_edges;
  retry_rule = retry_rule_no_automatic;
  validation_rule = validation_rule_native_postimage_v1;
  content_hash =
      hash_graph_content digest fixed_nodes fixed_edges retry_rule_no_automatic
        validation_rule_native_postimage_v1;
}

pub record GraphShapeFingerprint : Type 0 where
  pub algorithm_version : Text
  pub value : Text

-- The two loops of `derive`.
abbrev append_nodes : List ℕ → List GraphNode → List ℕ
append_nodes buffer [] = buffer
append_nodes buffer (node ∷ nodes) =
    append_nodes
      (append_canonical_field
        (append_canonical_field (append_canonical_field buffer (bytes "node_kind") node.kind)
          (bytes "responsibility") node.responsibility)
        (bytes "protected_validation") (flag node.protected_validation))
      nodes

abbrev append_edges : List ℕ → List GraphEdge → List ℕ
append_edges buffer [] = buffer
append_edges buffer (edge ∷ edges) =
    append_edges
      (append_canonical_field (append_canonical_field buffer (bytes "edge_from") edge.from_kind)
        (bytes "edge_to") edge.to_kind)
      edges

unfoldable pub derive : Digest → RunGraphVersion → Text → GraphShapeFingerprint
derive digest graph execution_policy_revision =
    let start =
      append_canonical_field
        (append_canonical_field
          (append_canonical_field
            (append_canonical_field
              (append_canonical_field [] (bytes "algorithm") graph_shape_fingerprint_version)
              (bytes "graph_hash") graph.content_hash)
            (bytes "retry_rule") graph.retry_rule)
          (bytes "validation_rule") graph.validation_rule)
        (bytes "execution_policy_revision") execution_policy_revision in
    record {
      algorithm_version = graph_shape_fingerprint_version;
      value = hash_source_bytes digest (append_edges (append_nodes start graph.nodes) graph.edges);
    }
