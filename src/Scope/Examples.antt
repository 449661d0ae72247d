-- ===== src/Scope/Examples.antt =====
-- The theorems about scopes and edges at concrete inputs, and runs of the code.
use omi_imo.Prelude.{◌≡◌, inl, refl, true, some, codes, text_eq, split}
use omi_imo.Polyform.Examples.{car, cdr, car_cdr, car_cdr-valid}
use omi_imo.Scope.Codes.{
  code, inherited, encode_scope, decode_scope, name_of, slot_of, inherited_slot,
}
use omi_imo.Scope.Edge.{
  Edge, edge_of, build_edge, canonical_edge, validate_edge, canonical, no_carrier,
}
use omi_imo.Scope.Laws.{decode_scope-encode_scope, encode_scope-decode_scope}
use omi_imo.Scope.Validity.{build-validate_edge, IsEdge, validate_edge-IsEdge}

private_remote : encode_scope 1 2 ≡ some (codes "private.remote")
unfolding encode_scope name_of
private_remote = refl

decode_scope-encode_scope_example : decode_scope (codes "private.remote") ≡ some (code 1, code 2)
decode_scope-encode_scope_example = decode_scope-encode_scope 1 2 private_remote

encode_scope-decode_scope_example : encode_scope 1 2 ≡ some (codes "private.remote")
encode_scope-decode_scope_example =
    encode_scope-decode_scope (codes "private.remote") 1 2
      (decode_scope-encode_scope 1 2 private_remote)

-- A name that every object inherits passes for a visibility.
inherited_scope :
    decode_scope (codes "toString.global") ≡ some (inherited (codes "toString"), code 0)
unfolding decode_scope slot_of inherited_slot text_eq split
inherited_scope = refl

abbrev edge : Edge
edge = edge_of canonical car cdr car_cdr 1 2 no_carrier (codes "private.remote")

edge-built : canonical_edge car cdr car_cdr 1 2 ≡ some edge
unfolding canonical_edge build_edge encode_scope name_of
edge-built = rw car_cdr-valid

build-validate_edge_example : validate_edge edge ≡ true
build-validate_edge_example = build-validate_edge car cdr car_cdr 1 2 0 edge (inl edge-built)

validate_edge-IsEdge_example : IsEdge edge
validate_edge-IsEdge_example =
    validate_edge-IsEdge edge (build-validate_edge car cdr car_cdr 1 2 0 edge (inl edge-built))
