-- ===== src/Scope/Validity.antt =====
-- The edges that are built pass `validateEdge`, and what an edge that passes it is.
use omi_imo.Prelude.{
  ℕ, ◌/◌, ◌%◌, ◌<◌, ◌≡◌, ◌⊎◌, inl, inr, refl, true, none, some, arith, Text, subst, sym, ap₂, ◌∙◌,
  Option-cases, if◌then◌else◌, ◌==◌,
}
use omi_imo.Polyform.Block.{Block}
use omi_imo.Polyform.Closure.{Closure, validate_closure}
use omi_imo.Polyform.Validity.{IsClosed, validate_closure-IsClosed}
use omi_imo.Scope.Codes.{Slot, code, encode_scope, decode_scope}
use omi_imo.Scope.Laws.{decode_scope-encode_scope, encode_scope-decode_scope}
use omi_imo.Scope.Edge.{
  Edge, edge_receipt, edge_of, build_edge, canonical_edge, barcode_edge, validate_edge,
  validate_decoded, canonical, barcode, no_carrier,
}

validate_edge-decoded :
    (e : Edge) (v l : Slot)
    → decode_scope e.scope_class ≡ some (v, l)
    → validate_edge e ≡ validate_decoded e v l
unfolding validate_edge
validate_edge-decoded e v l h = rw (h, validate_edge)

edge_of-validate_edge :
    (kind : ℕ) (a b : Block) (c : Closure) (v l carrier : ℕ) (s : Text)
    → IsClosed c
    → decode_scope s ≡ some (code v, code l)
    → ((kind ≡ canonical) × (carrier ≡ no_carrier))
      ⊎ ((kind ≡ barcode) × (carrier ≡ c.orientation4))
    → validate_edge (edge_of kind a b c v l carrier s) ≡ true
edge_of-validate_edge kind a b c v l carrier s k scope fits =
    validate_edge-decoded (edge_of kind a b c v l carrier s) (code v) (code l) (read scope) ∙ closed
  where
    read :
        decode_scope s ≡ some (code v, code l)
        → decode_scope (edge_of kind a b c v l carrier s).scope_class ≡ some (code v, code l)
    read h = unfold edge_of in h

    closed : validate_decoded (edge_of kind a b c v l carrier s) (code v) (code l) ≡ true
    closed = unfold edge_of edge_receipt validate_decoded in ground (arith, k)

build_edge_cases :
    (kind : ℕ) (a b : Block) (c : Closure) (v l carrier : ℕ) {e : Edge}
    → build_edge kind a b c v l carrier ≡ some e
    → (s : Text) × (encode_scope v l ≡ some s)
      × (validate_closure c ≡ true)
      × ((kind ≡ barcode) → (carrier ≡ c.orientation4))
      × (edge_of kind a b c v l (if kind == canonical then no_carrier else carrier) s ≡ e)
unfolding build_edge
build_edge_cases kind a b c v l carrier h = elim (Option-cases (encode_scope v l)) [
  | inl none_left ↦ ground arith
  | inr (s, e) ↦ (s, e, ground arith, ground arith, ground arith)
]

-- Whatever `canonicalEdge` or `barcodeEdge` builds passes `validateEdge`.
pub build-validate_edge :
    (a b : Block) (c : Closure) (visibility location carrier : ℕ) (e : Edge)
    → (canonical_edge a b c visibility location ≡ some e)
      ⊎ (barcode_edge a b c visibility location carrier ≡ some e)
    → validate_edge e ≡ true
unfolding canonical_edge barcode_edge
build-validate_edge a b c v l k e (inl h) =
    let (s, scope, valid, _, made) = build_edge_cases canonical a b c v l no_carrier h in
    subst (λ x. validate_edge x ≡ true) made
      (edge_of-validate_edge canonical a b c v l no_carrier s (validate_closure-IsClosed c valid)
        (decode_scope-encode_scope v l scope) (inl (refl, refl)))
build-validate_edge a b c v l k e (inr h) =
    let (s, scope, valid, same, made) = build_edge_cases barcode a b c v l k h in
    subst (λ x. validate_edge x ≡ true) made
      (edge_of-validate_edge barcode a b c v l k s (validate_closure-IsClosed c valid)
        (decode_scope-encode_scope v l scope) (inr (refl, same refl)))

-- An edge that passes `validateEdge` lies in one of the nine scopes, which its class spells; its
-- frame splits into orientation and slot in one way; and its carrier is that of its kind.
pub record IsEdge (e : Edge) : Type 0 where
  pub scope : encode_scope e.visibility e.location ≡ some e.scope_class
  pub orientation_eq : e.orientation4 ≡ e.public_frame240 / 60
  pub slot_eq : e.sexagesimal_slot ≡ e.public_frame240 % 60
  pub orientation_lt : e.orientation4 < 4
  pub carried :
      ((e.edge_kind ≡ canonical) × (e.carrier ≡ no_carrier))
      ⊎ ((e.edge_kind ≡ barcode) × (e.carrier ≡ e.orientation4))
  pub sealed : e.receipt ≡ edge_receipt e

validate_decoded-codes :
    (e : Edge) (v l : Slot)
    → validate_decoded e v l ≡ true
    → (v ≡ code e.visibility) × (l ≡ code e.location)
unfolding validate_decoded
validate_decoded-codes e v l h = ground arith

validate_decoded-IsEdge :
    (e : Edge) (v l : Slot)
    → validate_decoded e v l ≡ true
    → encode_scope e.visibility e.location ≡ some e.scope_class
    → IsEdge e
unfolding validate_decoded
validate_decoded-IsEdge e v l h s = record {
  scope = s;
  orientation_eq = ground arith;
  slot_eq = ground arith;
  orientation_lt = ground arith;
  carried = ground arith;
  sealed = ground arith;
}

-- An edge that `validateEdge` passes has everything that `IsEdge` asks for.
pub validate_edge-IsEdge : (e : Edge) → validate_edge e ≡ true → IsEdge e
unfolding validate_edge
validate_edge-IsEdge e h = elim (Option-cases (decode_scope e.scope_class)) [
  | inl missing ↦ absurd (no_scope missing)
  | inr ((v, l), found) ↦ from_scope v l found
]
  where
    no_scope : decode_scope e.scope_class ≡ none → ⊥
    no_scope missing = ground arith

    from_scope : (v l : Slot) → decode_scope e.scope_class ≡ some (v, l) → IsEdge e
    from_scope v l found =
        let ok = sym (validate_edge-decoded e v l found) ∙ h in
        let (ev, el) = validate_decoded-codes e v l ok in
        validate_decoded-IsEdge e v l ok (
          encode_scope-decode_scope e.scope_class e.visibility e.location
            (found ∙ ap₂ (λ x y. some (x, y)) ev el))
