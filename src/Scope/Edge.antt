-- ===== src/Scope/Edge.antt =====
-- Edges between two coordinates: `buildEdge`, its two forms, and `validateEdge`.
use omi_imo.Prelude.{
  ℕ, ◌+◌, ◌*◌, Bool, false, not, ◌&&◌, Option, none, some, Text, ltb, ◌==◌, if◌then◌else◌,
}
use omi_imo.Identity.Json.{end, obj, nat_field, text_field}
use omi_imo.Identity.Fnv.{receipt_of}
use omi_imo.Polyform.Block.{Block, timing}
use omi_imo.Polyform.Closure.{Closure, validate_closure}
use omi_imo.Scope.Codes.{Slot, code, inherited, encode_scope, decode_scope}

-- `EDGE_KIND` and `CARRIER.none`.
abbrev pub canonical : ℕ
canonical = 1

abbrev pub barcode : ℕ
barcode = 2

abbrev pub no_carrier : ℕ
no_carrier = 255

pub record Edge : Type 0 where
  pub from_coord_receipt : ℕ
  pub to_coord_receipt : ℕ
  pub closure_receipt : ℕ
  pub edge_kind : ℕ
  pub visibility : ℕ
  pub location : ℕ
  pub carrier : ℕ
  pub orientation4 : ℕ
  pub sexagesimal_slot : ℕ
  pub public_frame240 : ℕ
  pub scope_class : Text
  pub receipt : ℕ

unfoldable pub edge_receipt : Edge → ℕ
edge_receipt e = receipt_of (
    obj (
      nat_field "from_coord_receipt" e.from_coord_receipt (
        nat_field "to_coord_receipt" e.to_coord_receipt (
          nat_field "closure_receipt" e.closure_receipt (
            nat_field "edge_kind" e.edge_kind (
              nat_field "visibility" e.visibility (
                nat_field "location" e.location (
                  nat_field "carrier" e.carrier (
                    nat_field "orientation4" e.orientation4 (
                      nat_field "sexagesimal_slot" e.sexagesimal_slot (
                        nat_field "public_frame240" e.public_frame240
                          (text_field "scope_class" e.scope_class end))))))))))))

-- The edge of `buildEdge`, once its checks have passed.
unfoldable pub edge_of : ℕ → Block → Block → Closure → ℕ → ℕ → ℕ → Text → Edge
edge_of kind a b c visibility location carrier scope_class =
    let edge : Edge = record {
      from_coord_receipt = a.receipt_hash;
      to_coord_receipt = b.receipt_hash;
      closure_receipt = c.receipt_hash;
      edge_kind = kind;
      visibility = visibility;
      location = location;
      carrier = carrier;
      orientation4 = c.orientation4;
      sexagesimal_slot = c.sexagesimal_slot;
      public_frame240 = c.public_frame240;
      scope_class = scope_class;
      receipt = 0;
    } in
    record edge { receipt = edge_receipt edge }

unfoldable pub build_edge : ℕ → Block → Block → Closure → ℕ → ℕ → ℕ → Option Edge
build_edge kind a b c visibility location carrier = elim (encode_scope visibility location) [
  | none ↦ none
  | some scope_class ↦
      if not (validate_closure c)
      then none
      else if kind == barcode && not (carrier == c.orientation4)
      then none
      else some (
          edge_of kind a b c visibility location (if kind == canonical then no_carrier else carrier)
            scope_class)
]

unfoldable pub canonical_edge : Block → Block → Closure → ℕ → ℕ → Option Edge
canonical_edge a b c visibility location = build_edge canonical a b c visibility location no_carrier

unfoldable pub barcode_edge : Block → Block → Closure → ℕ → ℕ → ℕ → Option Edge
barcode_edge a b c visibility location carrier =
    build_edge barcode a b c visibility location carrier

-- `decoded.visibility !== edge.visibility` with a number on the right.
unfoldable pub is_code : Slot → ℕ → Bool
is_code (code c) n = c == n
is_code (inherited name) n = false

unfoldable pub has_carrier : Edge → Bool
has_carrier e =
    if e.edge_kind == canonical
    then e.carrier == no_carrier
    else if e.edge_kind == barcode
    then e.carrier == e.orientation4
    else false

unfoldable pub validate_decoded : Edge → Slot → Slot → Bool
unfolding is_code has_carrier
validate_decoded e visibility location =
    (is_code visibility e.visibility && is_code location e.location)
    && (ltb e.public_frame240 timing.public_240
        && (ltb e.sexagesimal_slot timing.local_60
            && (e.public_frame240 == e.orientation4 * timing.local_60 + e.sexagesimal_slot
                && (has_carrier e && e.receipt == edge_receipt e))))

unfoldable pub validate_edge : Edge → Bool
validate_edge e = elim (decode_scope e.scope_class) [
  | none ↦ false
  | some (visibility, location) ↦ validate_decoded e visibility location
]
