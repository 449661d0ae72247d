-- ===== src/World/Conflicts.antt =====
-- workbench/src/autonomous_world_merge_reconciliation.js: the overlays of two worlds, and the
-- conflicts between them.
use omi_imo.Prelude.{
  ℕ, Bool, true, not, ◌||◌, Option, none, some, List, [], ◌∷◌, map, Text, codes, text_eq, find,
  if◌then◌else◌, String,
}
use omi_imo.Prelude.Sorting.{sort}
use omi_imo.Identity.Json.{Value, str, decimal}
use omi_imo.Identity.Values.{open_receipt, is_inherited, nat_value, text_value}
use omi_imo.World.Sync.{put, get_own}

-- The document of an opened world, as far as it is read.
pub record WorldRecord : Type 0 where
  pub record_id : Text
  pub units : List (Text × Text)

pub record WorldGroup : Type 0 where
  pub group_id : Text
  pub records : List WorldRecord

pub record WorldDocument : Type 0 where
  pub groups : List WorldGroup

pub record Overlay : Type 0 where
  pub overlay_record : Text
  pub target_path : Text
  pub target_kind : Text
  pub overlay_kind : Text
  pub overlay_body : Text
  pub overlay_text : Text
  pub candidate_text : Text
  pub source_identity : ℕ

-- A property of an overlay that comes out of a table may be `undefined`.
pub record Conflict : Type 0 where
  pub conflict_path : Option Text
  pub left_overlay : Option Text
  pub right_overlay : Text
  pub left_candidate : Option Text
  pub right_candidate : Text
  pub conflict_receipt : ℕ

unfoldable pub group_records : WorldDocument → Text → List WorldRecord
group_records document id = elim (find (λ g. text_eq g.group_id id) document.groups) [
  | none ↦ []
  | some g ↦ g.records
]

unfoldable pub unit_map : List (Text × Text) → List (Text × Text) → List (Text × Text)
unit_map [] table = table
unit_map ((k, v) ∷ rest) table = unit_map rest (put k v table)

-- `values.key || ""`
abbrev pub unit_text : String → List (Text × Text) → Text
unit_text key table = elim (get_own (codes key) table) [ none ↦ [] | some t ↦ t ]

unfoldable pub overlay_of : ℕ → WorldRecord → Overlay
overlay_of identity r =
    let values = unit_map r.units [] in
    record {
      overlay_record = r.record_id;
      target_path = unit_text "target_path" values;
      target_kind = unit_text "target_kind" values;
      overlay_kind = unit_text "kind" values;
      overlay_body = unit_text "body" values;
      overlay_text = unit_text "overlay_receipt" values;
      candidate_text = unit_text "candidate_edit_receipt" values;
      source_identity = identity;
    }

unfoldable pub admitted_overlays : ℕ → WorldDocument → List Overlay
admitted_overlays identity document =
    map (overlay_of identity) (group_records document (codes "admitted-overlays"))

abbrev opt_text_value : Option Text → Option Value
opt_text_value none = none
opt_text_value (some t) = some (str t)

unfoldable pub conflict_receipt_of : ℕ → Conflict → ℕ
conflict_receipt_of base c = open_receipt (
    (codes "base_identity_receipt", nat_value base)
    ∷ (codes "target_path", opt_text_value c.conflict_path)
    ∷ (codes "left_overlay_receipt", opt_text_value c.left_overlay)
    ∷ (codes "right_overlay_receipt", text_value c.right_overlay)
    ∷ (codes "left_candidate_edit_receipt", opt_text_value c.left_candidate)
    ∷ (codes "right_candidate_edit_receipt", text_value c.right_candidate)
    ∷ [])

-- What the table of the left overlays gives for a path: an overlay, or an inherited property.
pub data LeftFound : Type 0 where
  left_found : Overlay → LeftFound
  inherited_overlay : LeftFound

abbrev pub left_part : (Overlay → Text) → LeftFound → Option Text
left_part f (left_found o) = some (f o)
left_part f inherited_overlay = none

unfoldable pub conflict_record : ℕ → LeftFound → Overlay → Conflict
conflict_record base left right =
    let conflict : Conflict = record {
      conflict_path = left_part (λ o. o.target_path) left;
      left_overlay = left_part (λ o. o.overlay_text) left;
      right_overlay = right.overlay_text;
      left_candidate = left_part (λ o. o.candidate_text) left;
      right_candidate = right.candidate_text;
      conflict_receipt = 0;
    } in
    record conflict { conflict_receipt = conflict_receipt_of base conflict }

unfoldable pub by_target : List Overlay → List (Text × Overlay) → List (Text × Overlay)
by_target [] table = table
by_target (o ∷ rest) table = by_target rest (put o.target_path o table)

unfoldable pub find_left : Text → List (Text × Overlay) → Option LeftFound
find_left path table = elim (get_own path table) [
  | some o ↦ some (left_found o)
  | none ↦ if is_inherited path then some inherited_overlay else none
]

unfoldable pub differs : LeftFound → Overlay → Bool
differs (left_found left) right =
    not (text_eq left.overlay_text right.overlay_text)
    || (not (text_eq left.overlay_body right.overlay_body)
        || not (text_eq left.overlay_kind right.overlay_kind))
differs inherited_overlay right = true

-- The body of the reduction: a conflict with what the table gives, or none.
unfoldable pub add_conflict : ℕ → Option LeftFound → Overlay → List Conflict → List Conflict
add_conflict base none right later = later
add_conflict base (some left) right later =
    if differs left right then conflict_record base left right ∷ later else later

unfoldable pub conflicts_with : ℕ → List (Text × Overlay) → List Overlay → List Conflict
conflicts_with base table [] = []
conflicts_with base table (right ∷ rest) =
    add_conflict base (find_left right.target_path table) right (conflicts_with base table rest)

-- `classifyConflicts`, of the overlays of the two worlds; `collate a b` is `a.localeCompare(b) <= 0`.
unfoldable pub classify_conflicts :
    (Text → Text → Bool) → ℕ → List Overlay → List Overlay → List Conflict
classify_conflicts collate base left right =
    sort (λ a b. collate (decimal a.conflict_receipt) (decimal b.conflict_receipt))
      (conflicts_with base (by_target left []) right)
