-- ===== src/World/Interjection.antt =====
-- workbench/src/autonomous_world_interjection_overlay.js: overlays that an observer lays over a world,
-- and the branch snapshots of them.
use omi_imo.Prelude.{
  ℕ, Bool, true, false, ◌&&◌, ◌||◌, some, List, [], ◌∷◌, map, Text, codes, text_eq, ok, ◌>>=◌,
  if◌then◌else◌, ◌==◌, length,
}
use omi_imo.Identity.Json.{end, field, arr, obj, nat_field, text_field, opt_items}
use omi_imo.Identity.Fnv.{receipt_of}
use omi_imo.World.Package.{Fails}
use omi_imo.World.Peers.{text_default}

-- An opened world, as far as it is read.
pub record Browser : Type 0 where
  pub world_id : Text
  pub browser_identity : ℕ
  pub browser_source : Text

pub data WorldInput (Contents : Type 0) : Type 0 where
  opened : Browser → WorldInput Contents
  unopened : Contents → WorldInput Contents

pub record Note : Type 0 where
  pub overlay_id : Text
  pub note_path : Text
  pub note_kind : Text
  pub body : Text
  pub modality : Text
  pub observer : Text
  pub branch : Text

pub record NoteOverlay : Type 0 where
  pub note : Note
  pub note_target_kind : Text
  pub target_found : Bool
  pub note_world : ℕ
  pub note_overlay_receipt : ℕ
  pub view_receipt : ℕ

-- What a caller hands over: an overlay, or what it says.
pub data GivenOverlay : Type 0 where
  made : NoteOverlay → GivenOverlay
  said : Note → GivenOverlay

pub record BranchSnapshot : Type 0 where
  pub branch_world : Text
  pub branch_identity : ℕ
  pub branch_id : Text
  pub branch_overlays : List NoteOverlay
  pub branch_receipt : ℕ

pub record OverlayProjection : Type 0 where
  pub projected_world : Text
  pub projected_identity : ℕ
  pub projected_overlays : List NoteOverlay
  pub overlay_count : ℕ
  pub projection_receipt : ℕ

-- `text.indexOf(part) === 0` and `text.indexOf(part) >= 0`.
unfoldable pub starts_with : Text → Text → Bool
starts_with [] text = true
starts_with (c ∷ part) [] = false
starts_with (c ∷ part) (d ∷ text) = (c == d) && starts_with part text

unfoldable pub contains : Text → Text → Bool
contains part [] = starts_with part []
contains part (d ∷ text) = starts_with part (d ∷ text) || contains part text

unfoldable pub normalize_interjection : Note → Note
normalize_interjection n = record {
  overlay_id = text_default n.overlay_id (codes "overlay.interjection.001");
  note_path = text_default n.note_path (codes "world.autonomous-fixture/objects/trailer.001");
  note_kind = text_default n.note_kind (codes "annotation");
  body = text_default n.body (codes "observer note");
  modality = text_default n.modality (codes "projection.interjection");
  observer = text_default n.observer (codes "observer.local");
  branch = text_default n.branch (codes "branch.local");
}

unfoldable pub target_kind_of : Text → Text
target_kind_of path =
    if contains (codes "/interactions/") path
    then codes "relation"
    else if starts_with (codes "spom/") path
    then codes "spom"
    else codes "object"

unfoldable pub note_receipt_of : NoteOverlay → ℕ
note_receipt_of o = receipt_of (
    obj (
      text_field "overlay_id" o.note.overlay_id (
        text_field "target_path" o.note.note_path (
          text_field "target_kind" o.note_target_kind (
            text_field "body" o.note.body (
              text_field "modality" o.note.modality (
                text_field "observer" o.note.observer (
                  text_field "branch" o.note.branch
                    (nat_field "world_identity_receipt" o.note_world end)))))))))

unfoldable pub view_receipt_of : NoteOverlay → ℕ
view_receipt_of o = receipt_of (
    obj (
      nat_field "overlay_receipt" o.note_overlay_receipt (
        text_field "target_path" o.note.note_path (
          text_field "modality" o.note.modality
            (text_field "projection" (codes "interjection-overlay") end)))))

-- `open_world` is that of workbench/src/autonomous_world_browser.js, and `has_path` whether its
-- inspectPath finds something.
module _ {Contents : Type 0} (open_world : Contents → Fails Browser)
    (has_path : Browser → Text → Bool) where
  unfoldable pub normalize_browser : WorldInput Contents → Fails Browser
  normalize_browser (opened b) = ok b
  normalize_browser (unopened c) = open_world c

  unfoldable pub create_overlay : Browser → Note → NoteOverlay
  create_overlay browser given =
      let n = normalize_interjection given in
      let kind = target_kind_of n.note_path in
      let overlay : NoteOverlay = record {
        note = n;
        note_target_kind = kind;
        target_found = has_path browser n.note_path || text_eq kind (codes "spom");
        note_world = browser.browser_identity;
        note_overlay_receipt = 0;
        view_receipt = 0;
      } in
      let sealed : NoteOverlay = record overlay {
        note_overlay_receipt = note_receipt_of overlay;
      } in
      record sealed { view_receipt = view_receipt_of sealed }

  -- An overlay that has a receipt is taken as it is.
  unfoldable pub normalize_overlay : Browser → GivenOverlay → NoteOverlay
  normalize_overlay browser (said n) = create_overlay browser n
  normalize_overlay browser (made o) =
      if o.note_overlay_receipt == 0 then create_overlay browser o.note else o

  unfoldable pub create_branch_snapshot :
      WorldInput Contents → List GivenOverlay → Text → Fails BranchSnapshot
  create_branch_snapshot input given name = do
    browser ← normalize_browser input
    let overlays = map (normalize_overlay browser) given
    let id = text_default name (codes "branch.interjection.001")
    ok (record {
      branch_world = browser.world_id;
      branch_identity = browser.browser_identity;
      branch_id = id;
      branch_overlays = overlays;
      branch_receipt = receipt_of (
          obj (
            text_field "world_id" browser.world_id (
              nat_field "world_identity_receipt" browser.browser_identity (
                text_field "branch_id" id (
                  field (codes "overlays")
                    (arr (opt_items (map (λ o. some o.note_overlay_receipt) overlays))) end)))));
    })

  unfoldable pub overlay_browser : WorldInput Contents → List GivenOverlay → Fails OverlayProjection
  overlay_browser input given = do
    browser ← normalize_browser input
    let overlays = map (normalize_overlay browser) given
    ok (record {
      projected_world = browser.world_id;
      projected_identity = browser.browser_identity;
      projected_overlays = overlays;
      overlay_count = length overlays;
      projection_receipt = receipt_of (
          obj (
            text_field "world_id" browser.world_id (
              nat_field "identity_receipt" browser.browser_identity (
                field (codes "overlays")
                  (arr (opt_items (map (λ o. some o.note_overlay_receipt) overlays))) end))));
    })
