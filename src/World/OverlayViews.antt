-- ===== src/World/OverlayViews.antt =====
-- workbench/src/autonomous_world_interjection_overlay.js: overlays laid over the plan of a renderer and
-- over the receipt panel of a browser.
use omi_imo.Prelude.{ℕ, Bool, some, List, map, Text, codes, ok, ◌>>=◌, length}
use omi_imo.Identity.Json.{Value, end, field, arr, obj, nat_field, opt_items}
use omi_imo.Identity.Fnv.{receipt_of}
use omi_imo.World.Package.{Fails}
use omi_imo.World.Interjection.{
  Browser, WorldInput, NoteOverlay, GivenOverlay, normalize_browser, normalize_overlay,
}

-- A render plan, with what is not read of it as `plan_rest`.
pub record RenderPlan (Rest : Type 0) : Type 0 where
  pub render_receipt : ℕ
  pub plan_identity : ℕ
  pub plan_rest : Rest

pub record OverlaidPlan (Rest : Type 0) : Type 0 where
  pub render_plan : RenderPlan Rest
  pub plan_overlays : List NoteOverlay
  pub plan_overlay_count : ℕ
  pub overlay_projection_receipt : ℕ

-- The receipts of a browser.
pub record BrowserReceipts : Type 0 where
  pub package_receipts : Value
  pub raw_binary_receipts : Value
  pub closure_receipts : Value

pub record OverlayLine : Type 0 where
  pub line_overlay : Text
  pub line_receipt : ℕ
  pub line_view : ℕ

pub record OverlayPanel : Type 0 where
  pub panel_world : ℕ
  pub panel_receipts : BrowserReceipts
  pub panel_overlays : List OverlayLine

unfoldable pub overlay_line : NoteOverlay → OverlayLine
overlay_line o = record {
  line_overlay = o.note.overlay_id;
  line_receipt = o.note_overlay_receipt;
  line_view = o.view_receipt;
}

-- `create_render_plan` is that of workbench/src/autonomous_world_live_renderer.js at the options given,
-- and `browser_receipts` the receiptPanel of workbench/src/autonomous_world_browser.js.
module _ {Contents Rest : Type 0} (open_world : Contents → Fails Browser)
    (has_path : Browser → Text → Bool) (create_render_plan : Browser → Fails (RenderPlan Rest))
    (browser_receipts : Browser → BrowserReceipts) where
  unfoldable pub overlay_render_plan :
      WorldInput Contents → List GivenOverlay → Fails (OverlaidPlan Rest)
  overlay_render_plan input given = do
    browser ← normalize_browser open_world has_path input
    plan ← create_render_plan browser
    let overlays = map (normalize_overlay open_world has_path browser) given
    ok (record {
      render_plan = plan;
      plan_overlays = overlays;
      plan_overlay_count = length overlays;
      overlay_projection_receipt = receipt_of (
          obj (
            nat_field "render_receipt" plan.render_receipt (
              nat_field "identity_receipt" plan.plan_identity (
                field (codes "overlays")
                  (arr (opt_items (map (λ o. some o.note_overlay_receipt) overlays))) end))));
    })

  unfoldable pub overlay_receipt_panel :
      WorldInput Contents → List GivenOverlay → Fails OverlayPanel
  overlay_receipt_panel input given = do
    browser ← normalize_browser open_world has_path input
    ok (record {
      panel_world = browser.browser_identity;
      panel_receipts = browser_receipts browser;
      panel_overlays = map overlay_line (map (normalize_overlay open_world has_path browser) given);
    })
