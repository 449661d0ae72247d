-- ===== src/World/LinkExamples.antt =====
-- An overlay that is admitted to a world and put into an empty history.
use omi_imo.Prelude.{ℕ, ◌≡◌, refl, true, none, [], ◌++◌, ◌∷◌, Text, codes, ok}
use omi_imo.Identity.Json.{null}
use omi_imo.World.Package.{Fails}
use omi_imo.World.History.{HistoryEdge, HistoryGraph, seal_graph, add_admission}
use omi_imo.World.Interjection.{Browser, opened, said, Note, normalize_browser}
use omi_imo.World.OverlayAdmission.{
  overlay_only, EditAdmission, overlay_declaration_block, admit_candidate, edit_snapshot,
}
use omi_imo.World.MergeAdmission.{Artifacts}
use omi_imo.World.Links.{Joins, admit_candidate-Joins}

world : Browser
world = record { world_id = codes "w"; browser_identity = 7; browser_source = codes "s" }

open_world : ℕ → Fails Browser
open_world n = ok world

note : Note
note = record {
  overlay_id = codes "o";
  note_path = [];
  note_kind = [];
  body = codes "a b";
  modality = [];
  observer = [];
  branch = [];
}

build : Text → Text → ℕ → Artifacts
build source document id = record {
  manifest = 1;
  imported_manifest = 2;
  scene_root = 3;
  raw_identity = 4;
  raw_index = 5;
  raw_chunks = 6;
  character_identity = 7;
  binary64_identity = 8;
  character_projection = 9;
  binary64_projection = 10;
}

no_history : HistoryGraph (EditAdmission Text)
no_history = seal_graph none [] []

admission :
    (m : EditAdmission Text) × (admit_candidate open_world
        (λ b t. true)
        (λ t. t)
        (λ d. null)
        (λ d. null)
        build
        (opened world)
        (overlay_only (said note))
        []
        []
      ≡ ok m)
unfolding admit_candidate normalize_browser
admission = (_, refl)

admit_candidate-Joins_example :
    (browser : Browser) × (after : HistoryGraph (EditAdmission Text)) × (e : HistoryEdge)
    × (normalize_browser open_world (λ b t. true) (opened world) ≡ ok browser)
    × (admission.0.admitted_source
        ≡ browser.browser_source ++ overlay_declaration_block admission.0.admitted_edit)
    × (add_admission no_history (edit_snapshot admission.0) ≡ ok after)
    × (after.edges ≡ no_history.edges ++ e ∷ [])
    × Joins e browser.browser_identity admission.0.admitted_identity
        admission.0.admitted_edit.candidate_edit_receipt
admit_candidate-Joins_example =
    admit_candidate-Joins open_world (λ b t. true) (λ t. t) (λ d. null) (λ d. null) build no_history
      (opened world) (overlay_only (said note)) [] [] admission.1
