-- ===== src/World/OverlayAdmission.antt =====
-- workbench/src/autonomous_world_overlay_admission.js: the candidate edit that admits an overlay, its
-- rejection and its admission.
use omi_imo.Prelude.{
  ℕ, Bool, true, false, not, ◌&&◌, ◌||◌, some, [], ◌∷◌, ◌++◌, Text, codes, join, ok, ◌>>=◌,
  if◌then◌else◌, ◌==◌, leb, String,
}
use mathlib.Core.List.{reverse}
use omi_imo.Identity.Json.{Value, end, field, obj, nat_field, text_field, bool_field, decimal}
use omi_imo.Identity.Fnv.{receipt_of}
use omi_imo.World.Package.{Fails}
use omi_imo.World.Peers.{text_default}
use omi_imo.World.History.{Snapshot}
use omi_imo.World.Interjection.{
  Browser, WorldInput, NoteOverlay, GivenOverlay, normalize_browser, normalize_overlay,
}
use omi_imo.World.MergeAdmission.{Artifacts, package_part, raw_binary_part, closure_part}

pub record CandidateEdit : Type 0 where
  pub candidate_id : Text
  pub action : Text
  pub overlay : NoteOverlay
  pub original_world_id : Text
  pub original_identity : ℕ
  pub candidate_edit_receipt : ℕ

-- A candidate that is given, or the overlay to make one of.
pub data GivenCandidate : Type 0 where
  candidate : CandidateEdit → GivenCandidate
  overlay_only : GivenOverlay → GivenCandidate

pub record EditRejection : Type 0 where
  pub rejected_edit : CandidateEdit
  pub reject_reason : Text
  pub rejected_world : Text
  pub rejected_identity : ℕ
  pub reject_decision : ℕ

pub record EditAdmission (Document : Type 0) : Type 0 where
  pub admitted_edit : CandidateEdit
  pub admitted_world : Text
  pub old_identity : ℕ
  pub admitted_source : Text
  pub admitted_document : Document
  pub admitted_identity : ℕ
  pub admission_decision : ℕ
  pub edit_artifacts : Artifacts
  pub edit_report_receipt : ℕ

abbrev between : ℕ → ℕ → ℕ → Bool
between low high c = leb low c && leb c high

-- `[A-Za-z0-9_.-]`
unfoldable pub is_id_char : ℕ → Bool
is_id_char c =
    between 65 90 c
    || (between 97 122 c || (between 48 57 c || ((c == 95) || ((c == 46) || (c == 45)))))

-- `\s`
unfoldable pub is_space : ℕ → Bool
is_space c =
    between 9 13 c
    || ((c == 32)
        || ((c == 160)
            || ((c == 5760)
                || (between 8192 8202 c
                    || ((c == 8232)
                        || ((c == 8233)
                            || ((c == 8239)
                                || ((c == 8287) || ((c == 12288) || (c == 65279))))))))))

-- Every run of units that pass the test becomes one unit; the flag says that a run is going on.
unfoldable pub replace_runs : (ℕ → Bool) → ℕ → Bool → Text → Text
replace_runs p by inside [] = []
replace_runs p by inside (c ∷ text) =
    let later = replace_runs p by true text in
    let plain = replace_runs p by false text in
    if p c then (if inside then later else by ∷ later) else c ∷ plain

unfoldable pub strip_dashes : Text → Text
strip_dashes [] = []
strip_dashes (c ∷ text) = let rest = strip_dashes text in if c == 45 then rest else c ∷ text

unfoldable pub safe_text : Text → Text
safe_text value =
    let dashed =
      replace_runs (λ c. not (is_id_char c)) 45 false (text_default value (codes "candidate")) in
    text_default (reverse (strip_dashes (reverse (strip_dashes dashed)))) (codes "candidate")

unfoldable pub seal_candidate : Text → Text → NoteOverlay → Browser → CandidateEdit
seal_candidate id action o browser = record {
  candidate_id = id;
  action = action;
  overlay = o;
  original_world_id = browser.world_id;
  original_identity = browser.browser_identity;
  candidate_edit_receipt = receipt_of (
      obj (
        text_field "candidate_id" id (
          text_field "action" action (
            nat_field "overlay_receipt" o.note_overlay_receipt (
              text_field "original_world_id" browser.world_id
                (nat_field "original_world_identity_receipt" browser.browser_identity end))))));
}

unit_line : String → Text → Text
unit_line name value = codes "    ((US . " ++ (codes name ++ (codes ") . " ++ (value ++ codes ")")))

unfoldable pub overlay_declaration_block : CandidateEdit → Text
unfolding unit_line
overlay_declaration_block c = join (codes "\n") (
    []
    ∷ codes ";; ============================================================"
    ∷ codes ";; OMI PHASE 103 OVERLAY ADMISSION SNAPSHOT"
    ∷ (codes ";; Candidate: " ++ c.candidate_id)
    ∷ (codes ";; Overlay: " ++ c.overlay.note.overlay_id)
    ∷ codes ";; Authority: admitted declaration + receipts, not overlay projection"
    ∷ codes ";; ============================================================"
    ∷ codes "((GS . admitted-overlays)"
    ∷ (codes "  ((RS . " ++ (c.candidate_id ++ codes ")"))
    ∷ unit_line "overlay_id" c.overlay.note.overlay_id
    ∷ unit_line "target_path" c.overlay.note.note_path
    ∷ unit_line "target_kind" c.overlay.note_target_kind
    ∷ unit_line "kind" c.overlay.note.note_kind
    ∷ unit_line "modality" c.overlay.note.modality
    ∷ unit_line "observer" c.overlay.note.observer
    ∷ unit_line "branch" c.overlay.note.branch
    ∷ unit_line "body" (replace_runs is_space 95 false c.overlay.note.body)
    ∷ unit_line "overlay_receipt" (decimal c.overlay.note_overlay_receipt)
    ∷ (unit_line "candidate_edit_receipt" (decimal c.candidate_edit_receipt) ++ codes "))")
    ∷ [])

unfoldable pub edit_identity_of : Text → Value → Value → ℕ → ℕ
edit_identity_of source counts graph original = receipt_of (
    obj (
      text_field "source" source (
        field (codes "counts") counts (
          field (codes "graph") graph (nat_field "original_world_identity_receipt" original end)))))

unfoldable pub edit_decision_of : ℕ → CandidateEdit → ℕ → ℕ
edit_decision_of original c identity = receipt_of (
    obj (
      text_field "decision" (codes "admit") (
        nat_field "original_world_identity_receipt" original (
          nat_field "overlay_receipt" c.overlay.note_overlay_receipt (
            nat_field "candidate_edit_receipt" c.candidate_edit_receipt
              (nat_field "new_world_identity_receipt" identity end))))))

unfoldable pub edit_report_of : {Document : Type 0} → EditAdmission Document → Value
edit_report_of m = obj (
    text_field "kind" (codes "autonomous-world-overlay-admission-report") (
      text_field "decision" (codes "admit") (
        text_field "original_world_id" m.admitted_world (
          nat_field "original_world_identity_receipt" m.old_identity (
            nat_field "old_world_identity_receipt" m.old_identity (
              nat_field "overlay_receipt" m.admitted_edit.overlay.note_overlay_receipt (
                nat_field "candidate_edit_receipt" m.admitted_edit.candidate_edit_receipt (
                  nat_field "admission_decision_receipt" m.admission_decision (
                    nat_field "new_world_identity_receipt" m.admitted_identity (
                      field (codes "package") (package_part m.edit_artifacts) (
                        field (codes "raw_binary") (raw_binary_part m.edit_artifacts) (
                          field (codes "closure") (closure_part m.edit_artifacts) (
                            field (codes "authority")
                              (obj (
                                bool_field "overlay_authority" false (
                                  bool_field "candidate_authority" false (
                                    bool_field "package_authority" false (
                                      bool_field "raw_binary_authority" false (
                                        bool_field "closure_carrier_authority" false (
                                          bool_field "admitted_declaration_and_receipts_authority"
                                            true end)))))))
                              end)))))))))))))

-- The parameters are those of World/Interjection.antt and World/MergeAdmission.antt.
module _ {Contents Document : Type 0} (open_world : Contents → Fails Browser)
    (has_path : Browser → Text → Bool) (parse_document : Text → Document)
    (counts_of graph_of : Document → Value)
    (build_artifacts : Text → Document → ℕ → Artifacts) where
  unfoldable pub create_candidate_edit : Browser → GivenOverlay → Text → Text → CandidateEdit
  create_candidate_edit browser given id action =
      let o = normalize_overlay open_world has_path browser given in
      seal_candidate (text_default id (codes "candidate." ++ safe_text o.note.overlay_id))
        (text_default action (codes "admit-interjection-overlay")) o browser

  -- A candidate with a receipt is taken as it is; one without is not an overlay, and is outside the model.
  unfoldable pub chosen_edit : Browser → GivenCandidate → Text → Text → CandidateEdit
  chosen_edit browser (candidate c) id action = c
  chosen_edit browser (overlay_only o) id action = create_candidate_edit browser o id action

  unfoldable pub reject_candidate_edit :
      WorldInput Contents → GivenCandidate → Text → Fails EditRejection
  reject_candidate_edit input given why = do
    browser ← normalize_browser open_world has_path input
    let c = chosen_edit browser given [] []
    let reason = text_default why (codes "not-admitted")
    ok (record {
      rejected_edit = c;
      reject_reason = reason;
      rejected_world = browser.world_id;
      rejected_identity = browser.browser_identity;
      reject_decision = receipt_of (
          obj (
            text_field "decision" (codes "reject") (
              text_field "reason" reason (
                nat_field "original_world_identity_receipt" browser.browser_identity (
                  nat_field "overlay_receipt" c.overlay.note_overlay_receipt
                    (nat_field "candidate_edit_receipt" c.candidate_edit_receipt end))))));
    })

  unfoldable pub admitted_from : Browser → CandidateEdit → EditAdmission Document
  admitted_from browser c =
      let source = browser.browser_source ++ overlay_declaration_block c in
      let document = parse_document source in
      let identity =
        edit_identity_of source (counts_of document) (graph_of document) browser.browser_identity in
      let result : EditAdmission Document = record {
        admitted_edit = c;
        admitted_world = browser.world_id;
        old_identity = browser.browser_identity;
        admitted_source = source;
        admitted_document = document;
        admitted_identity = identity;
        admission_decision = edit_decision_of browser.browser_identity c identity;
        edit_artifacts = build_artifacts source document identity;
        edit_report_receipt = 0;
      } in
      record result { edit_report_receipt = receipt_of (edit_report_of result) }

  unfoldable pub admit_candidate :
      WorldInput Contents → GivenCandidate → Text → Text → Fails (EditAdmission Document)
  admit_candidate input given id action = do
    browser ← normalize_browser open_world has_path input
    ok (admitted_from browser (chosen_edit browser given id action))

-- An admission as the history takes it.
unfoldable pub edit_snapshot :
    {Document : Type 0} → EditAdmission Document → Snapshot (EditAdmission Document)
edit_snapshot m = record {
  snapshot_identity = some m.admitted_identity;
  snapshot_report = some (record {
    decision = codes "admit";
    original_identity = some m.old_identity;
    old_identity = some m.old_identity;
    overlay_receipt = some m.admitted_edit.overlay.note_overlay_receipt;
    candidate_edit_receipt = some m.admitted_edit.candidate_edit_receipt;
    admission_decision_receipt = some m.admission_decision;
    new_identity = some m.admitted_identity;
    report_package = some (package_part m.edit_artifacts);
    report_raw_binary = some (raw_binary_part m.edit_artifacts);
    report_closure = some (closure_part m.edit_artifacts);
  });
  contents = m;
}
