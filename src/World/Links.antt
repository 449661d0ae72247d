-- ===== src/World/Links.antt =====
-- What admitted overlays add to a history (workbench/src/autonomous_world_version_history.js,
-- autonomous_world_overlay_admission.js).
use omi_imo.Prelude.{
  ℕ, ◌≡◌, refl, subst, Bool, some, [], ◌∷◌, ◌++◌, Text, codes, text_eq, ok, >>=-eq-ok, >>=-ok,
  ok_inj, arith,
}
use omi_imo.Identity.Json.{Value}
use omi_imo.Transport.Repair.{or_else}
use omi_imo.World.Package.{Fails}
use omi_imo.World.History.{
  AdmissionReport, HistoryEdge, HistoryGraph, Snapshot, create_history_edge, require_receipt,
  seal_edge, seal_graph, keep_snapshot, add_admission,
}
use omi_imo.World.Interjection.{Browser, WorldInput, normalize_browser}
use omi_imo.World.OverlayAdmission.{
  CandidateEdit, GivenCandidate, EditAdmission, overlay_declaration_block, admitted_from,
  admit_candidate, edit_snapshot,
}
use omi_imo.World.MergeAdmission.{Artifacts}

or_else_same : (n : ℕ) → or_else (some n) (some n) ≡ some n
or_else_same n = ground arith

-- A report in which nothing is missing.
complete : ℕ → ℕ → ℕ → ℕ → ℕ → Value → Value → Value → AdmissionReport
complete from overlay candidate decision to package_value raw_value closure_value = record {
  decision = codes "admit";
  original_identity = some from;
  old_identity = some from;
  overlay_receipt = some overlay;
  candidate_edit_receipt = some candidate;
  admission_decision_receipt = some decision;
  new_identity = some to;
  report_package = some package_value;
  report_raw_binary = some raw_value;
  report_closure = some closure_value;
}

create_history_edge-complete :
    (from overlay candidate decision to : ℕ) (p r c : Value)
    → create_history_edge (some (complete from overlay candidate decision to p r c))
      ≡ ok (seal_edge from overlay candidate decision to)
unfolding create_history_edge complete require_receipt text_eq
create_history_edge-complete from overlay candidate decision to p r c = rw (or_else_same from) refl

module _ {Contents : Type 0} (g : HistoryGraph Contents) where
  grown : HistoryEdge → Snapshot Contents → HistoryGraph Contents
  grown e s =
      seal_graph (or_else g.root_identity_receipt (some e.from_identity)) (g.edges ++ e ∷ [])
        (keep_snapshot s g.snapshots)

  add_admission-grown :
      (s : Snapshot Contents) {e : HistoryEdge}
      → create_history_edge s.snapshot_report ≡ ok e
      → add_admission g s ≡ ok (grown e s)
  unfolding add_admission grown
  add_admission-grown s h = >>=-ok _ h

  grown-edges : (e : HistoryEdge) (s : Snapshot Contents) → (grown e s).edges ≡ g.edges ++ e ∷ []
  unfolding grown seal_graph
  grown-edges e s = refl

-- An edge from a world to another, for a candidate.
pub record Joins (e : HistoryEdge) (from to candidate : ℕ) : Type 0 where
  pub starts : e.from_identity ≡ from
  pub ends : e.to_identity ≡ to
  pub for_candidate : e.edge_candidate ≡ candidate

seal_edge-Joins :
    (from overlay candidate decision to : ℕ)
    → Joins (seal_edge from overlay candidate decision to) from to candidate
unfolding seal_edge
seal_edge-Joins from overlay candidate decision to = record {
  starts = refl;
  ends = refl;
  for_candidate = refl;
}

module _ {Contents Document : Type 0} (open_world : Contents → Fails Browser)
    (has_path : Browser → Text → Bool) (parse_document : Text → Document)
    (counts_of graph_of : Document → Value)
    (build_artifacts : Text → Document → ℕ → Artifacts) where
  -- What an admission keeps of the world it was made in.
  record Keeps (browser : Browser) (m : EditAdmission Document) : Type 0 where
    from_source :
        m.admitted_source ≡ browser.browser_source ++ overlay_declaration_block m.admitted_edit
    from_world : m.old_identity ≡ browser.browser_identity

  admitted_from-Keeps :
      (browser : Browser) (c : CandidateEdit)
      → Keeps browser (
          admitted_from open_world has_path parse_document counts_of graph_of build_artifacts
            browser c)
  unfolding admitted_from
  admitted_from-Keeps browser c = record { from_source = refl; from_world = refl }

  admit_candidate-Keeps :
      (input : WorldInput Contents) (given : GivenCandidate) (id action : Text)
      {m : EditAdmission Document}
      → admit_candidate open_world has_path parse_document counts_of graph_of build_artifacts input
          given id action
        ≡ ok m
      → (browser : Browser) × (normalize_browser open_world has_path input ≡ ok browser)
        × Keeps browser m
  unfolding admit_candidate
  admit_candidate-Keeps input given id action h =
      let (browser, opens, h') = >>=-eq-ok (normalize_browser open_world has_path input) _ h in
      (browser, opens, subst (Keeps browser) (ok_inj h') (admitted_from-Keeps browser _))

  add_admission-Joins :
      (g : HistoryGraph (EditAdmission Document)) (m : EditAdmission Document)
      → (after : HistoryGraph (EditAdmission Document)) × (e : HistoryEdge) × (add_admission g
            (edit_snapshot m)
          ≡ ok after)
        × (after.edges ≡ g.edges ++ e ∷ [])
        × Joins e m.old_identity m.admitted_identity m.admitted_edit.candidate_edit_receipt
  unfolding edit_snapshot complete
  add_admission-Joins g m =
      let e =
        seal_edge m.old_identity m.admitted_edit.overlay.note_overlay_receipt
          m.admitted_edit.candidate_edit_receipt m.admission_decision m.admitted_identity in
      (
        grown g e (edit_snapshot m),
        e,
        add_admission-grown g (edit_snapshot m) (create_history_edge-complete _ _ _ _ _ _ _ _),
        grown-edges g e (edit_snapshot m),
        seal_edge-Joins _ _ _ _ _,
      )

  -- An admitted overlay leaves the source of its world as it is and writes a declaration behind it, and a
  -- history can always take the admission: it gets one edge, from the opened world to the new one.
  pub admit_candidate-Joins :
      (g : HistoryGraph (EditAdmission Document)) (input : WorldInput Contents)
      (given : GivenCandidate) (id action : Text) {m : EditAdmission Document}
      → admit_candidate open_world has_path parse_document counts_of graph_of build_artifacts input
          given id action
        ≡ ok m
      → (browser : Browser) × (after : HistoryGraph (EditAdmission Document)) × (e : HistoryEdge)
        × (normalize_browser open_world has_path input ≡ ok browser)
        × (m.admitted_source ≡ browser.browser_source ++ overlay_declaration_block m.admitted_edit)
        × (add_admission g (edit_snapshot m) ≡ ok after)
        × (after.edges ≡ g.edges ++ e ∷ [])
        × Joins e browser.browser_identity m.admitted_identity
            m.admitted_edit.candidate_edit_receipt
  admit_candidate-Joins g input given id action {m} h =
      let (browser, opens, kept) = admit_candidate-Keeps input given id action h in
      let (after, e, added, grows, joins) = add_admission-Joins g m in
      (
        browser,
        after,
        e,
        opens,
        kept.from_source,
        added,
        grows,
        subst (λ n. Joins e n m.admitted_identity m.admitted_edit.candidate_edit_receipt)
            kept.from_world joins,
      )
