-- ===== src/World/HistoryInvariant.antt =====
-- What every history graph that the operations reach satisfies
-- (workbench/src/autonomous_world_version_history.js).
use omi_imo.Prelude.{
  ℕ, ◌≡◌, refl, subst, Option, none, some, List, [], ◌∷◌, Text, All, All-append, ok, >>=-eq-ok,
  require-eq-ok, ok_inj,
}
use omi_imo.Transport.Repair.{or_else}
use omi_imo.World.History.{
  AdmissionReport, HistoryEdge, Snapshot, HistoryGraph, require_receipt, edge_receipt_of, seal_edge,
  create_history_edge, history_receipt_of, seal_graph, keep_snapshot, create_history_graph,
  add_admission,
}

-- The edge has the receipt of its parts.
abbrev pub IsSealedEdge : HistoryEdge → Type 0
IsSealedEdge e = e.history_edge_receipt ≡ edge_receipt_of e

seal_edge-IsSealedEdge :
    (from overlay candidate decision to : ℕ)
    → IsSealedEdge (seal_edge from overlay candidate decision to)
unfolding seal_edge edge_receipt_of
seal_edge-IsSealedEdge from overlay candidate decision to = refl

create_history_edge-IsSealedEdge :
    (r : Option AdmissionReport) {e : HistoryEdge} → create_history_edge r ≡ ok e → IsSealedEdge e
unfolding create_history_edge
create_history_edge-IsSealedEdge none h = cc
create_history_edge-IsSealedEdge (some r) h =
    let (_, h1) = require-eq-ok _ _ _ h in
    let (from, _, h2) =
      >>=-eq-ok (require_receipt (or_else r.original_identity r.old_identity) _) _ h1 in
    let (overlay, _, h3) = >>=-eq-ok (require_receipt r.overlay_receipt _) _ h2 in
    let (candidate, _, h4) = >>=-eq-ok (require_receipt r.candidate_edit_receipt _) _ h3 in
    let (decision, _, h5) = >>=-eq-ok (require_receipt r.admission_decision_receipt _) _ h4 in
    let (to, _, h6) = >>=-eq-ok (require_receipt r.new_identity _) _ h5 in
    subst IsSealedEdge (ok_inj h6) (seal_edge-IsSealedEdge from overlay candidate decision to)

module _ {Contents : Type 0} where
  -- The graphs that the operations reach.
  pub data Reached : HistoryGraph Contents → Type 0 where
    created : (s : Option (Snapshot Contents)) → Reached (create_history_graph s)
    admitted :
        {g after : HistoryGraph Contents}
        → Reached g
        → (s : Snapshot Contents) → add_admission g s ≡ ok after
        → Reached after

  pub record IsGraph (g : HistoryGraph Contents) : Type 0 where
    pub edges_sealed : All IsSealedEdge g.edges
    pub graph_sealed : g.history_receipt ≡ history_receipt_of g

  seal_graph-IsGraph :
      (root : Option ℕ) (edges : List HistoryEdge) (snapshots : List (Text × Snapshot Contents))
      → All IsSealedEdge edges
      → IsGraph (seal_graph root edges snapshots)
  unfolding seal_graph history_receipt_of
  seal_graph-IsGraph root edges snapshots a = record { edges_sealed = a; graph_sealed = refl }

  create_history_graph-IsGraph : (s : Option (Snapshot Contents)) → IsGraph (create_history_graph s)
  unfolding create_history_graph
  create_history_graph-IsGraph none = seal_graph-IsGraph none [] [] tt
  create_history_graph-IsGraph (some s) =
      seal_graph-IsGraph s.snapshot_identity [] (keep_snapshot s []) tt

  add_admission-IsGraph :
      (g : HistoryGraph Contents) (s : Snapshot Contents) {after : HistoryGraph Contents}
      → IsGraph g
      → add_admission g s ≡ ok after
      → IsGraph after
  unfolding add_admission
  add_admission-IsGraph g s v h =
      let (edge, made, h') = >>=-eq-ok (create_history_edge s.snapshot_report) _ h in
      subst IsGraph (ok_inj h') (
        seal_graph-IsGraph _ _ _ (
          All-append IsSealedEdge g.edges (edge ∷ []) v.edges_sealed
            (create_history_edge-IsSealedEdge s.snapshot_report made, tt)))

  -- In every graph that `createHistoryGraph` and `addAdmission` reach, each edge has the receipt of its parts
  -- and the graph has the receipt of its root, edges and snapshots.
  pub Reached-IsGraph : {g : HistoryGraph Contents} → Reached g → IsGraph g
  Reached-IsGraph (created s) = create_history_graph-IsGraph s
  Reached-IsGraph (admitted r s h) = add_admission-IsGraph _ s (Reached-IsGraph r) h
