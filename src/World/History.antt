-- ===== src/World/History.antt =====
-- workbench/src/autonomous_world_version_history.js: the graph of admitted worlds, its edges, and the
-- replay that follows them.
use omi_imo.Prelude.{
  ℕ, Option, none, some, List, [], ◌∷◌, ◌++◌, map, Text, codes, text_eq, text_le, filter, ok, throw,
  ◌>>=◌, ◌>>◌, require, if◌then◌else◌, String,
}
use omi_imo.Prelude.Sorting.{sort}
use omi_imo.Identity.Json.{
  Value, arr, obj, end, field, nat_field, opt_field, opt_items, text_items, decimal,
}
use omi_imo.Identity.Fnv.{receipt_of}
use omi_imo.Identity.Values.{is_inherited}
use omi_imo.Transport.Adapter.{sort_receipts}
use omi_imo.Transport.Repair.{or_else}
use omi_imo.World.Package.{Fails, or_object}
use omi_imo.World.Sync.{put, get_own, keys_of}

-- The report of an admission.
pub record AdmissionReport : Type 0 where
  pub decision : Text
  pub original_identity : Option ℕ
  pub old_identity : Option ℕ
  pub overlay_receipt : Option ℕ
  pub candidate_edit_receipt : Option ℕ
  pub admission_decision_receipt : Option ℕ
  pub new_identity : Option ℕ
  pub report_package : Option Value
  pub report_raw_binary : Option Value
  pub report_closure : Option Value

pub record HistoryEdge : Type 0 where
  pub from_identity : ℕ
  pub edge_overlay : ℕ
  pub edge_candidate : ℕ
  pub edge_decision : ℕ
  pub to_identity : ℕ
  pub history_edge_receipt : ℕ

-- A snapshot whose admission has the identity, if any, with its report and the rest of it.
pub record Snapshot (Contents : Type 0) : Type 0 where
  pub snapshot_identity : Option ℕ
  pub snapshot_report : Option AdmissionReport
  pub contents : Contents

pub record HistoryGraph (Contents : Type 0) : Type 0 where
  pub root_identity_receipt : Option ℕ
  pub edges : List HistoryEdge
  pub snapshots : List (Text × Snapshot Contents)
  pub history_receipt : ℕ

pub record ReceiptPanel : Type 0 where
  pub panel_identity : Option ℕ
  pub panel_package : Option Value
  pub panel_raw_binary : Option Value
  pub panel_closure : Option Value
  pub panel_graph_receipt : ℕ
  pub panel_edge_receipts : List ℕ

unfoldable pub require_receipt : Option ℕ → String → Fails ℕ
require_receipt none name = throw (codes "missing-history-receipt:" ++ codes name)
require_receipt (some n) name = ok n

unfoldable pub edge_receipt_of : HistoryEdge → ℕ
edge_receipt_of e = receipt_of (
    obj (
      nat_field "from_identity_receipt" e.from_identity (
        nat_field "overlay_receipt" e.edge_overlay (
          nat_field "candidate_edit_receipt" e.edge_candidate (
            nat_field "admission_decision_receipt" e.edge_decision
              (nat_field "to_identity_receipt" e.to_identity end))))))

unfoldable pub seal_edge : ℕ → ℕ → ℕ → ℕ → ℕ → HistoryEdge
seal_edge from overlay candidate decision to =
    let edge : HistoryEdge = record {
      from_identity = from;
      edge_overlay = overlay;
      edge_candidate = candidate;
      edge_decision = decision;
      to_identity = to;
      history_edge_receipt = 0;
    } in
    record edge { history_edge_receipt = edge_receipt_of edge }

unfoldable pub create_history_edge : Option AdmissionReport → Fails HistoryEdge
create_history_edge none = throw (codes "invalid-admission-report")
create_history_edge (some r) = do
  require (text_eq r.decision (codes "admit")) (codes "invalid-admission-report")
  from ← require_receipt (or_else r.original_identity r.old_identity) "from_identity_receipt"
  overlay ← require_receipt r.overlay_receipt "overlay_receipt"
  candidate ← require_receipt r.candidate_edit_receipt "candidate_edit_receipt"
  decision ← require_receipt r.admission_decision_receipt "admission_decision_receipt"
  to ← require_receipt r.new_identity "to_identity_receipt"
  ok (seal_edge from overlay candidate decision to)

module _ {Contents : Type 0} where
  unfoldable pub history_receipt_of : HistoryGraph Contents → ℕ
  history_receipt_of g = receipt_of (
      obj (
        opt_field "root_identity_receipt" g.root_identity_receipt (
          field (codes "edges")
            (arr (opt_items (map some (sort_receipts (map (λ e. e.history_edge_receipt) g.edges)))))
            (field (codes "snapshots") (arr (text_items (sort text_le (keys_of g.snapshots))))
              end))))

  unfoldable pub seal_graph :
      Option ℕ → List HistoryEdge → List (Text × Snapshot Contents) → HistoryGraph Contents
  seal_graph root edges snapshots =
      let graph : HistoryGraph Contents = record {
        root_identity_receipt = root;
        edges = edges;
        snapshots = snapshots;
        history_receipt = 0;
      } in
      record graph { history_receipt = history_receipt_of graph }

  -- A snapshot under its identity, if it has one.
  unfoldable pub keep_snapshot :
      Snapshot Contents → List (Text × Snapshot Contents) → List (Text × Snapshot Contents)
  keep_snapshot s table = elim s.snapshot_identity [
    | none ↦ table
    | some id ↦ put (decimal id) s table
  ]

  unfoldable pub create_history_graph : Option (Snapshot Contents) → HistoryGraph Contents
  create_history_graph none = seal_graph none [] []
  create_history_graph (some s) = seal_graph s.snapshot_identity [] (keep_snapshot s [])

  -- `addAdmission`, of a snapshot with a report.
  unfoldable pub add_admission :
      HistoryGraph Contents → Snapshot Contents → Fails (HistoryGraph Contents)
  add_admission g s = do
    edge ← create_history_edge s.snapshot_report
    ok (
        seal_graph (or_else g.root_identity_receipt (some edge.from_identity))
          (g.edges ++ edge ∷ []) (keep_snapshot s g.snapshots))

  unfoldable pub outgoing_edges : HistoryGraph Contents → Text → List HistoryEdge
  outgoing_edges g key = filter (λ e. text_eq (decimal e.from_identity) key) g.edges

  -- The edges into a world.
  unfoldable pub incoming_receipts : HistoryGraph Contents → Text → List ℕ
  incoming_receipts g key =
      map (λ e. e.history_edge_receipt) (filter (λ e. text_eq (decimal e.to_identity) key) g.edges)

  unfoldable pub receipt_panel : HistoryGraph Contents → Text → Fails ReceiptPanel
  receipt_panel g key = elim (get_own key g.snapshots) [
    | none ↦ throw (codes "unknown-world-snapshot:" ++ key)
    | some s ↦ elim s.snapshot_report [
      | none ↦ throw (codes "unknown-world-snapshot:" ++ key)
      | some r ↦ ok (record {
        panel_identity = s.snapshot_identity;
        panel_package = or_object r.report_package;
        panel_raw_binary = or_object r.report_raw_binary;
        panel_closure = or_object r.report_closure;
        panel_graph_receipt = g.history_receipt;
        panel_edge_receipts = incoming_receipts g key;
      })
    ]
  ]

-- `open_admitted` and `render_admitted` are those of workbench/src/autonomous_world_overlay_admission.js.
module _ {Contents World Drawing : Type 0} (open_admitted : Snapshot Contents → Fails World)
    (render_admitted : Snapshot Contents → Fails Drawing) where
  -- A snapshot of the graph that has a report, for either function; an inherited name is no snapshot.
  unfoldable pub with_snapshot :
      {A : Type 0} → (Snapshot Contents → Fails A) → HistoryGraph Contents → Text → Fails A
  with_snapshot f g key = elim (get_own key g.snapshots) [
    | none ↦ throw (
        (if is_inherited key
          then codes "invalid-world-snapshot:"
          else codes "unknown-world-snapshot:")
        ++ key)
    | some s ↦ elim s.snapshot_report [
      | none ↦ throw (codes "invalid-world-snapshot:" ++ key)
      | some r ↦ f s
    ]
  ]

  unfoldable pub open_snapshot : HistoryGraph Contents → Text → Fails World
  open_snapshot g key = with_snapshot open_admitted g key

  unfoldable pub render_snapshot : HistoryGraph Contents → Text → Fails Drawing
  render_snapshot g key = with_snapshot render_admitted g key
