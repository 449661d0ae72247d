-- ===== src/World/HistoryExamples.antt =====
-- The theorems on histories at a graph with one admission.
use omi_imo.Prelude.{ℕ, ◌≡◌, refl, none, some, map, codes, text_eq, text_le, ok}
use omi_imo.Identity.Json.{decimal}
use omi_imo.World.History.{
  AdmissionReport, Snapshot, HistoryGraph, create_history_graph, add_admission, create_history_edge,
  require_receipt,
}
use omi_imo.World.HistoryWalk.{LatestReplay, replay_latest, start_key}
use omi_imo.World.HistoryLaws.{IsTrail, Stops, replay_latest-IsTrail}
use omi_imo.World.HistoryInvariant.{created, admitted, IsGraph, Reached-IsGraph}

abbrev admission : AdmissionReport
admission = record {
  decision = codes "admit";
  original_identity = some 5;
  old_identity = none;
  overlay_receipt = some 1;
  candidate_edit_receipt = some 2;
  admission_decision_receipt = some 3;
  new_identity = some 7;
  report_package = none;
  report_raw_binary = none;
  report_closure = none;
}

abbrev old_world : Snapshot ℕ
old_world = record { snapshot_identity = some 5; snapshot_report = none; contents = 0 }

abbrev new_world : Snapshot ℕ
new_world = record { snapshot_identity = some 7; snapshot_report = some admission; contents = 1 }

grown :
    (g : HistoryGraph ℕ) × (add_admission (create_history_graph (some old_world)) new_world ≡ ok g)
unfolding add_admission create_history_edge text_eq require_receipt
grown = (_, refl)

replay_latest-IsTrail_example :
    (r : LatestReplay) × (replay_latest text_le grown.0 none ≡ some r)
    × IsTrail grown.0.edges (start_key grown.0 none) r.replay_path r.latest_identity
    × Stops text_le grown.0 r.latest_identity (map (λ e. decimal e.from_identity) r.replay_path)
replay_latest-IsTrail_example = replay_latest-IsTrail text_le grown.0 none

Reached-IsGraph_example : IsGraph grown.0
Reached-IsGraph_example = Reached-IsGraph (admitted (created (some old_world)) new_world grown.1)
