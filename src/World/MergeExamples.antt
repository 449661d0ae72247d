-- ===== src/World/MergeExamples.antt =====
-- The theorems on merges at two worlds with one overlay each, equal ones on one path.
use omi_imo.Prelude.{ℕ, ◌≡◌, refl, false, none, some, [], ◌∷◌, Text, codes, text_eq, text_le, ok}
use omi_imo.Prelude.{find}
use omi_imo.Prelude.Sorting.{sort}
use omi_imo.Identity.Json.{null}
use omi_imo.World.Package.{Fails}
use omi_imo.World.Sync.{put, get_own}
use omi_imo.World.Conflicts.{
  WorldDocument, group_records, unit_map, overlay_of, admitted_overlays, by_target, find_left,
  add_conflict, differs, conflicts_with, classify_conflicts,
}
use omi_imo.World.Merge.{
  GivenWorld, normalize_snapshot, conflicts_between, candidate_between, create_merge_candidate,
  chosen_candidate,
}
use omi_imo.World.MergeAdmission.{Artifacts, MergedWorld, admit_merge}
use omi_imo.World.MergeLaws.{IsReconciled, admit_merge-IsReconciled}

document_of : Text → WorldDocument
document_of path = record {
  groups =
      record {
        group_id = codes "admitted-overlays";
        records = record { record_id = codes "r"; units = (codes "target_path", path) ∷ [] } ∷ [];
      }
      ∷ [];
}

open_document : GivenWorld Text → Fails WorldDocument
open_document w = ok (document_of w.given_contents)

world : ℕ → Text → GivenWorld Text
world id path = record {
  given_admission = some (record { identity = id; source = codes "s" });
  given_report = some none;
  given_contents = path;
}

build : Text → Text → ℕ → Artifacts
build source document id = record {
  manifest = 1;
  imported_manifest = 2;
  scene_root = 3;
  raw_identity = 4;
  raw_index = 5;
  raw_chunks = 6;
  character_identity = 7;
  binary64_identity = 8;
  character_projection = 9;
  binary64_projection = 10;
}

merge :
    (m : MergedWorld Text) × (admit_merge open_document text_le
        (λ t. t)
        (λ d. null)
        (λ d. null)
        build
        (world 1 [])
        (world 2 (codes "a"))
        (world 3 (codes "a"))
        none
        false
      ≡ ok m)
unfolding admit_merge normalize_snapshot chosen_candidate create_merge_candidate conflicts_between
    candidate_between open_document world document_of classify_conflicts admitted_overlays
    group_records overlay_of unit_map by_target find_left put get_own text_eq add_conflict
    conflicts_with sort find differs
merge = (_, refl)

admit_merge-IsReconciled_example :
    IsReconciled open_document text_le (world 2 (codes "a")) (world 3 (codes "a"))
admit_merge-IsReconciled_example =
    admit_merge-IsReconciled open_document text_le (λ t. t) (λ d. null) (λ d. null) build
      (world 1 []) (world 2 (codes "a")) (world 3 (codes "a")) merge.1
