-- ===== src/World/MergeAdmission.antt =====
-- workbench/src/autonomous_world_merge_reconciliation.js: the admission of a merge, and the history
-- that it is linked to.
use omi_imo.Prelude.{
  ℕ, Bool, true, false, ◌||◌, Option, some, ◌++◌, Text, codes, ok, ◌>>=◌, ◌>>◌, require,
}
use omi_imo.Identity.Json.{Value, Fields, obj, end, field, nat_field, text_field, bool_field}
use omi_imo.Identity.Fnv.{receipt_of}
use omi_imo.World.Package.{Fails}
use omi_imo.World.History.{Snapshot, HistoryGraph, add_admission}
use omi_imo.World.Conflicts.{WorldDocument}
use omi_imo.World.Merge.{
  GivenWorld, MergeCandidate, normalize_snapshot, chosen_candidate, merge_declaration_block,
  nat_list,
}

-- The receipts of the package, the chunk index and the closures that are built from the merged source.
pub record Artifacts : Type 0 where
  pub manifest : ℕ
  pub imported_manifest : ℕ
  pub scene_root : ℕ
  pub raw_identity : ℕ
  pub raw_index : ℕ
  pub raw_chunks : ℕ
  pub character_identity : ℕ
  pub binary64_identity : ℕ
  pub character_projection : ℕ
  pub binary64_projection : ℕ

pub record MergedWorld (Document : Type 0) : Type 0 where
  pub merged_candidate : MergeCandidate
  pub merged_source : Text
  pub merged_document : Document
  pub merged_identity : ℕ
  pub merge_overlay : ℕ
  pub merge_decision : ℕ
  pub artifacts : Artifacts
  pub report_receipt : ℕ

abbrev sides : MergeCandidate → Fields → Fields
sides c rest = nat_field "base_identity_receipt" c.base_identity (
    nat_field "left_identity_receipt" c.left_identity (
      nat_field "right_identity_receipt" c.right_identity
        (nat_field "merge_candidate_receipt" c.merge_candidate_receipt rest)))

-- `counts` and `graph` are those of the document.
unfoldable pub snapshot_identity_of : Text → Value → Value → MergeCandidate → ℕ
snapshot_identity_of source counts graph c = receipt_of (
    obj (
      text_field "source" source
        (field (codes "counts") counts (field (codes "graph") graph (sides c end)))))

unfoldable pub merge_overlay_of : MergeCandidate → ℕ
merge_overlay_of c =
    receipt_of (obj (text_field "kind" (codes "merge-reconciliation-overlay") (sides c end)))

unfoldable pub merge_decision_of : MergeCandidate → ℕ → ℕ
merge_decision_of c identity = receipt_of (
    obj (
      text_field "decision" (codes "admit") (
        sides c (
          field (codes "conflict_receipts") (nat_list c.conflict_receipts)
            (nat_field "new_world_identity_receipt" identity end)))))

-- The three parts of the report that come from the artifacts.
abbrev pub package_part : Artifacts → Value
package_part a = obj (
    nat_field "manifest_receipt" a.manifest (
      nat_field "imported_manifest_receipt" a.imported_manifest
        (nat_field "scene_root_receipt" a.scene_root end)))

abbrev pub raw_binary_part : Artifacts → Value
raw_binary_part a = obj (
    nat_field "identity_receipt" a.raw_identity
      (nat_field "index_receipt" a.raw_index (nat_field "chunk_count" a.raw_chunks end)))

abbrev pub closure_part : Artifacts → Value
closure_part a = obj (
    nat_field "character_identity_receipt" a.character_identity (
      nat_field "binary64_identity_receipt" a.binary64_identity (
        nat_field "character_projection_receipt" a.character_projection
          (nat_field "binary64_projection_receipt" a.binary64_projection end))))

abbrev report_authority : Value
report_authority = obj (
    bool_field "merge_candidate_authority" false (
      bool_field "conflict_record_authority" false (
        bool_field "package_authority" false (
          bool_field "raw_binary_authority" false (
            bool_field "closure_carrier_authority" false
              (bool_field "admitted_declaration_and_receipts_authority" true end))))))

-- The report, which is the object that is hashed.
unfoldable pub report_of : {Document : Type 0} → MergedWorld Document → Value
report_of m = obj (
    text_field "kind" (codes "autonomous-world-merge-reconciliation-report") (
      text_field "decision" (codes "admit") (
        nat_field "original_world_identity_receipt" m.merged_candidate.base_identity (
          nat_field "old_world_identity_receipt" m.merged_candidate.base_identity (
            nat_field "merge_overlay_receipt" m.merge_overlay (
              nat_field "overlay_receipt" m.merge_overlay (
                sides m.merged_candidate (
                  nat_field "candidate_edit_receipt" m.merged_candidate.merge_candidate_receipt (
                    field (codes "conflict_receipts")
                      (nat_list m.merged_candidate.conflict_receipts)
                      (nat_field "admission_decision_receipt" m.merge_decision (
                        nat_field "new_world_identity_receipt" m.merged_identity (
                          nat_field "merged_world_identity_receipt" m.merged_identity (
                            field (codes "package") (package_part m.artifacts) (
                              field (codes "raw_binary") (raw_binary_part m.artifacts) (
                                field (codes "closure") (closure_part m.artifacts)
                                  (field (codes "authority") report_authority end))))))))))))))))

-- `parse_document` is workbench/src/model_parser.js, `counts_of` and `graph_of` are two properties of its
-- documents, and `build_artifacts` builds the package, the index and the closures of a source.
module _ {Contents Document : Type 0} (open_document : GivenWorld Contents → Fails WorldDocument)
    (collate : Text → Text → Bool) (parse_document : Text → Document)
    (counts_of graph_of : Document → Value)
    (build_artifacts : Text → Document → ℕ → Artifacts) where
  unfoldable pub merged_from : Text → MergeCandidate → MergedWorld Document
  merged_from left_source c =
      let source = left_source ++ merge_declaration_block c in
      let document = parse_document source in
      let identity = snapshot_identity_of source (counts_of document) (graph_of document) c in
      let merged : MergedWorld Document = record {
        merged_candidate = c;
        merged_source = source;
        merged_document = document;
        merged_identity = identity;
        merge_overlay = merge_overlay_of c;
        merge_decision = merge_decision_of c identity;
        artifacts = build_artifacts source document identity;
        report_receipt = 0;
      } in
      record merged { report_receipt = receipt_of (report_of merged) }

  -- `allow` is `options && options.allow_conflicts`.
  unfoldable pub admit_merge :
      GivenWorld Contents
      → GivenWorld Contents
      → GivenWorld Contents
      → Option MergeCandidate
      → Bool
      → Fails (MergedWorld Document)
  admit_merge base_given left_given right_given candidate allow = do
    base ← normalize_snapshot base_given
    left ← normalize_snapshot left_given
    right ← normalize_snapshot right_given
    c ← chosen_candidate open_document collate base_given left_given right_given candidate
    require (c.admissible || allow) (codes "merge-conflicts-require-explicit-admission")
    ok (merged_from left.admission.source c)

module _ {Document : Type 0} where
  -- A merged world, as the history takes it.
  unfoldable pub merged_snapshot : MergedWorld Document → Snapshot (MergedWorld Document)
  merged_snapshot m = record {
    snapshot_identity = some m.merged_identity;
    snapshot_report = some (record {
      decision = codes "admit";
      original_identity = some m.merged_candidate.base_identity;
      old_identity = some m.merged_candidate.base_identity;
      overlay_receipt = some m.merge_overlay;
      candidate_edit_receipt = some m.merged_candidate.merge_candidate_receipt;
      admission_decision_receipt = some m.merge_decision;
      new_identity = some m.merged_identity;
      report_package = some (package_part m.artifacts);
      report_raw_binary = some (raw_binary_part m.artifacts);
      report_closure = some (closure_part m.artifacts);
    });
    contents = m;
  }

  unfoldable pub link_merged_history :
      HistoryGraph (MergedWorld Document)
      → MergedWorld Document
      → Fails (HistoryGraph (MergedWorld Document))
  link_merged_history g m = add_admission g (merged_snapshot m)
