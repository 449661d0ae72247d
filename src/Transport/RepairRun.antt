-- ===== src/Transport/RepairRun.antt =====
-- `repairAndReplay`: the payloads applied in order, and the resumption behind them.
use omi_imo.Prelude.{
  true, false, some, List, [], ◌∷◌, map, Text, codes, text_eq, text_le, join, throw, ok, ◌>>=◌,
  ◌>>◌, require, ◌==◌, if◌then◌else◌, ◌||◌,
}
use omi_imo.Prelude.Sorting.{sort}
use omi_imo.Identity.Json.{end, field, obj, arr, bool_field, opt_field, opt_items, text_items}
use omi_imo.Identity.Fnv.{receipt_of}
use omi_imo.Transport.Adapter.{
  Adapter, Throws, map_result, unrepaired_evidence, repair_status_not_admission,
}
use omi_imo.Transport.Log.{ReplayLog}
use omi_imo.Transport.Checkpoint.{Checkpoint}
use omi_imo.Transport.Compaction.{
  Bundle, CompactionResume, resume_after_compaction, open_compaction_resume_snapshot,
  render_compaction_resume_snapshot,
}
use omi_imo.Transport.Repair.{
  Payload, Evidence, bundle_evidence, Repaired, event_kind, chain_kind, bundle_kind, log_in,
  detect_issues, verify_payload, apply_payload,
}

-- Evidence of another kind in the place of a bundle keeps the one that is there.
bundle_in : {Event : Type 0} → Evidence Event → Bundle → Bundle
bundle_in (bundle_evidence b) old = b
bundle_in _ old = old

module _ {Event Processing Snapshot Drawing : Type 0}
    (adapter : Adapter Event Processing Snapshot Drawing) where
  unfoldable pub apply_one :
      Payload Event → ReplayLog Event × Bundle → Throws (ReplayLog Event × Bundle)
  unfolding bundle_in
  apply_one p (log, bundle) =
      if text_eq p.payload_kind event_kind || text_eq p.payload_kind chain_kind
      then (apply_payload adapter log p >>= λ e. ok (log_in e, bundle))
      else if text_eq p.payload_kind bundle_kind
      then (apply_payload adapter log p >>= λ e. ok (log, bundle_in e bundle))
      else ok (log, bundle)

  unfoldable pub apply_all :
      List (Payload Event) → ReplayLog Event × Bundle → Throws (ReplayLog Event × Bundle)
  apply_all [] state = ok state
  apply_all (p ∷ rest) state = apply_one p state >>= λ next. apply_all rest next

  unfoldable pub seal_repaired :
      List (Payload Event) → CompactionResume Processing → Repaired Processing
  seal_repaired payloads replay =
      let receipts = map (λ p. p.repair_payload_receipt) payloads in
      let accepted = sort text_le replay.result_identities in
      record {
        repair_payload_receipts = receipts;
        repaired_identities = accepted;
        repaired_replay = replay;
        repair_result_receipt = some (
            receipt_of (
              obj (
                bool_field "repaired" true (
                  bool_field "verification_recomputed" true (
                    field (codes "repair_payload_receipts") (arr (opt_items receipts)) (
                      field (codes "accepted_snapshot_identities") (arr (text_items accepted)) (
                        opt_field "replay_receipt" replay.compaction_resume_receipt
                          (bool_field "authority" false (bool_field "admission" false end)))))))));
      }

  unfoldable pub repair_and_replay :
      ReplayLog Event → Checkpoint → Bundle → List (Payload Event) → Throws (Repaired Processing)
  repair_and_replay log checkpoint bundle input = do
    payloads ← map_result (verify_payload adapter) input
    (repaired_log, repaired_bundle) ← apply_all payloads (log, bundle)
    let remaining = detect_issues adapter repaired_log (some repaired_bundle)
    require (remaining.issue_count == 0)
        (unrepaired_evidence (join (codes ",") (map (λ i. i.reason) remaining.issues)))
    replay ← resume_after_compaction adapter repaired_log repaired_bundle checkpoint
    ok (seal_repaired payloads replay)

  unfoldable pub open_repair_snapshot : Repaired Processing → Text → Throws Snapshot
  open_repair_snapshot r id =
      open_compaction_resume_snapshot adapter r.repaired_replay.result_processing id

  unfoldable pub render_repair_snapshot : Repaired Processing → Text → Throws Drawing
  render_repair_snapshot r id =
      render_compaction_resume_snapshot adapter r.repaired_replay.result_processing id

  abbrev pub open_repair_status_snapshot : Throws Snapshot
  open_repair_status_snapshot = throw repair_status_not_admission
