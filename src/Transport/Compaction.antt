-- ===== src/Transport/Compaction.antt =====
-- workbench/src/autonomous_world_transport_compaction.js: a summary of the entries of a log up to
-- a checkpoint, its verification, and the resumption behind it.
use omi_imo.Prelude.{
  ℕ, ◌+◌, min, Bool, true, false, Option, none, some, List, ◌++◌, map, Text, codes, text_eq, throw,
  ok, ◌>>=◌, ◌>>◌, require, opt_eq, ltb, length, take, ℤ,
}
use omi_imo.Identity.Json.{
  end, field, obj, arr, nat_field, text_field, bool_field, opt_field, opt_items, text_items,
  decimal, stable_string,
}
use omi_imo.Identity.Fnv.{receipt_of}
use omi_imo.Transport.Adapter.{
  Adapter, Throws, compaction_receipt_differs, compaction_range, compaction_log, compaction_head,
  compaction_tail, compaction_entries, compaction_events, compaction_checkpoint,
  compaction_boundary, compaction_not_admission, truthy, sort_receipts, unique_sorted,
}
use omi_imo.Prelude.{text_le}
use omi_imo.Prelude.Sorting.{sort}
use omi_imo.Transport.Log.{Entry, ReplayLog, text_or, verify_replay_log}
use omi_imo.Transport.Checkpoint.{
  Checkpoint, Resume, at_least_zero, receipt_list, first_receipt, last_receipt, verify_checkpoint,
  resume_replay, open_resumed_snapshot, render_resumed_snapshot,
}

pub record Bundle : Type 0 where
  pub compaction_id : Text
  pub bundle_authority : Bool
  pub bundle_admission : Bool
  pub from_order : ℕ
  pub to_order : ℕ
  pub event_count : ℕ
  pub bundle_log_receipt : Option ℕ
  pub bundle_from_receipt : Option ℕ
  pub bundle_to_receipt : Option ℕ
  pub bundle_checkpoint_receipt : Option ℕ
  pub replay_entry_receipts : List (Option ℕ)
  pub transport_event_receipts : List (Option ℕ)
  pub bundle_identities : List Text
  pub bundle_rejected : List ℕ
  pub retained_evidence_receipts : List ℕ
  pub compaction_receipt : Option ℕ

pub record CompactionResume (Processing : Type 0) : Type 0 where
  pub result_compaction_receipt : Option ℕ
  pub result_checkpoint_receipt : Option ℕ
  pub result_resume_receipt : Option ℕ
  pub result_identities : List Text
  pub result_rejected : List ℕ
  pub result_processing : List Processing
  pub compaction_resume_receipt : Option ℕ

unfoldable pub compaction_receipt_of : Bundle → ℕ
compaction_receipt_of b = receipt_of (
    obj (
      text_field "compaction_id" b.compaction_id (
        field (codes "compacted_range")
          (obj (
            nat_field "from_order" b.from_order
              (nat_field "to_order" b.to_order (nat_field "event_count" b.event_count end))))
          (opt_field "transport_log_receipt" b.bundle_log_receipt (
            opt_field "log_from_receipt" b.bundle_from_receipt (
              opt_field "log_to_receipt" b.bundle_to_receipt (
                opt_field "checkpoint_receipt" b.bundle_checkpoint_receipt (
                  field (codes "replay_entry_receipts") (arr (opt_items b.replay_entry_receipts)) (
                    field (codes "transport_event_receipts")
                      (arr (opt_items b.transport_event_receipts))
                      (field (codes "accepted_snapshot_identities")
                        (arr (text_items b.bundle_identities))
                        (field (codes "rejected_event_receipts")
                          (arr (opt_items (receipt_list b.bundle_rejected)))
                          (field (codes "retained_evidence_receipts")
                            (arr (opt_items (receipt_list b.retained_evidence_receipts)))
                            (bool_field "authority" b.bundle_authority
                              (bool_field "admission" b.bundle_admission end))))))))))))))

abbrev pub entry_receipts : {Event : Type 0} → List (Entry Event) → List (Option ℕ)
entry_receipts = map (λ e. e.replay_entry_receipt)

abbrev pub event_receipts : {Event : Type 0} → List (Entry Event) → List (Option ℕ)
event_receipts = map (λ e. e.transport_event_receipt)

-- `stableString(a) !== stableString(b)`, negated, on arrays of receipts.
unfoldable pub same_receipts : List (Option ℕ) → List (Option ℕ) → Bool
same_receipts a b = text_eq (stable_string (arr (opt_items a))) (stable_string (arr (opt_items b)))

-- `toOrder`, where the option is missing or an integer.
unfoldable pub up_to : Option ℤ → ℕ → ℕ
up_to none boundary = min boundary boundary
up_to (some n) boundary = min (at_least_zero n) boundary

module _ {Event Processing Snapshot Drawing : Type 0}
    (adapter : Adapter Event Processing Snapshot Drawing) where
  unfoldable pub bundle_of : ReplayLog Event → List Processing → Checkpoint → Text → ℕ → Bundle
  bundle_of log processing c id to =
      let entries = take (to + 1) log.entries in
      let bundle : Bundle = record {
        compaction_id = text_or id (codes "compaction.transport." ++ decimal to);
        bundle_authority = false;
        bundle_admission = false;
        from_order = 0;
        to_order = to;
        event_count = length entries;
        bundle_log_receipt = log.transport_log_receipt;
        bundle_from_receipt = first_receipt entries;
        bundle_to_receipt = last_receipt entries;
        bundle_checkpoint_receipt = c.checkpoint_receipt;
        replay_entry_receipts = entry_receipts entries;
        transport_event_receipts = event_receipts entries;
        bundle_identities = unique_sorted c.checkpoint_identities;
        bundle_rejected = sort_receipts c.rejected_event_receipts;
        retained_evidence_receipts =
            truthy (map (λ p. adapter.processing_receipt p) (take (to + 1) processing));
        compaction_receipt = none;
      } in
      record bundle { compaction_receipt = some (compaction_receipt_of bundle) }

  unfoldable pub create_compaction :
      ReplayLog Event → List Processing → Checkpoint → Text → Option ℤ → Throws Bundle
  create_compaction input processing checkpoint id to = do
    log ← verify_replay_log adapter input
    c ← verify_checkpoint adapter checkpoint log
    ok (bundle_of log processing c id (up_to to c.boundary_order))

  -- The checks against a log.
  unfoldable pub verify_range : Bundle → ReplayLog Event → Throws (Unit {0})
  verify_range b input = do
    log ← verify_replay_log adapter input
    require (ltb b.to_order (length log.entries)) compaction_range
    require (opt_eq b.bundle_log_receipt log.transport_log_receipt) compaction_log
    require (opt_eq b.bundle_from_receipt (first_receipt (take (b.to_order + 1) log.entries)))
        compaction_head
    require (opt_eq b.bundle_to_receipt (last_receipt (take (b.to_order + 1) log.entries)))
        compaction_tail
    require
        (same_receipts b.replay_entry_receipts (entry_receipts (take (b.to_order + 1) log.entries)))
        compaction_entries
    require
        (same_receipts b.transport_event_receipts
          (event_receipts (take (b.to_order + 1) log.entries)))
        compaction_events

  unfoldable pub verify_against : Bundle → Option (ReplayLog Event) → Throws (Unit {0})
  verify_against b none = ok tt
  verify_against b (some log) = verify_range b log

  unfoldable pub verify_compaction : Bundle → Option (ReplayLog Event) → Throws Bundle
  verify_compaction b log = do
    require (opt_eq b.compaction_receipt (some (compaction_receipt_of b)))
        compaction_receipt_differs
    verify_against b log
    ok b

  unfoldable pub seal_compaction_resume :
      Bundle → Checkpoint → Resume Processing → CompactionResume Processing
  seal_compaction_resume b c r =
      let accepted = sort text_le r.resumed_identities in
      let rejected = sort_receipts r.resumed_rejected in
      record {
        result_compaction_receipt = b.compaction_receipt;
        result_checkpoint_receipt = c.checkpoint_receipt;
        result_resume_receipt = r.resume_receipt;
        result_identities = accepted;
        result_rejected = rejected;
        result_processing = r.resumed_processing;
        compaction_resume_receipt = some (
            receipt_of (
              obj (
                opt_field "compaction_receipt" b.compaction_receipt (
                  opt_field "checkpoint_receipt" c.checkpoint_receipt (
                    opt_field "resume_receipt" r.resume_receipt (
                      bool_field "verification_recomputed" true (
                        field (codes "accepted_snapshot_identities") (arr (text_items accepted)) (
                          field (codes "rejected_event_receipts")
                            (arr (opt_items (receipt_list rejected)))
                            (bool_field "authority" false
                              (bool_field "admission" false end))))))))));
      }

  unfoldable pub resume_after_compaction :
      ReplayLog Event → Bundle → Checkpoint → Throws (CompactionResume Processing)
  resume_after_compaction input bundle checkpoint = do
    log ← verify_replay_log adapter input
    b ← verify_compaction bundle (some log)
    c ← verify_checkpoint adapter checkpoint log
    require (opt_eq b.bundle_checkpoint_receipt c.checkpoint_receipt) compaction_checkpoint
    require (opt_eq b.bundle_to_receipt c.log_to_receipt) compaction_boundary
    resumed ← resume_replay adapter log c
    ok (seal_compaction_resume b c resumed)

  abbrev pub open_compaction_snapshot : Throws Snapshot
  open_compaction_snapshot = throw compaction_not_admission

  unfoldable pub open_compaction_resume_snapshot : List Processing → Text → Throws Snapshot
  open_compaction_resume_snapshot processing id = open_resumed_snapshot adapter processing id

  unfoldable pub render_compaction_resume_snapshot : List Processing → Text → Throws Drawing
  render_compaction_resume_snapshot processing id = render_resumed_snapshot adapter processing id
