-- ===== src/Transport/Checkpoint.antt =====
-- workbench/src/autonomous_world_transport_checkpoint.js: checkpoints of a replay, and its resumption.
use omi_imo.Prelude.{
  ℕ, ◌+◌, ◌-◌, min, Bool, true, false, Option, none, some, List, [], ◌∷◌, ◌++◌, map, Text, codes,
  throw, ok, ◌>>=◌, ◌>>◌, require, opt_eq, ltb, if◌then◌else◌, length, take, drop, get_elem?, ℤ,
  pos, negsuc,
}
use omi_imo.Identity.Json.{
  end, field, obj, arr, nat_field, text_field, bool_field, opt_field, opt_items, text_items,
  decimal,
}
use omi_imo.Identity.Fnv.{receipt_of}
use omi_imo.Transport.Adapter.{
  Adapter, Throws, checkpoint_range, checkpoint_head, checkpoint_tail, checkpoint_receipt_differs,
  checkpoint_summary, checkpoint_not_admission, missing_event, truthy, sort_receipts, unique_sorted,
}
use omi_imo.Transport.Log.{
  Entry, ReplayLog, Replay, text_or, create_replay_log, verify_replay_log, replay_transport_log,
  all_accepted, open_replayed_snapshot, render_replayed_snapshot,
}

pub record Checkpoint : Type 0 where
  pub checkpoint_id : Text
  pub authority : Bool
  pub admission : Bool
  pub boundary_order : ℕ
  pub log_from_receipt : Option ℕ
  pub log_to_receipt : Option ℕ
  pub checkpoint_identities : List Text
  pub rejected_event_receipts : List ℕ
  pub replay_processing_receipts : List (Option ℕ)
  pub checkpoint_receipt : Option ℕ

pub record Resume (Processing : Type 0) : Type 0 where
  pub resumed_checkpoint_receipt : Option ℕ
  pub resumed_log_receipt : Option ℕ
  pub prefix_replay_receipt : Option ℕ
  pub later_replay_receipt : Option ℕ
  pub resumed_identities : List Text
  pub resumed_rejected : List ℕ
  pub resumed_processing : List Processing
  pub resume_receipt : Option ℕ

-- An array of numbers.
abbrev pub receipt_list : List ℕ → List (Option ℕ)
receipt_list = map some

unfoldable pub checkpoint_receipt_of : Checkpoint → ℕ
checkpoint_receipt_of c = receipt_of (
    obj (
      text_field "checkpoint_id" c.checkpoint_id (
        nat_field "boundary_order" c.boundary_order (
          opt_field "log_from_receipt" c.log_from_receipt (
            opt_field "log_to_receipt" c.log_to_receipt (
              field (codes "accepted_snapshot_identities")
                (arr (text_items c.checkpoint_identities))
                (field (codes "rejected_event_receipts")
                  (arr (opt_items (receipt_list c.rejected_event_receipts)))
                  (field (codes "replay_processing_receipts")
                    (arr (opt_items c.replay_processing_receipts))
                    (bool_field "authority" c.authority
                      (bool_field "admission" c.admission end))))))))))

-- `Math.max(0, n)`
abbrev pub at_least_zero : ℤ → ℕ
at_least_zero (pos n) = n
at_least_zero (negsuc n) = 0

-- `boundaryOrder`, where the option is missing or an integer.
unfoldable pub clamp : Option ℤ → ℕ → ℕ
clamp none count = min (count - 1) (count - 1)
clamp (some n) count = min (at_least_zero n) (count - 1)

-- The receipt of the first and of the last entry of a list, or null.
abbrev pub first_receipt : {Event : Type 0} → List (Entry Event) → Option ℕ
first_receipt [] = none
first_receipt (e ∷ rest) = e.replay_entry_receipt

abbrev pub last_receipt : {Event : Type 0} → List (Entry Event) → Option ℕ
last_receipt [] = none
last_receipt (e ∷ []) = e.replay_entry_receipt
last_receipt (e ∷ d ∷ rest) = last_receipt (d ∷ rest)

abbrev pub events_of : {Event : Type 0} → List (Entry Event) → List (Option Event)
events_of = map (λ e. e.transport_event)

module _ {Event Processing Snapshot Drawing : Type 0}
    (adapter : Adapter Event Processing Snapshot Drawing) where
  -- The event receipts of the entries whose processing was not accepted, `undefined` as null.
  unfoldable pub rejected_of : List (Entry Event) → List Processing → List (Option ℕ)
  rejected_of entries [] = []
  rejected_of [] (p ∷ rest) =
      (if adapter.is_accepted p then [] else none ∷ []) ++ rejected_of [] rest
  rejected_of (e ∷ entries) (p ∷ rest) =
      (if adapter.is_accepted p then [] else e.transport_event_receipt ∷ [])
      ++ rejected_of entries rest

  -- The record over the covered entries and their processing.
  unfoldable pub checkpoint_over : List (Entry Event) → List Processing → Text → ℕ → Checkpoint
  checkpoint_over covered processed id boundary =
      let checkpoint : Checkpoint = record {
        checkpoint_id = text_or id (codes "checkpoint.transport." ++ decimal boundary);
        authority = false;
        admission = false;
        boundary_order = boundary;
        log_from_receipt = first_receipt covered;
        log_to_receipt = last_receipt covered;
        checkpoint_identities = unique_sorted (all_accepted adapter processed);
        rejected_event_receipts = sort_receipts (truthy (rejected_of covered processed));
        replay_processing_receipts = map (λ p. adapter.processing_receipt p) processed;
        checkpoint_receipt = none;
      } in
      record checkpoint { checkpoint_receipt = some (checkpoint_receipt_of checkpoint) }

  unfoldable pub checkpoint_of : ReplayLog Event → List Processing → Text → ℕ → Checkpoint
  unfolding checkpoint_over
  checkpoint_of log processing id boundary =
      checkpoint_over (take (boundary + 1) log.entries) (take (boundary + 1) processing) id boundary

  unfoldable pub create_checkpoint :
      ReplayLog Event → List Processing → Text → Option ℤ → Throws Checkpoint
  create_checkpoint input processing id boundary = do
    log ← verify_replay_log adapter input
    ok (checkpoint_of log processing id (clamp boundary (length log.entries)))

  -- The receipt of the entry at a place, or null.
  unfoldable pub receipt_at : ℕ → List (Entry Event) → Option ℕ
  receipt_at i entries = elim (get_elem? entries i) [
    | some e ↦ e.replay_entry_receipt
    | none ↦ none
  ]

  unfoldable pub verify_checkpoint : Checkpoint → ReplayLog Event → Throws Checkpoint
  verify_checkpoint c input = do
    log ← verify_replay_log adapter input
    require (ltb c.boundary_order (length log.entries)) checkpoint_range
    require (opt_eq c.log_from_receipt (first_receipt log.entries)) checkpoint_head
    require (opt_eq c.log_to_receipt (receipt_at c.boundary_order log.entries)) checkpoint_tail
    require (opt_eq c.checkpoint_receipt (some (checkpoint_receipt_of c)))
        checkpoint_receipt_differs
    ok c

  -- `logFromEvents`; an entry without its event throws when its receipt is read.
  unfoldable pub present : List (Option Event) → Throws (List Event)
  present [] = ok []
  present (none ∷ rest) = throw missing_event
  present (some event ∷ rest) = do events ← present rest; ok (event ∷ events)

  unfoldable pub log_from_events : Text → List (Option Event) → Throws (ReplayLog Event)
  log_from_events log_id held = do
    events ← present held
    ok (create_replay_log adapter log_id events)

  unfoldable pub summarize_rejected : List (Entry Event) → List Processing → List ℕ
  summarize_rejected entries processing = sort_receipts (truthy (rejected_of entries processing))

  unfoldable pub seal_resume :
      ReplayLog Event
      → Checkpoint
      → Replay Processing
      → ReplayLog Event
      → Replay Processing
      → Resume Processing
  seal_resume log c first later_log later =
      let accepted =
        unique_sorted (first.accepted_snapshot_identities ++ later.accepted_snapshot_identities) in
      let rejected =
        sort_receipts
          (c.rejected_event_receipts ++ summarize_rejected later_log.entries later.processing) in
      record {
        resumed_checkpoint_receipt = c.checkpoint_receipt;
        resumed_log_receipt = log.transport_log_receipt;
        prefix_replay_receipt = first.replay_receipt;
        later_replay_receipt = later.replay_receipt;
        resumed_identities = accepted;
        resumed_rejected = rejected;
        resumed_processing = first.processing ++ later.processing;
        resume_receipt = some (
            receipt_of (
              obj (
                opt_field "checkpoint_receipt" c.checkpoint_receipt (
                  opt_field "transport_log_receipt" log.transport_log_receipt (
                    bool_field "verification_recomputed" true (
                      opt_field "prefix_replay_receipt" first.replay_receipt (
                        opt_field "later_replay_receipt" later.replay_receipt (
                          field (codes "accepted_snapshot_identities") (arr (text_items accepted)) (
                            field (codes "rejected_event_receipts")
                              (arr (opt_items (receipt_list rejected)))
                              (bool_field "authority" false
                                (bool_field "admission" false end)))))))))));
      }

  unfoldable pub resume_replay : ReplayLog Event → Checkpoint → Throws (Resume Processing)
  resume_replay input checkpoint = do
    log ← verify_replay_log adapter input
    c ← verify_checkpoint checkpoint log
    prefix_log ← log_from_events log.log_id (events_of (take (c.boundary_order + 1) log.entries))
    first ← replay_transport_log adapter prefix_log
    recomputed ←
        create_checkpoint prefix_log first.processing c.checkpoint_id (some (pos c.boundary_order))
    require (opt_eq recomputed.checkpoint_receipt c.checkpoint_receipt) checkpoint_summary
    later_log ←
        log_from_events (c.checkpoint_id ++ codes ".tail")
          (events_of (drop (c.boundary_order + 1) log.entries))
    later ← replay_transport_log adapter later_log
    ok (seal_resume log c first later_log later)

  abbrev pub open_checkpoint_snapshot : Throws Snapshot
  open_checkpoint_snapshot = throw checkpoint_not_admission

  -- Of a resume, only its processing is read.
  unfoldable pub open_resumed_snapshot : List Processing → Text → Throws Snapshot
  open_resumed_snapshot processing id = open_replayed_snapshot adapter processing id

  unfoldable pub render_resumed_snapshot : List Processing → Text → Throws Drawing
  render_resumed_snapshot processing id = render_replayed_snapshot adapter processing id
