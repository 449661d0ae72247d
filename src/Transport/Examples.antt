-- ===== src/Transport/Examples.antt =====
-- The theorems on the transport at a log of two events, with an adapter that accepts every event
-- under its receipt.
use omi_imo.Prelude.{
  ℕ, arith, ◌≡◌, ◌↔◌, refl, Bool, true, false, Option, none, some, [], ◌∷◌, map, All, ok, throw,
  codes,
}
use omi_imo.Identity.Json.{null, decimal, opt_items, text_items}
use omi_imo.Identity.Fnv.{receipt_of}
use omi_imo.Prelude.{any, text_eq}
use omi_imo.Prelude.Sorting.{sort}
use omi_imo.Transport.Adapter.{
  Adapter, Throws, missing_event, or_null, truthy, map_result, push_unique, unique_sorted,
}
use omi_imo.Transport.Log.{
  ReplayLog, Replay, verify_entries, verify_entry, new_entries, new_entry, held_receipt,
  entry_receipt, log_receipt, all_accepted, process_entries, seal_replay, create_replay_log,
  verify_replay_log, replay_transport_log,
}
use omi_imo.Transport.Chain.{IsChained, verify_replay_log-create_replay_log, verify_replay_log_iff}
use omi_imo.Transport.Checkpoint.{
  Checkpoint, Resume, checkpoint_of, resume_replay, verify_checkpoint, receipt_at,
  checkpoint_receipt_of, create_checkpoint, clamp, rejected_of, log_from_events, present,
}
use omi_imo.Transport.Resume.{run, resume_replay-replay_transport_log}
use omi_imo.Transport.Resumable.{resume_replay-checkpoint_of}
use omi_imo.Transport.Repair.{
  Payload, event_evidence, event_kind, create_repair_request, create_repair_payload, repair_event,
  put_event, event_in, detect_issues,
}
use omi_imo.Transport.RepairLaws.{bare, Holds, repair_event-bare, detect_issues-none_iff}

process : Option ℕ → Throws ℕ
process none = throw missing_event
process (some e) = ok e

abbrev accepting : Adapter ℕ ℕ ℕ ℕ
accepting = record {
  event_receipt = λ e. some e;
  names_receipt = λ e. true;
  process_transport_event = process;
  accepted_identities = λ e. decimal e ∷ [];
  is_accepted = λ e. true;
  processing_receipt = λ e. some e;
  open_transport_snapshot = λ e id. ok e;
  render_transport_snapshot = λ e id. ok e;
}

abbrev two : ReplayLog ℕ
two = create_replay_log accepting (codes "w") (7 ∷ 9 ∷ [])

abbrev half : Checkpoint
half = checkpoint_of accepting two (7 ∷ 9 ∷ []) [] 0

is_ok : {A : Type 0} → Throws A → Bool
is_ok (ok a) = true
is_ok (throw e) = false

is_ok-value : {A : Type 0} (m : Throws A) → is_ok m ≡ true → (a : A) × (m ≡ ok a)
unfolding is_ok
is_ok-value (ok a) h = (a, refl)
is_ok-value (throw e) h = cc

verify_replay_log-create_replay_log_example : verify_replay_log accepting two ≡ ok two
verify_replay_log-create_replay_log_example =
    verify_replay_log-create_replay_log accepting (codes "w") (7 ∷ 9 ∷ [])

verify_replay_log_iff_example : (verify_replay_log accepting two ≡ ok two) ↔ IsChained accepting two
verify_replay_log_iff_example = verify_replay_log_iff accepting two

resumed : (r : Resume ℕ) × (resume_replay accepting two half ≡ ok r)
unfolding is_ok process resume_replay verify_replay_log verify_entries verify_entry
    create_replay_log new_entries new_entry or_null held_receipt entry_receipt log_receipt
    receipt_of opt_items text_items text_eq sort verify_checkpoint receipt_at checkpoint_receipt_of
    create_checkpoint checkpoint_of clamp rejected_of truthy all_accepted decimal log_from_events
    present replay_transport_log process_entries map_result seal_replay unique_sorted push_unique
    any
resumed = is_ok-value (resume_replay accepting two half) refl

resume_replay-replay_transport_log_example :
    (full : Replay ℕ) × (replay_transport_log accepting two ≡ ok full)
    × (resumed.0.resumed_processing ≡ full.processing)
    × (resumed.0.resumed_identities ≡ full.accepted_snapshot_identities)
resume_replay-replay_transport_log_example =
    resume_replay-replay_transport_log accepting two half resumed.1

abbrev first_only : ReplayLog ℕ
first_only = create_replay_log accepting (codes "w") (7 ∷ [])

abbrev lost : ReplayLog ℕ
lost = record first_only { entries = map bare first_only.entries }

abbrev supplied : Payload ℕ
supplied =
    create_repair_payload accepting (λ e. null)
      (create_repair_request (some 7) event_kind (codes "missing-event") none) (event_evidence 7) []

repaired : (out : ReplayLog ℕ) × (repair_event accepting lost supplied ≡ ok out)
unfolding is_ok repair_event verify_replay_log verify_entries verify_entry create_replay_log
    new_entries new_entry or_null held_receipt entry_receipt log_receipt receipt_of opt_items
    text_items text_eq sort put_event event_in create_repair_payload create_repair_request
repaired = is_ok-value (repair_event accepting lost supplied) refl

repair_event-bare_example :
    (verify_replay_log accepting repaired.0 ≡ ok repaired.0)
    × (map bare repaired.0.entries ≡ map bare lost.entries)
    × (repaired.0.transport_log_receipt ≡ lost.transport_log_receipt)
repair_event-bare_example = repair_event-bare accepting lost supplied repaired.1

detect_issues-none_iff_example :
    ((detect_issues accepting two none).issue_count ≡ 0)
    ↔ ((verify_replay_log accepting two ≡ ok two) × All (Holds accepting) two.entries)
detect_issues-none_iff_example = detect_issues-none_iff accepting two

processed : run accepting (map some (7 ∷ 9 ∷ [])) ≡ ok (7 ∷ 9 ∷ [])
unfolding map_result process
processed = refl

resume_replay-checkpoint_of_example :
    (r : Resume ℕ) × (resume_replay accepting two (checkpoint_of accepting two (7 ∷ 9 ∷ []) [] 0)
      ≡ ok r)
resume_replay-checkpoint_of_example =
    resume_replay-checkpoint_of accepting b'w' [] (7 ∷ 9 ∷ []) (7 ∷ 9 ∷ []) [] 0 processed
      (omega arith)
