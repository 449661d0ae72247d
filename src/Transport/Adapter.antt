-- ===== src/Transport/Adapter.antt =====
-- What the transport modules use of the live adapter
-- (workbench/src/autonomous_world_live_transport_adapter.js), and the errors that they throw.
use omi_imo.Prelude.{
  ℕ, zero, suc, Bool, Option, none, some, List, [], ◌∷◌, ◌++◌, Text, codes, text_eq, text_le,
  Result, ok, ◌>>=◌, any, if◌then◌else◌,
}
use omi_imo.Prelude.Sorting.{sort}
use omi_imo.Identity.Json.{decimal}

pub data TransportError : Type 0 where
  log_order log_chain event_receipt_differs entry_receipt_differs : ℕ → TransportError
  log_receipt_differs : TransportError
  not_admitted_by_replay : Text → TransportError
  checkpoint_range checkpoint_head checkpoint_tail checkpoint_receipt_differs : TransportError
  checkpoint_summary checkpoint_not_admission : TransportError
  compaction_receipt_differs compaction_range compaction_log compaction_head : TransportError
  compaction_tail compaction_entries compaction_events compaction_checkpoint : TransportError
  compaction_boundary compaction_not_admission : TransportError
  payload_receipt_differs payload_target : TransportError
  target_not_found : Option ℕ → TransportError
  unsupported_target : Text → TransportError
  unrepaired_evidence : Text → TransportError
  repair_status_not_admission missing_event : TransportError
  adapter_error : Text → TransportError

-- `"" + value` for a number or null.
abbrev pub opt_text : Option ℕ → Text
opt_text none = codes "null"
opt_text (some n) = decimal n

-- `err.message`
unfoldable pub message : TransportError → Text
message (log_order i) = codes "transport-log-order-mismatch:" ++ decimal i
message (log_chain i) = codes "transport-log-chain-mismatch:" ++ decimal i
message (event_receipt_differs i) = codes "transport-event-receipt-mismatch:" ++ decimal i
message (entry_receipt_differs i) = codes "transport-log-entry-receipt-mismatch:" ++ decimal i
message log_receipt_differs = codes "transport-log-receipt-mismatch"
message (not_admitted_by_replay id) = codes "snapshot-not-admitted-by-replay:" ++ id
message checkpoint_range = codes "checkpoint-boundary-out-of-range"
message checkpoint_head = codes "checkpoint-log-head-mismatch"
message checkpoint_tail = codes "checkpoint-log-tail-mismatch"
message checkpoint_receipt_differs = codes "checkpoint-receipt-mismatch"
message checkpoint_summary = codes "checkpoint-recomputed-summary-mismatch"
message checkpoint_not_admission = codes "checkpoint-not-admission"
message compaction_receipt_differs = codes "compaction-receipt-mismatch"
message compaction_range = codes "compaction-range-out-of-log"
message compaction_log = codes "compaction-log-receipt-mismatch"
message compaction_head = codes "compaction-log-head-mismatch"
message compaction_tail = codes "compaction-log-tail-mismatch"
message compaction_entries = codes "compaction-entry-receipts-mismatch"
message compaction_events = codes "compaction-event-receipts-mismatch"
message compaction_checkpoint = codes "compaction-checkpoint-mismatch"
message compaction_boundary = codes "compaction-boundary-mismatch"
message compaction_not_admission = codes "compaction-not-admission"
message payload_receipt_differs = codes "repair-payload-receipt-mismatch"
message payload_target = codes "repair-payload-target-mismatch"
message (target_not_found r) = codes "repair-target-not-found:" ++ opt_text r
message (unsupported_target kind) = codes "unsupported-repair-target:" ++ kind
message (unrepaired_evidence reasons) = codes "unrepaired-evidence:" ++ reasons
message repair_status_not_admission = codes "repair-status-not-admission"
message missing_event = codes "Cannot read properties of null (reading 'transport_event_receipt')"
message (adapter_error why) = why

abbrev pub Throws : Type 0 → Type 0
Throws = Result TransportError

-- The live adapter, for the registry, the subscription and the options that a caller hands
-- through unchanged. `is_accepted` is `exchange.verification_status === "accepted"`, and
-- `names_receipt` whether an event has the property transport_event_receipt, be it null.
pub record Adapter (Event Processing Snapshot Drawing : Type 0) : Type 0 where
  pub event_receipt : Event → Option ℕ
  pub names_receipt : Event → Bool
  pub process_transport_event : Option Event → Throws Processing
  pub accepted_identities : Processing → List Text
  pub is_accepted : Processing → Bool
  pub processing_receipt : Processing → Option ℕ
  pub open_transport_snapshot : Processing → Text → Throws Snapshot
  pub render_transport_snapshot : Processing → Text → Throws Drawing

-- `receipt || null`: zero is falsy.
unfoldable pub or_null : Option ℕ → Option ℕ
or_null none = none
or_null (some zero) = none
or_null (some (suc n)) = some (suc n)

-- `receipts.filter(Boolean)`
unfoldable pub truthy : List (Option ℕ) → List ℕ
truthy [] = []
truthy (none ∷ rest) = truthy rest
truthy (some zero ∷ rest) = truthy rest
truthy (some (suc n) ∷ rest) = suc n ∷ truthy rest

-- `sort()` of numbers is by their texts.
abbrev pub sort_receipts : List ℕ → List ℕ
sort_receipts = sort (λ a b. text_le (decimal a) (decimal b))

-- `values.map(f)` where `f` may throw.
unfoldable pub map_result {ℓ κ} :
    {A : Type ℓ} {B : Type κ}
    → (A → Result TransportError B)
    → List A
    → Result TransportError (List B)
map_result f [] = ok []
map_result f (x ∷ xs) = f x >>= λ y. map_result f xs >>= λ ys. ok (y ∷ ys)

-- `if (out.indexOf(id) < 0) out.push(id)`, over a list.
unfoldable pub push_unique : List Text → List Text → List Text
push_unique out [] = out
push_unique out (id ∷ rest) =
    push_unique (if any (text_eq id) out then out else out ++ id ∷ []) rest

unfoldable pub unique_sorted : List Text → List Text
unique_sorted values = sort text_le (push_unique [] values)
