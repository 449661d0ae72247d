-- ===== src/Transport/Availability.antt =====
-- workbench/src/autonomous_world_transport_availability.js: which of the required receipts an
-- inventory has, and which its suppliers can repair.
use omi_imo.Prelude.{
  ℕ, Bool, true, false, ◌&&◌, ◌||◌, Option, none, some, List, [], ◌∷◌, ◌++◌, map, Text, codes,
  text_eq, text_le, any, filter, find, ◌==◌, if◌then◌else◌, String,
}
use omi_imo.Prelude.Sorting.{sort}
use omi_imo.Identity.Json.{
  Value, null, bool, str, arr, obj, end, field, bool_field, opt_items, text_items, decimal,
}
use omi_imo.Identity.Fnv.{receipt_of}
use omi_imo.Identity.Values.{
  prop, truthy_value, or_value, same_value, opt_to_text, open_receipt, nat_value, text_value,
}
use omi_imo.Transport.Adapter.{or_null}
use omi_imo.Transport.Log.{text_or}

-- A supplier in an inventory, and as a candidate for one receipt.
pub record Supplier : Type 0 where
  pub supplier_peer : Option Text
  pub supplier_package : Option ℕ
  pub supplier_provides : List Text
  pub given_receipt : Option ℕ

pub record Candidate : Type 0 where
  pub candidate_peer : Text
  pub candidate_package : Option ℕ
  pub candidate_provides : List Text
  pub candidate_receipt : ℕ

pub record Inventory : Type 0 where
  pub evidence_items : List Value
  pub suppliers : List Supplier

pub data Status : Type 0 where
  available missing corrupt repairable : Status

pub record Classified : Type 0 where
  pub receipt : ℕ
  pub classified_kind : Text
  pub status : Status
  pub candidate_suppliers : List Candidate

pub record AvailabilityReport : Type 0 where
  pub required_receipts : List ℕ
  pub available_records : List Classified
  pub missing_records : List Classified
  pub corrupt_records : List Classified
  pub repairable_records : List Classified
  pub all_candidates : List (ℕ × Candidate)
  pub availability_receipt : Option ℕ

abbrev pub has_kind : String → Value → Bool
has_kind kind e = same_value (prop "kind" (some e)) (text_value (codes kind))

-- The receipt under the name that the kind has.
unfoldable pub receipt_by_kind : Value → Option Value
receipt_by_kind e =
    if has_kind "omi.autonomous-world.transport-event" e
    then prop "transport_event_receipt" (some e)
    else if has_kind "omi.autonomous-world.transport-replay-log" e
    then prop "transport_log_receipt" (some e)
    else if has_kind "omi.autonomous-world.transport-checkpoint" e
    then prop "checkpoint_receipt" (some e)
    else if has_kind "omi.autonomous-world.transport-compaction-bundle" e
    then prop "compaction_receipt" (some e)
    else if has_kind "omi.autonomous-world.transport-repair-payload" e
    then prop "repair_payload_receipt" (some e)
    else some null

-- `evidenceReceipt`, as a text; a value that is falsy has none.
unfoldable pub evidence_key : Value → Option Text
evidence_key e =
    let chosen = or_value (receipt_by_kind e) (
      or_value (prop "compaction_receipt" (some e)) (
        or_value (prop "checkpoint_receipt" (some e)) (
          or_value (prop "transport_log_receipt" (some e)) (
            or_value (prop "transport_event_receipt" (some e))
              (or_value (prop "repair_payload_receipt" (some e)) (nat_value (receipt_of e))))))) in
    if truthy_value (some e) then some (opt_to_text chosen) else none

abbrev pub has_property : String → Value → Bool
has_property key e = truthy_value (prop key (some e))

unfoldable pub evidence_kind : Value → Text
evidence_kind e =
    let named =
      if has_kind "omi.autonomous-world.transport-event" e
        || has_property "transport_event_receipt" e
      then codes "transport-event"
      else if has_kind "omi.autonomous-world.transport-replay-log" e
          || has_property "transport_log_receipt" e
      then codes "transport-log"
      else if has_kind "omi.autonomous-world.transport-checkpoint" e
          || has_property "checkpoint_receipt" e
      then codes "checkpoint"
      else if has_kind "omi.autonomous-world.transport-compaction-bundle" e
          || has_property "compaction_receipt" e
      then codes "compaction-bundle"
      else opt_to_text (or_value (prop "kind" (some e)) (text_value (codes "unknown"))) in
    if truthy_value (some e) then named else codes "unknown"

-- A text that may be absent.
abbrev pub opt_text_value : Option Text → Option Value
opt_text_value none = none
opt_text_value (some t) = some (str t)

-- `value || null`
abbrev pub opt_nat_value : Option ℕ → Option Value
opt_nat_value none = some null
opt_nat_value (some n) = nat_value n

unfoldable pub supplier_receipt_of : Supplier → ℕ
supplier_receipt_of s = open_receipt (
    (codes "peer_id", opt_text_value s.supplier_peer)
    ∷ (codes "package_receipt", opt_nat_value (or_null s.supplier_package))
    ∷ (codes "provides", some (arr (text_items (sort text_le s.supplier_provides))))
    ∷ (codes "authority", some (bool false))
    ∷ [])

abbrev pub peer_or_unknown : Option Text → Text
peer_or_unknown none = codes "peer.unknown"
peer_or_unknown (some t) = text_or t (codes "peer.unknown")

abbrev pub receipt_or : Option ℕ → ℕ → ℕ
receipt_or none other = other
receipt_or (some n) other = n

unfoldable pub candidate_of : Supplier → Candidate
candidate_of s = record {
  candidate_peer = peer_or_unknown s.supplier_peer;
  candidate_package = or_null s.supplier_package;
  candidate_provides = sort text_le s.supplier_provides;
  candidate_receipt = receipt_or (or_null s.given_receipt) (supplier_receipt_of s);
}

unfoldable pub provides : Text → Supplier → Bool
provides key s = any (text_eq key) s.supplier_provides

abbrev pub is_key : Text → Value → Bool
is_key key e = elim (evidence_key e) [ none ↦ false | some k ↦ text_eq k key ]

unfoldable pub classify_evidence : ℕ → Inventory → List Text → Text × Status
classify_evidence r inventory corrupt_keys =
    elim (find (is_key (decimal r)) inventory.evidence_items) [
      | none ↦ (codes "unknown", missing)
      | some e ↦
          (evidence_kind e, if any (text_eq (decimal r)) corrupt_keys then corrupt else available)
    ]

abbrev pub is_empty : {A : Type 0} → List A → Bool
is_empty [] = true
is_empty (x ∷ xs) = false

-- A need that has a supplier.
abbrev pub repaired_status : Status → List Candidate → Status
repaired_status missing (c ∷ rest) = repairable
repaired_status corrupt (c ∷ rest) = repairable
repaired_status s candidates = s

abbrev pub same_status : Status → Status → Bool
same_status available available = true
same_status missing missing = true
same_status corrupt corrupt = true
same_status repairable repairable = true
same_status _ _ = false

abbrev pub is_status : Status → Classified → Bool
is_status s c = same_status s c.status

-- The candidates of one record that are not there yet.
unfoldable pub push_candidates : ℕ → List Candidate → List (ℕ × Candidate) → List (ℕ × Candidate)
push_candidates target [] out = out
push_candidates target (c ∷ rest) out = push_candidates target rest (
    if any (λ p. (p.1.candidate_receipt == c.candidate_receipt) && (p.0 == target)) out
    then out
    else out ++ (target, c) ∷ [])

unfoldable pub collect_candidates : List Classified → List (ℕ × Candidate) → List (ℕ × Candidate)
collect_candidates [] out = out
collect_candidates (c ∷ rest) out =
    collect_candidates rest (push_candidates c.receipt c.candidate_suppliers out)

abbrev pub nat_items : List ℕ → Value
nat_items l = arr (opt_items (map some l))

abbrev pub receipts_in : List Classified → Value
receipts_in l = nat_items (map (λ c. c.receipt) l)

abbrev pub candidate_text : ℕ × Candidate → Text
candidate_text p = decimal p.1.candidate_receipt ++ (codes ":" ++ decimal p.0)

unfoldable pub availability_receipt_of : AvailabilityReport → ℕ
availability_receipt_of r = receipt_of (
    obj (
      field (codes "required_receipts") (nat_items r.required_receipts) (
        field (codes "available") (receipts_in r.available_records) (
          field (codes "missing") (receipts_in r.missing_records) (
            field (codes "corrupt") (receipts_in r.corrupt_records) (
              field (codes "repairable") (receipts_in r.repairable_records) (
                field (codes "candidate_suppliers")
                  (arr (text_items (sort text_le (map candidate_text r.all_candidates))))
                  (bool_field "authority" false end))))))))

-- `collate a b` is `a.localeCompare(b) <= 0`.
module _ (collate : Text → Text → Bool) where
  unfoldable pub supplier_matches : Text → Inventory → List Candidate
  supplier_matches key inventory =
      sort (λ a b. collate a.candidate_peer b.candidate_peer)
        (map candidate_of (filter (provides key) inventory.suppliers))

  unfoldable pub classify : Inventory → List Text → ℕ → Classified
  classify inventory corrupt_keys r =
      let (kind, found) = classify_evidence r inventory corrupt_keys in
      let candidates = supplier_matches (decimal r) inventory in
      record {
        receipt = r;
        classified_kind = kind;
        status = repaired_status found candidates;
        candidate_suppliers = candidates;
      }

  unfoldable pub create_availability_report : Inventory → List ℕ → List ℕ → AvailabilityReport
  create_availability_report inventory needed corrupt_receipts =
      let required = sort (λ a b. collate (decimal a) (decimal b)) needed in
      let classified =
        map (classify inventory (sort text_le (map decimal corrupt_receipts))) required in
      let report : AvailabilityReport = record {
        required_receipts = required;
        available_records = filter (is_status available) classified;
        missing_records = filter (is_status missing) classified;
        corrupt_records = filter (is_status corrupt) classified;
        repairable_records = filter (is_status repairable) classified;
        all_candidates = collect_candidates classified [];
        availability_receipt = none;
      } in
      record report { availability_receipt = some (availability_receipt_of report) }
