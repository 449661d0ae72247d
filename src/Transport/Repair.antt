-- ===== src/Transport/Repair.antt =====
-- workbench/src/autonomous_world_transport_repair.js: detection of missing and corrupt evidence,
-- requests and payloads for it, and the repair of a log.
use omi_imo.Prelude.{
  ◌&&◌, ℕ, ◌+◌, Bool, false, Option, none, some, List, [], ◌∷◌, ◌++◌, map, Text, codes, text_eq,
  throw, ok, ◌>>=◌, ◌>>◌, require, opt_eq, ◌==◌, length, if◌then◌else◌,
}
use omi_imo.Identity.Json.{
  Value, end, field, obj, arr, text_field, bool_field, opt_field, opt_items,
}
use omi_imo.Identity.Fnv.{receipt_of}
use omi_imo.Transport.Adapter.{
  Adapter, Throws, message, or_null, payload_receipt_differs, payload_target, target_not_found,
  unsupported_target,
}
use omi_imo.Transport.Log.{Entry, ReplayLog, text_or, verify_replay_log}
use omi_imo.Transport.Compaction.{Bundle, CompactionResume, verify_compaction}

pub record Issue : Type 0 where
  pub target_receipt : Option ℕ
  pub target_kind : Text
  pub reason : Text
  pub issue_order : Option ℕ
  pub repair_issue_receipt : Option ℕ

pub record Report : Type 0 where
  pub issue_count : ℕ
  pub issues : List Issue
  pub detection_receipt : Option ℕ

pub record RepairRequest : Type 0 where
  pub request_target : Option ℕ
  pub request_kind : Text
  pub request_reason : Text
  pub request_issue_receipt : Option ℕ
  pub repair_request_receipt : Option ℕ

-- What a supplier sends: nothing, an event, a log or a bundle.
pub data Evidence (Event : Type 0) : Type 0 where
  no_evidence : Evidence Event
  event_evidence : Event → Evidence Event
  log_evidence : ReplayLog Event → Evidence Event
  bundle_evidence : Bundle → Evidence Event

pub record Payload (Event : Type 0) : Type 0 where
  pub supplier : Text
  pub supplier_authority : Bool
  pub payload_authority : Bool
  pub payload_admission : Bool
  pub payload_target_receipt : Option ℕ
  pub payload_kind : Text
  pub payload_request_receipt : Option ℕ
  pub evidence : Evidence Event
  pub evidence_receipt : Option ℕ
  pub repair_payload_receipt : Option ℕ

pub record Repaired (Processing : Type 0) : Type 0 where
  pub repair_payload_receipts : List (Option ℕ)
  pub repaired_identities : List Text
  pub repaired_replay : CompactionResume Processing
  pub repair_result_receipt : Option ℕ

abbrev pub event_kind : Text
event_kind = codes "transport-event"

abbrev pub chain_kind : Text
chain_kind = codes "transport-log-chain"

abbrev pub bundle_kind : Text
bundle_kind = codes "compaction-bundle"

unfoldable pub make_issue : Option ℕ → Text → Text → Option ℕ → Issue
make_issue target kind why order =
    let kind_text = text_or kind (codes "unknown") in
    let why_text = text_or why (codes "missing-or-corrupt") in
    record {
      target_receipt = target;
      target_kind = kind_text;
      reason = why_text;
      issue_order = order;
      repair_issue_receipt = some (
          receipt_of (
            obj (
              opt_field "target_receipt" target (
                text_field "target_kind" kind_text (
                  text_field "reason" why_text
                    (opt_field "order" order (bool_field "authority" false end)))))));
    }

unfoldable pub create_repair_request : Option ℕ → Text → Text → Option ℕ → RepairRequest
create_repair_request target kind why issue =
    let kind_text = text_or kind (codes "unknown") in
    let why_text = text_or why (codes "missing-or-corrupt") in
    let issue_receipt = or_null issue in
    record {
      request_target = target;
      request_kind = kind_text;
      request_reason = why_text;
      request_issue_receipt = issue_receipt;
      repair_request_receipt = some (
          receipt_of (
            obj (
              opt_field "target_receipt" target (
                text_field "target_kind" kind_text (
                  text_field "reason" why_text (
                    opt_field "repair_issue_receipt" issue_receipt
                      (bool_field "authority" false end)))))));
    }

module _ {Event : Type 0} where
  -- The receipt that `verifyRepairPayload` expects.
  unfoldable pub payload_receipt_of : Payload Event → ℕ
  payload_receipt_of p = receipt_of (
      obj (
        opt_field "target_receipt" p.payload_target_receipt (
          text_field "target_kind" p.payload_kind (
            opt_field "repair_request_receipt" p.payload_request_receipt (
              opt_field "evidence_receipt" p.evidence_receipt (
                text_field "supplier" p.supplier (
                  bool_field "supplier_authority" p.supplier_authority (
                    bool_field "authority" p.payload_authority
                      (bool_field "admission" p.payload_admission end)))))))))

  -- Evidence of another kind has no event receipt, like a missing event.
  unfoldable pub event_in : Evidence Event → Option Event
  event_in (event_evidence e) = some e
  event_in _ = none

  -- Evidence of another kind read as a log has no entries.
  unfoldable pub log_in : Evidence Event → ReplayLog Event
  log_in (log_evidence l) = l
  log_in (bundle_evidence b) = record {
    log_id = [];
    entries = [];
    transport_log_receipt = b.bundle_log_receipt;
  }
  log_in _ = record { log_id = []; entries = []; transport_log_receipt = none }

  -- `entries.findIndex(...)`, with the event of that entry replaced.
  unfoldable pub put_event :
      Option ℕ → Option Event → List (Entry Event) → Option (List (Entry Event))
  put_event target event [] = none
  put_event target event (e ∷ rest) =
      let later : Option (List (Entry Event)) = elim (put_event target event rest) [
        | some l ↦ some (e ∷ l)
        | none ↦ none
      ] in
      if opt_eq e.transport_event_receipt target
      then some (record e { transport_event = event } ∷ rest)
      else later

-- `a || b`, on receipts.
abbrev pub or_else : Option ℕ → Option ℕ → Option ℕ
or_else none b = b
or_else (some a) b = if a == 0 then b else some a

-- `value_of` is a piece of evidence as the object whose text is taken when it has no receipt.
module _ {Event Processing Snapshot Drawing : Type 0}
    (adapter : Adapter Event Processing Snapshot Drawing) (value_of : Evidence Event → Value) where
  -- A bundle also has the receipt of its log, which is looked up before its own.
  unfoldable pub evidence_receipt_of : Evidence Event → Option ℕ
  evidence_receipt_of no_evidence = none
  evidence_receipt_of (event_evidence e) =
      or_else (adapter.event_receipt e) (some (receipt_of (value_of (event_evidence e))))
  evidence_receipt_of (log_evidence l) =
      or_else l.transport_log_receipt (some (receipt_of (value_of (log_evidence l))))
  evidence_receipt_of (bundle_evidence b) =
      or_else b.bundle_log_receipt
        (or_else b.compaction_receipt (some (receipt_of (value_of (bundle_evidence b)))))

  unfoldable pub create_repair_payload : RepairRequest → Evidence Event → Text → Payload Event
  create_repair_payload request e from =
      let payload : Payload Event = record {
        supplier = text_or from (codes "peer.fixture.repair");
        supplier_authority = false;
        payload_authority = false;
        payload_admission = false;
        payload_target_receipt = request.request_target;
        payload_kind = text_or request.request_kind (codes "unknown");
        payload_request_receipt = or_null request.repair_request_receipt;
        evidence = e;
        evidence_receipt = evidence_receipt_of e;
        repair_payload_receipt = none;
      } in
      record payload { repair_payload_receipt = some (payload_receipt_of payload) }

-- `evidence_receipt === target_receipt`.
abbrev pub meets_target : {Event : Type 0} → Payload Event → Bool
meets_target p = opt_eq p.evidence_receipt p.payload_target_receipt

module _ {Event Processing Snapshot Drawing : Type 0}
    (adapter : Adapter Event Processing Snapshot Drawing) where
  -- The receipts are compared by `!==`, so an event without the property differs from every entry,
  -- also from one with the receipt null; an entry has the property.
  unfoldable pub entry_issues : ℕ → List (Entry Event) → List Issue
  entry_issues index [] = []
  entry_issues index (e ∷ rest) = elim e.transport_event [
    | none ↦
        make_issue e.transport_event_receipt event_kind (codes "missing-event") (some index)
        ∷ entry_issues (index + 1) rest
    | some event ↦
        (if adapter.names_receipt event
            && opt_eq (adapter.event_receipt event) e.transport_event_receipt
          then []
          else make_issue e.transport_event_receipt event_kind (codes "corrupt-event") (some index)
            ∷ [])
        ++ entry_issues (index + 1) rest
  ]

  -- One `try`: the error of a check as an issue.
  abbrev pub issue_of : {A : Type 0} → Option ℕ → Text → Throws A → List Issue
  issue_of target kind (ok _) = []
  issue_of target kind (throw e) = make_issue (or_null target) kind (message e) none ∷ []

  unfoldable pub bundle_issues : Option Bundle → ReplayLog Event → List Issue
  bundle_issues none log = []
  bundle_issues (some b) log =
      issue_of b.compaction_receipt bundle_kind (verify_compaction adapter b (some log))

  unfoldable pub issues_of : ReplayLog Event → Option Bundle → List Issue
  issues_of log bundle =
      entry_issues 0 log.entries
      ++ (issue_of log.transport_log_receipt chain_kind (verify_replay_log adapter log)
          ++ bundle_issues bundle log)

  unfoldable pub detect_issues : ReplayLog Event → Option Bundle → Report
  detect_issues log bundle =
      let found = issues_of log bundle in
      record {
        issue_count = length found;
        issues = found;
        detection_receipt = some (
            receipt_of (
              obj (
                field (codes "issues") (arr (opt_items (map (λ i. i.repair_issue_receipt) found)))
                  (bool_field "authority" false end))));
      }

  unfoldable pub verify_kind : Payload Event → Throws (Unit {0})
  verify_kind p =
      if text_eq p.payload_kind event_kind
      then require (meets_target p) payload_target
      else if text_eq p.payload_kind chain_kind
      then (verify_replay_log adapter (log_in p.evidence) >>= λ _.
          require (meets_target p) payload_target)
      else if text_eq p.payload_kind bundle_kind
      then require (meets_target p) payload_target
      else ok tt

  unfoldable pub verify_payload : Payload Event → Throws (Payload Event)
  verify_payload p = do
    require (opt_eq p.repair_payload_receipt (some (payload_receipt_of p))) payload_receipt_differs
    verify_kind p
    ok p

  unfoldable pub repair_event : ReplayLog Event → Payload Event → Throws (ReplayLog Event)
  repair_event log p = elim (put_event p.payload_target_receipt (event_in p.evidence) log.entries) [
    | none ↦ throw (target_not_found p.payload_target_receipt)
    | some entries ↦ verify_replay_log adapter (record log { entries = entries })
  ]

  unfoldable pub apply_payload : ReplayLog Event → Payload Event → Throws (Evidence Event)
  apply_payload log payload = do
    p ← verify_payload payload
    if text_eq p.payload_kind event_kind
        then (repair_event log p >>= λ repaired. ok (log_evidence repaired))
        else if text_eq p.payload_kind chain_kind
        then ok p.evidence
        else if text_eq p.payload_kind bundle_kind
        then ok p.evidence
        else throw (unsupported_target p.payload_kind)
