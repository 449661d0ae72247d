-- ===== src/Transport/RepairPlan.antt =====
-- workbench/src/autonomous_world_transport_availability.js: the plan that repairs what a report
-- calls repairable, and its execution.
use omi_imo.Prelude.{
  ℕ, false, Option, none, some, List, map, Text, codes, text_eq, throw, opt_eq, find,
  defined_values, if◌then◌else◌,
}
use omi_imo.Identity.Json.{
  Value, arr, obj, end, field, bool_field, nat_field, text_field, opt_field,
}
use omi_imo.Identity.Fnv.{receipt_of}
use omi_imo.Identity.Values.{value_items}
use omi_imo.Transport.Adapter.{Adapter, Throws, adapter_error, or_null, sort_receipts}
use omi_imo.Transport.Log.{ReplayLog}
use omi_imo.Transport.Checkpoint.{Checkpoint}
use omi_imo.Transport.Compaction.{Bundle}
use omi_imo.Transport.Repair.{Payload, RepairRequest, Repaired, event_kind, create_repair_request}
use omi_imo.Transport.RepairRun.{repair_and_replay}
use omi_imo.Transport.Availability.{Candidate, Classified, AvailabilityReport, nat_items}

pub record RepairAction (Event : Type 0) : Type 0 where
  pub action_target : ℕ
  pub action_kind : Text
  pub action_request : RepairRequest
  pub action_suppliers : List Candidate
  pub action_payload : Option (Payload Event)

pub record RepairPlan (Event : Type 0) : Type 0 where
  pub plan_availability_receipt : Option ℕ
  pub plan_actions : List (RepairAction Event)
  pub repair_plan_receipt : ℕ

-- `record.target_kind === "unknown" ? "transport-event" : record.target_kind`
abbrev pub known_kind : Text → Text
known_kind kind = if text_eq kind (codes "unknown") then event_kind else kind

module _ {Event : Type 0} where
  unfoldable pub payload_for : ℕ → List (Payload Event) → Option (Payload Event)
  payload_for target payloads = find (λ p. opt_eq p.payload_target_receipt (some target)) payloads

  abbrev pub payload_receipt : Option (Payload Event) → Option ℕ
  payload_receipt none = none
  payload_receipt (some p) = p.repair_payload_receipt

  unfoldable pub repair_action : List (Payload Event) → Classified → RepairAction Event
  repair_action payloads c =
      let request =
        create_repair_request (some c.receipt) (known_kind c.classified_kind)
          (codes "availability-repairable") none in
      record {
        action_target = c.receipt;
        action_kind = request.request_kind;
        action_request = request;
        action_suppliers = c.candidate_suppliers;
        action_payload = payload_for c.receipt payloads;
      }

  abbrev pub action_value : RepairAction Event → Value
  action_value a = obj (
      nat_field "target_receipt" a.action_target (
        text_field "target_kind" a.action_kind (
          opt_field "repair_request_receipt" a.action_request.repair_request_receipt (
            opt_field "repair_payload_receipt" (payload_receipt a.action_payload) (
              field (codes "suppliers")
                (nat_items (sort_receipts (map (λ c. c.candidate_receipt) a.action_suppliers)))
                end)))))

  unfoldable pub build_repair_plan : AvailabilityReport → List (Payload Event) → RepairPlan Event
  build_repair_plan report payloads =
      let actions = map (repair_action payloads) report.repairable_records in
      let receipt = or_null report.availability_receipt in
      record {
        plan_availability_receipt = receipt;
        plan_actions = actions;
        repair_plan_receipt = receipt_of (
            obj (
              opt_field "availability_receipt" receipt (
                field (codes "actions") (arr (value_items (map action_value actions)))
                  (bool_field "authority" false end))));
      }

module _ {Event Processing Snapshot Drawing : Type 0}
    (adapter : Adapter Event Processing Snapshot Drawing) where
  unfoldable pub execute_repair_plan :
      ReplayLog Event → Checkpoint → Bundle → RepairPlan Event → Throws (Repaired Processing)
  execute_repair_plan log checkpoint bundle plan =
      repair_and_replay adapter log checkpoint bundle
        (defined_values (map (λ a. a.action_payload) plan.plan_actions))

  pub open_availability_snapshot : Throws Snapshot
  open_availability_snapshot = throw (adapter_error (codes "availability-not-admission"))
