-- ===== src/Transport/ScheduledRepair.antt =====
-- workbench/src/autonomous_world_transport_request_scheduler.js: the repair plan of a schedule, and
-- its execution.
use omi_imo.Prelude.{
  ℕ, false, Option, none, some, List, ◌++◌, map, Text, codes, throw, defined_values,
}
use omi_imo.Identity.Json.{
  Value, arr, obj, end, field, bool_field, nat_field, text_field, opt_field, opt_items,
}
use omi_imo.Identity.Fnv.{receipt_of}
use omi_imo.Identity.Values.{value_items}
use omi_imo.Transport.Adapter.{Adapter, Throws, adapter_error, or_null, opt_text}
use omi_imo.Prelude.{text_le}
use omi_imo.Prelude.Sorting.{sort}
use omi_imo.Transport.Log.{ReplayLog}
use omi_imo.Transport.Checkpoint.{Checkpoint}
use omi_imo.Transport.Compaction.{Bundle}
use omi_imo.Transport.Repair.{Payload, RepairRequest, Repaired, create_repair_request}
use omi_imo.Transport.RepairRun.{repair_and_replay}
use omi_imo.Transport.Availability.{Candidate}
use omi_imo.Transport.RepairPlan.{known_kind, payload_for, payload_receipt}
use omi_imo.Transport.Schedule.{Request, RequestSchedule, status_name}

pub record ScheduledAction (Event : Type 0) : Type 0 where
  pub scheduled_request_receipt : ℕ
  pub scheduled_target : ℕ
  pub scheduled_kind : Text
  pub scheduled_request : RepairRequest
  pub scheduled_suppliers : List Candidate
  pub scheduled_payload : Option (Payload Event)

pub record ScheduledPlan (Event : Type 0) : Type 0 where
  pub plan_schedule_receipt : Option ℕ
  pub scheduled_actions : List (ScheduledAction Event)
  pub scheduled_repair_plan_receipt : ℕ

-- The receipts of the candidates, in the order of the default `sort()`: null is compared as "null".
abbrev pub sorted_receipts : List Candidate → List (Option ℕ)
sorted_receipts l =
    sort (λ a b. text_le (opt_text a) (opt_text b))
      (map (λ c. or_null (some c.candidate_receipt)) l)

module _ {Event : Type 0} where
  unfoldable pub scheduled_action : List (Payload Event) → Request → ScheduledAction Event
  scheduled_action payloads r =
      let request =
        create_repair_request (some r.request_target) (known_kind r.request_kind)
          (codes "scheduled-" ++ status_name r.request_reason) none in
      record {
        scheduled_request_receipt = r.request_receipt;
        scheduled_target = r.request_target;
        scheduled_kind = request.request_kind;
        scheduled_request = request;
        scheduled_suppliers = r.request_suppliers;
        scheduled_payload = payload_for r.request_target payloads;
      }

  abbrev pub scheduled_value : ScheduledAction Event → Value
  scheduled_value a = obj (
      nat_field "request_receipt" a.scheduled_request_receipt (
        nat_field "target_receipt" a.scheduled_target (
          text_field "target_kind" a.scheduled_kind (
            opt_field "repair_request_receipt" a.scheduled_request.repair_request_receipt (
              opt_field "repair_payload_receipt" (payload_receipt a.scheduled_payload) (
                field (codes "supplier_receipts")
                  (arr (opt_items (sorted_receipts a.scheduled_suppliers))) end))))))

  unfoldable pub build_scheduled_repair_plan :
      RequestSchedule → List (Payload Event) → ScheduledPlan Event
  build_scheduled_repair_plan schedule payloads =
      let actions = map (scheduled_action payloads) schedule.requests in
      let receipt = or_null (some schedule.schedule_receipt) in
      record {
        plan_schedule_receipt = receipt;
        scheduled_actions = actions;
        scheduled_repair_plan_receipt = receipt_of (
            obj (
              opt_field "schedule_receipt" receipt (
                field (codes "actions") (arr (value_items (map scheduled_value actions))) (
                  bool_field "authority" false
                    (bool_field "admission" false (bool_field "dispatch" false end))))));
      }

module _ {Event Processing Snapshot Drawing : Type 0}
    (adapter : Adapter Event Processing Snapshot Drawing) where
  unfoldable pub execute_scheduled_repair :
      ReplayLog Event → Checkpoint → Bundle → ScheduledPlan Event → Throws (Repaired Processing)
  execute_scheduled_repair log checkpoint bundle plan =
      repair_and_replay adapter log checkpoint bundle
        (defined_values (map (λ a. a.scheduled_payload) plan.scheduled_actions))

  pub open_scheduled_snapshot : Throws Snapshot
  open_scheduled_snapshot = throw (adapter_error (codes "schedule-not-admission"))
