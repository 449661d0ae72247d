-- ===== src/Transport/ScheduleExamples.antt =====
-- The theorems on availability and schedules at three required receipts: one available, one
-- missing, and one that a supplier can repair.
use omi_imo.Prelude.{◌++◌, ℕ, ◌≡◌, not, none, some, [], ◌∷◌, map, codes, text_le, All, length}
use mathlib.Core.List.{List, Perm}
use omi_imo.Identity.Json.{Value, obj, end, text_field, nat_field}
use omi_imo.Transport.Availability.{
  Inventory, Status, repairable, AvailabilityReport, same_status, is_empty,
  create_availability_report,
}
use omi_imo.Transport.AvailabilityLaws.{all_records, create_availability_report-perm}
use omi_imo.Transport.Schedule.{PolicyInput, RequestSchedule, create_request_schedule}
use omi_imo.Transport.ScheduleLaws.{
  bounded, reported, asked, create_request_schedule-perm, create_request_schedule-unsatisfied,
}

abbrev event : Value
event = obj (
    text_field "kind" (codes "omi.autonomous-world.transport-event")
      (nat_field "transport_event_receipt" 3 end))

abbrev inventory : Inventory
inventory = record {
  evidence_items = event ∷ [];
  suppliers =
      record {
        supplier_peer = some (codes "p");
        supplier_package = none;
        supplier_provides = codes "5" ∷ [];
        given_receipt = some 8;
      }
      ∷ [];
}

abbrev report : AvailabilityReport
report = create_availability_report text_le inventory (5 ∷ 3 ∷ 4 ∷ []) []

abbrev at_most_one : PolicyInput
at_most_one = record {
  given_id = [];
  given_name = [];
  given_order = none;
  given_supplier_order = [];
  given_max = some 1;
  given_retry = none;
}

abbrev schedule : RequestSchedule
schedule = create_request_schedule text_le report at_most_one

create_availability_report-perm_example :
    Perm (map (λ c. c.receipt) (all_records report)) (5 ∷ 3 ∷ 4 ∷ [])
create_availability_report-perm_example =
    create_availability_report-perm text_le inventory (5 ∷ 3 ∷ 4 ∷ []) []

create_request_schedule-perm_example :
    (left_over : List (ℕ × Status)) × Perm
      (map asked schedule.requests ++ left_over)
      (reported report)
    × (length schedule.requests ≡ bounded (some 1) (length (reported report)))
create_request_schedule-perm_example = create_request_schedule-perm text_le report at_most_one

create_request_schedule-unsatisfied_example :
    All
      (λ r. is_empty r.request_suppliers ≡ not (same_status r.request_reason repairable))
      schedule.requests
create_request_schedule-unsatisfied_example =
    create_request_schedule-unsatisfied text_le inventory (5 ∷ 3 ∷ 4 ∷ []) [] at_most_one
