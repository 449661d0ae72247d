-- ===== src/Transport/Schedule.antt =====
-- workbench/src/autonomous_world_transport_request_scheduler.js: the order in which the needs of
-- an availability report are requested, and the repair behind it.
use omi_imo.Prelude.{
  ℕ, ◌+◌, ltb, Bool, true, false, Option, none, some, List, [], ◌∷◌, ◌++◌, map, Text, codes,
  text_eq, filter, take, ◌==◌, if◌then◌else◌,
}
use omi_imo.Prelude.Sorting.{sort}
use omi_imo.Identity.Json.{
  Value, arr, obj, end, field, bool_field, nat_field, text_field, opt_field, text_items, decimal,
  opt_items,
}
use omi_imo.Identity.Fnv.{receipt_of}
use omi_imo.Identity.Values.{value_items}
use omi_imo.Transport.Adapter.{or_null}
use omi_imo.Transport.Log.{text_or}
use omi_imo.Transport.Availability.{
  Candidate, Classified, Status, available, missing, corrupt, repairable, AvailabilityReport,
  is_empty,
}

-- A policy as it is given, and as `normalizePolicy` completes it.
pub record PolicyInput : Type 0 where
  pub given_id : Text
  pub given_name : Text
  pub given_order : Option (List Text)
  pub given_supplier_order : Text
  pub given_max : Option ℕ
  pub given_retry : Option ℕ

pub record Policy : Type 0 where
  pub policy_id : Text
  pub status_order : List Text
  pub supplier_order : Text
  pub max_requests : Option ℕ
  pub retry_limit : ℕ

abbrev pub status_name : Status → Text
status_name available = codes "available"
status_name missing = codes "missing"
status_name corrupt = codes "corrupt"
status_name repairable = codes "repairable"

abbrev pub default_order : List Text
default_order = codes "corrupt" ∷ codes "missing" ∷ codes "repairable" ∷ []

unfoldable pub normalize_policy : PolicyInput → Policy
normalize_policy p = record {
  policy_id = text_or p.given_id (text_or p.given_name (codes "deterministic.fixture"));
  status_order = elim p.given_order [ none ↦ default_order | some l ↦ l ];
  supplier_order = text_or p.given_supplier_order (codes "peer-id");
  max_requests = p.given_max;
  retry_limit = elim p.given_retry [ none ↦ 0 | some n ↦ n ];
}

-- `order.indexOf(status)`, and the length where it is -1.
unfoldable pub index_or_length : Text → List Text → ℕ
index_or_length t [] = 0
index_or_length t (x ∷ xs) = let rest = index_or_length t xs in if text_eq x t then 0 else rest + 1

unfoldable pub priority_for : Status → Policy → ℕ
priority_for s policy = index_or_length (status_name s) policy.status_order

-- `String(receipt || "")`
abbrev pub receipt_text : Option ℕ → Text
receipt_text none = []
receipt_text (some n) = if n == 0 then [] else decimal n

pub record Need : Type 0 where
  pub need_status : Status
  pub need_record : Classified

pub record Request : Type 0 where
  pub request_target : ℕ
  pub request_kind : Text
  pub request_reason : Status
  pub request_suppliers : List Candidate
  pub priority : ℕ
  pub request_order : ℕ
  pub request_retry : ℕ
  pub request_receipt : ℕ

pub record RequestSchedule : Type 0 where
  pub source_availability_receipt : Option ℕ
  pub policy : Policy
  pub requests : List Request
  pub unsatisfied : List Request
  pub schedule_receipt : ℕ

abbrev pub needs_of : Status → List Classified → List Need
needs_of s = map (λ c. record { need_status = s; need_record = c })

unfoldable pub all_needs : AvailabilityReport → List Need
all_needs a =
    needs_of corrupt a.corrupt_records
    ++ (needs_of missing a.missing_records ++ needs_of repairable a.repairable_records)

abbrev pub supplier_value : Candidate → Value
supplier_value c = obj (
    text_field "peer_id" c.candidate_peer (
      opt_field "package_receipt" (or_null c.candidate_package) (
        opt_field "supplier_receipt" (or_null (some c.candidate_receipt))
          (bool_field "authority" false end))))

unfoldable pub request_receipt_of : Request → ℕ
request_receipt_of r = receipt_of (
    obj (
      nat_field "target_receipt" r.request_target (
        text_field "target_kind" r.request_kind (
          text_field "reason" (status_name r.request_reason) (
            field (codes "suppliers") (arr (value_items (map supplier_value r.request_suppliers))) (
              nat_field "priority" r.priority (
                nat_field "order" r.request_order (
                  nat_field "retry_limit" r.request_retry (
                    bool_field "authority" false
                      (bool_field "admission" false (bool_field "dispatch" false end)))))))))))

abbrev pub request_value : Request → Value
request_value r = obj (
    nat_field "target_receipt" r.request_target (
      text_field "target_kind" r.request_kind (
        text_field "reason" (status_name r.request_reason) (
          field (codes "supplier_receipts")
            (arr (opt_items (map (λ c. or_null (some c.candidate_receipt)) r.request_suppliers)))
            (nat_field "priority" r.priority (
              nat_field "order" r.request_order
                (nat_field "request_receipt" r.request_receipt end)))))))

abbrev pub policy_value : Policy → Value
policy_value p = obj (
    text_field "policy_id" p.policy_id (
      field (codes "order") (arr (text_items p.status_order)) (
        text_field "supplier_order" p.supplier_order (
          opt_field "max_requests" p.max_requests
            (nat_field "retry_limit" p.retry_limit (bool_field "authority" false end))))))

unfoldable pub seal_schedule : Option ℕ → Policy → List Request → RequestSchedule
seal_schedule source policy requests =
    let unsatisfied = filter (λ r. is_empty r.request_suppliers) requests in
    record {
      source_availability_receipt = source;
      policy = policy;
      requests = requests;
      unsatisfied = unsatisfied;
      schedule_receipt = receipt_of (
          obj (
            opt_field "source_availability_receipt" source (
              field (codes "policy") (policy_value policy) (
                field (codes "requests") (arr (value_items (map request_value requests))) (
                  field (codes "unsatisfied")
                    (arr (opt_items (map (λ r. some r.request_receipt) unsatisfied)))
                    (bool_field "authority" false
                      (bool_field "admission" false (bool_field "dispatch" false end))))))));
    }

-- `slice(0, max)`
abbrev pub limit : {A : Type 0} → Option ℕ → List A → List A
limit none l = l
limit (some n) l = take n l

-- `collate a b` is `a.localeCompare(b) <= 0`.
module _ (collate : Text → Text → Bool) where
  -- The comparison of `supplierSort`.
  unfoldable pub supplier_le : Policy → Candidate → Candidate → Bool
  supplier_le policy a b =
      let by_package = receipt_text a.candidate_package in
      let by_package' = receipt_text b.candidate_package in
      let by_peer = collate a.candidate_peer b.candidate_peer in
      if text_eq policy.supplier_order (codes "supplier-receipt")
      then collate (receipt_text (some a.candidate_receipt))
          (receipt_text (some b.candidate_receipt))
      else if text_eq policy.supplier_order (codes "package-receipt")
      then (if collate by_package by_package'
          then (if collate by_package' by_package then by_peer else true)
          else false)
      else by_peer

  unfoldable pub make_request : Policy → ℕ → Need → Request
  make_request policy index need =
      let request : Request = record {
        request_target = need.need_record.receipt;
        request_kind = text_or need.need_record.classified_kind (codes "transport-event");
        request_reason = need.need_status;
        request_suppliers = sort (supplier_le policy) need.need_record.candidate_suppliers;
        priority = priority_for need.need_status policy;
        request_order = index;
        request_retry = policy.retry_limit;
        request_receipt = 0;
      } in
      record request { request_receipt = request_receipt_of request }

  unfoldable pub make_requests : Policy → ℕ → List Need → List Request
  make_requests policy index [] = []
  make_requests policy index (n ∷ rest) =
      make_request policy index n ∷ make_requests policy (index + 1) rest

  -- The comparison of the needs: by priority, then by the text of the receipt.
  unfoldable pub need_le : Policy → Need → Need → Bool
  need_le policy a b =
      let p = priority_for a.need_status policy in
      let q = priority_for b.need_status policy in
      if p == q
      then collate (decimal a.need_record.receipt) (decimal b.need_record.receipt)
      else ltb p q

  unfoldable pub create_request_schedule : AvailabilityReport → PolicyInput → RequestSchedule
  create_request_schedule report input =
      let policy = normalize_policy input in
      let needs = sort (need_le policy) (all_needs report) in
      seal_schedule (or_null report.availability_receipt) policy
        (make_requests policy 0 (limit policy.max_requests needs))
