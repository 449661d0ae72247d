-- ===== src/Transport/ScheduleLaws.antt =====
-- What a schedule requests, how often, in which order, and which of them can be met.
use omi_imo.Prelude.{
  ℕ, suc, ◌+◌, min, leb, ◌==◌, ◌≡◌, refl, sym, ap, ap₂, ◌∙◌, Bool, true, false, not, Option, none,
  some, List, [], ◌∷◌, Text, map, take-append-drop, drop, ◌++◌, append-nil, subst, All, All-append,
  All-map_of, All-take, length, length-map, length-take, arith,
}
use mathlib.Core.List.{Perm, map-append}
use mathlib.Core.List.Perm
use omi_imo.Prelude.Sorting.{
  sort, sort-perm, length-sort, All-sort, IsSorted, IsSorted-take, sort-IsSorted,
}
use omi_imo.Identity.Json.{decimal}
use omi_imo.Transport.Availability.{
  Inventory, Status, Classified, missing, corrupt, repairable, AvailabilityReport, same_status,
  is_empty, create_availability_report,
}
use omi_imo.Transport.AvailabilityLaws.{create_availability_report-agrees}
use omi_imo.Transport.Schedule.{
  PolicyInput, Policy, normalize_policy, Need, Request, needs_of, all_needs, limit, make_request,
  make_requests, need_le, priority_for, seal_schedule, create_request_schedule, supplier_le,
}

is_empty-length : {A : Type 0} (l : List A) → is_empty l ≡ (length l == 0)
is_empty-length [] = refl
is_empty-length (x ∷ xs) = ground arith

is_empty-sort : {A : Type 0} (le : A → A → Bool) (l : List A) → is_empty (sort le l) ≡ is_empty l
is_empty-sort le l =
    is_empty-length (sort le l) ∙ (ap (λ n. n == 0) (length-sort le l) ∙ sym (is_empty-length l))

-- As many as the needs, or the limit if that is less.
pub bounded : Option ℕ → ℕ → ℕ
bounded none total = total
bounded (some n) total = min n total

length-limit : {A : Type 0} (n : Option ℕ) (l : List A) → length (limit n l) ≡ bounded n (length l)
unfolding bounded
length-limit none l = refl
length-limit (some n) l = length-take n l

-- The receipts of a report that are not available, with their status.
pub reported : AvailabilityReport → List (ℕ × Status)
reported r =
    map (λ c. (c.receipt, corrupt)) r.corrupt_records
    ++ (map (λ c. (c.receipt, missing)) r.missing_records
        ++ map (λ c. (c.receipt, repairable)) r.repairable_records)

abbrev wanted : Need → ℕ × Status
wanted n = (n.need_record.receipt, n.need_status)

needs_of-wanted :
    (s : Status) (l : List Classified) → map wanted (needs_of s l) ≡ map (λ c. (c.receipt, s)) l
needs_of-wanted s [] = refl
needs_of-wanted s (c ∷ l) = ap ((c.receipt, s) ∷◌) (needs_of-wanted s l)

all_needs-reported : (r : AvailabilityReport) → map wanted (all_needs r) ≡ reported r
unfolding all_needs reported
all_needs-reported r =
    map-append wanted (needs_of corrupt r.corrupt_records) _
    ∙ ap₂ ◌++◌ (needs_of-wanted corrupt r.corrupt_records) (
        map-append wanted (needs_of missing r.missing_records) _
        ∙ ap₂ ◌++◌ (needs_of-wanted missing r.missing_records)
            (needs_of-wanted repairable r.repairable_records))

limit-rest : {A : Type 0} (n : Option ℕ) (l : List A) → (rest : List A) × (l ≡ limit n l ++ rest)
limit-rest none l = ([], sym (append-nil l))
limit-rest (some n) l = (drop n l, sym (take-append-drop n l))

-- What a request asks for, and why.
abbrev pub asked : Request → ℕ × Status
asked r = (r.request_target, r.request_reason)

module _ (collate : Text → Text → Bool) where
  length-make_requests :
      (policy : Policy) (i : ℕ) (l : List Need)
      → length (make_requests collate policy i l) ≡ length l
  unfolding make_requests
  length-make_requests policy i [] = refl
  length-make_requests policy i (n ∷ rest) = ap suc (length-make_requests policy (i + 1) rest)

  make_requests-asked :
      (policy : Policy) (i : ℕ) (l : List Need)
      → map asked (make_requests collate policy i l) ≡ map wanted l
  unfolding make_requests make_request
  make_requests-asked policy i [] = refl
  make_requests-asked policy i (n ∷ rest) =
      ap (wanted n ∷◌) (make_requests-asked policy (i + 1) rest)

  -- A schedule requests each receipt that the report has as corrupt, missing or repairable, once for
  -- each time and with that reason, except for some that are left over; and it has as many requests as
  -- the report has such receipts, or the maximum of the policy if that is less.
  pub create_request_schedule-perm :
      (report : AvailabilityReport) (input : PolicyInput)
      → (left_over : List (ℕ × Status)) × Perm
          (map asked (create_request_schedule collate report input).requests ++ left_over)
          (reported report)
        × (length (create_request_schedule collate report input).requests
            ≡ bounded input.given_max (length (reported report)))
  unfolding create_request_schedule seal_schedule normalize_policy
  create_request_schedule-perm report input =
      let policy = normalize_policy input in
      let needs = sort (need_le collate policy) (all_needs report) in
      let (left_over, whole) = limit-rest input.given_max needs in
      (
        map wanted left_over,
        subst (λ l. Perm l (reported report))
            (ap (map wanted) whole
              ∙ (map-append wanted (limit input.given_max needs) left_over
                  ∙ ap (λ l. l ++ map wanted left_over)
                      (sym (make_requests-asked policy 0 (limit input.given_max needs)))))
            (subst (Perm (map wanted needs)) (all_needs-reported report)
              (Perm.map wanted (sort-perm (need_le collate policy) (all_needs report)))),
        length-make_requests policy 0 _
            ∙ (length-limit input.given_max needs
                ∙ ap (bounded input.given_max) (
                    length-sort (need_le collate policy) (all_needs report)
                    ∙ (sym (length-map (all_needs report) wanted)
                        ∙ ap length (all_needs-reported report)))),
      )

  All-make_requests :
      (P : Need → Type 0) (Q : Request → Type 0) (policy : Policy) (i : ℕ) (l : List Need)
      → ((j : ℕ) (n : Need) → P n → Q (make_request collate policy j n))
      → All P l
      → All Q (make_requests collate policy i l)
  unfolding make_requests
  All-make_requests P Q policy i [] h p = tt
  All-make_requests P Q policy i (n ∷ rest) h (p, later) =
      (h i n p, All-make_requests P Q policy (i + 1) rest h later)

  All-limit : (P : Need → Type 0) (n : Option ℕ) (l : List Need) → All P l → All P (limit n l)
  All-limit P none l h = h
  All-limit P (some n) l h = All-take P n l h

  pub IsMet : Need → Type 0
  IsMet n = is_empty n.need_record.candidate_suppliers ≡ not (same_status n.need_status repairable)

  make_request-met :
      (policy : Policy) (i : ℕ) (n : Need)
      → IsMet n
      → is_empty (make_request collate policy i n).request_suppliers
        ≡ not (same_status (make_request collate policy i n).request_reason repairable)
  unfolding make_request IsMet
  make_request-met policy i n h = is_empty-sort (supplier_le collate policy) _ ∙ h

  -- In the schedule of a report, a request has a supplier exactly if its reason is that the receipt
  -- is repairable: the requests for missing and corrupt receipts are never met.
  pub create_request_schedule-unsatisfied :
      (inventory : Inventory) (needed corrupt_receipts : List ℕ) (input : PolicyInput)
      → All
          (λ r. is_empty r.request_suppliers ≡ not (same_status r.request_reason repairable))
          (create_request_schedule collate
            (create_availability_report collate inventory needed corrupt_receipts)
            input).requests
  unfolding create_request_schedule seal_schedule all_needs IsMet
  create_request_schedule-unsatisfied inventory needed corrupt_receipts input =
      let policy = normalize_policy input in
      let (m, c, r) = create_availability_report-agrees collate inventory needed corrupt_receipts in
      All-make_requests IsMet _ policy 0 _ (make_request-met policy) (
        All-limit IsMet policy.max_requests _ (
          All-sort (need_le collate policy) IsMet _ (
            All-append IsMet (needs_of corrupt _) _ (All-map_of IsMet _ _ _ (λ x h. h) c) (
              All-append IsMet (needs_of missing _) _ (All-map_of IsMet _ _ _ (λ x h. h) m)
                (All-map_of IsMet _ _ _ (λ x h. h) r)))))

  IsSorted-limit :
      (policy : Policy) (n : Option ℕ) (l : List Need)
      → IsSorted (need_le collate policy) l
      → IsSorted (need_le collate policy) (limit n l)
  IsSorted-limit policy none l s = s
  IsSorted-limit policy (some n) l s = IsSorted-take (need_le collate policy) n l s

  need_le-priority :
      (policy : Policy) (a b : Need)
      → need_le collate policy a b ≡ true
      → leb (priority_for a.need_status policy) (priority_for b.need_status policy) ≡ true
  unfolding need_le
  need_le-priority policy a b h = ground (arith, h)

  priority_kept :
      (policy : Policy) (i j : ℕ) (n m : Need)
      → need_le collate policy n m ≡ true
      → leb (make_request collate policy i n).priority (make_request collate policy j m).priority
        ≡ true
  unfolding make_request
  priority_kept policy i j n m h = need_le-priority policy n m h

  make_requests-IsSorted :
      (policy : Policy) (i : ℕ) (l : List Need)
      → IsSorted (need_le collate policy) l
      → IsSorted (λ a b. leb a.priority b.priority) (make_requests collate policy i l)
  unfolding make_requests
  make_requests-IsSorted policy i [] s = tt
  make_requests-IsSorted policy i (n ∷ rest) (first, later) = (
    All-make_requests (λ m. need_le collate policy n m ≡ true)
        (λ r. leb (make_request collate policy i n).priority r.priority ≡ true) policy (i + 1) rest
        (λ j m h. priority_kept policy i j n m h) first,
    make_requests-IsSorted policy (i + 1) rest later,
  )

  module _ (total : (a b : Text) → collate a b ≡ false → collate b a ≡ true)
      (trans : (a b c : Text) → collate a b ≡ true → collate b c ≡ true → collate a c ≡ true) where
    need_le_total :
        (policy : Policy) (a b : Need)
        → need_le collate policy a b ≡ false
        → need_le collate policy b a ≡ true
    unfolding need_le
    need_le_total policy a b h =
        ground (arith, h, total (decimal a.need_record.receipt) (decimal b.need_record.receipt))

    need_le_trans :
        (policy : Policy) (a b c : Need)
        → need_le collate policy a b ≡ true
        → need_le collate policy b c ≡ true
        → need_le collate policy a c ≡ true
    unfolding need_le
    need_le_trans policy a b c h k = ground (
      arith,
      h,
      k,
      trans (decimal a.need_record.receipt) (decimal b.need_record.receipt)
          (decimal c.need_record.receipt),
    )

    -- The requests of a schedule stand in the order of their priorities, when `collate` is a total order on texts.
    pub create_request_schedule-IsSorted :
        (report : AvailabilityReport) (input : PolicyInput)
        → IsSorted
            (λ a b. leb a.priority b.priority)
            (create_request_schedule collate report input).requests
    unfolding create_request_schedule seal_schedule
    create_request_schedule-IsSorted report input =
        let policy = normalize_policy input in
        make_requests-IsSorted policy 0 _ (
          IsSorted-limit policy policy.max_requests _ (
            sort-IsSorted (need_le collate policy) (need_le_total policy) (need_le_trans policy)
              (all_needs report)))
