-- ===== src/Transport/AvailabilityLaws.antt =====
-- What an availability report says of the required receipts.
use omi_imo.Prelude.{
  ℕ, ◌≡◌, refl, sym, ap, subst, Bool, true, false, Option, none, some, List, [], ◌∷◌, ◌++◌, map,
  Text, codes, text_le, text_eq, any, All, All-map, All-filter, filter, find, Bool-cases, inl, inr,
  if◌then◌else◌, arith,
}
use mathlib.Core.List.{Perm, perm_middle}
use mathlib.Core.List.Perm
use omi_imo.Prelude.Sorting.{sort, sort-perm}
use omi_imo.Identity.Json.{Value, decimal}
use omi_imo.Transport.Availability.{
  Candidate, Inventory, Status, available, missing, corrupt, repairable, Classified,
  AvailabilityReport, repaired_status, is_status, same_status, is_empty, is_key, evidence_kind,
  supplier_matches, classify, classify_evidence, create_availability_report,
}

receipts : List Classified → List ℕ
receipts = map (λ c. c.receipt)

-- The records of a report, list by list.
abbrev pub all_records : AvailabilityReport → List Classified
all_records r =
    r.available_records ++ (r.missing_records ++ (r.corrupt_records ++ r.repairable_records))

abbrev pub put_if : Status → Classified → List Classified → List Classified
put_if s c l = if is_status s c then c ∷ l else l

grow :
    (s : Status) (c : Classified) (a b d e : List Classified)
    → c.status ≡ s
    → Perm
        (put_if available c a
          ++ (put_if missing c b ++ (put_if corrupt c d ++ put_if repairable c e)))
        (c ∷ (a ++ (b ++ (d ++ e))))
grow available c a b d e h = rw h (Perm.refl _)
grow missing c a b d e h = rw h (perm_middle a _)
grow corrupt c a b d e h =
    rw h (Perm.trans (Perm.append_left a (perm_middle b _)) (perm_middle a _))
grow repairable c a b d e h = rw h (
    Perm.trans
      (Perm.append_left a (Perm.trans (Perm.append_left b (perm_middle d _)) (perm_middle b _)))
      (perm_middle a _))

split_status : List Classified → List Classified
split_status l =
    filter (is_status available) l
    ++ (filter (is_status missing) l
        ++ (filter (is_status corrupt) l ++ filter (is_status repairable) l))

split_status-perm : (l : List Classified) → Perm (split_status l) l
unfolding split_status filter
split_status-perm [] = Perm.refl []
split_status-perm (c ∷ rest) =
    Perm.trans (grow c.status c _ _ _ _ refl) (Perm.cons c (split_status-perm rest))

-- What the found status allows.
Agrees : Status → List Candidate → Type 0
Agrees s l =
    ((s ≡ missing) → is_empty l ≡ true)
    × ((s ≡ corrupt) → is_empty l ≡ true)
    × ((s ≡ repairable) → is_empty l ≡ false)

repaired_status-Agrees :
    (s : Status) (l : List Candidate) → (s ≡ repairable → ⊥) → Agrees (repaired_status s l) l
unfolding Agrees
repaired_status-Agrees available l n = (λ h. cc, λ h. cc, λ h. cc)
repaired_status-Agrees missing [] n = (λ h. refl, λ h. cc, λ h. cc)
repaired_status-Agrees missing (c ∷ l) n = (λ h. cc, λ h. cc, λ h. refl)
repaired_status-Agrees corrupt [] n = (λ h. cc, λ h. refl, λ h. cc)
repaired_status-Agrees corrupt (c ∷ l) n = (λ h. cc, λ h. cc, λ h. refl)
repaired_status-Agrees repairable l n = absurd (n refl)

-- A record whose candidates agree with its status.
pub IsNeed : Classified → Type 0
IsNeed c = Agrees c.status c.candidate_suppliers

same_status_sound : (s t : Status) → same_status s t ≡ true → s ≡ t
same_status_sound s t h = ground arith

module _ (collate : Text → Text → Bool) where
  receipts-classify :
      (inventory : Inventory) (keys : List Text) (l : List ℕ)
      → receipts (map (classify collate inventory keys) l) ≡ l
  unfolding receipts classify
  receipts-classify inventory keys [] = refl
  receipts-classify inventory keys (x ∷ xs) = ap (x ∷◌) (receipts-classify inventory keys xs)

  -- Every required receipt is in exactly one of the four lists of a report, as often as it is required.
  pub create_availability_report-perm :
      (inventory : Inventory) (needed corrupt_receipts : List ℕ)
      → Perm
          (map
            (λ c. c.receipt)
            (all_records (create_availability_report collate inventory needed corrupt_receipts)))
          needed
  unfolding create_availability_report split_status receipts
  create_availability_report-perm inventory needed corrupt_receipts =
      let keys = sort text_le (map decimal corrupt_receipts) in
      let required = sort (λ a b. collate (decimal a) (decimal b)) needed in
      let classified = map (classify collate inventory keys) required in
      Perm.trans (Perm.map (λ c. c.receipt) (split_status-perm classified)) (
        subst (λ l. Perm l needed) (sym (receipts-classify inventory keys required))
          (sort-perm (λ a b. collate (decimal a) (decimal b)) needed))

  found_of :
      (o : Option Value) (r : ℕ) (keys : List Text)
      → (elim o as (λ x. Text × Status) [
        | none ↦ (codes "unknown", missing)
        | some e ↦ (evidence_kind e, if any (text_eq (decimal r)) keys then corrupt else available)
      ]).1
        ≡ repairable
      → ⊥
  found_of none r keys h = cc
  found_of (some e) r keys h = elim (Bool-cases (any (text_eq (decimal r)) keys)) [
    | inl listed ↦
        (let k = subst (λ b. (if b then corrupt else available) ≡ repairable) listed h in cc)
    | inr unlisted ↦
        (let k = subst (λ b. (if b then corrupt else available) ≡ repairable) unlisted h in cc)
  ]

  classify_evidence-found :
      (r : ℕ) (inventory : Inventory) (keys : List Text)
      → (classify_evidence r inventory keys).1 ≡ repairable
      → ⊥
  unfolding classify_evidence
  classify_evidence-found r inventory keys h =
      found_of (find (is_key (decimal r)) inventory.evidence_items) r keys h

  classify-IsNeed :
      (inventory : Inventory) (keys : List Text) (r : ℕ)
      → IsNeed (classify collate inventory keys r)
  unfolding IsNeed classify
  classify-IsNeed inventory keys r =
      repaired_status-Agrees _ (supplier_matches collate (decimal r) inventory)
        (classify_evidence-found r inventory keys)

  -- The records that are missing or corrupt have no candidates, and those that are repairable have one.
  pub create_availability_report-agrees :
      (inventory : Inventory) (needed corrupt_receipts : List ℕ)
      → All
          (λ c. is_empty c.candidate_suppliers ≡ true)
          (create_availability_report collate inventory needed corrupt_receipts).missing_records
        × All
            (λ c. is_empty c.candidate_suppliers ≡ true)
            (create_availability_report collate inventory needed corrupt_receipts).corrupt_records
        × All
            (λ c. is_empty c.candidate_suppliers ≡ false)
            (create_availability_report collate inventory needed
              corrupt_receipts).repairable_records
  unfolding create_availability_report IsNeed Agrees
  create_availability_report-agrees inventory needed corrupt_receipts =
      let keys = sort text_le (map decimal corrupt_receipts) in
      let all =
        All-map IsNeed (classify collate inventory keys)
          (sort (λ a b. collate (decimal a) (decimal b)) needed) (classify-IsNeed inventory keys) in
      (
        All-filter _ IsNeed (is_status missing) _
            (λ c n h. n.0 (sym (same_status_sound missing c.status h))) all,
        All-filter _ IsNeed (is_status corrupt) _
            (λ c n h. n.1 (sym (same_status_sound corrupt c.status h))) all,
        All-filter _ IsNeed (is_status repairable) _
            (λ c n h. n.2 (sym (same_status_sound repairable c.status h))) all,
      )
