-- ===== src/World/Merge.antt =====
-- workbench/src/autonomous_world_merge_reconciliation.js: candidates of a merge, their rejection and
-- their admission.
use omi_imo.Prelude.{
  ℕ, zero, suc, Bool, Option, none, some, List, [], ◌∷◌, ◌++◌, map, Text, codes, join, length, ok,
  throw, ◌>>=◌, if◌then◌else◌, ◌==◌, String,
}
use omi_imo.Identity.Json.{Value, obj, arr, end, field, nat_field, text_field, opt_items, decimal}
use omi_imo.Identity.Fnv.{receipt_of}
use omi_imo.Transport.Adapter.{or_null}
use omi_imo.World.Package.{Fails}
use omi_imo.World.Conflicts.{WorldDocument, Conflict, admitted_overlays, classify_conflicts}

pub record WorldAdmission : Type 0 where
  pub identity : ℕ
  pub source : Text

-- A world as it is given, and one that has an admission and a report.
pub record GivenWorld (Contents : Type 0) : Type 0 where
  pub given_admission : Option WorldAdmission
  pub given_report : Option (Option ℕ)
  pub given_contents : Contents

pub record World (Contents : Type 0) : Type 0 where
  pub admission : WorldAdmission
  pub side_edge : Option ℕ
  pub given : GivenWorld Contents

pub record MergeCandidate : Type 0 where
  pub candidate_id : Text
  pub base_identity : ℕ
  pub left_identity : ℕ
  pub right_identity : ℕ
  pub lineage : ℕ
  pub left_edge : Option ℕ
  pub right_edge : Option ℕ
  pub conflicts : List Conflict
  pub conflict_receipts : List ℕ
  pub conflict_count : ℕ
  pub admissible : Bool
  pub merge_candidate_receipt : ℕ

pub record RejectReport : Type 0 where
  pub reject_reason : Text
  pub reject_base : ℕ
  pub reject_left : ℕ
  pub reject_right : ℕ
  pub rejected_candidate : ℕ
  pub rejected_conflicts : List ℕ
  pub reject_decision_receipt : ℕ

pub record Rejected : Type 0 where
  pub rejected : MergeCandidate
  pub reject_report : RejectReport

unfoldable pub normalize_snapshot :
    {Contents : Type 0} → GivenWorld Contents → Fails (World Contents)
normalize_snapshot w = elim w.given_admission [
  | none ↦ throw (codes "invalid-world-snapshot")
  | some a ↦ elim w.given_report [
    | none ↦ throw (codes "invalid-world-snapshot")
    | some r ↦ ok (record { admission = a; side_edge = r; given = w })
  ]
]

-- `safeId` of a number: its digits, and "merge" for zero.
unfoldable pub safe_id : ℕ → Text
safe_id zero = codes "merge"
safe_id (suc n) = decimal (suc n)

abbrev pub nat_list : List ℕ → Value
nat_list l = arr (opt_items (map some l))

unfoldable pub lineage_receipt : ℕ → ℕ → ℕ → ℕ
lineage_receipt base left right = receipt_of (
    obj (
      nat_field "base_identity_receipt" base
        (nat_field "left_identity_receipt" left (nat_field "right_identity_receipt" right end))))

unfoldable pub candidate_receipt_of : MergeCandidate → ℕ
candidate_receipt_of c = receipt_of (
    obj (
      text_field "candidate_id" c.candidate_id (
        nat_field "base_identity_receipt" c.base_identity (
          nat_field "left_identity_receipt" c.left_identity (
            nat_field "right_identity_receipt" c.right_identity
              (field (codes "conflict_receipts") (nat_list c.conflict_receipts) end))))))

abbrev pub text_else : Text → Text → Text
text_else [] other = other
text_else (c ∷ text) other = c ∷ text

unfoldable pub candidate_between :
    Text → ℕ → ℕ → ℕ → Option ℕ → Option ℕ → List Conflict → MergeCandidate
candidate_between given_id base left right left_edge right_edge conflicts =
    let candidate : MergeCandidate = record {
      candidate_id =
          text_else given_id
            (join (codes ".") (codes "merge" ∷ safe_id base ∷ safe_id left ∷ safe_id right ∷ []));
      base_identity = base;
      left_identity = left;
      right_identity = right;
      lineage = lineage_receipt base left right;
      left_edge = or_null left_edge;
      right_edge = or_null right_edge;
      conflicts = conflicts;
      conflict_receipts = map (λ c. c.conflict_receipt) conflicts;
      conflict_count = length conflicts;
      admissible = length conflicts == 0;
      merge_candidate_receipt = 0;
    } in
    record candidate { merge_candidate_receipt = candidate_receipt_of candidate }

unfoldable pub decision_receipt_of : RejectReport → ℕ
decision_receipt_of r = receipt_of (
    obj (
      text_field "decision" (codes "reject") (
        text_field "reason" r.reject_reason (
          nat_field "base_identity_receipt" r.reject_base (
            nat_field "left_identity_receipt" r.reject_left (
              nat_field "right_identity_receipt" r.reject_right (
                nat_field "merge_candidate_receipt" r.rejected_candidate
                  (field (codes "conflict_receipts") (nat_list r.rejected_conflicts) end))))))))

unfoldable pub reject_candidate : ℕ → ℕ → ℕ → MergeCandidate → Text → Rejected
reject_candidate base left right c why =
    let report : RejectReport = record {
      reject_reason = text_else why (codes "merge-not-admitted");
      reject_base = base;
      reject_left = left;
      reject_right = right;
      rejected_candidate = c.merge_candidate_receipt;
      rejected_conflicts = c.conflict_receipts;
      reject_decision_receipt = 0;
    } in
    record {
      rejected = c;
      reject_report = record report { reject_decision_receipt = decision_receipt_of report };
    }

line : String → Text → Text
line start rest = codes start ++ rest

abbrev pub receipts_text : List ℕ → Text
receipts_text [] = codes "none"
receipts_text (r ∷ rest) = join (codes ",") (map decimal (r ∷ rest))

unfoldable pub merge_declaration_block : MergeCandidate → Text
unfolding line
merge_declaration_block c = join (codes "\n") (
    []
    ∷ codes ";; ============================================================"
    ∷ codes ";; OMI PHASE 105 MERGE RECONCILIATION SNAPSHOT"
    ∷ line ";; Candidate: " c.candidate_id
    ∷ codes ";; Authority: admitted declaration + receipts, not merge proposal"
    ∷ codes ";; ============================================================"
    ∷ codes "((GS . admitted-merges)"
    ∷ line "  ((RS . " (c.candidate_id ++ codes ")")
    ∷ line "    ((US . base_identity_receipt) . " (decimal c.base_identity ++ codes ")")
    ∷ line "    ((US . left_identity_receipt) . " (decimal c.left_identity ++ codes ")")
    ∷ line "    ((US . right_identity_receipt) . " (decimal c.right_identity ++ codes ")")
    ∷ line "    ((US . lineage_receipt) . " (decimal c.lineage ++ codes ")")
    ∷ line "    ((US . merge_candidate_receipt) . " (decimal c.merge_candidate_receipt ++ codes ")")
    ∷ line "    ((US . conflict_count) . " (decimal c.conflict_count ++ codes ")")
    ∷ line "    ((US . conflict_receipts) . " (receipts_text c.conflict_receipts ++ codes ")))")
    ∷ [])

-- `open_document` is the document of `openWorld` in workbench/src/autonomous_world_browser.js;
-- `collate a b` is `a.localeCompare(b) <= 0`.
module _ {Contents : Type 0} (open_document : GivenWorld Contents → Fails WorldDocument)
    (collate : Text → Text → Bool) where
  -- The left world is opened first.
  unfoldable pub conflicts_between :
      World Contents → World Contents → World Contents → Fails (List Conflict)
  conflicts_between base left right = do
    left_document ← open_document left.given
    right_document ← open_document right.given
    ok (
        classify_conflicts collate base.admission.identity
          (admitted_overlays left.admission.identity left_document)
          (admitted_overlays right.admission.identity right_document))

  unfoldable pub create_merge_candidate :
      GivenWorld Contents → GivenWorld Contents → GivenWorld Contents → Text → Fails MergeCandidate
  create_merge_candidate base_given left_given right_given given_id = do
    base ← normalize_snapshot base_given
    left ← normalize_snapshot left_given
    right ← normalize_snapshot right_given
    conflicts ← conflicts_between base left right
    ok (
        candidate_between given_id base.admission.identity left.admission.identity
          right.admission.identity left.side_edge right.side_edge conflicts)

  -- A candidate that is given and has a receipt is taken as it is.
  unfoldable pub chosen_candidate :
      GivenWorld Contents
      → GivenWorld Contents
      → GivenWorld Contents
      → Option MergeCandidate
      → Fails MergeCandidate
  chosen_candidate base left right none = create_merge_candidate base left right []
  chosen_candidate base left right (some c) =
      let created = create_merge_candidate base left right c.candidate_id in
      if c.merge_candidate_receipt == 0 then created else ok c

  unfoldable pub reject_merge :
      GivenWorld Contents
      → GivenWorld Contents
      → GivenWorld Contents
      → Option MergeCandidate
      → Text
      → Fails Rejected
  reject_merge base_given left_given right_given candidate why = do
    base ← normalize_snapshot base_given
    left ← normalize_snapshot left_given
    right ← normalize_snapshot right_given
    c ← chosen_candidate base_given left_given right_given candidate
    ok (
        reject_candidate base.admission.identity left.admission.identity right.admission.identity c
          why)
