-- ===== src/World/MergeLaws.antt =====
-- When a merge is admitted
-- (workbench/src/autonomous_world_merge_reconciliation.js).
use omi_imo.Prelude.{
  ℕ, ◌≡◌, ap, ◌∙◌, subst, Bool, true, false, ◌||◌, none, [], Text, All, length, ok, >>=-eq-ok,
  require-eq-ok, ok_inj, arith, ==_iff,
}
use omi_imo.Identity.Json.{Value}
use omi_imo.World.Package.{Fails}
use omi_imo.World.Conflicts.{WorldDocument, admitted_overlays}
use omi_imo.World.Merge.{
  GivenWorld, World, MergeCandidate, normalize_snapshot, candidate_between, conflicts_between,
  create_merge_candidate, chosen_candidate,
}
use omi_imo.World.MergeAdmission.{Artifacts, MergedWorld, admit_merge}
use omi_imo.World.Agreement.{AgreesWith, classify_conflicts-none}
use omi_imo.World.MergeReading.{declared, admitted_overlays-declared}

module _ {Contents : Type 0} (open_document : GivenWorld Contents → Fails WorldDocument)
    (collate : Text → Text → Bool) where
  -- Two worlds whose overlays agree.
  pub record IsReconciled (left_given right_given : GivenWorld Contents) : Type 0 where
    pub left : World Contents
    pub right : World Contents
    pub left_document : WorldDocument
    pub right_document : WorldDocument
    pub is_left : normalize_snapshot left_given ≡ ok left
    pub is_right : normalize_snapshot right_given ≡ ok right
    pub opens_left : open_document left.given ≡ ok left_document
    pub opens_right : open_document right.given ≡ ok right_document
    pub agree :
        All
          (AgreesWith (declared left.admission.identity left_document))
          (declared right.admission.identity right_document)

  create_merge_candidate-IsReconciled :
      (base left right : GivenWorld Contents) (id : Text) {c : MergeCandidate}
      → create_merge_candidate open_document collate base left right id ≡ ok c
      → c.admissible ≡ true
      → IsReconciled left right
  unfolding create_merge_candidate conflicts_between candidate_between
  create_merge_candidate-IsReconciled base_given left_given right_given id {c} h a =
      let (base, _, h1) = >>=-eq-ok (normalize_snapshot base_given) _ h in
      let (left, is_left, h2) = >>=-eq-ok (normalize_snapshot left_given) _ h1 in
      let (right, is_right, h3) = >>=-eq-ok (normalize_snapshot right_given) _ h2 in
      let (conflicts, found, h4) =
        >>=-eq-ok (conflicts_between open_document collate base left right) _ h3 in
      let (l, opens_left, f1) = >>=-eq-ok (open_document left.given) _ found in
      let (r, opens_right, f2) = >>=-eq-ok (open_document right.given) _ f1 in
      let none_left : length conflicts ≡ 0 =
        (==_iff (length conflicts) 0).0 (ap (λ c. c.admissible) (ok_inj h4) ∙ a) in
      record {
        left = left;
        right = right;
        left_document = l;
        right_document = r;
        is_left = is_left;
        is_right = is_right;
        opens_left = opens_left;
        opens_right = opens_right;
        agree =
            subst (λ overlays. All (AgreesWith (declared left.admission.identity l)) overlays)
              (admitted_overlays-declared right.admission.identity r)
              (subst
                (λ overlays.
                  All (AgreesWith overlays) (admitted_overlays right.admission.identity r))
                (admitted_overlays-declared left.admission.identity l)
                (classify_conflicts-none collate base.admission.identity _ _
                  (ap length (ok_inj f2) ∙ none_left)));
      }

  module _ {Document : Type 0} (parse_document : Text → Document)
      (counts_of graph_of : Document → Value)
      (build_artifacts : Text → Document → ℕ → Artifacts) where
    -- A merge that is admitted without a given candidate and without leave for conflicts reconciles the
    -- worlds: every overlay that the document of the right world declares as admitted has a path that no
    -- overlay of the left world has, or the receipt, body and kind of the last left overlay with
    -- its path.
    pub admit_merge-IsReconciled :
        (base left right : GivenWorld Contents) {m : MergedWorld Document}
        → admit_merge open_document collate parse_document counts_of graph_of build_artifacts base
            left right none false
          ≡ ok m
        → IsReconciled left right
    unfolding admit_merge chosen_candidate
    admit_merge-IsReconciled base_given left_given right_given h =
        let (_, _, h1) = >>=-eq-ok (normalize_snapshot base_given) _ h in
        let (_, _, h2) = >>=-eq-ok (normalize_snapshot left_given) _ h1 in
        let (_, _, h3) = >>=-eq-ok (normalize_snapshot right_given) _ h2 in
        let (c, made, h4) =
          >>=-eq-ok
            (create_merge_candidate open_document collate base_given left_given right_given []) _
            h3 in
        let (a, _) = require-eq-ok (c.admissible || false) _ _ h4 in
        create_merge_candidate-IsReconciled base_given left_given right_given [] made
          (ground (arith, a))
