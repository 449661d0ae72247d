-- ===== src/World/ExportLaws.antt =====
-- A package that is exported verifies where it arrives
-- (workbench/src/autonomous_world_package_sync.js).
use omi_imo.Prelude.{
  ℕ, ◌≡◌, refl, sym, ap, ◌∙◌, subst, Bool, true, false, not, all, and-true, arith, String, Option,
  none, some, List, [], ◌∷◌, ◌++◌, map, Text, codes, text_eq, All, >>=-ok, >>-ok, ok, throw,
  require, if◌then◌else◌, pos,
}
use omi_imo.Identity.Json.{Value, Fields, null, bool, num, str, obj, decimal, int_text}
use omi_imo.Identity.Fnv.{receipt_of}
use omi_imo.Identity.Values.{
  prop, read, get_field, set_field, same_value, truthy_value, opt_to_text, to_text, nat_value,
  open_receipt, stable_opt,
}
use omi_imo.Transport.Unique.{has}
use omi_imo.World.Package.{
  package_receipt_of, unverified, require_value, require_witnesses, verify_snapshot, verify_edge,
  verify_edges, require_edge_field, knows_id, history_edge_receipt_of, snapshots_of, edges_of,
  array_of, is_empty_list,
}
use omi_imo.World.History.{HistoryEdge, edge_receipt_of}
use omi_imo.World.HistoryInvariant.{IsSealedEdge}
use omi_imo.World.Verified.{items_of-value_items}
use omi_imo.World.Offering.{same_value-nat_refl}
use omi_imo.World.Export.{
  ExportAdmission, DocumentHead, ExportSnapshot, open_fields, admission_value, sync_snapshot,
  edge_value, package_fields_of,
}

module _ (root : Option ℕ) (snapshots : List Value) (edges : List HistoryEdge)
    (sender transport : Text) where
  pub package_receipt_of-fields :
      (v : Value)
      → package_receipt_of (package_fields_of root snapshots edges sender transport v)
        ≡ ok (receipt_of (obj (package_fields_of root snapshots edges sender transport null)))
  unfolding package_receipt_of package_fields_of set_field text_eq unverified get_field truthy_value
  package_receipt_of-fields v = refl

  pub snapshots_of-fields :
      (v : Value)
      → is_empty_list snapshots ≡ false
      → snapshots_of (package_fields_of root snapshots edges sender transport v) ≡ ok snapshots
  unfolding snapshots_of package_fields_of get_field text_eq array_of
  snapshots_of-fields v h =
      subst
        (λ l.
          (if is_empty_list l then throw (codes "missing-sync-snapshots") else ok l) ≡ ok snapshots)
        (sym (items_of-value_items snapshots)) (rw h refl)

  pub edges_of-fields :
      (v : Value)
      → edges_of (package_fields_of root snapshots edges sender transport v)
        ≡ ok (map edge_value edges)
  unfolding edges_of package_fields_of get_field text_eq array_of
  edges_of-fields v = ap ok (items_of-value_items (map edge_value edges))

-- An edge is sealed and leads to one of the snapshots.
abbrev pub IsCarried : List Text → HistoryEdge → Type 0
IsCarried ids e = IsSealedEdge e × (has (decimal e.to_identity) ids ≡ true)

edge_value-receipt :
    (e : HistoryEdge) → history_edge_receipt_of (some (edge_value e)) ≡ edge_receipt_of e
unfolding history_edge_receipt_of edge_receipt_of edge_value open_receipt stable_opt prop get_field
    text_eq receipt_of
edge_value-receipt e = refl

edge_value-sealed :
    (e : HistoryEdge)
    → IsSealedEdge e
    → same_value
        (nat_value (history_edge_receipt_of (some (edge_value e))))
        (nat_value e.history_edge_receipt)
      ≡ true
edge_value-sealed e h =
    subst (λ n. same_value (nat_value n) (nat_value e.history_edge_receipt) ≡ true)
      (h ∙ sym (edge_value-receipt e)) (same_value-nat_refl e.history_edge_receipt)

edge_value-known :
    (ids : List Text) (e : HistoryEdge)
    → has (decimal e.to_identity) ids ≡ true
    → knows_id ids (opt_to_text (nat_value e.to_identity)) ≡ true
unfolding knows_id opt_to_text to_text int_text has
edge_value-known ids e h = rw h refl

edge_value-verify_edge :
    (ids : List Text) (e : HistoryEdge)
    → IsCarried ids e
    → verify_edge ids (some (edge_value e)) ≡ ok tt
unfolding verify_edge require_edge_field edge_value read get_field text_eq require_value prop
edge_value-verify_edge ids e (sealed, there) =
    rw (edge_value-sealed e sealed, edge_value-known ids e there) refl

pub edge_values-verify_edges :
    (ids : List Text) (l : List HistoryEdge)
    → All (IsCarried ids) l
    → verify_edges ids (map edge_value l) ≡ ok tt
unfolding verify_edges
edge_values-verify_edges ids [] h = refl
edge_values-verify_edges ids (e ∷ rest) (here, later) =
    rw (edge_value-verify_edge ids e here, edge_values-verify_edges ids rest later) refl

-- A snapshot that a receiver can check: it has an identity, a source, a report and the witnesses.
pub record IsReady (s : ExportSnapshot) : Type 0 where
  pub ready_admission : ExportAdmission
  pub ready_identity : ℕ
  pub ready_source : Text
  pub ready_report : Fields
  pub has_admission : s.export_admission ≡ some ready_admission
  pub has_identity : ready_admission.export_identity ≡ nat_value ready_identity
  pub has_source : ready_admission.export_source ≡ some (str ready_source)
  pub has_text : is_empty_list ready_source ≡ false
  pub has_report : s.export_report ≡ some (obj ready_report)
  pub has_witnesses :
      require_witnesses (some (sync_snapshot ready_admission s.export_document s.export_report))
      ≡ ok tt

-- A property behind others with other names.
find_field :
    (k : Text) (xs : List (String × Option Value)) (j : String) {o : Option Value} (v : Value)
    (ys : List (String × Option Value))
    → all (λ p. not (text_eq (codes p.0) k)) xs ≡ true
    → text_eq (codes j) k ≡ true
    → o ≡ some v
    → get_field k (open_fields (xs ++ (j, o) ∷ ys)) ≡ some v
unfolding open_fields get_field all
find_field k [] j v ys other here there = rw there (rw here refl)
find_field k ((i, none) ∷ xs) j v ys other here there =
    find_field k xs j v ys (and-true _ _ other).1 here there
find_field k ((i, some w) ∷ xs) j v ys other here there =
    let apart : text_eq (codes i) k ≡ false = ground (arith, other) in
    rw apart (find_field k xs j v ys (and-true _ _ other).1 here there)

module _ (a : ExportAdmission) where
  admission_value-source :
      (v : Value) → a.export_source ≡ some v → prop "source" (some (admission_value a)) ≡ some v
  unfolding admission_value prop all text_eq
  admission_value-source v h = find_field (codes "source") (_ ∷ []) "source" v _ refl refl h

  admission_value-identity :
      (v : Value)
      → a.export_identity ≡ some v
      → prop "identity_receipt" (some (admission_value a)) ≡ some v
  unfolding admission_value prop all text_eq
  admission_value-identity v h =
      find_field (codes "identity_receipt") (_ ∷ _ ∷ []) "identity_receipt" v _ refl refl h

  module _ (d : DocumentHead) (report : Option Value) where
    pub sync_snapshot-identity :
        (v : Value)
        → a.export_identity ≡ some v
        → prop "identity_receipt" (some (sync_snapshot a d report)) ≡ some v
    unfolding sync_snapshot prop all text_eq
    sync_snapshot-identity v h =
        find_field (codes "identity_receipt") [] "identity_receipt" v _ refl refl h

    sync_snapshot-admission :
        prop "admission" (some (sync_snapshot a d report)) ≡ some (admission_value a)
    unfolding sync_snapshot prop all text_eq
    sync_snapshot-admission =
        find_field (codes "admission") (_ ∷ []) "admission" (admission_value a) _ refl refl refl

    sync_snapshot-report :
        (v : Value) → report ≡ some v → prop "report" (some (sync_snapshot a d report)) ≡ some v
    unfolding sync_snapshot prop all text_eq
    sync_snapshot-report v h = find_field (codes "report") (_ ∷ _ ∷ _ ∷ []) "report" v _ refl refl h

    sync_snapshot-authority : prop "authority" (some (sync_snapshot a d report)) ≡ some (bool false)
    unfolding sync_snapshot prop all text_eq
    sync_snapshot-authority =
        find_field (codes "authority") (_ ∷ _ ∷ _ ∷ _ ∷ _ ∷ []) "authority" (bool false) _ refl refl
          refl

require_value-text :
    (t : Text) (name : String)
    → is_empty_list t ≡ false
    → require_value (some (str t)) name ≡ ok (some (str t))
unfolding require_value
require_value-text [] name h = cc
require_value-text (c ∷ t) name h = refl

read-sync_snapshot :
    (key : String) (a : ExportAdmission) (d : DocumentHead) (report : Option Value)
    → read key (some (sync_snapshot a d report)) ≡ ok (prop key (some (sync_snapshot a d report)))
unfolding read prop sync_snapshot
read-sync_snapshot key a d report = refl

read-admission_value :
    (key : String) (a : ExportAdmission)
    → read key (some (admission_value a)) ≡ ok (prop key (some (admission_value a)))
unfolding read prop admission_value
read-admission_value key a = refl

pub require-ok : {E : Type 0} {test : Bool} (error : E) → test ≡ true → require test error ≡ ok tt
require-ok error h = rw h refl

pub sync_snapshot-verify_snapshot :
    (s : ExportSnapshot) (r : IsReady s)
    → verify_snapshot (some (sync_snapshot r.ready_admission s.export_document s.export_report))
      ≡ ok tt
unfolding verify_snapshot require_value
sync_snapshot-verify_snapshot s r =
    let a = r.ready_admission in
    let d = s.export_document in
    let report = s.export_report in
    let admission = sync_snapshot-admission a d report in
    let source =
      ap (read "source") admission
      ∙ (read-admission_value "source" a
          ∙ ap ok (admission_value-source a (str r.ready_source) r.has_source)) in
    let identity =
      ap (prop "identity_receipt") admission
      ∙ admission_value-identity a (num (pos r.ready_identity)) r.has_identity in
    let same =
      ap (same_value (nat_value r.ready_identity)) identity
      ∙ same_value-nat_refl r.ready_identity in
    >>=-ok _ (
      read-sync_snapshot "identity_receipt" a d report
      ∙ ap ok (sync_snapshot-identity a d report (num (pos r.ready_identity)) r.has_identity))
    ∙ (>>=-ok _ source
        ∙ (>>=-ok _ (require_value-text r.ready_source "snapshot.admission.source" r.has_text)
            ∙ (>>=-ok _ (
                  ap (λ v. require_value v "snapshot.report")
                    (sync_snapshot-report a d report (obj r.ready_report) r.has_report))
                ∙ (>>-ok _ r.has_witnesses
                    ∙ (>>-ok _ (require-ok _ same)
                        ∙ require-ok _ (
                            ap (λ v. same_value v (some (bool false)))
                              (sync_snapshot-authority a d report)
                            ∙ unfold same_value in refl))))))
