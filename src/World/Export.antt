-- ===== src/World/Export.antt =====
-- workbench/src/autonomous_world_package_sync.js: `exportSyncPackage`, which makes a package of a
-- history graph.
use omi_imo.Prelude.{
  ℕ, Bool, false, Option, none, some, List, [], ◌∷◌, ◌++◌, map, Text, codes, text_le, filter,
  length, ltb, ok, throw, ◌>>=◌, if◌then◌else◌, pos, String, defined_values,
}
use omi_imo.Prelude.Sorting.{sort}
use omi_imo.Identity.Json.{
  Value, null, bool, num, obj, arr, Fields, end, field, nat_field, text_field, bool_field,
  opt_field, opt_items, decimal,
}
use omi_imo.Identity.Fnv.{receipt_of}
use omi_imo.Identity.Values.{prop, or_value, truthy_value, same_value, value_items, text_value}
use omi_imo.Transport.Adapter.{sort_receipts}
use omi_imo.World.Package.{Fails, package_kind, package_receipt_of, or_object}
use omi_imo.World.Sync.{put, get_own, keys_of}
use omi_imo.World.Peers.{text_default}
use omi_imo.World.History.{HistoryEdge}

pub record ExportAdmission : Type 0 where
  pub export_authority : Option Value
  pub export_source : Option Value
  pub export_identity : Option Value
  pub export_admitted : Option Value
  pub original_world : Option Value
  pub base_world : Option Value
  pub left_world : Option Value
  pub right_world : Option Value
  pub decision_receipt : Option Value
  pub admission_receipt : Option Value

-- The parts of a document that a package keeps.
pub record DocumentHead : Type 0 where
  pub document_id : Option Value
  pub document_kind : Option Value
  pub document_counts : Value

-- A snapshot, with the document of its admission or the one that its source is parsed to.
pub record ExportSnapshot : Type 0 where
  pub export_admission : Option ExportAdmission
  pub export_document : DocumentHead
  pub export_report : Option Value

pub record ExportGraph : Type 0 where
  pub export_root : Option ℕ
  pub export_edges : List HistoryEdge
  pub export_snapshots : List (Text × ExportSnapshot)

-- The properties that are not `undefined`: the others are lost when the object is cloned.
unfoldable pub open_fields : List (String × Option Value) → Fields
open_fields [] = end
open_fields ((k, none) ∷ rest) = open_fields rest
open_fields ((k, some v) ∷ rest) = field (codes k) v (open_fields rest)

-- `value || null`
abbrev pub value_or_null : Option Value → Option Value
value_or_null v = or_value v (some null)

-- One part of `snapshotWitnesses`, by the report.
abbrev pub witness_from : String → Option Value → Option Value
witness_from part report = or_object (prop part (or_object report))

unfoldable pub admission_value : ExportAdmission → Value
admission_value a = obj (
    open_fields (
      ("authority", a.export_authority)
      ∷ ("source", a.export_source)
      ∷ ("identity_receipt", a.export_identity)
      ∷ ("admitted", a.export_admitted)
      ∷ ("original_world_identity_receipt", value_or_null a.original_world)
      ∷ ("base_identity_receipt", value_or_null a.base_world)
      ∷ ("left_identity_receipt", value_or_null a.left_world)
      ∷ ("right_identity_receipt", value_or_null a.right_world)
      ∷ (
        "admission_decision_receipt",
        or_value a.decision_receipt (value_or_null a.admission_receipt),
      )
      ∷ []))

unfoldable pub witnesses_value : Option Value → Value
witnesses_value report = obj (
    open_fields (
      ("package", witness_from "package" report)
      ∷ ("closure", witness_from "closure" report)
      ∷ ("raw_binary", witness_from "raw_binary" report)
      ∷ []))

unfoldable pub sync_snapshot : ExportAdmission → DocumentHead → Option Value → Value
sync_snapshot a d report = obj (
    open_fields (
      ("identity_receipt", a.export_identity)
      ∷ ("admission", some (admission_value a))
      ∷ (
        "document",
        some (
            obj (
              open_fields (
                ("id", d.document_id)
                ∷ ("kind", d.document_kind)
                ∷ ("counts", some d.document_counts)
                ∷ []))),
      )
      ∷ ("report", report)
      ∷ ("witnesses", some (witnesses_value report))
      ∷ ("authority", some (bool false))
      ∷ []))

-- `normalizeSnapshot`
unfoldable pub export_snapshot : Text → Option ExportSnapshot → Fails Value
export_snapshot id none = throw (codes "invalid-sync-snapshot:" ++ id)
export_snapshot id (some s) = elim s.export_admission [
  | none ↦ throw (codes "invalid-sync-snapshot:" ++ id)
  | some a ↦
      if truthy_value s.export_report
      then ok (sync_snapshot a s.export_document s.export_report)
      else throw (codes "invalid-sync-snapshot:" ++ id)
]

unfoldable pub export_all : List Text → List (Text × ExportSnapshot) → Fails (List Value)
export_all [] table = ok []
export_all (id ∷ rest) table = do
  here ← export_snapshot id (get_own id table)
  later ← export_all rest table
  ok (here ∷ later)

unfoldable pub edge_value : HistoryEdge → Value
edge_value e = obj (
    nat_field "from_identity_receipt" e.from_identity (
      nat_field "overlay_receipt" e.edge_overlay (
        nat_field "candidate_edit_receipt" e.edge_candidate (
          nat_field "admission_decision_receipt" e.edge_decision (
            nat_field "to_identity_receipt" e.to_identity (
              nat_field "history_edge_receipt" e.history_edge_receipt
                (bool_field "authority" false end)))))))

-- The targets of the edges, by the text of their start.
unfoldable pub by_from : List HistoryEdge → List (Text × List ℕ) → List (Text × List ℕ)
by_from [] table = table
by_from (e ∷ rest) table =
    let key = decimal e.from_identity in
    by_from rest
      (put key (elim (get_own key table) [ none ↦ [] | some l ↦ l ] ++ e.to_identity ∷ []) table)

abbrev targets_value : List ℕ → Value
targets_value l = arr (opt_items (map some (sort_receipts l)))

unfoldable pub branch_value : Text → List ℕ → Value
branch_value key targets = obj (
    text_field "base_identity_receipt" key (
      field (codes "branch_identity_receipts") (targets_value targets) (
        bool_field "authority" false (
          nat_field "branch_receipt"
            (receipt_of (
              obj (
                text_field "base_identity_receipt" key
                  (field (codes "branch_identity_receipts") (targets_value targets) end))))
            end))))

unfoldable pub branches_at : List Text → List (Text × List ℕ) → List Value
branches_at [] table = []
branches_at (key ∷ rest) table =
    let later = branches_at rest table in
    elim (get_own key table) [
      | none ↦ later
      | some targets ↦ if ltb 1 (length targets) then branch_value key targets ∷ later else later
    ]

unfoldable pub derive_branches : List HistoryEdge → List Value
derive_branches edges =
    let table = by_from edges [] in branches_at (sort text_le (keys_of table)) table

abbrev pub is_merge_report : Value → Bool
is_merge_report s =
    same_value (prop "kind" (prop "report" (some s)))
      (text_value (codes "autonomous-world-merge-reconciliation-report"))

unfoldable pub values_at : (Value → Option Value) → List Value → Value
values_at f l = arr (value_items (defined_values (map f l)))

unfoldable pub package_witnesses : List Value → Value
package_witnesses snapshots = obj (
    field (codes "package") (values_at (λ s. prop "package" (prop "witnesses" (some s))) snapshots)
      (field (codes "closure")
        (values_at (λ s. prop "closure" (prop "witnesses" (some s))) snapshots)
        (field (codes "raw_binary")
          (values_at (λ s. prop "raw_binary" (prop "witnesses" (some s))) snapshots) end)))

unfoldable pub package_fields_of :
    Option ℕ → List Value → List HistoryEdge → Text → Text → Value → Fields
package_fields_of root snapshots edges sender transport receipt = text_field "kind" package_kind (
    nat_field "version" 1 (
      field (codes "package_receipt") receipt (
        field (codes "source")
          (obj (
            bool_field "authority" false (
              text_field "sender" (text_default sender (codes "local.fixture"))
                (text_field "transport" (text_default transport (codes "package.fixture")) end))))
          (opt_field "root_identity_receipt" root (
            field (codes "snapshots") (arr (value_items snapshots)) (
              field (codes "history_edges") (arr (value_items (map edge_value edges))) (
                field (codes "branches") (arr (value_items (derive_branches edges))) (
                  field (codes "merge_reports")
                    (values_at (λ s. prop "report" (some s)) (filter is_merge_report snapshots))
                    (field (codes "witnesses") (package_witnesses snapshots) (
                      field (codes "admission")
                        (obj (
                          bool_field "verified" false
                            (text_field "local_authority" (codes "receipts-only") end)))
                        end))))))))))

-- `collate a b` is `a.localeCompare(b) <= 0`.
unfoldable pub export_sync_package : (Text → Text → Bool) → ExportGraph → Text → Text → Fails Value
export_sync_package collate g sender transport = do
  snapshots ← export_all (sort text_le (keys_of g.export_snapshots)) g.export_snapshots
  let edges =
      sort (λ a b. collate (decimal a.history_edge_receipt) (decimal b.history_edge_receipt))
        g.export_edges
  receipt ←
      package_receipt_of (package_fields_of g.export_root snapshots edges sender transport null)
  ok (obj (package_fields_of g.export_root snapshots edges sender transport (num (pos receipt))))
