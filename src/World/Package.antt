-- ===== src/World/Package.antt =====
-- workbench/src/autonomous_world_package_sync.js: what a receiver verifies of a package, which is
-- any JSON value that a peer sends. Errors are the texts that are thrown.
use omi_imo.Prelude.{
  ℕ, Bool, true, false, ◌&&◌, ◌||◌, Option, none, some, List, [], ◌∷◌, ◌++◌, map, Text, codes,
  text_eq, String, Result, ok, throw, ◌>>=◌, ◌>>◌, require, any, if◌then◌else◌,
}
use omi_imo.Identity.Json.{Value, null, bool, num, str, arr, obj, Fields, end}
use omi_imo.Identity.Fnv.{receipt_of}
use omi_imo.Identity.Values.{
  get_field, set_field, prop, read, truthy_value, or_value, same_value, to_text, opt_to_text,
  items_of, is_inherited, open_receipt, nat_value,
}

abbrev pub Fails : Type 0 → Type 0
Fails = Result Text

abbrev pub package_kind : Text
package_kind = codes "omi.autonomous-world.sync-package"

-- `requireValue`
unfoldable pub require_value : Option Value → String → Fails (Option Value)
require_value none name = throw (codes "missing-sync-field:" ++ codes name)
require_value (some null) name = throw (codes "missing-sync-field:" ++ codes name)
require_value (some (str [])) name = throw (codes "missing-sync-field:" ++ codes name)
require_value (some v) name = ok (some v)

unfoldable pub history_edge_receipt_of : Option Value → ℕ
history_edge_receipt_of edge = open_receipt (
    (codes "from_identity_receipt", prop "from_identity_receipt" edge)
    ∷ (codes "overlay_receipt", prop "overlay_receipt" edge)
    ∷ (codes "candidate_edit_receipt", prop "candidate_edit_receipt" edge)
    ∷ (codes "admission_decision_receipt", prop "admission_decision_receipt" edge)
    ∷ (codes "to_identity_receipt", prop "to_identity_receipt" edge)
    ∷ [])

-- `value || {}`
abbrev pub or_object : Option Value → Option Value
or_object v = or_value v (some (obj end))

-- `snapshotWitnesses`: the three parts of the report. `report || {}` is read without an error.
unfoldable pub witness_of : String → Option Value → Option Value
witness_of part snapshot = or_object (prop part (or_object (prop "report" snapshot)))

-- One part of `snapshot.witnesses || snapshotWitnesses(snapshot)`.
unfoldable pub witness_part : String → Option Value → Option Value
witness_part part snapshot =
    if truthy_value (prop "witnesses" snapshot)
    then prop part (prop "witnesses" snapshot)
    else witness_of part snapshot

unfoldable pub require_part : String → String → String → Option Value → Fails (Unit {0})
require_part part key name snapshot = do
  found ← read key (witness_part part snapshot)
  _ ← require_value found name
  ok tt

unfoldable pub require_witnesses : Option Value → Fails (Unit {0})
require_witnesses s = do
  require_part "package" "manifest_receipt" "package.manifest_receipt" s
  require_part "package" "imported_manifest_receipt" "package.imported_manifest_receipt" s
  require_part "closure" "character_identity_receipt" "closure.character_identity_receipt" s
  require_part "closure" "binary64_identity_receipt" "closure.binary64_identity_receipt" s
  require_part "raw_binary" "identity_receipt" "raw_binary.identity_receipt" s
  require_part "raw_binary" "index_receipt" "raw_binary.index_receipt" s

-- The body of the loop of `verifySnapshots`. Once `identity_receipt` has been read without an
-- error, so are the other properties of the snapshot.
unfoldable pub verify_snapshot : Option Value → Fails (Unit {0})
verify_snapshot s = do
  identity ← read "identity_receipt" s
  _ ← require_value identity "snapshot.identity_receipt"
  source ← read "source" (prop "admission" s)
  _ ← require_value source "snapshot.admission.source"
  _ ← require_value (prop "report" s) "snapshot.report"
  require_witnesses s
  require (same_value identity (prop "identity_receipt" (prop "admission" s)))
      (codes "snapshot-identity-mismatch")
  require (same_value (prop "authority" s) (some (bool false))) (codes "sync-snapshot-authority")

unfoldable pub verify_snapshots : List Value → Fails (Unit {0})
verify_snapshots [] = ok tt
verify_snapshots (s ∷ rest) = do verify_snapshot (some s); verify_snapshots rest

-- The keys of `snapshotIds`; the table is a plain object, so the inherited names are found too.
unfoldable pub snapshot_ids : List Value → List Text
snapshot_ids snapshots = map (λ s. opt_to_text (prop "identity_receipt" (some s))) snapshots

unfoldable pub knows_id : List Text → Text → Bool
knows_id ids id = any (text_eq id) ids || is_inherited id

unfoldable pub require_edge_field : String → String → Option Value → Fails (Unit {0})
require_edge_field key name edge = do found ← read key edge; _ ← require_value found name; ok tt

unfoldable pub verify_edge : List Text → Option Value → Fails (Unit {0})
verify_edge ids e = do
  require_edge_field "from_identity_receipt" "history.from_identity_receipt" e
  require_edge_field "overlay_receipt" "history.overlay_receipt" e
  require_edge_field "candidate_edit_receipt" "history.candidate_edit_receipt" e
  require_edge_field "admission_decision_receipt" "history.admission_decision_receipt" e
  require_edge_field "to_identity_receipt" "history.to_identity_receipt" e
  require_edge_field "history_edge_receipt" "history.history_edge_receipt" e
  require (same_value (nat_value (history_edge_receipt_of e)) (prop "history_edge_receipt" e))
      (codes "invalid-history-edge-receipt")
  require (knows_id ids (opt_to_text (prop "to_identity_receipt" e)))
      (codes "history-edge-missing-snapshot:" ++ opt_to_text (prop "to_identity_receipt" e))

unfoldable pub verify_edges : List Text → List Value → Fails (Unit {0})
verify_edges ids [] = ok tt
verify_edges ids (e ∷ rest) = do verify_edge ids (some e); verify_edges ids rest

-- The host's refusal to set a property on a value without properties.
no_property : String → Value → Text
no_property kind v =
    codes "Cannot create property 'verified' on "
    ++ (codes kind ++ (codes " '" ++ (to_text v ++ codes "'")))

-- `if (next.admission) next.admission.verified = false`
unfoldable pub unverified : Fields → Fails Fields
unfolding no_property
unverified fields =
    if truthy_value (get_field (codes "admission") fields)
    then elim (get_field (codes "admission") fields) [
      | some (obj inner) ↦ ok (
          set_field (codes "admission") (obj (set_field (codes "verified") (bool false) inner))
            fields)
      | some (bool b) ↦ throw (no_property "boolean" (bool b))
      | some (num n) ↦ throw (no_property "number" (num n))
      | some (str t) ↦ throw (no_property "string" (str t))
      | _ ↦ ok fields
    ]
    else ok fields

-- `packageReceipt` of a package that is an object.
unfoldable pub package_receipt_of : Fields → Fails ℕ
package_receipt_of fields = do
  canonical ← unverified (set_field (codes "package_receipt") null fields)
  ok (receipt_of (obj canonical))

-- The items of `pkg[key]`, if that is an array.
unfoldable pub array_of : Option Value → Option (List Value)
array_of (some (arr items)) = some (items_of items)
array_of _ = none

abbrev pub is_empty_list : {A : Type 0} → List A → Bool
is_empty_list [] = true
is_empty_list (x ∷ xs) = false

-- The snapshots and the edges of a package that passes `verifySyncPackage`.
pub record Checked : Type 0 where
  pub package_fields : Fields
  pub package_snapshots : List Value
  pub package_edges : List Value

unfoldable pub snapshots_of : Fields → Fails (List Value)
snapshots_of fields = elim (array_of (get_field (codes "snapshots") fields)) [
  | none ↦ throw (codes "missing-sync-snapshots")
  | some snapshots ↦
      if is_empty_list snapshots then throw (codes "missing-sync-snapshots") else ok snapshots
]

unfoldable pub edges_of : Fields → Fails (List Value)
edges_of fields = elim (array_of (get_field (codes "history_edges") fields)) [
  | none ↦ throw (codes "missing-sync-history-edges")
  | some edges ↦ ok edges
]

unfoldable pub verify_fields : Fields → Fails Checked
verify_fields fields = do
  require (same_value (get_field (codes "kind") fields) (some (str package_kind)))
      (codes "invalid-sync-package")
  receipt ← package_receipt_of fields
  require (same_value (get_field (codes "package_receipt") fields) (nat_value receipt))
      (codes "invalid-sync-package-receipt")
  require
      (truthy_value (get_field (codes "source") fields)
        && same_value (prop "authority" (get_field (codes "source") fields)) (some (bool false)))
      (codes "sync-source-authority")
  snapshots ← snapshots_of fields
  edges ← edges_of fields
  verify_snapshots snapshots
  verify_edges (snapshot_ids snapshots) edges
  ok (record { package_fields = fields; package_snapshots = snapshots; package_edges = edges })

-- `verifySyncPackage`. A value that is no plain object has no `kind`.
unfoldable pub verify_sync_package : Option Value → Fails Checked
verify_sync_package (some (obj fields)) = verify_fields fields
verify_sync_package _ = throw (codes "invalid-sync-package")
