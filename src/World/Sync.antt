-- ===== src/World/Sync.antt =====
-- `importSyncPackage`: the history graph that a verified package becomes. `Document` is what the
-- model parser (workbench/src/model_parser.js) makes of a source.
use omi_imo.Prelude.{
  defined_values, ℕ, true, Option, none, some, List, [], ◌∷◌, ◌++◌, map, Text, codes, text_eq,
  text_le, ok, throw, ◌>>=◌, if◌then◌else◌,
}
use omi_imo.Prelude.Sorting.{sort}
use omi_imo.Identity.Json.{Value, null, bool, arr, obj, Fields, end, text_items}
use omi_imo.Identity.Values.{
  value_items, set_field, prop, truthy_value, to_text, opt_to_text, open_receipt, is_inherited,
}
use omi_imo.World.Package.{Fails, Checked, verify_sync_package, or_object}

pub record WorldSnapshot (Document : Type 0) : Type 0 where
  pub admission : Fields
  pub snapshot_document : Document
  pub report : Option Value
  pub package_manifest : Option Value
  pub snapshot_raw_binary : Option Value
  pub snapshot_closure : Option Value

pub record Imported (Document : Type 0) : Type 0 where
  pub imported_package_receipt : Option Value
  pub root_identity : Option Value
  pub imported_edges : List Value
  pub imported_snapshots : List (Text × WorldSnapshot Document)
  pub imported_history_receipt : ℕ

-- `table[key] = value`
unfoldable pub put {ℓ} : {A : Type ℓ} → Text → A → List (Text × A) → List (Text × A)
put k v [] = (k, v) ∷ []
put k v ((j, w) ∷ rest) = if text_eq j k then (j, v) ∷ rest else (j, w) ∷ put k v rest

-- An own property of a table.
unfoldable pub get_own {ℓ} : {A : Type ℓ} → Text → List (Text × A) → Option A
get_own k [] = none
get_own k ((j, w) ∷ rest) = if text_eq j k then some w else get_own k rest

abbrev pub fields_of : Option Value → Fields
fields_of (some (obj fields)) = fields
fields_of _ = end

-- `Object.keys(table)`
unfoldable pub keys_of {ℓ} : {A : Type ℓ} → List (Text × A) → List Text
keys_of = map (λ p. p.0)

-- The receipts of the edges, in the order of `sort()`.
unfoldable pub edge_receipts : List Value → List Value
edge_receipts edges =
    sort (λ a b. text_le (to_text a) (to_text b))
      (defined_values (map (λ e. prop "history_edge_receipt" (some e)) edges))

module _ {Document : Type 0} (parse_document : Text → Document) where
  -- `parseDocument(source)` takes `String(source || "")`.
  unfoldable pub parse_source : Option Value → Document
  parse_source source = parse_document (if truthy_value source then opt_to_text source else [])

  -- `document` is kept beside the other properties of the admission.
  unfoldable pub world_snapshot : Value → WorldSnapshot Document
  world_snapshot s =
      let source = prop "source" (prop "admission" (some s)) in
      let report = prop "report" (some s) in
      record {
        admission =
            set_field (codes "admitted") (bool true) (fields_of (prop "admission" (some s)));
        snapshot_document = parse_source source;
        report = report;
        package_manifest =
            if truthy_value (prop "package" report)
            then prop "manifest_receipt" (prop "package" report)
            else some null;
        snapshot_raw_binary = or_object (prop "raw_binary" report);
        snapshot_closure = or_object (prop "closure" report);
      }

  unfoldable pub import_snapshots :
      List Value → List (Text × WorldSnapshot Document) → List (Text × WorldSnapshot Document)
  import_snapshots [] table = table
  import_snapshots (s ∷ rest) table =
      import_snapshots rest
        (put (opt_to_text (prop "identity_receipt" (some s))) (world_snapshot s) table)

  -- `parse_document` gives a document for every source.
  unfoldable pub import_checked : Checked → Imported Document
  import_checked c =
      let fields = some (obj c.package_fields) in
      let root = prop "root_identity_receipt" fields in
      let snapshots = import_snapshots c.package_snapshots [] in
      record {
        imported_package_receipt = prop "package_receipt" fields;
        root_identity = root;
        imported_edges = c.package_edges;
        imported_snapshots = snapshots;
        imported_history_receipt = open_receipt (
            (codes "root_identity_receipt", root)
            ∷ (codes "edges", some (arr (value_items (edge_receipts c.package_edges))))
            ∷ (codes "snapshots", some (arr (text_items (sort text_le (keys_of snapshots)))))
            ∷ []);
      }

  unfoldable pub import_sync_package : Option Value → Fails (Imported Document)
  import_sync_package pkg = verify_sync_package pkg >>= λ c. ok (import_checked c)

module _ {Document World Drawing : Type 0} (open_world : WorldSnapshot Document → Fails World)
    (render_plan : World → Fails Drawing) where
  -- `openImportedSnapshot`; a name that the table inherits is found, and is no world.
  unfoldable pub open_imported_snapshot : Imported Document → Text → Fails World
  open_imported_snapshot imported identity = elim (get_own identity imported.imported_snapshots) [
    | some s ↦ open_world s
    | none ↦
        if is_inherited identity
        then throw (codes "invalid-world-build")
        else throw (codes "unknown-imported-snapshot:" ++ identity)
  ]

  unfoldable pub render_imported_snapshot : Imported Document → Text → Fails Drawing
  render_imported_snapshot imported identity = do
    world ← open_imported_snapshot imported identity
    render_plan world
