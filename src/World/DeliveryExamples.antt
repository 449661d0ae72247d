-- ===== src/World/DeliveryExamples.antt =====
-- The delivery of a package, at a graph with one snapshot and one edge.
use omi_imo.Prelude.{◌≡◌, refl, none, some, [], ◌∷◌, codes, text_eq, text_le, any, ok, pos}
use omi_imo.Prelude.Sorting.{sort}
use omi_imo.Identity.Json.{
  Value, Fields, null, num, str, obj, end, field, nat_field, decimal, digits_of,
}
use omi_imo.Identity.Values.{prop, read, get_field, truthy_value, or_value}
use omi_imo.Transport.Unique.{has}
use omi_imo.World.Package.{
  Checked, require_witnesses, require_part, require_value, witness_part, witness_of, snapshot_ids,
  verify_sync_package,
}
use omi_imo.World.Sync.{keys_of}
use omi_imo.World.History.{seal_edge, edge_receipt_of}
use omi_imo.World.Export.{
  ExportAdmission, ExportSnapshot, ExportGraph, open_fields, witnesses_value, admission_value,
  sync_snapshot, export_sync_package,
}
use omi_imo.World.ExportLaws.{IsReady}
use omi_imo.World.Delivery.{IsExportable, export_sync_package-verify_sync_package}

abbrev admission : ExportAdmission
admission = record {
  export_authority = none;
  export_source = some (str (codes "s"));
  export_identity = some (num (pos 7));
  export_admitted = none;
  original_world = none;
  base_world = none;
  left_world = none;
  right_world = none;
  decision_receipt = none;
  admission_receipt = none;
}

abbrev report : Fields
report =
    field (codes "package")
      (obj (nat_field "manifest_receipt" 1 (nat_field "imported_manifest_receipt" 2 end)))
      (field (codes "closure")
        (obj
          (nat_field "character_identity_receipt" 3 (nat_field "binary64_identity_receipt" 4 end)))
        (field (codes "raw_binary")
          (obj (nat_field "identity_receipt" 5 (nat_field "index_receipt" 6 end))) end))

abbrev snapshot : ExportSnapshot
snapshot = record {
  export_admission = some admission;
  export_document = record { document_id = none; document_kind = none; document_counts = null };
  export_report = some (obj report);
}

abbrev graph : ExportGraph
graph = record {
  export_root = some 5;
  export_edges = seal_edge 5 1 2 3 7 ∷ [];
  export_snapshots = (codes "7", snapshot) ∷ [];
}

witnessed :
    require_witnesses
      (some (sync_snapshot admission snapshot.export_document snapshot.export_report))
    ≡ ok tt
unfolding require_witnesses require_part require_value witness_part witness_of sync_snapshot
    admission_value witnesses_value open_fields prop read get_field truthy_value or_value text_eq
witnessed = refl

ready : IsReady snapshot
ready = record {
  ready_admission = admission;
  ready_identity = 7;
  ready_source = codes "s";
  ready_report = report;
  has_admission = refl;
  has_identity = refl;
  has_source = refl;
  has_text = refl;
  has_report = refl;
  has_witnesses = witnessed;
}

exportable : IsExportable graph
unfolding ready decimal digits_of keys_of has any text_eq seal_edge edge_receipt_of
exportable = record {
  has_snapshot = refl;
  snapshots_ready = (record { ready = ready; key_agrees = refl }, tt);
  edges_carried = ((refl, refl), tt);
}

export_sync_package-verify_sync_package_example :
    (sent : Value) × (c : Checked) × (export_sync_package text_le graph [] [] ≡ ok sent)
    × (verify_sync_package (some sent) ≡ ok c)
    × (snapshot_ids c.package_snapshots ≡ sort text_le (keys_of graph.export_snapshots))
export_sync_package-verify_sync_package_example =
    export_sync_package-verify_sync_package text_le graph [] [] exportable
