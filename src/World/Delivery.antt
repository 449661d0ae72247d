-- ===== src/World/Delivery.antt =====
-- From the history of a sender to the history of a receiver: what is exported is taken up
-- (workbench/src/autonomous_world_package_sync.js).
use omi_imo.Prelude.{
  ℕ, ◌≡◌, refl, sym, ap, ap₂, ◌∙◌, subst, Bool, true, false, ◌&&◌, Option, some, List, [], ◌∷◌,
  ◌++◌, map, Text, codes, text_eq, text_eq_refl, text_eq_sound, text_le, any, All, All-weaken,
  length, length-map, Bool-cases, inl, inr, >>=-ok, >>-ok, ok, throw, if◌then◌else◌, pos, arith,
}
use omi_imo.Prelude.Sorting.{sort, All-sort, length-sort}
use omi_imo.Identity.Json.{Value, Fields, null, bool, num, str, obj, decimal, int_text}
use omi_imo.Identity.Fnv.{receipt_of}
use omi_imo.Identity.Values.{
  prop, get_field, same_value, truthy_value, opt_to_text, to_text, nat_value,
}
use omi_imo.Transport.Unique.{has, has-sort, text_eq_sym}
use omi_imo.World.Package.{
  Checked, package_kind, verify_snapshots, snapshot_ids, verify_fields, verify_sync_package,
  is_empty_list,
}
use omi_imo.World.Sync.{get_own, keys_of}
use omi_imo.World.History.{HistoryEdge}
use omi_imo.World.Offering.{same_value-nat_refl}
use omi_imo.World.Export.{
  ExportSnapshot, ExportGraph, sync_snapshot, edge_value, package_fields_of, export_sync_package,
  export_all, export_snapshot,
}
use omi_imo.World.ExportLaws.{
  IsReady, IsCarried, package_receipt_of-fields, snapshots_of-fields, edges_of-fields,
  edge_values-verify_edges, sync_snapshot-verify_snapshot, sync_snapshot-identity, require-ok,
}

-- A snapshot that is ready, under the text of its identity.
pub record IsReadyAt (p : Text × ExportSnapshot) : Type 0 where
  pub ready : IsReady p.1
  pub key_agrees : p.0 ≡ decimal ready.ready_identity

behind : (k j : Text) (l : List Text) → text_eq j k ≡ false → has k (j ∷ l) ≡ true → has k l ≡ true
unfolding has any
behind k j l other h = let turned = text_eq_sym j k other in ground (arith, turned, h)

module _ {A : Type 0} where
  get_own-All :
      (P : Text × A → Type 0) (k : Text) (table : List (Text × A))
      → All P table
      → has k (keys_of table) ≡ true
      → (a : A) × (get_own k table ≡ some a) × P (k, a)
  unfolding has any keys_of get_own
  get_own-All P k [] a h = cc
  get_own-All P k ((j, v) ∷ rest) (here, later) h = elim (Bool-cases (text_eq j k)) [
    | inl same ↦ (v, rw same refl, subst (λ i. P (i, v)) (text_eq_sound j k same) here)
    | inr other ↦
        (let (a, found, p) = get_own-All P k rest later (behind k j _ other h) in
          (a, rw other found, p))
  ]

has-each : (l : List Text) → All (λ k. has k l ≡ true) l
unfolding has any
has-each [] = tt
has-each (x ∷ rest) = (
  rw (text_eq_refl x) refl,
  All-weaken (λ k. has k rest ≡ true) (λ k. has k (x ∷ rest) ≡ true) rest (λ k h. ground (arith, h))
      (has-each rest),
)

export_snapshot-ready :
    (k : Text) (s : ExportSnapshot) (r : IsReady s)
    → export_snapshot k (some s)
      ≡ ok (sync_snapshot r.ready_admission s.export_document s.export_report)
unfolding export_snapshot truthy_value
export_snapshot-ready k s r = rw r.has_admission (
    ap
      (λ b.
        if b
        then ok (sync_snapshot r.ready_admission s.export_document s.export_report)
        else throw (codes "invalid-sync-snapshot:" ++ k))
      (ap truthy_value r.has_report))

identity_text :
    (s : ExportSnapshot) (r : IsReady s)
    → opt_to_text (
        prop "identity_receipt"
          (some (sync_snapshot r.ready_admission s.export_document s.export_report)))
      ≡ decimal r.ready_identity
unfolding opt_to_text to_text int_text
identity_text s r = ap opt_to_text (
    sync_snapshot-identity r.ready_admission s.export_document s.export_report
      (num (pos r.ready_identity)) r.has_identity)

-- The exported snapshots verify, and have the identities of the keys.
export_all-ready :
    (table : List (Text × ExportSnapshot))
    → All IsReadyAt table
    → (ks : List Text) → All (λ k. has k (keys_of table) ≡ true) ks
    → (vs : List Value) × (export_all ks table ≡ ok vs)
      × (verify_snapshots vs ≡ ok tt)
      × (snapshot_ids vs ≡ ks)
unfolding export_all verify_snapshots snapshot_ids
export_all-ready table a [] h = ([], refl, refl, refl)
export_all-ready table a (k ∷ rest) (here, later) =
    let (s, found, at) = get_own-All IsReadyAt k table a here in
    let (vs, exported, verified, ids) = export_all-ready table a rest later in
    let v = sync_snapshot at.ready.ready_admission s.export_document s.export_report in
    (
      v ∷ vs,
      >>=-ok _ (ap (export_snapshot k) found ∙ export_snapshot-ready k s at.ready)
          ∙ >>=-ok _ exported,
      >>-ok _ (sync_snapshot-verify_snapshot s at.ready) ∙ verified,
      ap₂ ◌∷◌ (identity_text s at.ready ∙ sym at.key_agrees) ids,
    )

module _ (root : Option ℕ) (snapshots : List Value) (edges : List HistoryEdge)
    (sender transport : Text) where
  abbrev sealed : Fields
  sealed =
      package_fields_of root snapshots edges sender transport (
        num (pos (receipt_of (obj (package_fields_of root snapshots edges sender transport null)))))

  sealed-kind : same_value (get_field (codes "kind") sealed) (some (str package_kind)) ≡ true
  unfolding package_fields_of get_field text_eq same_value
  sealed-kind = refl

  sealed-receipt :
      same_value (get_field (codes "package_receipt") sealed) (
        nat_value (receipt_of (obj (package_fields_of root snapshots edges sender transport null))))
      ≡ true
  unfolding package_fields_of get_field text_eq
  sealed-receipt = same_value-nat_refl _

  sealed-source :
      (truthy_value (get_field (codes "source") sealed)
        && same_value (prop "authority" (get_field (codes "source") sealed)) (some (bool false)))
      ≡ true
  unfolding package_fields_of get_field text_eq same_value truthy_value prop
  sealed-source = refl

  sealed-verify_fields :
      is_empty_list snapshots ≡ false
      → verify_snapshots snapshots ≡ ok tt
      → All (IsCarried (snapshot_ids snapshots)) edges
      → verify_fields sealed
        ≡ ok (record {
          package_fields = sealed;
          package_snapshots = snapshots;
          package_edges = map edge_value edges;
        })
  unfolding verify_fields
  sealed-verify_fields some_snapshot verified carried =
      let v =
        num
          (pos (receipt_of (obj (package_fields_of root snapshots edges sender transport null)))) in
      >>-ok _ (require-ok _ sealed-kind)
      ∙ (>>=-ok _ (package_receipt_of-fields root snapshots edges sender transport v)
          ∙ (>>-ok _ (require-ok _ sealed-receipt)
              ∙ (>>-ok _ (require-ok _ sealed-source)
                  ∙ (>>=-ok _
                        (snapshots_of-fields root snapshots edges sender transport v some_snapshot)
                      ∙ (>>=-ok _ (edges_of-fields root snapshots edges sender transport v)
                          ∙ (>>-ok _ verified
                              ∙ >>-ok _ (
                                  edge_values-verify_edges (snapshot_ids snapshots) edges
                                    carried)))))))

is_empty_list-length :
    {A B : Type 0} (l : List A) (m : List B)
    → length l ≡ length m
    → is_empty_list l ≡ is_empty_list m
is_empty_list-length [] [] h = refl
is_empty_list-length [] (y ∷ ys) h = absurd (omega (arith, h))
is_empty_list-length (x ∷ xs) [] h = absurd (omega (arith, h))
is_empty_list-length (x ∷ xs) (y ∷ ys) h = refl

snapshot_ids-length :
    (ks : List Text) (vs : List Value) → snapshot_ids vs ≡ ks → length vs ≡ length ks
unfolding snapshot_ids
snapshot_ids-length ks vs h = sym (length-map vs _) ∙ ap length h

-- A graph that can be exported: there is a snapshot, each has what a receiver checks, and the edges
-- are sealed and lead to snapshots of the graph.
pub record IsExportable (g : ExportGraph) : Type 0 where
  pub has_snapshot : is_empty_list g.export_snapshots ≡ false
  pub snapshots_ready : All IsReadyAt g.export_snapshots
  pub edges_carried : All (IsCarried (keys_of g.export_snapshots)) g.export_edges

module _ (collate : Text → Text → Bool) (g : ExportGraph) (sender transport : Text)
    (x : IsExportable g) where
  keys : List Text
  keys = sort text_le (keys_of g.export_snapshots)

  edges : List HistoryEdge
  edges =
      sort (λ a b. collate (decimal a.history_edge_receipt) (decimal b.history_edge_receipt))
        g.export_edges

  keys-has : (k : Text) → has k keys ≡ has k (keys_of g.export_snapshots)
  unfolding keys
  keys-has k = has-sort k (keys_of g.export_snapshots)

  IsCarried-on :
      (vs : List Value)
      → snapshot_ids vs ≡ keys
      → (e : HistoryEdge) → IsCarried (keys_of g.export_snapshots) e
      → IsCarried (snapshot_ids vs) e
  IsCarried-on vs ids e (sealed_edge, there) = (
    sealed_edge,
    ap (has (decimal e.to_identity)) ids ∙ (keys-has (decimal e.to_identity) ∙ there),
  )

  exported_some : (vs : List Value) → snapshot_ids vs ≡ keys → is_empty_list vs ≡ false
  unfolding keys keys_of
  exported_some vs ids =
      is_empty_list-length vs g.export_snapshots (
        snapshot_ids-length keys vs ids
        ∙ (length-sort text_le (keys_of g.export_snapshots) ∙ length-map g.export_snapshots _))
      ∙ x.has_snapshot

  -- The package that an exportable graph is exported to is verified by a receiver, and its
  -- snapshots have the identities of the graph's, in order.
  pub export_sync_package-verify_sync_package :
      (sent : Value) × (c : Checked) × (export_sync_package collate g sender transport ≡ ok sent)
      × (verify_sync_package (some sent) ≡ ok c)
      × (snapshot_ids c.package_snapshots ≡ sort text_le (keys_of g.export_snapshots))
  unfolding keys edges export_sync_package verify_sync_package
  export_sync_package-verify_sync_package =
      let all_keys =
        All-weaken (λ k. has k keys ≡ true) (λ k. has k (keys_of g.export_snapshots) ≡ true) keys
          (λ k h. sym (keys-has k) ∙ h) (has-each keys) in
      let (vs, exported, verified, ids) =
        export_all-ready g.export_snapshots x.snapshots_ready keys all_keys in
      let carried =
        All-weaken (IsCarried (keys_of g.export_snapshots)) (IsCarried (snapshot_ids vs)) edges
          (IsCarried-on vs ids) (All-sort _ _ _ x.edges_carried) in
      (
        obj (sealed g.export_root vs edges sender transport),
        record {
          package_fields = sealed g.export_root vs edges sender transport;
          package_snapshots = vs;
          package_edges = map edge_value edges;
        },
        >>=-ok _ exported
            ∙ >>=-ok _ (package_receipt_of-fields g.export_root vs edges sender transport null),
        sealed-verify_fields g.export_root vs edges sender transport (exported_some vs ids) verified
            carried,
        ids,
      )
