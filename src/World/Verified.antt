-- ===== src/World/Verified.antt =====
-- What `verifySyncPackage` makes sure of (workbench/src/autonomous_world_package_sync.js).
use omi_imo.Prelude.{
  ℕ, ◌≡◌, refl, sym, ap, ◌∙◌, throw, true, false, ◌&&◌, Option, none, some, List, [], ◌∷◌, Text,
  codes, All, Bool-cases, inl, inr, Option-cases, ◌⊎◌, Some, any, text_eq, text_eq_sound, or-true,
  and-true, ok_inj, ok, >>=-eq-ok, >>-eq-ok, require-eq-ok, require-true, subst,
}
use omi_imo.Identity.Json.{Value, Fields, Items, nil, cons, null, bool, num, str, arr, obj}
use omi_imo.Identity.Values.{
  prop, read, get_field, same_value, opt_to_text, is_inherited, nat_value, truthy_value, items_of,
  value_items,
}
use omi_imo.World.Package.{
  Checked, verify_snapshot, verify_snapshots, verify_edge, verify_edges, verify_fields,
  verify_sync_package, snapshot_ids, knows_id, history_edge_receipt_of, package_receipt_of,
  snapshots_of, edges_of, require_value, require_witnesses, require_part, require_edge_field,
  array_of, is_empty_list,
}
use omi_imo.World.Witnesses.{
  IsThere, HasWitness, read-ok, require_value-IsThere, require_part-HasWitness,
}

pub record IsSnapshot (s : Value) : Type 0 where
  pub identity_agrees :
      same_value
        (prop "identity_receipt" (some s))
        (prop "identity_receipt" (prop "admission" (some s)))
      ≡ true
  pub is_no_authority : same_value (prop "authority" (some s)) (some (bool false)) ≡ true
  pub has_source : IsThere (prop "source" (prop "admission" (some s)))
  pub has_manifest : HasWitness s "package" "manifest_receipt"
  pub has_imported_manifest : HasWitness s "package" "imported_manifest_receipt"
  pub has_character : HasWitness s "closure" "character_identity_receipt"
  pub has_binary64 : HasWitness s "closure" "binary64_identity_receipt"
  pub has_raw_identity : HasWitness s "raw_binary" "identity_receipt"
  pub has_raw_index : HasWitness s "raw_binary" "index_receipt"

-- The text of the identity of a snapshot, and of the identity that an edge leads to.
abbrev pub identity_text : Value → Text
identity_text s = opt_to_text (prop "identity_receipt" (some s))

abbrev pub target_text : Value → Text
target_text e = opt_to_text (prop "to_identity_receipt" (some e))

pub record IsEdge (snapshots : List Value) (e : Value) : Type 0 where
  pub is_sealed :
      same_value
        (nat_value (history_edge_receipt_of (some e)))
        (prop "history_edge_receipt" (some e))
      ≡ true
  pub target_known :
      Some (λ s. identity_text s ≡ target_text e) snapshots ⊎ (is_inherited (target_text e) ≡ true)

any-identity :
    (t : Text) (l : List Value)
    → any (text_eq t) (snapshot_ids l) ≡ true
    → Some (λ s. identity_text s ≡ t) l
unfolding snapshot_ids any
any-identity t [] h = cc
any-identity t (s ∷ l) h = elim (or-true _ _ h) [
  | inl here ↦ inl (sym (text_eq_sound t _ here))
  | inr later ↦ inr (any-identity t l later)
]

knows_id-target :
    (t : Text) (l : List Value)
    → knows_id (snapshot_ids l) t ≡ true
    → Some (λ s. identity_text s ≡ t) l ⊎ (is_inherited t ≡ true)
unfolding knows_id
knows_id-target t l h = elim (or-true _ _ h) [
  | inl listed ↦ inl (any-identity t l listed)
  | inr inherited ↦ inr inherited
]

verify_snapshot-IsSnapshot : (s : Value) → verify_snapshot (some s) ≡ ok tt → IsSnapshot s
unfolding verify_snapshot require_witnesses
verify_snapshot-IsSnapshot s h =
    let (identity, got, h1) = >>=-eq-ok (read "identity_receipt" (some s)) _ h in
    let (_, _, h2) = >>=-eq-ok (require_value identity _) _ h1 in
    let (source, read_source, h3) = >>=-eq-ok (read "source" (prop "admission" (some s))) _ h2 in
    let (_, source_there, h4) = >>=-eq-ok (require_value source _) _ h3 in
    let (_, _, h5) = >>=-eq-ok (require_value (prop "report" (some s)) _) _ h4 in
    let (witnesses, h6) = >>-eq-ok (require_witnesses (some s)) _ h5 in
    let (w1, g1) = >>-eq-ok (require_part "package" _ _ (some s)) _ witnesses in
    let (w2, g2) = >>-eq-ok (require_part "package" _ _ (some s)) _ g1 in
    let (w3, g3) = >>-eq-ok (require_part "closure" _ _ (some s)) _ g2 in
    let (w4, g4) = >>-eq-ok (require_part "closure" _ _ (some s)) _ g3 in
    let (w5, w6) = >>-eq-ok (require_part "raw_binary" _ _ (some s)) _ g4 in
    let (same, h7) = require-eq-ok _ _ _ h6 in
    record {
      identity_agrees =
          subst (λ i. same_value i (prop "identity_receipt" (prop "admission" (some s))) ≡ true)
            (sym (read-ok "identity_receipt" (some s) got)) same;
      is_no_authority = require-true _ _ h7;
      has_source =
          subst IsThere (sym (read-ok "source" (prop "admission" (some s)) read_source))
            (require_value-IsThere source _ source_there);
      has_manifest = require_part-HasWitness _ _ _ s w1;
      has_imported_manifest = require_part-HasWitness _ _ _ s w2;
      has_character = require_part-HasWitness _ _ _ s w3;
      has_binary64 = require_part-HasWitness _ _ _ s w4;
      has_raw_identity = require_part-HasWitness _ _ _ s w5;
      has_raw_index = require_part-HasWitness _ _ _ s w6;
    }

verify_snapshots-IsSnapshot : (l : List Value) → verify_snapshots l ≡ ok tt → All IsSnapshot l
unfolding verify_snapshots
verify_snapshots-IsSnapshot [] h = tt
verify_snapshots-IsSnapshot (s ∷ rest) h =
    let (here, later) = >>-eq-ok (verify_snapshot (some s)) _ h in
    (verify_snapshot-IsSnapshot s here, verify_snapshots-IsSnapshot rest later)

verify_edge-IsEdge :
    (l : List Value) (e : Value) → verify_edge (snapshot_ids l) (some e) ≡ ok tt → IsEdge l e
unfolding verify_edge
verify_edge-IsEdge l e h =
    let (_, h1) = >>-eq-ok (require_edge_field _ _ (some e)) _ h in
    let (_, h2) = >>-eq-ok (require_edge_field _ _ (some e)) _ h1 in
    let (_, h3) = >>-eq-ok (require_edge_field _ _ (some e)) _ h2 in
    let (_, h4) = >>-eq-ok (require_edge_field _ _ (some e)) _ h3 in
    let (_, h5) = >>-eq-ok (require_edge_field _ _ (some e)) _ h4 in
    let (_, h6) = >>-eq-ok (require_edge_field _ _ (some e)) _ h5 in
    let (same, h7) = require-eq-ok _ _ _ h6 in
    record { is_sealed = same; target_known = knows_id-target _ l (require-true _ _ h7) }

verify_edges-IsEdge :
    (snapshots l : List Value)
    → verify_edges (snapshot_ids snapshots) l ≡ ok tt
    → All (IsEdge snapshots) l
unfolding verify_edges
verify_edges-IsEdge snapshots [] h = tt
verify_edges-IsEdge snapshots (e ∷ rest) h =
    let (here, later) = >>-eq-ok (verify_edge (snapshot_ids snapshots) (some e)) _ h in
    (verify_edge-IsEdge snapshots e here, verify_edges-IsEdge snapshots rest later)

value_items-items_of : (i : Items) → value_items (items_of i) ≡ i
unfolding value_items items_of
value_items-items_of nil = refl
value_items-items_of (cons v rest) = ap (cons v) (value_items-items_of rest)

pub items_of-value_items : (l : List Value) → items_of (value_items l) ≡ l
unfolding value_items items_of
items_of-value_items [] = refl
items_of-value_items (v ∷ rest) = ap (v ∷◌) (items_of-value_items rest)

array_of-items :
    (v : Option Value) {l : List Value} → array_of v ≡ some l → v ≡ some (arr (value_items l))
unfolding array_of
array_of-items none h = cc
array_of-items (some null) h = cc
array_of-items (some (bool b)) h = cc
array_of-items (some (num z)) h = cc
array_of-items (some (str t)) h = cc
array_of-items (some (obj fields)) h = cc
array_of-items (some (arr items)) {l} h =
    let same : items_of items ≡ l = cc in
    subst (λ l. some (arr items) ≡ some (arr (value_items l))) same
      (ap (λ i. some (arr i)) (sym (value_items-items_of items)))

not_ok : {A : Type 0} {why : Text} {a : A} → throw why ≡ ok a → ⊥
not_ok h = cc

snapshots_of-items :
    (fields : Fields) {l : List Value}
    → snapshots_of fields ≡ ok l
    → get_field (codes "snapshots") fields ≡ some (arr (value_items l))
unfolding snapshots_of
snapshots_of-items fields {l} h =
    elim (Option-cases (array_of (get_field (codes "snapshots") fields))) [
      | inl missing ↦
          (let gone : snapshots_of fields ≡ throw (codes "missing-sync-snapshots") =
              rw (snapshots_of, missing) refl in
            absurd (not_ok (sym gone ∙ h)))
      | inr (items, found) ↦ elim (Bool-cases (is_empty_list items)) [
        | inl empty ↦
            (let gone : snapshots_of fields ≡ throw (codes "missing-sync-snapshots") =
                rw (snapshots_of, found) (rw empty refl) in
              absurd (not_ok (sym gone ∙ h)))
        | inr full ↦
            (let taken : snapshots_of fields ≡ ok items = rw (snapshots_of, found) (rw full refl) in
              array_of-items _ (found ∙ ap some (ok_inj (sym taken ∙ h))))
      ]
    ]

edges_of-items :
    (fields : Fields) {l : List Value}
    → edges_of fields ≡ ok l
    → get_field (codes "history_edges") fields ≡ some (arr (value_items l))
unfolding edges_of
edges_of-items fields {l} h =
    elim (Option-cases (array_of (get_field (codes "history_edges") fields))) [
      | inl missing ↦
          (let gone : edges_of fields ≡ throw (codes "missing-sync-history-edges") =
              rw (edges_of, missing) refl in
            absurd (not_ok (sym gone ∙ h)))
      | inr (items, found) ↦
          (let taken : edges_of fields ≡ ok items = rw (edges_of, found) refl in
            array_of-items _ (found ∙ ap some (ok_inj (sym taken ∙ h))))
    ]

pub record IsVerified (sent : Option Value) (c : Checked) : Type 0 where
  pub is_object : sent ≡ some (obj c.package_fields)
  pub receipt_agrees :
      (n : ℕ) × (package_receipt_of c.package_fields ≡ ok n)
      × (same_value (prop "package_receipt" sent) (nat_value n) ≡ true)
  pub source_no_authority :
      same_value (prop "authority" (prop "source" sent)) (some (bool false)) ≡ true
  pub all_snapshots : prop "snapshots" sent ≡ some (arr (value_items c.package_snapshots))
  pub all_edges : prop "history_edges" sent ≡ some (arr (value_items c.package_edges))
  pub snapshots_hold : All IsSnapshot c.package_snapshots
  pub edges_hold : All (IsEdge c.package_snapshots) c.package_edges

verify_fields-IsVerified :
    (fields : Fields) {c : Checked} → verify_fields fields ≡ ok c → IsVerified (some (obj fields)) c
unfolding verify_fields prop
verify_fields-IsVerified fields {c} h =
    let (_, h1) = require-eq-ok _ _ _ h in
    let (n, receipt, h2) = >>=-eq-ok (package_receipt_of fields) _ h1 in
    let (same, h3) = require-eq-ok _ _ _ h2 in
    let (source, h4) =
      require-eq-ok (truthy_value (get_field (codes "source") fields) && _) _ _ h3 in
    let (snapshots, listed, h5) = >>=-eq-ok (snapshots_of fields) _ h4 in
    let (edges, listed_edges, h6) = >>=-eq-ok (edges_of fields) _ h5 in
    let (s, h7) = >>-eq-ok (verify_snapshots snapshots) _ h6 in
    let (e, h8) = >>-eq-ok (verify_edges (snapshot_ids snapshots) edges) _ h7 in
    subst (IsVerified (some (obj fields))) (ok_inj h8) (record {
      is_object = refl;
      receipt_agrees = (n, receipt, same);
      source_no_authority = (and-true _ _ source).1;
      all_snapshots = snapshots_of-items fields listed;
      all_edges = edges_of-items fields listed_edges;
      snapshots_hold = verify_snapshots-IsSnapshot snapshots s;
      edges_hold = verify_edges-IsEdge snapshots edges e;
    })

-- A package that verifies is an object with the receipt of its contents and a source without authority.
-- Every item of its snapshots agrees in its receipt with its admission, has no authority, and has a
-- source and the six receipts that its witnesses (or, without them, its report) must name; every item
-- of its history_edges has the receipt of its parts and leads to a snapshot of the package, or to a name
-- that every object inherits.
pub verify_sync_package-IsVerified :
    (sent : Option Value) {c : Checked} → verify_sync_package sent ≡ ok c → IsVerified sent c
unfolding verify_sync_package
verify_sync_package-IsVerified none h = cc
verify_sync_package-IsVerified (some null) h = cc
verify_sync_package-IsVerified (some (bool b)) h = cc
verify_sync_package-IsVerified (some (num z)) h = cc
verify_sync_package-IsVerified (some (str t)) h = cc
verify_sync_package-IsVerified (some (arr items)) h = cc
verify_sync_package-IsVerified (some (obj fields)) h = verify_fields-IsVerified fields h
