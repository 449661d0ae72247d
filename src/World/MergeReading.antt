-- ===== src/World/MergeReading.antt =====
-- The overlays that a world admits, read out of its document
-- (workbench/src/autonomous_world_merge_reconciliation.js: groupRecords, unitMap, admittedOverlays).
use omi_imo.Prelude.{
  codes, map, find, ap₂, ℕ, ◌≡◌, refl, sym, ap, ◌∙◌, subst, false, Option, none, some, List, [],
  ◌∷◌, Text, text_eq, text_eq_sound, text_eq_refl, ◌≢◌, if◌then◌else◌, Bool-cases, inl, inr, arith,
}
use omi_imo.World.Sync.{put, get_own}
use omi_imo.World.Conflicts.{
  WorldGroup, WorldRecord, group_records, unit_map, overlay_of, WorldDocument, Overlay,
  admitted_overlays,
}
use mathlib.Core.Path.{fun_ext}

pub get_own-put-same :
    {A : Type 0} (k : Text) (o : A) (table : List (Text × A)) → get_own k (put k o table) ≡ some o
unfolding get_own put
get_own-put-same k o [] = rw (text_eq_refl k) refl
get_own-put-same k o ((j, w) ∷ rest) = elim (Bool-cases (text_eq j k)) [
  | inl same ↦ rw (same, same) refl
  | inr other ↦ rw (other, other) (get_own-put-same k o rest)
]

pub get_own-put-other :
    {A : Type 0} (a k : Text) (o : A) (table : List (Text × A))
    → k ≢ a
    → get_own a (put k o table) ≡ get_own a table
unfolding get_own put
get_own-put-other a k o [] apart = ground (arith, text_eq_sound k a, apart)
get_own-put-other a k o ((j, w) ∷ rest) apart = ground (
  arith,
  text_eq_sound j k,
  text_eq_sound j a,
  text_eq_refl k,
  get_own-put-other a k o rest apart,
)

-- The records of the first group with the name.
pub records_named : Text → List WorldGroup → List WorldRecord
records_named name [] = []
records_named name (g ∷ rest) =
    if text_eq g.group_id name then g.records else records_named name rest

-- The last text under the key, or else the one given.
pub last_text : Text → List (Text × Text) → Text → Text
last_text key [] otherwise = otherwise
last_text key ((k, v) ∷ rest) otherwise =
    last_text key rest (if text_eq k key then v else otherwise)

-- The overlay that a record declares.
pub reading : ℕ → WorldRecord → Overlay
reading identity r = record {
  overlay_record = r.record_id;
  target_path = last_text (codes "target_path") r.units [];
  target_kind = last_text (codes "target_kind") r.units [];
  overlay_kind = last_text (codes "kind") r.units [];
  overlay_body = last_text (codes "body") r.units [];
  overlay_text = last_text (codes "overlay_receipt") r.units [];
  candidate_text = last_text (codes "candidate_edit_receipt") r.units [];
  source_identity = identity;
}

-- The overlays that a document declares as admitted.
pub declared : ℕ → WorldDocument → List Overlay
declared identity document =
    map (reading identity) (records_named (codes "admitted-overlays") document.groups)

abbrev or_nothing : Option Text → Text
or_nothing o = elim o [ none ↦ [] | some t ↦ t ]

abbrev text_at : Text → List (Text × Text) → Text
text_at key table = or_nothing (get_own key table)

text_at-put :
    (key k v : Text) (table : List (Text × Text))
    → text_at key (put k v table) ≡ (if text_eq k key then v else text_at key table)
text_at-put key k v table = elim (Bool-cases (text_eq k key)) [
  | inl same ↦ rw same (
      subst (λ j. text_at key (put j v table) ≡ v) (sym (text_eq_sound k key same))
        (ap or_nothing (get_own-put-same key v table)))
  | inr other ↦ rw other (
      ap or_nothing (
        get_own-put-other key k v table
          (λ e. ground (arith, text_eq_refl key, subst (λ j. text_eq j key ≡ false) e other))))
]

unit_map-last_text :
    (key : Text) (units table : List (Text × Text))
    → text_at key (unit_map units table) ≡ last_text key units (text_at key table)
unfolding unit_map last_text
unit_map-last_text key [] table = refl
unit_map-last_text key ((k, v) ∷ rest) table =
    unit_map-last_text key rest (put k v table)
    ∙ ap (last_text key rest) (text_at-put key k v table)

overlay_by : ℕ → WorldRecord → (Text → Text) → Overlay
overlay_by identity r text = record {
  overlay_record = r.record_id;
  target_path = text (codes "target_path");
  target_kind = text (codes "target_kind");
  overlay_kind = text (codes "kind");
  overlay_body = text (codes "body");
  overlay_text = text (codes "overlay_receipt");
  candidate_text = text (codes "candidate_edit_receipt");
  source_identity = identity;
}

overlay_of-reading : (identity : ℕ) (r : WorldRecord) → overlay_of identity r ≡ reading identity r
unfolding overlay_of reading overlay_by get_own
overlay_of-reading identity r =
    ap (overlay_by identity r) (fun_ext (λ key. unit_map-last_text key r.units []))

find-records_named :
    (name : Text) (groups : List WorldGroup)
    → elim (find (λ g. text_eq g.group_id name) groups) [ none ↦ [] | some g ↦ g.records ]
      ≡ records_named name groups
unfolding find records_named
find-records_named name [] = refl
find-records_named name (g ∷ rest) = elim (Bool-cases (text_eq g.group_id name)) [
  | inl same ↦ rw same refl
  | inr other ↦ rw other (find-records_named name rest)
]

pub admitted_overlays-declared :
    (identity : ℕ) (document : WorldDocument)
    → admitted_overlays identity document ≡ declared identity document
unfolding admitted_overlays group_records declared
admitted_overlays-declared identity document =
    ap₂ map (fun_ext (overlay_of-reading identity))
      (find-records_named (codes "admitted-overlays") document.groups)
