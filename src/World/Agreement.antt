-- ===== src/World/Agreement.antt =====
-- Overlays without conflicts (workbench/src/autonomous_world_merge_reconciliation.js:
-- classifyConflicts).
use omi_imo.Prelude.{
  ℕ, ◌≡◌, refl, sym, ap, ◌∙◌, subst, Bool, false, not, Option, none, some, List, [], ◌∷◌, Text,
  text_eq, text_eq_sound, text_eq_refl, ◌++◌, ◌≢◌, All, length, length-nil, if◌then◌else◌,
  Bool-cases, inl, inr, arith, ◌⊎◌,
}
use omi_imo.Prelude.Sorting.{length-sort}
use omi_imo.World.Sync.{put, get_own}
use omi_imo.World.Conflicts.{
  Overlay, Conflict, LeftFound, left_found, inherited_overlay, by_target, find_left, differs,
  conflicts_with, add_conflict, classify_conflicts, conflict_record,
}
use omi_imo.World.MergeReading.{get_own-put-same, get_own-put-other}

-- No overlay of the list has the path.
pub Free : Text → List Overlay → Type 0
Free path l = All (λ o. o.target_path ≢ path) l

-- The last overlay of the list with the path.
pub record IsLast (path : Text) (l : List Overlay) (o : Overlay) : Type 0 where
  pub before : List Overlay
  pub after : List Overlay
  pub split : l ≡ before ++ o ∷ after
  pub has_path : o.target_path ≡ path
  pub free_after : Free path after

-- The right overlay has a path that no left overlay has, or the last left overlay with its path has
-- the same receipt, body and kind.
pub AgreesWith : List Overlay → Overlay → Type 0
AgreesWith left right =
    Free right.target_path left
    ⊎ ((o : Overlay) × IsLast right.target_path left o
        × (o.overlay_text ≡ right.overlay_text)
        × (o.overlay_body ≡ right.overlay_body)
        × (o.overlay_kind ≡ right.overlay_kind))

-- What the table of the left overlays holds for a path.
by_target-cases :
    (path : Text) (l : List Overlay) (table : List (Text × Overlay))
    → (Free path l × (get_own path (by_target l table) ≡ get_own path table))
      ⊎ ((o : Overlay) × IsLast path l o × (get_own path (by_target l table) ≡ some o))
unfolding by_target Free
by_target-cases path [] table = inl (tt, refl)
by_target-cases path (o ∷ rest) table =
    elim (by_target-cases path rest (put o.target_path o table)) [
      | inr (p, last, found) ↦ inr (
        p,
        record {
          before = o ∷ last.before;
          after = last.after;
          split = ap (o ∷◌) last.split;
          has_path = last.has_path;
          free_after = last.free_after;
        },
        found,
      )
      | inl (free, kept) ↦ elim (Bool-cases (text_eq o.target_path path)) [
        | inl same ↦
            (let here = text_eq_sound o.target_path path same in
              inr (
                o,
                record {
                  before = [];
                  after = rest;
                  split = refl;
                  has_path = here;
                  free_after = free;
                },
                kept
                    ∙ subst (λ k. get_own path (put k o table) ≡ some o) (sym here)
                        (get_own-put-same path o table),
              ))
        | inr other ↦
            (let apart : o.target_path ≢ path = λ e.
                ground (arith, text_eq_refl path, subst (λ k. text_eq k path ≡ false) e other) in
              inl ((apart, free), kept ∙ get_own-put-other path o.target_path o table apart))
      ]
    ]

same_text : (a b : Text) → not (text_eq a b) ≡ false → a ≡ b
same_text a b h = text_eq_sound a b (ground (arith, h))

differs-same :
    (left : LeftFound) (right : Overlay)
    → differs left right ≡ false
    → (o : Overlay) × (left ≡ left_found o)
      × (o.overlay_text ≡ right.overlay_text)
      × (o.overlay_body ≡ right.overlay_body)
      × (o.overlay_kind ≡ right.overlay_kind)
unfolding differs
differs-same inherited_overlay right h = cc
differs-same (left_found o) right h = (
  o,
  refl,
  same_text _ _ (ground (arith, h)),
  same_text _ _ (ground (arith, h)),
  same_text _ _ (ground (arith, h)),
)

add_conflict-none :
    (base : ℕ) (o : Option LeftFound) (right : Overlay) (later : List Conflict)
    → add_conflict base o right later ≡ []
    → ((o ≡ none) ⊎ ((l : LeftFound) × (o ≡ some l) × (differs l right ≡ false))) × (later ≡ [])
unfolding add_conflict
add_conflict-none base none right later h = (inl refl, h)
add_conflict-none base (some left) right later h = elim (Bool-cases (differs left right)) [
  | inl differ ↦
      (let k =
          subst (λ b. (if b then conflict_record base left right ∷ later else later) ≡ []) differ
            h in
        cc)
  | inr same ↦ (
    inr (left, refl, same),
    subst (λ b. (if b then conflict_record base left right ∷ later else later) ≡ []) same h,
  )
]

find_left-found :
    (path : Text) (table : List (Text × Overlay)) {o : Overlay}
    → get_own path table ≡ some o
    → find_left path table ≡ some (left_found o)
unfolding find_left
find_left-found path table h = rw (find_left, h) refl

AgreesWith-found :
    (left : List Overlay) (right : Overlay)
    → (find_left right.target_path (by_target left []) ≡ none)
      ⊎ ((l : LeftFound) × (find_left right.target_path (by_target left []) ≡ some l)
          × (differs l right ≡ false))
    → AgreesWith left right
unfolding AgreesWith
AgreesWith-found left right found = elim (by_target-cases right.target_path left []) [
  | inl (free, _) ↦ inl free
  | inr (o, last, held) ↦
      (let here = find_left-found right.target_path (by_target left []) held in
        elim found [
          | inl missing ↦ (let clash = sym here ∙ missing in cc)
          | inr (l, there, same) ↦
              (let (p, is_p, receipt, body, kind) = differs-same l right same in
                let twice = sym here ∙ there ∙ ap some is_p in
                let e : p ≡ o = cc in
                inr (
                  o,
                  last,
                  subst (λ x. x.overlay_text ≡ right.overlay_text) e receipt,
                  subst (λ x. x.overlay_body ≡ right.overlay_body) e body,
                  subst (λ x. x.overlay_kind ≡ right.overlay_kind) e kind,
                ))
        ])
]

conflicts_with-none :
    (base : ℕ) (left l : List Overlay)
    → conflicts_with base (by_target left []) l ≡ []
    → All (AgreesWith left) l
unfolding conflicts_with
conflicts_with-none base left [] h = tt
conflicts_with-none base left (right ∷ rest) h =
    let (here, later) =
      add_conflict-none base (find_left right.target_path (by_target left [])) right
        (conflicts_with base (by_target left []) rest) h in
    (AgreesWith-found left right here, conflicts_with-none base left rest later)

pub classify_conflicts-none :
    (collate : Text → Text → Bool) (base : ℕ) (left right : List Overlay)
    → length (classify_conflicts collate base left right) ≡ 0
    → All (AgreesWith left) right
unfolding classify_conflicts
classify_conflicts-none collate base left right h =
    conflicts_with-none base left right
      (length-nil _ (sym (length-sort _ (conflicts_with base (by_target left []) right)) ∙ h))
