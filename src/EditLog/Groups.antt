-- ===== src/EditLog/Groups.antt =====
-- The groups of a merge and their keys (workbench/src/edit_merge.js).
use omi_imo.Prelude.{
  ◌≡◌, refl, Bool, true, false, List, [], ◌∷◌, ◌++◌, arith, Text, text_eq, text_eq_sound,
  text_eq_refl, if◌then◌else◌, Bool-cases, inl, inr, Some, Some-append_left, Some-append_right,
}
use omi_imo.EditLog.Merge.{Cloned, merge_key, push_group, group_all, get_group, group_keys}

-- The groups.
get_group-push_group :
    (j k : Text) (c : Cloned) (groups : List (Text × List Cloned))
    → get_group j (push_group k c groups)
      ≡ (if text_eq k j then get_group j groups ++ c ∷ [] else get_group j groups)
unfolding get_group push_group
get_group-push_group j k c [] = refl
get_group-push_group j k c ((i, g) ∷ groups) = ground (
  arith,
  text_eq_sound i k,
  text_eq_sound i j,
  text_eq_sound k j,
  text_eq_refl i,
  text_eq_refl j,
  get_group-push_group j k c groups,
)

group_all-keeps :
    (P : Cloned → Type 0) (k : Text) (cs : List Cloned) (groups : List (Text × List Cloned))
    → Some P (get_group k groups)
    → Some P (get_group k (group_all cs groups))
unfolding group_all
group_all-keeps P k [] groups h = h
group_all-keeps P k (c ∷ cs) groups h =
    group_all-keeps P k cs (push_group (merge_key c) c groups)
      (rw (get_group-push_group k (merge_key c) c groups) (either (text_eq (merge_key c) k)))
  where
    either : (b : Bool) → Some P (if b then get_group k groups ++ c ∷ [] else get_group k groups)
    either true = Some-append_left P (get_group k groups) (c ∷ []) h
    either false = h

-- Every commit is in the group of its key.
pub group_all-has :
    (x : Cloned) (cs : List Cloned) (groups : List (Text × List Cloned))
    → Some (λ c. c ≡ x) cs
    → Some (λ c. c ≡ x) (get_group (merge_key x) (group_all cs groups))
unfolding group_all
group_all-has x [] groups h = absurd h
group_all-has x (c ∷ cs) groups (inl e) =
    group_all-keeps (λ d. d ≡ x) (merge_key x) cs (push_group (merge_key c) c groups)
      (rw (get_group-push_group (merge_key x) (merge_key c) c groups, e, text_eq_refl (merge_key x))
        (Some-append_right (λ d. d ≡ x) (get_group (merge_key x) groups) (x ∷ []) (inl refl)))
group_all-has x (c ∷ cs) groups (inr h) = group_all-has x cs (push_group (merge_key c) c groups) h

-- A group that holds something has its key among the keys.
pub group_keys-has :
    (P : Cloned → Type 0) (k : Text) (groups : List (Text × List Cloned))
    → Some P (get_group k groups)
    → Some (λ j. j ≡ k) (group_keys groups)
unfolding get_group
group_keys-has P k [] h = absurd h
group_keys-has P k ((j, g) ∷ groups) h = elim (Bool-cases (text_eq j k)) [
  | inl e ↦ inl (text_eq_sound j k e)
  | inr e ↦ inr (group_keys-has P k groups (rw e at h))
]
