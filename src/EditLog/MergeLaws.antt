-- ===== src/EditLog/MergeLaws.antt =====
-- What a merge makes of the two logs.
use omi_imo.Prelude.{Bool, not, List, [], ◌∷◌, Text, any, Bool-cases, inl, inr}
use omi_imo.Prelude.Sorting.{sort}
use omi_imo.EditLog.Log.{Log}
use omi_imo.EditLog.Invariant.{Reach, created, then_, imports, conflicts, IsLog, Reach-IsLog}
use omi_imo.EditLog.Merge.{
  Cloned, same_commit, get_group, append_pairs, append_group, collate_commits, append_groups,
  merge_logs,
}

append_pairs-Reach :
    (first : Cloned) (g : List Cloned) {log : Log} → Reach log → Reach (append_pairs first g log)
unfolding append_pairs
append_pairs-Reach first [] r = r
append_pairs-Reach first (c ∷ []) r = r
append_pairs-Reach first (c ∷ d ∷ rest) r =
    append_pairs-Reach first (d ∷ rest) (then_ r (conflicts _ _ _ _ _ _))

append_group-Reach : (g : List Cloned) {log : Log} → Reach log → Reach (append_group g log)
unfolding append_group
append_group-Reach [] r = r
append_group-Reach (first ∷ rest) r =
    elim (Bool-cases (any (λ c. not (same_commit first c)) (first ∷ rest))) [
      | inl e ↦ rw e (append_pairs-Reach first (first ∷ rest) r)
      | inr e ↦ rw e (then_ r (imports _ _ _ _))
    ]

module _ (collate : Text → Text → Bool) where
  append_groups-Reach :
      (keys : List Text) (groups : List (Text × List Cloned)) {log : Log}
      → Reach log
      → Reach (append_groups collate keys groups log)
  unfolding append_groups
  append_groups-Reach [] groups r = r
  append_groups-Reach (k ∷ keys) groups r =
      append_groups-Reach keys groups
        (append_group-Reach (sort (collate_commits collate) (get_group k groups)) r)

  -- The merged log is one that the log's own operations reach, so it satisfies their invariant.
  pub merge_logs-IsLog :
      (base : Text) (left right : Log) (left_id right_id : Text)
      → Reach (merge_logs collate base left right left_id right_id).merged_log
        × IsLog (merge_logs collate base left right left_id right_id).merged_log
  unfolding merge_logs
  merge_logs-IsLog base left right left_id right_id =
      let r = append_groups-Reach _ _ created in (r, Reach-IsLog r)
