-- ===== src/EditLog/Examples.antt =====
-- The theorems about the log at a short session, and runs of the code.
use omi_imo.Prelude.{
  ◌≡◌, inl, refl, true, none, some, [], ◌∷◌, ◌++◌, codes, text_le, text_eq, join, Some, any,
}
use omi_imo.Prelude.Sorting.{sort}
use omi_imo.EditLog.Log.{
  Log, Edit, commit, create_edit_log, entry_of, append_event, append_proposal, commit_proposal,
  append_undo, append_redo, append_imported_commit, find_proposal,
}
use omi_imo.EditLog.Active.{
  active_commit_events, has_commit, scan, step_body, put_commit, put_flag, get_flag, keep_active,
}
use omi_imo.EditLog.Invariant.{Reach, created, then_, proposes, commits, IsLog, Reach-IsLog}
use omi_imo.EditLog.Refinement.{active_commits, active_commit_events-eq}
use omi_imo.EditLog.History.{
  Proposes, without, active_commit_events-append_undo, active_commit_events-redo,
  active_commit_events-commit_proposal,
}
use omi_imo.EditLog.Merge.{
  clone_commits, clone_body, merge_key, sort_key, same_commit, push_group, group_all, get_group,
  append_groups, append_group, conflict_events, merge_logs,
}
use omi_imo.EditLog.MergeLaws.{merge_logs-IsLog}
use omi_imo.EditLog.MergeComplete.{Commits, merge_logs-Commits}

abbrev move_door : Edit
move_door = record { action = codes "move"; path = codes "w/o/door"; proposal_text = codes "x1" }

abbrev proposed : Log
proposed = append_proposal create_edit_log move_door

abbrev committed : Log
committed = append_event proposed (commit move_door 1 none)

committed-Reach : Reach committed
unfolding commit_proposal append_proposal append_event find_proposal
committed-Reach =
    then_ (then_ created (proposes create_edit_log move_door)) (commits proposed 1 refl)

Reach-IsLog_example : IsLog committed
Reach-IsLog_example = Reach-IsLog committed-Reach

active_commit_events-eq_example : active_commit_events committed ≡ active_commits committed.events
active_commit_events-eq_example = active_commit_events-eq committed (Reach-IsLog committed-Reach)

active_commit_events-append_undo_example :
    active_commit_events (append_undo committed 2) ≡ without 2 (active_commit_events committed)
active_commit_events-append_undo_example =
    active_commit_events-append_undo committed 2 (Reach-IsLog committed-Reach)

two-active : has_commit 2 (active_commit_events committed) ≡ true
unfolding active_commit_events has_commit scan step_body put_commit put_flag get_flag keep_active
    sort append_proposal append_event
two-active = refl

active_commit_events-redo_example :
    (active_commit_events (append_redo committed 2) ≡ active_commit_events committed)
    × (active_commit_events (append_redo (append_undo committed 2) 2)
        ≡ active_commit_events committed)
active_commit_events-redo_example =
    active_commit_events-redo committed 2 (Reach-IsLog committed-Reach) two-active

active_commit_events-commit_proposal_example :
    ((edit : Edit)
      → Some (Proposes 1 edit) committed.events
      → (after : Log) × (commit_proposal committed 1 ≡ some after)
        × (active_commit_events after
            ≡ active_commit_events committed ++ entry_of committed (commit edit 1 none) ∷ []))
    × ((after : Log)
        → commit_proposal committed 1 ≡ some after
        → (edit : Edit) × Some (Proposes 1 edit) committed.events)
    × ((edit : Edit)
        → active_commit_events (append_proposal committed edit) ≡ active_commit_events committed)
active_commit_events-commit_proposal_example =
    active_commit_events-commit_proposal committed 1 (Reach-IsLog committed-Reach)

merge_logs-IsLog_example :
    Reach (merge_logs text_le [] committed committed (codes "left") (codes "right")).merged_log
    × IsLog (merge_logs text_le [] committed committed (codes "left") (codes "right")).merged_log
merge_logs-IsLog_example =
    merge_logs-IsLog text_le [] committed committed (codes "left") (codes "right")

-- Two sides with the same edit do not conflict.
no-conflicts :
    (merge_logs text_le [] committed committed (codes "left") (codes "right")).conflicts ≡ []
unfolding merge_logs active_commit_events scan step_body put_commit put_flag get_flag keep_active
    sort append_proposal append_event clone_commits clone_body group_all push_group merge_key
    get_group append_groups append_group same_commit any conflict_events text_eq text_le sort_key
    join append_imported_commit
no-conflicts = refl

left-active : Some (Commits move_door) (active_commit_events committed)
unfolding active_commit_events scan step_body put_commit put_flag get_flag keep_active sort
    append_proposal append_event
left-active = inl (1, none, refl)

merge_logs-Commits_example :
    Some
      (Commits move_door)
      (merge_logs text_le [] committed committed (codes "left") (codes "right")).merged_log.events
merge_logs-Commits_example =
    merge_logs-Commits text_le [] committed committed (codes "left") (codes "right") move_door
      no-conflicts (inl left-active)
