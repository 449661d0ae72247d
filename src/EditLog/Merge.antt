-- ===== src/EditLog/Merge.antt =====
-- workbench/src/edit_merge.js: the active commits of two logs, grouped by action and path. A group
-- that agrees becomes one imported commit, a group that does not becomes conflicts.
use omi_imo.Prelude.{
  ℕ, zero, suc, ◌-◌, Bool, not, ◌&&◌, Option, none, some, List, [], ◌∷◌, ◌++◌, map, Text, codes,
  text_eq, text_le, join, length, any, ◌==◌, if◌then◌else◌,
}
use omi_imo.Prelude.Sorting.{sort}
use omi_imo.Identity.Json.{decimal}
use omi_imo.EditLog.Log.{
  Event, Log, Body, Edit, Origin, Side, commit, conflict, create_edit_log, append_imported_commit,
  append_conflict,
}
use omi_imo.EditLog.Active.{active_commit_events}
use omi_imo.EditLog.Replay.{Replayed, replay, log_receipt}

-- `a || b` on texts.
abbrev pub text_or : Text → Text → Text
text_or [] fallback = fallback
text_or (c ∷ text) fallback = c ∷ text

-- The result of `cloneCommit`.
pub record Cloned : Type 0 where
  pub edit : Edit
  pub proposal_seq : ℕ
  pub imported_from : Text
  pub original_seq : ℕ

abbrev original_of : Option Origin → ℕ
original_of none = 0
original_of (some o) = o.original_seq

unfoldable pub clone_body : Body → ℕ → Text → List Cloned
clone_body (commit e p o) seq id =
    record {
      edit = e;
      proposal_seq = p;
      imported_from = id;
      original_seq = if seq == 0 then original_of o else seq;
    }
    ∷ []
clone_body _ seq id = []

-- `activeCommitEvents(log).map(cloneCommit)`. Only commits are active, so none is left out.
unfoldable pub clone_commits : List Event → Text → List Cloned
clone_commits [] id = []
clone_commits (e ∷ rest) id = clone_body e.body e.seq id ++ clone_commits rest id

unfoldable pub merge_key : Cloned → Text
merge_key c = join (codes "|") (c.edit.action ∷ c.edit.path ∷ [])

zeros : ℕ → Text
zeros zero = []
zeros (suc n) = b'0' ∷ zeros n

-- `String(n).padStart(8, "0")`
unfoldable pub pad_start : Text → Text
unfolding zeros
pad_start t = zeros (8 - length t) ++ t

unfoldable pub sort_key : Cloned → Text
unfolding pad_start
sort_key c = join (codes "|") (
    c.edit.path
    ∷ c.edit.action
    ∷ c.edit.proposal_text
    ∷ c.imported_from
    ∷ pad_start (decimal c.original_seq)
    ∷ [])

unfoldable pub same_commit : Cloned → Cloned → Bool
same_commit a b =
    text_eq a.edit.action b.edit.action
    && (text_eq a.edit.path b.edit.path && text_eq a.edit.proposal_text b.edit.proposal_text)

-- The map `grouped`.
unfoldable pub push_group : Text → Cloned → List (Text × List Cloned) → List (Text × List Cloned)
push_group k c [] = (k, c ∷ []) ∷ []
push_group k c ((j, g) ∷ rest) =
    if text_eq j k then (j, g ++ c ∷ []) ∷ rest else (j, g) ∷ push_group k c rest

unfoldable pub group_all : List Cloned → List (Text × List Cloned) → List (Text × List Cloned)
group_all [] groups = groups
group_all (c ∷ rest) groups = group_all rest (push_group (merge_key c) c groups)

unfoldable pub get_group : Text → List (Text × List Cloned) → List Cloned
get_group k [] = []
get_group k ((j, g) ∷ rest) = if text_eq j k then g else get_group k rest

abbrev pub group_keys : List (Text × List Cloned) → List Text
group_keys = map (λ p. p.0)

abbrev pub side_of : Cloned → Side
side_of c = record { source = c.imported_from; text = c.edit.proposal_text }

-- The loop over the neighbours of a group that does not agree.
unfoldable pub append_pairs : Cloned → List Cloned → Log → Log
append_pairs first [] log = log
append_pairs first (c ∷ []) log = log
append_pairs first (c ∷ d ∷ rest) log = append_pairs first (d ∷ rest) (
    append_conflict log first.edit.action first.edit.path (side_of c) (side_of d)
      (codes "divergent-edit"))

unfoldable pub append_group : List Cloned → Log → Log
append_group [] log = log
append_group (first ∷ rest) log =
    if any (λ c. not (same_commit first c)) (first ∷ rest)
    then append_pairs first (first ∷ rest) log
    else append_imported_commit log first.edit first.proposal_seq
        (record { imported_from = first.imported_from; original_seq = first.original_seq })

unfoldable pub conflict_events : List Event → List Event
conflict_events [] = []
conflict_events (e ∷ rest) = elim e.body [
  | conflict a p l r w ↦ e ∷ conflict_events rest
  | _ ↦ conflict_events rest
]

pub record Merged : Type 0 where
  pub merged_log : Log
  pub replayed : Replayed
  pub conflicts : List Event
  pub receipt : ℕ

-- `collate a b` stands for `a.localeCompare(b) <= 0`, the order of the host's locale.
module _ (collate : Text → Text → Bool) where
  abbrev pub collate_commits : Cloned → Cloned → Bool
  collate_commits a b = collate (sort_key a) (sort_key b)

  unfoldable pub append_groups : List Text → List (Text × List Cloned) → Log → Log
  append_groups [] groups log = log
  append_groups (k ∷ keys) groups log =
      append_groups keys groups (append_group (sort collate_commits (get_group k groups)) log)

  unfoldable pub merge_log : Log → Log → Text → Text → Log
  merge_log left right left_id right_id =
      let groups =
        group_all
          (clone_commits (active_commit_events left) left_id
            ++ clone_commits (active_commit_events right) right_id)
          [] in
      append_groups (sort text_le (group_keys groups)) groups create_edit_log

  unfoldable pub merge_logs : Text → Log → Log → Text → Text → Merged
  unfolding merge_log
  merge_logs base left right left_id right_id =
      let merged =
        merge_log left right (text_or left_id (codes "left")) (text_or right_id (codes "right")) in
      record {
        merged_log = merged;
        replayed = replay base merged;
        conflicts = conflict_events merged.events;
        receipt = log_receipt merged;
      }
