-- ===== src/EditLog/MergeComplete.antt =====
-- A merge without conflicts loses no edit of either side.
use omi_imo.Prelude.{
  ◌≡◌, ◌≢◌, refl, sym, ap, ◌∙◌, Bool, true, false, not, Option, some, List, [], ◌∷◌, ◌++◌, arith, ℕ,
  Text, text_eq_sound, text_eq_refl, any, Bool-cases, inl, inr, ◌⊎◌, append_assoc, append-nil, Some,
  Some-append_left, Some-append_right, text_le, subst, codes,
}
use omi_imo.Prelude.Sorting.{sort, Some-sort}
use omi_imo.EditLog.Log.{
  Event, Log, Body, Edit, Origin, Side, commit, create_edit_log, append_event, entry_of,
  append_imported_commit, append_conflict,
}
use omi_imo.EditLog.Active.{active_commit_events}
use omi_imo.EditLog.Merge.{
  Cloned, clone_body, clone_commits, text_or, merge_key, same_commit, group_all, get_group,
  group_keys, append_pairs, append_group, conflict_events, collate_commits, append_groups,
  merge_logs,
}
use omi_imo.EditLog.Groups.{group_all-has, group_keys-has}

-- The events of a log only grow, and the conflicts with them.
record Extends (log after : Log) : Type 0 where
  more : List Event
  grown : after.events ≡ log.events ++ more

Extends-trans : (a b c : Log) → Extends a b → Extends b c → Extends a c
Extends-trans a b c h k = record {
  more = h.more ++ k.more;
  grown = k.grown ∙ ap (λ l. l ++ k.more) h.grown ∙ append_assoc a.events h.more k.more;
}

Extends-refl : (log : Log) → Extends log log
Extends-refl log = record { more = []; grown = sym (append-nil log.events) }

append_event-Extends : (log : Log) (b : Body) → Extends log (append_event log b)
unfolding append_event
append_event-Extends log b = record { more = entry_of log b ∷ []; grown = refl }

conflict_events-append :
    (xs ys : List Event) → conflict_events (xs ++ ys) ≡ conflict_events xs ++ conflict_events ys
unfolding conflict_events
conflict_events-append [] ys = refl
conflict_events-append (e ∷ xs) ys = ground (arith, conflict_events-append xs ys)

append_eq-nil_left {ℓ} : {A : Type ℓ} (xs ys : List A) → (xs ++ ys) ≡ [] → xs ≡ []
append_eq-nil_left [] ys h = refl
append_eq-nil_left (x ∷ xs) ys h = cc

no_conflicts_before :
    (log after : Log)
    → Extends log after
    → conflict_events after.events ≡ []
    → conflict_events log.events ≡ []
no_conflicts_before log after k h =
    append_eq-nil_left _ _
      (sym (conflict_events-append log.events k.more) ∙ ap conflict_events (sym k.grown) ∙ h)

append_conflict-Extends :
    (log : Log) (a p : Text) (l r : Side) (why : Text)
    → Extends log (append_conflict log a p l r why)
unfolding append_conflict
append_conflict-Extends log a p l r [] = append_event-Extends log _
append_conflict-Extends log a p l r (c ∷ why) = append_event-Extends log _

append_cons-ne-nil {ℓ} : {A : Type ℓ} (xs : List A) (y : A) → (xs ++ y ∷ []) ≢ []
append_cons-ne-nil [] y h = cc
append_cons-ne-nil (x ∷ xs) y h = cc

append_conflict-shows :
    (log : Log) (a p : Text) (l r : Side) (why : Text)
    → conflict_events (append_conflict log a p l r why).events ≢ []
unfolding append_conflict append_event conflict_events
append_conflict-shows log a p l r [] h =
    append_cons-ne-nil _ _ (sym (conflict_events-append log.events (_ ∷ [])) ∙ h)
append_conflict-shows log a p l r (c ∷ why) h =
    append_cons-ne-nil _ _ (sym (conflict_events-append log.events (_ ∷ [])) ∙ h)

append_pairs-Extends :
    (first : Cloned) (g : List Cloned) (log : Log) → Extends log (append_pairs first g log)
unfolding append_pairs
append_pairs-Extends first [] log = Extends-refl log
append_pairs-Extends first (c ∷ []) log = Extends-refl log
append_pairs-Extends first (c ∷ d ∷ rest) log =
    Extends-trans log _ _ (append_conflict-Extends log _ _ _ _ _)
      (append_pairs-Extends first (d ∷ rest) _)

append_group-Extends : (g : List Cloned) (log : Log) → Extends log (append_group g log)
unfolding append_group append_imported_commit
append_group-Extends [] log = Extends-refl log
append_group-Extends (first ∷ rest) log =
    elim (Bool-cases (any (λ c. not (same_commit first c)) (first ∷ rest))) [
      | inl e ↦ rw e (append_pairs-Extends first (first ∷ rest) log)
      | inr e ↦ rw e (append_event-Extends log _)
    ]

-- An imported or committed event with the given edit.
abbrev pub Commits : Edit → Event → Type 0
Commits edit e = (p : ℕ) × (o : Option Origin) × (e.body ≡ commit edit p o)

same_commit_refl : (c : Cloned) → same_commit c c ≡ true
unfolding same_commit
same_commit_refl c =
    rw (text_eq_refl c.edit.action, text_eq_refl c.edit.path, text_eq_refl c.edit.proposal_text)

same_commit-edit : (c d : Cloned) → same_commit c d ≡ true → c.edit ≡ d.edit
unfolding same_commit
same_commit-edit c d h = ground (
  arith,
  text_eq_sound c.edit.action d.edit.action,
  text_eq_sound c.edit.path d.edit.path,
  text_eq_sound c.edit.proposal_text d.edit.proposal_text,
)

agrees :
    (first x : Cloned) (g : List Cloned)
    → any (λ c. not (same_commit first c)) g ≡ false
    → Some (λ c. c ≡ x) g
    → first.edit ≡ x.edit
unfolding any
agrees first x [] h s = absurd s
agrees first x (c ∷ g) h (inl e) =
    let same : same_commit first c ≡ true = ground arith in
    same_commit-edit first c same ∙ ap (λ k. k.edit) e
agrees first x (c ∷ g) h (inr s) = agrees first x g (ground arith) s

-- A group that does not agree adds a conflict.
disagrees :
    (first : Cloned) (rest : List Cloned) (log : Log)
    → any (λ c. not (same_commit first c)) (first ∷ rest) ≡ true
    → conflict_events (append_pairs first (first ∷ rest) log).events ≢ []
unfolding any append_pairs
disagrees first [] log e h = ground (arith, same_commit_refl first)
disagrees first (d ∷ rest) log e h =
    append_conflict-shows log _ _ _ _ _
      (no_conflicts_before _ _ (append_pairs-Extends first (d ∷ rest) _) h)

append_event-Commits :
    (wanted : Edit) (log : Log) (edit : Edit) (p : ℕ) (o : Option Origin)
    → edit ≡ wanted
    → Some (Commits wanted) (append_event log (commit edit p o)).events
unfolding append_event
append_event-Commits wanted log edit p o e =
    Some-append_right (Commits wanted) log.events (entry_of log (commit edit p o) ∷ [])
      (inl (p, o, ap (λ k. commit k p o) e))

-- A group that adds no conflict adds the edit of each of its commits.
append_group-Commits :
    (x : Cloned) (g : List Cloned) (log : Log)
    → Some (λ c. c ≡ x) g
    → conflict_events (append_group g log).events ≡ []
    → Some (Commits x.edit) (append_group g log).events
unfolding append_group append_imported_commit
append_group-Commits x [] log s h = absurd s
append_group-Commits x (first ∷ rest) log s h =
    elim (Bool-cases (any (λ c. not (same_commit first c)) (first ∷ rest))) [
      | inl e ↦ absurd (disagrees first rest log e (rw e at h))
      | inr e ↦ rw e (
          append_event-Commits x.edit log first.edit first.proposal_seq
            (some
              (record { imported_from = first.imported_from; original_seq = first.original_seq }))
            (agrees first x (first ∷ rest) e s))
    ]

-- A commit is cloned with its edit.
clone_commits-has :
    (edit : Edit) (id : Text) (events : List Event)
    → Some (Commits edit) events
    → (x : Cloned) × (x.edit ≡ edit) × Some (λ c. c ≡ x) (clone_commits events id)
unfolding clone_commits clone_body
clone_commits-has edit id [] s = absurd s
clone_commits-has edit id (e ∷ rest) (inl (p, o, is_commit)) =
    subst
      (λ b.
        (x : Cloned) × (x.edit ≡ edit)
        × Some (λ c. c ≡ x) (clone_body b e.seq id ++ clone_commits rest id))
      (sym is_commit) (_, refl, inl refl)
clone_commits-has edit id (e ∷ rest) (inr later) =
    let (x, same, s) = clone_commits-has edit id rest later in
    (x, same, Some-append_right (λ c. c ≡ x) (clone_body e.body e.seq id) _ s)

module _ (collate : Text → Text → Bool) where
  append_groups-Extends :
      (keys : List Text) (groups : List (Text × List Cloned)) (log : Log)
      → Extends log (append_groups collate keys groups log)
  unfolding append_groups
  append_groups-Extends [] groups log = Extends-refl log
  append_groups-Extends (k ∷ keys) groups log =
      Extends-trans log _ _ (append_group-Extends _ log) (append_groups-Extends keys groups _)

  Some-Extends :
      (P : Event → Type 0) (log after : Log)
      → Extends log after
      → Some P log.events
      → Some P after.events
  Some-Extends P log after k s = rw k.grown (Some-append_left P log.events k.more s)

  append_groups-Commits :
      (x : Cloned) (keys : List Text) (groups : List (Text × List Cloned)) (log : Log)
      → Some (λ k. k ≡ merge_key x) keys
      → Some (λ c. c ≡ x) (get_group (merge_key x) groups)
      → conflict_events (append_groups collate keys groups log).events ≡ []
      → Some (Commits x.edit) (append_groups collate keys groups log).events
  unfolding append_groups
  append_groups-Commits x [] groups log k s h = absurd k
  append_groups-Commits x (j ∷ keys) groups log (inl e) s h =
      Some-Extends (Commits x.edit) _ _ (append_groups-Extends keys groups _) (
        append_group-Commits x _ log
          (Some-sort (collate_commits collate) (λ c. c ≡ x) (get_group j groups) (rw e s))
          (no_conflicts_before _ _ (append_groups-Extends keys groups _) h))
  append_groups-Commits x (j ∷ keys) groups log (inr k) s h =
      append_groups-Commits x keys groups _ k s h

  append_groups-Commits_grouped :
      (left right : List Cloned) (x : Cloned)
      → Some (λ c. c ≡ x) (left ++ right)
      → conflict_events
          (append_groups collate
            (sort text_le (group_keys (group_all (left ++ right) [])))
            (group_all (left ++ right) [])
            create_edit_log).events
        ≡ []
      → Some
          (Commits x.edit)
          (append_groups collate
            (sort text_le (group_keys (group_all (left ++ right) [])))
            (group_all (left ++ right) [])
            create_edit_log).events
  append_groups-Commits_grouped left right x s h =
      let grouped = group_all-has x (left ++ right) [] s in
      append_groups-Commits x _ _ create_edit_log
        (Some-sort text_le (λ k. k ≡ merge_key x) _
          (group_keys-has (λ c. c ≡ x) (merge_key x) _ grouped))
        grouped h

  -- If a merge reports no conflict, every edit that an active commit of either log makes is
  -- committed in the merged log, with the same action, path and text.
  pub merge_logs-Commits :
      (base : Text) (left right : Log) (left_id right_id : Text) (edit : Edit)
      → (merge_logs collate base left right left_id right_id).conflicts ≡ []
      → Some (Commits edit) (active_commit_events left)
        ⊎ Some (Commits edit) (active_commit_events right)
      → Some (Commits edit) (merge_logs collate base left right left_id right_id).merged_log.events
  unfolding merge_logs
  merge_logs-Commits base left right left_id right_id edit h s =
      let (x, same, there) = cloned s in
      subst
        (λ e.
          Some (Commits e) (merge_logs collate base left right left_id right_id).merged_log.events)
        same (append_groups-Commits_grouped left_clones right_clones x there h)
    where
      left_clones : List Cloned
      left_clones = clone_commits (active_commit_events left) (text_or left_id (codes "left"))

      right_clones : List Cloned
      right_clones = clone_commits (active_commit_events right) (text_or right_id (codes "right"))

      cloned :
          Some (Commits edit) (active_commit_events left)
            ⊎ Some (Commits edit) (active_commit_events right)
          → (x : Cloned) × (x.edit ≡ edit) × Some (λ c. c ≡ x) (left_clones ++ right_clones)
      cloned (inl l) =
          let (x, same, there) = clone_commits-has edit _ _ l in
          (x, same, Some-append_left (λ c. c ≡ x) left_clones right_clones there)
      cloned (inr r) =
          let (x, same, there) = clone_commits-has edit _ _ r in
          (x, same, Some-append_right (λ c. c ≡ x) left_clones right_clones there)
