-- ===== src/EditLog/History.antt =====
-- What each operation does to the active commits.
use omi_imo.Prelude.{
  ℕ, suc, ◌<◌, ◌≤◌, ==_iff, ◌≡◌, refl, sym, ap, ◌∙◌, Bool, true, false, none, some, List, [], ◌∷◌,
  ◌++◌, arith, ◌==◌, if◌then◌else◌, Bool-cases, inl, inr, Option-cases, Some, ◌⊎◌,
}
use omi_imo.EditLog.Log.{
  Event, Log, Edit, Body, proposal, commit, undo, redo, conflict, append_undo, append_redo,
  append_event, entry_of, append_proposal, commit_proposal, find_proposal,
}
use omi_imo.EditLog.Active.{active_commit_events, has_commit}
use omi_imo.EditLog.Invariant.{Rising, IsLog, append_event-IsLog}
use omi_imo.EditLog.Refinement.{flag_step, flag_after, active_commits, active_commit_events-eq}

flag_after-append :
    (c : ℕ) (events : List Event) (e : Event) (flag : Bool)
    → flag_after c (events ++ e ∷ []) flag ≡ flag_step c e.body (flag_after c events flag)
unfolding flag_after
flag_after-append c [] e flag = refl
flag_after-append c (d ∷ events) e flag = flag_after-append c events e (flag_step c d.body flag)

-- The commits but the one numbered `c`.
unfoldable pub without : ℕ → List Event → List Event
without c [] = []
without c (e ∷ rest) = if e.seq == c then without c rest else e ∷ without c rest

active_commits-append_undo :
    (events : List Event) (c s r : ℕ)
    → active_commits (events ++ record { body = undo c; seq = s; receipt = r } ∷ [])
      ≡ without c (active_commits events)
unfolding active_commits without
active_commits-append_undo [] c s r = refl
active_commits-append_undo (e ∷ events) c s r = ground (
  arith,
  flag_after-append e.seq events (record { body = undo c; seq = s; receipt = r }) true,
  active_commits-append_undo events c s r,
)

active_commits-append_commit :
    (events : List Event) (edit : Edit) (p s r : ℕ)
    → active_commits (events ++ record { body = commit edit p none; seq = s; receipt = r } ∷ [])
      ≡ active_commits events ++ record { body = commit edit p none; seq = s; receipt = r } ∷ []
unfolding active_commits flag_after
active_commits-append_commit [] edit p s r = refl
active_commits-append_commit (e ∷ events) edit p s r = ground (
  arith,
  flag_after-append e.seq events (record { body = commit edit p none; seq = s; receipt = r }) true,
  active_commits-append_commit events edit p s r,
)

active_commits-append_proposal :
    (events : List Event) (edit : Edit) (s r : ℕ)
    → active_commits (events ++ record { body = proposal edit; seq = s; receipt = r } ∷ [])
      ≡ active_commits events
unfolding active_commits
active_commits-append_proposal [] edit s r = refl
active_commits-append_proposal (e ∷ events) edit s r = ground (
  arith,
  flag_after-append e.seq events (record { body = proposal edit; seq = s; receipt = r }) true,
  active_commits-append_proposal events edit s r,
)

abbrev redoing : ℕ → ℕ → ℕ → Event
redoing c s r = record { body = redo c; seq = s; receipt = r }

redo_absent :
    (events : List Event) (c s r low : ℕ)
    → c < low
    → Rising low events
    → active_commits (events ++ redoing c s r ∷ []) ≡ active_commits events
unfolding active_commits
redo_absent [] c s r low h k = refl
redo_absent (e ∷ events) c s r low h k = ground (
  arith,
  flag_after-append e.seq events (redoing c s r) true,
  k.0,
  redo_absent events c s r (suc e.seq) (omega (arith, k.0)) k.1,
)

has_commit_absent :
    (events : List Event) (c low : ℕ)
    → c < low
    → Rising low events
    → has_commit c (active_commits events) ≡ false
unfolding active_commits has_commit
has_commit_absent [] c low h k = refl
has_commit_absent (e ∷ events) c low h k =
    ground (arith, k.0, has_commit_absent events c (suc e.seq) (omega (arith, k.0)) k.1)

redo_active :
    (events : List Event) (c s r low : ℕ)
    → Rising low events
    → has_commit c (active_commits events) ≡ true
    → active_commits (events ++ redoing c s r ∷ []) ≡ active_commits events
unfolding active_commits has_commit
redo_active [] c s r low k h = cc
redo_active (e ∷ events) c s r low k h = elim (Bool-cases (e.seq == c)) [
  | inl here ↦ ground (
    arith,
    flag_after-append e.seq events (redoing c s r) true,
    redo_absent events c s r (suc e.seq) (ground arith) k.1,
    has_commit_absent events c (suc e.seq) (ground arith) k.1,
  )
  | inr other ↦ ground (
    arith,
    flag_after-append e.seq events (redoing c s r) true,
    redo_active events c s r (suc e.seq) k.1,
  )
]

abbrev undoing : ℕ → ℕ → ℕ → Event
undoing c s r = record { body = undo c; seq = s; receipt = r }

redo_after_undo :
    (events : List Event) (c s r s' r' i j : ℕ)
    → active_commits ((events ++ undoing c s r ∷ []) ++ redoing c s' r' ∷ [])
      ≡ active_commits (events ++ redoing c i j ∷ [])
unfolding active_commits
redo_after_undo [] c s r s' r' i j = refl
redo_after_undo (e ∷ events) c s r s' r' i j = ground (
  arith,
  flag_after-append e.seq (events ++ undoing c s r ∷ []) (redoing c s' r') true,
  flag_after-append e.seq events (undoing c s r) true,
  flag_after-append e.seq events (redoing c i j) true,
  redo_after_undo events c s r s' r' i j,
)

active_commit_events-append_event :
    (log : Log) (b : Body)
    → IsLog log
    → active_commit_events (append_event log b) ≡ active_commits (log.events ++ entry_of log b ∷ [])
unfolding append_event
active_commit_events-append_event log b v =
    active_commit_events-eq (append_event log b) (append_event-IsLog b v)

-- An undo takes exactly the commit with its number out of the active ones.
pub active_commit_events-append_undo :
    (log : Log) (c : ℕ)
    → IsLog log
    → active_commit_events (append_undo log c) ≡ without c (active_commit_events log)
unfolding append_undo
active_commit_events-append_undo log c v =
    active_commit_events-append_event log (undo c) v
    ∙ active_commits-append_undo log.events c log.next_seq _
    ∙ ap (without c) (sym (active_commit_events-eq log v))

append_redo-active :
    (log : Log) (c : ℕ)
    → IsLog log
    → has_commit c (active_commit_events log) ≡ true
    → active_commit_events (append_redo log c) ≡ active_commit_events log
unfolding append_redo
append_redo-active log c v h =
    active_commit_events-append_event log (redo c) v
    ∙ redo_active log.events c log.next_seq _ 1 v.rising (rw (active_commit_events-eq log v) at h)
    ∙ sym (active_commit_events-eq log v)

append_redo-append_undo :
    (log : Log) (c : ℕ)
    → IsLog log
    → active_commit_events (append_redo (append_undo log c) c)
      ≡ active_commit_events (append_redo log c)
unfolding append_redo append_undo append_event
append_redo-append_undo log c v =
    active_commit_events-append_event (append_event log (undo c)) (redo c)
      (append_event-IsLog (undo c) v)
    ∙ redo_after_undo log.events c _ _ _ _ _ _
    ∙ sym (active_commit_events-append_event log (redo c) v)

-- A redo of an active commit changes nothing, and one behind an undo of it brings it back.
pub active_commit_events-redo :
    (log : Log) (c : ℕ)
    → IsLog log
    → has_commit c (active_commit_events log) ≡ true
    → (active_commit_events (append_redo log c) ≡ active_commit_events log)
      × (active_commit_events (append_redo (append_undo log c) c) ≡ active_commit_events log)
active_commit_events-redo log c v h =
    (append_redo-active log c v h, append_redo-append_undo log c v ∙ append_redo-active log c v h)

-- The event is the proposal numbered `seq`, of that edit.
pub Proposes : ℕ → Edit → Event → Type 0
Proposes seq edit e = (e.seq ≡ seq) × (e.body ≡ proposal edit)

-- An event that is no proposal is passed over.
proposal_or_other :
    (b : Body)
    → ((edit : Edit) × (b ≡ proposal edit))
      ⊎ ((seq : ℕ) (e : Event) (rest : List Event)
          → e.body ≡ b
          → find_proposal seq (e ∷ rest) ≡ find_proposal seq rest)
unfolding find_proposal
proposal_or_other (proposal edit) = inl (edit, refl)
proposal_or_other (commit edit p o) = inr (λ seq e rest h. rw h refl)
proposal_or_other (undo c) = inr (λ seq e rest h. rw h refl)
proposal_or_other (redo c) = inr (λ seq e rest h. rw h refl)
proposal_or_other (conflict a p l r w) = inr (λ seq e rest h. rw h refl)

find_proposal-found :
    (seq : ℕ) (events : List Event) {edit : Edit}
    → find_proposal seq events ≡ some edit
    → Some (Proposes seq edit) events
unfolding find_proposal Proposes
find_proposal-found seq [] h = cc
find_proposal-found seq (e ∷ rest) {edit} h = elim (proposal_or_other e.body) [
  | inl (other, is_proposal) ↦ elim (Bool-cases (e.seq == seq)) [
    | inl at ↦
        (let first : find_proposal seq (e ∷ rest) ≡ some other = rw (is_proposal, at) refl in
          let same = sym first ∙ h in
          let edits : other ≡ edit = cc in
          inl ((==_iff e.seq seq).0 at, is_proposal ∙ ap proposal edits))
    | inr away ↦
        (let later : find_proposal seq (e ∷ rest) ≡ find_proposal seq rest =
            rw (is_proposal, away) refl in
          inr (find_proposal-found seq rest (sym later ∙ h)))
  ]
  | inr passed ↦ inr (find_proposal-found seq rest (sym (passed seq e rest refl) ∙ h))
]

Some-number :
    (seq : ℕ) (edit : Edit) (low : ℕ) (events : List Event)
    → Rising low events
    → Some (Proposes seq edit) events
    → low ≤ seq
unfolding Proposes
Some-number seq edit low [] r s = absurd s
Some-number seq edit low (e ∷ rest) r (inl (at, _)) = omega (arith, r.0, at)
Some-number seq edit low (e ∷ rest) r (inr later) =
    let below = Some-number seq edit (suc e.seq) rest r.1 later in omega (arith, r.0, below)

find_proposal-some :
    (seq low : ℕ) (edit : Edit) (events : List Event)
    → Rising low events
    → Some (Proposes seq edit) events
    → find_proposal seq events ≡ some edit
unfolding find_proposal Proposes
find_proposal-some seq low edit [] r s = absurd s
find_proposal-some seq low edit (e ∷ rest) r (inl (at, is_proposal)) =
    ground (arith, at, is_proposal)
find_proposal-some seq low edit (e ∷ rest) r (inr later) =
    let found = find_proposal-some seq (suc e.seq) edit rest r.1 later in
    let apart = Some-number seq edit (suc e.seq) rest r.1 later in ground (arith, found, apart)

commit_proposal-missing :
    (log : Log) (seq : ℕ) {after : Log}
    → find_proposal seq log.events ≡ none
    → commit_proposal log seq ≡ some after
    → ⊥
unfolding commit_proposal
commit_proposal-missing log seq missing h =
    let gone : commit_proposal log seq ≡ none = rw (missing, commit_proposal) refl in cc

-- In a log, a number is committed exactly if an event with that number proposes an edit. The commit
-- adds one active commit, the last, with the edit of that proposal; a proposal itself changes no
-- active commit.
pub active_commit_events-commit_proposal :
    (log : Log) (seq : ℕ)
    → IsLog log
    → ((edit : Edit)
        → Some (Proposes seq edit) log.events
        → (after : Log) × (commit_proposal log seq ≡ some after)
          × (active_commit_events after
              ≡ active_commit_events log ++ entry_of log (commit edit seq none) ∷ []))
      × ((after : Log)
          → commit_proposal log seq ≡ some after
          → (edit : Edit) × Some (Proposes seq edit) log.events)
      × ((edit : Edit) → active_commit_events (append_proposal log edit) ≡ active_commit_events log)
unfolding commit_proposal append_proposal
active_commit_events-commit_proposal log seq v = (
  λ edit proposed.
      let found = find_proposal-some seq 1 edit log.events v.rising proposed in
      (
        append_event log (commit edit seq none),
        rw (found, commit_proposal),
        active_commit_events-append_event log (commit edit seq none) v
            ∙ active_commits-append_commit log.events edit seq log.next_seq _
            ∙ ap (λ l. l ++ entry_of log (commit edit seq none) ∷ [])
                (sym (active_commit_events-eq log v)),
      ),
  λ after committed. elim (Option-cases (find_proposal seq log.events)) [
    | inl missing ↦ absurd (commit_proposal-missing log seq missing committed)
    | inr (edit, found) ↦ (edit, find_proposal-found seq log.events found)
  ],
  λ edit.
      active_commit_events-append_event log (proposal edit) v
      ∙ active_commits-append_proposal log.events edit log.next_seq _
      ∙ sym (active_commit_events-eq log v),
)
