-- ===== src/EditLog/Invariant.antt =====
-- The invariant of a log: its events are numbered upwards, below the next number, and each has the
-- receipt of its own content.
use omi_imo.Prelude.{
  ℕ, suc, ◌+◌, ◌≤◌, ◌<◌, ◌≡◌, refl, List, [], ◌∷◌, ◌++◌, none, some, arith, Text, All, Option-cases,
  inl, inr, subst,
}
use omi_imo.EditLog.Log.{
  Event, Log, Body, Edit, Origin, Side, compute_receipt, create_edit_log, append_event,
  append_proposal, commit_proposal, append_undo, append_redo, append_imported_commit,
  append_conflict, commit, find_proposal,
}

-- From `low` on, each number is larger than the one before.
abbrev pub Rising : ℕ → List Event → Type 0
Rising low [] = Unit
Rising low (e ∷ rest) = (low ≤ e.seq) × Rising (suc e.seq) rest

abbrev pub Below : ℕ → List Event → Type 0
Below high events = All (λ e. e.seq < high) events

abbrev pub Sealed : List Event → Type 0
Sealed events = All (λ e. e.receipt ≡ compute_receipt e.body e.seq) events

pub record IsLog (log : Log) : Type 0 where
  pub rising : Rising 1 log.events
  pub below : Below log.next_seq log.events
  pub sealed : Sealed log.events
  pub started : 1 ≤ log.next_seq

Rising-append :
    (low high : ℕ) (events : List Event) (e : Event)
    → low ≤ high
    → Rising low events
    → Below high events
    → high ≤ e.seq
    → Rising low (events ++ e ∷ [])
Rising-append low high [] e k r b h = (omega arith, tt)
Rising-append low high (d ∷ rest) e k r b h =
    (r.0, Rising-append (suc d.seq) high rest e (omega arith) r.1 b.1 h)

Below-append :
    (high : ℕ) (events : List Event) (e : Event)
    → Below high events
    → e.seq ≡ high
    → Below (high + 1) (events ++ e ∷ [])
Below-append high [] e b h = (omega arith, tt)
Below-append high (d ∷ rest) e b h = (omega (arith, b.0), Below-append high rest e b.1 h)

Sealed-append :
    (events : List Event) (e : Event)
    → Sealed events
    → e.receipt ≡ compute_receipt e.body e.seq
    → Sealed (events ++ e ∷ [])
Sealed-append [] e s h = (h, tt)
Sealed-append (d ∷ rest) e s h = (s.0, Sealed-append rest e s.1 h)

pub append_event-IsLog : {log : Log} (body : Body) → IsLog log → IsLog (append_event log body)
unfolding append_event
append_event-IsLog {log} body v = record {
  rising = Rising-append 1 log.next_seq log.events _ v.started v.rising v.below (omega arith);
  below = Below-append log.next_seq log.events _ v.below refl;
  sealed = Sealed-append log.events _ v.sealed refl;
  started = omega (arith, v.started);
}

pub create_edit_log-IsLog : IsLog create_edit_log
create_edit_log-IsLog = record { rising = tt; below = tt; sealed = tt; started = omega arith }

-- The operations of the log, as a relation between the log before and after.
pub data Appends : Log → Log → Type 0 where
  proposes : (log : Log) (edit : Edit) → Appends log (append_proposal log edit)
  commits :
      (log : Log) (seq : ℕ) {after : Log} → commit_proposal log seq ≡ some after → Appends log after
  undoes : (log : Log) (seq : ℕ) → Appends log (append_undo log seq)
  redoes : (log : Log) (seq : ℕ) → Appends log (append_redo log seq)
  imports :
      (log : Log) (edit : Edit) (seq : ℕ) (origin : Origin)
      → Appends log (append_imported_commit log edit seq origin)
  conflicts :
      (log : Log) (action path : Text) (left right : Side) (reason : Text)
      → Appends log (append_conflict log action path left right reason)

pub data Reach : Log → Type 0 where
  created : Reach create_edit_log
  then_ : {log after : Log} → Reach log → Appends log after → Reach after

commit_proposal-IsLog :
    (log : Log) (seq : ℕ) {after : Log}
    → commit_proposal log seq ≡ some after
    → IsLog log
    → IsLog after
unfolding commit_proposal
commit_proposal-IsLog log seq {after} h v = elim (Option-cases (find_proposal seq log.events)) [
  | inl missing ↦ absurd (never missing)
  | inr (edit, found) ↦ subst IsLog (made edit found) (append_event-IsLog (commit edit seq none) v)
]
  where
    never : find_proposal seq log.events ≡ none → ⊥
    never missing = ground arith

    made :
        (edit : Edit)
        → find_proposal seq log.events ≡ some edit
        → append_event log (commit edit seq none) ≡ after
    made edit found = ground arith

Appends-IsLog : {log after : Log} → Appends log after → IsLog log → IsLog after
unfolding append_proposal append_undo append_redo append_imported_commit append_conflict
Appends-IsLog (proposes log edit) v = append_event-IsLog _ v
Appends-IsLog (commits log seq h) v = commit_proposal-IsLog log seq h v
Appends-IsLog (undoes log seq) v = append_event-IsLog _ v
Appends-IsLog (redoes log seq) v = append_event-IsLog _ v
Appends-IsLog (imports log edit seq origin) v = append_event-IsLog _ v
Appends-IsLog (conflicts log action path left right []) v = append_event-IsLog _ v
Appends-IsLog (conflicts log action path left right (c ∷ reason)) v = append_event-IsLog _ v

-- Every log that the operations can reach is numbered upwards and sealed by its receipts.
pub Reach-IsLog : {log : Log} → Reach log → IsLog log
Reach-IsLog created = create_edit_log-IsLog
Reach-IsLog (then_ r a) = Appends-IsLog a (Reach-IsLog r)
