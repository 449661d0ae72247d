-- ===== src/EditLog/Refinement.antt =====
-- `activeCommitEvents` against what it promises: the commits whose last undo or redo, if they have
-- one, is a redo, in the order of the log.
use omi_imo.Prelude.{
  ℕ, suc, ◌≤◌, ◌<◌, ◌≡◌, refl, sym, ap, ap₂, ◌∙◌, Bool, true, false, ◌&&◌, List, [], ◌∷◌, ◌++◌,
  arith, All, ◌==◌, if◌then◌else◌, append_assoc, append-nil, Bool-cases, inl, inr, All-append,
  le→leb,
}
use omi_imo.Prelude.Sorting.{IsSorted, sort, sort_of_sorted}
use omi_imo.EditLog.Log.{Event, Log, Body, proposal, commit, undo, redo, conflict}
use omi_imo.EditLog.Active.{
  put_commit, has_commit, put_flag, get_flag, Maps, step_body, scan, keep_active, by_seq, no_maps,
  active_commit_events,
}
use omi_imo.EditLog.Invariant.{Rising, Below, IsLog}

-- What an event does to the flag of commit `c`.
abbrev pub flag_step : ℕ → Body → Bool → Bool
flag_step c (proposal _) flag = flag
flag_step c (commit _ _ _) flag = flag
flag_step c (undo d) flag = if d == c then false else flag
flag_step c (redo d) flag = if d == c then true else flag
flag_step c (conflict _ _ _ _ _) flag = flag

-- The flag of commit `c` after the events that follow it.
unfoldable pub flag_after : ℕ → List Event → Bool → Bool
flag_after c [] flag = flag
flag_after c (e ∷ rest) flag = flag_after c rest (flag_step c e.body flag)

abbrev pub is_commit : Body → Bool
is_commit (proposal _) = false
is_commit (commit _ _ _) = true
is_commit (undo _) = false
is_commit (redo _) = false
is_commit (conflict _ _ _ _ _) = false

-- The specification.
unfoldable pub active_commits : List Event → List Event
active_commits [] = []
active_commits (e ∷ rest) =
    if is_commit e.body && flag_after e.seq rest true
    then e ∷ active_commits rest
    else active_commits rest

-- The maps' laws.
get_flag-put_flag :
    (j k : ℕ) (v : Bool) (m : List (ℕ × Bool))
    → get_flag j (put_flag k v m) ≡ (if k == j then v else get_flag j m)
unfolding get_flag put_flag
get_flag-put_flag j k v [] = refl
get_flag-put_flag j k v ((i, w) ∷ m) = ground (arith, get_flag-put_flag j k v m)

put_commit_fresh :
    (e : Event) (commits : List Event)
    → Below e.seq commits
    → put_commit e commits ≡ commits ++ e ∷ []
unfolding put_commit
put_commit_fresh e [] b = refl
put_commit_fresh e (d ∷ rest) b = ground (arith, put_commit_fresh e rest)

-- The commits of the maps that survive the events to come.
survivors : List Event → List (ℕ × Bool) → List Event → List Event
survivors [] active rest = []
survivors (c ∷ commits) active rest =
    if flag_after c.seq rest (get_flag c.seq active)
    then c ∷ survivors commits active rest
    else survivors commits active rest

survivors-nil :
    (commits : List Event) (active : List (ℕ × Bool))
    → survivors commits active [] ≡ keep_active commits active
unfolding survivors keep_active flag_after
survivors-nil [] active = refl
survivors-nil (c ∷ commits) active = ground (arith, survivors-nil commits active)

-- A flag that is set as the next event says leaves the survivors the same.
survivors-step :
    (commits : List Event) (active active' : List (ℕ × Bool)) (e : Event) (rest : List Event)
    → All (λ c. get_flag c.seq active' ≡ flag_step c.seq e.body (get_flag c.seq active)) commits
    → survivors commits active' rest ≡ survivors commits active (e ∷ rest)
unfolding survivors flag_after
survivors-step [] active active' e rest h = refl
survivors-step (c ∷ commits) active active' e rest h =
    rw (h.0, survivors-step commits active active' e rest h.1)

survivors-append :
    (commits : List Event) (c : Event) (active : List (ℕ × Bool)) (rest : List Event)
    → survivors (commits ++ c ∷ []) active rest
      ≡ survivors commits active rest ++ survivors (c ∷ []) active rest
unfolding survivors
survivors-append [] c active rest = refl
survivors-append (d ∷ commits) c active rest =
    ground (arith, survivors-append commits c active rest)

abbrev Flags : Body → List (ℕ × Bool) → List (ℕ × Bool) → List Event → Type 0
Flags b active active' commits =
    All (λ c. get_flag c.seq active' ≡ flag_step c.seq b (get_flag c.seq active)) commits

flags_commit :
    (s : ℕ) (active : List (ℕ × Bool)) (commits : List Event)
    → Below s commits
    → All (λ c. get_flag c.seq (put_flag s true active) ≡ get_flag c.seq active) commits
flags_commit s active [] b = tt
flags_commit s active (c ∷ commits) b =
    (ground (arith, get_flag-put_flag c.seq s true active, b.0), flags_commit s active commits b.1)

flags_put :
    (d : ℕ) (v : Bool) (active : List (ℕ × Bool)) (commits : List Event)
    → All
        (λ c.
          get_flag c.seq (put_flag d v active) ≡ (if d == c.seq then v else get_flag c.seq active))
        commits
flags_put d v active [] = tt
flags_put d v active (c ∷ commits) =
    (get_flag-put_flag c.seq d v active, flags_put d v active commits)

flags_absent :
    (d : ℕ) (v : Bool) (active : List (ℕ × Bool)) (commits : List Event)
    → has_commit d commits ≡ false
    → All (λ c. get_flag c.seq active ≡ (if d == c.seq then v else get_flag c.seq active)) commits
unfolding has_commit
flags_absent d v active [] h = tt
flags_absent d v active (c ∷ commits) h =
    (ground arith, flags_absent d v active commits (ground arith))

flags_same :
    (active : List (ℕ × Bool)) (commits : List Event)
    → All (λ c. get_flag c.seq active ≡ get_flag c.seq active) commits
flags_same active [] = tt
flags_same active (c ∷ commits) = (refl, flags_same active commits)

abbrev event : Body → ℕ → ℕ → Event
event b s r = record { body = b; seq = s; receipt = r }

abbrev maps : List Event → List (ℕ × Bool) → Maps
maps commits active = record { commits = commits; active = active }

abbrev outcome : Maps → List Event → List Event
outcome m rest = survivors m.commits m.active rest ++ active_commits rest

-- One event: the outcome promised before it is the one promised after it.
outcome-step :
    (b : Body) (s r : ℕ) (commits : List Event) (active : List (ℕ × Bool)) (rest : List Event)
    → Below s commits
    → outcome (step_body b (event b s r) (maps commits active)) rest
      ≡ outcome (maps commits active) (event b s r ∷ rest)
unfolding step_body active_commits
outcome-step (proposal e) s r commits active rest low =
    ap (λ l. l ++ active_commits rest)
      (survivors-step commits active active (event (proposal e) s r) rest
        (flags_same active commits))
outcome-step (conflict a p x y w) s r commits active rest low =
    ap (λ l. l ++ active_commits rest)
      (survivors-step commits active active (event (conflict a p x y w) s r) rest
        (flags_same active commits))
outcome-step (undo d) s r commits active rest low = elim (Bool-cases (has_commit d commits)) [
  | inl there ↦ rw there (
      ap (λ l. l ++ active_commits rest)
        (survivors-step commits active _ (event (undo d) s r) rest
          (flags_put d false active commits)))
  | inr missing ↦ rw missing (
      ap (λ l. l ++ active_commits rest)
        (survivors-step commits active active (event (undo d) s r) rest
          (flags_absent d false active commits missing)))
]
outcome-step (redo d) s r commits active rest low = elim (Bool-cases (has_commit d commits)) [
  | inl there ↦ rw there (
      ap (λ l. l ++ active_commits rest)
        (survivors-step commits active _ (event (redo d) s r) rest
          (flags_put d true active commits)))
  | inr missing ↦ rw missing (
      ap (λ l. l ++ active_commits rest)
        (survivors-step commits active active (event (redo d) s r) rest
          (flags_absent d true active commits missing)))
]
outcome-step (commit e p o) s r commits active rest low =
    ap (λ l. survivors l (put_flag s true active) rest ++ active_commits rest)
      (put_commit_fresh (event (commit e p o) s r) commits low)
    ∙ (ap (λ l. l ++ active_commits rest)
          (survivors-append commits (event (commit e p o) s r) (put_flag s true active) rest)
        ∙ (append_assoc (survivors commits (put_flag s true active) rest)
              (survivors (event (commit e p o) s r ∷ []) (put_flag s true active) rest)
              (active_commits rest)
            ∙ ap₂ (λ k l. k ++ l)
                (survivors-step commits active (put_flag s true active) (event (commit e p o) s r)
                  rest (flags_commit s active commits low))
                newest))
  where
    newest :
        survivors (event (commit e p o) s r ∷ []) (put_flag s true active) rest
          ++ active_commits rest
        ≡ (if flag_after s rest true
            then event (commit e p o) s r ∷ active_commits rest
            else active_commits rest)
    newest = unfold survivors in ground (arith, get_flag-put_flag s s true active)

Below-weaken : (s t : ℕ) (l : List Event) → s ≤ t → Below s l → Below t l
Below-weaken s t [] h b = tt
Below-weaken s t (e ∷ l) h b = (omega (arith, b.0), Below-weaken s t l h b.1)

step_body-Below :
    (b : Body) (e : Event) (commits : List Event) (active : List (ℕ × Bool))
    → Below e.seq commits
    → Below (suc e.seq) (step_body b e (maps commits active)).commits
unfolding step_body
step_body-Below (proposal _) e commits active low =
    Below-weaken e.seq (suc e.seq) commits (omega arith) low
step_body-Below (commit _ _ _) e commits active low = rw (put_commit_fresh e commits low) (
    All-append (λ c. c.seq < suc e.seq) commits (e ∷ [])
      (Below-weaken e.seq (suc e.seq) commits (omega arith) low) (omega arith, tt))
step_body-Below (undo d) e commits active low = elim (Bool-cases (has_commit d commits)) [
  | inl there ↦ rw there (Below-weaken e.seq (suc e.seq) commits (omega arith) low)
  | inr missing ↦ rw missing (Below-weaken e.seq (suc e.seq) commits (omega arith) low)
]
step_body-Below (redo d) e commits active low = elim (Bool-cases (has_commit d commits)) [
  | inl there ↦ rw there (Below-weaken e.seq (suc e.seq) commits (omega arith) low)
  | inr missing ↦ rw missing (Below-weaken e.seq (suc e.seq) commits (omega arith) low)
]
step_body-Below (conflict _ _ _ _ _) e commits active low =
    Below-weaken e.seq (suc e.seq) commits (omega arith) low

scan-outcome :
    (rest : List Event) (m : Maps) (low : ℕ)
    → Below low m.commits
    → Rising low rest
    → keep_active (scan rest m).commits (scan rest m).active ≡ outcome m rest
unfolding scan active_commits
scan-outcome [] m low b r = sym (append-nil _ ∙ survivors-nil m.commits m.active)
scan-outcome (e ∷ rest) m low b r =
    let here = Below-weaken low e.seq m.commits r.0 b in
    scan-outcome rest (step_body e.body e m) (suc e.seq)
      (step_body-Below e.body e m.commits m.active here) r.1
    ∙ outcome-step e.body e.seq e.receipt m.commits m.active rest here

All-by_seq :
    (e : Event) (l : List Event) → All (λ c. suc e.seq ≤ c.seq) l → All (λ c. by_seq e c ≡ true) l
All-by_seq e [] h = tt
All-by_seq e (c ∷ l) h = (le→leb e.seq c.seq (omega (arith, h.0)), All-by_seq e l h.1)

All-above :
    (low high : ℕ) (l : List Event)
    → low ≤ high
    → All (λ c. high ≤ c.seq) l
    → All (λ c. low ≤ c.seq) l
All-above low high [] k h = tt
All-above low high (c ∷ l) k h = (omega (arith, h.0), All-above low high l k h.1)

active_commits-IsSorted :
    (low : ℕ) (events : List Event)
    → Rising low events
    → IsSorted by_seq (active_commits events) × All (λ c. low ≤ c.seq) (active_commits events)
unfolding active_commits
active_commits-IsSorted low [] r = (tt, tt)
active_commits-IsSorted low (e ∷ rest) r =
    let (sorted, above) = active_commits-IsSorted (suc e.seq) rest r.1 in
    elim (Bool-cases (is_commit e.body && flag_after e.seq rest true)) [
      | inl kept ↦ rw kept (
        (All-by_seq e (active_commits rest) above, sorted),
        (r.0, All-above low (suc e.seq) (active_commits rest) (omega (arith, r.0)) above),
      )
      | inr dropped ↦
          rw dropped
            (sorted, All-above low (suc e.seq) (active_commits rest) (omega (arith, r.0)) above)
    ]

-- On a log that satisfies the invariant, the active commits are the specified ones.
pub active_commit_events-eq :
    (log : Log) → IsLog log → active_commit_events log ≡ active_commits log.events
unfolding active_commit_events survivors
active_commit_events-eq log v =
    ap (λ l. sort by_seq l) (scan-outcome log.events no_maps 1 tt v.rising)
    ∙ sort_of_sorted by_seq (active_commits log.events)
        (active_commits-IsSorted 1 log.events v.rising).0
