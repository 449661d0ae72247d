-- ===== src/EditLog/Active.antt =====
-- `activeCommitEvents`: the two maps, the pass over the events, and the list that comes out.
use omi_imo.Prelude.{ℕ, Bool, true, false, ◌||◌, List, [], ◌∷◌, ◌==◌, leb, if◌then◌else◌}
use omi_imo.Prelude.Sorting.{sort}
use omi_imo.EditLog.Log.{Event, Log, Body, proposal, commit, undo, redo, conflict}

-- `Map.set` of `commits`: a key that is there keeps its place.
unfoldable pub put_commit : Event → List Event → List Event
put_commit e [] = e ∷ []
put_commit e (d ∷ rest) = if d.seq == e.seq then e ∷ rest else d ∷ put_commit e rest

unfoldable pub has_commit : ℕ → List Event → Bool
has_commit seq [] = false
has_commit seq (d ∷ rest) = d.seq == seq || has_commit seq rest

-- `active`; a missing key is falsy.
unfoldable pub put_flag : ℕ → Bool → List (ℕ × Bool) → List (ℕ × Bool)
put_flag k v [] = (k, v) ∷ []
put_flag k v ((j, w) ∷ rest) = if j == k then (k, v) ∷ rest else (j, w) ∷ put_flag k v rest

unfoldable pub get_flag : ℕ → List (ℕ × Bool) → Bool
get_flag k [] = false
get_flag k ((j, w) ∷ rest) = if j == k then w else get_flag k rest

pub record Maps : Type 0 where
  pub commits : List Event
  pub active : List (ℕ × Bool)

unfoldable pub step_body : Body → Event → Maps → Maps
step_body (proposal _) e m = m
step_body (commit _ _ _) e m = record {
  commits = put_commit e m.commits;
  active = put_flag e.seq true m.active;
}
step_body (undo c) e m =
    if has_commit c m.commits then record m { active = put_flag c false m.active } else m
step_body (redo c) e m =
    if has_commit c m.commits then record m { active = put_flag c true m.active } else m
step_body (conflict _ _ _ _ _) e m = m

unfoldable pub scan : List Event → Maps → Maps
scan [] m = m
scan (e ∷ rest) m = scan rest (step_body e.body e m)

unfoldable pub keep_active : List Event → List (ℕ × Bool) → List Event
keep_active [] active = []
keep_active (e ∷ rest) active =
    if get_flag e.seq active then e ∷ keep_active rest active else keep_active rest active

abbrev pub by_seq : Event → Event → Bool
by_seq a b = leb a.seq b.seq

abbrev pub no_maps : Maps
no_maps = record { commits = []; active = [] }

unfoldable pub active_commit_events : Log → List Event
active_commit_events log =
    let m = scan log.events no_maps in sort by_seq (keep_active m.commits m.active)
