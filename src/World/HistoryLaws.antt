-- ===== src/World/HistoryLaws.antt =====
-- Why the replay of a history ends, and where (workbench/src/autonomous_world_version_history.js).
use omi_imo.Prelude.{
  ℕ, suc, zero, ◌+◌, ◌≤◌, ◌<◌, ◌≡◌, refl, sym, ap, ◌∙◌, subst, Bool, true, false, ◌||◌, Option,
  none, some, Option-cases, append-nil, List, [], ◌∷◌, ◌++◌, map, Text, text_eq, text_eq_refl,
  text_eq_sound, any, length, length-nil, All, All-weaken, All-filter, Some, if◌then◌else◌,
  Bool-cases, inl, inr, arith, ◌⊎◌,
}
use omi_imo.Prelude.Sorting.{sort, length-sort, All-sort}
use omi_imo.Identity.Json.{Value, decimal}
use omi_imo.Identity.Values.{is_inherited}
use omi_imo.Transport.Unique.{has, has-append}
use omi_imo.World.History.{HistoryEdge, HistoryGraph, outgoing_edges}
use omi_imo.World.HistoryWalk.{
  Walk, LatestReplay, last_of, is_blank, is_visited, next_edge, walk, start_key, seal_latest,
  replay_latest,
}

is_from : Text → HistoryEdge → Bool
is_from key e = text_eq (decimal e.from_identity) key

-- The edges that do not leave a visited world.
unvisited : List Text → List HistoryEdge → ℕ
unvisited visited [] = 0
unvisited visited (e ∷ rest) =
    let later = unvisited visited rest in
    if any (text_eq (decimal e.from_identity)) visited then later else later + 1

unvisited-all : (l : List HistoryEdge) → unvisited [] l ≡ length l
unfolding unvisited any
unvisited-all [] = refl
unvisited-all (e ∷ rest) = omega (arith, unvisited-all rest)

unvisited-le :
    (key : Text) (visited : List Text) (l : List HistoryEdge)
    → unvisited (key ∷ visited) l ≤ unvisited visited l
unfolding unvisited any
unvisited-le key visited [] = omega arith
unvisited-le key visited (e ∷ rest) = ground (arith, unvisited-le key visited rest)

unvisited-lt :
    (key : Text) (visited : List Text) (l : List HistoryEdge)
    → any (text_eq key) visited ≡ false
    → any (is_from key) l ≡ true
    → unvisited (key ∷ visited) l < unvisited visited l
unfolding unvisited any is_from
unvisited-lt key visited [] new h = cc
unvisited-lt key visited (e ∷ rest) new h =
    elim (Bool-cases (text_eq (decimal e.from_identity) key)) [
      | inl here ↦
          (let fresh =
              subst (λ k. any (text_eq k) visited ≡ false) (sym (text_eq_sound _ key here)) new in
            ground (arith, unvisited-le key visited rest))
      | inr other ↦
          (let later = unvisited-lt key visited rest new (ground (arith, h)) in
            ground (arith, later))
    ]

abbrev pub IsMember : HistoryEdge → List HistoryEdge → Type 0
IsMember e = Some (λ x. x ≡ e)

All-members : (l : List HistoryEdge) → All (λ e. IsMember e l) l
All-members [] = tt
All-members (e ∷ rest) = (
  inl refl,
  All-weaken (λ x. IsMember x rest) (λ x. IsMember x (e ∷ rest)) rest (λ x m. inr m)
      (All-members rest),
)

member-any :
    (key : Text) (e : HistoryEdge) (l : List HistoryEdge)
    → IsMember e l
    → decimal e.from_identity ≡ key
    → any (is_from key) l ≡ true
unfolding any is_from
member-any key e [] m h = absurd m
member-any key e (x ∷ rest) (inl same) h =
    (let here =
        subst (λ k. text_eq (decimal x.from_identity) k ≡ true)
          (ap (λ y. decimal y.from_identity) same ∙ h) (text_eq_refl (decimal x.from_identity)) in
      ground (arith, here))
member-any key e (x ∷ rest) (inr later) h =
    (let below = member-any key e rest later h in ground (arith, below))

last_of-All :
    (P : HistoryEdge → Type 0) (l : List HistoryEdge) {e : HistoryEdge}
    → All P l
    → last_of l ≡ some e
    → P e
unfolding last_of
last_of-All P [] a h = cc
last_of-All P (x ∷ rest) {e} (p, a) h = elim (Option-cases (last_of rest)) [
  | inl none_left ↦ (let same : x ≡ e = ground (arith, h, none_left) in subst P same p)
  | inr (y, found) ↦
      (let same : y ≡ e = ground (arith, h, found) in subst P same (last_of-All P rest a found))
]

last_of-none : (l : List HistoryEdge) → last_of l ≡ none → l ≡ []
unfolding last_of
last_of-none [] h = refl
last_of-none (x ∷ rest) h = elim (Option-cases (last_of rest)) [
  | inl none_left ↦ ground (arith, h, none_left)
  | inr (y, found) ↦ ground (arith, h, found)
]

-- A trail of edges of the graph from one world to another.
pub IsTrail : List HistoryEdge → Text → List HistoryEdge → Text → Type 0
IsTrail edges key [] last = key ≡ last
IsTrail edges key (e ∷ rest) last =
    (decimal e.from_identity ≡ key)
    × IsMember e edges
    × IsTrail edges (decimal e.to_identity) rest last

module _ (collate : Text → Text → Bool) {Contents : Type 0} (g : HistoryGraph Contents) where
  next_edge-leaves :
      (key : Text) {e : HistoryEdge}
      → next_edge collate g key ≡ some e
      → (decimal e.from_identity ≡ key) × IsMember e g.edges
  unfolding next_edge outgoing_edges
  next_edge-leaves key h =
      last_of-All (λ e. (decimal e.from_identity ≡ key) × IsMember e g.edges) _
        (All-sort _ _ _ (
          All-filter _ (λ e. IsMember e g.edges) (λ e. text_eq (decimal e.from_identity) key)
            g.edges (λ e m same. (text_eq_sound (decimal e.from_identity) key same, m))
            (All-members g.edges)))
        h

  next_edge-none : (key : Text) → next_edge collate g key ≡ none → outgoing_edges g key ≡ []
  unfolding next_edge
  next_edge-none key h =
      let le : HistoryEdge → HistoryEdge → Bool =
        λ a b. collate (decimal a.history_edge_receipt) (decimal b.history_edge_receipt) in
      length-nil (outgoing_edges g key) (
        sym (length-sort le (outgoing_edges g key))
        ∙ ap length (last_of-none (sort le (outgoing_edges g key)) h))

  visited_moved :
      (last current : Text) (xs visited : List Text)
      → is_visited last (xs ++ current ∷ visited) ≡ is_visited last (current ∷ (xs ++ visited))
  unfolding is_visited any
  visited_moved last current xs visited =
      let a = has-append last xs (current ∷ visited) in
      let b = has-append last xs visited in
      ap (λ b. b || is_inherited last) (unfold has any in ground (arith, a, b))

  -- Where a walk may stop.
  abbrev pub Stops : Text → List Text → Type 0
  Stops last visited =
      (is_blank last || is_visited last visited ≡ true) ⊎ (outgoing_edges g last ≡ [])

  not_visited :
      (current : Text) (visited : List Text)
      → (is_blank current || is_visited current visited) ≡ false
      → any (text_eq current) visited ≡ false
  unfolding is_visited
  not_visited current visited h = ground (arith, h)

  Stops-later :
      (current : Text) (visited : List Text) (e : HistoryEdge) (w : Walk)
      → decimal e.from_identity ≡ current
      → Stops w.latest (map (λ e. decimal e.from_identity) w.path ++ current ∷ visited)
      → Stops w.latest
          (decimal e.from_identity ∷ (map (λ e. decimal e.from_identity) w.path ++ visited))
  Stops-later current visited e w leaves (inr end) = inr end
  Stops-later current visited e w leaves (inl stop) =
      let moved =
        visited_moved w.latest current (map (λ e. decimal e.from_identity) w.path) visited in
      inl (
        subst
          (λ k.
            (is_blank w.latest
              || is_visited w.latest (k ∷ (map (λ e. decimal e.from_identity) w.path ++ visited)))
            ≡ true)
          (sym leaves) (ap (λ b. is_blank w.latest || b) (sym moved) ∙ stop))

  walk-ends :
      (fuel : ℕ) (current : Text) (visited : List Text)
      → unvisited visited g.edges < fuel
      → (w : Walk) × (walk collate fuel g current visited ≡ some w)
        × IsTrail g.edges current w.path w.latest
        × Stops w.latest (map (λ e. decimal e.from_identity) w.path ++ visited)
  unfolding walk IsTrail
  walk-ends zero current visited h = absurd (omega (arith, h))
  walk-ends (suc fuel) current visited h =
      elim (Bool-cases (is_blank current || is_visited current visited)) [
        | inl stop ↦ (record { latest = current; path = [] }, rw stop refl, refl, inl stop)
        | inr go ↦ elim (Option-cases (next_edge collate g current)) [
          | inl stuck ↦ (
            record { latest = current; path = [] },
            rw (go, stuck) refl,
            refl,
            inr (next_edge-none current stuck),
          )
          | inr (e, found) ↦
              (let (leaves, member) = next_edge-leaves current found in
                let fewer =
                  unvisited-lt current visited g.edges (not_visited current visited go)
                    (member-any current e g.edges member leaves) in
                let (w, ran, trail, stops) =
                  walk-ends fuel (decimal e.to_identity) (current ∷ visited)
                    (omega (arith, fewer, h)) in
                (
                  record { latest = w.latest; path = e ∷ w.path },
                  rw (go, found, ran) refl,
                  (leaves, member, trail),
                  Stops-later current visited e w leaves stops,
                ))
        ]
      ]

  enough : unvisited [] g.edges < length g.edges + 1
  enough = let all = unvisited-all g.edges in omega (arith, all)

  -- The replay of a history ends for every graph and every start: the fuel suffices. Its path is a
  -- trail of edges of the graph from the start to the latest world, which has no outgoing edge, or
  -- is empty, inherited, or the start of an edge of the path.
  pub replay_latest-IsTrail :
      (start : Option Value)
      → (r : LatestReplay) × (replay_latest collate g start ≡ some r)
        × IsTrail g.edges (start_key g start) r.replay_path r.latest_identity
        × Stops r.latest_identity (map (λ e. decimal e.from_identity) r.replay_path)
  unfolding replay_latest seal_latest
  replay_latest-IsTrail start =
      let (w, ran, trail, stops) = walk-ends (length g.edges + 1) (start_key g start) [] enough in
      (
        seal_latest g start w,
        rw (replay_latest, ran) refl,
        trail,
        subst (Stops w.latest) (append-nil (map (λ e. decimal e.from_identity) w.path)) stops,
      )
