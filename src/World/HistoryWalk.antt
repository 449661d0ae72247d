-- ===== src/World/HistoryWalk.antt =====
-- workbench/src/autonomous_world_version_history.js: `replayLatest`, which follows the edges from a
-- world, and why it ends.
use omi_imo.Prelude.{
  ℕ, suc, zero, ◌+◌, Bool, true, false, ◌||◌, Option, none, some, List, [], ◌∷◌, map, Text, codes,
  text_eq, any, length, if◌then◌else◌,
}
use omi_imo.Prelude.Sorting.{sort}
use omi_imo.Identity.Json.{Value, null, arr, opt_items, decimal}
use omi_imo.Identity.Values.{
  or_value, opt_to_text, open_receipt, is_inherited, nat_value, text_value,
}
use omi_imo.World.History.{HistoryEdge, HistoryGraph, outgoing_edges}

pub record Walk : Type 0 where
  pub latest : Text
  pub path : List HistoryEdge

pub record LatestReplay : Type 0 where
  pub latest_identity : Text
  pub replay_path : List HistoryEdge
  pub latest_replay_receipt : ℕ

-- `nextEdges[nextEdges.length - 1]`
unfoldable pub last_of : List HistoryEdge → Option HistoryEdge
last_of [] = none
last_of (e ∷ rest) = elim (last_of rest) [ none ↦ some e | some l ↦ some l ]

abbrev pub is_blank : Text → Bool
is_blank [] = true
is_blank (c ∷ text) = false

-- `visited[current]`; the table is a plain object.
unfoldable pub is_visited : Text → List Text → Bool
is_visited key visited = any (text_eq key) visited || is_inherited key

abbrev pub root_value : Option ℕ → Option Value
root_value none = some null
root_value (some n) = nat_value n

abbrev pub is_given : Option Value → Bool
is_given none = false
is_given (some null) = false
is_given (some v) = true

module _ {Contents : Type 0} where
  unfoldable pub start_key : HistoryGraph Contents → Option Value → Text
  start_key g start =
      if is_given start then opt_to_text start else opt_to_text (root_value g.root_identity_receipt)

  unfoldable pub seal_latest : HistoryGraph Contents → Option Value → Walk → LatestReplay
  seal_latest g start w = record {
    latest_identity = w.latest;
    replay_path = w.path;
    latest_replay_receipt = open_receipt (
        (codes "start_identity", or_value start (root_value g.root_identity_receipt))
        ∷ (codes "latest_identity", text_value w.latest)
        ∷ (codes "edges", some (arr (opt_items (map (λ e. some e.history_edge_receipt) w.path))))
        ∷ []);
  }

-- `collate a b` is `a.localeCompare(b) <= 0`.
module _ (collate : Text → Text → Bool) {Contents : Type 0} where
  unfoldable pub next_edge : HistoryGraph Contents → Text → Option HistoryEdge
  next_edge g key = last_of (
      sort (λ a b. collate (decimal a.history_edge_receipt) (decimal b.history_edge_receipt))
        (outgoing_edges g key))

  -- The loop; `none` if the fuel does not suffice. The path is built from its end.
  unfoldable pub walk : ℕ → HistoryGraph Contents → Text → List Text → Option Walk
  walk zero g current visited = none
  walk (suc fuel) g current visited =
      if is_blank current || is_visited current visited
      then some (record { latest = current; path = [] })
      else elim (next_edge g current) [
        | none ↦ some (record { latest = current; path = [] })
        | some e ↦ elim (walk fuel g (decimal e.to_identity) (current ∷ visited)) [
          | none ↦ none
          | some w ↦ some (record { latest = w.latest; path = e ∷ w.path })
        ]
      ]

  -- `replayLatest`, with the latest identity as the text that is read as a number where it is one.
  unfoldable pub replay_latest : HistoryGraph Contents → Option Value → Option LatestReplay
  replay_latest g start = elim (walk (length g.edges + 1) g (start_key g start) []) [
    | none ↦ none
    | some w ↦ some (seal_latest g start w)
  ]
