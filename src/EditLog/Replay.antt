-- ===== src/EditLog/Replay.antt =====
-- workbench/src/edit_replay.js: the source text that a log's active commits make, and the receipt of
-- a log.
use omi_imo.Prelude.{ℕ, List, [], ◌∷◌, ◌++◌, map, Text, codes, join}
use omi_imo.Identity.Json.{Value, end, obj, nat_field, stable_string}
use omi_imo.Identity.Fnv.{fnv1a}
use omi_imo.EditLog.Log.{Event, Log, Body, proposal, commit, undo, redo, conflict, body_fields}
use omi_imo.EditLog.Active.{active_commit_events}

unfoldable pub event_value : Event → Value
event_value e = obj (body_fields e.body (nat_field "seq" e.seq (nat_field "receipt" e.receipt end)))

-- `receipt(log)` of edit_log.js
unfoldable pub log_receipt : Log → ℕ
log_receipt log = fnv1a (join (codes "|") (map (λ e. stable_string (event_value e)) log.events))

-- `event.proposalText`, which the other events lack.
unfoldable pub text_of : Body → Text
text_of (proposal e) = e.proposal_text
text_of (commit e _ _) = e.proposal_text
text_of (undo _) = []
text_of (redo _) = []
text_of (conflict _ _ _ _ _) = []

-- `.filter(Boolean)` on texts.
unfoldable pub non_empty : List Text → List Text
non_empty [] = []
non_empty ([] ∷ rest) = non_empty rest
non_empty ((c ∷ t) ∷ rest) = (c ∷ t) ∷ non_empty rest

pub record Replayed : Type 0 where
  pub source : Text
  pub active_commit_seqs : List ℕ
  pub receipt : ℕ

unfoldable pub replay_source : Text → List Text → Text
replay_source base [] = base
replay_source base (t ∷ edits) =
    base
    ++ ((10 ∷ 10 ∷ codes ";; OMI WORKBENCH EDIT LOG REPLAY")
        ++ (10 ∷ join (10 ∷ 10 ∷ []) (t ∷ edits)))

unfoldable pub replay : Text → Log → Replayed
unfolding replay_source non_empty text_of
replay base log =
    let active = active_commit_events log in
    record {
      source = replay_source base (non_empty (map (λ (e : Event). text_of e.body) active));
      active_commit_seqs = map (λ (e : Event). e.seq) active;
      receipt = log_receipt log;
    }
