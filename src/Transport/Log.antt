-- ===== src/Transport/Log.antt =====
-- workbench/src/autonomous_world_transport_replay.js: a log of transport events in which every
-- entry holds the receipt of the one before, its verification, and its replay.
use omi_imo.Prelude.{
  ℕ, ◌+◌, Bool, false, Option, none, some, List, [], ◌∷◌, ◌++◌, map, Text, codes, text_eq, throw,
  ok, ◌>>=◌, ◌>>◌, require, any, opt_eq, ◌==◌, if◌then◌else◌,
}
use omi_imo.Identity.Json.{
  end, field, obj, arr, nat_field, text_field, bool_field, opt_field, opt_items, text_items,
  decimal,
}
use omi_imo.Identity.Fnv.{receipt_of}
use omi_imo.Transport.Adapter.{
  Adapter, Throws, log_order, log_chain, event_receipt_differs, entry_receipt_differs,
  log_receipt_differs, not_admitted_by_replay, or_null, map_result, unique_sorted,
}

pub record Entry (Event : Type 0) : Type 0 where
  pub entry_id : Text
  pub order : ℕ
  pub transport_event_receipt : Option ℕ
  pub previous_entry_receipt : Option ℕ
  pub transport_event : Option Event
  pub authority : Bool
  pub admission : Bool
  pub replay_entry_receipt : Option ℕ

pub record ReplayLog (Event : Type 0) : Type 0 where
  pub log_id : Text
  pub entries : List (Entry Event)
  pub transport_log_receipt : Option ℕ

pub record Replay (Processing : Type 0) : Type 0 where
  pub replayed_log_receipt : Option ℕ
  pub replayed_event_receipts : List (Option ℕ)
  pub processing : List Processing
  pub accepted_snapshot_identities : List Text
  pub replay_receipt : Option ℕ

-- `String(value || fallback)`
abbrev pub text_or : Text → Text → Text
text_or [] fallback = fallback
text_or (c ∷ text) fallback = c ∷ text

module _ {Event : Type 0} where
  unfoldable pub entry_receipt : Entry Event → ℕ
  entry_receipt e = receipt_of (
      obj (
        text_field "entry_id" e.entry_id (
          nat_field "order" e.order (
            opt_field "transport_event_receipt" e.transport_event_receipt (
              opt_field "previous_entry_receipt" e.previous_entry_receipt
                (bool_field "authority" e.authority (bool_field "admission" e.admission end)))))))

  unfoldable pub log_receipt : List (Entry Event) → ℕ
  log_receipt entries = receipt_of (
      obj (
        field (codes "entries") (arr (opt_items (map (λ e. e.replay_entry_receipt) entries)))
          (bool_field "authority" false (bool_field "admission" false end))))

module _ {Event Processing Snapshot Drawing : Type 0}
    (adapter : Adapter Event Processing Snapshot Drawing) where
  unfoldable pub new_entry : Text → ℕ → Option ℕ → Event → Entry Event
  new_entry log_id index previous event =
      let entry : Entry Event = record {
        entry_id = text_or log_id (codes "transport.replay") ++ (codes ".entry." ++ decimal index);
        order = index;
        transport_event_receipt = or_null (adapter.event_receipt event);
        previous_entry_receipt = previous;
        transport_event = some event;
        authority = false;
        admission = false;
        replay_entry_receipt = none;
      } in
      record entry { replay_entry_receipt = some (entry_receipt entry) }

  unfoldable pub new_entries : Text → ℕ → Option ℕ → List Event → List (Entry Event)
  new_entries log_id index previous [] = []
  new_entries log_id index previous (event ∷ rest) =
      let entry = new_entry log_id index previous event in
      entry ∷ new_entries log_id (index + 1) entry.replay_entry_receipt rest

  unfoldable pub create_replay_log : Text → List Event → ReplayLog Event
  create_replay_log log_id events =
      let entries = new_entries log_id 0 none events in
      record {
        log_id = text_or log_id (codes "transport.replay.fixture");
        entries = entries;
        transport_log_receipt = some (log_receipt entries);
      }

  -- `entry.transport_event && entry.transport_event.transport_event_receipt || null`
  unfoldable pub held_receipt : Option Event → Option ℕ
  held_receipt none = none
  held_receipt (some event) = or_null (adapter.event_receipt event)

  unfoldable pub verify_entry : ℕ → Option ℕ → Entry Event → Throws (Unit {0})
  verify_entry index previous e = do
    require (e.order == index) (log_order index)
    require (opt_eq e.previous_entry_receipt previous) (log_chain index)
    require (opt_eq e.transport_event_receipt (held_receipt e.transport_event))
        (event_receipt_differs index)
    require (opt_eq e.replay_entry_receipt (some (entry_receipt e))) (entry_receipt_differs index)

  unfoldable pub verify_entries : ℕ → Option ℕ → List (Entry Event) → Throws (Unit {0})
  verify_entries index previous [] = ok tt
  verify_entries index previous (e ∷ rest) = do
    verify_entry index previous e
    verify_entries (index + 1) e.replay_entry_receipt rest

  unfoldable pub verify_replay_log : ReplayLog Event → Throws (ReplayLog Event)
  verify_replay_log log = do
    verify_entries 0 none log.entries
    require (opt_eq log.transport_log_receipt (some (log_receipt log.entries))) log_receipt_differs
    ok log

  unfoldable pub all_accepted : List Processing → List Text
  all_accepted [] = []
  all_accepted (p ∷ rest) = adapter.accepted_identities p ++ all_accepted rest

  unfoldable pub seal_replay : ReplayLog Event → List Processing → Replay Processing
  seal_replay log processing =
      let accepted = unique_sorted (all_accepted processing) in
      record {
        replayed_log_receipt = log.transport_log_receipt;
        replayed_event_receipts = map (λ e. e.transport_event_receipt) log.entries;
        processing = processing;
        accepted_snapshot_identities = accepted;
        replay_receipt = some (
            receipt_of (
              obj (
                opt_field "transport_log_receipt" log.transport_log_receipt (
                  field (codes "processing_receipts")
                    (arr (opt_items (map (λ p. adapter.processing_receipt p) processing)))
                    (field (codes "accepted_snapshot_identities") (arr (text_items accepted))
                      (bool_field "authority" false (bool_field "admission" false end)))))));
      }

  unfoldable pub process_entries : List (Entry Event) → Throws (List Processing)
  process_entries entries =
      map_result (λ e. adapter.process_transport_event e.transport_event) entries

  unfoldable pub replay_transport_log : ReplayLog Event → Throws (Replay Processing)
  replay_transport_log input = do
    log ← verify_replay_log input
    processing ← process_entries log.entries
    ok (seal_replay log processing)

  -- `(replay.processing || []).find(...)`
  unfoldable pub find_admitting : Text → List Processing → Throws Processing
  find_admitting id [] = throw (not_admitted_by_replay id)
  find_admitting id (p ∷ rest) =
      if any (text_eq id) (adapter.accepted_identities p) then ok p else find_admitting id rest

  unfoldable pub open_replayed_snapshot : List Processing → Text → Throws Snapshot
  open_replayed_snapshot processing id = do
    result ← find_admitting id processing
    adapter.open_transport_snapshot result id

  unfoldable pub render_replayed_snapshot : List Processing → Text → Throws Drawing
  render_replayed_snapshot processing id = do
    result ← find_admitting id processing
    adapter.render_transport_snapshot result id
