-- ===== src/Transport/Chain.antt =====
-- What `verifyTransportReplayLog` accepts.
use omi_imo.Prelude.{
  ℕ, zero, Bool, subst, suc, ◌+◌, ◌≡◌, refl, ◌↔◌, true, false, Option, none, some, List, [], ◌∷◌,
  get_elem?, ok, require, >>-eq-ok, require-eq-ok, opt_eq, opt_eq_iff, opt_eq_refl, ==_iff, ◌==◌,
  arith, Text,
}
use omi_imo.Transport.Adapter.{
  Adapter, TransportError, log_order, log_chain, event_receipt_differs, log_receipt_differs,
}
use omi_imo.Transport.Log.{
  Entry, ReplayLog, entry_receipt, log_receipt, new_entry, new_entries, create_replay_log,
  held_receipt, verify_entry, verify_entries, verify_replay_log,
}

-- The receipt of the entry before place `i`, with `first` before place 0.
abbrev pub receipt_before : {Event : Type 0} → Option ℕ → ℕ → List (Entry Event) → Option ℕ
receipt_before first zero entries = first
receipt_before first (suc i) [] = none
receipt_before first (suc i) (e ∷ rest) = receipt_before e.replay_entry_receipt i rest

module _ {Event Processing Snapshot Drawing : Type 0}
    (adapter : Adapter Event Processing Snapshot Drawing) where
  require-true : (test : Bool) (error : TransportError) → require test error ≡ ok tt → test ≡ true
  require-true true error h = refl
  require-true false error h = cc

  -- An entry at place `order` behind one with the receipt `previous`.
  pub record IsLinked (order : ℕ) (previous : Option ℕ) (e : Entry Event) : Type 0 where
    pub order_eq : e.order ≡ order
    pub previous_eq : e.previous_entry_receipt ≡ previous
    pub event_eq : e.transport_event_receipt ≡ held_receipt adapter e.transport_event
    pub receipt_eq : e.replay_entry_receipt ≡ some (entry_receipt e)

  abbrev AllLinked : ℕ → Option ℕ → List (Entry Event) → Type 0
  AllLinked start previous entries =
      (i : ℕ) (e : Entry Event)
      → get_elem? entries i ≡ some e
      → IsLinked (start + i) (receipt_before previous i entries) e

  -- A log in which every entry is linked to the one before, and which is sealed by its receipts.
  pub record IsChained (log : ReplayLog Event) : Type 0 where
    pub linked :
        (i : ℕ) (e : Entry Event)
        → get_elem? log.entries i ≡ some e
        → IsLinked i (receipt_before none i log.entries) e
    pub log_sealed : log.transport_log_receipt ≡ some (log_receipt log.entries)

  verify_entry-IsLinked :
      (i : ℕ) (previous : Option ℕ) (e : Entry Event)
      → verify_entry adapter i previous e ≡ ok tt
      → IsLinked i previous e
  unfolding verify_entry
  verify_entry-IsLinked i previous e h =
      let (a, h1) = require-eq-ok (e.order == i) (log_order i) _ h in
      let (b, h2) = require-eq-ok (opt_eq e.previous_entry_receipt previous) (log_chain i) _ h1 in
      let (c, h3) =
        require-eq-ok (opt_eq e.transport_event_receipt (held_receipt adapter e.transport_event))
          (event_receipt_differs i) _ h2 in
      record {
        order_eq = (==_iff _ _).0 a;
        previous_eq = (opt_eq_iff _ _).0 b;
        event_eq = (opt_eq_iff _ _).0 c;
        receipt_eq = (opt_eq_iff _ _).0 (require-true _ _ h3);
      }

  IsLinked-verify_entry :
      {i : ℕ} {previous : Option ℕ} {e : Entry Event}
      → IsLinked i previous e
      → verify_entry adapter i previous e ≡ ok tt
  unfolding verify_entry
  IsLinked-verify_entry {i} {previous} {e} v = rw (
    (==_iff _ _).1 v.order_eq,
    (opt_eq_iff _ _).1 v.previous_eq,
    (opt_eq_iff _ _).1 v.event_eq,
    (opt_eq_iff _ _).1 v.receipt_eq,
  )

  verify_entries-AllLinked :
      (start : ℕ) (previous : Option ℕ) (entries : List (Entry Event))
      → verify_entries adapter start previous entries ≡ ok tt
      → AllLinked start previous entries
  unfolding verify_entries
  verify_entries-AllLinked start previous [] h i e found = cc
  verify_entries-AllLinked start previous (d ∷ rest) h zero e found =
      let (linked, _) = >>-eq-ok (verify_entry adapter start previous d) _ h in
      let same : d ≡ e = cc in
      subst (IsLinked (start + 0) previous) same (
        subst (λ k. IsLinked k previous d) (omega arith)
          (verify_entry-IsLinked start previous d linked))
  verify_entries-AllLinked start previous (d ∷ rest) h (suc i) e found =
      let (_, later) = >>-eq-ok (verify_entry adapter start previous d) _ h in
      subst (λ k. IsLinked k (receipt_before d.replay_entry_receipt i rest) e) (omega arith)
        (verify_entries-AllLinked (start + 1) d.replay_entry_receipt rest later i e found)

  AllLinked-verify_entries :
      (start : ℕ) (previous : Option ℕ) (entries : List (Entry Event))
      → AllLinked start previous entries
      → verify_entries adapter start previous entries ≡ ok tt
  unfolding verify_entries
  AllLinked-verify_entries start previous [] v = refl
  AllLinked-verify_entries start previous (d ∷ rest) v =
      rw
        (IsLinked-verify_entry {i = start}
          (subst (λ k. IsLinked k previous d) (omega arith) (v 0 d refl)))
        (AllLinked-verify_entries (start + 1) d.replay_entry_receipt rest λ i e found.
          subst (λ k. IsLinked k (receipt_before d.replay_entry_receipt i rest) e) (omega arith)
            (v (suc i) e found))

  new_entry-IsLinked :
      (log_id : Text) (index : ℕ) (previous : Option ℕ) (event : Event)
      → IsLinked index previous (new_entry adapter log_id index previous event)
  unfolding new_entry held_receipt entry_receipt
  new_entry-IsLinked log_id index previous event = record {
    order_eq = refl;
    previous_eq = refl;
    event_eq = refl;
    receipt_eq = refl;
  }

  new_entries-verify :
      (log_id : Text) (index : ℕ) (previous : Option ℕ) (events : List Event)
      → verify_entries adapter index previous (new_entries adapter log_id index previous events)
        ≡ ok tt
  unfolding new_entries verify_entries
  new_entries-verify log_id index previous [] = refl
  new_entries-verify log_id index previous (event ∷ rest) =
      rw (IsLinked-verify_entry (new_entry-IsLinked log_id index previous event))
        (new_entries-verify log_id (index + 1) _ rest)

  -- `verifyTransportReplayLog` returns a log, unchanged, exactly if the log is chained: every entry
  -- stands at its own place, names the receipt of the entry before and of its event, and has the
  -- receipt of its own fields, and the log has the receipt of its entries.
  pub verify_replay_log_iff :
      (log : ReplayLog Event) → (verify_replay_log adapter log ≡ ok log) ↔ IsChained log
  unfolding verify_replay_log
  verify_replay_log_iff log = (forth, back)
    where
      forth : verify_replay_log adapter log ≡ ok log → IsChained log
      forth h =
          let (chain, rest) = >>-eq-ok (verify_entries adapter 0 none log.entries) _ h in
          let (whole, _) =
            require-eq-ok (opt_eq log.transport_log_receipt (some (log_receipt log.entries)))
              log_receipt_differs _ rest in
          record {
            linked = λ i e found.
                subst (λ k. IsLinked k (receipt_before none i log.entries) e) (omega arith)
                  (verify_entries-AllLinked 0 none log.entries chain i e found);
            log_sealed = (opt_eq_iff _ _).0 whole;
          }

      back : IsChained log → verify_replay_log adapter log ≡ ok log
      back v = rw (
        AllLinked-verify_entries 0 none log.entries λ i e found.
            subst (λ k. IsLinked k (receipt_before none i log.entries) e) (omega arith)
              (v.linked i e found),
        (opt_eq_iff _ _).1 v.log_sealed,
      )

  -- Nothing but the log itself is returned.
  pub verify_replay_log-same :
      (log : ReplayLog Event) {out : ReplayLog Event}
      → verify_replay_log adapter log ≡ ok out
      → out ≡ log
  unfolding verify_replay_log
  verify_replay_log-same log h =
      let (_, rest) = >>-eq-ok (verify_entries adapter 0 none log.entries) _ h in
      let (_, same) =
        require-eq-ok (opt_eq log.transport_log_receipt (some (log_receipt log.entries)))
          log_receipt_differs _ rest in
      cc

  -- `verifyTransportReplayLog` returns every log that `createTransportReplayLog` makes, unchanged,
  -- whatever the events and the name.
  pub verify_replay_log-create_replay_log :
      (log_id : Text) (events : List Event)
      → verify_replay_log adapter (create_replay_log adapter log_id events)
        ≡ ok (create_replay_log adapter log_id events)
  unfolding verify_replay_log create_replay_log
  verify_replay_log-create_replay_log log_id events = rw (
    new_entries-verify log_id 0 none events,
    opt_eq_refl (some (log_receipt (new_entries adapter log_id 0 none events))),
  )
