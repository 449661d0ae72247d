-- ===== src/Transport/RepairLaws.antt =====
-- What a repair of an event changes, and what a detection without issues means.
use omi_imo.Prelude.{
  ℕ, ◌+◌, ◌≡◌, refl, sym, ap, ◌∙◌, ◌↔◌, ◌≢◌, true, false, Option, none, some, List, [], ◌∷◌, ◌++◌,
  map, length, All, ok, throw, opt_eq, opt_eq_iff, and-true, ◌&&◌, Bool, Bool-cases, Option-cases,
  inl, inr, arith, Text,
}
use omi_imo.Transport.Adapter.{Adapter, Throws, target_not_found}
use omi_imo.Transport.Log.{Entry, ReplayLog, verify_replay_log}
use omi_imo.Transport.Chain.{verify_replay_log-same}
use omi_imo.Transport.Repair.{
  Payload, put_event, event_in, chain_kind, repair_event, entry_issues, issue_of, issues_of,
  bundle_issues, detect_issues,
}

-- An entry without its event.
abbrev pub bare : {Event : Type 0} → Entry Event → Entry Event
bare e = record e { transport_event = none }

some_inj : {A : Type 0} {a b : A} → some a ≡ some b → a ≡ b
some_inj h = cc

length-append-zero : {A : Type 0} (xs ys : List A) → length (xs ++ ys) ≡ 0 → (xs ≡ []) × (ys ≡ [])
length-append-zero [] [] h = (refl, refl)
length-append-zero [] (y ∷ ys) h = ground arith
length-append-zero (x ∷ xs) ys h = ground arith

module _ {Event : Type 0} where
  put_event-here :
      (target : Option ℕ) (event : Option Event) (e : Entry Event) (rest : List (Entry Event))
      → opt_eq e.transport_event_receipt target ≡ true
      → put_event target event (e ∷ rest) ≡ some (record e { transport_event = event } ∷ rest)
  unfolding put_event
  put_event-here target event e rest here = rw here refl

  put_event-later :
      (target : Option ℕ) (event : Option Event) (e : Entry Event) (rest : List (Entry Event))
      {l : List (Entry Event)}
      → opt_eq e.transport_event_receipt target ≡ false
      → put_event target event rest ≡ some l
      → put_event target event (e ∷ rest) ≡ some (e ∷ l)
  unfolding put_event
  put_event-later target event e rest other found = rw (other, found) refl

  put_event-nowhere :
      (target : Option ℕ) (event : Option Event) (e : Entry Event) (rest : List (Entry Event))
      → opt_eq e.transport_event_receipt target ≡ false
      → put_event target event rest ≡ none
      → put_event target event (e ∷ rest) ≡ none
  unfolding put_event
  put_event-nowhere target event e rest other missing = rw (other, missing) refl

  put_event-bare :
      (target : Option ℕ) (event : Option Event) (entries : List (Entry Event))
      {out : List (Entry Event)}
      → put_event target event entries ≡ some out
      → map bare out ≡ map bare entries
  unfolding put_event
  put_event-bare target event [] h = cc
  put_event-bare target event (e ∷ rest) h =
      elim (Bool-cases (opt_eq e.transport_event_receipt target)) [
        | inl here ↦
            ap (map bare) (sym (some_inj (sym (put_event-here target event e rest here) ∙ h)))
        | inr other ↦ elim (Option-cases (put_event target event rest)) [
          | inl missing ↦ (let gone = put_event-nowhere target event e rest other missing in cc)
          | inr (l, found) ↦
              ap (map bare)
                (sym (some_inj (sym (put_event-later target event e rest other found) ∙ h)))
              ∙ ap (bare e ∷◌) (put_event-bare target event rest found)
        ]
      ]

module _ {Event Processing Snapshot Drawing : Type 0}
    (adapter : Adapter Event Processing Snapshot Drawing) where
  repair_event-found :
      (log : ReplayLog Event) (p : Payload Event) {entries : List (Entry Event)}
      → put_event p.payload_target_receipt (event_in p.evidence) log.entries ≡ some entries
      → repair_event adapter log p ≡ verify_replay_log adapter (record log { entries = entries })
  unfolding repair_event
  repair_event-found log p found = rw (found, repair_event) refl

  repair_event-nowhere :
      (log : ReplayLog Event) (p : Payload Event)
      → put_event p.payload_target_receipt (event_in p.evidence) log.entries ≡ none
      → repair_event adapter log p ≡ throw (target_not_found p.payload_target_receipt)
  unfolding repair_event
  repair_event-nowhere log p missing = rw (missing, repair_event) refl

  -- A repair of an event that returns a log returns one that verifies, and that differs from the
  -- damaged log in events alone: every other field of every entry, their number and their order,
  -- and the receipt of the log are as before.
  pub repair_event-bare :
      (log : ReplayLog Event) (p : Payload Event) {out : ReplayLog Event}
      → repair_event adapter log p ≡ ok out
      → (verify_replay_log adapter out ≡ ok out)
        × (map bare out.entries ≡ map bare log.entries)
        × (out.transport_log_receipt ≡ log.transport_log_receipt)
  repair_event-bare log p {out} h =
      elim (Option-cases (put_event p.payload_target_receipt (event_in p.evidence) log.entries)) [
        | inl missing ↦ (let gone = repair_event-nowhere log p missing in cc)
        | inr (entries, found) ↦ changed entries found (sym (repair_event-found log p found) ∙ h)
      ]
    where
      changed :
          (entries : List (Entry Event))
          → put_event p.payload_target_receipt (event_in p.evidence) log.entries ≡ some entries
          → verify_replay_log adapter (record log { entries = entries }) ≡ ok out
          → (verify_replay_log adapter out ≡ ok out)
            × (map bare out.entries ≡ map bare log.entries)
            × (out.transport_log_receipt ≡ log.transport_log_receipt)
      changed entries found v =
          let same = verify_replay_log-same adapter (record log { entries = entries }) v in
          (
            ap (λ l. verify_replay_log adapter l) same ∙ v,
            ap (λ l. map bare l.entries) same ∙ put_event-bare _ _ log.entries found,
            ap (λ l. l.transport_log_receipt) same,
          )

  -- An entry with an event that has the property, with the value that the entry names.
  pub Holds : Entry Event → Type 0
  Holds e =
      (event : Event) × (e.transport_event ≡ some event)
      × (adapter.names_receipt event ≡ true)
      × (adapter.event_receipt event ≡ e.transport_event_receipt)

  entry_issues-Holds :
      (index : ℕ) (e : Entry Event) (rest : List (Entry Event))
      → Holds e
      → entry_issues adapter index (e ∷ rest) ≡ entry_issues adapter (index + 1) rest
  unfolding entry_issues Holds
  entry_issues-Holds index e rest (event, there, present, named) =
      rw (there, present, (opt_eq_iff _ _).1 named) refl

  abbrev same_receipt : Entry Event → Event → Bool
  same_receipt e event =
      adapter.names_receipt event && opt_eq (adapter.event_receipt event) e.transport_event_receipt

  entry_issues-missing :
      (index : ℕ) (e : Entry Event) (rest : List (Entry Event))
      → e.transport_event ≡ none
      → entry_issues adapter index (e ∷ rest) ≢ []
  unfolding entry_issues
  entry_issues-missing index e rest missing = rw missing λ h. cc

  entry_issues-corrupt :
      (index : ℕ) (e : Entry Event) (rest : List (Entry Event)) (event : Event)
      → e.transport_event ≡ some event
      → same_receipt e event ≡ false
      → entry_issues adapter index (e ∷ rest) ≢ []
  unfolding entry_issues
  entry_issues-corrupt index e rest event there other = rw (there, other) λ h. cc

  no_issue-Holds :
      (index : ℕ) (e : Entry Event) (rest : List (Entry Event))
      → entry_issues adapter index (e ∷ rest) ≡ []
      → Holds e
  unfolding Holds
  no_issue-Holds index e rest h = elim (Option-cases e.transport_event) [
    | inl missing ↦ absurd (entry_issues-missing index e rest missing h)
    | inr (event, there) ↦ elim (Bool-cases (same_receipt e event)) [
      | inl named ↦
          (event, there, (and-true _ _ named).0, (opt_eq_iff _ _).0 (and-true _ _ named).1)
      | inr other ↦ absurd (entry_issues-corrupt index e rest event there other h)
    ]
  ]

  entry_issues_iff :
      (index : ℕ) (entries : List (Entry Event))
      → (entry_issues adapter index entries ≡ []) ↔ All Holds entries
  entry_issues_iff index [] = (λ h. tt, λ _. unfold entry_issues in refl)
  entry_issues_iff index (e ∷ rest) =
      let below = entry_issues_iff (index + 1) rest in
      (
        λ h.
            let held = no_issue-Holds index e rest h in
            (held, below.0 (sym (entry_issues-Holds index e rest held) ∙ h)),
        λ all_hold. entry_issues-Holds index e rest all_hold.0 ∙ below.1 all_hold.1,
      )

  no_issue-ok :
      {A : Type 0} (target : Option ℕ) (kind : Text) (m : Throws A)
      → issue_of adapter target kind m ++ [] ≡ []
      → (a : A) × (m ≡ ok a)
  no_issue-ok target kind (ok a) h = (a, refl)
  no_issue-ok target kind (throw e) h = cc

  -- Without a bundle, `detectTransportEvidenceIssues` reports no issue exactly if the log verifies
  -- and every entry holds an event that has the property transport_event_receipt, with the value that
  -- the entry names.
  pub detect_issues-none_iff :
      (log : ReplayLog Event)
      → ((detect_issues adapter log none).issue_count ≡ 0)
        ↔ ((verify_replay_log adapter log ≡ ok log) × All Holds log.entries)
  unfolding detect_issues issues_of bundle_issues
  detect_issues-none_iff log = (forth, back)
    where
      forth :
          length (issues_of adapter log none) ≡ 0
          → (verify_replay_log adapter log ≡ ok log) × All Holds log.entries
      forth h =
          let (no_entry, no_chain) =
            length-append-zero (entry_issues adapter 0 log.entries)
              (issue_of adapter log.transport_log_receipt chain_kind (verify_replay_log adapter log)
                ++ [])
              h in
          let (out, e) =
            no_issue-ok log.transport_log_receipt chain_kind (verify_replay_log adapter log)
              no_chain in
          (
            e ∙ ap ok (verify_replay_log-same adapter log e),
            (entry_issues_iff 0 log.entries).0 no_entry,
          )

      back :
          (verify_replay_log adapter log ≡ ok log) × All Holds log.entries
          → length (issues_of adapter log none) ≡ 0
      back (v, held) = rw ((entry_issues_iff 0 log.entries).1 held, v) refl
