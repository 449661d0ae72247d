-- ===== src/Transport/Resume.antt =====
-- Resuming from a checkpoint against replaying the whole log.
use omi_imo.Prelude.{
  ok_inj, ℕ, zero, suc, append_assoc, ◌||◌, ◌+◌, ◌≡◌, refl, sym, ap, ap₂, ◌∙◌, subst, Option, none,
  some, List, [], ◌∷◌, ◌++◌, map, Text, ok, >>=-eq-ok, require-eq-ok, take, drop, codes, opt_eq,
  pos,
}
use omi_imo.Transport.Adapter.{Adapter, Throws, map_result, unique_sorted, checkpoint_summary}
use omi_imo.Transport.Log.{
  Entry, ReplayLog, Replay, new_entry, new_entries, create_replay_log, verify_replay_log,
  process_entries, replay_transport_log, seal_replay, all_accepted,
}
use omi_imo.Transport.Chain.{verify_replay_log-same}
use omi_imo.Transport.Unique.{has, has-append, has-unique_sorted, unique_sorted_congr}
use omi_imo.Transport.Checkpoint.{
  Checkpoint, Resume, present, log_from_events, events_of, verify_checkpoint, create_checkpoint,
  resume_replay, seal_resume,
}

module _ {Event Processing Snapshot Drawing : Type 0}
    (adapter : Adapter Event Processing Snapshot Drawing) where
  abbrev pub run : List (Option Event) → Throws (List Processing)
  run held = map_result (λ o. adapter.process_transport_event o) held

  -- Only the events matter to the processing.
  process_entries-run :
      (entries : List (Entry Event)) → process_entries adapter entries ≡ run (events_of entries)
  unfolding process_entries map_result
  process_entries-run [] = refl
  process_entries-run (e ∷ rest) = rw (process_entries-run rest) refl

  pub events_of-new_entries :
      (log_id : Text) (i : ℕ) (p : Option ℕ) (events : List Event)
      → events_of (new_entries adapter log_id i p events) ≡ map some events
  unfolding new_entries new_entry
  events_of-new_entries log_id i p [] = refl
  events_of-new_entries log_id i p (event ∷ rest) =
      ap (some event ∷◌) (events_of-new_entries log_id (i + 1) _ rest)

  present-some :
      (held : List (Option Event)) {events : List Event}
      → present adapter held ≡ ok events
      → held ≡ map some events
  unfolding present
  present-some [] h = ap (map some) (ok_inj h)
  present-some (none ∷ rest) h = cc
  present-some (some event ∷ rest) h =
      let (events, found, e) = >>=-eq-ok (present adapter rest) _ h in
      ap (some event ∷◌) (present-some rest found) ∙ ap (map some) (ok_inj e)

  run-append :
      (xs ys : List (Option Event)) {ps qs : List Processing}
      → run xs ≡ ok ps
      → run ys ≡ ok qs
      → run (xs ++ ys) ≡ ok (ps ++ qs)
  unfolding map_result
  run-append [] ys {ps} {qs} h k = k ∙ ap (λ l. ok (l ++ qs)) (ok_inj h)
  run-append (x ∷ xs) ys {ps} {qs} h k =
      let (p, hp, h') = >>=-eq-ok (adapter.process_transport_event x) _ h in
      let (rest, hr, e) = >>=-eq-ok (run xs) _ h' in
      rw (hp, run-append xs ys hr k) (ap (λ l. ok (l ++ qs)) (ok_inj e))

  replay_transport_log-run :
      (log : ReplayLog Event) {r : Replay Processing}
      → replay_transport_log adapter log ≡ ok r
      → (verify_replay_log adapter log ≡ ok log)
        × (ps : List Processing) × (run (events_of log.entries) ≡ ok ps)
        × (r ≡ seal_replay adapter log ps)
  unfolding replay_transport_log
  replay_transport_log-run log h =
      let (out, verified, h') = >>=-eq-ok (verify_replay_log adapter log) _ h in
      let same = verify_replay_log-same adapter log verified in
      let (ps, processed, e) = >>=-eq-ok (process_entries adapter out.entries) _ h' in
      (
        verified ∙ ap ok same,
        ps,
        ap (λ l. run (events_of l.entries)) (sym same)
            ∙ (sym (process_entries-run out.entries) ∙ processed),
        sym (ok_inj e) ∙ ap (λ l. seal_replay adapter l ps) same,
      )

  log_from_events-events_of :
      (id : Text) (held : List (Option Event)) {log : ReplayLog Event}
      → log_from_events adapter id held ≡ ok log
      → events_of log.entries ≡ held
  unfolding log_from_events create_replay_log
  log_from_events-events_of id held h =
      let (events, found, e) = >>=-eq-ok (present adapter held) _ h in
      ap (λ l. events_of l.entries) (sym (ok_inj e))
      ∙ (events_of-new_entries id 0 none events ∙ sym (present-some held found))

  pub replay_transport_log-of_run :
      (log : ReplayLog Event) {ps : List Processing}
      → verify_replay_log adapter log ≡ ok log
      → run (events_of log.entries) ≡ ok ps
      → replay_transport_log adapter log ≡ ok (seal_replay adapter log ps)
  unfolding replay_transport_log
  replay_transport_log-of_run log v h = rw (v, process_entries-run log.entries, h) refl

  events_of-split :
      (n : ℕ) (entries : List (Entry Event))
      → events_of entries ≡ events_of (take n entries) ++ events_of (drop n entries)
  events_of-split zero entries = refl
  events_of-split (suc n) [] = refl
  events_of-split (suc n) (e ∷ rest) = ap (e.transport_event ∷◌) (events_of-split n rest)

  all_accepted-append :
      (ps qs : List Processing)
      → all_accepted adapter (ps ++ qs) ≡ all_accepted adapter ps ++ all_accepted adapter qs
  unfolding all_accepted
  all_accepted-append [] qs = refl
  all_accepted-append (p ∷ ps) qs =
      ap (adapter.accepted_identities p ++◌) (all_accepted-append ps qs)
      ∙ sym (
          append_assoc (adapter.accepted_identities p) (all_accepted adapter ps)
            (all_accepted adapter qs))

  -- The accepted identities of two runs, put together.
  unique_sorted-joined :
      (ps qs : List Processing)
      → unique_sorted
          (unique_sorted (all_accepted adapter ps) ++ unique_sorted (all_accepted adapter qs))
        ≡ unique_sorted (all_accepted adapter (ps ++ qs))
  unique_sorted-joined ps qs = unique_sorted_congr _ _ λ a.
      has-append a _ _
      ∙ (ap₂ ◌||◌ (has-unique_sorted a (all_accepted adapter ps))
            (has-unique_sorted a (all_accepted adapter qs))
          ∙ (sym (has-append a (all_accepted adapter ps) (all_accepted adapter qs))
              ∙ ap (has a) (sym (all_accepted-append ps qs))))

  Agrees : ReplayLog Event → Resume Processing → Type 0
  Agrees log r =
      (full : Replay Processing) × (replay_transport_log adapter log ≡ ok full)
      × (r.resumed_processing ≡ full.processing)
      × (r.resumed_identities ≡ full.accepted_snapshot_identities)

  seal_resume-Agrees :
      (log : ReplayLog Event) (c : Checkpoint) (n : ℕ) (prefix_log later_log : ReplayLog Event)
      {first later : Replay Processing}
      → verify_replay_log adapter log ≡ ok log
      → events_of prefix_log.entries ≡ events_of (take n log.entries)
      → events_of later_log.entries ≡ events_of (drop n log.entries)
      → replay_transport_log adapter prefix_log ≡ ok first
      → replay_transport_log adapter later_log ≡ ok later
      → Agrees log (seal_resume adapter log c first later_log later)
  unfolding Agrees seal_resume seal_replay
  seal_resume-Agrees log c n prefix_log later_log v front back h k =
      let (_, ps, ran, first_eq) = replay_transport_log-run prefix_log h in
      let (_, qs, ran', later_eq) = replay_transport_log-run later_log k in
      let ran_all =
        ap run (events_of-split n log.entries ∙ ap₂ ◌++◌ (sym front) (sym back))
        ∙ run-append _ _ ran ran' in
      (
        seal_replay adapter log (ps ++ qs),
        replay_transport_log-of_run log v ran_all,
        ap₂ (λ p q. p.processing ++ q.processing) first_eq later_eq,
        ap₂
              (λ p q.
                unique_sorted (p.accepted_snapshot_identities ++ q.accepted_snapshot_identities))
              first_eq later_eq
            ∙ unique_sorted-joined ps qs,
      )

  -- If resuming from a checkpoint gives a result, the log verifies and its whole replay succeeds,
  -- with the same processing, event by event, and the same accepted identities.
  pub resume_replay-replay_transport_log :
      (log : ReplayLog Event) (c : Checkpoint) {r : Resume Processing}
      → resume_replay adapter log c ≡ ok r
      → (full : Replay Processing) × (replay_transport_log adapter log ≡ ok full)
        × (r.resumed_processing ≡ full.processing)
        × (r.resumed_identities ≡ full.accepted_snapshot_identities)
  unfolding resume_replay Agrees
  resume_replay-replay_transport_log log c {r} h =
      let (log', verified, h1) = >>=-eq-ok (verify_replay_log adapter log) _ h in
      let same = verify_replay_log-same adapter log verified in
      let (c', _, h2) = >>=-eq-ok (verify_checkpoint adapter c log') _ h1 in
      let (prefix_log, made, h3) =
        >>=-eq-ok
          (log_from_events adapter log'.log_id
            (events_of (take (c'.boundary_order + 1) log'.entries)))
          _ h2 in
      let (first, replayed, h4) = >>=-eq-ok (replay_transport_log adapter prefix_log) _ h3 in
      let (again, _, h5) =
        >>=-eq-ok
          (create_checkpoint adapter prefix_log first.processing c'.checkpoint_id
            (some (pos c'.boundary_order)))
          _ h4 in
      let (_, h6) =
        require-eq-ok (opt_eq again.checkpoint_receipt c'.checkpoint_receipt) checkpoint_summary _
          h5 in
      let (later_log, made', h7) =
        >>=-eq-ok
          (log_from_events adapter (c'.checkpoint_id ++ codes ".tail")
            (events_of (drop (c'.boundary_order + 1) log'.entries)))
          _ h6 in
      let (later, replayed', e) = >>=-eq-ok (replay_transport_log adapter later_log) _ h7 in
      let v : verify_replay_log adapter log' ≡ ok log' =
        ap (λ l. verify_replay_log adapter l) same ∙ verified in
      let agrees =
        seal_resume-Agrees log' c' (c'.boundary_order + 1) prefix_log later_log v
          (log_from_events-events_of _ _ made) (log_from_events-events_of _ _ made') replayed
          replayed' in
      subst (λ l. Agrees l r) same (subst (Agrees log') (ok_inj e) agrees)
