-- ===== src/Transport/Resumable.antt =====
-- That a checkpoint of a log can be resumed from.
use omi_imo.Prelude.{
  ok_inj, ℕ, zero, suc, ◌+◌, ◌<◌, ◌≡◌, refl, sym, ap, ap₂, ◌∙◌, Option, none, some, List, [], ◌∷◌,
  ◌++◌, map, Text, codes, ok, >>=-eq-ok, take, drop, length, take-take, map-take, map-drop, pos,
  ltb, true, opt_eq_iff, opt_eq_refl, arith, length-take,
}
use omi_imo.Transport.Adapter.{Adapter, map_result}
use omi_imo.Transport.Log.{
  Entry, ReplayLog, Replay, new_entry, new_entries, create_replay_log, verify_replay_log,
  replay_transport_log, seal_replay,
}
use omi_imo.Transport.Chain.{verify_replay_log-create_replay_log}
use omi_imo.Transport.Checkpoint.{
  Checkpoint, Resume, checkpoint_over, checkpoint_of, checkpoint_receipt_of, resume_replay, present,
  log_from_events, create_checkpoint, clamp, first_receipt, last_receipt, receipt_at,
  verify_checkpoint, events_of, seal_resume,
}
use omi_imo.Transport.Resume.{run, events_of-new_entries, replay_transport_log-of_run}

module _ {Event Processing Snapshot Drawing : Type 0}
    (adapter : Adapter Event Processing Snapshot Drawing) where
  take-new_entries :
      (n : ℕ) (id : Text) (i : ℕ) (p : Option ℕ) (events : List Event)
      → take n (new_entries adapter id i p events) ≡ new_entries adapter id i p (take n events)
  unfolding new_entries
  take-new_entries zero id i p events = refl
  take-new_entries (suc n) id i p [] = refl
  take-new_entries (suc n) id i p (e ∷ rest) =
      ap (new_entry adapter id i p e ∷◌) (take-new_entries n id (i + 1) _ rest)

  -- Both parts of a run that succeeds succeed.
  run-take :
      (n : ℕ) (events : List (Option Event)) {ps : List Processing}
      → run adapter events ≡ ok ps
      → run adapter (take n events) ≡ ok (take n ps)
  unfolding map_result
  run-take zero events h = refl
  run-take (suc n) [] h = ap (λ l. ok (take (suc n) l)) (ok_inj h)
  run-take (suc n) (e ∷ rest) h =
      let (p, hp, h') = >>=-eq-ok (adapter.process_transport_event e) _ h in
      let (l, hl, whole) = >>=-eq-ok (run adapter rest) _ h' in
      rw (hp, run-take n rest hl) (ap (λ l. ok (take (suc n) l)) (ok_inj whole))

  run-drop :
      (n : ℕ) (events : List (Option Event)) {ps : List Processing}
      → run adapter events ≡ ok ps
      → run adapter (drop n events) ≡ ok (drop n ps)
  unfolding map_result
  run-drop zero events h = h
  run-drop (suc n) [] h = ap (λ l. ok (drop (suc n) l)) (ok_inj h)
  run-drop (suc n) (e ∷ rest) h =
      let (p, hp, h') = >>=-eq-ok (adapter.process_transport_event e) _ h in
      let (l, hl, whole) = >>=-eq-ok (run adapter rest) _ h' in
      run-drop n rest hl ∙ ap (λ l. ok (drop (suc n) l)) (ok_inj whole)

  present-map : (events : List Event) → present adapter (map some events) ≡ ok events
  unfolding present
  present-map [] = refl
  present-map (e ∷ rest) = rw (present-map rest) refl

  length-new_entries :
      (id : Text) (i : ℕ) (p : Option ℕ) (events : List Event)
      → length (new_entries adapter id i p events) ≡ length events
  unfolding new_entries
  length-new_entries id i p [] = refl
  length-new_entries id i p (e ∷ rest) = ap suc (length-new_entries id (i + 1) _ rest)

  first_receipt-take :
      (n : ℕ) (entries : List (Entry Event))
      → first_receipt (take (suc n) entries) ≡ first_receipt entries
  first_receipt-take n [] = refl
  first_receipt-take n (e ∷ rest) = refl

  last_receipt-take :
      (n : ℕ) (entries : List (Entry Event))
      → n < length entries
      → last_receipt (take (suc n) entries) ≡ receipt_at adapter n entries
  unfolding receipt_at
  last_receipt-take n [] h = absurd (omega (arith, h))
  last_receipt-take zero (e ∷ rest) h = refl
  last_receipt-take (suc n) (e ∷ []) h = absurd (omega (arith, h))
  last_receipt-take (suc n) (e ∷ d ∷ rest) h = last_receipt-take n (d ∷ rest) (omega (arith, h))

  verify_checkpoint-ok :
      (c : Checkpoint) (log : ReplayLog Event)
      → verify_replay_log adapter log ≡ ok log
      → ltb c.boundary_order (length log.entries) ≡ true
      → c.log_from_receipt ≡ first_receipt log.entries
      → c.log_to_receipt ≡ receipt_at adapter c.boundary_order log.entries
      → c.checkpoint_receipt ≡ some (checkpoint_receipt_of c)
      → verify_checkpoint adapter c log ≡ ok c
  unfolding verify_checkpoint
  verify_checkpoint-ok c log v inside head tail whole =
      rw (v, inside, (opt_eq_iff _ _).1 head, (opt_eq_iff _ _).1 tail, (opt_eq_iff _ _).1 whole)
        refl

  checkpoint_over-receipt :
      (covered : List (Entry Event)) (ps : List Processing) (cid : Text) (b : ℕ)
      → (checkpoint_over adapter covered ps cid b).checkpoint_receipt
        ≡ some (checkpoint_receipt_of (checkpoint_over adapter covered ps cid b))
  unfolding checkpoint_over checkpoint_receipt_of
  checkpoint_over-receipt covered ps cid b = refl

  verify_checkpoint-checkpoint_of :
      (log : ReplayLog Event) (ps : List Processing) (cid : Text) (b : ℕ)
      → verify_replay_log adapter log ≡ ok log
      → b < length log.entries
      → verify_checkpoint adapter (checkpoint_of adapter log ps cid b) log
        ≡ ok (checkpoint_of adapter log ps cid b)
  unfolding checkpoint_of
  verify_checkpoint-checkpoint_of log ps cid b v h =
      let inside : ltb b (length log.entries) ≡ true = ground arith in
      let next : b + 1 ≡ suc b = omega arith in
      verify_checkpoint-ok (checkpoint_of adapter log ps cid b) log v
        (unfold checkpoint_over in inside)
        (unfold checkpoint_over in
          (ap (λ k. first_receipt (take k log.entries)) next ∙ first_receipt-take b log.entries))
        (unfold checkpoint_over in
          (ap (λ k. last_receipt (take k log.entries)) next ∙ last_receipt-take b log.entries h))
        (checkpoint_over-receipt (take (b + 1) log.entries) (take (b + 1) ps) cid b)

  -- The checkpoint that is computed again from the prefix.
  checkpoint_over-again :
      (covered : List (Entry Event)) (ps : List Processing) (cid : Text) (b : ℕ)
      → checkpoint_over adapter covered ps
          (checkpoint_over adapter covered ps cid b).checkpoint_id
          b
        ≡ checkpoint_over adapter covered ps cid b
  unfolding checkpoint_over
  checkpoint_over-again covered ps [] b = refl
  checkpoint_over-again covered ps (d ∷ cid) b = refl

  log_from_events-map :
      (id : Text) (held : List (Option Event)) (events : List Event)
      → held ≡ map some events
      → log_from_events adapter id held ≡ ok (create_replay_log adapter id events)
  unfolding log_from_events
  log_from_events-map id held events e = rw (e, present-map events) refl

  replay_created :
      (id : Text) (events : List Event) {ps : List Processing}
      → run adapter (map some events) ≡ ok ps
      → replay_transport_log adapter (create_replay_log adapter id events)
        ≡ ok (seal_replay adapter (create_replay_log adapter id events) ps)
  replay_created id events h =
      replay_transport_log-of_run adapter (create_replay_log adapter id events)
        (verify_replay_log-create_replay_log adapter id events)
        (unfold create_replay_log in
          (ap (run adapter) (events_of-new_entries adapter id 0 none events) ∙ h))

  clamp_within :
      (b : ℕ) (id : Text) (events : List Event)
      → b < length events
      → clamp (some (pos b)) (length (new_entries adapter id 0 none (take (b + 1) events))) ≡ b
  unfolding clamp
  clamp_within b id events h =
      omega
        (arith, length-new_entries id 0 none (take (b + 1) events), length-take (b + 1) events, h)

  prefix_covered :
      (n : ℕ) (id : Text) (events : List Event)
      → take n (new_entries adapter id 0 none (take n events))
        ≡ take n (new_entries adapter id 0 none events)
  prefix_covered n id events =
      take-new_entries n id 0 none (take n events)
      ∙ (ap (new_entries adapter id 0 none) (take-take n events)
          ∙ sym (take-new_entries n id 0 none events))

  create_checkpoint-again :
      (d : ℕ) (id : Text) (events : List Event) (ps : List Processing) (cid : Text) (b : ℕ)
      → b < length events
      → create_checkpoint adapter
          (create_replay_log adapter (d ∷ id) (take (b + 1) events))
          (take (b + 1) ps)
          (checkpoint_of adapter (create_replay_log adapter (d ∷ id) events) ps cid b).checkpoint_id
          (some (pos b))
        ≡ ok (checkpoint_of adapter (create_replay_log adapter (d ∷ id) events) ps cid b)
  unfolding create_checkpoint checkpoint_of create_replay_log
  create_checkpoint-again d id events ps cid b h =
      rw (verify_replay_log-create_replay_log adapter (d ∷ id) (take (b + 1) events)) (ap ok same)
    where
      again : Text
      again =
          (checkpoint_over adapter (take (b + 1) (new_entries adapter (d ∷ id) 0 none events))
            (take (b + 1) ps) cid b).checkpoint_id

      same :
          checkpoint_of adapter
            (create_replay_log adapter (d ∷ id) (take (b + 1) events))
            (take (b + 1) ps)
            again
            (clamp
              (some (pos b))
              (length (new_entries adapter (d ∷ id) 0 none (take (b + 1) events))))
          ≡ checkpoint_of adapter (create_replay_log adapter (d ∷ id) events) ps cid b
      same =
          ap
            (checkpoint_of adapter (create_replay_log adapter (d ∷ id) (take (b + 1) events))
              (take (b + 1) ps) again)
            (clamp_within b (d ∷ id) events h)
          ∙ (ap₂ (λ c p. checkpoint_over adapter c p again b)
                (prefix_covered (b + 1) (d ∷ id) events) (take-take (b + 1) ps)
              ∙ checkpoint_over-again (take (b + 1) (new_entries adapter (d ∷ id) 0 none events))
                  (take (b + 1) ps) cid b)

  events_of-take :
      (n : ℕ) (id : Text) (events : List Event)
      → events_of (take n (new_entries adapter id 0 none events)) ≡ map some (take n events)
  events_of-take n id events =
      map-take (λ e. e.transport_event) n (new_entries adapter id 0 none events)
      ∙ (ap (take n) (events_of-new_entries adapter id 0 none events)
          ∙ sym (map-take some n events))

  events_of-drop :
      (n : ℕ) (id : Text) (events : List Event)
      → events_of (drop n (new_entries adapter id 0 none events)) ≡ map some (drop n events)
  events_of-drop n id events =
      map-drop (λ e. e.transport_event) n (new_entries adapter id 0 none events)
      ∙ (ap (drop n) (events_of-new_entries adapter id 0 none events)
          ∙ sym (map-drop some n events))

  front_run :
      (n : ℕ) (events : List Event) {ps : List Processing}
      → run adapter (map some events) ≡ ok ps
      → run adapter (map some (take n events)) ≡ ok (take n ps)
  front_run n events h = ap (run adapter) (map-take some n events) ∙ run-take n (map some events) h

  back_run :
      (n : ℕ) (events : List Event) {ps : List Processing}
      → run adapter (map some events) ≡ ok ps
      → run adapter (map some (drop n events)) ≡ ok (drop n ps)
  back_run n events h = ap (run adapter) (map-drop some n events) ∙ run-drop n (map some events) h

  -- The steps of `resumeTransportReplay`, each of which gives a result.
  resume_replay-steps :
      (log : ReplayLog Event) (c : Checkpoint) {prefix_log later_log : ReplayLog Event}
      {first later : Replay Processing}
      → verify_replay_log adapter log ≡ ok log
      → verify_checkpoint adapter c log ≡ ok c
      → log_from_events adapter log.log_id (events_of (take (c.boundary_order + 1) log.entries))
        ≡ ok prefix_log
      → replay_transport_log adapter prefix_log ≡ ok first
      → create_checkpoint adapter prefix_log first.processing c.checkpoint_id
          (some (pos c.boundary_order))
        ≡ ok c
      → log_from_events adapter
          (c.checkpoint_id ++ codes ".tail")
          (events_of (drop (c.boundary_order + 1) log.entries))
        ≡ ok later_log
      → replay_transport_log adapter later_log ≡ ok later
      → (r : Resume Processing) × (resume_replay adapter log c ≡ ok r)
  unfolding resume_replay
  resume_replay-steps log c {prefix_log} {later_log} {first} {later} v w pl pr ck ll lr = (
    seal_resume adapter log c first later_log later,
    rw (v, w, pl, pr, ck, opt_eq_refl c.checkpoint_receipt, ll, lr) refl,
  )

  -- A checkpoint can be resumed from. Take the log of some events under a name that is not empty,
  -- events that the adapter processes without an error, and a boundary inside the log. Then
  -- resuming the log from the checkpoint of its replay at that boundary gives a result.
  pub resume_replay-checkpoint_of :
      (d : ℕ) (id : Text) (events : List Event) (ps : List Processing) (cid : Text) (b : ℕ)
      → run adapter (map some events) ≡ ok ps
      → b < length events
      → (r : Resume Processing) × (resume_replay adapter
            (create_replay_log adapter (d ∷ id) events)
            (checkpoint_of adapter (create_replay_log adapter (d ∷ id) events) ps cid b)
          ≡ ok r)
  unfolding checkpoint_of checkpoint_over create_replay_log seal_replay
  resume_replay-checkpoint_of d id events ps cid b h inside =
      let log = create_replay_log adapter (d ∷ id) events in
      let within : b < length log.entries =
        omega (arith, length-new_entries (d ∷ id) 0 none events, inside) in
      let verified = verify_replay_log-create_replay_log adapter (d ∷ id) events in
      let c = checkpoint_of adapter log ps cid b in
      resume_replay-steps log c verified
        (verify_checkpoint-checkpoint_of log ps cid b verified within)
        (log_from_events-map (d ∷ id) _ _ (events_of-take (b + 1) (d ∷ id) events))
        (replay_created (d ∷ id) (take (b + 1) events) (front_run (b + 1) events h))
        (create_checkpoint-again d id events ps cid b inside)
        (log_from_events-map (c.checkpoint_id ++ codes ".tail") _ _
          (events_of-drop (b + 1) (d ∷ id) events))
        (replay_created (c.checkpoint_id ++ codes ".tail") (drop (b + 1) events)
          (back_run (b + 1) events h))
