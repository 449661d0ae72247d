-- ===== src/World/Admitted.antt =====
-- What the live adapter accepts, event by event and over a whole transport log
-- (workbench/src/autonomous_world_live_transport_adapter.js).
use omi_imo.Prelude.{
  ◌≡◌, refl, sym, ap, ◌∙◌, Bool, true, false, Option, some, List, [], ◌∷◌, Text, text_le, any,
  Bool-cases, inl, inr, and-true, or-true, arith, ok, subst, ok_inj, >>=-eq-ok, Some, if◌then◌else◌,
}
use omi_imo.Prelude.Sorting.{sort}
use omi_imo.Identity.Json.{Value, null}
use omi_imo.Transport.Unique.{has, has-sort, has-append, has-unique_sorted}
use omi_imo.Transport.Adapter.{Adapter, map_result}
use omi_imo.Transport.Log.{
  Entry, ReplayLog, Replay, all_accepted, process_entries, verify_replay_log, replay_transport_log,
  seal_replay,
}
use omi_imo.Transport.Chain.{verify_replay_log-same}
use omi_imo.World.Package.{Fails, verify_sync_package, snapshot_ids}
use omi_imo.World.Sync.{WorldSnapshot, Imported, keys_of, import_checked}
use omi_imo.World.Peers.{Registry}
use omi_imo.World.Exchanges.{Exchange, accept_exchange, receive_package, seal_exchange}
use omi_imo.World.Court.{Subscription, subscription_matches, evaluate_subscription}
use omi_imo.World.Carrier.{TransportEvent, Processing, process_event, event_or_empty, live_adapter}
use omi_imo.World.Admission.{IsDelivered, has-import_snapshots, receive_package-cases}

nothing_in : (id : Text) → has id [] ≡ true → ⊥
unfolding has any
nothing_in id h = cc

module _ {Document : Type 0} (parse_document : Text → Document)
    (document_id : Document → Text) where
  -- A snapshot that an event brought in: the carrier succeeded, the offer was taken up, the
  -- package holds the identity, and the subscription matches.
  pub record IsAdmitted (registry : Registry) (subscription : Subscription) (event : TransportEvent)
      (id : Text) : Type 0 where
    pub carried : event.transport_success ≡ true
    pub world : Imported Document
    pub delivered : IsDelivered parse_document registry event.offer event.sent world
    pub contained : has id (snapshot_ids delivered.checked.package_snapshots) ≡ true
    pub matched :
        subscription_matches document_id subscription
          (receive_package parse_document registry event.offer event.sent)
        ≡ true

  nothing_sent :
      (registry : Registry) (offer : Option Value) {world : Imported Document}
      → IsDelivered parse_document registry offer (some null) world
      → ⊥
  unfolding verify_sync_package
  nothing_sent registry offer d = let v = d.verified in cc

  identities_eq :
      (id : Text) (registry : Registry) (offer sent : Option Value) {world : Imported Document}
      → (d : IsDelivered parse_document registry offer sent world)
      → has id (keys_of world.imported_snapshots)
        ≡ has id (snapshot_ids d.checked.package_snapshots)
  unfolding import_checked keys_of
  identities_eq id registry offer sent d =
      ap (λ w. has id (keys_of w.imported_snapshots)) d.imported_eq
      ∙ (has-import_snapshots parse_document id d.checked.package_snapshots []
          ∙ unfold has any in ground arith)

  evaluate_subscription-admits :
      (id : Text) (subscription : Subscription) (e : Exchange Document)
      → has id (evaluate_subscription document_id subscription e).admitted_snapshot_identities
        ≡ true
      → (subscription_matches document_id subscription e ≡ true)
        × (has id e.accepted_snapshot_identities ≡ true)
  unfolding evaluate_subscription
  evaluate_subscription-admits id subscription e h =
      elim (Bool-cases (subscription_matches document_id subscription e)) [
        | inl matched ↦ (
          matched,
          sym (has-sort id e.accepted_snapshot_identities)
              ∙ subst
                  (λ b.
                    has id (if b then sort text_le e.accepted_snapshot_identities else []) ≡ true)
                  matched h,
        )
        | inr unmatched ↦ absurd (
            nothing_in id (
              subst
                (λ b. has id (if b then sort text_le e.accepted_snapshot_identities else []) ≡ true)
                unmatched h))
      ]

  accept_exchange-identities :
      (id : Text) (e : Exchange Document) (registry : Registry) (offer sent : Option Value)
      → e ≡ receive_package parse_document registry offer sent
      → e.is_accepted ≡ true
      → has id e.accepted_snapshot_identities ≡ true
      → (world : Imported Document) × (d : IsDelivered parse_document registry offer sent world)
        × (has id (snapshot_ids d.checked.package_snapshots) ≡ true)
  unfolding accept_exchange seal_exchange
  accept_exchange-identities id e registry offer sent from h there =
      let (found, world, d, taken) =
        receive_package-cases parse_document registry offer sent
          (ap (λ x. x.is_accepted) (sym from) ∙ h) in
      let same = from ∙ taken in
      (
        world,
        d,
        sym (identities_eq id registry offer sent d)
            ∙ (sym (has-sort id (keys_of world.imported_snapshots))
                ∙ (ap (λ x. has id x.accepted_snapshot_identities) (sym same) ∙ there)),
      )

  of_event :
      (registry : Registry) (subscription : Subscription) (event : TransportEvent) (id : Text)
      (success : Bool)
      → success ≡ event.transport_success
      → has id
          (evaluate_subscription document_id subscription (
            receive_package parse_document registry event.offer
              (if success then event.sent else some null))).admitted_snapshot_identities
        ≡ true
      → IsAdmitted registry subscription event id
  unfolding subscription_matches
  of_event registry subscription event id false carried h =
      let exchange = receive_package parse_document registry event.offer (some null) in
      let (matched, there) = evaluate_subscription-admits id subscription exchange h in
      let (_, d, _) =
        accept_exchange-identities id exchange registry event.offer (some null) refl
          (and-true _ _ matched).0 there in
      absurd (nothing_sent registry event.offer d)
  of_event registry subscription event id true carried h =
      let exchange = receive_package parse_document registry event.offer event.sent in
      let (matched, there) = evaluate_subscription-admits id subscription exchange h in
      let (world, d, contained) =
        accept_exchange-identities id exchange registry event.offer event.sent refl
          (and-true _ _ matched).0 there in
      record {
        carried = sym carried;
        world = world;
        delivered = d;
        contained = contained;
        matched = matched;
      }

  accepted_sorted :
      (registry : Registry) (subscription : Subscription) (input : Option TransportEvent)
      (id : Text)
      → has id
          (process_event parse_document document_id registry subscription input).accepted_identities
        ≡ true
      → has id
          (evaluate_subscription document_id subscription (
            receive_package parse_document registry (event_or_empty input).offer (
              if (event_or_empty input).transport_success
              then (event_or_empty input).sent
              else some null))).admitted_snapshot_identities
        ≡ true
  unfolding process_event
  accepted_sorted registry subscription input id h = sym (has-sort id _) ∙ h

  -- An identity that `processTransportEvent` accepts comes with a carrier that succeeded, from a sender
  -- whose name the registry's table gives (a registered peer, or a name that every object inherits) with
  -- the receipt that the offer names, in a verified package that holds it and has the offered
  -- receipt, and the subscription matches.
  pub process_event-IsAdmitted :
      (registry : Registry) (subscription : Subscription) (input : Option TransportEvent)
      (id : Text)
      → has id
          (process_event parse_document document_id registry subscription input).accepted_identities
        ≡ true
      → IsAdmitted registry subscription (event_or_empty input) id
  process_event-IsAdmitted registry subscription input id h =
      of_event registry subscription (event_or_empty input) id _ refl
        (accepted_sorted registry subscription input id h)

module _ {Document World Drawing : Type 0} (parse_document : Text → Document)
    (document_id : Document → Text) (open_world : WorldSnapshot Document → Fails World)
    (render_plan : World → Fails Drawing) (registry : Registry) (subscription : Subscription) where
  abbrev pub IsBrought : Text → Entry TransportEvent → Type 0
  IsBrought id e =
      IsAdmitted parse_document document_id registry subscription (event_or_empty e.transport_event)
        id

  abbrev carrier : Adapter TransportEvent (Processing Document) World Drawing
  carrier = live_adapter parse_document document_id open_world render_plan registry subscription

  process_entries-IsBrought :
      (id : Text) (entries : List (Entry TransportEvent)) {ps : List (Processing Document)}
      → process_entries carrier entries ≡ ok ps
      → has id (all_accepted carrier ps) ≡ true
      → Some (IsBrought id) entries
  unfolding process_entries map_result all_accepted
  process_entries-IsBrought id [] done h =
      absurd (
        nothing_in id (subst (λ ps. has id (all_accepted carrier ps) ≡ true) (sym (ok_inj done)) h))
  process_entries-IsBrought id (e ∷ rest) done h =
      let (ps, later, whole) = >>=-eq-ok (process_entries carrier rest) _ done in
      let split =
        sym (has-append id _ (all_accepted carrier ps))
        ∙ subst (λ ps. has id (all_accepted carrier ps) ≡ true) (sym (ok_inj whole)) h in
      elim (or-true _ _ split) [
        | inl here ↦ inl (
            process_event-IsAdmitted parse_document document_id registry subscription
              e.transport_event id here)
        | inr below ↦ inr (process_entries-IsBrought id rest later below)
      ]

  -- Every identity that the replay of a log accepts was brought in by the event of one of the entries,
  -- under the conditions of `IsAdmitted`.
  pub replay_transport_log-IsBrought :
      (log : ReplayLog TransportEvent) (id : Text) {r : Replay (Processing Document)}
      → replay_transport_log carrier log ≡ ok r
      → has id r.accepted_snapshot_identities ≡ true
      → Some (IsBrought id) log.entries
  unfolding replay_transport_log seal_replay
  replay_transport_log-IsBrought log id done h =
      let (out, verified, h') = >>=-eq-ok (verify_replay_log carrier log) _ done in
      let (ps, processed, sealed) = >>=-eq-ok (process_entries carrier out.entries) _ h' in
      let there =
        sym (has-unique_sorted id (all_accepted carrier ps))
        ∙ ap (λ r. has id r.accepted_snapshot_identities) (ok_inj sealed)
        ∙ h in
      subst (λ l. Some (IsBrought id) l.entries) (verify_replay_log-same carrier log verified)
        (process_entries-IsBrought id out.entries processed there)
