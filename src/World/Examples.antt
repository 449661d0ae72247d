-- ===== src/World/Examples.antt =====
-- The theorems on worlds at a package with one snapshot and one history edge, offered by a peer.
use omi_imo.Prelude.{
  map, ℕ, ◌≡◌, refl, ◌∙◌, Bool, true, false, Option, none, some, [], ◌∷◌, Text, codes, Result, ok,
  throw, pos, any, text_eq, Some, join, text_le,
}
use omi_imo.Prelude.Sorting.{sort}
use omi_imo.Identity.Json.{
  Value, null, num, str, arr, obj, nil, cons, Fields, end, field, nat_field, text_field, bool_field,
  text_items, decimal, digits_of, get_or_empty, int_text, member, object_text, quote, stable_string,
}
use omi_imo.Identity.Fnv.{fnv1a, fnv_from, fnv_step, receipt_of}
use omi_imo.Identity.Values.{
  prop, truthy_value, set_field, get_field, same_value, open_receipt, stable_opt, items_of,
  value_items, is_inherited, no_properties, opt_to_text, or_value, read, to_text,
}
use omi_imo.Transport.Unique.{has, has-unique_sorted, has-append}
use omi_imo.Transport.Log.{
  ReplayLog, create_replay_log, replay_transport_log, Replay, new_entries, new_entry, all_accepted,
  process_entries, seal_replay,
}
use omi_imo.Transport.Adapter.{Adapter, map_result}
use omi_imo.Transport.Chain.{verify_replay_log-create_replay_log}
use omi_imo.World.Package.{
  Fails, Checked, package_kind, package_receipt_of, history_edge_receipt_of, verify_sync_package,
  snapshot_ids, unverified, verify_fields, snapshots_of, array_of, edges_of, knows_id,
  require_edge_field, require_part, require_value, require_witnesses, verify_edge, verify_edges,
  verify_snapshot, verify_snapshots, witness_of, witness_part,
}
use omi_imo.World.Sync.{
  get_own, put, keys_of, import_snapshots, import_checked, import_sync_package,
}
use omi_imo.World.Peers.{
  Peer, Registry, seal_peer, create_registry, offer_package, register_all, require_peer,
  found_receipt, found_id,
}
use omi_imo.World.Exchanges.{receive_package, check_offer, accept_exchange, seal_exchange}
use omi_imo.World.Court.{
  Subscription, declare_subscription, evaluate_subscription, subscription_matches, peer_matches,
  world_matches, history_matches,
}
use omi_imo.World.Carrier.{
  Plan, TransportEvent, Processing, process_event, create_event, live_adapter,
}
use omi_imo.World.Verified.{identity_text, IsVerified, verify_sync_package-IsVerified}
use omi_imo.World.Admitted.{
  IsBrought, IsAdmitted, process_event-IsAdmitted, replay_transport_log-IsBrought,
}
use omi_imo.World.Offering.{offer_package-receive_package, receive_package-inherited}

abbrev evidence : Fields
evidence = nat_field "manifest_receipt" 1 (nat_field "imported_manifest_receipt" 2 end)

abbrev snapshot : Value
snapshot = obj (
    nat_field "identity_receipt" 7 (
      field (codes "admission")
        (obj (nat_field "identity_receipt" 7 (text_field "source" (codes "s") end)))
        (field (codes "report")
          (obj (
            field (codes "package")
              (obj (nat_field "manifest_receipt" 1 (nat_field "imported_manifest_receipt" 2 end)))
              (field (codes "closure")
                (obj (
                  nat_field "character_identity_receipt" 3
                    (nat_field "binary64_identity_receipt" 4 end)))
                (field (codes "raw_binary")
                  (obj (nat_field "identity_receipt" 5 (nat_field "index_receipt" 6 end))) end))))
          (bool_field "authority" false end))))

abbrev open_edge : Fields
open_edge = nat_field "from_identity_receipt" 5 (
    nat_field "overlay_receipt" 1 (
      nat_field "candidate_edit_receipt" 2
        (nat_field "admission_decision_receipt" 3 (nat_field "to_identity_receipt" 7 end))))

abbrev edge : Value
edge =
    obj
      (nat_field "history_edge_receipt" (history_edge_receipt_of (some (obj open_edge))) open_edge)

abbrev unsealed : Fields
unsealed = field (codes "kind") (str package_kind) (
    field (codes "snapshots") (arr (cons snapshot nil)) (
      field (codes "history_edges") (arr (cons edge nil)) (
        field (codes "source") (obj (bool_field "authority" false end))
          (field (codes "package_receipt") null end))))

abbrev sealed_with : Fails ℕ → Option Value
sealed_with (ok n) = some (obj (set_field (codes "package_receipt") (num (pos n)) unsealed))
sealed_with (throw why) = none

abbrev sealed : Option Value
sealed = sealed_with (package_receipt_of unsealed)

abbrev sender : Peer
sender = seal_peer (codes "p") (codes "P") (codes "e") []

abbrev registry : Registry
registry = create_registry (sender ∷ [])

is_ok : {E A : Type 0} → Result E A → Bool
is_ok (ok a) = true
is_ok (throw e) = false

is_ok-value : {E A : Type 0} (m : Result E A) → is_ok m ≡ true → (a : A) × (m ≡ ok a)
unfolding is_ok
is_ok-value (ok a) h = (a, refl)
is_ok-value (throw e) h = cc

verified : (c : Checked) × (verify_sync_package sealed ≡ ok c)
unfolding is_ok verify_sync_package package_receipt_of unverified truthy_value get_field set_field
    text_eq verify_fields same_value receipt_of history_edge_receipt_of open_receipt stable_opt prop
    snapshots_of array_of items_of edges_of fnv1a fnv_from fnv_step decimal digits_of get_or_empty
    int_text member object_text quote stable_string is_inherited no_properties opt_to_text or_value
    read to_text any sort join text_le knows_id require_edge_field require_part require_value
    require_witnesses snapshot_ids verify_edge verify_edges verify_snapshot verify_snapshots
    witness_of witness_part
verified = is_ok-value (verify_sync_package sealed) refl

known : get_own (codes "p") registry.peers ≡ some sender
unfolding create_registry register_all put get_own seal_peer text_eq
known = refl

has_receipt : truthy_value (prop "package_receipt" sealed) ≡ true
unfolding truthy_value prop package_receipt_of unverified get_field set_field text_eq receipt_of
    history_edge_receipt_of open_receipt stable_opt
has_receipt = refl

listed : prop "snapshots" sealed ≡ some (arr (value_items (snapshot ∷ [])))
unfolding prop package_receipt_of unverified get_field set_field text_eq receipt_of truthy_value
    history_edge_receipt_of open_receipt stable_opt value_items
listed = refl

offer_package-receive_package_example :
    ((receive_package
        (λ t. t)
        registry
        (some (offer_package sender sealed [] []))
        sealed).is_accepted
      ≡ true)
    × ((id : Text)
        → has id
            (receive_package
              (λ t. t)
              registry
              (some (offer_package sender sealed [] []))
              sealed).accepted_snapshot_identities
          ≡ has id (map identity_text (snapshot ∷ [])))
unfolding seal_peer
offer_package-receive_package_example =
    offer_package-receive_package (λ t. t) registry sender sealed [] [] (snapshot ∷ []) known
      verified.1 has_receipt listed

abbrev receipt_in : Option Value → Value
receipt_in (some v) = v
receipt_in none = null

abbrev impostor : Option Value
impostor = some (
    obj (
      text_field "peer_id" (codes "toString")
        (field (codes "offered_package_receipt") (receipt_in (prop "package_receipt" sealed)) end)))

receive_package-inherited_example :
    (receive_package (λ t. t) registry impostor sealed).is_accepted ≡ true
unfolding truthy_value prop get_field text_eq get_own create_registry register_all put seal_peer
    is_inherited any package_receipt_of unverified set_field
receive_package-inherited_example =
    receive_package-inherited (λ t. t) registry impostor sealed (codes "toString") refl refl refl
      refl refl refl has_receipt verified.1

abbrev subscription : Subscription
subscription = declare_subscription [] [] [] []

abbrev plan : Plan
plan = record {
  plan_id = codes "plan";
  adapter = codes "tcp";
  endpoint = codes "e";
  mode = codes "m";
  transport_plan_receipt = 1;
}

abbrev arrival : TransportEvent
arrival = create_event plan (some (offer_package sender sealed [] [])) sealed (codes "a") true

arrives :
    has
      (codes "7")
      (process_event (λ t. t) (λ t. t) registry subscription (some arrival)).accepted_identities
    ≡ true
unfolding verify_sync_package package_receipt_of unverified truthy_value get_field set_field text_eq
    verify_fields same_value receipt_of history_edge_receipt_of open_receipt stable_opt prop
    snapshots_of array_of items_of edges_of fnv1a fnv_from fnv_step decimal digits_of get_or_empty
    int_text member object_text quote stable_string is_inherited no_properties opt_to_text or_value
    read to_text any sort join text_le knows_id require_edge_field require_part require_value
    require_witnesses snapshot_ids verify_edge verify_edges verify_snapshot verify_snapshots
    witness_of witness_part has process_event evaluate_subscription subscription_matches
    peer_matches world_matches history_matches receive_package require_peer found_receipt found_id
    check_offer import_sync_package offer_package accept_exchange seal_exchange create_event
    declare_subscription import_snapshots import_checked keys_of create_registry register_all put
    get_own seal_peer text_items
arrives = refl

process_event-IsAdmitted_example :
    IsAdmitted (λ t. t) (λ t. t) registry subscription arrival (codes "7")
process_event-IsAdmitted_example =
    process_event-IsAdmitted (λ t. t) (λ t. t) registry subscription (some arrival) (codes "7")
      arrives

abbrev live : Adapter TransportEvent (Processing Text) Text Text
live = live_adapter (λ t. t) (λ t. t) (λ s. ok s.snapshot_document) ok registry subscription

abbrev log : ReplayLog TransportEvent
log = create_replay_log live (codes "w") (arrival ∷ [])

abbrev replay : Replay (Processing Text)
replay =
    seal_replay live log (process_event (λ t. t) (λ t. t) registry subscription (some arrival) ∷ [])

replayed : replay_transport_log live log ≡ ok replay
unfolding replay_transport_log process_entries map_result create_replay_log new_entries new_entry
replayed = rw (verify_replay_log-create_replay_log live (codes "w") (arrival ∷ [])) refl

replayed-has : has (codes "7") replay.accepted_snapshot_identities ≡ true
unfolding seal_replay all_accepted
replayed-has = has-unique_sorted (codes "7") _ ∙ (has-append (codes "7") _ [] ∙ rw arrives refl)

replay_transport_log-IsBrought_example :
    Some
      (IsBrought
        (λ t. t)
        (λ t. t)
        (λ s. ok s.snapshot_document)
        ok
        registry
        subscription
        (codes "7"))
      log.entries
replay_transport_log-IsBrought_example =
    replay_transport_log-IsBrought (λ t. t) (λ t. t) (λ s. ok s.snapshot_document) ok registry
      subscription log (codes "7") replayed replayed-has

verify_sync_package-IsVerified_example : IsVerified sealed verified.0
verify_sync_package-IsVerified_example = verify_sync_package-IsVerified sealed verified.1
