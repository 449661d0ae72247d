-- ===== src/World/Offering.antt =====
-- The way of a package from a sender that offers it to a receiver that takes it
-- (workbench/src/autonomous_world_peer_exchange.js).
use omi_imo.Prelude.{
  ℕ, ◌≡◌, refl, sym, ap, ◌∙◌, true, Option, none, some, [], List, map, Text, codes, text_eq, any,
  arith, ok, subst, >>=-eq-ok, require-eq-ok, if◌then◌else◌, pos, int_eq_iff, int_eq_refl,
}
use omi_imo.Identity.Json.{Value, null, bool, num, str, arr, obj}
use omi_imo.Identity.Values.{
  prop, get_field, same_value, truthy_value, or_value, opt_to_text, nat_value, to_text, text_value,
  is_inherited, items_of, value_items,
}
use omi_imo.Transport.Unique.{has, has-sort}
use omi_imo.World.Package.{
  Checked, verify_fields, package_receipt_of, verify_sync_package, snapshot_ids,
}
use omi_imo.World.Verified.{identity_text, items_of-value_items, verify_sync_package-IsVerified}
use omi_imo.World.Sync.{get_own, keys_of, import_checked, import_sync_package}
use omi_imo.World.Peers.{
  Peer, Registry, Found, registered, inherited_peer, require_peer, offer_package, found_receipt,
}
use omi_imo.World.Exchanges.{check_offer, accept_exchange, receive_package, seal_exchange}
use omi_imo.World.Admission.{has-import_snapshots, receive_package-taken}

same_value-nat : (v : Option Value) (n : ℕ) → same_value v (nat_value n) ≡ true → v ≡ nat_value n
unfolding same_value
same_value-nat none n h = cc
same_value-nat (some null) n h = cc
same_value-nat (some (bool b)) n h = cc
same_value-nat (some (num z)) n h = ap (λ z. some (num z)) ((int_eq_iff z (pos n)).0 h)
same_value-nat (some (str t)) n h = cc
same_value-nat (some (arr items)) n h = cc
same_value-nat (some (obj fields)) n h = cc

pub same_value-nat_refl : (n : ℕ) → same_value (nat_value n) (nat_value n) ≡ true
unfolding same_value
same_value-nat_refl n = int_eq_refl (pos n)

offer_package-peer_id :
    (p : Peer) (sent : Option Value) (name transport : Text)
    → prop "peer_id" (some (offer_package p sent name transport)) ≡ text_value p.peer_id
unfolding offer_package prop get_field text_eq
offer_package-peer_id p sent name transport = refl

offer_package-peer_receipt :
    (p : Peer) (sent : Option Value) (name transport : Text)
    → prop "peer_receipt" (some (offer_package p sent name transport)) ≡ nat_value p.peer_receipt
unfolding offer_package prop get_field text_eq
offer_package-peer_receipt p sent name transport = refl

or_null_value : Option Value → Option Value
or_null_value v = some (elim (if truthy_value v then v else some null) [ none ↦ null | some w ↦ w ])

offer_package-or_null :
    (p : Peer) (sent : Option Value) (name transport : Text)
    → prop "offered_package_receipt" (some (offer_package p sent name transport))
      ≡ or_null_value (prop "package_receipt" sent)
unfolding offer_package prop get_field text_eq or_value or_null_value
offer_package-or_null p sent name transport = refl

offer_package-offered :
    (p : Peer) (sent : Option Value) (name transport : Text) (n : ℕ)
    → prop "package_receipt" sent ≡ nat_value n
    → truthy_value (nat_value n) ≡ true
    → prop "offered_package_receipt" (some (offer_package p sent name transport)) ≡ nat_value n
unfolding or_null_value
offer_package-offered p sent name transport n h t =
    offer_package-or_null p sent name transport ∙ (ap or_null_value h ∙ rw t refl)

verify_sync_package-receipt :
    (sent : Option Value) {c : Checked}
    → verify_sync_package sent ≡ ok c
    → (n : ℕ) × (prop "package_receipt" sent ≡ nat_value n) × (truthy_value sent ≡ true)
unfolding verify_sync_package verify_fields prop truthy_value
verify_sync_package-receipt none h = cc
verify_sync_package-receipt (some null) h = cc
verify_sync_package-receipt (some (bool b)) h = cc
verify_sync_package-receipt (some (num z)) h = cc
verify_sync_package-receipt (some (str t)) h = cc
verify_sync_package-receipt (some (arr items)) h = cc
verify_sync_package-receipt (some (obj fields)) h =
    let (_, h1) = require-eq-ok _ _ _ h in
    let (n, _, h2) = >>=-eq-ok (package_receipt_of fields) _ h1 in
    let (same, _) = require-eq-ok _ _ _ h2 in
    (n, same_value-nat (get_field (codes "package_receipt") fields) n same, refl)

offer_package-truthy :
    (p : Peer) (sent : Option Value) (name transport : Text)
    → truthy_value (some (offer_package p sent name transport)) ≡ true
unfolding offer_package truthy_value
offer_package-truthy p sent name transport = refl

require_peer-registered :
    (registry : Registry) (peer : Peer) (id : Option Value)
    → id ≡ text_value peer.peer_id
    → get_own peer.peer_id registry.peers ≡ some peer
    → require_peer registry id ≡ ok (registered peer)
unfolding require_peer opt_to_text to_text
require_peer-registered registry peer id named known = rw (named, require_peer, known) refl

require_peer-inherited :
    (registry : Registry) (name : Text) (id : Option Value)
    → id ≡ text_value name
    → get_own name registry.peers ≡ none
    → is_inherited name ≡ true
    → require_peer registry id ≡ ok inherited_peer
unfolding require_peer opt_to_text to_text
require_peer-inherited registry name id named unregistered inherited =
    subst (λ i. require_peer registry i ≡ ok inherited_peer) (sym named)
      (rw (require_peer, unregistered) (rw inherited refl))

value_items_inj :
    (a b : List Value) → some (arr (value_items a)) ≡ some (arr (value_items b)) → a ≡ b
value_items_inj a b h =
    let same : value_items a ≡ value_items b = cc in
    sym (items_of-value_items a) ∙ (ap items_of same ∙ items_of-value_items b)

module _ {Document : Type 0} (parse_document : Text → Document) where
  checks_pass :
      (found : Found) (offer sent : Option Value) {c : Checked} (n : ℕ)
      → truthy_value offer ≡ true
      → same_value (prop "peer_receipt" offer) (found_receipt found) ≡ true
      → prop "offered_package_receipt" offer ≡ nat_value n
      → prop "package_receipt" sent ≡ nat_value n
      → truthy_value (nat_value n) ≡ true
      → truthy_value sent ≡ true
      → verify_sync_package sent ≡ ok c
      → check_offer parse_document found offer sent ≡ ok (import_checked parse_document c)
  unfolding check_offer import_sync_package
  checks_pass found offer sent n o p q r t u v =
      rw (o, p, q, r, t, u, v, same_value-nat_refl n) refl

  taken_up :
      (registry : Registry) (found : Found) (offer sent : Option Value) {c : Checked} (n : ℕ)
      → truthy_value offer ≡ true
      → require_peer registry (prop "peer_id" offer) ≡ ok found
      → same_value (prop "peer_receipt" offer) (found_receipt found) ≡ true
      → prop "offered_package_receipt" offer ≡ nat_value n
      → prop "package_receipt" sent ≡ nat_value n
      → truthy_value (nat_value n) ≡ true
      → truthy_value sent ≡ true
      → verify_sync_package sent ≡ ok c
      → receive_package parse_document registry offer sent
        ≡ accept_exchange found offer (import_checked parse_document c)
  taken_up registry found offer sent n o k p q r t u v =
      receive_package-taken parse_document registry found offer sent (rw o k)
        (checks_pass found offer sent n o p q r t u v)

  accept_exchange-identities :
      (id : Text) (found : Found) (offer : Option Value) (c : Checked)
      → has id
          (accept_exchange found offer
            (import_checked parse_document c)).accepted_snapshot_identities
        ≡ has id (snapshot_ids c.package_snapshots)
  unfolding accept_exchange seal_exchange import_checked keys_of
  accept_exchange-identities id found offer c =
      has-sort id _
      ∙ (has-import_snapshots parse_document id c.package_snapshots []
          ∙ unfold has any in ground arith)

  -- The offer that a registered peer makes for a package that verifies and has a receipt that is not
  -- zero is taken up by a receiver whose parser takes every source, and the identities it accepts are
  -- those of all the items of the snapshots of the package.
  pub offer_package-receive_package :
      (registry : Registry) (peer : Peer) (sent : Option Value) (name transport : Text)
      (snapshots : List Value) {c : Checked}
      → get_own peer.peer_id registry.peers ≡ some peer
      → verify_sync_package sent ≡ ok c
      → truthy_value (prop "package_receipt" sent) ≡ true
      → prop "snapshots" sent ≡ some (arr (value_items snapshots))
      → ((receive_package parse_document registry
            (some (offer_package peer sent name transport))
            sent).is_accepted
          ≡ true)
        × ((id : Text)
            → has id
                (receive_package parse_document registry
                  (some (offer_package peer sent name transport))
                  sent).accepted_snapshot_identities
              ≡ has id (map identity_text snapshots))
  unfolding accept_exchange seal_exchange truthy_value found_receipt snapshot_ids
  offer_package-receive_package registry peer sent name transport snapshots {c} known verified there
        listed =
      let (n, receipt, holds) = verify_sync_package-receipt sent verified in
      let offer = some (offer_package peer sent name transport) in
      let taken =
        taken_up registry (registered peer) offer sent n
          (offer_package-truthy peer sent name transport)
          (require_peer-registered registry peer (prop "peer_id" offer)
            (offer_package-peer_id peer sent name transport) known)
          (ap (λ v. same_value v (nat_value peer.peer_receipt))
              (offer_package-peer_receipt peer sent name transport)
            ∙ same_value-nat_refl peer.peer_receipt)
          (offer_package-offered peer sent name transport n receipt
            (subst (λ v. truthy_value v ≡ true) receipt there))
          receipt (subst (λ v. truthy_value v ≡ true) receipt there) holds verified in
      (
        ap (λ e. e.is_accepted) taken,
        λ id.
            ap (λ e. has id e.accepted_snapshot_identities) taken
            ∙ (accept_exchange-identities id (registered peer) offer c
                ∙ ap (λ l. has id (map identity_text l))
                    (value_items_inj _ snapshots
                      (sym (verify_sync_package-IsVerified sent verified).all_snapshots ∙ listed))),
      )

  -- An offer without a peer receipt, from a name that is not registered but that every object
  -- inherits, is taken up for every package that verifies and has a receipt that is not zero and is
  -- the one offered, by a receiver whose parser takes every source.
  pub receive_package-inherited :
      (registry : Registry) (offer sent : Option Value) (name : Text) {c : Checked}
      → truthy_value offer ≡ true
      → prop "peer_id" offer ≡ text_value name
      → get_own name registry.peers ≡ none
      → is_inherited name ≡ true
      → prop "peer_receipt" offer ≡ none
      → prop "offered_package_receipt" offer ≡ prop "package_receipt" sent
      → truthy_value (prop "package_receipt" sent) ≡ true
      → verify_sync_package sent ≡ ok c
      → (receive_package parse_document registry offer sent).is_accepted ≡ true
  unfolding accept_exchange seal_exchange same_value found_receipt
  receive_package-inherited registry offer sent name o id unregistered inherited receipt same there
        verified =
      let (n, sealed, holds) = verify_sync_package-receipt sent verified in
      let taken =
        taken_up registry inherited_peer offer sent n o
          (require_peer-inherited registry name (prop "peer_id" offer) id unregistered inherited)
          (rw receipt refl) (same ∙ sealed) sealed (subst (λ v. truthy_value v ≡ true) sealed there)
          holds verified in
      ap (λ e. e.is_accepted) taken
