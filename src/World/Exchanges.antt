-- ===== src/World/Exchanges.antt =====
-- workbench/src/autonomous_world_peer_exchange.js: the receipt of an offered package.
use omi_imo.Prelude.{
  ℕ, Bool, true, false, ◌&&◌, Option, none, some, List, [], ◌∷◌, Text, codes, text_le, ok, throw,
  ◌>>◌, require, if◌then◌else◌, String,
}
use omi_imo.Prelude.Sorting.{sort}
use omi_imo.Identity.Json.{Value, null, str, arr, text_items}
use omi_imo.Identity.Values.{prop, truthy_value, or_value, same_value, open_receipt, text_value}
use omi_imo.World.Package.{Fails}
use omi_imo.World.Sync.{
  WorldSnapshot, Imported, keys_of, import_sync_package, open_imported_snapshot,
  render_imported_snapshot,
}
use omi_imo.World.Peers.{Found, Registry, require_peer, found_id, found_receipt, text_default}

pub record Exchange (Document : Type 0) : Type 0 where
  pub exchange_peer : Option Value
  pub exchange_peer_receipt : Option Value
  pub offer_receipt : Option Value
  pub offered_package_receipt : Option Value
  pub is_accepted : Bool
  pub rejected_reason : Option Text
  pub accepted_snapshot_identities : List Text
  pub imported : Option (Imported Document)
  pub exchange_receipt : ℕ

-- `verification_status`
abbrev pub status_text : Bool → Text
status_text true = codes "accepted"
status_text false = codes "rejected"

abbrev pub reason_value : Option Text → Option Value
reason_value none = some null
reason_value (some why) = some (str why)

-- `offer ? offer.key : null`
abbrev pub offer_part : String → Option Value → Option Value
offer_part key offer = if truthy_value offer then prop key offer else some null

-- `offer && offer.key`
abbrev pub offer_read : String → Option Value → Option Value
offer_read key offer = if truthy_value offer then prop key offer else offer

module _ {Document : Type 0} where
  unfoldable pub exchange_receipt_of : Exchange Document → ℕ
  exchange_receipt_of r = open_receipt (
      (codes "peer_id", r.exchange_peer)
      ∷ (codes "peer_receipt", r.exchange_peer_receipt)
      ∷ (codes "offer_receipt", r.offer_receipt)
      ∷ (codes "offered_package_receipt", r.offered_package_receipt)
      ∷ (codes "verification_status", some (str (status_text r.is_accepted)))
      ∷ (
        codes "accepted_snapshot_identities",
        some (arr (text_items r.accepted_snapshot_identities)),
      )
      ∷ (codes "rejected_reason", reason_value r.rejected_reason)
      ∷ [])

  unfoldable pub seal_exchange : Exchange Document → Exchange Document
  seal_exchange r = record r { exchange_receipt = exchange_receipt_of r }

  -- `rejectExchange`
  unfoldable pub reject_exchange : Option Found → Option Value → Text → Exchange Document
  reject_exchange peer offer why = seal_exchange (record {
    exchange_peer = elim peer [
      | some found ↦ found_id found
      | none ↦ or_value (offer_read "peer_id" offer) (text_value (codes "unknown"))
    ];
    exchange_peer_receipt = elim peer [ some found ↦ found_receipt found | none ↦ some null ];
    offer_receipt = offer_part "offer_receipt" offer;
    offered_package_receipt = offer_part "offered_package_receipt" offer;
    is_accepted = false;
    rejected_reason = some (text_default why (codes "rejected"));
    accepted_snapshot_identities = [];
    imported = none;
    exchange_receipt = 0;
  })

  unfoldable pub accept_exchange : Found → Option Value → Imported Document → Exchange Document
  accept_exchange peer offer world = seal_exchange (record {
    exchange_peer = found_id peer;
    exchange_peer_receipt = found_receipt peer;
    offer_receipt = prop "offer_receipt" offer;
    offered_package_receipt = prop "offered_package_receipt" offer;
    is_accepted = true;
    rejected_reason = none;
    accepted_snapshot_identities = sort text_le (keys_of world.imported_snapshots);
    imported = some world;
    exchange_receipt = 0;
  })

  module _ (parse_document : Text → Document) where
    -- The checks of `receivePackage` on an offer and a package, each an error that is caught.
    unfoldable pub check_offer : Found → Option Value → Option Value → Fails (Imported Document)
    check_offer peer offer pkg = do
      require (truthy_value offer && same_value (prop "peer_receipt" offer) (found_receipt peer))
          (codes "peer-receipt-mismatch")
      require (truthy_value (prop "offered_package_receipt" offer))
          (codes "missing-package-receipt")
      require
          (truthy_value pkg
            && same_value (prop "package_receipt" pkg) (prop "offered_package_receipt" offer))
          (codes "offered-package-receipt-mismatch")
      import_sync_package parse_document pkg

    unfoldable pub receive_package : Registry → Option Value → Option Value → Exchange Document
    receive_package registry offer pkg = elim (require_peer registry (offer_read "peer_id" offer)) [
      | throw why ↦ reject_exchange none offer why
      | ok peer ↦ elim (check_offer peer offer pkg) [
        | throw why ↦ reject_exchange (some peer) offer why
        | ok world ↦ accept_exchange peer offer world
      ]
    ]

module _ {Document World Drawing : Type 0} (open_world : WorldSnapshot Document → Fails World)
    (render_plan : World → Fails Drawing) where
  unfoldable pub open_accepted_snapshot : Exchange Document → Text → Fails World
  open_accepted_snapshot exchange identity = elim exchange.imported [
    | none ↦ throw (codes "exchange-not-accepted")
    | some world ↦
        if exchange.is_accepted
        then open_imported_snapshot open_world render_plan world identity
        else throw (codes "exchange-not-accepted")
  ]

  unfoldable pub render_accepted_snapshot : Exchange Document → Text → Fails Drawing
  render_accepted_snapshot exchange identity = elim exchange.imported [
    | none ↦ throw (codes "exchange-not-accepted")
    | some world ↦
        if exchange.is_accepted
        then render_imported_snapshot open_world render_plan world identity
        else throw (codes "exchange-not-accepted")
  ]
