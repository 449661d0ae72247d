-- ===== src/World/Peers.antt =====
-- workbench/src/autonomous_world_peer_exchange.js: declared peers, their offers, and the receipt
-- of a package.
use omi_imo.Prelude.{
  ℕ, false, Option, none, some, List, [], ◌∷◌, ◌++◌, Text, codes, text_le, ok, throw, if◌then◌else◌,
}
use omi_imo.Prelude.Sorting.{sort}
use omi_imo.Identity.Json.{
  Value, null, arr, obj, Fields, end, field, nat_field, text_field, bool_field, text_items,
  opt_items,
}
use omi_imo.Identity.Fnv.{receipt_of}
use omi_imo.Identity.Values.{prop, or_value, opt_to_text, is_inherited, nat_value, text_value}
use omi_imo.World.Package.{Fails}
use omi_imo.World.Sync.{put, get_own, keys_of}

pub record Peer : Type 0 where
  pub peer_id : Text
  pub label : Text
  pub endpoint : Text
  pub capabilities : List Text
  pub peer_receipt : ℕ

pub record Registry : Type 0 where
  pub peers : List (Text × Peer)
  pub registry_receipt : ℕ

abbrev pub text_default : Text → Text → Text
text_default [] other = other
text_default (c ∷ text) other = c ∷ text

-- `(peer.capabilities || ["world.sync.offer"]).slice().sort()`
abbrev pub capabilities_of : Option (List Text) → List Text
capabilities_of none = codes "world.sync.offer" ∷ []
capabilities_of (some given) = sort text_le given

unfoldable pub seal_peer : Text → Text → Text → List Text → Peer
seal_peer id label endpoint capabilities = record {
  peer_id = id;
  label = label;
  endpoint = endpoint;
  capabilities = capabilities;
  peer_receipt = receipt_of (
      obj (
        text_field "peer_id" id (
          text_field "label" label (
            text_field "endpoint" endpoint (
              field (codes "capabilities") (arr (text_items capabilities))
                (bool_field "authority" false end))))));
}

-- `declarePeer`, of a missing text as the empty one.
unfoldable pub declare_peer : Text → Text → Text → Option (List Text) → Fails Peer
declare_peer [] label endpoint capabilities = throw (codes "missing-peer-id")
declare_peer (c ∷ id) label endpoint capabilities = ok (
    seal_peer (c ∷ id) (text_default label (c ∷ id))
      (text_default endpoint (codes "declared.protocol-only")) (capabilities_of capabilities))

unfoldable pub register_all : List Peer → List (Text × Peer) → List (Text × Peer)
register_all [] table = table
register_all (p ∷ rest) table = register_all rest (put p.peer_id p table)

-- The receipt of every key, in the order of the keys.
unfoldable pub receipts_in_order : List Text → List (Text × Peer) → List (Option ℕ)
receipts_in_order [] table = []
receipts_in_order (k ∷ rest) table =
    elim (get_own k table) [ none ↦ none | some p ↦ some p.peer_receipt ]
    ∷ receipts_in_order rest table

-- `createPeerRegistry`, of declared peers.
unfoldable pub create_registry : List Peer → Registry
create_registry declared =
    let table = register_all declared [] in
    record {
      peers = table;
      registry_receipt = receipt_of (
          obj (
            field (codes "peers")
              (arr (opt_items (receipts_in_order (sort text_le (keys_of table)) table)))
              (bool_field "authority" false end)));
    }

-- What the table of peers gives for a name: a peer, or a property that every object inherits,
-- which has neither a `peer_id` nor a `peer_receipt`.
pub data Found : Type 0 where
  registered : Peer → Found
  inherited_peer : Found

unfoldable pub require_peer : Registry → Option Value → Fails Found
require_peer registry id = elim (get_own (opt_to_text id) registry.peers) [
  | some p ↦ ok (registered p)
  | none ↦
      if is_inherited (opt_to_text id)
      then ok inherited_peer
      else throw (codes "unknown-peer:" ++ opt_to_text id)
]

unfoldable pub found_id : Found → Option Value
found_id (registered p) = text_value p.peer_id
found_id inherited_peer = none

unfoldable pub found_receipt : Found → Option Value
found_receipt (registered p) = nat_value p.peer_receipt
found_receipt inherited_peer = none

-- `offerPackage`
unfoldable pub offer_package : Peer → Option Value → Text → Text → Value
offer_package peer pkg offer_name transport_name =
    let package_receipt = prop "package_receipt" pkg in
    let id =
      text_default offer_name
        (codes "offer." ++ (peer.peer_id ++ (codes "." ++ opt_to_text package_receipt))) in
    let transport = text_default transport_name (codes "protocol.fixture") in
    let offered : Value = elim (or_value package_receipt (some null)) [
      | none ↦ null
      | some v ↦ v
    ] in
    let rest : Fields =
      field (codes "offered_package_receipt") offered
        (text_field "transport" transport (bool_field "authority" false end)) in
    obj (
      text_field "kind" (codes "omi.autonomous-world.peer-package-offer") (
        text_field "offer_id" id (
          text_field "peer_id" peer.peer_id (
            nat_field "peer_receipt" peer.peer_receipt (
              bool_field "peer_authority" false (
                field (codes "offered_package_receipt") offered (
                  text_field "transport" transport (
                    bool_field "transport_authority" false (
                      bool_field "authority" false (
                        nat_field "offer_receipt"
                          (receipt_of (
                            obj (
                              text_field "offer_id" id (
                                text_field "peer_id" peer.peer_id
                                  (nat_field "peer_receipt" peer.peer_receipt rest)))))
                          end))))))))))
