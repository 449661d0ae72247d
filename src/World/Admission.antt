-- ===== src/World/Admission.antt =====
-- What stands behind an identity that the live adapter accepts.
use omi_imo.Prelude.{
  ◌≡◌, refl, sym, ap, ◌∙◌, true, false, ◌&&◌, ◌||◌, Option, none, some, List, [], ◌∷◌, map, Text,
  text_eq, text_eq_sound, any, ok, throw, subst, ok_inj, Result-cases, >>=-eq-ok, require-eq-ok,
  Bool-cases, inl, inr, and-true, arith,
}
use omi_imo.Identity.Json.{Value}
use omi_imo.Identity.Values.{prop, same_value, truthy_value, opt_to_text}
use omi_imo.Transport.Unique.{has}
use omi_imo.World.Package.{Checked, verify_sync_package, snapshot_ids}
use omi_imo.World.Sync.{
  WorldSnapshot, Imported, put, keys_of, world_snapshot, import_snapshots, import_checked,
  import_sync_package,
}
use omi_imo.World.Peers.{Registry, Found, found_receipt, require_peer}
use omi_imo.World.Exchanges.{
  offer_read, Exchange, check_offer, accept_exchange, reject_exchange, receive_package,
  seal_exchange,
}

module _ {A : Type 0} where
  has-put :
      (a k : Text) (v : A) (table : List (Text × A))
      → has a (keys_of (put k v table)) ≡ (has a (keys_of table) || text_eq a k)
  unfolding put keys_of has any
  has-put a k v [] = ground arith
  has-put a k v ((j, w) ∷ rest) = elim (Bool-cases (text_eq j k)) [
    | inl same ↦
        (let e = text_eq_sound j k same in
          rw same (
            subst
              (λ x.
                (text_eq a j || any (text_eq a) (map (λ p. p.0) rest))
                ≡ ((text_eq a j || any (text_eq a) (map (λ p. p.0) rest)) || text_eq a x))
              e (ground arith)))
    | inr other ↦ (let later = has-put a k v rest in rw other (ground (arith, later)))
  ]

module _ {Document : Type 0} (parse_document : Text → Document) where
  pub has-import_snapshots :
      (a : Text) (snapshots : List Value) (table : List (Text × WorldSnapshot Document))
      → has a (keys_of (import_snapshots parse_document snapshots table))
        ≡ (has a (keys_of table) || has a (snapshot_ids snapshots))
  unfolding import_snapshots snapshot_ids
  has-import_snapshots a [] table = unfold has any in ground arith
  has-import_snapshots a (s ∷ rest) table =
      let id = opt_to_text (prop "identity_receipt" (some s)) in
      has-import_snapshots a rest (put id (world_snapshot parse_document s) table)
      ∙ (ap (λ b. b || has a (snapshot_ids rest))
            (has-put a id (world_snapshot parse_document s) table)
          ∙ unfold has any in ground arith)

  -- An offer that was taken up: who sent it, and what it delivered.
  pub record IsDelivered (registry : Registry) (offer sent : Option Value)
      (world : Imported Document) : Type 0 where
    pub sender : Found
    pub checked : Checked
    pub known : require_peer registry (offer_read "peer_id" offer) ≡ ok sender
    pub same_sender : same_value (prop "peer_receipt" offer) (found_receipt sender) ≡ true
    pub same_package :
        same_value (prop "package_receipt" sent) (prop "offered_package_receipt" offer) ≡ true
    pub verified : verify_sync_package sent ≡ ok checked
    pub imported_eq : world ≡ import_checked parse_document checked

  check_offer-ok :
      (registry : Registry) (found : Found) (offer sent : Option Value) {world : Imported Document}
      → require_peer registry (offer_read "peer_id" offer) ≡ ok found
      → check_offer parse_document found offer sent ≡ ok world
      → IsDelivered registry offer sent world
  unfolding check_offer import_sync_package
  check_offer-ok registry found offer sent k h =
      let (a, h1) =
        require-eq-ok
          (truthy_value offer && same_value (prop "peer_receipt" offer) (found_receipt found)) _ _
          h in
      let (_, h2) = require-eq-ok (truthy_value (prop "offered_package_receipt" offer)) _ _ h1 in
      let (b, h3) =
        require-eq-ok
          (truthy_value sent
            && same_value (prop "package_receipt" sent) (prop "offered_package_receipt" offer))
          _ _ h2 in
      let (c, v, e) = >>=-eq-ok (verify_sync_package sent) _ h3 in
      record {
        sender = found;
        checked = c;
        known = k;
        same_sender = (and-true _ _ a).1;
        same_package = (and-true _ _ b).1;
        verified = v;
        imported_eq = sym (ok_inj e);
      }

  receive_package-unknown :
      (registry : Registry) (offer sent : Option Value) {why : Text}
      → require_peer registry (offer_read "peer_id" offer) ≡ throw why
      → receive_package parse_document registry offer sent ≡ reject_exchange none offer why
  unfolding receive_package reject_exchange
  receive_package-unknown registry offer sent k = rw (k, receive_package) refl

  receive_package-refused :
      (registry : Registry) (found : Found) (offer sent : Option Value) {why : Text}
      → require_peer registry (offer_read "peer_id" offer) ≡ ok found
      → check_offer parse_document found offer sent ≡ throw why
      → receive_package parse_document registry offer sent ≡ reject_exchange (some found) offer why
  unfolding receive_package reject_exchange
  receive_package-refused registry found offer sent k r = rw (k, receive_package) (rw r refl)

  pub receive_package-taken :
      (registry : Registry) (found : Found) (offer sent : Option Value) {world : Imported Document}
      → require_peer registry (offer_read "peer_id" offer) ≡ ok found
      → check_offer parse_document found offer sent ≡ ok world
      → receive_package parse_document registry offer sent ≡ accept_exchange found offer world
  unfolding receive_package accept_exchange
  receive_package-taken registry found offer sent k r = rw (k, receive_package) (rw r refl)

  not_accepted :
      (peer : Option Found) (offer : Option Value) (why : Text)
      → (reject_exchange {Document = Document} peer offer why).is_accepted ≡ false
  unfolding reject_exchange seal_exchange
  not_accepted peer offer why = refl

  refused :
      {e : Exchange Document} (peer : Option Found) (offer : Option Value) (why : Text)
      → e ≡ reject_exchange peer offer why
      → e.is_accepted ≡ true
      → ⊥
  refused peer offer why same h =
      let no = ap (λ x. x.is_accepted) same ∙ not_accepted peer offer why in cc

  pub receive_package-cases :
      (registry : Registry) (offer sent : Option Value)
      → (receive_package parse_document registry offer sent).is_accepted ≡ true
      → (found : Found) × (world : Imported Document) × IsDelivered registry offer sent world
        × (receive_package parse_document registry offer sent ≡ accept_exchange found offer world)
  receive_package-cases registry offer sent h =
      elim (Result-cases (require_peer registry (offer_read "peer_id" offer))) [
        | inl (why, unknown) ↦
            absurd (refused none offer why (receive_package-unknown registry offer sent unknown) h)
        | inr (found, known) ↦ elim (Result-cases (check_offer parse_document found offer sent)) [
          | inl (why, r) ↦ absurd (
              refused (some found) offer why
                (receive_package-refused registry found offer sent known r) h)
          | inr (world, r) ↦ (
            found,
            world,
            check_offer-ok registry found offer sent known r,
            receive_package-taken registry found offer sent known r,
          )
        ]
      ]
