-- ===== src/World/Court.antt =====
-- workbench/src/autonomous_world_subscription_court.js: which accepted exchanges a subscription
-- admits.
use omi_imo.Prelude.{
  ℕ, Bool, true, false, ◌&&◌, ◌||◌, Option, none, some, List, [], ◌∷◌, ◌++◌, Text, codes, text_eq,
  text_le, any, ◌>>◌, require, if◌then◌else◌,
}
use omi_imo.Prelude.Sorting.{sort}
use omi_imo.Identity.Json.{Value, bool, arr, obj, end, field, text_field, bool_field, text_items}
use omi_imo.Identity.Fnv.{receipt_of}
use omi_imo.Identity.Values.{prop, same_value, open_receipt, nat_value, text_value}
use omi_imo.World.Package.{Fails}
use omi_imo.World.Sync.{WorldSnapshot}
use omi_imo.World.Peers.{text_default}
use omi_imo.World.Exchanges.{
  Exchange, status_text, open_accepted_snapshot, render_accepted_snapshot,
}

pub record Subscription : Type 0 where
  pub subscription_id : Text
  pub peer_filter : Text
  pub world_filter : Text
  pub history_mode : Text
  pub subscription_receipt : ℕ

-- `declareSubscription`, with the defaults of `normalizeFilters`.
unfoldable pub declare_subscription : Text → Text → Text → Text → Subscription
declare_subscription given_id given_peer given_world given_mode =
    let id = text_default given_id (codes "sub.fixture.world-history") in
    let peer = text_default given_peer (codes "*") in
    let world = text_default given_world (codes "*") in
    let mode = text_default given_mode (codes "admitted-only") in
    record {
      subscription_id = id;
      peer_filter = peer;
      world_filter = world;
      history_mode = mode;
      subscription_receipt = receipt_of (
          obj (
            text_field "subscription_id" id (
              field (codes "filters")
                (obj (
                  text_field "peer_id" peer
                    (text_field "world_id" world (text_field "history_mode" mode end))))
                (bool_field "authority" false end))));
    }

pub record Evaluation : Type 0 where
  pub evaluated_subscription : ℕ
  pub matches : Bool
  pub admitted_snapshot_identities : List Text
  pub evaluation_receipt : ℕ

abbrev pub star : Text
star = codes "*"

abbrev pub action_text : Bool → Text
action_text true = codes "request-package-evidence"
action_text false = codes "ignore"

abbrev pub is_report_kind : Option Value → Bool
is_report_kind report =
    same_value (prop "kind" report)
      (text_value (codes "autonomous-world-merge-reconciliation-report"))

module _ {Document : Type 0} (document_id : Document → Text) where
  -- `importedWorldIds`; an empty id is left out, and no filter is empty.
  unfoldable pub imported_world_ids : List (Text × WorldSnapshot Document) → List Text
  imported_world_ids [] = []
  imported_world_ids ((k, s) ∷ rest) = elim (document_id s.snapshot_document) [
    | [] ↦ imported_world_ids rest
    | c ∷ id ↦ (c ∷ id) ∷ imported_world_ids rest
  ]

  unfoldable pub peer_matches : Subscription → Exchange Document → Bool
  peer_matches s e =
      text_eq s.peer_filter star || same_value (text_value s.peer_filter) e.exchange_peer

  abbrev pub worlds_of : Exchange Document → List (Text × WorldSnapshot Document)
  worlds_of e = elim e.imported [ none ↦ [] | some world ↦ world.imported_snapshots ]

  unfoldable pub world_matches : Subscription → Exchange Document → Bool
  world_matches s e =
      text_eq s.world_filter star || any (text_eq s.world_filter) (imported_world_ids (worlds_of e))

  unfoldable pub history_matches : Subscription → Exchange Document → Bool
  history_matches s e =
      if text_eq s.history_mode star || text_eq s.history_mode (codes "any")
      then true
      else if text_eq s.history_mode (codes "admitted-only")
      then e.is_accepted
      else if text_eq s.history_mode (codes "merged-only")
      then any (λ p. is_report_kind p.1.report) (worlds_of e)
      else false

  unfoldable pub subscription_matches : Subscription → Exchange Document → Bool
  subscription_matches s e =
      e.is_accepted && (peer_matches s e && (world_matches s e && history_matches s e))

  unfoldable pub evaluate_subscription : Subscription → Exchange Document → Evaluation
  evaluate_subscription s e =
      let matched = subscription_matches s e in
      let admitted = if matched then sort text_le e.accepted_snapshot_identities else [] in
      record {
        evaluated_subscription = s.subscription_receipt;
        matches = matched;
        admitted_snapshot_identities = admitted;
        evaluation_receipt = open_receipt (
            (codes "subscription_receipt", nat_value s.subscription_receipt)
            ∷ (codes "exchange_receipt", nat_value e.exchange_receipt)
            ∷ (codes "peer_id", e.exchange_peer)
            ∷ (codes "match", some (bool matched))
            ∷ (codes "action", text_value (action_text matched))
            ∷ (codes "verification_status", text_value (status_text e.is_accepted))
            ∷ (codes "admitted_snapshot_identities", some (arr (text_items admitted)))
            ∷ []);
      }

-- The two checks before a snapshot is opened.
unfoldable pub check_admitted : Evaluation → Text → Fails (Unit {0})
check_admitted v identity = do
  require v.matches (codes "subscription-not-matched")
  require (any (text_eq identity) v.admitted_snapshot_identities)
      (codes "snapshot-not-admitted-by-subscription:" ++ identity)

module _ {Document World Drawing : Type 0} (open_world : WorldSnapshot Document → Fails World)
    (render_plan : World → Fails Drawing) where
  unfoldable pub open_subscribed_snapshot : Evaluation → Exchange Document → Text → Fails World
  open_subscribed_snapshot v e identity = do
    check_admitted v identity
    open_accepted_snapshot open_world render_plan e identity

  unfoldable pub render_subscribed_snapshot : Evaluation → Exchange Document → Text → Fails Drawing
  render_subscribed_snapshot v e identity = do
    check_admitted v identity
    render_accepted_snapshot open_world render_plan e identity
