-- ===== src/World/Carrier.antt =====
-- workbench/src/autonomous_world_live_transport_adapter.js: transport plans, transport events, and
-- the processing of an event, which is the adapter that the transport log replays.
use omi_imo.Prelude.{
  true, ℕ, Bool, false, Option, none, some, List, [], ◌∷◌, ◌++◌, Text, codes, text_eq, text_le, any,
  ok, throw, ◌>>=◌, if◌then◌else◌, String,
}
use omi_imo.Prelude.Sorting.{sort}
use omi_imo.Identity.Json.{Value, null, bool, arr, obj, end, text_field, bool_field, text_items}
use omi_imo.Identity.Fnv.{receipt_of}
use omi_imo.Identity.Values.{
  prop, or_value, truthy_value, opt_to_text, open_receipt, nat_value, text_value,
}
use omi_imo.World.Package.{Fails}
use omi_imo.World.Sync.{WorldSnapshot}
use omi_imo.World.Peers.{Registry, text_default}
use omi_imo.World.Exchanges.{Exchange, receive_package}
use omi_imo.World.Court.{
  Subscription, Evaluation, evaluate_subscription, open_subscribed_snapshot,
  render_subscribed_snapshot,
}
use omi_imo.Transport.Adapter.{Adapter, Throws, adapter_error, or_null}

abbrev pub transport_adapters : List Text
transport_adapters =
    codes "file-drop"
    ∷ codes "fifo"
    ∷ codes "unix-socket"
    ∷ codes "tcp"
    ∷ codes "udp"
    ∷ codes "websocket"
    ∷ codes "http-poll"
    ∷ codes "barcode-scan"
    ∷ []

unfoldable pub normalize_adapter : Text → Fails Text
normalize_adapter given =
    let name = text_default given (codes "file-drop") in
    if any (text_eq name) transport_adapters
    then ok name
    else throw (codes "unknown-transport-adapter:" ++ name)

pub record Plan : Type 0 where
  pub plan_id : Text
  pub adapter : Text
  pub endpoint : Text
  pub mode : Text
  pub transport_plan_receipt : ℕ

unfoldable pub declare_plan : Text → Text → Text → Text → Fails Plan
declare_plan given_adapter given_id given_endpoint given_mode = do
  adapter ← normalize_adapter given_adapter
  let id = text_default given_id (codes "transport." ++ adapter)
  let endpoint = text_default given_endpoint (codes "declared.transport-only")
  let mode = text_default given_mode (codes "offer-carrier")
  ok (record {
    plan_id = id;
    adapter = adapter;
    endpoint = endpoint;
    mode = mode;
    transport_plan_receipt = receipt_of (
        obj (
          text_field "plan_id" id (
            text_field "adapter" adapter (
              text_field "endpoint" endpoint (
                text_field "mode" mode
                  (bool_field "authority" false (bool_field "opens_live_resource" false end)))))));
  })

pub record TransportEvent : Type 0 where
  pub event_receipt : Option ℕ
  pub transport_success : Bool
  pub offer : Option Value
  pub sent : Option Value

-- An event without a receipt lacks the property.
abbrev pub has_receipt : Option ℕ → Bool
has_receipt none = false
has_receipt (some n) = true

-- `offer && offer.key || null`
unfoldable pub offered : String → Option Value → Option Value
offered key o = if truthy_value o then or_value (prop key o) (some null) else some null

unfoldable pub create_event : Plan → Option Value → Option Value → Text → Bool → TransportEvent
create_event plan o pkg given_id success =
    let id = text_default given_id (
      codes "event."
      ++ (plan.plan_id
          ++ (codes "."
              ++ opt_to_text (
                  if truthy_value o
                  then or_value (prop "offer_receipt" o) (text_value (codes "missing-offer"))
                  else text_value (codes "missing-offer"))))) in
    record {
      event_receipt = some (
          open_receipt (
            (codes "event_id", text_value id)
            ∷ (codes "transport_plan_receipt", nat_value plan.transport_plan_receipt)
            ∷ (codes "adapter", text_value plan.adapter)
            ∷ (codes "endpoint", text_value plan.endpoint)
            ∷ (codes "offer_receipt", offered "offer_receipt" o)
            ∷ (codes "offered_package_receipt", offered "offered_package_receipt" o)
            ∷ (codes "peer_id", offered "peer_id" o)
            ∷ (codes "transport_success", some (bool success))
            ∷ (codes "authority", some (bool false))
            ∷ (codes "admission", some (bool false))
            ∷ []));
      transport_success = success;
      offer = or_value o (some (obj end));
      sent = or_value pkg (some null);
    }

pub record Processing (Document : Type 0) : Type 0 where
  pub processed_event_receipt : Option ℕ
  pub processed_success : Bool
  pub exchange : Exchange Document
  pub evaluation : Evaluation
  pub accepted_identities : List Text
  pub processing_receipt : ℕ

-- `clone(eventInput || {})`
abbrev pub event_or_empty : Option TransportEvent → TransportEvent
event_or_empty none = record {
  event_receipt = none;
  transport_success = false;
  offer = none;
  sent = none;
}
event_or_empty (some e) = e

-- A number or null.
abbrev pub receipt_value : Option ℕ → Option Value
receipt_value none = some null
receipt_value (some n) = nat_value n

module _ {Document : Type 0} (parse_document : Text → Document)
    (document_id : Document → Text) where
  unfoldable pub process_event :
      Registry → Subscription → Option TransportEvent → Processing Document
  process_event registry subscription input =
      let event = event_or_empty input in
      let exchange =
        receive_package parse_document registry event.offer
          (if event.transport_success then event.sent else some null) in
      let evaluation = evaluate_subscription document_id subscription exchange in
      let accepted = sort text_le evaluation.admitted_snapshot_identities in
      record {
        processed_event_receipt = or_null event.event_receipt;
        processed_success = event.transport_success;
        exchange = exchange;
        evaluation = evaluation;
        accepted_identities = accepted;
        processing_receipt = open_receipt (
            (codes "transport_event_receipt", receipt_value (or_null event.event_receipt))
            ∷ (codes "transport_success", some (bool event.transport_success))
            ∷ (codes "exchange_receipt", nat_value exchange.exchange_receipt)
            ∷ (codes "evaluation_receipt", nat_value evaluation.evaluation_receipt)
            ∷ (codes "accepted_snapshot_identities", some (arr (text_items accepted)))
            ∷ (codes "authority", some (bool false))
            ∷ []);
      }

-- An error of these modules, as one of the transport log's.
unfoldable pub as_transport_error : {A : Type 0} → Fails A → Throws A
as_transport_error (ok a) = ok a
as_transport_error (throw why) = throw (adapter_error why)

module _ {Document World Drawing : Type 0} (parse_document : Text → Document)
    (document_id : Document → Text) (open_world : WorldSnapshot Document → Fails World)
    (render_plan : World → Fails Drawing) where
  -- The live adapter, for one registry and one subscription.
  abbrev pub live_adapter :
      Registry → Subscription → Adapter TransportEvent (Processing Document) World Drawing
  live_adapter registry subscription = record {
    event_receipt = λ e. e.event_receipt;
    names_receipt = λ e. has_receipt e.event_receipt;
    process_transport_event =
        λ e. ok (process_event parse_document document_id registry subscription e);
    accepted_identities = λ p. p.accepted_identities;
    is_accepted = λ p. p.exchange.is_accepted;
    processing_receipt = λ p. some p.processing_receipt;
    open_transport_snapshot = λ p id.
        as_transport_error
          (open_subscribed_snapshot open_world render_plan p.evaluation p.exchange id);
    render_transport_snapshot = λ p id.
        as_transport_error
          (render_subscribed_snapshot open_world render_plan p.evaluation p.exchange id);
  }
