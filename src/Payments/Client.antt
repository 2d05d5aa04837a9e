-- ===== src/Payments/Client.antt =====
-- RazorpayPaymentGatewayClient (app/integrations/payment_gateway_client.py) and the session of its
-- caller.
use event_platform_backend.Prelude.{Option, none, some, String}
use event_platform_backend.Payments.Gateway.{TouchesNoTable, storage}
use event_platform_backend.Payments.Razorpay.{
  Reply, RequestBody, Transport, GatewaySettings, create_order, verify_payment, initiate_refund,
  fetch_data, payment_snapshot, fetch_payment, fetch_refund, razorpay,
}
use event_platform_backend.Session.{token_hex}
use event_platform_backend.Session.Frames.{Frame, frame_rules}
use event_platform_backend.Prelude.{refl}

-- A request over HTTP leaves the tables of this process's session alone.
pub record Remote (t : Transport) : Type 0 where
  pub request :
      (method path : String) (body : RequestBody) → Frame storage (t.request method path body)
  pub request_items : (path order : String) → Frame storage (t.request_items path order)

stored_token_hex : Frame storage token_hex
unfolding token_hex
stored_token_hex = record { at = λ s. refl }

module _ (t : Transport) (settings : GatewaySettings) (remote : Remote t) where
  stored_fetch_data :
      (payment order : Option String) → Frame storage (fetch_data t settings payment order)
  unfolding fetch_data
  stored_fetch_data (some p) order = search (frame_rules, remote.request)
  stored_fetch_data none (some o) = search (frame_rules, remote.request_items)
  stored_fetch_data none none = search frame_rules

  stored_payment_snapshot :
      (order : Option String) (o : Option Reply)
      → Frame storage (payment_snapshot t settings order o)
  unfolding payment_snapshot
  stored_payment_snapshot order none = search frame_rules
  stored_payment_snapshot order (some r) = search frame_rules

  pub razorpay-TouchesNoTable : TouchesNoTable (razorpay t settings)
  unfolding create_order verify_payment initiate_refund fetch_payment fetch_refund
  razorpay-TouchesNoTable = record {
    create_order =
        λ amount currency receipt. search (frame_rules, remote.request, stored_token_hex) depth 12;
    verify_payment =
        λ order payment signature amount currency. search (frame_rules, remote.request) depth 9;
    initiate_refund =
        λ payment amount. search (frame_rules, remote.request, stored_token_hex) depth 12;
    fetch_payment =
        λ payment order. search (frame_rules, stored_fetch_data, stored_payment_snapshot) depth 9;
    fetch_refund = λ refund. search (frame_rules, remote.request) depth 9;
  }
