-- ===== src/Edge/Ingress/Tests.antt =====
-- Tests of handleIngress of internal/edge/edge.go, and its theorem at a concrete input.
use coen.Base.{◌≡◌, refl, true, false, none, some, [], ◌∷◌, codes, inr}
use coen.Base.Int.{negsuc}
use coen.Edge.Ingress.{
  tls_over_wire, take_agent, Client, dispatched, takes_edge_slot, fails_no_route, answers,
  closes_conn, releases_edge_slot, handle_ingress, after_head, after_match, read_header_deadline,
  default_read_header_timeout,
}
use coen.Edge.Ingress.Balance.{IsHandled, handle_ingress-IsHandled}

abbrev client : Client
client = record {
  edge_slot = true;
  wire = record {
    share_ingress = true;
    kind = tls_over_wire;
    offers_tunnel = false;
    handshake_complete = true;
    saw_bytes = true;
  };
  head = inr (codes "GET", codes "a.test");
  route = λ h. some 1;
  route_slot = λ r. false;
  kept_slot = λ r. true;
  dispatch = λ r. dispatched true;
  no_http3 = λ r. false;
  http3_enabled = true;
  alt_svc = codes "h3";
}

-- A host without a route.
no_route :
    handle_ingress (record client { route = λ h. none })
    ≡ takes_edge_slot ∷ fails_no_route ∷ answers 404 ∷ closes_conn ∷ releases_edge_slot ∷ []
unfolding handle_ingress take_agent after_head after_match
no_route = refl

-- The deadline cannot be switched off.
negative_timeout : read_header_deadline (negsuc 0) ≡ default_read_header_timeout
unfolding read_header_deadline
negative_timeout = refl

handle_ingress-IsHandled_example : IsHandled (handle_ingress client)
handle_ingress-IsHandled_example = handle_ingress-IsHandled client
