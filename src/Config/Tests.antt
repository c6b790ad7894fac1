-- ===== src/Config/Tests.antt =====
-- Tests of the routes of internal/config, and their theorem at a concrete input.
use coen.Base.{
  ◌≡◌, refl, Bool, true, false, Option, none, some, [], ◌∷◌, Bytes, codes, bytes_eq, here,
}
use coen.Config.{
  EdgeRoute, fingerprints, shared_fingerprints, mark_all, check_entries, validate_agents,
  serves_http3, check_route, first_pass, check_fingerprints, second_pass, finish_routes,
  validate_routes,
}
use coen.Config.Sharing.{validate_routes_shared}

abbrev route_to : Bytes → Bool → EdgeRoute
route_to host shared = record {
  host = host;
  agent_fingerprint = codes "ab";
  agent_fingerprints = [];
  balance = [];
  allow_shared_cert = shared;
  http3 = none;
}

abbrev both_shared : Bool
both_shared = true

shared_valid :
    validate_routes false (route_to (codes "a") true ∷ route_to (codes "b") true ∷ []) ≡ none
unfolding validate_routes finish_routes second_pass first_pass check_route check_fingerprints
    fingerprints validate_agents check_entries serves_http3 mark_all bytes_eq
    coen.Route.validate_pattern coen.Base.has_prefix coen.Base.contains_byte
shared_valid = refl

validate_routes_shared_example :
    shared_fingerprints (route_to (codes "a") true ∷ route_to (codes "b") true ∷ []) (codes "ab")
    ≡ true
validate_routes_shared_example =
    validate_routes_shared false (route_to (codes "a") true ∷ route_to (codes "b") true ∷ [])
      (route_to (codes "a") true) (codes "ab") shared_valid here (unfold fingerprints in here)
