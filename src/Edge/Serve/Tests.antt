-- ===== src/Edge/Serve/Tests.antt =====
-- Tests of serveAgent of internal/edge/edge.go, and its theorem at a concrete input.
use coen.Base.{◌≡◌, refl, true, false, none, some, [], ◌∷◌, codes}
use coen.Edge.Registry.{Registry, new_registry}
use coen.Edge.Serve.{
  Arrival, peer_rejected, counts_rejected, closes_conn, serve_agent, after_handshake,
}
use coen.Edge.Serve.Outcomes.{Ends, serve_agent-Ends}

abbrev empty_registry : Registry
empty_registry = new_registry (λ fp. false)

abbrev arrival : Arrival
arrival = record {
  is_tls = true;
  handshake_error = none;
  allowed = codes "ab" ∷ [];
  fp = codes "ab";
  session_starts = true;
  sess = 1;
  ping_error = none;
  v2 = true;
  closed = λ k s. false;
  going_away = λ s. false;
  between = λ k r. r;
}

-- A peer without a certificate.
rejected :
    (serve_agent (record arrival { handshake_error = some peer_rejected }) empty_registry).1
    ≡ counts_rejected ∷ closes_conn ∷ []
unfolding serve_agent after_handshake
rejected = refl

serve_agent-Ends_example : Ends arrival (serve_agent arrival empty_registry)
serve_agent-Ends_example =
    serve_agent-Ends arrival empty_registry
      (unfold new_registry coen.Edge.Registry.Sessions.find in refl)
