-- ===== src/Agent/Tests.antt =====
-- Runs of the agent, and the theorems on them.
use coen.Base.{◌*◌, ◌≡◌, refl, true, false, some, List, [], ◌∷◌, codes}
use coen.Route.Host.{normalize}
use coen.Tunnel.Preamble.{Json, eof}
use coen.Agent.Running.{Dialing, Settings, Life, ends_connected, ends_waiting, goes_on, run}
use coen.Agent.Running.Backoff.{waits_of, Persists, run-Persists}
use coen.Agent.Retiring.{Call, sets, retires}
use coen.Agent.Shutdown.{Session, millisecond, shutdown_session}
use coen.Agent.Shutdown.Order.{Leaves, shutdown_session-Leaves}
use coen.Agent.Streams.{Agent, Incoming, agent_routes, handle_stream}
use coen.Agent.Streams.Handled.{IsHandled, handle_stream-IsHandled}

abbrev rejected : Dialing
rejected = record {
  dial_fails = false;
  handshake_fails = false;
  peer_fp = codes "aa";
  session_fails = false;
  lived = 3;
}

abbrev settings : Settings
settings = record { min_backoff = 10; max_backoff = 30; edge_fingerprint = [] }

-- Two short sessions, and the context ends in the second wait.
abbrev short_life : Life
short_life = goes_on rejected 4 (ends_waiting rejected 5)

short_life_waits : waits_of (run settings short_life) ≡ 9 ∷ 15 ∷ []
unfolding run
short_life_waits = refl

abbrev some_calls : List Call
some_calls = sets 1 ∷ sets 2 ∷ retires ∷ sets 3 ∷ retires ∷ []

abbrev a_session : Session
a_session = record {
  v2 = true;
  budget = 15000 * millisecond;
  is_closed = false;
  queued = 20 * millisecond ∷ 14900 * millisecond ∷ [];
  elapsed = 14950 * millisecond;
}

-- A short session, and then a long one, in which the context ends.
abbrev long_life : Life
long_life = goes_on rejected 4 (ends_connected (record rejected { lived = 300 }) (some a_session))

run-Persists_example : Persists settings long_life (run settings long_life)
run-Persists_example = run-Persists settings long_life

shutdown_session-Leaves_example : Leaves a_session (shutdown_session a_session)
shutdown_session-Leaves_example = shutdown_session-Leaves a_session

abbrev some_json : Json
some_json = record {
  marshal = λ p. some p.host;
  unmarshal = λ b. some (record { conn_id = []; client_addr = []; host = b; edge_version = [] });
}

abbrev an_agent : Agent
an_agent = record {
  json = some_json;
  routes = agent_routes normalize ((codes "a.b", codes "127.0.0.1:80") ∷ []);
  version = [];
}

abbrev a_stream : Incoming
a_stream = record {
  accept = true;
  accept_fails = false;
  reader = record { left = 0 ∷ 3 ∷ codes "a.b"; then_error = eof };
  other_is_teardown = false;
  warned = false;
  dial_fails = false;
}

handle_stream-IsHandled_example : IsHandled an_agent a_stream 1 (handle_stream an_agent a_stream)
handle_stream-IsHandled_example = handle_stream-IsHandled an_agent a_stream
