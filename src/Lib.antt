-- ===== src/Lib.antt =====
-- A verification library for coen, a reverse tunnel. An edge accepts requests on a public address and
-- agents dial out to it; a request goes through the tunnel of an agent that serves its host.
--
-- An agent's connection is served from its TLS handshake to the end of its session (internal/edge/edge.go:
-- serveAgent, retireGoingAway, duplicateAfterProbe), in Edge/Serve.
-- How a request passes through the parts, and where each is modelled:
--   the edge decides in one place what becomes of a connection of its public listener
--     (internal/edge/edge.go: handleIngress, tcpRouteSlot, altSvcFor), in Edge/Ingress;
--   the edge reads the head of the request (internal/edge/http.go: readRequestHead, parseHost), in
--     Edge/Head, and finds the route of its host
--     (internal/route/route.go: Normalize, ValidatePattern, Build, Match), in Route and Route/Host;
--   it takes a slot of the connection caps (internal/edge/limit.go), in Edge/Limit;
--   it asks the registry for the live sessions of the route's agents (internal/edge/registry.go: track,
--     registerConn, hasLiveExclusive, take, drop, candidates, closeAll), in Edge/Registry;
--   it picks one of them (internal/edge/edge.go: routeState.pick, nextTurn), in Edge/Balance;
--   it opens a stream unless the session is retired, while a drain waits for the opens in flight
--     (internal/edge/edge.go: openUnlessRetired, retire, retireForDrain; registry.go: liveOpensLocked,
--     wakeIfIdleLocked, coolDownFor), in Edge/Conn;
--   it tries the session (internal/edge/edge.go: tryAgent; internal/tunnel/accept.go: AwaitAccept), in
--     Edge/Attempt, goes on with the next one
--     (dispatchOnce, untried), in Edge/Dispatch, and waits for an agent if there is none (dispatch), in
--     Edge/Dispatch/Waiting;
--   it sends the preamble of the stream, which the agent reads (internal/tunnel/preamble.go:
--     EncodePreamble, ReadPreamble), in Tunnel/Preamble;
--   it keeps the stream of an HTTP/3 request for the next one of the connection
--     (internal/edge/h3pool.go; http3.go: slotFromKept), in Edge/StreamPool;
--   it adds an Alt-Svc line to the first response of a TCP connection (internal/edge/altsvc.go: headEnd,
--     withAltSvc), in Edge/AltSvc, wherever the head ends (altSvcConn.Read), in Edge/AltSvc/Reading;
--   an HTTP/3 request goes through Edge/Http3 instead (internal/edge/http3.go: serveHTTP3, openH3Stream,
--     h3Exchange, holdBody; http3ws.go: serveHTTP3WebSocket up to the answer): its course in Edge/Http3 and
--     Edge/Http3/Exchange, its head (http1Lines, framed, webSocketHead) in Edge/Http3/Heads, its body
--     (sendBody) in Edge/Http3/Bodies, the response (readResponse, headLimit, copyResponseHeader,
--     copyResponse) and the readers (peekedBody, readErrs) in Edge/Http3/Responses, its connection's timer
--     (connActivity) in Edge/Http3/Activity, the connections that come in, the slots of its route and the
--     server's end (cappedListener, refuseNoHTTP3, routeSlot, serveHTTP3Until) in Edge/Http3/Serving.
-- The agent (internal/agent/agent.go) dials, redials and shuts down (Run, connectOnce, shutdownSession), in
-- Agent/Running and Agent/Shutdown, retires (SetOnRetired, retired), in Agent/Retiring, and serves the
-- streams of a session (serveStream, handleStream, refuseNew; internal/tunnel/session.go: IsTeardown), in
-- Agent/Streams. It asks the edge to be drained over a control stream (internal/tunnel/control.go:
-- RequestDrain, ServeControl), in Tunnel/Control.
-- Both count what they do (internal/obs/state.go, routes.go): State, AgentSession and RouteStats and what
-- Snapshot and Detail show of them, in Obs/Routes, Obs/State and Obs/State/Views; the opening of a stream by
-- its atomic operations, in Obs/Opening.
-- Which certificates may be shared, and which routes there are, the configuration says
-- (internal/config/config.go, load.go: validateAgents, the routes in Validate, SharedFingerprints), in
-- Config.
-- Base holds what they share: Boolean tests on the native numbers, lists, bytes, map updates, sorting, and
-- counts over the threads of an interleaving.
--
-- How the code is read. A struct is a record, a Go map a total function with the zero value for missing
-- keys or an association list where the code ranges over it, a string or []byte a list of byte values.
-- Pointers are identities: natural numbers that the code compares. A critical section of a mutex is one
-- function on the state it guards; theorems on interleavings are about any sequence of such sections. A
-- function that closes or sends returns what it closes or sends. What the clock, the sessions and the
-- network answer is an argument: a function or a record of answers, numbered by the rounds of a loop.
-- Loops over slices are structural. Some loops have fuel, and a theorem that the fuel given is enough:
-- h3Pool.take, with one round more than the connection keeps streams and gets new ones meanwhile;
-- slotFromKept, with one round more than the pool keeps streams of the route, if nothing else uses it then; dispatchOnce, with two rounds
-- for each session of the route and two more; dispatch, with the rounds until the wait has run out;
-- serveHTTP3's loop, which sends a request at most twice. The hexadecimal length of a chunk has four digits,
-- since a read of sendBody is shorter than 65536 bytes.
--
-- Not modelled: logging; the locks themselves; TLS, yamux, QUIC and JSON, which are libraries; sockets,
-- files and processes; the rest of the configuration, the proxying of a stream and of an upgraded
-- WebSocket, the metrics, the listener handoff, the doctor and the command line so far.
-- strings.ToLower and strings.TrimSpace are modelled on ASCII, where host names live.
mod Base
pub mod Route
pub mod Edge
pub mod Tunnel
pub mod Config
pub mod Obs
pub mod Agent
