-- ===== src/Tunnel/Control/Tests.antt =====
-- Tests of internal/tunnel/control.go, and its theorem at a concrete input.
use coen.Base.{◌≡◌, refl, ◌&&◌, true, List, [], ◌∷◌, ◌++◌, Bytes, has_prefix, codes, bytes_eq}
use coen.Tunnel.Control.{
  drains, acknowledges, closes, drain_request, drain_ack, Asking, request_drain,
  serve_control_stream, serve_control,
}
use coen.Tunnel.Control.Exchange.{all_answered, serve_control-request_drain}

abbrev control_streams : List Bytes
control_streams = drain_request ∷ codes "hello" ∷ []

abbrev asking : Asking
asking = record { opens = true; writes = true; reply = drain_ack ++ codes "x"; in_bound = true }

served_streams : serve_control control_streams ≡ drains ∷ acknowledges ∷ closes ∷ closes ∷ []
unfolding serve_control serve_control_stream bytes_eq
served_streams = refl

serve_control-request_drain_example :
    (serve_control control_streams ≡ all_answered control_streams)
    × (request_drain asking ≡ (
        asking.in_bound && (asking.opens && (asking.writes && has_prefix asking.reply drain_ack))))
serve_control-request_drain_example = serve_control-request_drain control_streams asking
