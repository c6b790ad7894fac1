-- ===== src/Tunnel/Control.antt =====
-- internal/tunnel/control.go: the streams on which an agent asks the edge to be drained (requestDrain), and
-- the edge that serves them (ServeControl). What a stream brings until it ends or fails, or its deadline
-- passes, is a list of bytes.
pub mod Exchange
mod Tests
use coen.Base.{
  ℕ, zero, suc, Bool, true, false, not, ◌&&◌, ◌||◌, Option, none, some, List, [], ◌∷◌, ◌++◌,
  if◌then◌else◌, ◌==◌, Bytes, bytes_eq, codes,
}

abbrev pub drain_request : Bytes
drain_request = codes "coen-drain\n"

abbrev pub drain_ack : Bytes
drain_ack = codes "coen-drain-ok\n"

abbrev pub cons_line : ℕ → Option Bytes → Option Bytes
cons_line c none = none
cons_line c (some l) = some (c ∷ l)

-- ReadString up to a line feed: `none` if there is none. Of the edge's readers, only `limit` bytes come.
pub read_line : Bytes → Option Bytes
read_line [] = none
read_line (c ∷ s) = let rest = read_line s in if c == 10 then some (c ∷ []) else cons_line c rest

abbrev pub limited : ℕ → Bytes → Bytes
limited zero s = []
limited (suc n) [] = []
limited (suc n) (c ∷ s) = c ∷ limited n s

abbrev pub control_limit : ℕ
control_limit = 64

abbrev pub is_line : Bytes → Option Bytes → Bool
is_line l none = false
is_line l (some m) = bytes_eq m l

-- What the agent's stream meets.
pub record Asking : Type 0 where
  pub opens : Bool
  pub writes : Bool
  pub reply : Bytes
  pub in_bound : Bool  -- netx.Bounded: the exchange has ended in time

pub request_drain_inner : Asking → Bool
unfolding read_line
request_drain_inner a = a.opens && (a.writes && is_line drain_ack (read_line a.reply))

unfoldable pub request_drain : Asking → Bool
unfolding request_drain_inner
request_drain a = a.in_bound && request_drain_inner a

-- What the edge does on control streams.
pub data Control : Type 0 where
  drains acknowledges closes : Control

unfoldable pub serve_control_stream : Bytes → List Control
unfolding read_line
serve_control_stream s =
    if is_line drain_request (read_line (limited control_limit s))
    then drains ∷ acknowledges ∷ closes ∷ []
    else closes ∷ []

-- The streams that the session accepts, until it closes.
unfoldable pub serve_control : List Bytes → List Control
unfolding serve_control_stream
serve_control [] = []
serve_control (s ∷ ss) = serve_control_stream s ++ serve_control ss
