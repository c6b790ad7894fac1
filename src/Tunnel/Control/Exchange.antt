-- ===== src/Tunnel/Control/Exchange.antt =====
-- internal/tunnel/control.go: exactly which requests drain a session, and which replies count.
use coen.Base.{
  ℕ, zero, suc, ◌≤◌, ◌≡◌, refl, ap, ◌∙◌, false, ◌&&◌, Option, none, some, List, [], ◌∷◌, ◌++◌,
  if◌then◌else◌, ◌==◌, Bytes, bytes_eq, codes, has_prefix, Bool-cases, inl, inr, arith, length,
  exists,
}
use coen.Tunnel.Control.{
  drain_request, drain_ack, cons_line, read_line, limited, control_limit, is_line, Asking,
  request_drain_inner, request_drain, Control, drains, acknowledges, closes, serve_control_stream,
  serve_control,
}

-- A line: `body` has no line feed.
abbrev pub IsBody : Bytes → Type 0
IsBody body = exists (λ c. c == 10) body ≡ false

is_line-cons_line :
    (b c : ℕ) (l : Bytes) (r : Option Bytes)
    → is_line (b ∷ l) (cons_line c r) ≡ (c == b && is_line l r)
unfolding bytes_eq
is_line-cons_line b c l none = ground arith
is_line-cons_line b c l (some m) = refl

no_short_line : (b c : ℕ) (bs : Bytes) → c ≡ 10 → (b == 10) ≡ false → (c == b) ≡ false
no_short_line b c bs e h = ground arith

feed-is_line :
    (c : ℕ) (r : Option Bytes) → (c == 10) ≡ false → is_line (10 ∷ []) (cons_line c r) ≡ false
feed-is_line c r e = is_line-cons_line 10 c [] r ∙ ground (arith, e)

-- The first line is one with a given body exactly if the bytes begin so.
read_line-is_line :
    (body s : Bytes)
    → IsBody body
    → is_line (body ++ (10 ∷ [])) (read_line s) ≡ has_prefix s (body ++ (10 ∷ []))
unfolding read_line has_prefix bytes_eq
read_line-is_line [] [] h = refl
read_line-is_line (b ∷ bs) [] h = refl
read_line-is_line [] (c ∷ s) h = elim (Bool-cases (c == 10)) [
  | inl e ↦ rw e (rw e refl)
  | inr e ↦ rw e (feed-is_line c (read_line s) e)
]
read_line-is_line (b ∷ bs) (c ∷ s) h = elim (Bool-cases (c == 10)) [
  | inl e ↦ ground (arith, e, h)
  | inr e ↦ rw e (
      is_line-cons_line b c (bs ++ (10 ∷ [])) (read_line s)
      ∙ ap (λ x. c == b && x) (read_line-is_line bs s (ground (arith, h))))
]

limited-has_prefix :
    (n : ℕ) (s p : Bytes) → length p ≤ n → has_prefix (limited n s) p ≡ has_prefix s p
unfolding has_prefix
limited-has_prefix n s [] h = refl
limited-has_prefix zero s (b ∷ p) h = absurd (omega arith)
limited-has_prefix (suc n) [] (b ∷ p) h = refl
limited-has_prefix (suc n) (c ∷ s) (b ∷ p) h =
    ap (λ x. c == b && x) (limited-has_prefix n s p (omega arith))

-- What the edge does for one stream, and for all.
pub answered : Bytes → List Control
answered s = if has_prefix s drain_request then drains ∷ acknowledges ∷ closes ∷ [] else closes ∷ []

pub all_answered : List Bytes → List Control
all_answered [] = []
all_answered (s ∷ ss) = answered s ++ all_answered ss

serve_control_stream-answered : (s : Bytes) → serve_control_stream s ≡ answered s
unfolding serve_control_stream answered
serve_control_stream-answered s =
    ap (λ x. if x then drains ∷ acknowledges ∷ closes ∷ [] else closes ∷ [])
      (read_line-is_line (codes "coen-drain") (limited control_limit s) refl
        ∙ limited-has_prefix control_limit s drain_request (omega arith))

serve_control-all_answered : (ss : List Bytes) → serve_control ss ≡ all_answered ss
unfolding serve_control all_answered
serve_control-all_answered [] = refl
serve_control-all_answered (s ∷ ss) =
    ap (λ x. x ++ serve_control ss) (serve_control_stream-answered s)
    ∙ ap (λ x. answered s ++ x) (serve_control-all_answered ss)

-- On each control stream, one after the other, the edge drains the session and then acknowledges it if
-- what the stream brings begins with the request, and else does nothing; it closes every stream. The
-- agent takes itself for drained exactly if the exchange ends in time, the stream opens and takes the
-- request, and the reply begins with the acknowledgement.
pub serve_control-request_drain :
    (ss : List Bytes) (a : Asking)
    → (serve_control ss ≡ all_answered ss)
      × (request_drain a ≡ (a.in_bound && (a.opens && (a.writes && has_prefix a.reply drain_ack))))
unfolding request_drain request_drain_inner
serve_control-request_drain ss a = (
  serve_control-all_answered ss,
  ap (λ x. a.in_bound && (a.opens && (a.writes && x)))
      (read_line-is_line (codes "coen-drain-ok") a.reply refl),
)
