-- ===== src/Agent/Shutdown/Handoff.antt =====
-- internal/agent/agent.go, shutdownSession: what the edge hears of a shutdown, which streams are still
-- taken, and how long the handoff may block.
use coen.Base.{
  ℕ, ◌+◌, ◌-◌, ◌*◌, ◌≤◌, ◌<◌, ◌≡◌, All, Bool, true, false, not, ◌&&◌, ◌||◌, List, [], ◌∷◌, ◌++◌,
  if◌then◌else◌, ltb, leb, count,
}
use coen.Agent.Shutdown.{
  min_ack_wait, min_handoff, min_serve, bound_grace, Session, Event, refuses_new, requests_drain,
  sends_drain, goes_away_later, goes_away, serves, refuses,
}
use coen.Agent.Shutdown.Order.{is_retire, is_taken}

abbrev pub is_request : Event → Bool
is_request (requests_drain wait bound) = true
is_request sends_drain = true
is_request _ = false

abbrev pub is_away : Event → Bool
is_away (goes_away bound) = true
is_away goes_away_later = true
is_away _ = false

abbrev pub is_refusal : Event → Bool
is_refusal refuses_new = true
is_refusal _ = false

-- Every event of `q` comes after one of `p`; none does.
pub all_after : (p q : Event → Bool) → (seen : Bool) → List Event → Bool
all_after p q seen [] = true
all_after p q seen (e ∷ es) = (not (q e) || seen) && all_after p q (seen || p e) es

pub none_after : (p q : Event → Bool) → (seen : Bool) → List Event → Bool
none_after p q seen [] = true
none_after p q seen (e ∷ es) = not (seen && q e) && none_after p q (seen || p e) es

-- When the queued streams came that are taken.
pub taken_at : List Event → List ℕ
taken_at [] = []
taken_at (serves at ∷ es) = at ∷ taken_at es
taken_at (refuses at ∷ es) = at ∷ taken_at es
taken_at (_ ∷ es) = taken_at es

-- How long the calls before the drain may block.
pub blocked_for : List Event → ℕ
blocked_for [] = 0
blocked_for (requests_drain wait bound ∷ es) = bound + blocked_for es
blocked_for (goes_away bound ∷ es) = bound + blocked_for es
blocked_for (_ ∷ es) = blocked_for es

-- A taken stream is served exactly if there is time for it, and a wait for the edge is long enough.
abbrev pub IsRight : ℕ → Event → Type 0
IsRight budget (serves at) = min_serve ≤ budget - at
IsRight budget (refuses at) = budget - at < min_serve
IsRight budget (requests_drain wait bound) = (min_ack_wait ≤ wait) × (wait * 2 ≤ budget)
IsRight budget _ = Unit

-- The edge can be told, and there is time to wait for its answer.
abbrev pub tells_edge : Session → Bool
tells_edge s = s.v2 && (ltb 0 s.budget && not s.is_closed)

abbrev pub waits_for_edge : Session → Bool
waits_for_edge s = tells_edge s && leb min_handoff s.budget

abbrev one_when : Bool → ℕ
one_when b = if b then 1 else 0

pub record HandsOff (s : Session) (es : List Event) : Type 0 where
  pub requested : count is_request es ≡ one_when (tells_edge s)
  pub went_away : count is_away es ≡ one_when (tells_edge s)
  pub request_first :
      tells_edge s ≡ true → all_after is_request (λ e. is_away e || is_retire e) false es ≡ true
  pub takes_all : taken_at es ≡ (if waits_for_edge s then s.queued else [])
  pub refuses_last : none_after is_refusal is_taken false es ≡ true
  pub rightly : All (IsRight s.budget) es
  pub blocks_little : blocked_for es * 4 ≤ s.budget * 3 + bound_grace * 4

-- The queued streams, and what follows them.
record Passes (budget : ℕ) (queue : List ℕ) (es all : List Event) : Type 0 where
  requests : count is_request all ≡ count is_request es
  aways : count is_away all ≡ count is_away es
  takes : taken_at all ≡ queue ++ taken_at es
  refused : none_after is_refusal is_taken false all ≡ none_after is_refusal is_taken false es
  blocks : blocked_for all ≡ blocked_for es
  rights : All (IsRight budget) es → All (IsRight budget) all
