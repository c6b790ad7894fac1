-- ===== src/Config.antt =====
-- internal/config/config.go and load.go: the routes of an edge's configuration and their validation.
-- `proxied` is ingress.mode proxied. The two maps of Validate are functions; `none` is a missing key. The
-- error of a route carries no text.
pub mod Sharing
mod Tests
use coen.Base.{
  ℕ, ◌≡◌, refl, Bool, true, false, not, ◌&&◌, ◌||◌, Option, none, some, List, [], ◌∷◌, exists,
  if◌then◌else◌, Bytes, codes, bytes_eq, update, ◌⊎◌, inl, inr,
}
use coen.Route.{PatternError, validate_pattern}

pub record EdgeRoute : Type 0 where
  pub host : Bytes
  pub agent_fingerprint : Bytes
  pub agent_fingerprints : List Bytes
  pub balance : Bytes
  pub allow_shared_cert : Bool
  pub http3 : Option Bool

abbrev is_empty : Bytes → Bool
is_empty [] = true
is_empty (c ∷ s) = false

abbrev is_nil : List Bytes → Bool
is_nil [] = true
is_nil (x ∷ xs) = false

abbrev pub default_agent_wait : ℕ
default_agent_wait = 5000000000

pub agent_wait_duration : Option ℕ → ℕ
agent_wait_duration none = default_agent_wait
agent_wait_duration (some d) = d

pub serves_http3 : EdgeRoute → Bool
serves_http3 r = elim r.http3 [ none ↦ true | some b ↦ b ]

pub fingerprints : EdgeRoute → List Bytes
fingerprints r =
    if not (is_empty r.agent_fingerprint) then r.agent_fingerprint ∷ [] else r.agent_fingerprints

abbrev pub balance_least_conn : Bytes
balance_least_conn = codes "least_conn"

abbrev pub balance_round_robin : Bytes
balance_round_robin = codes "round_robin"

pub balance_mode : EdgeRoute → Bytes
balance_mode r = if is_empty r.balance then balance_least_conn else r.balance

abbrev pub has_fingerprint : Bytes → EdgeRoute → Bool
has_fingerprint fp r = exists (λ x. bytes_eq x fp) (fingerprints r)

-- The maps of AllowedFingerprints and SharedFingerprints, as their tests.
pub allowed_fingerprints : List EdgeRoute → Bytes → Bool
unfolding fingerprints
allowed_fingerprints rs fp = exists (has_fingerprint fp) rs

pub shared_fingerprints : List EdgeRoute → Bytes → Bool
unfolding fingerprints
shared_fingerprints rs fp = exists (λ r. r.allow_shared_cert && has_fingerprint fp r) rs

pub data AgentsError : Type 0 where
  both_fields no_agents empty_entry repeated_entry bad_balance : AgentsError

pub check_entries : List Bytes → List Bytes → Option AgentsError
check_entries [] seen = none
check_entries (fp ∷ fps) seen =
    let rest = check_entries fps (fp ∷ seen) in
    if is_empty fp
    then some empty_entry
    else if exists (λ x. bytes_eq x fp) seen
    then some repeated_entry
    else rest

abbrev check_balance : Bytes → Option AgentsError → Option AgentsError
check_balance b (some e) = some e
check_balance b none =
    if is_empty b || (bytes_eq b balance_least_conn || bytes_eq b balance_round_robin)
    then none
    else some bad_balance

pub validate_agents : EdgeRoute → Option AgentsError
unfolding check_entries
validate_agents r =
    if not (is_empty r.agent_fingerprint) && not (is_nil r.agent_fingerprints)
    then some both_fields
    else if is_empty r.agent_fingerprint && is_nil r.agent_fingerprints
    then some no_agents
    else check_balance r.balance (check_entries r.agent_fingerprints [])

pub data RouteError : Type 0 where
  no_routes host_required http3_no_effect : RouteError
  bad_pattern : PatternError → RouteError
  bad_agents : AgentsError → RouteError
  mixed_sharing : Bytes → Bytes → Bytes → RouteError

abbrev pub Marks : Type 0
Marks = Bytes → Option Bytes

pub mark_all : List Bytes → Bytes → Marks → Marks
mark_all [] host m = m
mark_all (fp ∷ fps) host m = mark_all fps host (update m fp (some host))

-- The checks of a route in the first loop of Validate.
pub check_route : Bool → EdgeRoute → Option RouteError
unfolding validate_agents serves_http3
check_route proxied r =
    if is_empty r.host then some host_required else elim (validate_pattern r.host) [
      | some e ↦ some (bad_pattern e)
      | none ↦ elim (validate_agents r) [
        | some e ↦ some (bad_agents e)
        | none ↦ if not (serves_http3 r) && proxied then some http3_no_effect else none
      ]
    ]

-- The first loop, on sharedBy and exclusive.
pub first_pass : Bool → List EdgeRoute → Marks → Marks → RouteError ⊎ (Marks × Marks)
unfolding check_route mark_all fingerprints
first_pass proxied [] shared exclusive = inr (shared, exclusive)
first_pass proxied (r ∷ rs) shared exclusive = elim (check_route proxied r) [
  | some e ↦ inl e
  | none ↦
      if r.allow_shared_cert
      then first_pass proxied rs (mark_all (fingerprints r) r.host shared) exclusive
      else first_pass proxied rs shared (mark_all (fingerprints r) r.host exclusive)
]

abbrev pub conflict : Bytes → Option Bytes → Option Bytes → Option RouteError
conflict fp (some s) (some x) = some (mixed_sharing fp s x)
conflict fp _ _ = none

abbrev pub first_error : Option RouteError → Option RouteError → Option RouteError
first_error (some e) o = some e
first_error none o = o

pub check_fingerprints : List Bytes → Marks → Marks → Option RouteError
check_fingerprints [] shared exclusive = none
check_fingerprints (fp ∷ fps) shared exclusive =
    first_error (conflict fp (shared fp) (exclusive fp)) (check_fingerprints fps shared exclusive)

-- The second loop.
pub second_pass : List EdgeRoute → Marks → Marks → Option RouteError
unfolding check_fingerprints fingerprints
second_pass [] shared exclusive = none
second_pass (r ∷ rs) shared exclusive =
    first_error (check_fingerprints (fingerprints r) shared exclusive)
      (second_pass rs shared exclusive)

pub finish_routes : List EdgeRoute → RouteError ⊎ (Marks × Marks) → Option RouteError
unfolding second_pass
finish_routes rs (inl e) = some e
finish_routes rs (inr (shared, exclusive)) = second_pass rs shared exclusive

-- The part of EdgeConfig.Validate on the routes.
pub validate_routes : Bool → List EdgeRoute → Option RouteError
unfolding first_pass finish_routes
validate_routes proxied [] = some no_routes
validate_routes proxied (r ∷ rs) =
    finish_routes (r ∷ rs) (first_pass proxied (r ∷ rs) (λ fp. none) (λ fp. none))
