-- ===== src/Route/Tests.antt =====
-- Tests of internal/route/route.go on concrete hosts, and the theorems at concrete inputs.
use coen.Base.{ℕ, ◌≡◌, refl, some, List, [], ◌∷◌, codes}
use coen.Route.{Entry, validate_pattern, invalid_pattern, invalid_wildcard, build, match_host}
use coen.Route.Host.{normalize}
use coen.Route.Precedence.{Answer}
use coen.Route.Matching.{match_host-Answer}

abbrev table : List (Entry ℕ)
table =
    record { pattern_text = codes "*"; value = 1 }
    ∷ record { pattern_text = codes "*.example.com"; value = 2 }
    ∷ record { pattern_text = codes "*.Shop.example.com."; value = 3 }
    ∷ record { pattern_text = codes "api.example.com:443"; value = 4 }
    ∷ []

match_named : match_host (build table) (codes "API.example.com.") ≡ some 4
unfolding match_host build
match_named = refl

match_longest : match_host (build table) (codes "eu.shop.example.com:8443") ≡ some 3
unfolding match_host build
match_longest = refl

match_default : match_host (build table) (codes "example.com") ≡ some 1
unfolding match_host build
match_default = refl

validate_star : validate_pattern (codes "a.*.b") ≡ some invalid_pattern
unfolding validate_pattern
validate_star = refl

validate_wildcard : validate_pattern (codes "*.*") ≡ some invalid_wildcard
unfolding validate_pattern
validate_wildcard = refl

match_host-Answer_example :
    Answer table
      (normalize (codes "eu.shop.example.com"))
      (match_host (build table) (codes "eu.shop.example.com"))
match_host-Answer_example = match_host-Answer table (codes "eu.shop.example.com")
