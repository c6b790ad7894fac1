-- ===== src/Route/Host/Tests.antt =====
-- Tests of Normalize in internal/route/route.go, and its theorems at concrete hosts.
use coen.Base.{◌≡◌, refl, ◌++◌, codes, to_lower, arith}
use coen.Route.Host.{normalize, trim_dot}
use coen.Route.Host.Case.{normalize_ignores_case}
use coen.Route.Host.Port.{normalize_spellings}

normalize_ipv6 : normalize (codes " [::1]:8080 ") ≡ codes "::1"
unfolding normalize
normalize_ipv6 = refl

normalize_ignores_case_example :
    normalize (codes "Api.Example.com:80") ≡ normalize (codes "aPI.example.COM:80")
normalize_ignores_case_example =
    normalize_ignores_case (codes "Api.Example.com:80") (codes "aPI.example.COM:80")
      (unfold to_lower in refl)

normalize_spellings_example :
    (normalize (codes "Api.com") ≡ to_lower (codes "Api.com"))
    × (normalize (codes "Api.com" ++ codes ".") ≡ to_lower (codes "Api.com"))
    × (normalize (codes "Api.com" ++ codes ":80") ≡ to_lower (codes "Api.com"))
    × (normalize ((codes "Api.com" ++ codes ".") ++ codes ":80") ≡ to_lower (codes "Api.com"))
normalize_spellings_example =
    normalize_spellings (codes "Api.com") (codes "80") (ground arith) (ground arith)
      (unfold trim_dot in refl)
