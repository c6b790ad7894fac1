-- ===== src/Edge/AltSvc/Tests.antt =====
-- Tests of internal/edge/altsvc.go, and its theorems at concrete inputs.
use coen.Base.{ℕ, ◌≡◌, refl, true, false, some, List, [], ◌∷◌, ◌++◌, Bytes, codes, take, drop}
use coen.Edge.AltSvc.{
  crlf, bare_lf_after, has_bare_lf, starts_blank, starts_cr, head_end_from, head_end,
}
use coen.Edge.AltSvc.Reading.{new_alt_svc_conn, reads}
use coen.Edge.AltSvc.Reading.Passing.{concat, Goes, reads_pass}

abbrev response : Bytes
response = codes "HTTP/1.1 200 OK" ++ crlf ++ codes "A: b" ++ crlf ++ crlf ++ codes "hi"

ends_at : head_end response ≡ some (21, true)
unfolding head_end head_end_from starts_blank starts_cr has_bare_lf bare_lf_after
ends_at = refl

-- The head comes in two reads, and the client reads ten bytes, and then the rest.
abbrev cut : List Bytes
cut = take 12 response ∷ drop 12 response ∷ []

abbrev sizes : List ℕ
sizes = 10 ∷ 100 ∷ 100 ∷ []

reads_pass_example :
    Goes
      (codes "h3")
      false
      (concat cut)
      (reads sizes (new_alt_svc_conn (codes "h3") false) cut).out
      (reads sizes (new_alt_svc_conn (codes "h3") false) cut).conn
      (reads sizes (new_alt_svc_conn (codes "h3") false) cut).below
reads_pass_example = reads_pass (codes "h3") false sizes cut
