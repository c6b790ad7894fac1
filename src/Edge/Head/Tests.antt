-- ===== src/Edge/Head/Tests.antt =====
-- Tests of internal/edge/http.go, and its theorems at concrete inputs.
use coen.Base.{
  ℕ, ◌≡◌, refl, Bool, true, false, Option, none, some, List, [], ◌∷◌, ◌++◌, Bytes, codes, bytes_eq,
  to_lower, has_prefix, ◌⊎◌, inl, inr, map,
}
use coen.Edge.Head.{
  HostError, HeadError, no_host, conn_eof, conn_other, Read, incomplete_head, no_request,
  parse_host, parse_lines, split_crlf, is_host_line, host_value, read_request_head, read_head,
  find_end, index_blank,
}
use coen.Edge.Head.Host.{judge}
use coen.Edge.Head.Splits.{unbroken, IsHeadOf, read_request_head_splits}

abbrev crlf : Bytes
crlf = 13 ∷ 10 ∷ []

abbrev first_part : Bytes
first_part = codes "GET / HTTP/1.1" ++ crlf ++ codes "Ho"

abbrev second_part : Bytes
second_part = codes "st: a" ++ crlf ++ crlf

-- A connection that closes before its first byte asked for nothing.
closed_early :
    read_request_head 100 (record { got = []; error = some conn_eof } ∷ [])
    ≡ some (inl (no_request conn_eof))
unfolding read_request_head read_head find_end
closed_early = refl

-- One that closes within its head is malformed.
cut_head :
    read_request_head 100 (record { got = codes "GE"; error = some conn_eof } ∷ [])
    ≡ some (inl incomplete_head)
unfolding read_request_head read_head find_end index_blank has_prefix
cut_head = refl

blank_at : index_blank (first_part ++ second_part) ≡ some 23
unfolding index_blank has_prefix
blank_at = refl

read_request_head_splits_example :
    IsHeadOf
      (first_part ++ second_part)
      23
      (read_request_head 100 (map unbroken (first_part ∷ [] ∷ second_part ∷ [])))
read_request_head_splits_example =
    read_request_head_splits 100 (first_part ++ second_part) 23 (first_part ∷ [] ∷ second_part ∷ [])
      blank_at (omega coen.Base.arith) refl

parse_host-judge_example :
    parse_host (codes "GET")
    ≡ judge (coen.Base.keep is_host_line (coen.Base.drop 1 (split_crlf (codes "GET"))))
parse_host-judge_example = coen.Edge.Head.Host.parse_host-judge (codes "GET")
