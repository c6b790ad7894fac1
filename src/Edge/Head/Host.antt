-- ===== src/Edge/Head/Host.antt =====
-- internal/edge/http.go, parseHost: the loop against a description by the list of Host lines.
use coen.Base.{◌≡◌, refl, none, some, List, [], ◌∷◌, drop, keep, Bytes, ◌⊎◌, inl, inr, Bool-cases}
use coen.Edge.Head.{
  HostError, multiple_hosts, no_host, split_crlf, is_host_line, host_value, parse_lines, parse_host,
}

-- What a head with these Host lines is.
abbrev pub judge : List Bytes → HostError ⊎ Bytes
judge [] = inl no_host
judge (l ∷ []) = inr (host_value l)
judge (l ∷ m ∷ ls) = inl multiple_hosts

-- With a host found already.
abbrev judge_more : Bytes → List Bytes → HostError ⊎ Bytes
judge_more h [] = inr h
judge_more h (l ∷ ls) = inl multiple_hosts

parse_lines-some :
    (ls : List Bytes) (h : Bytes) → parse_lines ls (some h) ≡ judge_more h (keep is_host_line ls)
unfolding parse_lines
parse_lines-some [] h = refl
parse_lines-some (l ∷ ls) h = elim (Bool-cases (is_host_line l)) [
  | inl e ↦ rw e
  | inr e ↦ rw e (parse_lines-some ls h)
]

judge_first : (l : Bytes) (ls : List Bytes) → judge_more (host_value l) ls ≡ judge (l ∷ ls)
judge_first l [] = refl
judge_first l (m ∷ ls) = refl

parse_lines-none : (ls : List Bytes) → parse_lines ls none ≡ judge (keep is_host_line ls)
unfolding parse_lines
parse_lines-none [] = refl
parse_lines-none (l ∷ ls) = elim (Bool-cases (is_host_line l)) [
  | inl e ↦ rw (e, parse_lines-some ls (host_value l)) (judge_first l (keep is_host_line ls))
  | inr e ↦ rw e (parse_lines-none ls)
]

-- parseHost accepts a head exactly if one line after the request line is a Host field, with the name in
-- any case, and gives its value, trimmed and normalised; without such a line and with more than one it
-- returns the error for that.
pub parse_host-judge :
    (head : Bytes) → parse_host head ≡ judge (keep is_host_line (drop 1 (split_crlf head)))
unfolding parse_host
parse_host-judge head = parse_lines-none (drop 1 (split_crlf head))
