-- ===== src/Edge/AltSvc.antt =====
-- internal/edge/altsvc.go: the Alt-Svc line that the edge adds to the head of a response. strings.Fields,
-- bytes.TrimSpace and bytes.EqualFold are modelled on ASCII. Reading collects the head.
pub mod Lines
pub mod HeadEnd
pub mod Reading
mod Tests
use coen.Base.{
  ℕ, zero, suc, ◌+◌, ◌-◌, ◌≡◌, refl, Bool, true, false, not, ◌&&◌, ◌||◌, Option, none, some, List,
  [], ◌∷◌, ◌++◌, length, take, drop, if◌then◌else◌, ltb, leb, ◌==◌, Bytes, codes, bytes_eq,
  has_prefix, to_lower, contains_byte,
}
use coen.Edge.Head.{split_crlf}
use coen.Route.Host.{is_space, trim_space}

-- hasBareLF, with whether the byte before is a carriage return.
pub bare_lf_after : Bool → Bytes → Bool
bare_lf_after cr [] = false
bare_lf_after cr (c ∷ s) = c == 10 && not cr || bare_lf_after (c == 13) s

pub has_bare_lf : Bytes → Bool
unfolding bare_lf_after
has_bare_lf b = bare_lf_after false b

-- The two tests of headEnd on what follows a line feed.
pub starts_blank : Bytes → Bool
starts_blank [] = false
starts_blank (c ∷ []) = c == 10
starts_blank (c ∷ d ∷ s) = c == 10 || c == 13 && d == 10

pub starts_cr : Bytes → Bool
starts_cr [] = false
starts_cr (c ∷ s) = c == 13

-- The loop of headEnd, from the byte at `i` on; `cr` says whether the byte before is a carriage return.
pub head_end_from : Bytes → Bool → ℕ → Bytes → Option (ℕ × Bool)
unfolding starts_blank starts_cr has_bare_lf
head_end_from buf cr i [] = none
head_end_from buf cr i (c ∷ s) =
    let rest = head_end_from buf (c == 13) (i + 1) s in
    if c == 10 && starts_blank s
    then some (if cr then i - 1 else i, cr && (starts_cr s && not (has_bare_lf (take (i + 1) buf))))
    else rest

pub head_end : Bytes → Option (ℕ × Bool)
unfolding head_end_from
head_end buf = head_end_from buf false 0 buf

-- bytes.Cut before a byte, and whether it is there.
pub cut_at : ℕ → Bytes → Bytes × Bool
cut_at b [] = ([], false)
cut_at b (c ∷ s) =
    let (before, found) = cut_at b s in if c == b then ([], true) else (c ∷ before, found)

abbrev push_field : ℕ → Bool → List Bytes → List Bytes
push_field c true fs = (c ∷ []) ∷ fs
push_field c false [] = (c ∷ []) ∷ []
push_field c false (f ∷ fs) = (c ∷ f) ∷ fs

abbrev next_is_space : Bytes → Bool
next_is_space [] = true
next_is_space (c ∷ s) = is_space c

-- strings.Fields
pub fields : Bytes → List Bytes
fields [] = []
fields (c ∷ s) =
    let rest = fields s in if is_space c then rest else push_field c (next_is_space s) rest

abbrev pub code_of : List Bytes → Option Bytes
code_of (version ∷ code ∷ fs) =
    if not (has_prefix version (codes "HTTP/1.")) || not (length code == 3) then none else some code
code_of _ = none

pub status_code : Bytes → Option Bytes
unfolding cut_at fields has_prefix
status_code head = code_of (fields (cut_at 10 head).0)

abbrev pub starts_with_one : Bytes → Bool
starts_with_one [] = false
starts_with_one (c ∷ s) = c == b'1'

pub is_interim : Bytes → Bool
unfolding status_code bytes_eq
is_interim head = elim (status_code head) [
  | none ↦ false
  | some code ↦ starts_with_one code && not (bytes_eq code (codes "101"))
]

pub folded : Bytes → Bool
folded [] = false
folded (c ∷ l) = c == b' ' || c == 9

pub is_alt_svc_field : Bytes → Bool
unfolding folded cut_at bytes_eq to_lower
is_alt_svc_field l =
    let (name, found) = cut_at b':' l in
    not (folded l) && (found && bytes_eq (to_lower (trim_space name)) (codes "alt-svc"))

-- The pieces that the loop of withAltSvc cuts off: it ends when nothing is left.
pub drop_last_empty : List Bytes → List Bytes
drop_last_empty [] = []
drop_last_empty ([] ∷ []) = []
drop_last_empty (l ∷ ls) = l ∷ drop_last_empty ls

abbrev pub with_line : Bytes → Option (List Bytes) → Option (List Bytes)
with_line l none = none
with_line l (some ms) = some (l ∷ ms)

-- The loop: the lines that stay, or none if the service has set its own.
pub keep_lines : Bool → Bool → List Bytes → Option (List Bytes)
unfolding folded is_alt_svc_field
keep_lines replace dropping [] = some []
keep_lines replace dropping (l ∷ ls) =
    let skipped = keep_lines replace dropping ls in
    let dropped = keep_lines replace true ls in
    let kept = with_line l (keep_lines replace false ls) in
    if folded l && dropping
    then skipped
    else if is_alt_svc_field l
    then (if replace then dropped else none)
    else kept

abbrev pub crlf : Bytes
crlf = 13 ∷ 10 ∷ []

abbrev pub join_lines : List Bytes → Bytes
join_lines [] = []
join_lines (l ∷ ls) = crlf ++ l ++ join_lines ls

abbrev pub first_line : List Bytes → Bytes
first_line [] = []
first_line (l ∷ ls) = l

-- The head of a final response, in its lines.
pub annotate : Bytes → ℕ → Bytes → Bool → List Bytes → Bytes
unfolding keep_lines drop_last_empty
annotate buf end value replace lines =
    elim (keep_lines replace false (drop_last_empty (drop 1 lines))) [
      | none ↦ buf
      | some ls ↦
          first_line lines ++ join_lines ls ++ crlf ++ codes "Alt-Svc: " ++ value ++ drop end buf
    ]

pub with_alt_svc : Bytes → ℕ → Bytes → Bool → Bytes
unfolding status_code annotate
with_alt_svc buf end value replace = elim (status_code (take end buf)) [
  | none ↦ buf
  | some code ↦
      if starts_with_one code
      then buf
      else annotate buf end value replace (split_crlf (take end buf))
]
