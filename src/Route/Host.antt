-- ===== src/Route/Host.antt =====
-- internal/route/route.go, Normalize: trim the spaces, cut a port, cut one trailing dot, lower case.
pub mod Case
pub mod Port
mod Tests
use coen.Base.{
  ℕ, zero, suc, ◌+◌, ◌≡◌, refl, Bool, true, false, not, ◌&&◌, ◌||◌, Option, none, some, List, [],
  ◌∷◌, length, take, drop, if◌then◌else◌, leb, ◌==◌, Bytes, contains_byte, index_byte, to_lower,
}

-- An ASCII space of package unicode.
pub is_space : ℕ → Bool
is_space c = c == b' ' || (leb 9 c && leb c 13)

pub trim_left : Bytes → Bytes
unfolding is_space
trim_left [] = []
trim_left (c ∷ s) = let rest = trim_left s in if is_space c then rest else c ∷ s

-- Drops the spaces at the end.
pub trim_right : Bytes → Bytes
unfolding is_space
trim_right [] = []
trim_right (c ∷ s) =
    let rest = trim_right s in
    elim rest [ [] ↦ if is_space c then [] else c ∷ [] | d ∷ t ↦ c ∷ d ∷ t ]

-- strings.TrimSpace
unfoldable pub trim_space : Bytes → Bytes
unfolding trim_left trim_right
trim_space s = trim_right (trim_left s)

-- strings.LastIndexByte
pub last_index : Bytes → ℕ → Option ℕ
last_index [] b = none
last_index (c ∷ s) b = elim (last_index s b) [
  | some i ↦ some (suc i)
  | none ↦ if c == b then some 0 else none
]

-- The checks of net.SplitHostPort on what stands outside the brackets; `j` and `k` are its offsets.
pub no_brackets : Bytes → ℕ → ℕ → Bool
unfolding contains_byte
no_brackets s j k = not (contains_byte (drop j s) b'[') && not (contains_byte (drop k s) b']')

pub split_bracketed : Bytes → ℕ → Option Bytes
unfolding index_byte no_brackets
split_bracketed s i = elim (index_byte s b']') [
  | none ↦ none
  | some end ↦
      if end + 1 == i && no_brackets s 1 (end + 1) then some (drop 1 (take end s)) else none
]

pub split_plain : Bytes → ℕ → Option Bytes
unfolding no_brackets
split_plain s i =
    let host = take i s in
    if not (contains_byte host b':') && no_brackets s 0 0 then some host else none

-- Whether `hostport[0] == '['`.
pub opens_bracket : Bytes → Bool
opens_bracket [] = false
opens_bracket (c ∷ s) = c == b'['

-- net.SplitHostPort: the host, or `none` for its error.
pub split_host_port : Bytes → Option Bytes
unfolding last_index split_bracketed split_plain opens_bracket
split_host_port s = elim (last_index s b':') [
  | none ↦ none
  | some i ↦ if opens_bracket s then split_bracketed s i else split_plain s i
]

-- strings.TrimSuffix(s, ".")
pub trim_dot : Bytes → Bytes
trim_dot [] = []
trim_dot (c ∷ s) = elim s [ [] ↦ if c == b'.' then [] else c ∷ [] | d ∷ t ↦ c ∷ trim_dot s ]

pub without_port : Bytes → Bytes
unfolding split_host_port
without_port s = elim (split_host_port s) [ none ↦ s | some h ↦ h ]

unfoldable pub normalize : Bytes → Bytes
unfolding trim_space without_port trim_dot to_lower
normalize host = to_lower (trim_dot (without_port (trim_space host)))
