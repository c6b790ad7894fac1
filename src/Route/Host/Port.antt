-- ===== src/Route/Host/Port.antt =====
-- internal/route/route.go: Normalize cuts a port and a trailing dot off a plain host name.
use coen.Base.{
  ℕ, ◌≡◌, refl, ap, ◌∙◌, Bool, true, false, not, ◌&&◌, ◌||◌, none, some, [], ◌∷◌, ◌++◌, arith,
  length, leb, ◌==◌, Bytes, All, All-append, All-map, contains_byte, to_lower, take-length-append,
}
use coen.Route.Host.{
  is_space, trim_left, trim_right, trim_space, last_index, no_brackets, split_plain, opens_bracket,
  split_host_port, trim_dot, without_port, normalize,
}

-- A byte of a host name or of a port: no space, colon or bracket.
abbrev pub is_plain : ℕ → Bool
is_plain c = not (c == b' ' || (leb 9 c && leb c 13)) && not (c == b':' || c == b'[' || c == b']')

abbrev pub IsPlain : Bytes → Type 0
IsPlain s = All (λ c. is_plain c ≡ true) s

-- No byte of the text is `b`.
abbrev Lacks : ℕ → Bytes → Type 0
Lacks b s = All (λ c. (c == b) ≡ false) s

abbrev IsSolid : Bytes → Type 0
IsSolid s = All (λ c. is_space c ≡ false) s

trim_left_of_solid : (s : Bytes) → IsSolid s → trim_left s ≡ s
unfolding trim_left
trim_left_of_solid [] h = refl
trim_left_of_solid (c ∷ s) h = rw h.0

trim_right_of_solid : (s : Bytes) → IsSolid s → trim_right s ≡ s
unfolding trim_right
trim_right_of_solid [] h = refl
trim_right_of_solid (c ∷ []) h = rw h.0
trim_right_of_solid (c ∷ d ∷ s) h = rw (trim_right_of_solid (d ∷ s) h.1, trim_right)

trim_space_of_solid : (s : Bytes) → IsSolid s → trim_space s ≡ s
unfolding trim_space
trim_space_of_solid s h = rw (trim_left_of_solid s h) (trim_right_of_solid s h)

contains_byte_of_Lacks : (b : ℕ) (s : Bytes) → Lacks b s → contains_byte s b ≡ false
unfolding contains_byte
contains_byte_of_Lacks b [] h = refl
contains_byte_of_Lacks b (c ∷ s) h = rw (h.0, contains_byte_of_Lacks b s h.1)

last_index_of_Lacks : (b : ℕ) (s : Bytes) → Lacks b s → last_index s b ≡ none
unfolding last_index
last_index_of_Lacks b [] h = refl
last_index_of_Lacks b (c ∷ s) h = rw (last_index_of_Lacks b s h.1, last_index) (rw h.0)

last_index-append : (b : ℕ) (s t : Bytes) → Lacks b t → last_index (s ++ b ∷ t) b ≡ some (length s)
unfolding last_index
last_index-append b [] t h = rw (last_index_of_Lacks b t h, last_index) (ground arith)
last_index-append b (c ∷ s) t h = rw (last_index-append b s t h, last_index)

opens_bracket_of_Lacks : (s : Bytes) → Lacks b'[' s → opens_bracket s ≡ false
unfolding opens_bracket
opens_bracket_of_Lacks [] h = refl
opens_bracket_of_Lacks (c ∷ s) h = h.0

IsPlain-IsSolid : (s : Bytes) → IsPlain s → IsSolid s
unfolding is_space
IsPlain-IsSolid s = All-map _ _ (λ c h. ground arith) s

IsPlain-Lacks :
    (b : ℕ) (s : Bytes) → (b == b':' || b == b'[' || b == b']') ≡ true → IsPlain s → Lacks b s
IsPlain-Lacks b s e = All-map _ _ (λ c h. ground arith) s

module _ (h p : Bytes) (host : IsPlain h) (port : IsPlain p) where
  IsPlain-Lacks_append : (b : ℕ) → (b == b'[' || b == b']') ≡ true → Lacks b (h ++ b':' ∷ p)
  IsPlain-Lacks_append b e =
      All-append _ h (b':' ∷ p) (IsPlain-Lacks b h (ground arith) host)
        (ground arith, IsPlain-Lacks b p (ground arith) port)

  split_host_port-append : split_host_port (h ++ b':' ∷ p) ≡ some h
  unfolding split_plain no_brackets split_host_port
  split_host_port-append =
      rw (last_index-append b':' h p (IsPlain-Lacks b':' p refl port), split_host_port)
        (rw (
          opens_bracket_of_Lacks (h ++ b':' ∷ p) (IsPlain-Lacks_append b'[' refl),
          take-length-append h (b':' ∷ p),
          contains_byte_of_Lacks b':' h (IsPlain-Lacks b':' h refl host),
          contains_byte_of_Lacks b'[' (h ++ b':' ∷ p) (IsPlain-Lacks_append b'[' refl),
          contains_byte_of_Lacks b']' (h ++ b':' ∷ p) (IsPlain-Lacks_append b']' refl),
        ))

without_port_of_plain : (h : Bytes) → IsPlain h → without_port h ≡ h
unfolding without_port split_host_port
without_port_of_plain h host =
    rw (last_index_of_Lacks b':' h (IsPlain-Lacks b':' h refl host), split_host_port, without_port)

without_port-append : (h p : Bytes) → IsPlain h → IsPlain p → without_port (h ++ b':' ∷ p) ≡ h
unfolding without_port
without_port-append h p host port = rw (split_host_port-append h p host port, without_port)

trim_dot-append : (h : Bytes) → trim_dot (h ++ b'.' ∷ []) ≡ h
unfolding trim_dot
trim_dot-append [] = refl
trim_dot-append (c ∷ []) = refl
trim_dot-append (c ∷ d ∷ h) = ap (◌∷◌ c) (trim_dot-append (d ∷ h))

normalize_of_plain : (h : Bytes) → IsPlain h → normalize h ≡ to_lower (trim_dot h)
unfolding normalize
normalize_of_plain h host =
    rw (trim_space_of_solid h (IsPlain-IsSolid h host), without_port_of_plain h host)

normalize-port :
    (h p : Bytes) → IsPlain h → IsPlain p → normalize (h ++ b':' ∷ p) ≡ to_lower (trim_dot h)
unfolding normalize
normalize-port h p host port =
    rw (trim_space_of_solid (h ++ b':' ∷ p) solid, without_port-append h p host port)
  where
    solid : IsSolid (h ++ b':' ∷ p)
    solid =
        All-append _ h (b':' ∷ p) (IsPlain-IsSolid h host)
          (unfold is_space in refl, IsPlain-IsSolid p port)

-- For a host name and a port without spaces, colons and brackets, where the name does not end in a
-- dot, Normalize gives the lower case of the name, whether or not a dot, a port, or a dot and a port
-- follow it.
pub normalize_spellings :
    (h p : Bytes)
    → IsPlain h
    → IsPlain p
    → trim_dot h ≡ h
    → (normalize h ≡ to_lower h)
      × (normalize (h ++ b'.' ∷ []) ≡ to_lower h)
      × (normalize (h ++ b':' ∷ p) ≡ to_lower h)
      × (normalize ((h ++ b'.' ∷ []) ++ b':' ∷ p) ≡ to_lower h)
normalize_spellings h p host port undotted = (
  normalize_of_plain h host ∙ ap to_lower undotted,
  normalize_of_plain (h ++ b'.' ∷ []) dotted ∙ ap to_lower (trim_dot-append h),
  normalize-port h p host port ∙ ap to_lower undotted,
  normalize-port (h ++ b'.' ∷ []) p dotted port ∙ ap to_lower (trim_dot-append h),
)
  where
    dotted : IsPlain (h ++ b'.' ∷ [])
    dotted = All-append _ h (b'.' ∷ []) host (refl, tt)
