-- ===== src/Route/Host/Case.antt =====
-- internal/route/route.go: Normalize does not see the case of the letters in a host.
use coen.Base.{
  ℕ, suc, ◌+◌, ◌≡◌, refl, sym, ap, ◌∙◌, Bool, true, not, ◌&&◌, Option, none, some, [], ◌∷◌, arith,
  take, drop, leb, ◌==◌, Bytes, contains_byte, index_byte, lower_byte, to_lower, to_lower_idem,
  Bool-cases, Option-cases, inl, inr,
}
use coen.Route.Host.{
  is_space, trim_left, trim_right, trim_space, last_index, no_brackets, split_bracketed,
  split_plain, opens_bracket, split_host_port, trim_dot, without_port, normalize,
}

-- A byte that has no upper or lower case.
abbrev caseless : ℕ → Bool
caseless b = not (leb b'A' b && leb b b'Z') && not (leb b'a' b && leb b b'z')

lower_byte-eq : (b c : ℕ) → caseless b ≡ true → (lower_byte c == b) ≡ (c == b)
unfolding lower_byte
lower_byte-eq b c h = ground arith

lower_byte-is_space : (c : ℕ) → is_space (lower_byte c) ≡ is_space c
unfolding lower_byte is_space
lower_byte-is_space c = ground arith

trim_left-to_lower : (s : Bytes) → trim_left (to_lower s) ≡ to_lower (trim_left s)
unfolding trim_left to_lower
trim_left-to_lower [] = refl
trim_left-to_lower (c ∷ s) = elim (Bool-cases (is_space c)) [
  | inl e ↦ rw (lower_byte-is_space c, e) (trim_left-to_lower s)
  | inr e ↦ rw (lower_byte-is_space c, e)
]

trim_right-to_lower : (s : Bytes) → trim_right (to_lower s) ≡ to_lower (trim_right s)
unfolding trim_right to_lower
trim_right-to_lower [] = refl
trim_right-to_lower (c ∷ s) = ground (arith, lower_byte-is_space c, trim_right-to_lower s)

contains_byte-to_lower :
    (b : ℕ) (s : Bytes) → caseless b ≡ true → contains_byte (to_lower s) b ≡ contains_byte s b
unfolding contains_byte to_lower
contains_byte-to_lower b [] h = refl
contains_byte-to_lower b (c ∷ s) h = rw (lower_byte-eq b c h, contains_byte-to_lower b s h)

index_byte-to_lower :
    (b : ℕ) (s : Bytes) → caseless b ≡ true → index_byte (to_lower s) b ≡ index_byte s b
unfolding index_byte to_lower
index_byte-to_lower b [] h = refl
index_byte-to_lower b (c ∷ s) h = rw (lower_byte-eq b c h, index_byte-to_lower b s h)

last_index-to_lower :
    (b : ℕ) (s : Bytes) → caseless b ≡ true → last_index (to_lower s) b ≡ last_index s b
unfolding last_index to_lower
last_index-to_lower b [] h = refl
last_index-to_lower b (c ∷ s) h =
    rw (last_index-to_lower b s h, last_index) (ground (arith, lower_byte-eq b c h))

take-to_lower : (n : ℕ) (s : Bytes) → take n (to_lower s) ≡ to_lower (take n s)
unfolding to_lower
take-to_lower ℕ.zero s = refl
take-to_lower (suc n) [] = refl
take-to_lower (suc n) (c ∷ s) = ap (◌∷◌ (lower_byte c)) (take-to_lower n s)

drop-to_lower : (n : ℕ) (s : Bytes) → drop n (to_lower s) ≡ to_lower (drop n s)
unfolding to_lower
drop-to_lower ℕ.zero s = refl
drop-to_lower (suc n) [] = refl
drop-to_lower (suc n) (c ∷ s) = drop-to_lower n s

no_brackets-to_lower : (s : Bytes) (j k : ℕ) → no_brackets (to_lower s) j k ≡ no_brackets s j k
unfolding no_brackets
no_brackets-to_lower s j k = rw (
  drop-to_lower j s,
  drop-to_lower k s,
  contains_byte-to_lower b'[' (drop j s) refl,
  contains_byte-to_lower b']' (drop k s) refl,
)

abbrev lower_host : Option Bytes → Option Bytes
lower_host none = none
lower_host (some h) = some (to_lower h)

split_bracketed-to_lower :
    (s : Bytes) (i : ℕ) → split_bracketed (to_lower s) i ≡ lower_host (split_bracketed s i)
unfolding split_bracketed
split_bracketed-to_lower s i = elim (Option-cases (index_byte s b']')) [
  | inl e ↦ rw (index_byte-to_lower b']' s refl, e, split_bracketed)
  | inr (j, e) ↦
      rw
        (
          index_byte-to_lower b']' s refl,
          e,
          no_brackets-to_lower s 1 (j + 1),
          take-to_lower j s,
          drop-to_lower 1 (take j s),
          split_bracketed,
        )
        (ground arith)
]

split_plain-to_lower :
    (s : Bytes) (i : ℕ) → split_plain (to_lower s) i ≡ lower_host (split_plain s i)
unfolding split_plain
split_plain-to_lower s i =
    rw (take-to_lower i s, contains_byte-to_lower b':' (take i s) refl, no_brackets-to_lower s 0 0)
      (ground arith)

opens_bracket-to_lower : (s : Bytes) → opens_bracket (to_lower s) ≡ opens_bracket s
unfolding opens_bracket to_lower
opens_bracket-to_lower [] = refl
opens_bracket-to_lower (c ∷ s) = lower_byte-eq b'[' c refl

split_host_port-to_lower :
    (s : Bytes) → split_host_port (to_lower s) ≡ lower_host (split_host_port s)
unfolding split_host_port
split_host_port-to_lower s = elim (Option-cases (last_index s b':')) [
  | inl e ↦ rw (last_index-to_lower b':' s refl, e, split_host_port)
  | inr (i, e) ↦
      rw
        (
          last_index-to_lower b':' s refl,
          e,
          opens_bracket-to_lower s,
          split_bracketed-to_lower s i,
          split_plain-to_lower s i,
          split_host_port,
        )
        (ground arith)
]

without_port-to_lower : (s : Bytes) → without_port (to_lower s) ≡ to_lower (without_port s)
unfolding without_port
without_port-to_lower s = ground (arith, split_host_port-to_lower s)

trim_dot-to_lower : (s : Bytes) → trim_dot (to_lower s) ≡ to_lower (trim_dot s)
unfolding trim_dot to_lower
trim_dot-to_lower [] = refl
trim_dot-to_lower (c ∷ []) = ground (arith, lower_byte-eq b'.' c refl)
trim_dot-to_lower (c ∷ d ∷ s) = ap (◌∷◌ (lower_byte c)) (trim_dot-to_lower (d ∷ s))

normalize-to_lower : (s : Bytes) → normalize (to_lower s) ≡ normalize s
unfolding normalize trim_space
normalize-to_lower s = rw (
  trim_left-to_lower s,
  trim_right-to_lower (trim_left s),
  without_port-to_lower (trim_right (trim_left s)),
  trim_dot-to_lower (without_port (trim_right (trim_left s))),
  to_lower_idem,
)

-- Two hosts that differ only in the case of ASCII letters have one canonical form, with or without
-- a port, brackets or a trailing dot.
pub normalize_ignores_case : (g h : Bytes) → to_lower g ≡ to_lower h → normalize g ≡ normalize h
normalize_ignores_case g h e = sym (normalize-to_lower g) ∙ ap normalize e ∙ normalize-to_lower h
