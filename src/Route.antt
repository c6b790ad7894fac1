-- ===== src/Route.antt =====
-- internal/route/route.go: host patterns, the matcher built from them, and its lookup.
-- Hosts and patterns are lists of bytes. TrimSpace and ToLower are those of package strings on
-- ASCII; SplitHostPort is that of package net.
pub mod Host
pub mod Precedence
pub mod Wildcards
pub mod Matching
mod Tests
use coen.Base.{
  ℕ, zero, suc, ◌+◌, ◌≡◌, refl, Bool, true, false, ◌&&◌, ◌||◌, Option, none, some, List, [], ◌∷◌,
  ◌++◌, length, drop, if◌then◌else◌, ltb, leb, ◌==◌, Bytes, codes, bytes_eq, has_prefix, has_suffix,
  contains_byte, update,
}
use Host.{normalize}

pub data PatternError : Type 0 where
  empty_pattern invalid_wildcard invalid_pattern : PatternError

-- `none` is the nil error.
unfoldable pub validate_pattern : Bytes → Option PatternError
unfolding bytes_eq has_prefix contains_byte
validate_pattern p =
    if bytes_eq p []
    then some empty_pattern
    else if bytes_eq p (codes "*")
    then none
    else if has_prefix p (codes "*.")
    then (let rest = drop 2 p in
        if bytes_eq rest [] || contains_byte rest b'*' then some invalid_wildcard else none)
    else if contains_byte p b'*'
    then some invalid_pattern
    else none

-- The three cases of the switch in Build.
pub data Kind : Type 0 where
  fallback : Kind
  wild : Bytes → Kind
  literal : Bytes → Kind

pub classify : Bytes → Kind
unfolding bytes_eq has_prefix normalize
classify p =
    if bytes_eq p (codes "*")
    then fallback
    else if has_prefix p (codes "*.")
    then wild (normalize (drop 2 p))
    else literal (normalize p)

module _ {ℓ} (V : Type ℓ) where
  pub record Entry : Type ℓ where
    pub pattern_text : Bytes
    pub value : V

  pub record Wildcard : Type ℓ where
    pub suffix : Bytes
    pub val : V

  -- `fallback_value` is `def` with `hasDef`.
  pub record Matcher : Type ℓ where
    pub exact : Bytes → Option V
    pub wildcard : List Wildcard
    pub fallback_value : Option V

module _ {ℓ} {V : Type ℓ} where
  pub empty_matcher : Matcher V
  empty_matcher = record { exact = λ _. none; wildcard = []; fallback_value = none }

  pub add_kind : Matcher V → V → Kind → Matcher V
  unfolding bytes_eq
  add_kind m v fallback = record m { fallback_value = some v }
  add_kind m v (wild s) = record m { wildcard = m.wildcard ++ record { suffix = s; val = v } ∷ [] }
  add_kind m v (literal h) = record m { exact = update m.exact h (some v) }

  -- The loop of Build.
  pub add_entries : Matcher V → List (Entry V) → Matcher V
  unfolding add_kind classify
  add_entries m [] = m
  add_entries m (e ∷ es) = add_entries (add_kind m e.value (classify e.pattern_text)) es

  -- sort.SliceStable by suffix length, longest first: of equal lengths the earlier stays first.
  pub insert_longest : Wildcard V → List (Wildcard V) → List (Wildcard V)
  insert_longest w [] = w ∷ []
  insert_longest w (x ∷ xs) =
      if ltb (length w.suffix) (length x.suffix) then x ∷ insert_longest w xs else w ∷ x ∷ xs

  pub sort_longest : List (Wildcard V) → List (Wildcard V)
  unfolding insert_longest
  sort_longest [] = []
  sort_longest (w ∷ ws) = insert_longest w (sort_longest ws)

  pub build : List (Entry V) → Matcher V
  unfolding add_entries sort_longest empty_matcher
  build es = let m = add_entries empty_matcher es in record m { wildcard = sort_longest m.wildcard }

  -- The loop over the wildcards in Match.
  pub first_suffix : Bytes → List (Wildcard V) → Option V
  unfolding has_suffix
  first_suffix h [] = none
  first_suffix h (w ∷ ws) = if has_suffix h (b'.' ∷ w.suffix) then some w.val else first_suffix h ws

  pub or_else : Option V → Option V → Option V
  or_else (some v) _ = some v
  or_else none o = o

  -- Match, on a host that Normalize has canonicalised.
  pub lookup_host : Matcher V → Bytes → Option V
  unfolding first_suffix or_else
  lookup_host m h = or_else (m.exact h) (or_else (first_suffix h m.wildcard) m.fallback_value)

  pub match_host : Matcher V → Bytes → Option V
  unfolding lookup_host normalize
  match_host m host = lookup_host m (normalize host)
