-- ===== src/Route/Precedence.antt =====
-- internal/route/route.go, Match: exact before wildcard, longest wildcard first, then the default.
use coen.Base.{
  ℕ, ◌≤◌, ◌≡◌, refl, ◌⊎◌, inl, inr, Bool, true, false, Option, none, some, List, [], ◌∷◌, arith,
  length, if◌then◌else◌, Bytes, bytes_eq, has_suffix, All, In, Bool-cases,
}
use coen.Route.{
  Kind, fallback, wild, literal, classify, Entry, Matcher, add_kind, add_entries, or_else,
}

-- Which canonical hosts a pattern is for.
abbrev pub literal_for : Bytes → Kind → Bool
literal_for n (literal h) = bytes_eq h n
literal_for n _ = false

abbrev pub suffix_for : Bytes → Kind → Bool
suffix_for n (wild s) = has_suffix n (b'.' ∷ s)
suffix_for n _ = false

abbrev pub is_fallback : Kind → Bool
is_fallback fallback = true
is_fallback _ = false

abbrev pub suffix_length : Kind → ℕ
suffix_length (wild s) = length s
suffix_length _ = 0

module _ {ℓ} {V : Type ℓ} where
  abbrev pub kind : Entry V → Kind
  kind e = classify e.pattern_text

  -- `e` is the last entry whose kind passes the test.
  pub data LastOf (p : Kind → Bool) (e : Entry V) : List (Entry V) → Type ℓ where
    last :
        {es : List (Entry V)}
        → p (kind e) ≡ true
        → All (λ x. p (kind x) ≡ false) es
        → LastOf p e (e ∷ es)
    later : {x : Entry V} {es : List (Entry V)} → LastOf p e es → LastOf p e (x ∷ es)

  abbrev pub NoneOf : (Kind → Bool) → List (Entry V) → Type 0
  NoneOf p es = All (λ e. p (kind e) ≡ false) es

  -- What Match promises for a canonical host `n`.
  pub data Answer (es : List (Entry V)) (n : Bytes) : Option V → Type ℓ where
    by_name : {e : Entry V} → LastOf (literal_for n) e es → Answer es n (some e.value)
    by_suffix :
        {e : Entry V}
        → NoneOf (literal_for n) es
        → In e es
        → suffix_for n (kind e) ≡ true
        → All
            (λ x. suffix_for n (kind x) ≡ true → suffix_length (kind x) ≤ suffix_length (kind e))
            es
        → Answer es n (some e.value)
    by_default :
        {e : Entry V}
        → NoneOf (literal_for n) es
        → NoneOf (suffix_for n) es
        → LastOf is_fallback e es
        → Answer es n (some e.value)
    by_nothing :
        NoneOf (literal_for n) es
        → NoneOf (suffix_for n) es
        → NoneOf is_fallback es
        → Answer es n none

  pub last_value : (Kind → Bool) → List (Entry V) → Option V
  unfolding or_else
  last_value p [] = none
  last_value p (e ∷ es) = or_else (last_value p es) (if p (kind e) then some e.value else none)

  pub last_value-cases :
      (p : Kind → Bool) (es : List (Entry V))
      → ((last_value p es ≡ none) × NoneOf p es)
        ⊎ ((e : Entry V) × LastOf p e es × (last_value p es ≡ some e.value))
  unfolding last_value
  last_value-cases p [] = inl (refl, tt)
  last_value-cases p (e ∷ es) = elim (last_value-cases p es) [
    | inr (x, l, q) ↦ inr (x, later l, rw q)
    | inl (q, no_later) ↦ elim (Bool-cases (p (kind e))) [
      | inl b ↦ inr (e, last b no_later, rw (q, b))
      | inr b ↦ inl (rw (q, b), (b, no_later))
    ]
  ]

  or_else_assoc : (a b c : Option V) → or_else (or_else a b) c ≡ or_else a (or_else b c)
  unfolding or_else
  or_else_assoc none b c = refl
  or_else_assoc (some v) b c = refl

  add_kind-exact :
      (m : Matcher V) (v : V) (k : Kind) (n : Bytes)
      → (add_kind m v k).exact n ≡ or_else (if literal_for n k then some v else none) (m.exact n)
  unfolding add_kind or_else
  add_kind-exact m v fallback n = refl
  add_kind-exact m v (wild s) n = refl
  add_kind-exact m v (literal h) n = ground arith

  add_kind-fallback :
      (m : Matcher V) (v : V) (k : Kind)
      → (add_kind m v k).fallback_value
        ≡ or_else (if is_fallback k then some v else none) m.fallback_value
  unfolding add_kind or_else
  add_kind-fallback m v fallback = refl
  add_kind-fallback m v (wild s) = refl
  add_kind-fallback m v (literal h) = refl

  pub add_entries-exact :
      (m : Matcher V) (es : List (Entry V)) (n : Bytes)
      → (add_entries m es).exact n ≡ or_else (last_value (literal_for n) es) (m.exact n)
  unfolding add_entries last_value
  add_entries-exact m [] n = unfold or_else in refl
  add_entries-exact m (e ∷ es) n = rw (
    add_entries-exact (add_kind m e.value (kind e)) es n,
    add_kind-exact m e.value (kind e) n,
    or_else_assoc,
  )

  pub add_entries-fallback :
      (m : Matcher V) (es : List (Entry V))
      → (add_entries m es).fallback_value ≡ or_else (last_value is_fallback es) m.fallback_value
  unfolding add_entries last_value
  add_entries-fallback m [] = unfold or_else in refl
  add_entries-fallback m (e ∷ es) = rw (
    add_entries-fallback (add_kind m e.value (kind e)) es,
    add_kind-fallback m e.value (kind e),
    or_else_assoc,
  )
