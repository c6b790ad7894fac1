-- ===== src/Route/Matching.antt =====
-- internal/route/route.go: what Match answers on a matcher that Build made.
use coen.Base.{
  ℕ, ◌≤◌, ◌≡◌, refl, ap, ◌∙◌, ◌⊎◌, inl, inr, true, false, Option, none, some, List, [], ◌∷◌, ◌++◌,
  append-nil, append_assoc, arith, length, Bytes, has_suffix, All, In, here, there, All-map,
}
use coen.Route.{
  Kind, fallback, wild, literal, Entry, Wildcard, Matcher, empty_matcher, add_kind, add_entries,
  sort_longest, build, first_suffix, or_else, lookup_host, match_host,
}
use coen.Route.Host.{normalize}
use coen.Route.Precedence.{
  literal_for, suffix_for, is_fallback, suffix_length, kind, Answer, by_name, by_suffix, by_default,
  by_nothing, NoneOf, last_value, last_value-cases, add_entries-exact, add_entries-fallback,
}
use coen.Route.Wildcards.{sort_longest-Longest}

-- What holds of the suffixes of all wildcards, as a statement about the kinds of the entries.
abbrev Suffix {κ} : (Bytes → Type κ) → Kind → Type κ
Suffix Q (wild s) = Q s
Suffix Q _ = Unit

Suffix-miss :
    (n : Bytes) (k : Kind)
    → Suffix (λ s. has_suffix n (b'.' ∷ s) ≡ false) k
    → suffix_for n k ≡ false
Suffix-miss n fallback h = refl
Suffix-miss n (wild s) h = h
Suffix-miss n (literal t) h = refl

Suffix-shorter :
    (n : Bytes) (l : ℕ) (k : Kind)
    → Suffix (λ s. has_suffix n (b'.' ∷ s) ≡ true → length s ≤ l) k
    → suffix_for n k ≡ true
    → suffix_length k ≤ l
Suffix-shorter n l fallback h = λ _. omega arith
Suffix-shorter n l (wild s) h = h
Suffix-shorter n l (literal t) h = λ _. omega arith

module _ {ℓ} {V : Type ℓ} where
  cons_wild : Kind → V → List (Wildcard V) → List (Wildcard V)
  cons_wild (wild s) v ws = record { suffix = s; val = v } ∷ ws
  cons_wild _ v ws = ws

  wilds : List (Entry V) → List (Wildcard V)
  wilds [] = []
  wilds (e ∷ es) = cons_wild (kind e) e.value (wilds es)

  add_kind-wildcard :
      (m : Matcher V) (v : V) (k : Kind) (ws : List (Wildcard V))
      → (add_kind m v k).wildcard ++ ws ≡ m.wildcard ++ cons_wild k v ws
  unfolding add_kind cons_wild
  add_kind-wildcard m v fallback ws = refl
  add_kind-wildcard m v (wild s) ws = rw append_assoc
  add_kind-wildcard m v (literal h) ws = refl

  add_entries-wildcard :
      (m : Matcher V) (es : List (Entry V)) → (add_entries m es).wildcard ≡ m.wildcard ++ wilds es
  unfolding add_entries wilds
  add_entries-wildcard m [] = rw append-nil
  add_entries-wildcard m (e ∷ es) =
      add_entries-wildcard (add_kind m e.value (kind e)) es
      ∙ add_kind-wildcard m e.value (kind e) (wilds es)

  -- The entry that a wildcard of the matcher came from.
  abbrev Source : Wildcard V → List (Entry V) → Type ℓ
  Source w es = (e : Entry V) × In e es × (kind e ≡ wild w.suffix) × (w.val ≡ e.value)

  Source-later :
      {w : Wildcard V} {e : Entry V} {es : List (Entry V)} → Source w es → Source w (e ∷ es)
  Source-later (x, m, k, v) = (x, there m, k, v)

  Source-cons_wild :
      (w : Wildcard V) (e : Entry V) (es : List (Entry V)) (k : Kind)
      → kind e ≡ k
      → (In w (wilds es) → Source w es)
      → In w (cons_wild k e.value (wilds es))
      → Source w (e ∷ es)
  unfolding cons_wild
  Source-cons_wild w e es fallback q rest m = Source-later (rest m)
  Source-cons_wild w e es (literal h) q rest m = Source-later (rest m)
  Source-cons_wild w e es (wild s) q rest here = (e, here, q, refl)
  Source-cons_wild w e es (wild s) q rest (there m) = Source-later (rest m)

  wilds-Source : (w : Wildcard V) (es : List (Entry V)) → In w (wilds es) → Source w es
  unfolding wilds
  wilds-Source w [] m = elim m [ ]
  wilds-Source w (e ∷ es) m = Source-cons_wild w e es (kind e) refl (wilds-Source w es) m

  cons_wild-All {κ} :
      (Q : Bytes → Type κ) (k : Kind) (v : V) (ws : List (Wildcard V))
      → All (λ w. Q w.suffix) (cons_wild k v ws)
      → Suffix Q k × All (λ w. Q w.suffix) ws
  unfolding cons_wild
  cons_wild-All Q fallback v ws h = (tt, h)
  cons_wild-All Q (wild s) v ws h = h
  cons_wild-All Q (literal t) v ws h = (tt, h)

  wilds-All {κ} :
      (Q : Bytes → Type κ) (es : List (Entry V))
      → All (λ w. Q w.suffix) (wilds es)
      → All (λ e. Suffix Q (kind e)) es
  unfolding wilds
  wilds-All Q [] h = tt
  wilds-All Q (e ∷ es) h =
      let both = cons_wild-All Q (kind e) e.value (wilds es) h in (both.0, wilds-All Q es both.1)

  build-first_suffix :
      (n : Bytes) (es : List (Entry V))
      → ((first_suffix n (sort_longest (wilds es)) ≡ none) × NoneOf (suffix_for n) es)
        ⊎ ((e : Entry V) × In e es
            × (suffix_for n (kind e) ≡ true)
            × (first_suffix n (sort_longest (wilds es)) ≡ some e.value)
            × All
                (λ x.
                  suffix_for n (kind x) ≡ true → suffix_length (kind x) ≤ suffix_length (kind e))
                es)
  build-first_suffix n es = elim (sort_longest-Longest n (wilds es)) [
    | inl (q, miss) ↦ inl (
      q,
      All-map _ _ (λ e. Suffix-miss n (kind e)) es
          (wilds-All (λ s. has_suffix n (b'.' ∷ s) ≡ false) es miss),
    )
    | inr (w, m, hit, q, longest) ↦
        let (e, i, k, v) = wilds-Source w es m in
        inr (
          e,
          i,
          rw k hit,
          q ∙ ap some v,
          All-map _ _ (λ x s. rw k (Suffix-shorter n (length w.suffix) (kind x) s)) es
              (wilds-All (λ s. has_suffix n (b'.' ∷ s) ≡ true → length s ≤ length w.suffix) es
                longest),
        )
  ]

  build-lookup_host :
      (es : List (Entry V)) (n : Bytes)
      → lookup_host (build es) n
        ≡ or_else
            (last_value (literal_for n) es)
            (or_else (first_suffix n (sort_longest (wilds es))) (last_value is_fallback es))
  unfolding lookup_host build empty_matcher
  build-lookup_host es n = rw (
    add_entries-exact empty_matcher es n,
    add_entries-fallback empty_matcher es,
    add_entries-wildcard empty_matcher es,
    or_else-none,
    or_else-none,
  )
    where
      or_else-none : (o : Option V) → or_else o none ≡ o
      or_else-none none = unfold or_else in refl
      or_else-none (some v) = unfold or_else in refl

  lookup_host-Answer : (es : List (Entry V)) (n : Bytes) → Answer es n (lookup_host (build es) n)
  unfolding or_else
  lookup_host-Answer es n =
      rw (build-lookup_host es n) (elim (last_value-cases (literal_for n) es) [
        | inr (e, l, q) ↦ rw q (by_name l)
        | inl (q, no_name) ↦ rw q (elim (build-first_suffix n es) [
          | inr (e, i, hit, p, longest) ↦ rw p (by_suffix no_name i hit longest)
          | inl (p, no_suffix) ↦ rw p (elim (last_value-cases is_fallback es) [
            | inr (e, l, d) ↦ rw d (by_default no_name no_suffix l)
            | inl (d, no_default) ↦ rw d (by_nothing no_name no_suffix no_default)
          ])
        ])
      ])

  -- For every list of entries and every host, Match on the matcher that Build makes answers as the
  -- four cases of `Answer` say: the last entry whose pattern is literally the canonical host; with
  -- no such entry, a wildcard entry that fits and whose suffix is at least as long as that of every
  -- wildcard entry that fits; with neither, the last default entry; and nothing only if there is none
  -- of the three.
  pub match_host-Answer :
      (es : List (Entry V)) (host : Bytes) → Answer es (normalize host) (match_host (build es) host)
  unfolding match_host
  match_host-Answer es host = lookup_host-Answer es (normalize host)
