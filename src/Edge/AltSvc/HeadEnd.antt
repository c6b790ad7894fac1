-- ===== src/Edge/AltSvc/HeadEnd.antt =====
-- internal/edge/altsvc.go, headEnd: where a head ends that is to be annotated.
use coen.Base.{
  ℕ, zero, suc, ◌+◌, ◌-◌, ◌≤◌, ◌≡◌, refl, sym, ap, ◌∙◌, subst, Bool, true, false, not, ◌&&◌, ◌||◌,
  Option, none, some, List, [], ◌∷◌, ◌++◌, append_assoc, arith, length, length-append, take, drop,
  drop-length-append, if◌then◌else◌, ◌==◌, Bytes, has_prefix, Bool-cases, inl, inr,
}
use coen.Edge.Head.{blank_line}
use coen.Edge.AltSvc.{has_bare_lf, starts_blank, starts_cr, head_end_from, head_end}

-- What comes before the byte that the loop looks at.
abbrev Before : Bool → Bytes → Type 0
Before false pre = Unit
Before true pre = (p : Bytes) × (pre ≡ p ++ 13 ∷ [])

blank_after :
    (s : Bytes) → starts_blank s ≡ true → starts_cr s ≡ true → has_prefix s (13 ∷ 10 ∷ []) ≡ true
unfolding starts_blank starts_cr has_prefix
blank_after [] b c = cc
blank_after (x ∷ []) b c = absurd (ground arith)
blank_after (x ∷ y ∷ s) b c = ground arith

found-blank :
    (buf pre s : Bytes) (cr : Bool) (end : ℕ)
    → buf ≡ pre ++ 10 ∷ s
    → Before cr pre
    → starts_blank s ≡ true
    → ◌≡◌ {A = Option (ℕ × Bool)}
        (some (
          if cr then length pre - 1 else length pre,
          cr && (starts_cr s && not (has_bare_lf (take (length pre + 1) buf))),
        ))
        (some (end, true))
    → has_prefix (drop end buf) blank_line ≡ true
unfolding has_prefix
found-blank buf pre s false end w l b e = cc
found-blank buf pre s true end w (p, q) b e =
    let whole : buf ≡ p ++ 13 ∷ 10 ∷ s =
      w ∙ (ap (λ r. r ++ 10 ∷ s) q ∙ append_assoc p (13 ∷ []) (10 ∷ s)) in
    let at : end ≡ length p =
      sym (ap (λ r. r.0) (coen.Base.some_inj e))
      ∙ ground (arith, ap length q, length-append p (13 ∷ [])) in
    let follows : drop end buf ≡ 13 ∷ 10 ∷ s =
      ap (λ n. drop n buf) at ∙ ap (drop (length p)) whole ∙ drop-length-append p (13 ∷ 10 ∷ s) in
    ap (λ r. has_prefix r blank_line) follows
    ∙ blank_after s b (first_of (starts_cr s) _ (ap (λ r. r.1) (coen.Base.some_inj e)))
  where
    first_of : (x y : Bool) → (x && y) ≡ true → x ≡ true
    first_of true y h = refl
    first_of false y h = h

head_end_from-blank :
    (buf pre s : Bytes) (cr : Bool) (end : ℕ)
    → buf ≡ pre ++ s
    → Before cr pre
    → head_end_from buf cr (length pre) s ≡ some (end, true)
    → has_prefix (drop end buf) blank_line ≡ true
unfolding head_end_from
head_end_from-blank buf pre [] cr end w l e = cc
head_end_from-blank buf pre (c ∷ s) cr end w l e = elim (Bool-cases (c == 10 && starts_blank s)) [
  | inl h ↦
      found-blank buf pre s cr end (w ∙ ap (λ x. pre ++ x ∷ s) (ground arith)) l (ground arith)
        (rw h at e)
  | inr h ↦
      head_end_from-blank buf (pre ++ c ∷ []) s (c == 13) end
        (w ∙ sym (append_assoc pre (c ∷ []) s)) (before (c == 13) refl)
        (ap (λ n. head_end_from buf (c == 13) n s) (length-append pre (c ∷ [])) ∙ (rw h at e))
]
  where
    before : (b : Bool) → (c == 13) ≡ b → Before b (pre ++ c ∷ [])
    before false q = tt
    before true q = (pre, ap (λ x. pre ++ x ∷ []) (ground arith))

-- Where headEnd says that a head ends that uses CRLF only, the response goes on with the line break of
-- the last header line and an empty line.
pub head_end-blank :
    (buf : Bytes) (end : ℕ)
    → head_end buf ≡ some (end, true)
    → has_prefix (drop end buf) blank_line ≡ true
unfolding head_end
head_end-blank buf end e = head_end_from-blank buf [] buf false end refl tt e
