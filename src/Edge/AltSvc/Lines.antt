-- ===== src/Edge/AltSvc/Lines.antt =====
-- internal/edge/altsvc.go, withAltSvc: which lines stay, and that the body does.
use coen.Base.{
  ℕ, ◌≡◌, Bool, true, false, some, List, [], ◌∷◌, ◌++◌, take, drop, exists, All, Bytes, codes,
}
use coen.Edge.Head.{split_crlf}
use coen.Edge.AltSvc.{
  folded, is_alt_svc_field, drop_last_empty, keep_lines, crlf, join_lines, first_line, status_code,
  starts_with_one,
}

abbrev pub starts_folded : List Bytes → Bool
starts_folded [] = false
starts_folded (l ∷ ls) = folded l

-- With it, the lines without the Alt-Svc fields, each with all the folded lines that continue it.
pub data Cleared : List Bytes → List Bytes → Type 0 where
  ends : Cleared [] []
  keeps :
      (l : Bytes) (ls kept : List Bytes)
      → is_alt_svc_field l ≡ false
      → Cleared ls kept
      → Cleared (l ∷ ls) (l ∷ kept)
  drops :
      (l : Bytes) (continued ls kept : List Bytes)
      → is_alt_svc_field l ≡ true
      → All (λ c. folded c ≡ true) continued
      → starts_folded ls ≡ false
      → Cleared ls kept
      → Cleared (l ∷ (continued ++ ls)) kept

pub Cleared-no_field :
    {ls kept : List Bytes} → Cleared ls kept → All (λ l. is_alt_svc_field l ≡ false) kept
Cleared-no_field ends = tt
Cleared-no_field (keeps l ls kept e c) = (e, Cleared-no_field c)
Cleared-no_field (drops l continued ls kept e f n c) = Cleared-no_field c

-- The loop inside a dropped field.
record Continues (ls kept : List Bytes) : Type 0 where
  continued : List Bytes
  rest : List Bytes
  split : ls ≡ continued ++ rest
  all_folded : All (λ c. folded c ≡ true) continued
  not_folded : starts_folded rest ≡ false
  cleared : Cleared rest kept

record Loops (ls : List Bytes) : Type 0 where
  outside : List Bytes
  is_outside : keep_lines true false ls ≡ some outside
  cleared : Cleared ls outside
  inside : List Bytes
  is_inside : keep_lines true true ls ≡ some inside
  continues : Continues ls inside

-- What becomes of the bytes of a response.
pub data Annotated (buf : Bytes) (end : ℕ) (value : Bytes) (replace : Bool) : Bytes → Type 0 where
  not_final :
      ((c : Bytes) → status_code (take end buf) ≡ some c → starts_with_one c ≡ true)
      → Annotated buf end value replace buf
  has_own :
      replace ≡ false
      → exists is_alt_svc_field (drop_last_empty (drop 1 (split_crlf (take end buf)))) ≡ true
      → Annotated buf end value replace buf
  adds :
      (kept : List Bytes)
      → Cleared (drop_last_empty (drop 1 (split_crlf (take end buf)))) kept
      → (replace ≡ false → kept ≡ drop_last_empty (drop 1 (split_crlf (take end buf))))
      → Annotated buf end value replace (
          first_line (split_crlf (take end buf))
          ++ join_lines kept
          ++ crlf
          ++ codes "Alt-Svc: "
          ++ value
          ++ drop end buf)
