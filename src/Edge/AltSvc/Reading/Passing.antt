-- ===== src/Edge/AltSvc/Reading/Passing.antt =====
-- internal/edge/altsvc.go, altSvcConn.Read: what the client gets, however it reads and however the bytes come.
use coen.Base.{
  ℕ, ◌+◌, ◌≡◌, refl, ap, ◌∙◌, sym, subst, Bool, true, false, some, List, [], ◌∷◌, ◌++◌, take, drop,
  take-append-drop, append_assoc, append-nil, Bytes, Bool-cases, Option-cases, inl, inr, ltb,
  length, some_inj,
}
use coen.Edge.AltSvc.{head_end, is_interim, with_alt_svc}
use coen.Edge.AltSvc.Reading.{
  AltSvcConn, new_alt_svc_conn, max_head_bytes, at_head_end, look_for_head, collect, ReadResult,
  read_below, give_pending, after_collect, read_first, read_rest, read_some, read, bytes_of, reads,
}

abbrev pub concat : List Bytes → Bytes
concat [] = []
concat (c ∷ cs) = c ++ concat cs

-- Heads of interim responses, each with its blank line.
pub data IsInterims : Bytes → Type 0 where
  no_interim : IsInterims []
  one_more :
      (before buf : Bytes) (end : ℕ)
      → IsInterims before
      → head_end buf ≡ some (end, true)
      → is_interim (take end buf) ≡ true
      → IsInterims (before ++ take (end + 4) buf)

module _ (value : Bytes) (replace : Bool) (whole : Bytes) where
  -- What becomes of all the bytes of the service.
  pub data Passed : Bytes → Type 0 where
    as_is : Passed whole
    annotated :
        (before buf after : Bytes) (end : ℕ)
        → IsInterims before
        → head_end buf ≡ some (end, true)
        → is_interim (take end buf) ≡ false
        → before ++ (buf ++ after) ≡ whole
        → Passed (before ++ (with_alt_svc buf end value replace ++ after))

  abbrev state_of : Bytes → Bytes → Bool → AltSvcConn
  state_of p q d = record { value = value; replace = replace; pending = p; rest = q; done = d }

  -- What has been read, what waits and what is still to come.
  pub data Goes (out : Bytes) : AltSvcConn → List Bytes → Type 0 where
    searching :
        (p q : Bytes) (cs : List Bytes)
        → IsInterims (out ++ p)
        → out ++ (p ++ (q ++ concat cs)) ≡ whole
        → Goes out (state_of p q false) cs
    passing :
        (p : Bytes) (cs : List Bytes)
        → Passed (out ++ (p ++ concat cs))
        → Goes out (state_of p [] true) cs

  all_passed :
      (out buf : Bytes) (cs : List Bytes)
      → out ++ (buf ++ concat cs) ≡ whole
      → Goes out (state_of buf [] true) cs
  all_passed out buf cs e = passing buf cs (subst Passed (sym e) as_is)

  abbrev fresh : AltSvcConn
  fresh = state_of [] [] false

  after_crlf_head-Goes :
      (out buf : Bytes) (end : ℕ) (cs : List Bytes)
      → IsInterims out
      → head_end buf ≡ some (end, true)
      → out ++ (buf ++ concat cs) ≡ whole
      → Goes out (at_head_end fresh buf end true) cs
  unfolding at_head_end
  after_crlf_head-Goes out buf end cs i h e = elim (Bool-cases (ltb max_head_bytes end)) [
    | inl t ↦ rw t (all_passed out buf cs e)
    | inr t ↦ elim (Bool-cases (is_interim (take end buf))) [
      | inl j ↦
          rw (t, j)
            (searching (take (end + 4) buf) (drop (end + 4) buf) cs (one_more out buf end i h j) (
              ap (λ x. out ++ x)
                (sym (append_assoc (take (end + 4) buf) (drop (end + 4) buf) (concat cs))
                  ∙ ap (λ x. x ++ concat cs) (take-append-drop (end + 4) buf))
              ∙ e))
      | inr j ↦
          rw (t, j)
            (passing (with_alt_svc buf end value replace) cs
              (annotated out buf (concat cs) end i h j e))
    ]
  ]

  at_head_end-Goes :
      (out buf : Bytes) (end : ℕ) (crlf : Bool) (cs : List Bytes)
      → IsInterims out
      → head_end buf ≡ some (end, crlf)
      → out ++ (buf ++ concat cs) ≡ whole
      → Goes out (at_head_end fresh buf end crlf) cs
  unfolding at_head_end
  at_head_end-Goes out buf end true cs i h e = after_crlf_head-Goes out buf end cs i h e
  at_head_end-Goes out buf end false cs i h e = all_passed out buf cs e

  look_for_head-Goes :
      (out buf : Bytes) (b : AltSvcConn) (cs : List Bytes)
      → IsInterims out
      → out ++ (buf ++ concat cs) ≡ whole
      → look_for_head fresh buf ≡ some b
      → Goes out b cs
  unfolding look_for_head
  look_for_head-Goes out buf b cs i e l = elim (Option-cases (head_end buf)) [
    | inr ((end, crlf), h) ↦
        subst (λ x. Goes out x cs) (some_inj (rw (look_for_head, h) at l))
          (at_head_end-Goes out buf end crlf cs i h e)
    | inl h ↦ elim (Bool-cases (ltb max_head_bytes (length buf))) [
      | inl t ↦
          subst (λ x. Goes out x cs) (some_inj (rw (look_for_head, h, t) at l))
            (all_passed out buf cs e)
      | inr t ↦ absurd (cc (rw (look_for_head, h, t) at l))
    ]
  ]

  collect-Goes :
      (out buf : Bytes) (cs : List Bytes)
      → IsInterims out
      → out ++ (buf ++ concat cs) ≡ whole
      → Goes out (collect fresh buf cs).0 (collect fresh buf cs).1
  unfolding collect
  collect-Goes out buf [] i e = elim (Option-cases (look_for_head fresh buf)) [
    | inr (b, l) ↦ rw (collect, l) (look_for_head-Goes out buf b [] i e l)
    | inl l ↦ rw (collect, l) (all_passed out buf [] e)
  ]
  collect-Goes out buf (c ∷ cs) i e = elim (Option-cases (look_for_head fresh buf)) [
    | inr (b, l) ↦ rw (collect, l) (look_for_head-Goes out buf b (c ∷ cs) i e l)
    | inl l ↦
        rw (collect, l)
          (collect-Goes out (buf ++ c) cs i
            (ap (λ x. out ++ x) (append_assoc buf c (concat cs)) ∙ e))
  ]

  -- The client takes `n` bytes of what waits.
  split_out : (n : ℕ) (out p x : Bytes) → (out ++ take n p) ++ (drop n p ++ x) ≡ out ++ (p ++ x)
  split_out n out p x =
      append_assoc out (take n p) (drop n p ++ x)
      ∙ ap (λ y. out ++ y)
          (sym (append_assoc (take n p) (drop n p) x) ∙ ap (λ y. y ++ x) (take-append-drop n p))

  split_interims : (n : ℕ) (out p : Bytes) → (out ++ take n p) ++ drop n p ≡ out ++ p
  split_interims n out p =
      append_assoc out (take n p) (drop n p) ∙ ap (λ y. out ++ y) (take-append-drop n p)

  abbrev AfterRead : Bytes → ReadResult → Type 0
  AfterRead out r = Goes (out ++ bytes_of r.got) r.conn r.below

  give_pending-Goes :
      (n : ℕ) (out : Bytes) (a : AltSvcConn) (cs : List Bytes)
      → Goes out a cs
      → AfterRead out (give_pending n a cs)
  unfolding give_pending
  give_pending-Goes n out a cs (searching p q _ i e) =
      searching (drop n p) q cs (subst IsInterims (sym (split_interims n out p)) i)
        (split_out n out p (q ++ concat cs) ∙ e)
  give_pending-Goes n out a cs (passing p _ w) =
      passing (drop n p) cs (subst Passed (sym (split_out n out p (concat cs))) w)

  read_below-Goes :
      (out : Bytes) (cs : List Bytes)
      → Passed (out ++ concat cs)
      → AfterRead out (read_below (state_of [] [] true) cs)
  unfolding read_below
  read_below-Goes out [] w =
      passing [] [] (subst Passed (ap (λ x. x ++ []) (sym (append-nil out))) w)
  read_below-Goes out (c ∷ cs) w =
      passing [] cs (subst Passed (sym (append_assoc out c (concat cs))) w)

  after_collect-Goes :
      (n : ℕ) (out b : Bytes) (a : AltSvcConn) (cs : List Bytes)
      → Goes out a cs
      → AfterRead out (after_collect n b (a, cs))
  unfolding after_collect
  after_collect-Goes n out [] a cs g = subst (λ o. Goes o a cs) (sym (append-nil out)) g
  after_collect-Goes n out (x ∷ xs) a cs g = give_pending-Goes n out a cs g

  read_rest-Goes :
      (n : ℕ) (out : Bytes) (a : AltSvcConn) (cs : List Bytes)
      → a.pending ≡ []
      → Goes out a cs
      → AfterRead out (read_rest n a cs)
  unfolding read_rest read_first
  read_rest-Goes n out a cs p (passing [] _ w) = read_below-Goes out cs w
  read_rest-Goes n out a cs p (passing (x ∷ xs) _ w) = absurd (cc (p))
  read_rest-Goes n out a cs p (searching (x ∷ xs) q _ i e) = absurd (cc (p))
  read_rest-Goes n out a cs p (searching [] q _ i e) =
      after_collect-Goes n out _ _ _ (collect-Goes out q cs (subst IsInterims (append-nil out) i) e)

  read_some-Goes :
      (n : ℕ) (out p : Bytes) (a : AltSvcConn) (cs : List Bytes)
      → a.pending ≡ p
      → Goes out a cs
      → AfterRead out (read_some n p a cs)
  unfolding read_some
  read_some-Goes n out [] a cs e g = read_rest-Goes n out a cs e g
  read_some-Goes n out (x ∷ xs) a cs e g = give_pending-Goes n out a cs g

  reads-Goes :
      (ns : List ℕ) (out : Bytes) (a : AltSvcConn) (cs : List Bytes)
      → Goes out a cs
      → Goes (out ++ (reads ns a cs).out) (reads ns a cs).conn (reads ns a cs).below
  unfolding reads read
  reads-Goes [] out a cs g = subst (λ o. Goes o a cs) (sym (append-nil out)) g
  reads-Goes (n ∷ ns) out a cs g =
      let r = read n a cs in
      subst (λ o. Goes o (reads ns r.conn r.below).conn (reads ns r.conn r.below).below)
        (append_assoc out (bytes_of r.got) (reads ns r.conn r.below).out)
        (reads-Goes ns (out ++ bytes_of r.got) r.conn r.below
          (read_some-Goes n out a.pending a cs refl g))

-- However the bytes of the service are cut into reads and however large the client's buffers are: as
-- long as the connection looks for a head, the client has got, or will get next, heads of interim
-- responses; and what it has got, what waits and what is still to come are the service's bytes, nothing
-- lost, doubled or moved. Once it has looked, they are that too, or one piece of them has been changed:
-- behind some interim heads, withAltSvc has been given the piece that starts with the first other head.
pub reads_pass :
    (value : Bytes) (replace : Bool) (ns : List ℕ) (cs : List Bytes)
    → Goes value replace
        (concat cs)
        (reads ns (new_alt_svc_conn value replace) cs).out
        (reads ns (new_alt_svc_conn value replace) cs).conn
        (reads ns (new_alt_svc_conn value replace) cs).below
reads_pass value replace ns cs =
    reads-Goes value replace (concat cs) ns [] (new_alt_svc_conn value replace) cs
      (searching [] [] cs no_interim refl)
