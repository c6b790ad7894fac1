-- ===== src/Edge/StreamPool/Clearing.antt =====
-- internal/edge/h3pool.go, removeWhereLocked: takes out exactly the streams that match.
use coen.Base.{
  ℕ, ◌≡◌, ◌↔◌, refl, ap, ◌∙◌, Bool, true, false, List, [], ◌∷◌, arith, keep, exists, In, here,
  there, All, All-In, All-map, ◌==◌, Bool-cases, inl, inr,
}
use coen.Edge.StreamPool.{
  IdleStream, StreamPool, is_pooled, take_out, remove_locked, remove_each, remove_where,
}
use coen.Edge.StreamPool.Removal.{
  Lacks, IsDistinct, Owns, remove_id-All, remove_id-Lacks, In-Owns, In-remove_id, remove_id-In,
}
use coen.Edge.StreamPool.Invariant.{
  IsSound, SameFlags, remove_locked-IsSound, remove_locked-SameFlags,
}

-- Removals keep what holds of every stream.
remove_locked-All {κ} :
    (P : IdleStream → Type κ) (s : IdleStream) (p : StreamPool)
    → All P p.all
    → All P (remove_locked s p).all
unfolding remove_locked is_pooled take_out
remove_locked-All P s p o = elim (Bool-cases (exists (λ y. y.id == s.id) p.all)) [
  | inl e ↦ simp e (remove_id-All P s.id p.all o)
  | inr e ↦ simp e o
]

exists-Lacks : (i : ℕ) (l : List IdleStream) → exists (λ y. y.id == i) l ≡ false → Lacks i l
exists-Lacks i [] e = tt
exists-Lacks i (x ∷ xs) e = (ground arith, exists-Lacks i xs (ground arith))

pub remove_locked-Lacks :
    (s : IdleStream) (p : StreamPool) → IsDistinct p.all → Lacks s.id (remove_locked s p).all
unfolding remove_locked is_pooled take_out
remove_locked-Lacks s p d = elim (Bool-cases (exists (λ y. y.id == s.id) p.all)) [
  | inl e ↦ simp e (remove_id-Lacks s.id p.all d)
  | inr e ↦ simp e (exists-Lacks s.id p.all e)
]

pub remove_locked-In :
    (x s : IdleStream) (p : StreamPool) → In x (remove_locked s p).all → In x p.all
unfolding remove_locked is_pooled take_out
remove_locked-In x s p = elim (Bool-cases (exists (λ y. y.id == s.id) p.all)) [
  | inl e ↦ simp e (remove_id-In s.id p.all)
  | inr e ↦ simp e (λ m. m)
]

pub In-remove_locked :
    (x s : IdleStream) (p : StreamPool)
    → (x.id == s.id) ≡ false
    → In x p.all
    → In x (remove_locked s p).all
unfolding remove_locked is_pooled take_out
In-remove_locked x s p n = elim (Bool-cases (exists (λ y. y.id == s.id) p.all)) [
  | inl e ↦ simp e (In-remove_id s.id n)
  | inr e ↦ simp e (λ m. m)
]

-- What is left of `p` when the streams of `ss` that match are out.
record IsCleared (ok : IdleStream → Bool) (ss : List IdleStream) (p q : StreamPool) : Type 0 where
  sound : IsSound q
  flags : SameFlags p q
  kept : All (λ s. ok s ≡ true → Lacks s.id q.all) ss
  lacked : (i : ℕ) → Lacks i p.all → Lacks i q.all
  old : (x : IdleStream) → In x q.all → In x p.all
  others : (x : IdleStream) → In x p.all → ok x ≡ false → In x q.all

other_id :
    (ok : IdleStream → Bool) (x s : IdleStream) (p : StreamPool)
    → Owns s p.all
    → In x p.all
    → ok x ≡ false
    → ok s ≡ true
    → (x.id == s.id) ≡ false
other_id ok x s p o m f t = elim (Bool-cases (x.id == s.id)) [
  | inl e ↦ absurd (ground (arith, ap ok (All-In (λ y. (y.id == s.id) ≡ true → y ≡ s) m o e)))
  | inr e ↦ e
]

remove_each-IsCleared :
    (ok : IdleStream → Bool) (ss : List IdleStream) (p : StreamPool)
    → All (λ s. Owns s p.all) ss
    → IsSound p
    → IsCleared ok ss p (remove_each ok ss p).0
unfolding remove_each
remove_each-IsCleared ok [] p o v = record {
  sound = v;
  flags = record { same_closed = refl; same_ended = λ k. refl };
  kept = tt;
  lacked = λ i l. l;
  old = λ x m. m;
  others = λ x m e. m;
}
remove_each-IsCleared ok (s ∷ ss) p o v = elim (Bool-cases (ok s)) [
  | inl e ↦
      let c =
        remove_each-IsCleared ok ss (remove_locked s p)
          (All-map _ _ (λ x h. remove_locked-All _ s p h) ss o.1)
          (remove_locked-IsSound s p o.0 v) in
      let f = remove_locked-SameFlags s p in
      rw e (record {
        sound = c.sound;
        flags = record {
          same_closed = c.flags.same_closed ∙ f.same_closed;
          same_ended = λ k. c.flags.same_ended k ∙ f.same_ended k;
        };
        kept = (λ _. c.lacked s.id (remove_locked-Lacks s p v.distinct), c.kept);
        lacked = λ i l. c.lacked i (remove_locked-All _ s p l);
        old = λ x m. remove_locked-In x s p (c.old x m);
        others = λ x m g. c.others x (In-remove_locked x s p (other_id ok x s p o.0 m g e) m) g;
      })
  | inr e ↦
      let c = remove_each-IsCleared ok ss p o.1 v in
      rw e (record {
        sound = c.sound;
        flags = c.flags;
        kept = (λ h. absurd (ground arith), c.kept);
        lacked = c.lacked;
        old = c.old;
        others = c.others;
      })
]

remove_each-keep :
    (ok : IdleStream → Bool) (ss : List IdleStream) (p : StreamPool)
    → (remove_each ok ss p).1 ≡ keep ok ss
unfolding remove_each
remove_each-keep ok [] p = refl
remove_each-keep ok (s ∷ ss) p = elim (Bool-cases (ok s)) [
  | inl e ↦ rw e (ap (◌∷◌ s) (remove_each-keep ok ss (remove_locked s p)))
  | inr e ↦ rw e (remove_each-keep ok ss p)
]

-- A clearing of the pool.
pub record Clears (ok : IdleStream → Bool) (p : StreamPool) (out : StreamPool × List IdleStream)
    : Type 0 where
  pub sound : IsSound out.0
  pub flags : SameFlags p out.0
  pub left : (x : IdleStream) → In x out.0.all ↔ (In x p.all × (ok x ≡ false))
  pub removed : out.1 ≡ keep ok p.all

In-All :
    (l ss : List IdleStream)
    → ((s : IdleStream) → In s ss → In s l)
    → IsDistinct l
    → All (λ s. Owns s l) ss
In-All l [] f d = tt
In-All l (s ∷ ss) f d = (In-Owns (f s here) d, In-All l ss (λ x m. f x (there m)) d)

not_kept :
    (ok : IdleStream → Bool) (x : IdleStream) (l : List IdleStream)
    → In x l
    → (ok x ≡ true → Lacks x.id l)
    → ok x ≡ false
not_kept ok x l m h = elim (Bool-cases (ok x)) [
  | inl e ↦ absurd (ground (arith, All-In (λ y. (y.id == x.id) ≡ false) m (h e)))
  | inr e ↦ e
]

pub remove_where-Clears :
    (ok : IdleStream → Bool) (p : StreamPool) → IsSound p → Clears ok p (remove_where ok p)
unfolding remove_where
remove_where-Clears ok p v =
    let c = remove_each-IsCleared ok p.all p (In-All p.all p.all (λ s m. m) v.distinct) v in
    record {
      sound = c.sound;
      flags = c.flags;
      left = λ x. (
        λ m. (
          c.old x m,
          not_kept ok x _ m (
              All-In (λ s. ok s ≡ true → Lacks s.id (remove_each ok p.all p).0.all) (c.old x m)
                c.kept),
        ),
        λ q. c.others x q.0 q.1,
      );
      removed = remove_each-keep ok p.all p;
    }
