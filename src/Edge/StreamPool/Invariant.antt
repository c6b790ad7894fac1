-- ===== src/Edge/StreamPool/Invariant.antt =====
-- internal/edge/h3pool.go: what holds of the pool between two critical sections.
use coen.Base.{
  ℕ, zero, suc, ◌+◌, ◌-◌, ◌≤◌, ◌≡◌, ◌≢◌, refl, sym, ap, ◌∙◌, Bool, true, false, not, ◌&&◌, ◌||◌,
  List, [], ◌∷◌, ◌++◌, arith, length, count, keep, keep-append_one, count-append_one, exists, In,
  All, if◌then◌else◌, leb, ◌==◌, Bytes, bytes_eq, bytes_eq_refl, bytes_eq→eq, update, Bool-cases,
  inl, inr,
}
use coen.Edge.StreamPool.{
  IdleStream, ConnStreams, StreamPool, Pressure, max_kept_per_conn, new_pool, set_conn, put,
  is_pooled, remove_id, take_out, remove_locked,
}
use coen.Edge.StreamPool.Removal.{
  Lacks, IsDistinct, Owns, keep-remove_id, keep-remove_id_other, count-remove_id,
  remove_id-IsDistinct, exists-In, append-IsDistinct,
}

abbrev pub of_conn : ℕ → IdleStream → Bool
of_conn k s = s.conn == k

abbrev pub of_host : ℕ → Bytes → IdleStream → Bool
of_host k h s = s.conn == k && bytes_eq s.host h

-- The streams of connection `k` in `cs` are those of `all`, host by host, in the order of the inserts.
pub record IsShare (all : List IdleStream) (k : ℕ) (cs : ConnStreams) : Type 0 where
  pub by_host : (h : Bytes) → cs.idle h ≡ keep (of_host k h) all
  pub counted : cs.n ≡ count (of_conn k) all
  pub capped : cs.n ≤ max_kept_per_conn

-- The part of the invariant that also holds while a connection or the pool is being closed.
pub record IsSound (p : StreamPool) : Type 0 where
  pub distinct : IsDistinct p.all
  pub shares : (k : ℕ) → IsShare p.all k (p.conns k)

pub record PoolInv (p : StreamPool) : Type 0 where
  pub sound : IsSound p
  pub none_after_end : (k : ℕ) → (p.conns k).ended ≡ true → (p.conns k).n ≡ 0
  pub none_after_close : p.closed ≡ true → p.all ≡ []

pub new_pool-PoolInv : PoolInv new_pool
unfolding new_pool
new_pool-PoolInv = record {
  sound = record {
    distinct = tt;
    shares = λ k. record { by_host = λ h. refl; counted = refl; capped = omega arith };
  };
  none_after_end = λ k e. refl;
  none_after_close = λ e. refl;
}

pub set_conn_all {κ} :
    (P : ℕ → ConnStreams → Type κ) (m : ℕ → ConnStreams) (k : ℕ) (v : ConnStreams)
    → P k v
    → ((j : ℕ) → (k == j) ≡ false → P j (m j))
    → (j : ℕ) → P j (set_conn m k v j)
set_conn_all P m k v new old j = elim (Bool-cases (k == j)) [
  | inl e ↦ rw e (coen.Base.subst (λ i. P i v) (ground arith) new)
  | inr e ↦ rw e (old j e)
]

-- The pool after a put that keeps the stream.
put-IsShare :
    (s : IdleStream) (all : List IdleStream) (cs : ConnStreams)
    → IsShare all s.conn cs
    → leb max_kept_per_conn cs.n ≡ false
    → cs.ended ≡ false
    → IsShare
        (all ++ s ∷ [])
        s.conn
        (record cs { idle = update cs.idle s.host (cs.idle s.host ++ s ∷ []); n = cs.n + 1 })
put-IsShare s all cs h room open_conn = record {
  by_host = λ g. elim (Bool-cases (bytes_eq s.host g)) [
    | inl e ↦
        rw (e, keep-append_one (of_host s.conn g) all s)
          (ground (arith, e, ap cs.idle (bytes_eq→eq s.host g e), h.by_host g))
    | inr e ↦ rw (e, keep-append_one (of_host s.conn g) all s) (ground (arith, e, h.by_host g))
  ];
  counted = ground (arith, h.counted, count-append_one (of_conn s.conn) all s);
  capped = ground (arith, h.capped);
}

put-IsShare_other :
    (s : IdleStream) (all : List IdleStream) (k : ℕ) (cs : ConnStreams)
    → (s.conn == k) ≡ false
    → IsShare all k cs
    → IsShare (all ++ s ∷ []) k cs
put-IsShare_other s all k cs other h = record {
  by_host = λ g. h.by_host g ∙ sym (ground (arith, other, keep-append_one (of_host k g) all s));
  counted = ground (arith, h.counted, other, count-append_one (of_conn k) all s);
  capped = h.capped;
}

pub put-PoolInv :
    (s : IdleStream) (w : Pressure) (p : StreamPool)
    → Lacks s.id p.all
    → PoolInv p
    → PoolInv (put s w p).0
unfolding put
put-PoolInv s w p new v =
    elim (Bool-cases (
      p.closed
      || ((p.conns s.conn).ended
          || (leb max_kept_per_conn (p.conns s.conn).n
              || (coen.Base.ltb 0 w.slot_waiters || w.retired))))) [
                | inl e ↦ simp e v
                | inr e ↦ simp e (record {
                  sound = record {
                    distinct = append-IsDistinct p.all s v.sound.distinct new;
                    shares =
                        set_conn_all (λ j cs. IsShare (p.all ++ s ∷ []) j cs) p.conns s.conn _
                          (put-IsShare s p.all (p.conns s.conn) (v.sound.shares s.conn)
                            (ground arith) (ground arith))
                          (λ j other.
                            put-IsShare_other s p.all j (p.conns j) other (v.sound.shares j));
                  };
                  none_after_end =
                      set_conn_all (λ j cs. cs.ended ≡ true → cs.n ≡ 0) p.conns s.conn _
                        (λ h. absurd (ground arith)) (λ j other. v.none_after_end j);
                  none_after_close = λ c. absurd (ground arith);
                })
              ]

take_out-IsShare :
    (s : IdleStream) (all : List IdleStream) (cs : ConnStreams)
    → In s all
    → IsDistinct all
    → IsShare all s.conn cs
    → IsShare
        (remove_id s.id all)
        s.conn
        (record cs { idle = update cs.idle s.host (remove_id s.id (cs.idle s.host)); n = cs.n - 1 })
take_out-IsShare s all cs m d h = record {
  by_host = λ g. elim (Bool-cases (bytes_eq s.host g)) [
    | inl e ↦ rw e (
        ap (remove_id s.id) (ap cs.idle (bytes_eq→eq s.host g e) ∙ h.by_host g)
        ∙ sym (keep-remove_id (of_host s.conn g) s.id all d))
    | inr e ↦
        rw e (h.by_host g ∙ sym (keep-remove_id_other (of_host s.conn g) m d (ground (arith, e))))
  ];
  counted = ground (arith, h.counted, count-remove_id (of_conn s.conn) m d);
  capped = omega (arith, h.capped);
}

take_out-IsShare_other :
    (s : IdleStream) (all : List IdleStream) (k : ℕ) (cs : ConnStreams)
    → In s all
    → IsDistinct all
    → (s.conn == k) ≡ false
    → IsShare all k cs
    → IsShare (remove_id s.id all) k cs
take_out-IsShare_other s all k cs m d other h = record {
  by_host = λ g. h.by_host g ∙ sym (keep-remove_id_other (of_host k g) m d (ground (arith, other)));
  counted = ground (arith, h.counted, other, count-remove_id (of_conn k) m d);
  capped = h.capped;
}

pub remove_id-nil : (i : ℕ) (l : List IdleStream) → l ≡ [] → remove_id i l ≡ []
unfolding remove_id
remove_id-nil i [] e = refl
remove_id-nil i (s ∷ ss) e = cc

take_out-IsSound :
    (s : IdleStream) (p : StreamPool) → In s p.all → IsSound p → IsSound (take_out s p)
unfolding take_out
take_out-IsSound s p m v = record {
  distinct = remove_id-IsDistinct s.id p.all v.distinct;
  shares =
      set_conn_all (λ j cs. IsShare (remove_id s.id p.all) j cs) p.conns s.conn _
        (take_out-IsShare s p.all (p.conns s.conn) m v.distinct (v.shares s.conn))
        (λ j other. take_out-IsShare_other s p.all j (p.conns j) m v.distinct other (v.shares j));
}

pub remove_locked-IsSound :
    (s : IdleStream) (p : StreamPool) → Owns s p.all → IsSound p → IsSound (remove_locked s p)
unfolding remove_locked is_pooled
remove_locked-IsSound s p o v = elim (Bool-cases (exists (λ x. x.id == s.id) p.all)) [
  | inl e ↦ simp e (take_out-IsSound s p (exists-In s p.all o e) v)
  | inr e ↦ simp e v
]

-- What closing leaves alone: whether the pool is closed, and which connections have ended.
pub record SameFlags (p q : StreamPool) : Type 0 where
  pub same_closed : q.closed ≡ p.closed
  pub same_ended : (k : ℕ) → (q.conns k).ended ≡ (p.conns k).ended

pub remove_locked-SameFlags : (s : IdleStream) (p : StreamPool) → SameFlags p (remove_locked s p)
unfolding remove_locked is_pooled take_out
remove_locked-SameFlags s p = elim (Bool-cases (exists (λ x. x.id == s.id) p.all)) [
  | inl e ↦ simp e (record {
    same_closed = refl;
    same_ended =
        set_conn_all (λ j cs. cs.ended ≡ (p.conns j).ended) p.conns s.conn _ refl (λ j other. refl);
  })
  | inr e ↦ simp e (record { same_closed = refl; same_ended = λ k. refl })
]

-- Connections that have ended, and a closed pool, stay empty under removals.
pub remove_locked-PoolInv :
    (s : IdleStream) (p : StreamPool) → Owns s p.all → PoolInv p → PoolInv (remove_locked s p)
unfolding remove_locked is_pooled take_out
remove_locked-PoolInv s p o v = elim (Bool-cases (exists (λ x. x.id == s.id) p.all)) [
  | inl e ↦ simp e (record {
    sound = take_out-IsSound s p (exists-In s p.all o e) v.sound;
    none_after_end =
        set_conn_all (λ j cs. cs.ended ≡ true → cs.n ≡ 0) p.conns s.conn _
          (λ h. omega (arith, v.none_after_end s.conn h)) (λ j other. v.none_after_end j);
    none_after_close = λ c. remove_id-nil s.id p.all (v.none_after_close c);
  })
  | inr e ↦ simp e v
]
