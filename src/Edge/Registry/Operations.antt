-- ===== src/Edge/Registry/Operations.antt =====
-- internal/edge/registry.go: track, registerConn and drop keep the invariant.
use coen.Base.{
  ℕ, ◌≤◌, ◌≡◌, ◌≢◌, sym, ap, subst, Bool, true, false, not, ◌&&◌, ◌||◌, none, some, List, [], ◌∷◌,
  ◌++◌, arith, length, leb, Bytes, update_self, bytes_eq→eq, update_all, All, All-append, All-map,
  Bool-cases, Option-cases, inl, inr,
}
use coen.Edge.Registry.{
  AgentConn, Registry, max_shared_sessions, live_locked, is_nil, duplicate_locked, join_tracked,
  pool_conn, register_live, register_conn, track, remove_conn, remove_locked, drop_tracked, drop,
}
use coen.Edge.Registry.Sessions.{
  Tracked, find, erase, mark_joined, find-put, find-erase, find-mark_joined, put-IsMap, erase-IsMap,
  mark_joined-IsMap, tally-put, tally-erase, tally-mark_joined,
}
use coen.Edge.Registry.Invariant.{
  IsPooled, IsDistinct, IsSound, Inv, live_locked-Inv, remove_locked-Inv, remove_conn-ne,
}

-- A pool stays sound when the tracked sessions change but keep what they say of the pool.
IsSound-map :
    (m m' : List (ℕ × Tracked)) (shared : Bool) (fp : Bytes) (cs : List AgentConn)
    → ((c : AgentConn) → IsPooled m fp c → IsPooled m' fp c)
    → IsSound m shared fp cs
    → IsSound m' shared fp cs
IsSound-map m m' shared fp cs f h = record {
  tracked = All-map _ _ f cs h.tracked;
  distinct = h.distinct;
  exclusive = h.exclusive;
}

pub track-Inv :
    (fp : Bytes) (s : ℕ) (r : Registry) → find s r.all ≡ none → Inv r → Inv (track fp s r).0
unfolding track
track-Inv fp s r fresh v = elim (Bool-cases r.closing) [
  | inl e ↦ simp e v
  | inr e ↦ elim (Bool-cases (leb max_shared_sessions (r.pending fp))) [
    | inl full ↦ simp (e, full) v
    | inr room ↦
        simp (e, room)
          (record {
            keys = put-IsMap s _ r.all v.keys;
            pending_count = λ j. ground (
              arith,
              v.pending_count j,
              v.pending_count fp,
              bytes_eq→eq fp j,
              tally-put j false s (record { fp = fp; joined = false }) r.all fresh,
            );
            joined_count = λ j. ground (
              arith,
              v.joined_count j,
              tally-put j true s (record { fp = fp; joined = false }) r.all fresh,
            );
            pending_cap = λ j. ground (arith, v.pending_cap j);
            joined_cap = v.joined_cap;
            pools = λ j.
                IsSound-map r.all _ (r.shared j) j (r.by_fp j)
                  (λ c h. (
                    h.0,
                    ground (
                      arith,
                      h.1,
                      fresh,
                      find-put s c.sess (record { fp = fp; joined = false }) r.all,
                    ),
                  ))
                  (v.pools j);
          })
  ]
]

-- Marking a session as joined keeps what is pooled.
mark_joined-IsPooled :
    (s : ℕ) (m : List (ℕ × Tracked)) (fp : Bytes) (c : AgentConn)
    → IsPooled m fp c
    → IsPooled (mark_joined s m) fp c
mark_joined-IsPooled s m fp c h = (h.0, ground (arith, h.1, find-mark_joined s c.sess m))

-- The pool to which registerConn adds a session that has not joined.
append-IsSound :
    (m : List (ℕ × Tracked)) (shared : Bool) (fp : Bytes) (live : List AgentConn) (c : AgentConn)
    → IsSound m shared fp live
    → c.fp ≡ fp
    → find c.sess m ≡ some (record { fp = fp; joined = false })
    → (not shared && not (is_nil live)) ≡ false
    → IsSound (mark_joined c.sess m) shared fp (live ++ c ∷ [])
append-IsSound m shared fp live c h same waiting alone = record {
  tracked =
      All-append _ live (c ∷ []) (All-map _ _ (mark_joined-IsPooled c.sess m fp) live h.tracked)
        ((same, ground (arith, waiting, find-mark_joined c.sess c.sess m)), tt);
  distinct =
      distinct_append live h.distinct
        (All-map _ _ (λ d p q. cc (p.1, waiting, ap (λ i. find i m) q)) live h.tracked);
  exclusive = λ e. alone_length live e alone;
}
  where
    snoc_all :
        (d : AgentConn) (ds : List AgentConn)
        → c.sess ≢ d.sess
        → All (λ x. x.sess ≢ d.sess) ds
        → All (λ x. x.sess ≢ d.sess) (ds ++ c ∷ [])
    snoc_all d ds n a = All-append _ ds (c ∷ []) a (n, tt)

    distinct_append :
        (ds : List AgentConn)
        → IsDistinct ds
        → All (λ d. d.sess ≢ c.sess) ds
        → IsDistinct (ds ++ c ∷ [])
    distinct_append [] d n = (tt, tt)
    distinct_append (x ∷ ds) d n =
        (snoc_all x ds (λ q. n.0 (sym q)) d.0, distinct_append ds d.1 n.1)

    alone_length :
        (ds : List AgentConn)
        → shared ≡ false
        → (not shared && not (is_nil ds)) ≡ false
        → length (ds ++ c ∷ []) ≤ 1
    alone_length [] e a = omega arith
    alone_length (x ∷ ds) e a = unfold is_nil in ground arith

-- What pool_conn does to a registry whose pool of `fp` is `live`.
pool_conn-Inv :
    (r : Registry) (fp : Bytes) (c : AgentConn)
    → Inv r
    → c.fp ≡ fp
    → find c.sess r.all ≡ some (record { fp = fp; joined = false })
    → (not (r.shared fp) && not (is_nil (r.by_fp fp))) ≡ false
    → leb max_shared_sessions (r.joined fp) ≡ false
    → Inv (pool_conn r fp (r.by_fp fp) c)
unfolding pool_conn
pool_conn-Inv r fp c v same waiting alone room =
    rw (waiting, join_tracked)
      (record {
        keys = mark_joined-IsMap c.sess r.all v.keys;
        pending_count = λ j. ground (
          arith,
          v.pending_count j,
          v.pending_count fp,
          bytes_eq→eq fp j,
          waiting,
          tally-mark_joined j false c.sess r.all v.keys,
        );
        joined_count = λ j. ground (
          arith,
          v.joined_count j,
          v.joined_count fp,
          bytes_eq→eq fp j,
          waiting,
          tally-mark_joined j true c.sess r.all v.keys,
        );
        pending_cap = λ j. ground (arith, v.pending_cap j, v.pending_cap fp);
        joined_cap = λ j. ground (arith, v.joined_cap j, room);
        pools =
            update_all (λ j cs. IsSound (mark_joined c.sess r.all) (r.shared j) j cs) r.by_fp fp _
              (append-IsSound r.all (r.shared fp) fp (r.by_fp fp) c (v.pools fp) same waiting alone)
              (λ j _.
                IsSound-map r.all _ (r.shared j) j (r.by_fp j) (mark_joined-IsPooled c.sess r.all j)
                  (v.pools j));
      })

register_live-Inv :
    (closed : ℕ → Bool) (fp : Bytes) (c : AgentConn) (r : Registry) (live : List AgentConn)
    → Inv r
    → r.by_fp fp ≡ live
    → c.fp ≡ fp
    → find c.sess r.all ≡ some (record { fp = fp; joined = false })
    → Inv (register_live closed fp c r live).0
unfolding register_live duplicate_locked
register_live-Inv closed fp c r live v pool same waiting =
    elim (Bool-cases (r.closing || closed c.sess)) [
      | inl e ↦ simp e v
      | inr e ↦ elim (Bool-cases (not (r.shared fp) && not (is_nil live))) [
        | inl dup ↦ simp (e, dup) v
        | inr alone ↦ elim (Bool-cases (leb max_shared_sessions (r.joined fp))) [
          | inl full ↦ simp (e, alone, full) v
          | inr room ↦
              simp (e, alone, room)
                (subst (λ l. Inv (pool_conn r fp l c)) pool
                  (pool_conn-Inv r fp c v same waiting (rw pool alone) room))
        ]
      ]
    ]

pub register_conn-Inv :
    (closed : ℕ → Bool) (fp : Bytes) (c : AgentConn) (r : Registry)
    → Inv r
    → c.fp ≡ fp
    → find c.sess r.all ≡ some (record { fp = fp; joined = false })
    → Inv (register_conn closed fp c r).0
unfolding register_conn live_locked
register_conn-Inv closed fp c r v same waiting =
    register_live-Inv closed fp c (live_locked closed fp r).0 (live_locked closed fp r).1
      (live_locked-Inv closed fp r v) (update_self r.by_fp fp _) same waiting

-- Dropping a session keeps what is pooled of the others.
erase-IsPooled :
    (s : ℕ) (m : List (ℕ × Tracked)) (fp : Bytes) (c : AgentConn)
    → c.sess ≢ s
    → IsPooled m fp c
    → IsPooled (erase s m) fp c
erase-IsPooled s m fp c other h = (h.0, ground (arith, h.1, find-erase s c.sess m))

All-both {ℓ κ μ} :
    {A : Type ℓ} (P : A → Type κ) (Q : A → Type μ) (xs : List A)
    → All P xs
    → All Q xs
    → All (λ x. P x × Q x) xs
All-both P Q [] h k = tt
All-both P Q (x ∷ xs) h k = ((h.0, k.0), All-both P Q xs h.1 k.1)

-- The pools after a drop, given that none of them holds the dropped session any more.
erase-IsSound :
    (s : ℕ) (m : List (ℕ × Tracked)) (shared : Bool) (fp : Bytes) (cs : List AgentConn)
    → All (λ d. d.sess ≢ s) cs
    → IsSound m shared fp cs
    → IsSound (erase s m) shared fp cs
erase-IsSound s m shared fp cs gone h = record {
  tracked =
      All-map _ _ (λ c p. erase-IsPooled s m fp c p.0 p.1) cs (All-both _ _ cs gone h.tracked);
  distinct = h.distinct;
  exclusive = h.exclusive;
}

-- Another fingerprint's pool does not hold the session.
other_pool :
    (s : ℕ) (m : List (ℕ × Tracked)) (t : Tracked) (j : Bytes) (cs : List AgentConn)
    → find s m ≡ some t
    → t.fp ≢ j
    → All (IsPooled m j) cs
    → All (λ d. d.sess ≢ s) cs
other_pool s m t j cs here other =
    All-map _ _ (λ d p q. other (ground (arith, ap (λ i. find i m) q, p.1, here))) cs

drop_pools :
    (s : ℕ) (r : Registry) (t : Tracked)
    → Inv r
    → find s r.all ≡ some t
    → (j : Bytes) → IsSound (erase s r.all) (r.shared j) j ((remove_locked t.fp s r).by_fp j)
unfolding remove_locked
drop_pools s r t v here =
    update_all (λ j cs. IsSound (erase s r.all) (r.shared j) j cs) r.by_fp t.fp _
      (erase-IsSound s r.all (r.shared t.fp) t.fp (remove_conn s (r.by_fp t.fp))
        (remove_conn-ne s (r.by_fp t.fp) (v.pools t.fp).distinct)
        (subst (IsSound r.all (r.shared t.fp) t.fp) (update_self r.by_fp t.fp _)
          ((remove_locked-Inv t.fp s r v).pools t.fp)))
      (λ j other.
        erase-IsSound s r.all (r.shared j) j (r.by_fp j)
          (other_pool s r.all t j (r.by_fp j) here other (v.pools j).tracked) (v.pools j))

pub drop-Inv : (s : ℕ) (r : Registry) → Inv r → Inv (drop s r)
unfolding drop
drop-Inv s r v = elim (Option-cases (find s r.all)) [
  | inl e ↦ rw (e, drop_tracked) v
  | inr (t, e) ↦
      rw (e, drop_tracked)
        (elim (Bool-cases t.joined) [
          | inl j ↦ simp j (record {
            keys = erase-IsMap s r.all v.keys;
            pending_count =
                λ i. ground (arith, v.pending_count i, tally-erase i false s r.all v.keys, e, j);
            joined_count = λ i. ground (
              arith,
              v.joined_count i,
              v.joined_count t.fp,
              bytes_eq→eq t.fp i,
              tally-erase i true s r.all v.keys,
              e,
              j,
            );
            pending_cap = v.pending_cap;
            joined_cap = λ i. ground (arith, v.joined_cap i, v.joined_cap t.fp);
            pools = drop_pools s r t v e;
          })
          | inr j ↦ simp j (record {
            keys = erase-IsMap s r.all v.keys;
            pending_count = λ i. ground (
              arith,
              v.pending_count i,
              v.pending_count t.fp,
              bytes_eq→eq t.fp i,
              tally-erase i false s r.all v.keys,
              e,
              j,
            );
            joined_count =
                λ i. ground (arith, v.joined_count i, tally-erase i true s r.all v.keys, e, j);
            pending_cap = λ i. ground (arith, v.pending_cap i, v.pending_cap t.fp);
            joined_cap = v.joined_cap;
            pools = drop_pools s r t v e;
          })
        ])
]
