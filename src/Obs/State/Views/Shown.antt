-- ===== src/Obs/State/Views/Shown.antt =====
-- internal/obs/state.go and routes.go: what Detail shows after any sequence of operations.
use mathlib.Core.List.{Perm}
use coen.Base.{
  ℕ, ◌+◌, ◌≡◌, refl, sym, ap, subst, ◌∙◌, ◌⊎◌, inl, inr, Bool, true, false, List, [], ◌∷◌, map,
  if◌then◌else◌, ltb, arith, Bytes, bytes_eq, bytes_eq→eq, bytes_eq_refl, Bool-cases,
}
use coen.Base.Sorting.{
  bytes_lt, bytes_lt_asym, bytes_lt_cotrans, bytes_lt_total, insert_by, sort_by, IsSortedBy, IsAsym,
  IsCotrans, sort_by-IsSortedBy, sort_by-Perm,
}
use coen.Obs.Routes.{RouteStats, byte_totals}
use coen.Obs.State.{State}
use coen.Obs.State.Views.{
  RouteSnapshot, Detail, route_snapshot, pattern_less, route_snapshots, sum_of, agent_info,
  agent_less, snapshot_of, detail,
}
use coen.Obs.State.Agreement.{StateOp, run, unrouted_opens, Agrees, run-Agrees, streams_of}

pattern_less-asym : IsAsym pattern_less
pattern_less-asym a b h = bytes_lt_asym a.pattern_text b.pattern_text h

pattern_less-cotrans : IsCotrans pattern_less
pattern_less-cotrans a b c h = bytes_lt_cotrans a.pattern_text b.pattern_text c.pattern_text h

abbrev fp_less : Bytes → ℕ → Bytes → ℕ → Bool
fp_less a m b n = if bytes_eq a b then ltb m n else bytes_lt a b

bytes_eq_sym : (a b : Bytes) → bytes_eq a b ≡ bytes_eq b a
bytes_eq_sym a b = ground (arith, bytes_eq→eq a b, bytes_eq→eq b a, bytes_eq_refl a)

fp_less-asym :
    (a : Bytes) (m : ℕ) (b : Bytes) (n : ℕ) → fp_less a m b n ≡ true → fp_less b n a m ≡ false
fp_less-asym a m b n h = ground (arith, bytes_eq_sym a b, bytes_lt_asym a b)

fp_less-cotrans :
    (a : Bytes) (m : ℕ) (b : Bytes) (n : ℕ) (c : Bytes) (k : ℕ)
    → fp_less a m c k ≡ true
    → (fp_less a m b n ≡ true) ⊎ (fp_less b n c k ≡ true)
fp_less-cotrans a m b n c k h = elim (Bool-cases (bytes_eq a b)) [
  | inl e ↦
      let q : a ≡ b = bytes_eq→eq a b e in
      subst (λ x. (fp_less a m x n ≡ true) ⊎ (fp_less x n c k ≡ true)) q
        (ground (arith, bytes_eq_refl a))
  | inr e ↦ elim (Bool-cases (bytes_eq b c)) [
    | inl f ↦
        let q : b ≡ c = bytes_eq→eq b c f in
        inl (
          subst (λ x. fp_less a m x n ≡ true) (sym q)
            (rw (sym (ap (bytes_eq a) q) ∙ e) (rw (sym (ap (bytes_eq a) q) ∙ e) at h)))
    | inr f ↦ ground (
      arith,
      bytes_eq→eq a c,
      bytes_eq_sym a b,
      bytes_eq_sym b c,
      bytes_lt_total a b,
      bytes_lt_cotrans a b c,
      bytes_eq_refl a,
    )
  ]
]

agent_less-asym : IsAsym agent_less
agent_less-asym a b h =
    fp_less-asym a.fingerprint a.connected_since b.fingerprint b.connected_since h

agent_less-cotrans : IsCotrans agent_less
agent_less-cotrans a b c h =
    fp_less-cotrans a.fingerprint a.connected_since b.fingerprint b.connected_since c.fingerprint
      c.connected_since h

sum_of-insert_by :
    (f : RouteSnapshot → ℕ) (r : RouteSnapshot) (rs : List RouteSnapshot)
    → sum_of f (insert_by pattern_less r rs) ≡ f r + sum_of f rs
unfolding sum_of
sum_of-insert_by f r [] = refl
sum_of-insert_by f r (x ∷ xs) = ground (arith, sum_of-insert_by f r xs)

-- Sorting keeps the sums.
sum_of-sort_by :
    (f : RouteSnapshot → ℕ) (rs : List RouteSnapshot)
    → sum_of f (sort_by pattern_less rs) ≡ sum_of f rs
unfolding sum_of
sum_of-sort_by f [] = refl
sum_of-sort_by f (r ∷ rs) =
    omega (arith, sum_of-insert_by f r (sort_by pattern_less rs), sum_of-sort_by f rs)

abbrev pub sum_routes : (RouteStats → ℕ) → List RouteStats → ℕ
sum_routes f [] = 0
sum_routes f (r ∷ rs) = f r + sum_routes f rs

sum_of-map :
    (f : RouteSnapshot → ℕ) (g : RouteStats → ℕ) (rs : List RouteStats)
    → ((r : RouteStats) → f (route_snapshot r) ≡ g r)
    → sum_of f (map route_snapshot rs) ≡ sum_routes g rs
unfolding sum_of
sum_of-map f g [] h = refl
sum_of-map f g (r ∷ rs) h = omega (arith, h r, sum_of-map f g rs h)

shown_sum :
    (f : RouteSnapshot → ℕ) (g : RouteStats → ℕ) (s : State)
    → ((r : RouteStats) → f (route_snapshot r) ≡ g r)
    → sum_of f (route_snapshots s) ≡ sum_routes g s.routes
unfolding route_snapshots
shown_sum f g s h = sum_of-sort_by f (map route_snapshot s.routes) ∙ sum_of-map f g s.routes h

streams_of-sum_routes : (rs : List RouteStats) → sum_routes (λ r. r.all_streams) rs ≡ streams_of rs
streams_of-sum_routes [] = refl
streams_of-sum_routes (r ∷ rs) = ap (λ (n : ℕ). r.all_streams + n) (streams_of-sum_routes rs)

pub record Shows (lost : ℕ) (s : State) (d : Detail) : Type 0 where
  pub routes_all : Perm d.routes (map route_snapshot s.routes)
  pub routes_sorted : IsSortedBy pattern_less d.routes
  pub agents_all : Perm d.view.agents (map (λ a. agent_info (s.sessions a)) s.agents)
  pub agents_sorted : IsSortedBy agent_less d.view.agents
  pub expected_all : Perm d.expected_agents s.expected
  pub expected_sorted : IsSortedBy bytes_lt d.expected_agents
  pub bytes_in : d.view.bytes_in ≡ sum_routes (λ r. (byte_totals r).0) s.routes
  pub bytes_out : d.view.bytes_out ≡ sum_routes (λ r. (byte_totals r).1) s.routes
  pub streams : d.view.total_streams ≡ sum_of (λ r. r.all_streams) d.routes + lost

-- After any sequence of operations on a new State, Detail shows every route once, sorted by pattern;
-- every session that is listed, once, sorted by fingerprint and then by when it connected; every
-- expected fingerprint once, sorted; byte totals that are the sums over all routes; and a total of
-- streams that is the sum of the totals of the routes shown and of the streams opened on no route.
pub detail-Shows :
    (role : Bytes) (now : ℕ) (ops : List StateOp)
    → Agrees (unrouted_opens role now ops) (run role now ops)
      × Shows (unrouted_opens role now ops) (run role now ops) (detail (run role now ops))
unfolding detail snapshot_of
detail-Shows role now ops = (
  g,
  record {
    routes_all = unfold route_snapshots in sort_by-Perm pattern_less _;
    routes_sorted =
        unfold route_snapshots in
        sort_by-IsSortedBy pattern_less pattern_less-asym pattern_less-cotrans
          (map route_snapshot s.routes);
    agents_all = sort_by-Perm agent_less _;
    agents_sorted =
        sort_by-IsSortedBy agent_less agent_less-asym agent_less-cotrans
          (map (λ a. agent_info (s.sessions a)) s.agents);
    expected_all = sort_by-Perm bytes_lt _;
    expected_sorted = sort_by-IsSortedBy bytes_lt bytes_lt_asym bytes_lt_cotrans s.expected;
    bytes_in =
        shown_sum (λ r. r.bytes_in) (λ r. (byte_totals r).0) s (λ r. unfold route_snapshot in refl);
    bytes_out =
        shown_sum (λ r. r.bytes_out) (λ r. (byte_totals r).1) s
          (λ r. unfold route_snapshot in refl);
    streams =
        rw
          (
            shown_sum (λ r. r.all_streams) (λ r. r.all_streams) s
                (λ r. unfold route_snapshot in refl),
            streams_of-sum_routes s.routes,
          )
          g.streams;
  },
)
  where
    s : State
    s = run role now ops

    g : Agrees (unrouted_opens role now ops) (run role now ops)
    g = run-Agrees role now ops
