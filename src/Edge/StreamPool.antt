-- ===== src/Edge/StreamPool.antt =====
-- internal/edge/h3pool.go: the tunnel streams that wait for the next HTTP/3 request of a connection.
-- An idleStream is a record with its identity `id`; its connection, agent and route are identities,
-- its tunnelStream is `ts`. The maps are functions. `all` lists the set p.all in the order of the
-- inserts, which stands for the order in which Go ranges over it. `taken` is "not in p.all": put
-- inserts a stream, and removeLocked deletes it, in the critical section that sets the flag. The pool
-- is never nil (New makes it). Closing a stream is in the result of an operation, as its `ts`.
pub mod Removal
pub mod Invariant
pub mod Clearing
pub mod Closing
pub mod Steps
pub mod Moves
pub mod Taking
pub mod Slots
mod Tests
use coen.Base.{
  ℕ, zero, suc, ◌+◌, ◌-◌, ◌≡◌, refl, Bool, true, false, not, ◌&&◌, ◌||◌, Option, none, some, List,
  [], ◌∷◌, ◌++◌, length, exists, keep, map, if◌then◌else◌, ltb, leb, ◌==◌, Bytes, bytes_eq, update,
}

pub record IdleStream : Type 0 where
  pub id : ℕ
  pub ts : ℕ
  pub conn : ℕ
  pub host : Bytes
  pub route : ℕ
  pub agent : ℕ

pub record ConnStreams : Type 0 where
  pub idle : Bytes → List IdleStream
  pub n : ℕ
  pub ended : Bool

pub record StreamPool : Type 0 where
  pub all : List IdleStream
  pub closed : Bool
  pub conns : ℕ → ConnStreams

abbrev pub max_kept_per_conn : ℕ
max_kept_per_conn = 32

pub no_streams : ConnStreams
no_streams = record { idle = λ _. []; n = 0; ended = false }

pub new_pool : StreamPool
unfolding no_streams
new_pool = record { all = []; closed = false; conns = λ _. no_streams }

-- The map of connections with the entry of one replaced.
abbrev pub set_conn : (ℕ → ConnStreams) → ℕ → ConnStreams → ℕ → ConnStreams
set_conn m k v j = if k == j then v else m j

-- What put reads besides the pool: whether a request waits for a slot of the route, and whether the
-- agent's session is retired.
pub record Pressure : Type 0 where
  pub slot_waiters : ℕ
  pub retired : Bool

-- The critical section of put: the new pool, and whether the stream is kept (else put closes it).
pub put : IdleStream → Pressure → StreamPool → StreamPool × Bool
put s w p =
    let cs = p.conns s.conn in
    if p.closed || (cs.ended || (leb max_kept_per_conn cs.n || (ltb 0 w.slot_waiters || w.retired)))
    then (p, false)
    else (
      record p {
        all = p.all ++ s ∷ [];
        conns =
            set_conn p.conns s.conn
              (record cs { idle = update cs.idle s.host (cs.idle s.host ++ s ∷ []); n = cs.n + 1 });
      },
      true,
    )

pub is_pooled : StreamPool → ℕ → Bool
is_pooled p i = exists (λ s. s.id == i) p.all

-- The loop of removeLocked, and `delete(p.all, is)`.
pub remove_id : ℕ → List IdleStream → List IdleStream
remove_id i [] = []
remove_id i (s ∷ ss) = if s.id == i then ss else s ∷ remove_id i ss

pub take_out : IdleStream → StreamPool → StreamPool
unfolding remove_id
take_out s p =
    let cs = p.conns s.conn in
    record p {
      all = remove_id s.id p.all;
      conns = set_conn p.conns s.conn (record cs {
        idle = update cs.idle s.host (remove_id s.id (cs.idle s.host));
        n = cs.n - 1;
      });
    }

pub remove_locked : IdleStream → StreamPool → StreamPool
unfolding is_pooled take_out
remove_locked s p = if is_pooled p s.id then take_out s p else p

-- The watcher of a stream, once its read has returned: the new pool, whether it closes the stream,
-- and `live`. `timed_out` says that nothing was read and the read ended by its deadline.
pub watch : IdleStream → Bool → StreamPool → StreamPool × Bool × Bool
unfolding remove_locked
watch s timed_out p =
    let taken = not (is_pooled p s.id) in (remove_locked s p, not taken, taken && timed_out)

-- removeWhereLocked: the new pool, and what it took out.
pub remove_each : (IdleStream → Bool) → List IdleStream → StreamPool → StreamPool × List IdleStream
unfolding remove_locked
remove_each ok [] p = (p, [])
remove_each ok (s ∷ ss) p =
    let (p', out) = remove_each ok ss (if ok s then remove_locked s p else p) in
    (p', if ok s then s ∷ out else out)

pub remove_where : (IdleStream → Bool) → StreamPool → StreamPool × List IdleStream
unfolding remove_each
remove_where ok p = remove_each ok p.all p

pub close_conn : ℕ → StreamPool → StreamPool × List IdleStream
unfolding remove_where
close_conn k p =
    remove_where (λ s. s.conn == k)
      (record p { conns = set_conn p.conns k (record (p.conns k) { ended = true }) })

pub close_agent : ℕ → StreamPool → StreamPool × List IdleStream
unfolding remove_where
close_agent a p = remove_where (λ s. s.agent == a) p

pub close_all : StreamPool → StreamPool × List IdleStream
unfolding remove_where
close_all p = remove_where (λ _. true) (record p { closed = true })

-- The search of evictRoute.
pub find_route : ℕ → List IdleStream → Option IdleStream
find_route r [] = none
find_route r (s ∷ ss) = let rest = find_route r ss in if s.route == r then some s else rest

-- evictRoute: the new pool, and the stream that it closes, if any.
pub evict_route : ℕ → StreamPool → StreamPool × Option IdleStream
unfolding find_route remove_locked
evict_route r p = elim (find_route r p.all) [
  | none ↦ (p, none)
  | some s ↦ (remove_locked s p, some s)
]

-- `list[len(list)-1]`
pub last_of : List IdleStream → Option IdleStream
last_of [] = none
last_of (s ∷ ss) = let rest = last_of ss in elim rest [ none ↦ some s | some l ↦ some l ]

-- What take reads of a stream once it is out of the pool: the `live` that its watcher set, whether its
-- session has closed, whether its agent is retired.
pub record Watched : Type 0 where
  pub live : IdleStream → Bool
  pub sess_closed : ℕ → Bool
  pub agent_retired : ℕ → Bool

pub is_usable : Watched → ℕ → IdleStream → Bool
is_usable w r s =
    w.live s && (s.route == r && (not (w.sess_closed s.agent) && not (w.agent_retired s.agent)))

-- take, with at most `fuel` rounds, from round `n` on: the new pool, the stream for the request, and the
-- streams closed on the way. The outer `none` means that the fuel ran out. After each critical section
-- the others use the pool, while take waits for the watcher: `others n` is what they make of it, and
-- `w n` what take then reads of the stream.
pub take_loop :
    ℕ
    → (ℕ → Watched)
    → (ℕ → StreamPool → StreamPool)
    → ℕ
    → ℕ
    → Bytes
    → ℕ
    → StreamPool
    → Option (StreamPool × Option IdleStream × List IdleStream)
unfolding last_of remove_locked is_usable
take_loop zero w others n k host r p = none
take_loop (suc fuel) w others n k host r p = elim (last_of ((p.conns k).idle host)) [
  | none ↦ some (p, none, [])
  | some s ↦
      let q = others n (remove_locked s p) in
      if is_usable (w n) r s
      then some (q, some s, [])
      else elim (take_loop fuel w others (n + 1) k host r q) [
        | none ↦ none
        | some (p', found, out) ↦ some (p', found, s ∷ out)
      ]
]

pub take :
    ℕ
    → (ℕ → Watched)
    → (ℕ → StreamPool → StreamPool)
    → ℕ
    → Bytes
    → ℕ
    → StreamPool
    → Option (StreamPool × Option IdleStream × List IdleStream)
unfolding take_loop
take fuel w others k host r p = take_loop fuel w others 0 k host r p
