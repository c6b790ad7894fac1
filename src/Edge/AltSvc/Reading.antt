-- ===== src/Edge/AltSvc/Reading.antt =====
-- internal/edge/altsvc.go, altSvcConn.Read: the bytes of a stream, in which the head of the first final
-- response gets the Alt-Svc line. What the reads of the stream below return is a list, which ends where
-- they fail. Reading/Passing is about any sequence of reads.
pub mod Passing
use coen.Base.{
  ℕ, zero, suc, ◌+◌, ◌*◌, Bool, true, false, not, ◌||◌, Option, none, some, List, [], ◌∷◌, ◌++◌,
  length, take, drop, if◌then◌else◌, ltb, Bytes,
}
use coen.Edge.AltSvc.{head_end, is_interim, with_alt_svc}

pub record AltSvcConn : Type 0 where
  pub value : Bytes
  pub replace : Bool
  pub pending : Bytes
  pub rest : Bytes
  pub done : Bool

abbrev pub new_alt_svc_conn : Bytes → Bool → AltSvcConn
new_alt_svc_conn value replace = record {
  value = value;
  replace = replace;
  pending = [];
  rest = [];
  done = false;
}

abbrev pub max_head_bytes : ℕ
max_head_bytes = 64 * 1024

-- Hand over `b`, and look_for_head no further.
abbrev pub hand_over : AltSvcConn → Bytes → AltSvcConn
hand_over a b = record a { pending = b; rest = []; done = true }

abbrev pub past_blank : ℕ → Bool → ℕ
past_blank end crlf = if crlf then end + 4 else end + 2

-- The switch on the head that ends at `end`.
pub at_head_end : AltSvcConn → Bytes → ℕ → Bool → AltSvcConn
at_head_end a buf end crlf =
    let next = past_blank end crlf in
    if not crlf || ltb max_head_bytes end
    then hand_over a buf
    else if is_interim (take end buf)
    then record a { pending = take next buf; rest = drop next buf }
    else hand_over a (with_alt_svc buf end a.value a.replace)

-- What the loop does with what it has collected; `none`: it reads on.
pub look_for_head : AltSvcConn → Bytes → Option AltSvcConn
unfolding at_head_end
look_for_head a buf = elim (head_end buf) [
  | some (end, crlf) ↦ some (at_head_end a buf end crlf)
  | none ↦ if ltb max_head_bytes (length buf) then some (hand_over a buf) else none
]

-- The loop, and the reads that it has left.
pub collect : AltSvcConn → Bytes → List Bytes → AltSvcConn × List Bytes
unfolding look_for_head
collect a buf [] = elim (look_for_head a buf) [ some b ↦ (b, []) | none ↦ (hand_over a buf, []) ]
collect a buf (c ∷ cs) =
    let more = collect a (buf ++ c) cs in
    elim (look_for_head a buf) [ some b ↦ (b, c ∷ cs) | none ↦ more ]

pub record ReadResult : Type 0 where
  pub conn : AltSvcConn
  pub below : List Bytes
  pub got : Option Bytes  -- none: an error

-- A read below, once the head is dealt with. What it returns fits the client's buffer.
pub read_below : AltSvcConn → List Bytes → ReadResult
read_below a [] = record { conn = a; below = []; got = none }
read_below a (c ∷ cs) = record { conn = a; below = cs; got = some c }

pub give_pending : ℕ → AltSvcConn → List Bytes → ReadResult
give_pending n a cs = record {
  conn = record a { pending = drop n a.pending };
  below = cs;
  got = some (take n a.pending);
}

-- After the loop; it has left nothing only where the stream below has failed at once.
pub after_collect : ℕ → Bytes → AltSvcConn × List Bytes → ReadResult
unfolding give_pending
after_collect n [] (a, cs) = record { conn = a; below = cs; got = none }
after_collect n (x ∷ xs) (a, cs) = give_pending n a cs

pub read_first : ℕ → AltSvcConn → List Bytes → ReadResult
unfolding collect after_collect
read_first n a cs =
    let out = collect (record a { rest = [] }) a.rest cs in after_collect n out.0.pending out

pub read_rest : ℕ → AltSvcConn → List Bytes → ReadResult
unfolding read_below read_first
read_rest n a cs = if a.done then read_below a cs else read_first n a cs

pub read_some : ℕ → Bytes → AltSvcConn → List Bytes → ReadResult
unfolding give_pending read_rest
read_some n [] a cs = read_rest n a cs
read_some n (x ∷ xs) a cs = give_pending n a cs

-- Read into a buffer of `n` bytes.
unfoldable pub read : ℕ → AltSvcConn → List Bytes → ReadResult
unfolding read_some
read n a cs = read_some n a.pending a cs

-- All that the client has got after reads into buffers of these sizes, and what is left.
pub record Run : Type 0 where
  pub out : Bytes
  pub conn : AltSvcConn
  pub below : List Bytes

abbrev pub bytes_of : Option Bytes → Bytes
bytes_of none = []
bytes_of (some b) = b

abbrev pub gives : Bytes → Run → Run
gives b r = record r { out = b ++ r.out }

pub reads : List ℕ → AltSvcConn → List Bytes → Run
reads [] a cs = record { out = []; conn = a; below = cs }
reads (n ∷ ns) a cs = let r = read n a cs in gives (bytes_of r.got) (reads ns r.conn r.below)
