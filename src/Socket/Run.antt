-- ===== src/Socket/Run.antt =====
-- Sequences of calls by the two sides of a socket pair, in any order.
use archipelago.Prelude.{
  ℕ, ◌≡◌, refl, ap, arith, true, false, List, [], ◌∷◌, if◌then◌else◌, Bool-cases, inl, inr, Result,
}
use archipelago.Socket.{
  End, SocketState, Side, first, second, buffer_bytes, hang_up, write, read, close,
}
use archipelago.Socket.Stream.{Stream, send, receive}
use archipelago.Socket.Invariant.{Inv, hang_up-Inv}
use archipelago.Socket.Calls.{write_ends-Inv, read_ends-Inv}
use archipelago.Socket.Refine.{stream, write_ends-send, read_ends-receive}

pub data Call : Type 0 where
  writes : Side → List ℕ → Call
  reads : Side → ℕ → Call
  closes : Side → Call

-- What the caller sees; `gone` for a call on a socket that no longer exists.
pub data Reply : Type 0 where
  wrote : Result ℕ → Reply
  got : Result (List ℕ) → Reply
  closed : Reply
  gone : Reply

abbrev pub end_of : Side → SocketState → End
end_of first s = s.first
end_of second s = s.second

abbrev pub swap : SocketState → SocketState
swap s = record { first = s.second; second = s.first }

-- A call on a socket that exists.
pub serve : SocketState → Call → Reply × SocketState
serve s (writes side src) = let (r, s') = write side s src in (wrote r, s')
serve s (reads side capacity) = let (r, s') = read side s capacity in (got r, s')
serve s (closes side) = (closed, close side s)

abbrev pub caller : Call → Side
caller (writes side src) = side
caller (reads side capacity) = side
caller (closes side) = side

pub call : SocketState → Call → Reply × SocketState
call s c = let out = serve s c in if (end_of (caller c) s).alive then out else (gone, s)

pub run : SocketState → List Call → List Reply
run s [] = []
run s (c ∷ cs) = let (r, s') = call s c in r ∷ run s' cs

-- The same calls on the two streams.
pub record Streams : Type 0 where
  pub first : Stream
  pub second : Stream

abbrev pub stream_of : Side → Streams → Stream
stream_of first s = s.first
stream_of second s = s.second

pub serve_streams : Streams → Call → Reply × Streams
serve_streams s (writes first src) =
    let (r, p) = send buffer_bytes s.second src in (wrote r, record s { second = p })
serve_streams s (writes second src) =
    let (r, p) = send buffer_bytes s.first src in (wrote r, record s { first = p })
serve_streams s (reads first capacity) =
    let (r, m) = receive s.first s.second capacity in (got r, record s { first = m })
serve_streams s (reads second capacity) =
    let (r, m) = receive s.second s.first capacity in (got r, record s { second = m })
serve_streams s (closes first) = (closed, record s { first = record s.first { alive = false } })
serve_streams s (closes second) = (closed, record s { second = record s.second { alive = false } })

pub call_streams : Streams → Call → Reply × Streams
call_streams s c =
    let out = serve_streams s c in if (stream_of (caller c) s).alive then out else (gone, s)

pub run_streams : Streams → List Call → List Reply
run_streams s [] = []
run_streams s (c ∷ cs) = let (r, s') = call_streams s c in r ∷ run_streams s' cs

abbrev pub streams : SocketState → Streams
streams s = record { first = stream s.first; second = stream s.second }

abbrev pub IsValid : SocketState → Type 0
IsValid s = Inv s.first s.second

Inv-swap : (a b : End) → Inv a b → Inv b a
Inv-swap a b v = record {
  ring = v.peer_ring;
  peer_ring = v.ring;
  signals = v.peer_signals;
  peer_signals = v.signals;
}

hang_up-stream :
    (mine peer : End)
    → let (m, p) = hang_up mine peer in
      (stream m ≡ record (stream mine) { alive = false }) × (stream p ≡ stream peer)
unfolding hang_up
hang_up-stream mine peer = (refl, ground arith)

serve_refines :
    (s : SocketState) (c : Call)
    → IsValid s
    → let (r, s') = serve s c in (r, streams s') ≡ serve_streams (streams s) c
unfolding serve serve_streams write read close
serve_refines s (writes first src) v = ground (arith, write_ends-send s.first s.second src v)
serve_refines s (writes second src) v =
    ground (arith, write_ends-send s.second s.first src (Inv-swap s.first s.second v))
serve_refines s (reads first capacity) v =
    ground (arith, read_ends-receive s.first s.second capacity v)
serve_refines s (reads second capacity) v =
    ground (arith, read_ends-receive s.second s.first capacity (Inv-swap s.first s.second v))
serve_refines s (closes first) v = ground (arith, hang_up-stream s.first s.second)
serve_refines s (closes second) v = ground (arith, hang_up-stream s.second s.first)

serve-IsValid :
    (s : SocketState) (c : Call)
    → (end_of (caller c) s).alive ≡ true
    → IsValid s
    → IsValid (serve s c).1
unfolding serve write read close
serve-IsValid s (writes first src) a v = write_ends-Inv s.first s.second src v
serve-IsValid s (writes second src) a v =
    Inv-swap _ _ (write_ends-Inv s.second s.first src (Inv-swap s.first s.second v))
serve-IsValid s (reads first capacity) a v = read_ends-Inv s.first s.second capacity a v
serve-IsValid s (reads second capacity) a v =
    Inv-swap _ _ (read_ends-Inv s.second s.first capacity a (Inv-swap s.first s.second v))
serve-IsValid s (closes first) a v = hang_up-Inv s.first s.second v
serve-IsValid s (closes second) a v =
    Inv-swap _ _ (hang_up-Inv s.second s.first (Inv-swap s.first s.second v))

stream-alive :
    (side : Side) (s : SocketState) → (stream_of side (streams s)).alive ≡ (end_of side s).alive
stream-alive first s = refl
stream-alive second s = refl

-- Every call on a valid pair keeps the invariant.
pub call-IsValid : (s : SocketState) (c : Call) → IsValid s → IsValid (call s c).1
unfolding call
call-IsValid s c v = elim (Bool-cases (end_of (caller c) s).alive) [
  | inl there ↦ rw there (serve-IsValid s c there v)
  | inr absent ↦ rw absent v
]

call_refines :
    (s : SocketState) (c : Call)
    → IsValid s
    → let (r, s') = call s c in (r, streams s') ≡ call_streams (streams s) c
unfolding call call_streams
call_refines s c v = ground (arith, stream-alive (caller c) s, serve_refines s c v)

-- No sequence of writes, reads and closes by the two sides tells a valid socket pair from two
-- bounded byte queues.
pub run_refines :
    (cs : List Call) (s : SocketState) → IsValid s → run s cs ≡ run_streams (streams s) cs
unfolding run run_streams
run_refines [] s v = refl
run_refines (c ∷ cs) s v =
    let one = call_refines s c v in
    let rest = run_refines cs (call s c).1 (call-IsValid s c v) in
    cc (ap (λ x. x.0) one, ap (λ x. x.1) one)
