-- ===== src/Socket.antt =====
-- includes/kernel/obj/socket.h and obj/socket.cpp: a pair of byte streams, one ring for each
-- direction, indexed by the side that reads it. Each operation holds the pair's lock throughout, so
-- it is one step. An operation of an endpoint takes both ends and returns both.
pub mod Stream
pub mod Ring
pub mod Invariant
pub mod Calls
pub mod Refine
pub mod Run
mod Tests
use archipelago.Prelude.{
  ℕ, ◌+◌, ◌-◌, ◌%◌, ◌≡◌, Bool, true, false, not, Option, none, some, List, [], ◌∷◌, ◌++◌, ltb, ◌==◌,
  if◌then◌else◌, length, take, drop, Errc, Result, ok, err, fault,
}
use archipelago.Prelude.Errc.{oom, capacity_exhausted, would_block, peer_closed}
use archipelago.Prelude.Window.{memcpy}
use archipelago.Object.{signal_set, signal_clear}

abbrev pub buffer_bytes : ℕ
buffer_bytes = 4096

abbrev pub signal_readable : ℕ
signal_readable = 1

abbrev pub signal_writable : ℕ
signal_writable = 2

abbrev pub signal_peer_closed : ℕ
signal_peer_closed = 4

-- `byte_ring`, with the bytes of its page.
pub record ByteRing : Type 0 where
  pub page : List ℕ
  pub head : ℕ
  pub count : ℕ

-- One endpoint: whether `ends[side]` is not null, its signal bits, and the ring that it reads.
pub record End : Type 0 where
  pub alive : Bool
  pub signals : ℕ
  pub inbound : ByteRing

-- `socket_state`, with the signal words of its two sockets.
pub record SocketState : Type 0 where
  pub first : End
  pub second : End

pub data Side : Type 0 where
  first second : Side

abbrev pub fresh_end : List ℕ → End
fresh_end page = record {
  alive = true;
  signals = signal_set 0 signal_writable;
  inbound = record { page = page; head = 0; count = 0 };
}

-- `create`: `page0` and `page1` are what the page allocator gives, and the tests say whether the
-- shared state and the two sockets could be allocated.
pub create : Bool → Option (List ℕ) → Option (List ℕ) → Bool → Bool → Result SocketState
create false page0 page1 made0 made1 = err oom
create true none page1 made0 made1 = err oom
create true (some a) none made0 made1 = err oom
create true (some a) (some b) false made1 = err oom
create true (some a) (some b) true false = err oom
create true (some a) (some b) true true = ok (record { first = fresh_end a; second = fresh_end b })

-- `~Socket` of the end `mine`: the peer, if there is one, sees the hang-up.
unfoldable pub hang_up : End → End → End × End
hang_up mine peer = (
  record mine { alive = false },
  if peer.alive
      then record peer {
        signals = signal_set (signal_clear peer.signals signal_writable) signal_peer_closed;
      }
      else peer,
)

-- The bytes that `write` copies into the ring, in at most two runs.
unfoldable pub fill : ByteRing → List ℕ → ℕ → ByteRing
fill ring src n =
    let tail = (ring.head + ring.count) % buffer_bytes in
    let first_run = if ltb n (buffer_bytes - tail) then n else buffer_bytes - tail in
    let page' = memcpy ring.page tail (take first_run src) in
    record ring {
      page = memcpy page' 0 (take (n - first_run) (drop first_run src));
      count = ring.count + n;
    }

unfoldable pub write_ends : End → End → List ℕ → Result ℕ × End × End
write_ends mine peer src =
    let ring = peer.inbound in
    let space = buffer_bytes - ring.count in
    let n = if ltb (length src) space then length src else space in
    let ring' = fill ring src n in
    if not peer.alive
    then (err peer_closed, mine, peer)
    else if length src == 0
    then (ok 0, mine, peer)
    else if space == 0
    then (err capacity_exhausted, mine, peer)
    else (
      ok n,
      if ring'.count == buffer_bytes
          then record mine { signals = signal_clear mine.signals signal_writable }
          else mine,
      record peer { signals = signal_set peer.signals signal_readable; inbound = ring' },
    )

-- The bytes that `read` copies out, in at most two runs.
unfoldable pub drained : ByteRing → ℕ → List ℕ
drained ring n =
    let first_run = if ltb n (buffer_bytes - ring.head) then n else buffer_bytes - ring.head in
    take first_run (drop ring.head ring.page) ++ take (n - first_run) ring.page

-- The result is the bytes that land in `out`; the source returns their number.
unfoldable pub read_ends : End → End → ℕ → Result (List ℕ) × End × End
read_ends mine peer capacity =
    let ring = mine.inbound in
    let n = if ltb capacity ring.count then capacity else ring.count in
    let ring' = record ring { head = (ring.head + n) % buffer_bytes; count = ring.count - n } in
    if ring.count == 0
    then (err (if peer.alive then would_block else peer_closed), mine, peer)
    else if capacity == 0
    then (ok [], mine, peer)
    else (
      ok (drained ring n),
      record mine {
        signals =
            if ring'.count == 0 then signal_clear mine.signals signal_readable else mine.signals;
        inbound = ring';
      },
      if ring.count == buffer_bytes
          then if peer.alive
            then record peer { signals = signal_set peer.signals signal_writable }
            else peer
          else peer,
    )

unfoldable pub write : Side → SocketState → List ℕ → Result ℕ × SocketState
write first s src =
    let (r, mine, peer) = write_ends s.first s.second src in
    (r, record { first = mine; second = peer })
write second s src =
    let (r, mine, peer) = write_ends s.second s.first src in
    (r, record { first = peer; second = mine })

unfoldable pub read : Side → SocketState → ℕ → Result (List ℕ) × SocketState
read first s capacity =
    let (r, mine, peer) = read_ends s.first s.second capacity in
    (r, record { first = mine; second = peer })
read second s capacity =
    let (r, mine, peer) = read_ends s.second s.first capacity in
    (r, record { first = peer; second = mine })

unfoldable pub close : Side → SocketState → SocketState
close first s =
    let (mine, peer) = hang_up s.first s.second in record { first = mine; second = peer }
close second s =
    let (mine, peer) = hang_up s.second s.first in record { first = peer; second = mine }
