-- ===== src/Socket/Refine.antt =====
-- The socket pair refines the bounded byte queues of `Stream`.
use archipelago.Prelude.{ℕ, ◌≡◌, sym, arith, List, length, Result, subst}
use archipelago.Socket.{End, buffer_bytes, write_ends, read_ends}
use archipelago.Socket.Stream.{Stream, send, receive}
use archipelago.Socket.Ring.{
  contents, length-contents, contents-fill, drained-take, contents-advanced,
}
use archipelago.Socket.Invariant.{Inv}
use archipelago.Socket.Calls.{
  Written, no_peer, nothing, full, some_sent, write_ends-Written, Readout, empty, no_room,
  some_read, read_ends-Readout,
}

abbrev pub stream : End → Stream
stream e = record { alive = e.alive; queue = contents e.inbound }

-- What a call shows: its result, and the two streams after it.
abbrev pub shown {ℓ} : {R : Type ℓ} → R × End × End → R × Stream × Stream
shown out = (out.0, stream out.1, stream out.2)

abbrev pub Sends : End → End → List ℕ → Result ℕ × End × End → Type 0
Sends mine peer src out =
    let (r, p) = send buffer_bytes (stream peer) src in shown out ≡ (r, stream mine, p)

-- In a valid pair, `write` does what `send` does to the peer's queue, and nothing to the caller's.
pub write_ends-send :
    (mine peer : End) (src : List ℕ)
    → Inv mine peer
    → Sends mine peer src (write_ends mine peer src)
unfolding send
write_ends-send mine peer src v = go (write_ends mine peer src) (write_ends-Written mine peer src)
  where
    l : length (contents peer.inbound) ≡ peer.inbound.count
    l = length-contents peer.inbound

    go : (out : Result ℕ × End × End) → Written mine peer src out → Sends mine peer src out
    go out (no_peer a e) = subst (Sends mine peer src) (sym e) (ground (arith, a))
    go out (nothing a b e) = subst (Sends mine peer src) (sym e) (ground (arith, a, b))
    go out (full a b c e) = subst (Sends mine peer src) (sym e) (ground (arith, a, b, c, l))
    go out (some_sent n a b c d e) =
        let q = contents-fill peer.inbound v.peer_ring src n (omega arith) (omega arith) in
        subst (Sends mine peer src) (sym e) (ground (arith, a, b, c, d, l, q))

abbrev pub Receives : End → End → ℕ → Result (List ℕ) × End × End → Type 0
Receives mine peer capacity out =
    let (r, m) = receive (stream mine) (stream peer) capacity in shown out ≡ (r, m, stream peer)

-- In a valid pair, `read` does what `receive` does to the caller's queue, and nothing to the peer's.
pub read_ends-receive :
    (mine peer : End) (capacity : ℕ)
    → Inv mine peer
    → Receives mine peer capacity (read_ends mine peer capacity)
unfolding receive
read_ends-receive mine peer capacity v =
    go (read_ends mine peer capacity) (read_ends-Readout mine peer capacity)
  where
    l : length (contents mine.inbound) ≡ mine.inbound.count
    l = length-contents mine.inbound

    go :
        (out : Result (List ℕ) × End × End)
        → Readout mine peer capacity out
        → Receives mine peer capacity out
    go out (empty a e) = subst (Receives mine peer capacity) (sym e) (ground (arith, a, l))
    go out (no_room a b e) = subst (Receives mine peer capacity) (sym e) (ground (arith, a, b, l))
    go out (some_read n a b d e) =
        let front = drained-take mine.inbound v.ring n (omega arith) in
        let rest = contents-advanced mine.inbound n v.ring (omega arith) in
        subst (Receives mine peer capacity) (sym e) (ground (arith, a, b, d, l, front, rest))
