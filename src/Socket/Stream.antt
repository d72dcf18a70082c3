-- ===== src/Socket/Stream.antt =====
-- What a socket pair promises: two bounded byte queues, each with the state of its two ends.
-- This is the specification that the rings refine.
use archipelago.Prelude.{
  ℕ, ◌-◌, Bool, not, List, [], ◌++◌, ◌==◌, if◌then◌else◌, length, take, drop, Result, ok, err, min,
}
use archipelago.Prelude.Errc.{capacity_exhausted, would_block, peer_closed}

-- One end: whether it is open, and the bytes that wait to be read there, oldest first.
pub record Stream : Type 0 where
  pub alive : Bool
  pub queue : List ℕ

unfoldable pub send : ℕ → Stream → List ℕ → Result ℕ × Stream
send limit peer src =
    let n = min (length src) (limit - length peer.queue) in
    if not peer.alive
    then (err peer_closed, peer)
    else if length src == 0
    then (ok 0, peer)
    else if limit - length peer.queue == 0
    then (err capacity_exhausted, peer)
    else (ok n, record peer { queue = peer.queue ++ take n src })

unfoldable pub receive : Stream → Stream → ℕ → Result (List ℕ) × Stream
receive mine peer capacity =
    let n = min capacity (length mine.queue) in
    if length mine.queue == 0
    then (err (if peer.alive then would_block else peer_closed), mine)
    else if capacity == 0
    then (ok [], mine)
    else (ok (take n mine.queue), record mine { queue = drop n mine.queue })
