-- ===== src/Channel/Mailbox.antt =====
-- What a channel promises: bounded queues of messages, and what becomes of the handles in a message.
-- This is the specification that the slot rings refine.
use archipelago.Prelude.{
  ℕ, Bool, not, ◌||◌, List, [], ◌∷◌, ◌++◌, ltb, ◌==◌, if◌then◌else◌, length, Result, ok, err,
}
use archipelago.Prelude.Errc.{
  capacity_exhausted, would_block, peer_closed, truncated, invalid_operation,
}
use archipelago.HandleTable.{HandleTable}
use archipelago.Channel.{Message, release_handles}

-- One end: whether it is open, and the messages that wait to be read there, oldest first.
pub record Mailbox : Type 0 where
  pub alive : Bool
  pub queue : List Message

-- A message that is refused loses its handles; one that is accepted keeps them in escrow.
-- `own` says whether the message carries an end of this very channel.
unfoldable pub post : ℕ → Bool → HandleTable → Mailbox → Message → Result ℕ × HandleTable × Mailbox
post limit own escrow peer message =
    let dropped = release_handles escrow message.handles in
    if own
    then (err invalid_operation, dropped, peer)
    else if not peer.alive
    then (err peer_closed, dropped, peer)
    else if length peer.queue == limit
    then (err capacity_exhausted, dropped, peer)
    else (ok 0, escrow, record peer { queue = peer.queue ++ message ∷ [] })

-- The oldest message is handed out, or dropped with its handles if it is too large.
unfoldable pub fetch : HandleTable → Mailbox → Bool → ℕ → ℕ → Result Message × HandleTable × Mailbox
fetch escrow mine peer_alive max_bytes max_count = elim mine.queue [
  | [] ↦ (err (if peer_alive then would_block else peer_closed), escrow, mine)
  | message ∷ rest ↦
      if ltb max_bytes (length message.bytes) || ltb max_count (length message.handles)
      then (err truncated, release_handles escrow message.handles, record mine { queue = rest })
      else (ok message, escrow, record mine { queue = rest })
]
