-- ===== src/Channel.antt =====
-- includes/kernel/obj/channel.h and obj/channel.cpp: a pair of message queues, one for each
-- direction, indexed by the side that reads it. Handles in a message are entries of the kernel
-- task's handle table, the `escrow`, which every operation that drops a message takes and returns.
-- Each operation is one step under the pair's lock. The source closes the handles of a dropped
-- message outside that lock; what the destructors of their objects do is not modelled.
pub mod Queue
pub mod Mailbox
pub mod Escrow
pub mod Refine
pub mod Invariant
mod Tests
use archipelago.Prelude.{
  ℕ, zero, suc, ◌+◌, ◌-◌, ◌%◌, ◌^◌, Bool, true, false, not, ◌&&◌, ◌||◌, Option, none, some, List,
  [], ◌∷◌, ◌++◌, ltb, ◌==◌, if◌then◌else◌, length, get_elem?, set, take, replicate, Errc, Result,
  ok, err, fault,
}
use archipelago.Prelude.Errc.{
  oom, out_of_range, capacity_exhausted, would_block, peer_closed, truncated, invalid_operation,
}
use archipelago.Object.{Object, signal_set, signal_clear}
use archipelago.Object.TypeIds
use archipelago.HandleTable
use archipelago.HandleTable.{HandleId, HandleTable}

abbrev pub max_message_bytes : ℕ
max_message_bytes = 4096

abbrev pub queue_depth : ℕ
queue_depth = 8

abbrev pub max_handles : ℕ
max_handles = 4

-- The signal bits of a channel, from includes/abi/syscall.h.
abbrev pub signal_readable : ℕ
signal_readable = 1

abbrev pub signal_writable : ℕ
signal_writable = 2

abbrev pub signal_peer_closed : ℕ
signal_peer_closed = 4

-- `MessageBuffer`: its bytes, which stand for `m_page` and `m_length`, and the first
-- `m_handle_count` of `m_handles`.
pub record Message : Type 0 where
  pub bytes : List ℕ
  pub handles : List HandleId

abbrev pub no_message : Message
no_message = record { bytes = []; handles = [] }

-- `MessageBuffer::create`: `page` is what the page allocator gives, if it is asked.
unfoldable pub create_message : Option (List ℕ) → ℕ → Result Message
create_message page size =
    if ltb max_message_bytes size
    then err out_of_range
    else if size == 0
    then ok no_message
    else elim page [ none ↦ err oom | some p ↦ ok (record { bytes = take size p; handles = [] }) ]

unfoldable pub attach_handle : Message → HandleId → Bool × Message
attach_handle m id =
    if length m.handles == max_handles
    then (false, m)
    else (true, record m { handles = m.handles ++ id ∷ [] })

unfoldable pub detach_handles : Message → List HandleId × Message
detach_handles m = (m.handles, record m { handles = [] })

-- `release_handles`, and so the destructor of a message.
unfoldable pub release_handles : HandleTable → List HandleId → HandleTable
release_handles escrow [] = escrow
release_handles escrow (h ∷ hs) = release_handles (HandleTable.close escrow h).1 hs

-- `carries_endpoint_from_pair`: `pair_of` gives the shared state of a channel object.
unfoldable pub carries_endpoint : (Object → ℕ) → ℕ → HandleTable → List HandleId → Bool
carries_endpoint pair_of pair escrow [] = false
carries_endpoint pair_of pair escrow (h ∷ hs) =
    let rest = carries_endpoint pair_of pair escrow hs in
    elim (HandleTable.verify escrow h 0 TypeIds.invalid) [
      | ok v ↦ elim v.object [
        | none ↦ rest
        | some o ↦ o.type_id == TypeIds.channel && pair_of o == pair || rest
      ]
      | err e ↦ rest
      | fault ↦ rest
    ]

pub record MessageQueue : Type 0 where
  pub slots : List Message
  pub head : ℕ
  pub count : ℕ

-- One endpoint: whether `ends[side]` is not null, its signal bits, and the queue that it reads.
pub record End : Type 0 where
  pub alive : Bool
  pub signals : ℕ
  pub inbound : MessageQueue

-- `channel_state`, with the signal words of its two channels.
pub record ChannelState : Type 0 where
  pub first : End
  pub second : End

abbrev pub fresh_end : End
fresh_end = record {
  alive = true;
  signals = signal_set 0 signal_writable;
  inbound = record { slots = replicate queue_depth no_message; head = 0; count = 0 };
}

-- `create`: the tests say whether the shared state and the two channels could be allocated.
unfoldable pub create : Bool → Bool → Bool → Result ChannelState
create made_state made_first made_second =
    if not made_state
    then err oom
    else if not made_first || not made_second
    then err oom
    else ok (record { first = fresh_end; second = fresh_end })

-- `~Channel` of the end `mine`.
unfoldable pub hang_up : End → End → End × End
hang_up mine peer = (
  record mine { alive = false },
  if peer.alive
      then record peer {
        signals = signal_set (signal_clear peer.signals signal_writable) signal_peer_closed;
      }
      else peer,
)

-- What an operation leaves.
pub record After : Type 0 where
  pub escrow : HandleTable
  pub mine : End
  pub peer : End

-- The assignment of a message to a slot drops what the slot held.
unfoldable pub enqueue : HandleTable → MessageQueue → Message → HandleTable × MessageQueue
enqueue escrow queue message =
    let slot = (queue.head + queue.count) % queue_depth in
    (
      elim (get_elem? queue.slots slot) [
        | none ↦ escrow
        | some old ↦ release_handles escrow old.handles
      ],
      record queue { slots = set queue.slots slot message; count = queue.count + 1 },
    )

unfoldable pub write_ends : (Object → ℕ) → ℕ → HandleTable → End → End → Message → Result ℕ × After
write_ends pair_of pair escrow mine peer message =
    let refused : HandleTable = release_handles escrow message.handles in
    let queued : HandleTable × MessageQueue = enqueue escrow peer.inbound message in
    if carries_endpoint pair_of pair escrow message.handles
    then (err invalid_operation, record { escrow = refused; mine = mine; peer = peer })
    else if not peer.alive
    then (err peer_closed, record { escrow = refused; mine = mine; peer = peer })
    else if peer.inbound.count == queue_depth
    then (err capacity_exhausted, record { escrow = refused; mine = mine; peer = peer })
    else (
      ok 0,
      record {
        escrow = queued.0;
        mine =
            if queued.1.count == queue_depth
            then record mine { signals = signal_clear mine.signals signal_writable }
            else mine;
        peer = record peer {
          signals = signal_set peer.signals signal_readable;
          inbound = queued.1;
        };
      },
    )

-- The queue without its front message, whose slot is left empty by the move.
unfoldable pub dequeue : MessageQueue → MessageQueue
dequeue queue = record {
  slots = set queue.slots queue.head no_message;
  head = (queue.head + 1) % queue_depth;
  count = queue.count - 1;
}

-- `read` with a front message at hand.
unfoldable pub read_front : HandleTable → End → End → Message → ℕ → ℕ → Result Message × After
read_front escrow mine peer message max_bytes max_count =
    let oversized =
      ltb max_bytes (length message.bytes) || ltb max_count (length message.handles) in
    let mine' = record mine {
      signals =
          if (dequeue mine.inbound).count == 0
          then signal_clear mine.signals signal_readable
          else mine.signals;
      inbound = dequeue mine.inbound;
    } in
    let peer' : End =
      if mine.inbound.count == queue_depth && peer.alive
      then record peer { signals = signal_set peer.signals signal_writable }
      else peer in
    if oversized
    then (
      err truncated,
      record { escrow = release_handles escrow message.handles; mine = mine'; peer = peer' },
    )
    else (ok message, record { escrow = escrow; mine = mine'; peer = peer' })

unfoldable pub read_ends : HandleTable → End → End → ℕ → ℕ → Result Message × After
read_ends escrow mine peer max_bytes max_count =
    let idle : After = record { escrow = escrow; mine = mine; peer = peer } in
    if mine.inbound.count == 0
    then (err (if peer.alive then would_block else peer_closed), idle)
    else elim (get_elem? mine.inbound.slots mine.inbound.head) [
      | none ↦ (fault, idle)
      | some message ↦ read_front escrow mine peer message max_bytes max_count
    ]
