-- ===== src/LogRing.antt =====
-- includes/kernel/log_ring.h: the ring of log messages, which every context writes without a lock and
-- one flusher at a time drains. Each function below is one access, or a run of accesses to a slot that
-- the caller owns; LogRing/Steps interleaves them. Sequence numbers are 64-bit words. `cap` is the
-- template argument `Capacity`, and the payload type is any.
pub mod Steps
pub mod Slots
pub mod Invariant
pub mod Producers
pub mod Claims
pub mod Flush
pub mod Order
pub mod Drain
pub mod Scan
mod Tests
use archipelago.Prelude.{
  ℕ, zero, suc, ◌+◌, ◌-◌, ◌%◌, ◌^◌, Bool, true, false, ◌&&◌, ◌||◌, not, Option, none, some, List,
  [], ◌∷◌, ◌==◌, ltb, leb, if◌then◌else◌,
}

pub data SlotState : Type 0 where
  free writing ready flushed : SlotState

abbrev pub is_free : SlotState → Bool
is_free SlotState.free = true
is_free SlotState.writing = false
is_free SlotState.ready = false
is_free SlotState.flushed = false

abbrev pub is_writing : SlotState → Bool
is_writing SlotState.free = false
is_writing SlotState.writing = true
is_writing SlotState.ready = false
is_writing SlotState.flushed = false

abbrev pub is_ready : SlotState → Bool
is_ready SlotState.free = false
is_ready SlotState.writing = false
is_ready SlotState.ready = true
is_ready SlotState.flushed = false

-- Whether the payload of a slot is a message that was published.
abbrev pub is_retained : SlotState → Bool
is_retained SlotState.free = false
is_retained SlotState.writing = false
is_retained SlotState.ready = true
is_retained SlotState.flushed = true

pub record Slot (T : Type 0) : Type 0 where
  pub state : SlotState
  pub seq : ℕ
  pub value : T

-- `log_ring`; the slot of index `i` stands at `slots i`.
pub record LogRing (T : Type 0) : Type 0 where
  pub write : ℕ
  pub read : ℕ
  pub dropped : ℕ
  pub flushing : Bool
  pub slots : ℕ → Slot T

-- `w - r` in 64 bits.
abbrev pub distance : ℕ → ℕ → ℕ
distance w r = (w + 2 ^ 64 - r) % 2 ^ 64

-- The test of `reserve` on the two counters it loaded.
unfoldable pub is_full : ℕ → ℕ → ℕ → Bool
is_full cap w r = leb cap (distance w r)

module _ {T : Type 0} where
  unfoldable pub put : (ℕ → Slot T) → ℕ → Slot T → ℕ → Slot T
  put slots i s j = if j == i then s else slots j

  unfoldable pub drop_message : LogRing T → LogRing T
  drop_message ring = record ring { dropped = ring.dropped + 1 }

  -- The exchange of `reserve`, which fails when another producer was faster.
  unfoldable pub claim : LogRing T → ℕ → Bool × LogRing T
  claim ring w =
      if ring.write == w then (true, record ring { write = (w + 1) % 2 ^ 64 }) else (false, ring)

  -- The first store to the slot that was claimed, its sequence number.
  unfoldable pub number : ℕ → LogRing T → ℕ → LogRing T
  number cap ring w = record ring {
    slots = put ring.slots (w % cap) (record (ring.slots (w % cap)) { seq = w });
  }

  -- The second store to the slot that was claimed, its state.
  unfoldable pub mark : ℕ → LogRing T → ℕ → LogRing T
  mark cap ring w = record ring {
    slots = put ring.slots (w % cap) (record (ring.slots (w % cap)) { state = SlotState.writing });
  }

  -- `reserve` when no other context runs between its accesses.
  unfoldable pub reserve : ℕ → LogRing T → Option ℕ × LogRing T
  reserve cap ring =
      let (won, claimed) = claim ring ring.write in
      if is_full cap ring.write ring.read
      then (none, drop_message ring)
      else if won
      then (some ring.write, mark cap (number cap claimed ring.write) ring.write)
      else (none, ring)

  -- The caller's write of the payload.
  unfoldable pub fill : ℕ → LogRing T → ℕ → T → LogRing T
  fill cap ring w value = record ring {
    slots = put ring.slots (w % cap) (record (ring.slots (w % cap)) { value = value });
  }

  unfoldable pub publish : ℕ → LogRing T → ℕ → LogRing T
  publish cap ring w = record ring {
    slots = put ring.slots (w % cap) (record (ring.slots (w % cap)) { state = SlotState.ready });
  }

  -- The exchange at the start of `drain`.
  unfoldable pub try_flush : LogRing T → Bool × LogRing T
  try_flush ring = if ring.flushing then (false, ring) else (true, record ring { flushing = true })

  -- The test of the loop of `drain`.
  unfoldable pub at_ready : ℕ → LogRing T → ℕ → Bool
  at_ready cap ring r = is_ready (ring.slots (r % cap)).state

  unfoldable pub flush : ℕ → LogRing T → ℕ → LogRing T
  flush cap ring r = record ring {
    slots = put ring.slots (r % cap) (record (ring.slots (r % cap)) { state = SlotState.flushed });
  }

  unfoldable pub advance : LogRing T → ℕ → LogRing T
  advance ring r = record ring { read = (r + 1) % 2 ^ 64 }

  unfoldable pub end_flush : LogRing T → LogRing T
  end_flush ring = record ring { flushing = false }

  -- `drain` when no other context runs, with the messages it emits; `fuel` bounds the loop.
  unfoldable pub drain_loop : ℕ → ℕ → LogRing T → ℕ → List T × LogRing T
  drain_loop cap zero ring r = ([], ring)
  drain_loop cap (suc fuel) ring r =
      let (later, drained) =
        drain_loop cap fuel (advance (flush cap ring r) r) ((r + 1) % 2 ^ 64) in
      if at_ready cap ring r then ((ring.slots (r % cap)).value ∷ later, drained) else ([], ring)

  unfoldable pub drain : ℕ → ℕ → LogRing T → List T × LogRing T
  drain cap fuel ring =
      let (won, taken) = try_flush ring in
      let (out, drained) = drain_loop cap fuel taken taken.read in
      if not won then ([], ring) else (out, end_flush drained)

  -- The first sequence number of the window that is retained.
  abbrev pub window_start : ℕ → LogRing T → ℕ
  window_start cap ring = if ltb cap ring.write then ring.write - cap else 0

  -- The loop of `for_each`, with `n` sequence numbers left: the messages visited and the result.
  unfoldable pub visit_from : ℕ → LogRing T → ℕ → ℕ → ℕ → List T × ℕ
  visit_from cap ring zero seq next = ([], next)
  visit_from cap ring (suc n) seq next =
      let s = ring.slots (seq % cap) in
      let hit = is_retained s.state && (s.seq == seq) in
      let (out, end) = visit_from cap ring n (seq + 1) (if hit then seq + 1 else next) in
      if hit then (s.value ∷ out, end) else (out, end)

  unfoldable pub for_each : ℕ → LogRing T → ℕ → List T × ℕ
  for_each cap ring min_seq =
      let start = window_start cap ring in
      let start' = if ltb start min_seq then min_seq else start in
      visit_from cap ring (ring.write - start') start' min_seq

  -- The loop of `crash_scan`: each slot visited and whether it is still being written.
  unfoldable pub crash_from : ℕ → LogRing T → ℕ → ℕ → List (T × Bool)
  crash_from cap ring zero seq = []
  crash_from cap ring (suc n) seq =
      let s = ring.slots (seq % cap) in
      let rest = crash_from cap ring n (seq + 1) in
      if is_writing s.state
      then (s.value, true) ∷ rest
      else if is_free s.state
      then rest
      else if not (s.seq == seq)
      then rest
      else (s.value, false) ∷ rest

  unfoldable pub crash_scan : ℕ → LogRing T → List (T × Bool) × LogRing T
  crash_scan cap ring =
      let start = window_start cap ring in
      (crash_from cap ring (ring.write - start) start, record ring { flushing = true })

  unfoldable pub size : LogRing T → ℕ
  size ring = distance ring.write ring.read
