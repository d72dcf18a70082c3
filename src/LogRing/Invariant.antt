-- ===== src/LogRing/Invariant.antt =====
-- What every order of the accesses keeps: no slot is written while its message waits, and messages come
-- out complete and in the order of their sequence numbers.
use archipelago.Prelude.{
  ℕ, ◌+◌, ◌%◌, ◌^◌, ◌≤◌, ◌<◌, ◌≡◌, refl, subst, arith, Bool, true, false, List, [], ◌∷◌, length,
  Bool-cases, inl, inr,
}
use archipelago.LogRing.{SlotState, Slot, is_ready, is_retained}
use archipelago.LogRing.Steps.{Stage, is_busy, Flusher, System}
use archipelago.LogRing.Slots.{same_slot}

-- What holds while the flusher stands at the number `read`: `count` messages are out, `ready` says whether
-- the slot of that number is, and `busy` whether a producer holds it.
abbrev pub FlusherOk : Bool → ℕ → ℕ → ℕ → Bool → Bool → Flusher → Type 0
FlusherOk flushing read write count ready busy Flusher.resting = (flushing ≡ false) × (count ≡ read)
FlusherOk flushing read write count ready busy Flusher.scanning = (flushing ≡ true) × (count ≡ read)
FlusherOk flushing read write count ready busy Flusher.emitted =
    (flushing ≡ true) × (count ≡ read + 1) × (ready ≡ true) × (read < write)
FlusherOk flushing read write count ready busy Flusher.cleared =
    (flushing ≡ true) × (count ≡ read + 1) × (ready ≡ false) × (busy ≡ false) × (read < write)

-- What producers do does not disturb the flusher.
pub FlusherOk-keep :
    (flushing : Bool) (read w w' count : ℕ) (ready ready' busy busy' : Bool) (f : Flusher)
    → w ≤ w'
    → (ready ≡ true → ready' ≡ true)
    → (ready ≡ false → busy ≡ false → read < w → (ready' ≡ false) × (busy' ≡ false))
    → FlusherOk flushing read w count ready busy f
    → FlusherOk flushing read w' count ready' busy' f
FlusherOk-keep flushing read w w' count ready ready' busy busy' Flusher.resting le r b h = h
FlusherOk-keep flushing read w w' count ready ready' busy busy' Flusher.scanning le r b h = h
FlusherOk-keep flushing read w w' count ready ready' busy busy' Flusher.emitted le r b h =
    (h.0, h.1, r h.2, omega (arith, h.3, le))
FlusherOk-keep flushing read w w' count ready ready' busy busy' Flusher.cleared le r b h =
    let (r', b') = b h.2 h.3 h.4 in (h.0, h.1, r', b', omega (arith, h.4, le))

pub ready_retained : (state : SlotState) → is_ready state ≡ true → is_retained state ≡ true
ready_retained SlotState.free h = h
ready_retained SlotState.writing h = h
ready_retained SlotState.ready h = h
ready_retained SlotState.flushed h = refl

module _ {T : Type 0} where
  abbrev pub slot_of : ℕ → System T → ℕ → Slot T
  slot_of capacity s x = s.ring.slots (x % capacity)

  -- What was emitted, the last first, are the messages in order.
  abbrev pub Emitted : (ℕ → T) → List T → Type 0
  Emitted messages [] = Unit {0}
  Emitted messages (v ∷ out) = (v ≡ messages (length out)) × Emitted messages out

  -- The slot of a sequence number that a producer holds.
  abbrev pub Held : ℕ → ℕ → ℕ → (ℕ → Slot T) → ℕ → Type 0
  Held capacity read write slots x =
      (read ≤ x) × (x < write) × (is_ready (slots (x % capacity)).state ≡ false)

  -- The slot of a number, by how far its producer is.
  abbrev pub Marked : Stage → ℕ → Slot T → Type 0
  Marked Stage.none x s = Unit {0}
  Marked Stage.claimed x s = Unit {0}
  Marked Stage.numbered x s = s.seq ≡ x
  Marked Stage.writing x s = (s.seq ≡ x) × (is_retained s.state ≡ false)

  -- Only the producer of a number relies on its slot.
  pub Marked-free :
      (st : Stage) (x : ℕ) (a b : Slot T)
      → (is_busy st ≡ true → a ≡ b)
      → Marked st x a
      → Marked st x b
  Marked-free Stage.none x a b e m = m
  Marked-free Stage.claimed x a b e m = m
  Marked-free Stage.numbered x a b e m = subst (Marked Stage.numbered x) (e refl) m
  Marked-free Stage.writing x a b e m = subst (Marked Stage.writing x) (e refl) m

  -- A message that waits for the flusher.
  abbrev pub Waiting : ℕ → ℕ → Slot T → Type 0
  Waiting read write s = is_ready s.state ≡ true → (read ≤ s.seq) × (s.seq < write)

  -- A message that was published stays with its number, in its place. A producer that stored the number
  -- of the next message and not yet the state leaves the payload of the last one there.
  abbrev pub Retained : ℕ → (ℕ → Stage) → (ℕ → T) → ℕ → Slot T → Type 0
  Retained capacity stage messages i s =
      is_retained s.state ≡ true
      → (s.seq % capacity ≡ i) × (is_busy (stage s.seq) ≡ false → s.value ≡ messages s.seq)

  -- The slot of a number that was published holds it.
  abbrev pub Shown : ℕ → Slot T → Type 0
  Shown x s = (is_retained s.state ≡ true) × (s.seq ≡ x)

  -- The `capacity` numbers below `write` that no producer holds are in their slots.
  abbrev pub Window : ℕ → ℕ → Bool → ℕ → Slot T → Type 0
  Window capacity write busy x s = busy ≡ false → x < write → write ≤ x + capacity → Shown x s

  pub record Inv (capacity : ℕ) (s : System T) : Type 0 where
    pub low : s.ring.read ≤ s.ring.write
    pub high : s.ring.write ≤ s.ring.read + capacity
    pub small : s.ring.write ≤ 2 ^ 63
    pub held :
        (x : ℕ) → is_busy (s.stage x) ≡ true → Held capacity s.ring.read s.ring.write s.ring.slots x
    pub marked : (x : ℕ) → Marked (s.stage x) x (slot_of capacity s x)
    pub waiting : (i : ℕ) → Waiting s.ring.read s.ring.write (s.ring.slots i)
    pub retained : (i : ℕ) → Retained capacity s.stage s.messages i (s.ring.slots i)
    pub window :
        (x : ℕ) → Window capacity s.ring.write (is_busy (s.stage x)) x (slot_of capacity s x)
    pub flusher :
        FlusherOk s.ring.flushing s.ring.read s.ring.write
          (length s.out)
          (is_ready (slot_of capacity s s.ring.read).state)
          (is_busy (s.stage s.ring.read))
          s.flusher
    pub emitted : Emitted s.messages s.out

  -- The slot of a number that was just claimed does not wait for the flusher.
  pub claimed-waits :
      (capacity : ℕ) (s : System T)
      → Inv capacity s
      → s.ring.write < s.ring.read + capacity
      → is_ready (slot_of capacity s s.ring.write).state ≡ false
  claimed-waits capacity s v h =
      elim (Bool-cases (is_ready (slot_of capacity s s.ring.write).state)) [
        | inl ready ↦
            let (above, below) = v.waiting (s.ring.write % capacity) ready in
            let (place, value) = v.retained (s.ring.write % capacity) (ready_retained _ ready) in
            absurd (
              omega (
                arith,
                below,
                same_slot capacity s.ring.read _ s.ring.write place above v.low
                    (omega (arith, below, v.high)) h,
              ))
        | inr waits ↦ waits
      ]
