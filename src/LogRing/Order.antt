-- ===== src/LogRing/Order.antt =====
-- In every order of the accesses, what comes out is what was published, in the order of the numbers.
use archipelago.Prelude.{ℕ, ◌+◌, ◌%◌, ◌^◌, ◌≤◌, ◌≡◌, refl, arith, Bool, true, false, [], length}
use archipelago.LogRing.{SlotState, LogRing, is_ready}
use archipelago.LogRing.Steps.{Stage, is_busy, Flusher, System, Step, Run}
use archipelago.LogRing.Invariant.{Emitted, FlusherOk, Inv, slot_of}
use archipelago.LogRing.Slots.{same_slot}
use archipelago.LogRing.Claims.{dropped-Inv, claimed-Inv}
use archipelago.LogRing.Producers.{numbered-Inv, marked-Inv, filled-Inv, published-Inv}
use archipelago.LogRing.Flush.{started-Inv, emitted-Inv, cleared-Inv, advanced-Inv, stopped-Inv}

out-length :
    (flushing : Bool) (read write count : ℕ) (ready busy : Bool) (f : Flusher)
    → FlusherOk flushing read write count ready busy f
    → read ≤ write
    → (read ≤ count) × (count ≤ write)
out-length flushing read write count ready busy Flusher.resting h le =
    (omega (arith, h.1), omega (arith, h.1, le))
out-length flushing read write count ready busy Flusher.scanning h le =
    (omega (arith, h.1), omega (arith, h.1, le))
out-length flushing read write count ready busy Flusher.emitted h le =
    (omega (arith, h.1), omega (arith, h.1, h.3))
out-length flushing read write count ready busy Flusher.cleared h le =
    (omega (arith, h.1), omega (arith, h.1, h.4))

-- Every slot of an empty ring, with `value` as the payload that none has written.
abbrev pub empty_ring : {T : Type 0} → T → LogRing T
empty_ring value = record {
  write = 0;
  read = 0;
  dropped = 0;
  flushing = false;
  slots = λ i. record { state = SlotState.free; seq = 0; value = value };
}

abbrev pub boot : {T : Type 0} → T → System T
boot value = record {
  ring = empty_ring value;
  stage = λ x. Stage.none;
  flusher = Flusher.resting;
  messages = λ x. value;
  out = [];
}

module _ {T : Type 0} (capacity : ℕ) (small : capacity ≤ 2 ^ 63) where
  pub Step-Inv : (s t : System T) → Step capacity s t → Inv capacity s → Inv capacity t
  Step-Inv _ _ (Step.dropped s w r h) v = dropped-Inv capacity s v
  Step-Inv _ _ (Step.claimed s w r old room won below) v =
      claimed-Inv capacity s w r small v old room won below
  Step-Inv _ _ (Step.numbered s w h) v = numbered-Inv capacity s w v h
  Step-Inv _ _ (Step.marked s w h) v = marked-Inv capacity s w v h
  Step-Inv _ _ (Step.filled s w x h) v = filled-Inv capacity s w x v h
  Step-Inv _ _ (Step.published s w h) v = published-Inv capacity s w v h
  Step-Inv _ _ (Step.started s h) v = started-Inv capacity s v h
  Step-Inv _ _ (Step.emitted s h ready) v = emitted-Inv capacity s v h ready
  Step-Inv _ _ (Step.cleared s h) v = cleared-Inv capacity s v h
  Step-Inv _ _ (Step.advanced s h) v = advanced-Inv capacity s v h
  Step-Inv _ _ (Step.stopped s h ready) v = stopped-Inv capacity s v h

  pub Run-Inv : (s t : System T) → Run capacity s t → Inv capacity s → Inv capacity t
  Run-Inv _ _ (Run.done s) v = v
  Run-Inv _ _ (Run.step s u t first rest) v = Run-Inv u t rest (Step-Inv s u first v)

  pub boot-Inv : (value : T) → Inv capacity (boot value)
  boot-Inv value = record {
    low = omega arith;
    high = omega arith;
    small = omega arith;
    held = λ x h. absurd (cc h);
    marked = λ x. tt;
    waiting = λ i h. absurd (cc h);
    retained = λ i h. absurd (cc h);
    window = λ x idle lt le. absurd (omega (arith, lt));
    flusher = (refl, refl);
    emitted = tt;
  }

  -- What a run from an empty ring shows: the messages that came out are those published under the numbers from 0 on, each
  -- once and in order, they are all those below `read`, and at most `capacity` numbers are in use above it.
  pub record InOrder (s : System T) : Type 0 where
    pub emitted : Emitted s.messages s.out
    pub reached : s.ring.read ≤ length s.out
    pub claimed : length s.out ≤ s.ring.write
    pub fits : s.ring.write ≤ s.ring.read + capacity

  pub Run-InOrder : (value : T) (s : System T) → Run capacity (boot value) s → InOrder s
  Run-InOrder value s run =
      let v = Run-Inv (boot value) s run (boot-Inv value) in
      let (reached, claimed) = out-length _ _ _ _ _ _ s.flusher v.flusher v.low in
      record { emitted = v.emitted; reached = reached; claimed = claimed; fits = v.high }

  -- In a run from an empty ring, the slot that a producer is about to number, mark or fill holds no message that waits to come
  -- out, and no other producer holds a number with the same slot.
  pub Run-exclusive :
      (value : T) (s : System T) (w x : ℕ)
      → Run capacity (boot value) s
      → is_busy (s.stage w) ≡ true
      → is_busy (s.stage x) ≡ true
      → w % capacity ≡ x % capacity
      → (is_ready (slot_of capacity s w).state ≡ false) × (w ≡ x)
  Run-exclusive value s w x run hw hx e =
      let v = Run-Inv (boot value) s run (boot-Inv value) in
      let (above, below, waits) = v.held w hw in
      let (above', below', waits') = v.held x hx in
      (
        waits,
        same_slot capacity s.ring.read w x e above above' (omega (arith, below, v.high))
            (omega (arith, below', v.high)),
      )
