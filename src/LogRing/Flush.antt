-- ===== src/LogRing/Flush.antt =====
-- The steps of the flusher keep the invariant.
use archipelago.Prelude.{
  ℕ, ◌+◌, ◌%◌, ◌^◌, ◌<◌, ◌≡◌, ◌≢◌, refl, sym, ap, ◌∙◌, subst, arith, true, false, ◌∷◌, length,
  Bool-cases, inl, inr,
}
use archipelago.LogRing.{
  SlotState, Slot, LogRing, is_ready, put, at_ready, flush, advance, try_flush, end_flush,
}
use archipelago.LogRing.Steps.{is_busy, Flusher, System}
use archipelago.LogRing.Slots.{same_slot, put_same, put_other, put_either, on_put}
use archipelago.LogRing.Invariant.{
  Marked-free, Shown, Waiting, Retained, FlusherOk, Inv, slot_of, ready_retained,
}

module _ {T : Type 0} (capacity : ℕ) (s : System T) (v : Inv capacity s) where
  -- The slot at `read`, once it is ready, holds the message of that number.
  pub head_seq :
      is_ready (slot_of capacity s s.ring.read).state ≡ true
      → ((slot_of capacity s s.ring.read).seq ≡ s.ring.read) × (s.ring.read < s.ring.write)
  head_seq h =
      let (above, below) = v.waiting (s.ring.read % capacity) h in
      let (place, value) = v.retained (s.ring.read % capacity) (ready_retained _ h) in
      (
        same_slot capacity s.ring.read _ s.ring.read place above (omega arith)
            (omega (arith, below, v.high)) (omega (arith, above, below, v.high)),
        omega (arith, above, below),
      )

  -- The payload of that slot is the message of that number.
  pub head_value :
      is_ready (slot_of capacity s s.ring.read).state ≡ true
      → (slot_of capacity s s.ring.read).value ≡ s.messages s.ring.read
  head_value h =
      let (seq, lt) = head_seq h in
      let (place, value) = v.retained (s.ring.read % capacity) (ready_retained _ h) in
      elim (Bool-cases (is_busy (s.stage s.ring.read))) [
        | inl busy ↦ let z : true ≡ false = sym h ∙ (v.held s.ring.read busy).2 in absurd (cc z)
        | inr idle ↦ value (ap (λ x. is_busy (s.stage x)) seq ∙ idle) ∙ ap s.messages seq
      ]

  FlusherAt : Flusher → Type 0
  FlusherAt f =
      FlusherOk s.ring.flushing s.ring.read s.ring.write (length s.out)
        (is_ready (slot_of capacity s s.ring.read).state) (is_busy (s.stage s.ring.read)) f

  at_rest : (f : Flusher) → s.ring.flushing ≡ false → FlusherAt f → length s.out ≡ s.ring.read
  unfolding FlusherAt
  at_rest Flusher.resting h k = k.1
  at_rest Flusher.scanning h k = k.1
  at_rest Flusher.emitted h k = let z : true ≡ false = sym k.0 ∙ h in absurd (cc z)
  at_rest Flusher.cleared h k = let z : true ≡ false = sym k.0 ∙ h in absurd (cc z)

  pub started_ring :
      (try_flush s.ring).0 ≡ true
      → (s.ring.flushing ≡ false) × ((try_flush s.ring).1 ≡ record s.ring { flushing = true })
  unfolding try_flush
  started_ring h = elim (Bool-cases s.ring.flushing) [
    | inl busy ↦ absurd (ground (arith, busy, h))
    | inr idle ↦ (idle, rw (idle, try_flush) refl)
  ]

  pub started-Inv :
      (try_flush s.ring).0 ≡ true
      → Inv capacity (record s { ring = (try_flush s.ring).1; flusher = Flusher.scanning })
  unfolding FlusherAt
  started-Inv h =
      let (idle, e) = started_ring h in
      subst
        (λ (ring : LogRing T). Inv capacity (record s { ring = ring; flusher = Flusher.scanning }))
        (sym e)
        (record {
          low = v.low;
          high = v.high;
          small = v.small;
          held = v.held;
          marked = v.marked;
          waiting = v.waiting;
          retained = v.retained;
          window = v.window;
          flusher = (refl, at_rest s.flusher idle v.flusher);
          emitted = v.emitted;
        })

  -- What the flusher knows at a stage.
  standing : (f : Flusher) → s.flusher ≡ f → FlusherAt f
  unfolding FlusherAt
  standing f h = subst FlusherAt h v.flusher

  pub emitted-Inv :
      s.flusher ≡ Flusher.scanning
      → at_ready capacity s.ring s.ring.read ≡ true
      → Inv capacity (record s {
        flusher = Flusher.emitted;
        out = (slot_of capacity s s.ring.read).value ∷ s.out;
      })
  unfolding at_ready standing FlusherAt
  emitted-Inv h ready =
      let k = standing Flusher.scanning h in
      let (seq, lt) = head_seq ready in
      record {
        low = v.low;
        high = v.high;
        small = v.small;
        held = v.held;
        marked = v.marked;
        waiting = v.waiting;
        retained = v.retained;
        window = v.window;
        flusher = (k.0, omega (arith, k.1), ready, lt);
        emitted = (head_value ready ∙ ap s.messages (sym k.1), v.emitted);
      }

  pub cleared-Inv :
      s.flusher ≡ Flusher.emitted
      → Inv capacity
          (record s { ring = flush capacity s.ring s.ring.read; flusher = Flusher.cleared })
  unfolding flush standing FlusherAt
  cleared-Inv h =
      let k = standing Flusher.emitted h in
      let i = s.ring.read % capacity in
      let new : Slot T = record (s.ring.slots i) { state = SlotState.flushed } in
      record {
        low = v.low;
        high = v.high;
        small = v.small;
        held = λ x b.
            let (above, below, quiet) = v.held x b in
            (
              above,
              below,
              put_either (λ (t : Slot T). is_ready t.state ≡ false) s.ring.slots i (x % capacity)
                  new refl quiet,
            );
        marked = λ x.
            Marked-free (s.stage x) x (slot_of capacity s x) (put s.ring.slots i new (x % capacity))
              (λ b.
                let n : i ≢ x % capacity = λ e.
                  let z : true ≡ false =
                    sym k.2 ∙ (ap (λ j. is_ready (s.ring.slots j).state) e ∙ (v.held x b).2) in
                  absurd (cc z) in
                sym (put_other s.ring.slots i (x % capacity) new n))
              (v.marked x);
        window = λ x idle lt le.
            let old = v.window x idle lt le in
            on_put (λ j (t : Slot T). x % capacity ≡ j → Shown x t) s.ring.slots i new
              (λ e. (refl, ap (λ j. (s.ring.slots j).seq) (sym e) ∙ old.1))
              (λ j n e. subst (λ q. Shown x (s.ring.slots q)) e old) (x % capacity) refl;
        waiting =
            on_put (λ j (t : Slot T). Waiting s.ring.read s.ring.write t) s.ring.slots i new
              (λ z. absurd (cc z)) (λ j n. v.waiting j);
        retained =
            on_put (λ j (t : Slot T). Retained capacity s.stage s.messages j t) s.ring.slots i new
              (λ z. v.retained i (ready_retained _ k.2)) (λ j n. v.retained j);
        flusher = (
          k.0,
          k.1,
          ap (λ (t : Slot T). is_ready t.state) (put_same s.ring.slots i new),
          elim (Bool-cases (is_busy (s.stage s.ring.read))) [
            | inl busy ↦
                let z : true ≡ false = sym k.2 ∙ (v.held s.ring.read busy).2 in absurd (cc z)
            | inr idle ↦ idle
          ],
          k.3,
        );
        emitted = v.emitted;
      }

  pub advanced-Inv :
      s.flusher ≡ Flusher.cleared
      → Inv capacity (record s { ring = advance s.ring s.ring.read; flusher = Flusher.scanning })
  unfolding advance standing FlusherAt
  advanced-Inv h =
      let k = standing Flusher.cleared h in
      let e : (s.ring.read + 1) % 2 ^ 64 ≡ s.ring.read + 1 = omega (arith, k.4, v.small) in
      subst
        (λ r.
          Inv capacity (record s { ring = record s.ring { read = r }; flusher = Flusher.scanning }))
        (sym e)
        (record {
          low = omega (arith, k.4);
          high = omega (arith, v.high);
          small = v.small;
          held = λ x b.
              let (above, below, quiet) = v.held x b in
              let n : x ≢ s.ring.read = λ e.
                let z : true ≡ false = sym b ∙ (ap (λ y. is_busy (s.stage y)) e ∙ k.3) in
                absurd (cc z) in
              (omega (arith, above, n), below, quiet);
          marked = v.marked;
          waiting = λ i ready.
              let (above, below) = v.waiting i ready in
              let (place, value) = v.retained i (ready_retained _ ready) in
              let n : (s.ring.slots i).seq ≢ s.ring.read = λ e.
                let z : true ≡ false =
                  sym ready
                  ∙ (ap (λ j. is_ready (s.ring.slots j).state)
                        (sym place ∙ ap (λ q. q % capacity) e)
                      ∙ k.2) in
                absurd (cc z) in
              (omega (arith, above, n), below);
          retained = v.retained;
          window = v.window;
          flusher = (k.0, k.1);
          emitted = v.emitted;
        })

  pub stopped-Inv :
      s.flusher ≡ Flusher.scanning
      → Inv capacity (record s { ring = end_flush s.ring; flusher = Flusher.resting })
  unfolding end_flush standing FlusherAt
  stopped-Inv h =
      let k = standing Flusher.scanning h in
      record {
        low = v.low;
        high = v.high;
        small = v.small;
        held = v.held;
        marked = v.marked;
        waiting = v.waiting;
        retained = v.retained;
        window = v.window;
        flusher = (refl, k.1);
        emitted = v.emitted;
      }
