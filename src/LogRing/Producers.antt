-- ===== src/LogRing/Producers.antt =====
-- The steps of a producer that holds a number keep the invariant.
use archipelago.Prelude.{
  ℕ, ◌-◌, ◌%◌, ◌≤◌, ◌<◌, ◌≡◌, ◌≢◌, refl, sym, ap, ◌∙◌, subst, arith, Bool, true, false, List, [],
  ◌∷◌, length,
}
use archipelago.LogRing.{Slot, is_ready, is_retained, put, number, mark, fill, publish}
use archipelago.LogRing.Steps.{Stage, is_busy, Flusher, System, at}
use archipelago.LogRing.Slots.{same_slot, put_same, put_other, at_same, at_other, on_put, on_at}
use archipelago.LogRing.Invariant.{
  Held, Marked, Marked-free, Waiting, Retained, Shown, Window, Emitted, FlusherOk, FlusherOk-keep,
  Inv, slot_of, ready_retained,
}

-- What is out was numbered below what a producer holds.
out-le :
    (flushing : Bool) (read write count w : ℕ) (ready busy : Bool) (f : Flusher)
    → FlusherOk flushing read write count ready busy f
    → read ≤ w
    → (w ≡ read → (ready ≡ false) × (busy ≡ true))
    → count ≤ w
out-le flushing read write count w ready busy Flusher.resting h le held = omega (arith, h.1, le)
out-le flushing read write count w ready busy Flusher.scanning h le held = omega (arith, h.1, le)
out-le flushing read write count w ready busy Flusher.emitted h le held =
    let n : w ≢ read = λ e. let z : false ≡ true = sym (held e).0 ∙ h.2 in absurd (cc z) in
    omega (arith, h.1, le, n)
out-le flushing read write count w ready busy Flusher.cleared h le held =
    let n : w ≢ read = λ e. let z : true ≡ false = sym (held e).1 ∙ h.3 in absurd (cc z) in
    omega (arith, h.1, le, n)

module _ {T : Type 0} (capacity : ℕ) where
  Emitted-keep :
      (m m' : ℕ → T) (n : ℕ) (out : List T)
      → length out ≤ n
      → ((x : ℕ) → x < n → m' x ≡ m x)
      → Emitted m out
      → Emitted m' out
  Emitted-keep m m' n [] le same e = tt
  Emitted-keep m m' n (v ∷ out) le same e = (
    e.0 ∙ sym (same (length out) (omega (arith, le))),
    Emitted-keep m m' n out (omega (arith, le)) same e.1,
  )

  -- A store of the producer of `w` to its slot, and its next stage.
  module _ (s : System T) (v : Inv capacity s) (w : ℕ) (stage : Stage) (new : Slot T)
      (messages : ℕ → T) (busy : is_busy (s.stage w) ≡ true)
      (waits : is_busy stage ≡ true → is_ready new.state ≡ false) (marks : Marked stage w new)
      (kept : is_retained new.state ≡ true
        → (new.seq ≡ w) × (is_busy stage ≡ false → new.value ≡ messages w))
      (shows : is_busy stage ≡ false → Shown w new)
      (others : (x : ℕ) → w ≢ x → messages x ≡ s.messages x) where
    mine : Held capacity s.ring.read s.ring.write s.ring.slots w
    mine = v.held w busy

    apart : (x : ℕ) → w ≢ x → s.ring.read ≤ x → x < s.ring.write → w % capacity ≢ x % capacity
    apart x n above below e = n (
        same_slot capacity s.ring.read w x e mine.0 above (omega (arith, mine.1, v.high))
          (omega (arith, below, v.high)))

    slots : ℕ → Slot T
    slots = put s.ring.slots (w % capacity) new

    store-Held :
        (x : ℕ)
        → is_busy (at s.stage w stage x) ≡ true
        → Held capacity s.ring.read s.ring.write slots x
    unfolding slots
    store-Held =
        on_at (λ x st. is_busy st ≡ true → Held capacity s.ring.read s.ring.write slots x) s.stage w
          stage
          (λ h. (
            mine.0,
            mine.1,
            ap (λ (t : Slot T). is_ready t.state) (put_same s.ring.slots (w % capacity) new)
                ∙ waits h,
          ))
          (λ x n h.
            let (above, below, quiet) = v.held x h in
            (
              above,
              below,
              ap (λ (t : Slot T). is_ready t.state)
                    (put_other s.ring.slots (w % capacity) (x % capacity) new
                      (apart x n above below))
                  ∙ quiet,
            ))

    store-Marked : (x : ℕ) → Marked (at s.stage w stage x) x (slots (x % capacity))
    unfolding slots
    store-Marked =
        on_at (λ x st. Marked st x (slots (x % capacity))) s.stage w stage
          (subst (Marked stage w) (sym (put_same s.ring.slots (w % capacity) new)) marks)
          (λ x n.
            Marked-free (s.stage x) x (slot_of capacity s x) (slots (x % capacity))
              (λ h.
                let (above, below, quiet) = v.held x h in
                sym (
                  put_other s.ring.slots (w % capacity) (x % capacity) new (apart x n above below)))
              (v.marked x))

    store-Window :
        (x : ℕ)
        → Window capacity s.ring.write (is_busy (at s.stage w stage x)) x (slots (x % capacity))
    unfolding slots
    store-Window =
        on_at (λ x st. Window capacity s.ring.write (is_busy st) x (slots (x % capacity))) s.stage w
          stage
          (λ idle lt le.
            subst (Shown w) (sym (put_same s.ring.slots (w % capacity) new)) (shows idle))
          (λ x n idle lt le.
            let differs : w % capacity ≢ x % capacity = λ e. n (
              same_slot capacity (s.ring.write - capacity) w x e (omega (arith, mine.0, v.high))
                (omega (arith, le)) (omega (arith, mine.1)) (omega (arith, lt))) in
            subst (Shown x) (sym (put_other s.ring.slots (w % capacity) (x % capacity) new differs))
              (v.window x idle lt le))

    store-Waiting : (i : ℕ) → Waiting s.ring.read s.ring.write (slots i)
    unfolding slots
    store-Waiting =
        on_put (λ i (t : Slot T). Waiting s.ring.read s.ring.write t) s.ring.slots (w % capacity)
          new
          (λ h.
            let e = (kept (ready_retained new.state h)).0 in
            (omega (arith, e, mine.0), omega (arith, e, mine.1)))
          (λ i n. v.waiting i)

    store-Retained : (i : ℕ) → Retained capacity (at s.stage w stage) messages i (slots i)
    unfolding slots
    store-Retained =
        on_put (λ i (t : Slot T). Retained capacity (at s.stage w stage) messages i t) s.ring.slots
          (w % capacity) new
          (λ h.
            let (e, f) = kept h in
            (
              ap (λ q. q % capacity) e,
              λ idle.
                  f (
                    sym (ap is_busy (at_same s.stage w stage))
                    ∙ (ap (λ x. is_busy (at s.stage w stage x)) (sym e) ∙ idle))
                  ∙ ap messages (sym e),
            ))
          (λ i n h.
            let (place, value) = v.retained i h in
            let differs : w ≢ (s.ring.slots i).seq = λ e. n (ap (λ q. q % capacity) e ∙ place) in
            (
              place,
              λ idle.
                  value (
                    sym (ap is_busy (at_other s.stage w (s.ring.slots i).seq stage differs)) ∙ idle)
                  ∙ sym (others (s.ring.slots i).seq differs),
            ))

    store-flusher :
        FlusherOk s.ring.flushing s.ring.read s.ring.write
          (length s.out)
          (is_ready (slots (s.ring.read % capacity)).state)
          (is_busy (at s.stage w stage s.ring.read))
          s.flusher
    unfolding slots
    store-flusher =
        FlusherOk-keep s.ring.flushing s.ring.read s.ring.write s.ring.write (length s.out) _ _ _ _
          s.flusher (omega arith)
          (λ h.
            ap (λ (t : Slot T). is_ready t.state)
              (put_other s.ring.slots (w % capacity) (s.ring.read % capacity) new (λ e.
                let z : false ≡ true =
                  sym mine.2 ∙ (ap (λ i. is_ready (s.ring.slots i).state) e ∙ h) in
                absurd (cc z)))
            ∙ h)
          (λ h b lt.
            let n : w ≢ s.ring.read = λ e.
              let z : true ≡ false = sym busy ∙ (ap (λ x. is_busy (s.stage x)) e ∙ b) in
              absurd (cc z) in
            (
              ap (λ (t : Slot T). is_ready t.state)
                    (put_other s.ring.slots (w % capacity) (s.ring.read % capacity) new
                      (apart s.ring.read n (omega arith) lt))
                  ∙ h,
              ap is_busy (at_other s.stage w s.ring.read stage n) ∙ b,
            ))
          v.flusher

    store-Emitted : Emitted messages s.out
    store-Emitted =
        Emitted-keep s.messages messages w s.out
          (out-le s.ring.flushing s.ring.read s.ring.write (length s.out) w _ _ s.flusher v.flusher
            mine.0
            (λ e. (
              ap (λ x. is_ready (slot_of capacity s x).state) (sym e) ∙ mine.2,
              ap (λ x. is_busy (s.stage x)) (sym e) ∙ busy,
            )))
          (λ x lt. others x (omega (arith, lt))) v.emitted

    store-Inv : Inv capacity (record s {
      ring = record s.ring { slots = put s.ring.slots (w % capacity) new };
      stage = at s.stage w stage;
      messages = messages;
    })
    unfolding slots
    store-Inv = record {
      low = v.low;
      high = v.high;
      small = v.small;
      held = store-Held;
      marked = store-Marked;
      waiting = store-Waiting;
      retained = store-Retained;
      window = store-Window;
      flusher = store-flusher;
      emitted = store-Emitted;
    }

  pub numbered-Inv :
      (s : System T) (w : ℕ)
      → Inv capacity s
      → s.stage w ≡ Stage.claimed
      → Inv capacity
          (record s { ring = number capacity s.ring w; stage = at s.stage w Stage.numbered })
  unfolding number
  numbered-Inv s w v h =
      store-Inv s v w Stage.numbered _ s.messages (ap is_busy h) (λ k. (v.held w (ap is_busy h)).2)
        refl (λ k. (refl, λ z. absurd (cc z))) (λ k. absurd (cc k)) (λ x n. refl)

  pub marked-Inv :
      (s : System T) (w : ℕ)
      → Inv capacity s
      → s.stage w ≡ Stage.numbered
      → Inv capacity
          (record s { ring = mark capacity s.ring w; stage = at s.stage w Stage.writing })
  unfolding mark
  marked-Inv s w v h =
      let seq = subst (λ st. Marked st w (slot_of capacity s w)) h (v.marked w) in
      store-Inv s v w Stage.writing _ s.messages (ap is_busy h) (λ k. refl) (seq, refl)
        (λ k. absurd (cc k)) (λ k. absurd (cc k)) (λ x n. refl)

  pub filled-Inv :
      (s : System T) (w : ℕ) (value : T)
      → Inv capacity s
      → s.stage w ≡ Stage.writing
      → Inv capacity
          (record s { ring = fill capacity s.ring w value; stage = at s.stage w Stage.writing })
  unfolding fill
  filled-Inv s w value v h =
      let (seq, quiet) = subst (λ st. Marked st w (slot_of capacity s w)) h (v.marked w) in
      store-Inv s v w Stage.writing _ s.messages (ap is_busy h) (λ k. (v.held w (ap is_busy h)).2)
        (seq, quiet) (λ k. absurd (cc (k, quiet))) (λ k. absurd (cc k)) (λ x n. refl)

  pub published-Inv :
      (s : System T) (w : ℕ)
      → Inv capacity s
      → s.stage w ≡ Stage.writing
      → Inv capacity (record s {
        ring = publish capacity s.ring w;
        stage = at s.stage w Stage.none;
        messages = at s.messages w (slot_of capacity s w).value;
      })
  unfolding publish
  published-Inv s w v h =
      let (seq, quiet) = subst (λ st. Marked st w (slot_of capacity s w)) h (v.marked w) in
      store-Inv s v w Stage.none _ (at s.messages w (slot_of capacity s w).value) (ap is_busy h)
        (λ k. absurd (cc k)) tt
        (λ k. (seq, λ z. sym (at_same s.messages w (slot_of capacity s w).value)))
        (λ k. (refl, seq)) (λ x n. at_other s.messages w x (slot_of capacity s w).value n)
