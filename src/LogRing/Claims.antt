-- ===== src/LogRing/Claims.antt =====
-- The steps of `reserve` keep the invariant.
use archipelago.Prelude.{
  ℕ, ◌+◌, ◌^◌, ◌≤◌, ◌<◌, ◌≡◌, sym, ap, ◌∙◌, subst, arith, true, false, ◌==◌, length, Bool-cases,
  inl, inr,
}
use archipelago.LogRing.{LogRing, is_full, drop_message, claim}
use archipelago.LogRing.Steps.{Stage, is_busy, System, at}
use archipelago.LogRing.Slots.{not_full, at_other, on_at}
use archipelago.LogRing.Invariant.{
  Held, Marked, Window, FlusherOk-keep, Inv, slot_of, claimed-waits,
}

module _ {T : Type 0} (capacity : ℕ) where
  won :
      (ring : LogRing T) (w : ℕ)
      → w < 2 ^ 63
      → (claim ring w).0 ≡ true
      → (w ≡ ring.write) × ((claim ring w).1 ≡ record ring { write = ring.write + 1 })
  unfolding claim
  won ring w small h = elim (Bool-cases (ring.write == w)) [
    | inl same ↦
        let e : w ≡ ring.write = ground (arith, same) in
        (
          e,
          subst (λ x. (claim ring x).1 ≡ record ring { write = ring.write + 1 }) (sym e)
              (ground (arith, e, small)),
        )
    | inr other ↦ absurd (ground (arith, other, h))
  ]

  claimed_write :
      (s : System T)
      → Inv capacity s
      → s.ring.write < s.ring.read + capacity
      → s.ring.write < 2 ^ 63
      → Inv capacity (record s {
        ring = record s.ring { write = s.ring.write + 1 };
        stage = at s.stage s.ring.write Stage.claimed;
      })
  claimed_write s v room small = record {
    low = omega (arith, v.low);
    high = omega (arith, room);
    small = omega (arith, small);
    held =
        on_at
          (λ x st. is_busy st ≡ true → Held capacity s.ring.read (s.ring.write + 1) s.ring.slots x)
          s.stage s.ring.write Stage.claimed
          (λ h. (v.low, omega arith, claimed-waits capacity s v room))
          (λ x n h. let (above, below, waits) = v.held x h in (above, omega (arith, below), waits));
    marked =
        on_at (λ x st. Marked st x (slot_of capacity s x)) s.stage s.ring.write Stage.claimed tt
          (λ x n. v.marked x);
    waiting = λ i h. let (above, below) = v.waiting i h in (above, omega (arith, below));
    retained = λ i h.
        let (place, value) = v.retained i h in
        (
          place,
          λ idle.
              on_at
                (λ x st.
                  is_busy st ≡ false
                  → (is_busy (s.stage x) ≡ false → (s.ring.slots i).value ≡ s.messages x)
                  → (s.ring.slots i).value ≡ s.messages x)
                s.stage s.ring.write Stage.claimed (λ k f. absurd (cc k)) (λ x n k f. f k)
                (s.ring.slots i).seq idle value,
        );
    window =
        on_at (λ x st. Window capacity (s.ring.write + 1) (is_busy st) x (slot_of capacity s x))
          s.stage s.ring.write Stage.claimed (λ k lt le. absurd (cc k))
          (λ x n k lt le. v.window x k (omega (arith, lt, n)) (omega (arith, le)));
    flusher =
        FlusherOk-keep s.ring.flushing s.ring.read s.ring.write (s.ring.write + 1) (length s.out) _
          _ _ _ s.flusher (omega arith) (λ h. h)
          (λ r b lt. (
            r,
            ap is_busy (at_other s.stage s.ring.write s.ring.read Stage.claimed (omega (arith, lt)))
                ∙ b,
          ))
          v.flusher;
    emitted = v.emitted;
  }

  pub dropped-Inv :
      (s : System T) → Inv capacity s → Inv capacity (record s { ring = drop_message s.ring })
  unfolding drop_message
  dropped-Inv s v = record {
    low = v.low;
    high = v.high;
    small = v.small;
    held = v.held;
    marked = v.marked;
    waiting = v.waiting;
    retained = v.retained;
    window = v.window;
    flusher = v.flusher;
    emitted = v.emitted;
  }

  pub claimed-Inv :
      (s : System T) (w r : ℕ)
      → capacity ≤ 2 ^ 63
      → Inv capacity s
      → r ≤ s.ring.read
      → is_full capacity w r ≡ false
      → (claim s.ring w).0 ≡ true
      → w < 2 ^ 63
      → Inv capacity (record s { ring = (claim s.ring w).1; stage = at s.stage w Stage.claimed })
  claimed-Inv s w r hc v old room c small =
      let (e, f) = won s.ring w small c in
      let (above, below) =
        not_full capacity w r hc small (omega (arith, old, v.low, v.small)) room in
      subst
        (λ (ring : LogRing T).
          Inv capacity (record s { ring = ring; stage = at s.stage w Stage.claimed }))
        (sym f)
        (subst
          (λ x. Inv capacity (record s {
            ring = record s.ring { write = s.ring.write + 1 };
            stage = at s.stage x Stage.claimed;
          }))
          (sym e) (claimed_write s v (omega (arith, e, below, old)) (omega (arith, e, small))))
