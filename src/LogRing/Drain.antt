-- ===== src/LogRing/Drain.antt =====
-- `drain` when nothing else runs: the bound `capacity` on its loop is enough.
use archipelago.Prelude.{
  ℕ, zero, suc, ◌+◌, ◌%◌, ◌^◌, ◌≤◌, ◌≡◌, refl, ap, ◌∙◌, subst, arith, true, false, List, [], ◌∷◌,
  Bool-cases, inl, inr,
}
use archipelago.LogRing.{
  LogRing, is_ready, at_ready, flush, advance, try_flush, end_flush, drain_loop, drain,
}
use archipelago.LogRing.Steps.{Flusher, System}
use archipelago.LogRing.Invariant.{Inv, slot_of}
use archipelago.LogRing.Flush.{
  started-Inv, emitted-Inv, cleared-Inv, advanced-Inv, head_seq, head_value, started_ring,
}

module _ {T : Type 0} where
  -- The messages of `n` numbers from `seq` on.
  abbrev pub messages_from : (ℕ → T) → ℕ → ℕ → List T
  messages_from messages seq zero = []
  messages_from messages seq (suc n) = messages seq ∷ messages_from messages (seq + 1) n

  -- What a drain emitted and where it stopped.
  pub record Drained (capacity : ℕ) (s : System T) (out : List T) (ring : LogRing T) : Type 0 where
    pub count : ℕ
    pub emitted : out ≡ messages_from s.messages s.ring.read count
    pub reached : ring.read ≡ s.ring.read + count
    pub stopped : at_ready capacity ring ring.read ≡ false
    pub kept : ring.write ≡ s.ring.write

  abbrev after_one : ℕ → System T → System T
  after_one capacity s = record s {
    ring = advance (flush capacity s.ring s.ring.read) s.ring.read;
    out = (slot_of capacity s s.ring.read).value ∷ s.out;
    flusher = Flusher.scanning;
  }

  after_one-Inv :
      (capacity : ℕ) (s : System T)
      → Inv capacity s
      → s.flusher ≡ Flusher.scanning
      → at_ready capacity s.ring s.ring.read ≡ true
      → Inv capacity (after_one capacity s)
  unfolding flush
  after_one-Inv capacity s v h ready =
      let emitted = emitted-Inv capacity s v h ready in
      advanced-Inv capacity _ (cleared-Inv capacity _ emitted refl) refl

  drain_loop-Drained :
      (capacity fuel : ℕ) (s : System T)
      → Inv capacity s
      → s.flusher ≡ Flusher.scanning
      → s.ring.write ≤ s.ring.read + fuel
      → Drained capacity s
          (drain_loop capacity fuel s.ring s.ring.read).0
          (drain_loop capacity fuel s.ring s.ring.read).1
  unfolding drain_loop at_ready advance flush
  drain_loop-Drained capacity zero s v h enough = record {
    count = 0;
    emitted = refl;
    reached = omega arith;
    kept = refl;
    stopped = elim (Bool-cases (is_ready (slot_of capacity s s.ring.read).state)) [
      | inl ready ↦ absurd (omega (arith, (head_seq capacity s v ready).1, enough))
      | inr waits ↦ waits
    ];
  }
  drain_loop-Drained capacity (suc fuel) s v h enough =
      elim (Bool-cases (is_ready (slot_of capacity s s.ring.read).state)) [
        | inr waits ↦
            rw (waits, drain_loop)
              (record {
                count = 0;
                emitted = refl;
                reached = omega arith;
                kept = refl;
                stopped = waits;
              })
        | inl ready ↦
            let (seq, lt) = head_seq capacity s v ready in
            let e : (s.ring.read + 1) % 2 ^ 64 ≡ s.ring.read + 1 = omega (arith, lt, v.small) in
            let rest =
              drain_loop-Drained capacity fuel (after_one capacity s)
                (after_one-Inv capacity s v h ready) refl (omega (arith, e, enough)) in
            rw (ready, drain_loop)
              (record {
                count = suc rest.count;
                emitted =
                    ap
                      (λ x.
                        x
                        ∷ (drain_loop capacity fuel (after_one capacity s).ring
                            (after_one capacity s).ring.read).0)
                      (head_value capacity s v ready)
                    ∙ ap (λ xs. s.messages s.ring.read ∷ xs)
                        (rest.emitted ∙ ap (λ q. messages_from s.messages q rest.count) e);
                reached = omega (arith, rest.reached, e);
                kept = rest.kept;
                stopped = rest.stopped;
              })
      ]

  -- On a ring in order that nothing else uses, `drain` with `capacity` as the bound on its loop emits the messages of the
  -- numbers from `read` on, in order, and stops before the first that is not ready, where `read` then stands.
  pub drain-Drained :
      (capacity : ℕ) (s : System T)
      → Inv capacity s
      → s.ring.flushing ≡ false
      → Drained capacity s (drain capacity capacity s.ring).0 (drain capacity capacity s.ring).1
  unfolding drain try_flush end_flush at_ready
  drain-Drained capacity s v idle =
      let s' : System T = record s {
        ring = record s.ring { flushing = true };
        flusher = Flusher.scanning;
      } in
      let h : (try_flush s.ring).0 ≡ true = ground (arith, idle) in
      let v' : Inv capacity s' =
        subst
          (λ (ring : LogRing T).
            Inv capacity (record s { ring = ring; flusher = Flusher.scanning }))
          (started_ring capacity s v h).1 (started-Inv capacity s v h) in
      let d = drain_loop-Drained capacity capacity s' v' refl v.high in
      rw (idle, drain)
        (record {
          count = d.count;
          emitted = d.emitted;
          reached = d.reached;
          stopped = d.stopped;
          kept = d.kept;
        })
