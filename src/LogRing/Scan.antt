-- ===== src/LogRing/Scan.antt =====
-- The scans of the retained window.
use archipelago.Prelude.{
  ℕ, zero, suc, ◌+◌, ◌-◌, ◌%◌, ◌≤◌, ◌<◌, ◌≡◌, sym, ap, ◌∙◌, subst, arith, true, false, List, [],
  ◌∷◌, ◌==◌, ltb, Bool-cases, inl, inr,
}
use Prim.Native.Nat.{max}
use archipelago.LogRing.{is_retained, window_start, visit_from, for_each}
use archipelago.LogRing.Steps.{is_busy, System}
use archipelago.LogRing.Invariant.{Inv, slot_of}

module _ {T : Type 0} (capacity : ℕ) (s : System T) where
  -- A walk over the numbers from `low` to `write`, with one past the last number that was visited, or
  -- `next` where there is none. Every number that no producer holds is visited, with the message that was
  -- published under it. One that a producer holds is left out, or visited with what its slot has: the
  -- message of an earlier number, where the producer stands between its two stores.
  pub data Visits : ℕ → ℕ → List T × ℕ → Type 0 where
    finished : (low next : ℕ) → low ≡ s.ring.write → Visits low next ([], next)
    visit :
        (low next : ℕ) (out : List T) (end : ℕ)
        → low < s.ring.write
        → is_busy (s.stage low) ≡ false
        → Visits (low + 1) (low + 1) (out, end)
        → Visits low next (s.messages low ∷ out, end)
    held_out :
        (low next : ℕ) (o : List T × ℕ)
        → is_busy (s.stage low) ≡ true
        → Visits (low + 1) next o
        → Visits low next o
    held_shown :
        (low next : ℕ) (out : List T) (end : ℕ)
        → is_busy (s.stage low) ≡ true
        → Visits (low + 1) (low + 1) (out, end)
        → Visits low next ((slot_of capacity s low).value ∷ out, end)

  module _ (v : Inv capacity s) where
    published :
        (low next : ℕ) (o : List T × ℕ)
        → low < s.ring.write
        → s.ring.write ≤ low + capacity
        → is_busy (s.stage low) ≡ false
        → Visits (low + 1) (low + 1) o
        → Visits low next ((slot_of capacity s low).value ∷ o.0, o.1)
    published low next o lt le idle rest =
        let (kept, seq) = v.window low idle lt le in
        let (place, value) = v.retained (low % capacity) kept in
        let e : (slot_of capacity s low).value ≡ s.messages low =
          value (ap (λ x. is_busy (s.stage x)) seq ∙ idle) ∙ ap s.messages seq in
        subst (λ x. Visits low next (x ∷ o.0, o.1)) (sym e)
          (Visits.visit low next o.0 o.1 lt idle rest)

    visit_from-Visits :
        (n low next : ℕ)
        → low + n ≡ s.ring.write
        → s.ring.write ≤ low + capacity
        → Visits low next (visit_from capacity s.ring n low next)
    unfolding visit_from
    visit_from-Visits zero low next e le = Visits.finished low next (omega (arith, e))
    visit_from-Visits (suc n) low next e le =
        let rest = visit_from-Visits n (low + 1) (low + 1) (omega (arith, e)) (omega (arith, le)) in
        let skipped = visit_from-Visits n (low + 1) next (omega (arith, e)) (omega (arith, le)) in
        elim (Bool-cases (is_busy (s.stage low))) [
          | inr idle ↦
              let (kept, seq) = v.window low idle (omega (arith, e)) le in
              let same : ((slot_of capacity s low).seq == low) ≡ true = ground (arith, seq) in
              rw (kept, visit_from)
                (rw (same, visit_from) (published low next _ (omega (arith, e)) le idle rest))
          | inl busy ↦ elim (Bool-cases (is_retained (slot_of capacity s low).state)) [
            | inr hidden ↦ rw (hidden, visit_from) (Visits.held_out low next _ busy skipped)
            | inl kept ↦ elim (Bool-cases ((slot_of capacity s low).seq == low)) [
              | inr other ↦
                  rw (kept, visit_from)
                    (rw (other, visit_from) (Visits.held_out low next _ busy skipped))
              | inl same ↦
                  rw (kept, visit_from)
                    (rw (same, visit_from) (Visits.held_shown low next _ _ busy rest))
            ]
          ]
        ]

    -- On a ring in order, where no access of another context comes between those of the scan, `for_each`
    -- visits all the published messages whose numbers are among the last `capacity` and at least
    -- `min_seq`, which is not above `write`, in the order of their numbers and as they were published. It
    -- returns one past the last number that it visits, or `min_seq` if it visits none. Only a number that
    -- a producer still holds is left out, or shown with the payload that its slot has.
    pub for_each-Visits :
        (min_seq : ℕ)
        → min_seq ≤ s.ring.write
        → Visits (max min_seq (s.ring.write - capacity)) min_seq (for_each capacity s.ring min_seq)
    unfolding for_each
    for_each-Visits min_seq le = elim (Bool-cases (ltb (window_start capacity s.ring) min_seq)) [
      | inl before ↦
          let first : max min_seq (s.ring.write - capacity) ≡ min_seq = ground (arith, before) in
          rw (before, first, for_each)
            (visit_from-Visits (s.ring.write - min_seq) min_seq min_seq (omega (arith, le))
              (ground (arith, before)))
      | inr behind ↦
          let first : max min_seq (s.ring.write - capacity) ≡ window_start capacity s.ring =
            ground (arith, behind) in
          rw (behind, first, for_each)
            (visit_from-Visits (s.ring.write - window_start capacity s.ring)
              (window_start capacity s.ring) min_seq (ground arith) (ground arith))
    ]
