-- ===== src/Region/Fit.antt =====
-- The search of `map_anywhere` is first fit.
use archipelago.Prelude.{
  ℕ, ◌+◌, ◌-◌, ◌^◌, ◌<◌, ◌≤◌, ◌≡◌, ◌⊎◌, arith, ◌&&◌, List, [], ◌∷◌, leb, subst, sym, Bool-cases,
  inl, inr,
}
use archipelago.Region.{Slot, slot_end, scan}
use archipelago.Region.Layout.{Laid, Free, Laid-le, Laid-Free}

pub scan-ge :
    (size cursor : ℕ) (limit lo hi : ℕ) (cs : List Slot)
    → Laid limit lo hi cs
    → hi < 2 ^ 64
    → cursor ≤ scan size cursor cs
unfolding scan
scan-ge size cursor limit lo hi [] v m = omega arith
scan-ge size cursor limit lo hi (c ∷ cs) v m =
    let after = Laid-le limit (c.base + c.size) hi cs v.2 in
    ground (
      arith,
      scan-ge size cursor limit (c.base + c.size) hi cs v.2 m,
      scan-ge size (slot_end c) limit (c.base + c.size) hi cs v.2 m,
    )

-- The place that the search ends at is free.
pub scan-Free :
    (size cursor limit lo hi : ℕ) (cs : List Slot)
    → Laid limit lo hi cs
    → hi < 2 ^ 64
    → let at = scan size cursor cs in Free at (at + size) cs
unfolding scan
scan-Free size cursor limit lo hi [] v m = tt
scan-Free size cursor limit lo hi (c ∷ cs) v m = elim (Bool-cases (leb (slot_end c) cursor)) [
  | inl passed ↦
      go (scan size cursor cs) (ground arith) (inl (ground (arith, after, ge cursor)))
        (scan-Free size cursor limit (c.base + c.size) hi cs v.2 m)
  | inr ahead ↦ elim (Bool-cases (leb cursor c.base && leb size (c.base - cursor))) [
    | inl fits ↦
        go cursor (ground arith) (inr (ground arith))
          (Laid-Free limit (c.base + c.size) hi cursor (cursor + size) cs (ground arith) v.2)
    | inr tight ↦
        go (scan size (slot_end c) cs) (ground arith) (inl (ground (arith, after, ge (slot_end c))))
          (scan-Free size (slot_end c) limit (c.base + c.size) hi cs v.2 m)
  ]
]
  where
    after : c.base + c.size ≤ hi
    after = Laid-le limit (c.base + c.size) hi cs v.2

    ge : (from : ℕ) → from ≤ scan size from cs
    ge from = scan-ge size from limit (c.base + c.size) hi cs v.2 m

    go :
        (at : ℕ)
        → scan size cursor (c ∷ cs) ≡ at
        → (c.base + c.size ≤ at) ⊎ (at + size ≤ c.base)
        → Free at (at + size) cs
        → Free (scan size cursor (c ∷ cs)) (scan size cursor (c ∷ cs) + size) (c ∷ cs)
    go at e first rest = subst (λ x. Free x (x + size) (c ∷ cs)) (sym e) (first, rest)

-- No free place lies below it.
pub scan-least :
    (size cursor limit lo hi w : ℕ) (cs : List Slot)
    → Laid limit lo hi cs
    → hi < 2 ^ 64
    → cursor ≤ w
    → Free w (w + size) cs
    → scan size cursor cs ≤ w
unfolding scan
scan-least size cursor limit lo hi w [] v m h f = h
scan-least size cursor limit lo hi w (c ∷ cs) v m h f =
    let after = Laid-le limit (c.base + c.size) hi cs v.2 in
    elim (Bool-cases (leb (slot_end c) cursor)) [
      | inl passed ↦
          rw (passed, scan) (scan-least size cursor limit (c.base + c.size) hi w cs v.2 m h f.1)
      | inr ahead ↦ elim (Bool-cases (leb cursor c.base && leb size (c.base - cursor))) [
        | inl fits ↦ rw (ahead, scan) (rw (fits, scan) h)
        | inr tight ↦
            rw (ahead, scan)
              (rw (tight, scan)
                (scan-least size (slot_end c) limit (c.base + c.size) hi w cs v.2 m
                  (ground (arith, f.0)) f.1))
      ]
    ]
