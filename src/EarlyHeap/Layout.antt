-- ===== src/EarlyHeap/Layout.antt =====
-- The blocks of the early heap tile it, and no two free blocks are neighbours.
use archipelago.Prelude.{
  ℕ, ◌+◌, ◌-◌, ◌*◌, ◌/◌, ◌%◌, ◌^◌, ◌≤◌, ◌<◌, ◌≡◌, ◌⊎◌, refl, ap, ◌∙◌, arith, Bool, true, false,
  Option, none, some, List, [], ◌∷◌, leb, ltb, Bool-cases, inl, inr,
}
use native.Mathlib.Nat.{mul-mod_left, div-add-mod', mod-lt, div-eq_of_lt}
use archipelago.EarlyHeap.{Block, EarlyHeap, align_up, align_down, on_boot}

pub record BlockOk (b : Block) : Type 0 where
  pub aligned : b.address % 8 ≡ 0
  pub header : 32 ≤ b.size
  pub unused : b.free ≡ true → b.payload_base ≡ 0
  pub payload :
      b.free ≡ false → (b.address + 32 ≤ b.payload_base) × (b.payload_base ≤ b.address + b.size)

-- The blocks fill the addresses from `low` to `high`.
abbrev pub Tiled : ℕ → ℕ → List Block → Type 0
Tiled low high [] = low ≡ high
Tiled low high (b ∷ bs) = (b.address ≡ low) × BlockOk b × Tiled (low + b.size) high bs

abbrev pub starts_free : List Block → Bool
starts_free [] = false
starts_free (b ∷ bs) = b.free

-- No free block has a free one after it.
abbrev pub Coalesced : List Block → Type 0
Coalesced [] = Unit {0}
Coalesced (b ∷ bs) = (b.free ≡ true → starts_free bs ≡ false) × Coalesced bs

pub record Inv (heap : EarlyHeap) : Type 0 where
  pub positive : 0 < heap.heap_start
  pub bounded : heap.heap_end + 8 ≤ 2 ^ 64
  pub tiled : Tiled heap.heap_start heap.heap_end heap.blocks
  pub coalesced : Coalesced heap.blocks

pub Tiled-le : (low high : ℕ) (bs : List Block) → Tiled low high bs → low ≤ high
Tiled-le low high [] t = omega (arith, t)
Tiled-le low high (b ∷ bs) t = omega (arith, Tiled-le (low + b.size) high bs t.2)

zero_times : (n : ℕ) → 0 * n ≡ 0
zero_times n = omega arith

-- Rounding up either wraps to 0 or gives a multiple that is at least `v`.
pub align_up-cases :
    (v alignment : ℕ)
    → v < 2 ^ 64
    → 0 < alignment
    → alignment < 2 ^ 64
    → (align_up v alignment ≡ 0)
      ⊎ ((v ≤ align_up v alignment)
          × (align_up v alignment % alignment ≡ 0)
          × (align_up v alignment < 2 ^ 64))
unfolding align_up
align_up-cases v alignment hv pos small = elim (Bool-cases (ltb (v + (alignment - 1)) (2 ^ 64))) [
  | inl fits ↦
      let e : (v + (alignment - 1)) % 2 ^ 64 ≡ v + (alignment - 1) = ground (arith, fits) in
      let d = div-add-mod' ((v + (alignment - 1)) % 2 ^ 64) alignment in
      let l = mod-lt ((v + (alignment - 1)) % 2 ^ 64) pos in
      inr (omega (arith, e, d, l, pos), mul-mod_left _ alignment, omega (arith, e, d, pos))
  | inr wraps ↦
      let l : (v + (alignment - 1)) % 2 ^ 64 < alignment = ground (arith, wraps, hv, pos, small) in
      inl (ap (λ q. q * alignment) (div-eq_of_lt l) ∙ zero_times alignment)
]

-- The heap that `on_boot` sets up.
abbrev pub fresh : ℕ → ℕ → EarlyHeap
fresh low high = record {
  blocks = record { address = low; size = high - low; free = true; payload_base = 0 } ∷ [];
  heap_start = low;
  heap_end = high;
  alloc_calls = 0;
  free_calls = 0;
}

fresh-Inv :
    (low high : ℕ)
    → 0 < low
    → low % 8 ≡ 0
    → high + 8 ≤ 2 ^ 64
    → low + 32 < high
    → Inv (fresh low high)
fresh-Inv low high pos aligned bound lt = record {
  positive = pos;
  bounded = bound;
  tiled = (
    refl,
    record {
      aligned = aligned;
      header = omega (arith, lt);
      unused = λ h. refl;
      payload = λ h. absurd (cc h);
    },
    omega (arith, lt),
  );
  coalesced = (λ h. refl, tt);
}

-- The heap that stands in [start, end): one free block from the first multiple of 8 to the last.
pub record Booted (start end : ℕ) (heap : EarlyHeap) : Type 0 where
  pub inv : Inv heap
  pub start_aligned : heap.heap_start % 8 ≡ 0
  pub end_aligned : heap.heap_end % 8 ≡ 0
  pub from : (start ≤ heap.heap_start) × (heap.heap_start < start + 8)
  pub until : (heap.heap_end ≤ end) × (end < heap.heap_end + 8)
  pub one_block :
      heap.blocks
      ≡ record {
        address = heap.heap_start;
        size = heap.heap_end - heap.heap_start;
        free = true;
        payload_base = 0;
      }
        ∷ []

-- The outcomes of `on_boot`.
pub data BootOutcome (start end : ℕ) (out : Option EarlyHeap) : Type 0 where
  up : (heap : EarlyHeap) → out ≡ some heap → Booted start end heap → BootOutcome start end out
  panicked :
      out ≡ none
      → ((low high : ℕ) → start ≤ low → low % 8 ≡ 0 → high ≤ end → high % 8 ≡ 0 → high ≤ low + 32)
      → BootOutcome start end out

-- For a range that does not start at 0 or within 64 bytes of 2^64, `on_boot` sets up one free block from
-- the first multiple of 8 in the range to the last, and the heap is in order; it panics only when no two
-- multiples of 8 in the range are more than a header apart.
pub on_boot-Booted :
    (start end : ℕ)
    → 0 < start
    → start + 64 ≤ 2 ^ 64
    → end < 2 ^ 64
    → BootOutcome start end (on_boot start end)
unfolding on_boot align_up align_down
on_boot-Booted start end pos hs he =
    let low = (start + 7) % 2 ^ 64 / 8 * 8 in
    let high = end / 8 * 8 in
    elim (Bool-cases (leb end start)) [
      | inl bad ↦
          BootOutcome.panicked (rw (bad, on_boot) refl)
            (λ l h from lo until hi. ground (arith, bad, from, until))
      | inr ok ↦ elim (Bool-cases (leb high ((low + 32) % 2 ^ 64))) [
        | inl bad ↦
            let short : high ≤ low + 32 = ground (arith, bad, hs) in
            BootOutcome.panicked (rw (ok, on_boot) (rw (bad, on_boot) refl))
              (λ l h from lo until hi. omega (arith, short, from, lo, until, hi, hs))
        | inr room ↦
            BootOutcome.up (fresh low high) (rw (ok, on_boot) (rw (room, on_boot) refl)) (record {
              inv =
                  fresh-Inv low high (omega (arith, pos, hs)) (omega arith) (omega (arith, he))
                    (ground (arith, room, ok, he, hs));
              start_aligned = omega arith;
              end_aligned = omega arith;
              from = (omega (arith, hs), omega (arith, hs));
              until = (omega arith, omega arith);
              one_block = refl;
            })
      ]
    ]
