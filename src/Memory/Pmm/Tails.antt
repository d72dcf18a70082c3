-- ===== src/Memory/Pmm/Tails.antt =====
-- The frames that `pop_free_page` takes from the regions.
use archipelago.Prelude.{
  ℕ, zero, suc, ◌+◌, ◌*◌, ◌≡◌, refl, arith, Bool, true, false, Option, none, some, List, [], ◌∷◌,
}
use archipelago.Memory.Frames.{Memory, zero_frame, page_size}
use archipelago.Memory.Pmm.{PageRegion, pop_tail}
use archipelago.Memory.Pmm.Invariant.{region_frames, zero_sum, Tails}

abbrev pub flag : Bool → ℕ
flag true = 1
flag false = 0

-- The outcomes of `pop_tail`: the first of the regions' frames, or nothing where they have none.
pub data TailTaken (m : Memory) (rs : List PageRegion) (out : Option (ℕ × Bool) × List PageRegion)
    : Type 0 where
  taken :
      (a : ℕ) (pre : Bool) (rest : List PageRegion)
      → out ≡ (some (a, pre), rest)
      → region_frames rs ≡ a ∷ region_frames rest
      → Tails m rest
      → zero_sum rs ≡ flag pre + zero_sum rest
      → (pre ≡ true → m a ≡ zero_frame)
      → TailTaken m rs out
  exhausted : out ≡ (none, []) → region_frames rs ≡ [] → zero_sum rs ≡ 0 → TailTaken m rs out

skip_empty :
    (m : Memory) (start : ℕ) (rs : List PageRegion) (out : Option (ℕ × Bool) × List PageRegion)
    → TailTaken m rs out
    → TailTaken m (record { start = start; count = 0; zeroed_count = 0 } ∷ rs) out
skip_empty m start rs out (TailTaken.taken a pre rest e f t z c) =
    TailTaken.taken a pre rest e f t (omega (arith, z)) c
skip_empty m start rs out (TailTaken.exhausted e f z) = TailTaken.exhausted e f (omega (arith, z))

pop_tail_region :
    (m : Memory) (start count zeroed : ℕ) (rs : List PageRegion)
    → Tails m (record { start = start; count = count; zeroed_count = zeroed } ∷ rs)
    → TailTaken m rs (pop_tail rs)
    → TailTaken m
        (record { start = start; count = count; zeroed_count = zeroed } ∷ rs)
        (pop_tail (record { start = start; count = count; zeroed_count = zeroed } ∷ rs))
unfolding pop_tail
pop_tail_region m start zero zero rs t later = skip_empty m start rs _ later
pop_tail_region m start zero (suc k) rs t later = absurd (omega (arith, t.0))
pop_tail_region m start (suc n) zero rs t later =
    TailTaken.taken (start + n * page_size) false
      (record { start = start; count = n; zeroed_count = 0 } ∷ rs) (ground arith) refl
      (omega arith, tt, t.2) (omega arith) (λ e. absurd (cc))
pop_tail_region m start (suc n) (suc k) rs t later =
    TailTaken.taken (start + n * page_size) true
      (record { start = start; count = n; zeroed_count = k } ∷ rs) (ground arith) refl
      (omega (arith, t.0), t.1.1, t.2) (omega arith) (λ e. t.1.0)

pub pop_tail-TailTaken :
    (m : Memory) (rs : List PageRegion) → Tails m rs → TailTaken m rs (pop_tail rs)
unfolding pop_tail
pop_tail-TailTaken m [] t = TailTaken.exhausted refl refl refl
pop_tail-TailTaken m (r ∷ rs) t =
    pop_tail_region m r.start r.count r.zeroed_count rs t (pop_tail-TailTaken m rs t.2)
