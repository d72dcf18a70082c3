-- ===== src/Region/Unmap.antt =====
-- `unmap` and `unmap_binding`: which slots go.
use archipelago.Prelude.{
  ℕ, ◌+◌, ◌<◌, ◌≤◌, ◌≡◌, ◌⊎◌, ◌++◌, All, ◌&&◌, List, [], ◌∷◌, ltb, if◌then◌else◌, Result, ok, err,
}
use archipelago.Prelude.Errc.{invalid_operation, out_of_range}
use archipelago.Region.{Slot, Region}
use archipelago.Region.Layout.{Inv}

-- The slots that have no byte in [base, end).
abbrev pub keep_outside : ℕ → ℕ → List Slot → List Slot
keep_outside base end [] = []
keep_outside base end (c ∷ cs) =
    let rest = keep_outside base end cs in
    if ltb c.base end && ltb base (c.base + c.size) then rest else c ∷ rest

-- A slot has a byte in [base, end).
abbrev pub HasInside : ℕ → ℕ → Slot → Type 0
HasInside base end c = (c.base < end) × (base < c.base + c.size)

-- A slot has a byte outside of [base, end).
abbrev pub HasOutside : ℕ → ℕ → Slot → Type 0
HasOutside base end c = (c.base < base) ⊎ (end < c.base + c.size)

-- No slot has bytes both in the range and outside of it.
abbrev pub IsUncut : ℕ → ℕ → List Slot → Type 0
IsUncut base end cs = All (λ c. HasInside base end c → ¬ HasOutside base end c) cs

-- Some slot has bytes both in the range and outside of it.
pub data Straddled (base end : ℕ) (cs : List Slot) : Type 0 where
  slot :
      (before : List Slot) (c : Slot) (after : List Slot)
      → cs ≡ before ++ c ∷ after
      → HasInside base end c
      → HasOutside base end c
      → Straddled base end cs

-- The outcomes of `unmap`.
pub data Unmapped (r : Region) (base size : ℕ) (out : Result ℕ × Region) : Type 0 where
  done :
      out ≡ (ok 0, record r { children = keep_outside base (base + size) r.children })
      → (r.base ≤ base) × (base + size ≤ r.base + r.size)
      → IsUncut base (base + size) r.children
      → Inv out.1
      → Unmapped r base size out
  outside :
      out ≡ (err out_of_range, r)
      → (base < r.base) ⊎ (r.base + r.size < base + size)
      → Unmapped r base size out
  crossed :
      out ≡ (err invalid_operation, r)
      → (r.base ≤ base) × (base + size ≤ r.base + r.size)
      → Straddled base (base + size) r.children
      → Unmapped r base size out
