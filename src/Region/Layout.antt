-- ===== src/Region/Layout.antt =====
-- How the slots of a region lie: in order, apart, inside the region, on pages.
use archipelago.Prelude.{
  ℕ, ◌+◌, ◌%◌, ◌^◌, ◌<◌, ◌≤◌, ◌≡◌, ◌⊎◌, refl, arith, true, false, none, some, List, [], ◌∷◌, leb,
  ltb, ◌==◌, Option-cases, Bool-cases, inl, inr, All,
}
use archipelago.Region.{Slot, Region, prot_within, find_le, insert, erase, collides, remove_range}

pub record IsSlot (limit : ℕ) (c : Slot) : Type 0 where
  pub not_empty : 0 < c.size
  pub base_aligned : c.base % 4096 ≡ 0
  pub size_aligned : c.size % 4096 ≡ 0
  pub within : prot_within c.prot limit ≡ true

-- The slots lie one after the other between `lo` and `hi`.
abbrev pub Laid : ℕ → ℕ → ℕ → List Slot → Type 0
Laid limit lo hi [] = lo ≤ hi
Laid limit lo hi (c ∷ cs) = (lo ≤ c.base) × IsSlot limit c × Laid limit (c.base + c.size) hi cs

pub record Inv (r : Region) : Type 0 where
  pub in_memory : r.base + r.size < 2 ^ 64
  pub laid : Laid r.max_prot r.base (r.base + r.size) r.children

-- No slot meets [base, end).
abbrev pub Free : ℕ → ℕ → List Slot → Type 0
Free base end cs = All (λ c. (c.base + c.size ≤ base) ⊎ (end ≤ c.base)) cs

pub Laid-le : (limit lo hi : ℕ) (cs : List Slot) → Laid limit lo hi cs → lo ≤ hi
Laid-le limit lo hi [] v = v
Laid-le limit lo hi (c ∷ cs) v = omega (arith, v.0, Laid-le limit (c.base + c.size) hi cs v.2)

pub Laid-lower :
    (limit lo lo' hi : ℕ) (cs : List Slot) → lo' ≤ lo → Laid limit lo hi cs → Laid limit lo' hi cs
Laid-lower limit lo lo' hi [] h v = omega (arith, v)
Laid-lower limit lo lo' hi (c ∷ cs) h v = (omega (arith, v.0), v.1, v.2)

-- Slots that start at or above `end` do not meet a range below it.
pub Laid-Free :
    (limit lo hi base end : ℕ) (cs : List Slot) → end ≤ lo → Laid limit lo hi cs → Free base end cs
Laid-Free limit lo hi base end [] h v = tt
Laid-Free limit lo hi base end (c ∷ cs) h v = (
  inr (omega (arith, v.0)),
  Laid-Free limit (c.base + c.size) hi base end cs (omega (arith, v.0)) v.2,
)

-- What `find_le` finds starts at or above the lower bound.
find_le-ge :
    (limit lo hi key : ℕ) (cs : List Slot) (d : Slot)
    → Laid limit lo hi cs
    → find_le key cs ≡ some d
    → (lo ≤ d.base) × (d.base ≤ key) × (0 < d.size) × (d.base + d.size ≤ hi)
unfolding find_le
find_le-ge limit lo hi key [] d v h = absurd (cc)
find_le-ge limit lo hi key (c ∷ cs) d v h = elim (Option-cases (find_le key cs)) [
  | inl nothing ↦ ground (arith, v.0, v.1.not_empty, Laid-le limit (c.base + c.size) hi cs v.2)
  | inr (e, found) ↦ ground (arith, v.0, find_le-ge limit (c.base + c.size) hi key cs e v.2 found)
]

find_le-none-Free :
    (limit lo hi key base : ℕ) (cs : List Slot)
    → Laid limit lo hi cs
    → find_le key cs ≡ none
    → Free base (key + 1) cs
unfolding find_le
find_le-none-Free limit lo hi key base [] v h = tt
find_le-none-Free limit lo hi key base (c ∷ cs) v h =
    let above : key < c.base = ground arith in
    (
      inr (omega arith),
      Laid-Free limit (c.base + c.size) hi base (key + 1) cs (omega (arith, above)) v.2,
    )

-- In a region in order, the one slot that the search finds decides whether a range is free.
pub collides-Free :
    (limit lo hi base last : ℕ) (cs : List Slot)
    → Laid limit lo hi cs
    → hi < 2 ^ 64
    → collides base last cs ≡ false
    → Free base (last + 1) cs
unfolding collides find_le
collides-Free limit lo hi base last [] v m h = tt
collides-Free limit lo hi base last (c ∷ cs) v m h =
    let after = Laid-le limit (c.base + c.size) hi cs v.2 in
    elim (Option-cases (find_le last cs)) [
      | inl nothing ↦ (
        elim (Bool-cases (leb c.base last)) [
          | inl before ↦ inl (ground arith)
          | inr above ↦ inr (ground arith)
        ],
        find_le-none-Free limit (c.base + c.size) hi last base cs v.2 nothing,
      )
      | inr (d, found) ↦
          let f = find_le-ge limit (c.base + c.size) hi last cs d v.2 found in
          let below : d.base + d.size ≤ base = ground (arith, v.1.not_empty) in
          (
            inl (omega arith),
            collides-Free limit (c.base + c.size) hi base last cs v.2 m (ground arith),
          )
    ]

pub Free-collides :
    (limit lo hi base last : ℕ) (cs : List Slot)
    → Laid limit lo hi cs
    → hi < 2 ^ 64
    → Free base (last + 1) cs
    → collides base last cs ≡ false
unfolding collides find_le
Free-collides limit lo hi base last [] v m f = refl
Free-collides limit lo hi base last (c ∷ cs) v m f =
    let after = Laid-le limit (c.base + c.size) hi cs v.2 in
    let rest = Free-collides limit (c.base + c.size) hi base last cs v.2 m f.1 in
    ground (arith, f.0)

-- A slot that goes where the slots leave room.
pub insert-Laid :
    (limit lo hi : ℕ) (s : Slot) (cs : List Slot)
    → IsSlot limit s
    → lo ≤ s.base
    → s.base + s.size ≤ hi
    → Free s.base (s.base + s.size) cs
    → Laid limit lo hi cs
    → Laid limit lo hi (insert s cs)
unfolding insert
insert-Laid limit lo hi s [] w l h f v = (l, w, h)
insert-Laid limit lo hi s (c ∷ cs) w l h f v = elim (Bool-cases (ltb s.base c.base)) [
  | inl before ↦ rw (before, insert) (l, w, (ground (arith, w.not_empty), v.1, v.2))
  | inr after ↦
      rw (after, insert)
        (
          v.0,
          v.1,
          insert-Laid limit (c.base + c.size) hi s cs w
              (ground (arith, v.1.not_empty, f.0, w.not_empty)) h f.1 v.2,
        )
]

pub erase-Laid :
    (limit lo hi base : ℕ) (cs : List Slot) → Laid limit lo hi cs → Laid limit lo hi (erase base cs)
unfolding erase
erase-Laid limit lo hi base [] v = v
erase-Laid limit lo hi base (c ∷ cs) v = elim (Bool-cases (c.base == base)) [
  | inl here ↦
      rw (here, erase) (Laid-lower limit (c.base + c.size) lo hi cs (omega (arith, v.0)) v.2)
  | inr other ↦ rw (other, erase) (v.0, v.1, erase-Laid limit (c.base + c.size) hi base cs v.2)
]

pub remove_range-Laid :
    (limit lo hi base end : ℕ) (cs : List Slot)
    → Laid limit lo hi cs
    → Laid limit lo hi (remove_range base end cs)
unfolding remove_range
remove_range-Laid limit lo hi base end [] v = v
remove_range-Laid limit lo hi base end (c ∷ cs) v =
    let rest = remove_range-Laid limit (c.base + c.size) hi base end cs v.2 in
    elim (Bool-cases (ltb c.base base)) [
      | inl before ↦ rw (before, remove_range) (v.0, v.1, rest)
      | inr at ↦ elim (Bool-cases (ltb c.base end)) [
        | inl inside ↦
            rw (at, remove_range)
              (rw (inside, remove_range)
                (Laid-lower limit (c.base + c.size) lo hi _ (omega (arith, v.0)) rest))
        | inr behind ↦ rw (at, remove_range) (rw (behind, remove_range) v)
      ]
    ]
