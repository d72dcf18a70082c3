-- ===== src/EarlyHeap/Alloc.antt =====
-- `alloc`: the first block that serves the request, and only that one, changes.
use archipelago.Prelude.{
  ℕ, ◌+◌, ◌^◌, ◌≤◌, ◌<◌, ◌≡◌, refl, sym, ap, ◌∙◌, subst, arith, true, false, Option, none, some,
  List, [], ◌∷◌, ◌++◌, ◌==◌, Bool-cases, Option-cases, inl, inr, All,
}
use archipelago.EarlyHeap.{
  Block, EarlyHeap, fit, split, alloc_block, stricter, alloc, is_power_of_two,
}
use archipelago.EarlyHeap.Layout.{Tiled, Tiled-le, Coalesced, starts_free, Inv}
use archipelago.EarlyHeap.Powers.{Divides, stricter-Divides}
use archipelago.EarlyHeap.Fit.{Serves, fit-Serves, fit_none, Split, split-Split}

-- No block of these can serve the request, whatever the payload.
abbrev pub NoneServes : ℕ → ℕ → List Block → Type 0
NoneServes size alignment bs = All (λ c. (p : ℕ) → ¬ Serves size alignment p c) bs

-- What the search found.
pub data Placed (size alignment : ℕ) (bs : List Block) (out : Option (ℕ × List Block))
    : Type 0 where
  placed :
      (p : ℕ) (before : List Block) (b : Block) (after parts : List Block)
      → out ≡ some (p, before ++ (parts ++ after))
      → bs ≡ before ++ b ∷ after
      → NoneServes size alignment before
      → Serves size alignment p b
      → Split size p b parts
      → Placed size alignment bs out
  full : out ≡ none → NoneServes size alignment bs → Placed size alignment bs out

skip_block :
    (size alignment : ℕ) (b : Block) (bs : List Block)
    → fit size alignment b ≡ none
    → ((p : ℕ) → ¬ Serves size alignment p b)
    → Placed size alignment bs (alloc_block size alignment bs)
    → Placed size alignment (b ∷ bs) (alloc_block size alignment (b ∷ bs))
unfolding alloc_block
skip_block size alignment b bs h cannot (Placed.full e all) =
    Placed.full (rw (h, alloc_block) (rw (e, alloc_block) refl)) (cannot, all)
skip_block size alignment b bs h cannot
      (Placed.placed p before c after parts e whole all serves cut) =
    Placed.placed p (b ∷ before) c after parts (rw (h, alloc_block) (rw (e, alloc_block) refl))
      (ap (λ xs. b ∷ xs) whole) (cannot, all) serves cut

module _ (size alignment : ℕ) (pos : 0 < alignment) (small : alignment < 2 ^ 64)
    (whole : Divides alignment (2 ^ 64)) where
  cannot_serve :
      (b : Block)
      → 0 < b.address
      → b.address + b.size < 2 ^ 64
      → fit size alignment b ≡ none
      → (p : ℕ) → ¬ Serves size alignment p b
  cannot_serve b start bound h p = elim whole [
    | Divides.times j e ↦ fit_none size alignment j b p pos e start bound h
  ]

  alloc_block-Placed :
      (low high : ℕ) (bs : List Block)
      → 0 < low
      → high + 8 ≤ 2 ^ 64
      → Tiled low high bs
      → Placed size alignment bs (alloc_block size alignment bs)
  unfolding alloc_block
  alloc_block-Placed low high [] start bound t = Placed.full refl tt
  alloc_block-Placed low high (b ∷ bs) start bound t = elim (Option-cases (fit size alignment b)) [
    | inl none' ↦
        let le = Tiled-le (low + b.size) high bs t.2 in
        skip_block size alignment b bs none'
          (cannot_serve b (omega (arith, t.0, start)) (omega (arith, t.0, le, bound)) none')
          (alloc_block-Placed (low + b.size) high bs (omega (arith, start)) bound t.2)
    | inr (p, found) ↦
        let le = Tiled-le (low + b.size) high bs t.2 in
        let s =
          fit-Serves size alignment pos small b p (omega (arith, t.0, start))
            (omega (arith, t.0, le, bound)) t.1.header found in
        Placed.placed p [] b bs (split size p b) (rw (found, alloc_block) refl) refl tt s
          (split-Split size p b s.after_header s.room t.1 (omega (arith, t.0, le, bound)))
  ]

Split-Tiled :
    (size p low high : ℕ) (b : Block) (parts after : List Block)
    → Split size p b parts
    → Tiled low high (b ∷ after)
    → Tiled low high (parts ++ after)
Split-Tiled size p low high b _ after (Split.whole used e u same) t =
    subst (λ xs. Tiled low high (xs ++ after)) (sym e)
      (u.address ∙ t.0, u.ok, subst (λ n. Tiled (low + n) high after) (sym same) t.2)
Split-Tiled size p low high b _ after (Split.parts used rest e u next free ok sum) t =
    subst (λ xs. Tiled low high (xs ++ after)) (sym e)
      (
        u.address ∙ t.0,
        u.ok,
        (
          next ∙ ap (λ n. n + used.size) (u.address ∙ t.0),
          ok,
          subst (λ n. Tiled n high after) {x = low + b.size} (omega (arith, sum)) t.2,
        ),
      )

Tiled-replace :
    (low high : ℕ) (before : List Block) (b : Block) (parts after : List Block)
    → ((low' : ℕ) → Tiled low' high (b ∷ after) → Tiled low' high (parts ++ after))
    → Tiled low high (before ++ b ∷ after)
    → Tiled low high (before ++ (parts ++ after))
Tiled-replace low high [] b parts after f t = f low t
Tiled-replace low high (c ∷ before) b parts after f t =
    (t.0, t.1, Tiled-replace (low + c.size) high before b parts after f t.2)

Split-Coalesced :
    (size p : ℕ) (b : Block) (parts after : List Block)
    → Split size p b parts
    → b.free ≡ true
    → Coalesced (b ∷ after)
    → (starts_free (parts ++ after) ≡ false) × Coalesced (parts ++ after)
Split-Coalesced size p b _ after (Split.whole used e u same) free c =
    subst (λ xs. (starts_free (xs ++ after) ≡ false) × Coalesced (xs ++ after)) (sym e)
      (u.free, ((λ h. let z : false ≡ true = sym u.free ∙ h in absurd (cc z)), c.1))
Split-Coalesced size p b _ after (Split.parts used rest e u next free' ok sum) free c =
    subst (λ xs. (starts_free (xs ++ after) ≡ false) × Coalesced (xs ++ after)) (sym e)
      (
        u.free,
        ((λ h. let z : false ≡ true = sym u.free ∙ h in absurd (cc z)), ((λ h. c.0 free), c.1)),
      )

Coalesced-replace :
    (before : List Block) (b : Block) (parts after : List Block)
    → (starts_free (parts ++ after) ≡ false) × Coalesced (parts ++ after)
    → Coalesced (before ++ b ∷ after)
    → Coalesced (before ++ (parts ++ after))
Coalesced-replace [] b parts after f c = f.1
Coalesced-replace (x ∷ []) b parts after f c = ((λ h. f.0), f.1)
Coalesced-replace (x ∷ y ∷ before) b parts after f c =
    (c.0, Coalesced-replace (y ∷ before) b parts after f c.1)

Coalesced-drop : (xs ys : List Block) → Coalesced (xs ++ ys) → Coalesced ys
Coalesced-drop [] ys c = c
Coalesced-drop (x ∷ xs) ys c = Coalesced-drop xs ys c.1

-- The outcomes of `alloc`.
pub data Granted (heap : EarlyHeap) (size alignment : ℕ) (out : Option (ℕ × EarlyHeap))
    : Type 0 where
  null : size ≡ 0 → out ≡ some (0, heap) → Granted heap size alignment out
  refused : is_power_of_two alignment ≡ false → out ≡ none → Granted heap size alignment out
  exhausted :
      out ≡ none
      → NoneServes size (stricter alignment) heap.blocks
      → Granted heap size alignment out
  given :
      (p : ℕ) (heap' : EarlyHeap) (before : List Block) (b : Block) (after parts : List Block)
      → out ≡ some (p, heap')
      → heap.blocks ≡ before ++ b ∷ after
      → heap'.blocks ≡ before ++ (parts ++ after)
      → NoneServes size (stricter alignment) before
      → Serves size (stricter alignment) p b
      → Split size p b parts
      → Inv heap'
      → Granted heap size alignment out

outcome :
    (heap : EarlyHeap) (size alignment : ℕ)
    → Inv heap
    → (size == 0) ≡ false
    → is_power_of_two alignment ≡ true
    → Placed size
        (stricter alignment)
        heap.blocks
        (alloc_block size (stricter alignment) heap.blocks)
    → Granted heap size alignment (alloc heap size alignment)
unfolding alloc
outcome heap size alignment v some_bytes power (Placed.full e all) =
    Granted.exhausted (rw (some_bytes, alloc) (rw (power, alloc) (rw (e, alloc) refl))) all
outcome heap size alignment v some_bytes power
      (Placed.placed p before b after parts e whole all serves cut) =
    Granted.given p
      (record heap { blocks = before ++ (parts ++ after); alloc_calls = heap.alloc_calls + 1 })
      before b after parts (rw (some_bytes, alloc) (rw (power, alloc) (rw (e, alloc) refl))) whole
      refl all serves cut
      (record {
        positive = v.positive;
        bounded = v.bounded;
        tiled =
            Tiled-replace heap.heap_start heap.heap_end before b parts after
              (λ low. Split-Tiled size p low heap.heap_end b parts after cut)
              (subst (Tiled heap.heap_start heap.heap_end) whole v.tiled);
        coalesced =
            let c = subst Coalesced whole v.coalesced in
            Coalesced-replace before b parts after
              (Split-Coalesced size p b parts after cut serves.free
                (Coalesced-drop before (b ∷ after) c))
              c;
      })

-- On a heap in order and for an alignment below 2^64, `alloc` of 0 bytes gives the null pointer, and of
-- a size that is not 0, at a power of two, it takes the first free block in which a payload of that size,
-- behind the header and aligned to the stricter of the alignment and 16, has room. It hands out such a
-- payload and leaves every other block as it was and the heap in order. It panics only for an alignment
-- that is no power of two, or when no block has room for such a payload anywhere in it.
pub alloc-Granted :
    (heap : EarlyHeap) (size alignment : ℕ)
    → Inv heap
    → alignment < 2 ^ 64
    → Granted heap size alignment (alloc heap size alignment)
unfolding alloc
alloc-Granted heap size alignment v small = elim (Bool-cases (size == 0)) [
  | inl empty ↦ Granted.null (ground (arith, empty)) (rw (empty, alloc) refl)
  | inr some_bytes ↦ elim (Bool-cases (is_power_of_two alignment)) [
    | inr odd ↦ Granted.refused odd (rw (some_bytes, alloc) (rw (odd, alloc) refl))
    | inl power ↦ outcome heap size alignment v some_bytes power (
        alloc_block-Placed size (stricter alignment) (ground arith) (ground (arith, small))
          (stricter-Divides alignment power small) heap.heap_start heap.heap_end heap.blocks
          v.positive v.bounded v.tiled)
  ]
]
