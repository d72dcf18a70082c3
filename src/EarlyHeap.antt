-- ===== src/EarlyHeap.antt =====
-- mm/early_heap.cpp: the heap that serves `operator new` during start-up. The list of blocks is the
-- chain of `next` pointers; a block stands at the address of its header. Sizes are those of the 64-bit
-- targets. Alignments are powers of two, for which clearing the low bits is rounding down. Each
-- operation runs with interrupts off and is one step.
pub mod Layout
pub mod Powers
pub mod Fit
pub mod Alloc
pub mod Free
pub mod RoundTrip
mod Tests
use archipelago.Prelude.{
  ℕ, ◌+◌, ◌-◌, ◌*◌, ◌/◌, ◌%◌, ◌^◌, bit_and, Bool, true, false, ◌&&◌, ◌||◌, not, Option, none, some,
  List, [], ◌∷◌, ◌++◌, ◌==◌, ltb, leb, if◌then◌else◌,
}

-- `sizeof(early_heap_block)` and `alignof(early_heap_block)`.
abbrev pub header_bytes : ℕ
header_bytes = 32

abbrev pub header_alignment : ℕ
header_alignment = 8

abbrev pub heap_alignment_fallback : ℕ
heap_alignment_fallback = 16

abbrev pub minimum_split_size : ℕ
minimum_split_size = header_bytes + heap_alignment_fallback

-- `early_heap_block`.
pub record Block : Type 0 where
  pub address : ℕ
  pub size : ℕ
  pub free : Bool
  pub payload_base : ℕ

-- `early_heap`.
pub record EarlyHeap : Type 0 where
  pub blocks : List Block
  pub heap_start : ℕ
  pub heap_end : ℕ
  pub alloc_calls : ℕ
  pub free_calls : ℕ

unfoldable pub is_power_of_two : ℕ → Bool
is_power_of_two v = not (v == 0) && (bit_and v (v - 1) == 0)

unfoldable pub align_up : ℕ → ℕ → ℕ
align_up v alignment = (v + (alignment - 1)) % 2 ^ 64 / alignment * alignment

unfoldable pub align_down : ℕ → ℕ → ℕ
align_down v alignment = v / alignment * alignment

-- `on_boot`; `none` is a panic.
unfoldable pub on_boot : ℕ → ℕ → Option EarlyHeap
on_boot start end =
    let low = align_up start header_alignment in
    let high = align_down end header_alignment in
    if leb end start
    then none
    else if leb high ((low + header_bytes) % 2 ^ 64)
    then none
    else some (record {
      blocks = record { address = low; size = high - low; free = true; payload_base = 0 } ∷ [];
      heap_start = low;
      heap_end = high;
      alloc_calls = 0;
      free_calls = 0;
    })

unfoldable pub contains : EarlyHeap → ℕ → Bool
contains heap address = leb heap.heap_start address && ltb address heap.heap_end

-- The tests of `alloc` on one block: the payload where the block serves the request.
unfoldable pub fit : ℕ → ℕ → Block → Option ℕ
fit size alignment b =
    let payload = align_up ((b.address + header_bytes) % 2 ^ 64) alignment in
    let prefix = (payload + 2 ^ 64 - b.address) % 2 ^ 64 in
    if not b.free
    then none
    else if ltb b.size prefix
    then none
    else if ltb (b.size - prefix) size
    then none
    else some payload

-- The block as it is handed out with `consumed` bytes, and the block that is split off.
unfoldable pub cut : ℕ → ℕ → ℕ → Block → List Block
cut payload consumed remaining b =
    if leb minimum_split_size remaining
    then record { address = b.address; size = consumed; free = false; payload_base = payload }
      ∷ record { address = b.address + consumed; size = remaining; free = true; payload_base = 0 }
      ∷ []
    else record b { free = false; payload_base = payload } ∷ []

-- Where the block is split: after the payload, at the next address at which a header may stand.
unfoldable pub split : ℕ → ℕ → Block → List Block
split size payload b =
    let consumed = payload - b.address + size in
    let remaining = b.size - consumed in
    let gap = align_up (b.address + consumed) header_alignment - (b.address + consumed) in
    if ltb 0 remaining && ltb 0 gap
    then if leb remaining gap
      then cut payload consumed 0 b
      else cut payload (consumed + gap) (remaining - gap) b
    else cut payload consumed remaining b

-- The loop of `alloc`.
unfoldable pub alloc_block : ℕ → ℕ → List Block → Option (ℕ × List Block)
alloc_block size alignment [] = none
alloc_block size alignment (b ∷ bs) =
    let later = alloc_block size alignment bs in
    elim (fit size alignment b) [
      | some payload ↦ some (payload, split size payload b ++ bs)
      | none ↦ elim later [ none ↦ none | some (payload, rest) ↦ some (payload, b ∷ rest) ]
    ]

-- The alignment that `alloc` works with.
abbrev pub stricter : ℕ → ℕ
stricter alignment =
    if ltb alignment heap_alignment_fallback then heap_alignment_fallback else alignment

-- `alloc`; `none` is a panic, and 0 the null pointer.
unfoldable pub alloc : EarlyHeap → ℕ → ℕ → Option (ℕ × EarlyHeap)
alloc heap size alignment =
    let found = alloc_block size (stricter alignment) heap.blocks in
    if size == 0
    then some (0, heap)
    else if not (is_power_of_two alignment)
    then none
    else elim found [
      | none ↦ none
      | some (payload, blocks) ↦
          some (payload, record heap { blocks = blocks; alloc_calls = heap.alloc_calls + 1 })
    ]

abbrev pub serves : ℕ → Block → Bool
serves target b = not b.free && (b.payload_base == target)

-- The loops that merge a block with the free blocks after it.
unfoldable pub absorb : Block → List Block → List Block
absorb b [] = b ∷ []
absorb b (n ∷ ns) =
    let merged = absorb (record b { size = b.size + n.size }) ns in
    if n.free then merged else b ∷ n ∷ ns

abbrev pub serves_first : ℕ → List Block → Bool
serves_first target [] = false
serves_first target (b ∷ bs) = serves target b

-- The loop of `free`; a block that is free and stands before the one that is released takes it in.
unfoldable pub free_block : ℕ → List Block → Option (List Block)
free_block target [] = none
free_block target (b ∷ bs) =
    let later = free_block target bs in
    let released = absorb (record b { free = true; payload_base = 0 }) bs in
    if serves target b then some released else elim later [
      | none ↦ none
      | some rest ↦ some (if b.free && serves_first target bs then absorb b rest else b ∷ rest)
    ]

-- `free`; `none` is a panic.
unfoldable pub free : EarlyHeap → ℕ → Option EarlyHeap
free heap target =
    let found = free_block target heap.blocks in
    if target == 0 then some heap else elim found [
      | none ↦ none
      | some blocks ↦ some (record heap { blocks = blocks; free_calls = heap.free_calls + 1 })
    ]

-- `early_heap_stats`.
pub record Stats : Type 0 where
  pub blocks : ℕ
  pub used_bytes : ℕ
  pub free_bytes : ℕ
  pub alloc_calls : ℕ
  pub free_calls : ℕ

-- The loop of `stats`.
unfoldable pub add_blocks : Stats → List Block → Stats
add_blocks s [] = s
add_blocks s (b ∷ bs) =
    let payload = if ltb header_bytes b.size then b.size - header_bytes else 0 in
    let next =
      if b.free
      then record s { blocks = s.blocks + 1; free_bytes = s.free_bytes + payload }
      else record s { blocks = s.blocks + 1; used_bytes = s.used_bytes + payload } in
    add_blocks next bs

unfoldable pub stats : EarlyHeap → Stats
stats heap =
    add_blocks
      (record {
        blocks = 0;
        used_bytes = 0;
        free_bytes = 0;
        alloc_calls = heap.alloc_calls;
        free_calls = heap.free_calls;
      })
      heap.blocks
