-- ===== src/Memory/Pmm.antt =====
-- mm/pmm.cpp and includes/kernel/mm/pmm.h: the allocator of physical frames. The vector of regions is
-- the list with its last region first, the order in which the source takes them. Addresses do not
-- wrap: regions are physical memory below 2^64, and counters of frames stay below it too. Every
-- operation is one step under the allocator's lock; `alloc_contiguous` clears its run after it has
-- released the lock, when no other call can reach the run.
pub mod Invariant
pub mod Tails
pub mod Fetch
pub mod Alloc
pub mod Free
pub mod Growth
pub mod Zero
use archipelago.Prelude.{
  ℕ, zero, suc, ◌+◌, ◌-◌, ◌*◌, Bool, true, false, not, ◌||◌, Option, none, some, List, [], ◌∷◌,
  ◌==◌, ltb, leb, if◌then◌else◌,
}
use archipelago.Memory.Frames.{
  page_size, Memory, Frame, zero_page, FrameStack, empty_stack, push, pop,
}
use archipelago.Memory.Descriptors.{Descriptors, PageState, lookup, set_state, mark_range}

-- `vm_page_region`.
pub record PageRegion : Type 0 where
  pub start : ℕ
  pub count : ℕ
  pub zeroed_count : ℕ

-- `page_frame_allocator`, with the memory and the descriptors that it works on.
pub record Pmm : Type 0 where
  pub memory : Memory
  pub descriptors : Descriptors
  pub total_pages : ℕ
  pub free_pages : ℕ
  pub reserved_pages : ℕ
  pub region_zeroed : ℕ
  pub alloc_count : ℕ
  pub free_count : ℕ
  pub alloc_failures : ℕ
  pub zeroed : FrameStack
  pub dirty : FrameStack
  pub regions : List PageRegion

unfoldable pub zeroed_pages : Pmm → ℕ
zeroed_pages p = p.zeroed.count + p.region_zeroed

-- `add_region`: `room` says whether the vector could grow.
unfoldable pub add_region : Bool → Pmm → PageRegion → Pmm
add_region room p region = if not room then p else record p {
  regions = region ∷ p.regions;
  free_pages = p.free_pages + region.count;
  total_pages = p.total_pages + region.count;
}

unfoldable pub add_reserved : Pmm → ℕ → Pmm
add_reserved p pages = record p {
  reserved_pages = p.reserved_pages + pages;
  total_pages = p.total_pages + pages;
}

-- The loop of `pop_free_page` over the regions: the page taken and whether it was zero already.
unfoldable pub pop_tail : List PageRegion → Option (ℕ × Bool) × List PageRegion
pop_tail [] = (none, [])
pop_tail (r ∷ rs) =
    let rest = pop_tail rs in
    if r.count == 0 then rest else (
      some (r.start + (r.count - 1) * page_size, ltb 0 r.zeroed_count),
      record { start = r.start; count = r.count - 1; zeroed_count = r.zeroed_count - 1 } ∷ rs,
    )

unfoldable pub pop_free_page : Pmm → Option (ℕ × Bool) × Pmm
pop_free_page p =
    let (addr, m, d) = pop p.memory p.dirty in
    let (tail, rs) = pop_tail p.regions in
    elim addr [
      | some a ↦ (some (a, false), record p { memory = m; dirty = d })
      | none ↦ elim tail [
        | none ↦ (none, record p { regions = rs })
        | some (a, pre_zeroed) ↦ (
          some (a, pre_zeroed),
          record p {
            regions = rs;
            region_zeroed = if pre_zeroed then p.region_zeroed - 1 else p.region_zeroed;
          },
        )
      ]
    ]

-- The search of `alloc` for a page, zeroed by the time it is found.
unfoldable pub fetch : Pmm → Option ℕ × Pmm
fetch p =
    let (addr, m, z) = pop p.memory p.zeroed in
    let (page, p') = pop_free_page p in
    elim addr [
      | some a ↦ (some a, record p { memory = m; zeroed = z })
      | none ↦ elim page [
        | none ↦ (none, p')
        | some (a, pre_zeroed) ↦
            (some a, if pre_zeroed then p' else record p' { memory = zero_page p'.memory a })
      ]
    ]

unfoldable pub alloc : Pmm → Option ℕ × Pmm
alloc p =
    let (page, p') = fetch p in
    elim page [
      | none ↦ (none, record p' { alloc_failures = p'.alloc_failures + 1 })
      | some a ↦ (
        some a,
        record p' {
          free_pages = p'.free_pages - 1;
          alloc_count = p'.alloc_count + 1;
          descriptors = set_state p'.descriptors a PageState.active;
        },
      )
    ]

abbrev pub is_free_state : PageState → Bool
is_free_state PageState.free = true
is_free_state PageState.zeroed = true
is_free_state PageState.mmio = false
is_free_state PageState.wired = false
is_free_state PageState.active = false

-- `free`; `none` is the panic on a double free.
unfoldable pub free : Pmm → ℕ → Option Pmm
free p addr =
    let double : Bool = elim (lookup p.descriptors addr) [
      | none ↦ false
      | some d ↦ is_free_state d.state
    ] in
    let (m, d) = push p.memory p.dirty addr in
    if double
    then none
    else some (record p {
      memory = m;
      dirty = d;
      free_pages = p.free_pages + 1;
      free_count = p.free_count + 1;
      descriptors = set_state p.descriptors addr PageState.free;
    })

-- The first region with room for the run: its base, how many of its pages are zero, and the rest.
unfoldable pub carve : ℕ → List PageRegion → Option (ℕ × ℕ) × List PageRegion
carve count [] = (none, [])
carve count (r ∷ rs) =
    let (found, rest) = carve count rs in
    let pre = if ltb r.zeroed_count count then r.zeroed_count else count in
    if ltb r.count count then (found, r ∷ rest) else (
      some (r.start + (r.count - count) * page_size, pre),
      record { start = r.start; count = r.count - count; zeroed_count = r.zeroed_count - pre } ∷ rs,
    )

-- The clearing of the low pages of the run, from the `i`th on.
unfoldable pub zero_run : Memory → ℕ → ℕ → ℕ → Memory
zero_run m base zero i = m
zero_run m base (suc n) i = zero_run (zero_page m (base + i * page_size)) base n (i + 1)

unfoldable pub alloc_contiguous : Pmm → ℕ → Option ℕ × Pmm
alloc_contiguous p count =
    let (found, rs) = carve count p.regions in
    if count == 0 then (none, p) else elim found [
      | none ↦ (none, record p { alloc_failures = p.alloc_failures + 1 })
      | some (base, pre) ↦ (
        some base,
        record p {
          regions = rs;
          region_zeroed = p.region_zeroed - pre;
          descriptors = mark_range p.descriptors base count PageState.active;
          free_pages = p.free_pages - count;
          memory = zero_run p.memory base (count - pre) 0;
        },
      )
    ]

-- The first region with a page that is not zero, and that page.
unfoldable pub zero_tail : List PageRegion → Option ℕ × List PageRegion
zero_tail [] = (none, [])
zero_tail (r ∷ rs) =
    let (found, rest) = zero_tail rs in
    if r.zeroed_count == r.count then (found, r ∷ rest) else (
      some (r.start + (r.count - r.zeroed_count - 1) * page_size),
      record r { zeroed_count = r.zeroed_count + 1 } ∷ rs,
    )

unfoldable pub zero_one_page : Pmm → Bool × Pmm
zero_one_page p =
    let (page, m, d) = pop p.memory p.dirty in
    let (tail, rs) = zero_tail p.regions in
    elim page [
      | some a ↦
          let (m', z) = push (zero_page m a) p.zeroed a in
          (
            true,
            record p {
              memory = m';
              dirty = d;
              zeroed = z;
              descriptors = set_state p.descriptors a PageState.zeroed;
            },
          )
      | none ↦ if leb p.free_pages (zeroed_pages p) then (false, p) else elim tail [
        | none ↦ (false, p)
        | some a ↦ (
          true,
          record p {
            memory = zero_page p.memory a;
            regions = rs;
            region_zeroed = p.region_zeroed + 1;
            descriptors = set_state p.descriptors a PageState.zeroed;
          },
        )
      ]
    ]

-- `pmm_stats`.
pub record PmmStats : Type 0 where
  pub total_pages : ℕ
  pub free_pages : ℕ
  pub reserved_pages : ℕ
  pub zeroed_pooled : ℕ
  pub zeroed_region_tail : ℕ
  pub dirty : ℕ
  pub alloc_count : ℕ
  pub free_count : ℕ
  pub alloc_failures : ℕ

unfoldable pub stats : Pmm → PmmStats
stats p = record {
  total_pages = p.total_pages;
  free_pages = p.free_pages;
  reserved_pages = p.reserved_pages;
  zeroed_pooled = p.zeroed.count;
  zeroed_region_tail = p.region_zeroed;
  dirty = p.dirty.count;
  alloc_count = p.alloc_count;
  free_count = p.free_count;
  alloc_failures = p.alloc_failures;
}
