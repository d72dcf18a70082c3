-- ===== src/Memory/Tests.antt =====
-- Six frames: one taken, one dirty, one zeroed and a region of two of which one is zero: the theorems
-- at concrete calls.
use archipelago.Prelude.{
  ℕ, ◌≡◌, refl, arith, true, false, none, some, List, [], ◌∷◌, ◌==◌, if◌then◌else◌,
}
use archipelago.Memory.Frames.{Memory, nil, zero_frame}
use archipelago.Memory.Descriptors.{PageState, PageDescriptor, lookup}
use archipelago.Memory.Pmm.{Pmm, alloc, free, zero_one_page}
use archipelago.Memory.Pmm.Invariant.{Inv}
use archipelago.Memory.Pmm.Alloc.{Allocated, alloc-Allocated}
use archipelago.Memory.Pmm.Free.{Freed, free-Freed}
use archipelago.Memory.Pmm.Zero.{Zeroed, zero_one_page-Zeroed}
use archipelago.Memory.Zeroer.{Cleared, zeroer_thread_main, zeroer_thread_main-Cleared}

abbrev frames : Memory
frames x =
    if x == 0x2000
    then record { word = nil; clean = true }
    else if x == 0x1000
    then record { word = nil; clean = false }
    else zero_frame

abbrev page : PageState → PageDescriptor
page state = record { owner = none; offset = 0; share_count = 0; state = state }

abbrev table : List PageDescriptor
table =
    page PageState.mmio
    ∷ page PageState.free
    ∷ page PageState.zeroed
    ∷ page PageState.active
    ∷ page PageState.free
    ∷ page PageState.zeroed
    ∷ []

abbrev allocator : Pmm
allocator = record {
  memory = frames;
  descriptors = some table;
  total_pages = 5;
  free_pages = 4;
  reserved_pages = 0;
  region_zeroed = 1;
  alloc_count = 1;
  free_count = 0;
  alloc_failures = 0;
  zeroed = record { head = 0x2000; count = 1 };
  dirty = record { head = 0x1000; count = 1 };
  regions = record { start = 0x4000; count = 2; zeroed_count = 1 } ∷ [];
}

abbrev zeroed_frames : List ℕ
zeroed_frames = 0x2000 ∷ []

abbrev dirty_frames : List ℕ
dirty_frames = 0x1000 ∷ []

allocator-Inv : Inv allocator zeroed_frames dirty_frames
unfolding lookup
allocator-Inv = record {
  shape = record {
    distinct = (
      (omega arith, (omega arith, (omega arith, tt))),
      ((omega arith, (omega arith, tt)), ((omega arith, tt), (tt, tt))),
    );
    zeroed = record { chain = (refl, omega arith, refl); counted = refl };
    dirty = record { chain = (refl, omega arith, refl); counted = refl };
    clean = (refl, tt);
    tails = (omega arith, (refl, tt), tt);
    summed = refl;
  };
  free = (
    record { aligned = refl; marked = refl },
    (
      record { aligned = refl; marked = refl },
      (record { aligned = refl; marked = refl }, (record { aligned = refl; marked = refl }, tt)),
    ),
  );
  counted = refl;
}

alloc-Allocated_example : Allocated allocator zeroed_frames dirty_frames (alloc allocator)
alloc-Allocated_example = alloc-Allocated allocator zeroed_frames dirty_frames allocator-Inv

taken : lookup allocator.descriptors 0x3000 ≡ some (page PageState.active)
unfolding lookup
taken = refl

free-Freed_example : Freed allocator zeroed_frames dirty_frames 0x3000 (free allocator 0x3000)
free-Freed_example =
    free-Freed allocator zeroed_frames dirty_frames 0x3000 (page PageState.active) allocator-Inv
      refl taken

zero_one_page-Zeroed_example : Zeroed allocator zeroed_frames dirty_frames (zero_one_page allocator)
zero_one_page-Zeroed_example =
    zero_one_page-Zeroed allocator zeroed_frames dirty_frames allocator-Inv

zeroer_thread_main-Cleared_example : Cleared allocator 16 (zeroer_thread_main 1 allocator)
zeroer_thread_main-Cleared_example =
    zeroer_thread_main-Cleared 1 allocator zeroed_frames dirty_frames allocator-Inv
