-- ===== src/Memory/Boot.antt =====
-- Start-up of the table of descriptors, `page_descriptor_table::init` of mm/page_descriptor.cpp. The
-- array lies in frames of its own, which arrive zeroed, so every descriptor starts as `blank`; the
-- size of a descriptor in bytes is the parameter `descriptor_bytes`.
use archipelago.Prelude.{
  ℕ, ◌+◌, ◌-◌, ◌*◌, ◌/◌, Bool, true, false, none, some, List, [], ◌∷◌, ◌==◌, ltb, if◌then◌else◌,
  replicate,
}
use archipelago.Memory.Frames.{page_size}
use archipelago.Memory.Descriptors.{Descriptors, PageState, PageDescriptor, mark_range}
use archipelago.Memory.Pmm.{PageRegion, Pmm, alloc_contiguous}

abbrev pub blank : PageDescriptor
blank = record { owner = none; offset = 0; share_count = 0; state = PageState.mmio }

-- The loops over the regions: the larger of `max` and the ends of the regions.
unfoldable pub max_end : ℕ → List PageRegion → ℕ
max_end max [] = max
max_end max (r ∷ rs) =
    let end = r.start + r.count * page_size in max_end (if ltb max end then end else max) rs

unfoldable pub mark_regions : Descriptors → List PageRegion → PageState → Descriptors
mark_regions ds [] state = ds
mark_regions ds (r ∷ rs) state = mark_regions (mark_range ds r.start r.count state) rs state

unfoldable pub init : ℕ → Pmm → List PageRegion → List PageRegion → Bool × Pmm
init descriptor_bytes p usable wired =
    let end = max_end (max_end 0 usable) wired in
    let count = end / page_size in
    let array_pages = (count * descriptor_bytes + page_size - 1) / page_size in
    let (base, p') = alloc_contiguous p array_pages in
    if end == 0 then (false, p) else elim base [
      | none ↦ (false, p')
      | some address ↦
          let free = mark_regions (some (replicate count blank)) usable PageState.free in
          let table = mark_regions free wired PageState.wired in
          (true, record p' { descriptors = mark_range table address array_pages PageState.wired })
    ]
