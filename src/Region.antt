-- ===== src/Region.antt =====
-- mm/region.cpp and includes/kernel/mm/region.h: the slots of one region of an address space. The
-- red-black tree of slots, keyed by base, is the list of slots in ascending order of base. A
-- sub-region is known by its identity; clearing it when its slot goes, the page tables and the
-- mapping list of a VMO are not modelled. The VMM lock makes each operation one step.
pub mod Layout
pub mod Fit
pub mod Calls
pub mod Anywhere
pub mod Unmap
mod Tests
use archipelago.Prelude.{
  ℕ, ◌+◌, ◌-◌, ◌/◌, ◌%◌, ◌^◌, Bool, true, false, not, ◌&&◌, ◌||◌, Option, none, some, List, [], ◌∷◌,
  ltb, leb, ◌==◌, if◌then◌else◌, bit_and, Result, ok, err, fault,
}
use archipelago.Prelude.Errc.{
  invalid_operation, out_of_range, rights_violation, oom, capacity_exhausted,
}
use archipelago.Object.{not32}

abbrev pub page_size : ℕ
page_size = 0x1000

pub data CacheMode : Type 0 where
  cached write_combining device : CacheMode

-- What the region reads of a VMO: its size in pages and the cache mode of its pager.
pub record Vmo : Type 0 where
  pub id : ℕ
  pub size_pages : ℕ
  pub cache_mode : CacheMode

pub data Content : Type 0 where
  binding : Option Vmo → ℕ → CacheMode → Content
  sub_region : ℕ → Content

-- `region_child`.
pub record Slot : Type 0 where
  pub base : ℕ
  pub size : ℕ
  pub prot : ℕ
  pub content : Content

pub record Region : Type 0 where
  pub base : ℕ
  pub size : ℕ
  pub max_prot : ℕ
  pub children : List Slot

-- A page size is a power of two, so the low bits are the remainder.
unfoldable pub page_aligned : ℕ → Bool
page_aligned value = value % page_size == 0

unfoldable pub prot_within : ℕ → ℕ → Bool
prot_within prot limit = bit_and prot (not32 limit) == 0

unfoldable pub stricter_cache : CacheMode → CacheMode → CacheMode
stricter_cache CacheMode.device b = CacheMode.device
stricter_cache CacheMode.cached b = b
stricter_cache CacheMode.write_combining CacheMode.device = CacheMode.device
stricter_cache CacheMode.write_combining CacheMode.cached = CacheMode.write_combining
stricter_cache CacheMode.write_combining CacheMode.write_combining = CacheMode.write_combining

-- `base + size` on 64-bit words.
abbrev pub slot_end : Slot → ℕ
slot_end c = (c.base + c.size) % 2 ^ 64

abbrev pub region_end : Region → ℕ
region_end r = (r.base + r.size) % 2 ^ 64

unfoldable pub is_binding : Slot → Bool
is_binding c = elim c.content [ binding v o m ↦ true | sub_region id ↦ false ]

-- The tree's `find_le`: the last slot whose base is at most the key.
unfoldable pub find_le : ℕ → List Slot → Option Slot
find_le key [] = none
find_le key (c ∷ cs) =
    let rest = find_le key cs in
    if leb c.base key then (elim rest [ none ↦ some c | some d ↦ some d ]) else none

-- The tree's `insert`.
unfoldable pub insert : Slot → List Slot → List Slot
insert s [] = s ∷ []
insert s (c ∷ cs) = if ltb s.base c.base then s ∷ c ∷ cs else c ∷ insert s cs

-- The tree's `erase` of the slot with this base.
unfoldable pub erase : ℕ → List Slot → List Slot
erase base [] = []
erase base (c ∷ cs) = if c.base == base then cs else c ∷ erase base cs

-- Whether the slot found below the end of a range reaches into the range.
unfoldable pub collides : ℕ → ℕ → List Slot → Bool
collides base last cs = elim (find_le last cs) [ none ↦ false | some c ↦ ltb base (slot_end c) ]

-- `insert_slot`, with what the caller puts into the new slot; `room` says whether it could be
-- allocated.
unfoldable pub insert_slot : Bool → Region → ℕ → ℕ → ℕ → Content → Result Slot × Region
insert_slot room r base size prot content =
    let end = (base + size) % 2 ^ 64 in
    let slot : Slot = record { base = base; size = size; prot = prot; content = content } in
    if (size == 0 || not (page_aligned base)) || not (page_aligned size)
    then (err invalid_operation, r)
    else if ltb end base
    then (err out_of_range, r)
    else if ltb base r.base || ltb (region_end r) end
    then (err out_of_range, r)
    else if not (prot_within prot r.max_prot)
    then (err rights_violation, r)
    else if collides base (end - 1) r.children
    then (err invalid_operation, r)
    else if not room
    then (err oom, r)
    else (ok slot, record r { children = insert slot r.children })

-- `create_child`: `made` says whether the sub-region could be allocated; `id` is its identity.
unfoldable pub create_child : Bool → Bool → ℕ → Region → ℕ → ℕ → ℕ → Result Slot × Region
create_child room made id r base size max_prot =
    let (placed, r') = insert_slot room r base size max_prot (sub_region id) in
    elim placed [
      | ok slot ↦
          if made
          then (ok slot, r')
          else (err oom, record r' { children = erase slot.base r'.children })
      | err e ↦ (err e, r')
      | fault ↦ (fault, r')
    ]

-- The test that `map_locked` makes of a VMO.
unfoldable pub vmo_fits : Vmo → ℕ → ℕ → Result ℕ
vmo_fits v offset size =
    if not (page_aligned offset)
    then err invalid_operation
    else if ltb ((offset + size) % 2 ^ 64) offset
        || ltb v.size_pages ((offset + size) % 2 ^ 64 / page_size)
    then err out_of_range
    else ok 0

-- The cache mode of a new binding.
unfoldable pub mapped_cache : Option Vmo → CacheMode → CacheMode
mapped_cache none cache = cache
mapped_cache (some v) cache = stricter_cache cache v.cache_mode

-- `map_locked` after that test; `linked` says whether the VMO could record the mapping.
unfoldable pub bind :
    Bool → Bool → Region → ℕ → ℕ → Option Vmo → ℕ → ℕ → CacheMode → Result ℕ × Region
bind room linked r vaddr size vmo offset prot cache =
    let added : Bool = elim vmo [ none ↦ true | some v ↦ linked ] in
    let (placed, r') =
      insert_slot room r vaddr size prot (binding vmo offset (mapped_cache vmo cache)) in
    elim placed [
      | ok slot ↦
          if added
          then (ok 0, r')
          else (err oom, record r' { children = erase slot.base r'.children })
      | err e ↦ (err e, r')
      | fault ↦ (fault, r')
    ]

unfoldable pub map_locked :
    Bool → Bool → Region → ℕ → ℕ → Option Vmo → ℕ → ℕ → CacheMode → Result ℕ × Region
map_locked room linked r vaddr size vmo offset prot cache =
    let checked : Result ℕ = elim vmo [ none ↦ ok 0 | some v ↦ vmo_fits v offset size ] in
    elim checked [
      | ok z ↦ bind room linked r vaddr size vmo offset prot cache
      | err e ↦ (err e, r)
      | fault ↦ (fault, r)
    ]

-- The search of `map_anywhere`.
unfoldable pub scan : ℕ → ℕ → List Slot → ℕ
scan size cursor [] = cursor
scan size cursor (c ∷ cs) =
    let skip = scan size cursor cs in
    let past = scan size (slot_end c) cs in
    if leb (slot_end c) cursor
    then skip
    else if leb cursor c.base && leb size (c.base - cursor)
    then cursor
    else past

unfoldable pub map_anywhere :
    Bool → Bool → Region → ℕ → ℕ → Option Vmo → ℕ → ℕ → CacheMode → Result ℕ × Region
map_anywhere room linked r floor size vmo offset prot cache =
    let cursor = scan size (if ltb r.base floor then floor else r.base) r.children in
    let (mapped, r') = map_locked room linked r cursor size vmo offset prot cache in
    if (size == 0 || not (page_aligned size)) || not (page_aligned floor)
    then (err invalid_operation, r)
    else if ltb (region_end r) cursor || ltb (region_end r - cursor) size
    then (err capacity_exhausted, r)
    else elim mapped [ ok z ↦ (ok cursor, r') | err e ↦ (err e, r') | fault ↦ (fault, r') ]

unfoldable pub unmap_binding : Region → ℕ → Result ℕ × Region
unmap_binding r vaddr = elim (find_le vaddr r.children) [
  | none ↦ (err out_of_range, r)
  | some c ↦
      if leb (slot_end c) vaddr || not (is_binding c)
      then (err out_of_range, r)
      else (ok 0, record r { children = erase c.base r.children })
]

-- Whether a slot is cut by the range.
unfoldable pub cut : ℕ → ℕ → List Slot → Bool
cut base end [] = false
cut base end (c ∷ cs) =
    let overlaps = ltb c.base end && ltb base (slot_end c) in
    let contained = leb base c.base && leb (slot_end c) end in
    (overlaps && not contained) || cut base end cs

-- The removals of `unmap`, from `lower_bound(base)` on.
unfoldable pub remove_range : ℕ → ℕ → List Slot → List Slot
remove_range base end [] = []
remove_range base end (c ∷ cs) =
    let rest = remove_range base end cs in
    if ltb c.base base then c ∷ rest else if ltb c.base end then rest else c ∷ cs

unfoldable pub unmap : Region → ℕ → ℕ → Result ℕ × Region
unmap r base size =
    let end = (base + size) % 2 ^ 64 in
    if (ltb end base || ltb base r.base) || ltb (region_end r) end
    then (err out_of_range, r)
    else if cut base end r.children
    then (err invalid_operation, r)
    else (ok 0, record r { children = remove_range base end r.children })
