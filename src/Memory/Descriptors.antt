-- ===== src/Memory/Descriptors.antt =====
-- mm/page_descriptor.cpp and includes/kernel/mm/page_descriptor.h: the state of every frame, in an
-- array indexed by frame number. `none` stands for the table before `init`.
use archipelago.Prelude.{
  ℕ, zero, suc, ◌+◌, ◌*◌, ◌/◌, Bool, true, false, Option, none, some, List, [], ◌∷◌, if◌then◌else◌,
  get_elem?, set,
}
use archipelago.Memory.Frames.{page_size}

pub data PageState : Type 0 where
  mmio wired free zeroed active : PageState

-- The field `owner` is the identity of a VMO.
pub record PageDescriptor : Type 0 where
  pub owner : Option ℕ
  pub offset : ℕ
  pub share_count : ℕ
  pub state : PageState

abbrev pub Descriptors : Type 0
Descriptors = Option (List PageDescriptor)

unfoldable pub lookup : Descriptors → ℕ → Option PageDescriptor
lookup none paddr = none
lookup (some array) paddr = get_elem? array (paddr / page_size)

unfoldable pub set_state : Descriptors → ℕ → PageState → Descriptors
set_state none paddr state = none
set_state (some array) paddr state = elim (get_elem? array (paddr / page_size)) [
  | none ↦ some array
  | some d ↦ some (set array (paddr / page_size) (record d { state = state }))
]

-- `mark_range`, from the `i`th page on.
unfoldable pub mark_from : Descriptors → ℕ → ℕ → ℕ → PageState → Descriptors
mark_from ds base zero i state = ds
mark_from ds base (suc pages) i state =
    mark_from (set_state ds (base + i * page_size) state) base pages (i + 1) state

unfoldable pub mark_range : Descriptors → ℕ → ℕ → PageState → Descriptors
mark_range ds base pages state = mark_from ds base pages 0 state

abbrev pub same_state : PageState → PageState → Bool
same_state PageState.mmio PageState.mmio = true
same_state PageState.wired PageState.wired = true
same_state PageState.free PageState.free = true
same_state PageState.zeroed PageState.zeroed = true
same_state PageState.active PageState.active = true
same_state a b = false

unfoldable pub count_states : PageState → List PageDescriptor → ℕ
count_states state [] = 0
count_states state (d ∷ ds) =
    let rest = count_states state ds in if same_state d.state state then rest + 1 else rest

unfoldable pub count : Descriptors → PageState → ℕ
count none state = 0
count (some array) state = count_states state array
