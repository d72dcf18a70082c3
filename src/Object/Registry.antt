-- ===== src/Object/Registry.antt =====
-- obj/type_registry.cpp: the kernel's table of object types, with the rights that each allows.
pub mod Lookup
use Prim.Native.String.{String}
use text.Mathlib.Text.{◌==◌ as str_eq}
use archipelago.Prelude.{
  ℕ, ◌+◌, ◌-◌, ◌%◌, ◌^◌, Bool, false, ◌||◌, Option, none, some, List, [], ◌∷◌, ◌++◌, leb, ◌==◌,
  if◌then◌else◌, length, get_elem?, set, Result, ok, err,
}
use archipelago.Prelude.Errc.{already_registered, registry_full}

-- `string_view` is a text: the registry only compares names.
pub record TypeDescriptor : Type 0 where
  pub id : ℕ
  pub name : String
  pub valid_rights : ℕ
  pub default_rights : ℕ

-- `types` is `m_types[0 .. m_count)`; the counts stand for all `MAX_TYPES` atomics.
pub record TypeRegistry : Type 0 where
  pub types : List TypeDescriptor
  pub instance_counts : List ℕ

abbrev pub max_types : ℕ
max_types = 64

-- `ktl::find_if` and `ktl::find_index_if` over the registered types.
unfoldable pub find_type : ℕ → List TypeDescriptor → Option TypeDescriptor
find_type id [] = none
find_type id (t ∷ ts) = if t.id == id then some t else find_type id ts

unfoldable pub find_index : ℕ → ℕ → List TypeDescriptor → Option ℕ
find_index id i [] = none
find_index id i (t ∷ ts) = if t.id == id then some i else find_index id (i + 1) ts

unfoldable pub is_duplicate : ℕ → String → List TypeDescriptor → Bool
is_duplicate id name [] = false
is_duplicate id name (t ∷ ts) = (t.id == id || str_eq t.name name) || is_duplicate id name ts

unfoldable pub lookup : TypeRegistry → ℕ → Option TypeDescriptor
lookup r id = find_type id r.types

unfoldable pub register_type : TypeRegistry → TypeDescriptor → Result ℕ × TypeRegistry
register_type r d =
    if leb max_types (length r.types)
    then (err registry_full, r)
    else if is_duplicate d.id d.name r.types
    then (err already_registered, r)
    else (ok (length r.types), record r { types = r.types ++ d ∷ [] })

unfoldable pub index_for_id : TypeRegistry → ℕ → Option ℕ
index_for_id r id = find_index id 0 r.types

-- The counters are uint32_t, and both ways of counting wrap.
unfoldable pub bump_count : (ℕ → ℕ) → TypeRegistry → ℕ → TypeRegistry
unfolding index_for_id
bump_count f r id = elim (index_for_id r id) [
  | none ↦ r
  | some i ↦ elim (get_elem? r.instance_counts i) [
    | none ↦ r
    | some n ↦ record r { instance_counts = set r.instance_counts i (f n) }
  ]
]

unfoldable pub on_object_created : TypeRegistry → ℕ → TypeRegistry
on_object_created = bump_count λ n. (n + 1) % 2 ^ 32

unfoldable pub on_object_destroyed : TypeRegistry → ℕ → TypeRegistry
on_object_destroyed = bump_count λ n. (n + 2 ^ 32 - 1) % 2 ^ 32

unfoldable pub live_count : TypeRegistry → ℕ → ℕ
live_count r id = elim (index_for_id r id) [
  | none ↦ 0
  | some i ↦ elim (get_elem? r.instance_counts i) [ none ↦ 0 | some n ↦ n ]
]
