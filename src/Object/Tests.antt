-- ===== src/Object/Tests.antt =====
-- A registry with one type: the theorems at a second one.
use archipelago.Prelude.{
  ◌+◌, ◌%◌, ◌^◌, ◌<◌, ◌≡◌, refl, arith, some, [], ◌∷◌, ok, if◌then◌else◌, ◌==◌,
}
use archipelago.Object.Registry.{
  TypeDescriptor, TypeRegistry, max_types, register_type, is_duplicate, lookup, index_for_id,
  find_index, live_count, on_object_created, on_object_destroyed,
}
use archipelago.Object.Registry.Lookup.{register_type-lookup, created-live_count}

abbrev channel : TypeDescriptor
channel = record { id = 5; name = "channel"; valid_rights = 47; default_rights = 47 }

abbrev socket : TypeDescriptor
socket = record { id = 7; name = "socket"; valid_rights = 35; default_rights = 35 }

abbrev registry : TypeRegistry
registry = record { types = channel ∷ []; instance_counts = 3 ∷ 0 ∷ [] }

registered : (register_type registry socket).0 ≡ ok 1
unfolding register_type is_duplicate
registered = refl

register_type-lookup_example :
    (lookup (register_type registry socket).1 5
      ≡ (if socket.id == 5 then some socket else lookup registry 5))
    × (1 < max_types)
register_type-lookup_example = register_type-lookup registry socket 1 5 registered

channel_index : index_for_id registry 5 ≡ some 0
unfolding index_for_id find_index
channel_index = refl

three_alive : live_count registry 5 < 2 ^ 32
unfolding live_count index_for_id find_index
three_alive = omega arith

created-live_count_example :
    (live_count (on_object_created registry 5) 5
      ≡ (if 5 == 5 then (live_count registry 5 + 1) % 2 ^ 32 else live_count registry 5))
    × (live_count (on_object_destroyed (on_object_created registry 5) 5) 5 ≡ live_count registry 5)
created-live_count_example =
    created-live_count registry 5 5 0 channel_index (omega arith) three_alive
