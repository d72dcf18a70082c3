-- ===== src/HandleTable/Packing.antt =====
-- `pack_handle` and `unpack_handle`: the handle as user code sees it.
use archipelago.Prelude.{◌+◌, ◌*◌, ◌%◌, ◌^◌, ◌<◌, ◌≤◌, ◌≡◌, arith}
use archipelago.Prelude.Bits.{bit_or-disjoint}
use archipelago.HandleTable.{HandleId, pack_handle, unpack_handle, max_generation}

pack-sum :
    (id : HandleId)
    → id.index < 2 ^ 32
    → id.generation < 2 ^ 32
    → pack_handle id ≡ id.index + id.generation * 2 ^ 32
unfolding pack_handle
pack-sum id i g =
    let fits : id.generation * 2 ^ 32 % 2 ^ 64 ≡ id.generation * 2 ^ 32 = omega arith in
    rw fits (bit_or-disjoint 32 id.index id.generation i)

-- A packed handle of 32-bit parts unpacks to what was packed, and where the generation is within the
-- table's limit, the sign bit of the packed word is clear.
pub unpack-pack :
    (id : HandleId)
    → id.index < 2 ^ 32
    → id.generation < 2 ^ 32
    → (unpack_handle (pack_handle id) ≡ id)
      × (id.generation ≤ max_generation → pack_handle id < 2 ^ 63)
unfolding unpack_handle
unpack-pack id i g = let p = pack-sum id i g in (ground (arith, p), λ h. omega (arith, p))
