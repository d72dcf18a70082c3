-- ===== src/Region/Tests.antt =====
-- A region of sixteen pages with one slot of two pages: the theorems at concrete calls.
use archipelago.Prelude.{◌≡◌, ◌≤◌, refl, arith, true, none, [], ◌∷◌, inl, ok, err}
use archipelago.Prelude.Errc.{capacity_exhausted}
use archipelago.Region.{
  Slot, Region, binding, CacheMode, insert_slot, map_locked, map_anywhere, prot_within,
  page_aligned, scan, bind, collides, find_le,
}
use archipelago.Region.Layout.{Inv}
use archipelago.Region.Calls.{Fits, Inserted, insert_slot-Inserted}
use archipelago.Region.Anywhere.{map_anywhere-Fits, map_anywhere_least, map_anywhere_exhausted}

abbrev stack : Slot
stack = record {
  base = 0x12000;
  size = 0x2000;
  prot = 3;
  content = binding none 0 CacheMode.cached;
}

abbrev region : Region
region = record { base = 0x10000; size = 0x10000; max_prot = 7; children = stack ∷ [] }

region-Inv : Inv region
unfolding prot_within
region-Inv = record {
  in_memory = omega arith;
  laid = (
    omega arith,
    record { not_empty = omega arith; base_aligned = refl; size_aligned = refl; within = refl },
    omega arith,
  );
}

insert_slot-Inserted_example :
    Inserted true region 0x14000 0x1000 1
      (binding none 0 CacheMode.cached)
      (insert_slot true region 0x14000 0x1000 1 (binding none 0 CacheMode.cached))
insert_slot-Inserted_example =
    insert_slot-Inserted true region 0x14000 0x1000 1 (binding none 0 CacheMode.cached) region-Inv
      (omega arith) (omega arith)

-- Three pages do not fit below the slot.
placed : (map_anywhere true true region 0x10000 0x3000 none 0 1 CacheMode.cached).0 ≡ ok 0x14000
unfolding map_anywhere map_locked bind insert_slot scan prot_within page_aligned collides find_le
placed = refl

map_anywhere-Fits_example : (0x10000 ≤ 0x14000) × Fits region 0x14000 0x3000 1
map_anywhere-Fits_example =
    map_anywhere-Fits true true region none 0 1 CacheMode.cached region-Inv 0x10000 0x3000 0x14000
      (omega arith) placed

later-Fits : Fits region 0x18000 0x3000 1
unfolding prot_within
later-Fits = record {
  not_empty = omega arith;
  base_aligned = refl;
  size_aligned = refl;
  above = omega arith;
  below = omega arith;
  within = refl;
  free = (inl (omega arith), tt);
}

map_anywhere_least_example : 0x14000 ≤ 0x18000
map_anywhere_least_example =
    map_anywhere_least true true region none 0 1 CacheMode.cached region-Inv 0x10000 0x3000 0x14000
      0x18000 placed (omega arith) later-Fits

none_left :
    (map_anywhere true true region 0x10000 0xd000 none 0 1 CacheMode.cached).0
    ≡ err capacity_exhausted
unfolding map_anywhere map_locked bind insert_slot scan prot_within page_aligned collides find_le
none_left = refl

map_anywhere_exhausted_example : ¬ (Fits region 0x13000 0xd000 1)
map_anywhere_exhausted_example =
    map_anywhere_exhausted true true region none 0 1 CacheMode.cached region-Inv 0x10000 0xd000
      0x13000 none_left (omega arith)
