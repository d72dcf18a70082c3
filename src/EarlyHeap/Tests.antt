-- ===== src/EarlyHeap/Tests.antt =====
-- A heap of one page with one block in use: the theorems at concrete calls.
use archipelago.Prelude.{◌≡◌, refl, sym, ◌∙◌, subst, arith, true, false, Option, some, [], ◌∷◌}
use mathlib.Core.Option.{some-injective}
use archipelago.EarlyHeap.{
  Block, EarlyHeap, alloc, alloc_block, fit, split, cut, align_up, is_power_of_two, free,
  free_block, absorb, on_boot, align_down,
}
use archipelago.EarlyHeap.Layout.{Inv, fresh, BootOutcome, on_boot-Booted}
use archipelago.EarlyHeap.Alloc.{Granted, alloc-Granted}
use archipelago.EarlyHeap.RoundTrip.{Restored, free-alloc}
use archipelago.EarlyHeap.Free.{Returned, free-Returned}

abbrev used : Block
used = record { address = 0x1000; size = 0x30; free = false; payload_base = 0x1020 }

abbrev rest : Block
rest = record { address = 0x1030; size = 0xfd0; free = true; payload_base = 0 }

abbrev heap : EarlyHeap
heap = record {
  blocks = used ∷ rest ∷ [];
  heap_start = 0x1000;
  heap_end = 0x2000;
  alloc_calls = 1;
  free_calls = 0;
}

heap-Inv : Inv heap
heap-Inv = record {
  positive = omega arith;
  bounded = omega arith;
  tiled = (
    refl,
    record {
      aligned = refl;
      header = omega arith;
      unused = λ h. absurd (cc h);
      payload = λ h. (omega arith, omega arith);
    },
    (
      refl,
      record {
        aligned = refl;
        header = omega arith;
        unused = λ h. refl;
        payload = λ h. absurd (cc h);
      },
      refl,
    ),
  );
  coalesced = ((λ h. absurd (cc h)), ((λ h. refl), tt));
}

-- The first allocation of a fresh heap.
first : alloc (fresh 0x1000 0x2000) 0x10 1 ≡ some (0x1020, heap)
unfolding alloc alloc_block fit split cut align_up is_power_of_two
first = refl

back : free heap 0x1020 ≡ some (record (fresh 0x1000 0x2000) { alloc_calls = 1; free_calls = 1 })
unfolding free free_block absorb
back = refl

alloc-Granted_example : Granted heap 0x100 0x40 (alloc heap 0x100 0x40)
alloc-Granted_example = alloc-Granted heap 0x100 0x40 heap-Inv (omega arith)

free-Returned_example : Returned heap 0x1020 (free heap 0x1020)
free-Returned_example = free-Returned heap 0x1020 heap-Inv

on_boot-Booted_example : BootOutcome 0xfff 0x2003 (on_boot 0xfff 0x2003)
on_boot-Booted_example = on_boot-Booted 0xfff 0x2003 (omega arith) (omega arith) (omega arith)

booted : on_boot 0xfff 0x2003 ≡ some (fresh 0x1000 0x2000)
unfolding on_boot align_up align_down
booted = refl

booted-Inv :
    (out : Option EarlyHeap) (heap : EarlyHeap)
    → out ≡ some heap
    → BootOutcome 0xfff 0x2003 out
    → Inv heap
booted-Inv out heap h (BootOutcome.up heap' e b) = subst Inv (some-injective _ _ (sym e ∙ h)) b.inv
booted-Inv out heap h (BootOutcome.panicked e short) = absurd (cc (e, h))

fresh-Inv : Inv (fresh 0x1000 0x2000)
fresh-Inv = booted-Inv _ _ booted on_boot-Booted_example

free-alloc_example : Restored (fresh 0x1000 0x2000) heap 0x1020
free-alloc_example =
    free-alloc (fresh 0x1000 0x2000) heap 0x10 1 0x1020 fresh-Inv (omega arith) (omega arith) first
